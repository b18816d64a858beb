-- ===== src/Tool/Text.antt =====
-- The string helpers of src/xchange.hpp: `splitEncryptionWhitelist`, `filename_from_path` and the
-- `getline` loops that they are made of.
pub mod Split
pub mod Whitelist
pub mod Name
use xchange.Prelude.{
  ℕ, Bool, true, false, Option, none, some, List, [], ◌∷◌, ◌++◌, Bytes, eqb, ◌==◌, if◌then◌else◌,
}
use xchange.Wire.{sv_plain, sv_chacha20, sv_xchacha20poly, sv_aes_gcm}

-- `while (getline(ss, token, delim)) tokens.push_back(token);`. What follows the last delimiter is
-- a token only if it is not empty; `token` holds what was read of it.
flush : Bytes → List Bytes
flush [] = []
flush (x ∷ token) = (x ∷ token) ∷ []

unfoldable pub tokens_from : ℕ → Bytes → Bytes → List Bytes
unfolding flush
tokens_from delim token [] = flush token
tokens_from delim token (c ∷ cs) =
    let next = tokens_from delim [] cs in
    let more = tokens_from delim (token ++ (c ∷ [])) cs in if c == delim then token ∷ next else more

unfoldable pub tokens : ℕ → Bytes → List Bytes
unfolding tokens_from
tokens delim s = tokens_from delim [] s

abbrev pub text_pln : Bytes
text_pln = b'p' ∷ b'l' ∷ b'n' ∷ []

abbrev pub text_cha : Bytes
text_cha = b'c' ∷ b'h' ∷ b'a' ∷ []

abbrev pub text_xch : Bytes
text_xch = b'x' ∷ b'c' ∷ b'h' ∷ []

abbrev pub text_aes : Bytes
text_aes = b'a' ∷ b'e' ∷ b's' ∷ []

-- `selectionToSecVersionMap`
unfoldable pub selection_to_sec_version : Bytes → Option ℕ
selection_to_sec_version s =
    if eqb s text_pln
    then some sv_plain
    else if eqb s text_cha
    then some sv_chacha20
    else if eqb s text_xch
    then some sv_xchacha20poly
    else if eqb s text_aes
    then some sv_aes_gcm
    else none

-- The loop over the tokens.
unfoldable pub versions_of : List Bytes → List ℕ
versions_of [] = []
versions_of (s ∷ ss) = elim (selection_to_sec_version s) [
  | none ↦ versions_of ss
  | some sv ↦ sv ∷ versions_of ss
]

unfoldable pub split_encryption_whitelist : Bytes → List ℕ
unfolding versions_of tokens selection_to_sec_version
split_encryption_whitelist s = versions_of (tokens b',' s)

unfoldable pub last : List Bytes → Option Bytes
last [] = none
last (x ∷ []) = some x
last (x ∷ y ∷ r) = last (y ∷ r)

-- `tokens.back()`; without a token it is undefined.
unfoldable pub filename_from_path : Bytes → Option Bytes
unfolding last tokens
filename_from_path path = last (tokens b'/' path)
