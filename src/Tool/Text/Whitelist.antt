-- ===== src/Tool/Text/Whitelist.antt =====
-- `splitEncryptionWhitelist` of src/xchange.hpp on lists of names.
use xchange.Prelude.{ℕ, ◌≤◌, ◌≡◌, ◌≢◌, refl, ap, ◌∙◌, arith, List, [], ◌∷◌, Bytes, All}
use xchange.Tool.Text.{
  text_pln, text_cha, text_xch, text_aes, selection_to_sec_version, versions_of, tokens,
  split_encryption_whitelist,
}
use xchange.Tool.Text.Split.{Without, join, EndsFull, tokens-join}

-- A name of `selectionToSecVersionMap`.
pub data Name : Type 0 where
  pln cha xch aes : Name

abbrev pub text : Name → Bytes
text pln = text_pln
text cha = text_cha
text xch = text_xch
text aes = text_aes

abbrev pub version : Name → ℕ
version pln = 1
version cha = 2
version xch = 3
version aes = 4

abbrev pub texts : List Name → List Bytes
texts [] = []
texts (n ∷ ns) = text n ∷ texts ns

abbrev pub versions : List Name → List ℕ
versions [] = []
versions (n ∷ ns) = version n ∷ versions ns

text-Without : (n : Name) → Without b',' (text n)
text-Without pln = omega arith
text-Without cha = omega arith
text-Without xch = omega arith
text-Without aes = omega arith

texts-Without : (ns : List Name) → All (Without b',') (texts ns)
texts-Without [] = tt
texts-Without (n ∷ ns) = (text-Without n, texts-Without ns)

text-ne-nil : (n : Name) → text n ≢ []
text-ne-nil pln e = cc
text-ne-nil cha e = cc
text-ne-nil xch e = cc
text-ne-nil aes e = cc

texts-EndsFull : (ns : List Name) → EndsFull (texts ns)
texts-EndsFull [] = tt
texts-EndsFull (n ∷ []) = text-ne-nil n
texts-EndsFull (n ∷ m ∷ ns) = texts-EndsFull (m ∷ ns)

versions_of-texts : (ns : List Name) → versions_of (texts ns) ≡ versions ns
unfolding versions_of selection_to_sec_version
versions_of-texts [] = refl
versions_of-texts (pln ∷ ns) = ap (◌∷◌ 1) (versions_of-texts ns)
versions_of-texts (cha ∷ ns) = ap (◌∷◌ 2) (versions_of-texts ns)
versions_of-texts (xch ∷ ns) = ap (◌∷◌ 3) (versions_of-texts ns)
versions_of-texts (aes ∷ ns) = ap (◌∷◌ 4) (versions_of-texts ns)

-- A whitelist of known names with commas between them gives their versions, in order.
pub split_encryption_whitelist-join :
    (ns : List Name) → split_encryption_whitelist (join b',' (texts ns)) ≡ versions ns
unfolding split_encryption_whitelist
split_encryption_whitelist-join ns =
    ap versions_of (tokens-join b',' (texts ns) (texts-Without ns) (texts-EndsFull ns))
    ∙ versions_of-texts ns

-- Whatever the text is, every version on the list is one of the four.
pub split_encryption_whitelist_known :
    (s : Bytes) → All (λ sv. (1 ≤ sv) × (sv ≤ 4)) (split_encryption_whitelist s)
unfolding split_encryption_whitelist
split_encryption_whitelist_known s = known (tokens b',' s)
  where
    known : (ts : List Bytes) → All (λ sv. (1 ≤ sv) × (sv ≤ 4)) (versions_of ts)
    known [] = tt
    known (t ∷ ts) = ground (arith, known ts)
