-- ===== src/Tool/Text/Name.antt =====
-- `filename_from_path` of a path that is not empty.
use xchange.Prelude.{
  ℕ, ◌+◌, ◌<◌, ◌≡◌, refl, ap, ◌∙◌, arith, some, List, [], ◌∷◌, ◌++◌, Bytes, length, length-append,
  ◌==◌, Bool-cases, inl, inr,
}
use xchange.Tool.Text.{flush, tokens_from, tokens, last, filename_from_path}

last-cons_some : (x : Bytes) (ts : List Bytes) → (t : Bytes) × (last (x ∷ ts) ≡ some t)
unfolding last
last-cons_some x [] = (x, refl)
last-cons_some x (y ∷ r) = last-cons_some y r

tokens_from-cons :
    (delim : ℕ) (token cs : Bytes)
    → 0 < length token + length cs
    → (x : Bytes) × (ts : List Bytes) × (tokens_from delim token cs ≡ x ∷ ts)
unfolding tokens_from flush
tokens_from-cons delim [] [] h = absurd (omega arith)
tokens_from-cons delim (x ∷ token) [] h = (x ∷ token, [], refl)
tokens_from-cons delim token (c ∷ cs) h = elim (Bool-cases (c == delim)) [
  | inl e ↦ (token, tokens_from delim [] cs, rw e)
  | inr e ↦
      rw e (
        tokens_from-cons delim (token ++ (c ∷ [])) cs (omega (arith, length-append token (c ∷ []))))
]

-- A path that is not empty has a last token, so `back()` is defined.
pub filename_from_path_total :
    (path : Bytes) → 0 < length path → (name : Bytes) × (filename_from_path path ≡ some name)
unfolding filename_from_path tokens
filename_from_path_total path h =
    let (x, ts, e) = tokens_from-cons b'/' [] path (omega arith) in
    let (t, found) = last-cons_some x ts in (t, ap last e ∙ found)
