-- ===== src/Tool/Text/Split.antt =====
-- What the `getline` loops of `splitEncryptionWhitelist` and `filename_from_path` return.
use xchange.Prelude.{
  ℕ, ◌≡◌, ◌≢◌, refl, sym, ap, ◌∙◌, arith, Bool, true, false, some, List, [], ◌∷◌, ◌++◌, append-nil,
  append_assoc, Bytes, All, All-append, ◌==◌, Bool-cases, inl, inr, if◌then◌else◌,
}
use xchange.Tool.Text.{flush, tokens_from, tokens, last, filename_from_path}

-- The text has no delimiter in it.
abbrev pub Without : ℕ → Bytes → Type 0
Without delim = All (λ c. c ≢ delim)

tokens_from_end :
    (delim : ℕ) (token cs : Bytes)
    → Without delim cs
    → tokens_from delim token cs ≡ flush (token ++ cs)
unfolding tokens_from
tokens_from_end delim token [] h = ap flush (sym (append-nil token))
tokens_from_end delim token (c ∷ cs) (hc, h) =
    let other : (c == delim) ≡ false = ground arith in
    rw other
      (tokens_from_end delim (token ++ (c ∷ [])) cs h ∙ ap flush (append_assoc token (c ∷ []) cs))

tokens_from_cut :
    (delim : ℕ) (token cs rest : Bytes)
    → Without delim cs
    → tokens_from delim token (cs ++ (delim ∷ rest)) ≡ (token ++ cs) ∷ tokens_from delim [] rest
unfolding tokens_from
tokens_from_cut delim token [] rest h =
    let same : (delim == delim) ≡ true = ground arith in rw (same, append-nil token)
tokens_from_cut delim token (c ∷ cs) rest (hc, h) =
    let other : (c == delim) ≡ false = ground arith in
    rw other (
      tokens_from_cut delim (token ++ (c ∷ [])) cs rest h
      ∙ ap (λ t. t ∷ tokens_from delim [] rest) (append_assoc token (c ∷ []) cs))

-- The tokens with a delimiter between each two.
abbrev pub join : ℕ → List Bytes → Bytes
join delim [] = []
join delim (t ∷ []) = t
join delim (t ∷ u ∷ ts) = t ++ (delim ∷ join delim (u ∷ ts))

-- The last of them is not empty.
abbrev pub EndsFull : List Bytes → Type 0
EndsFull [] = Unit {0}
EndsFull (t ∷ []) = t ≢ []
EndsFull (t ∷ u ∷ ts) = EndsFull (u ∷ ts)

-- Tokens without the delimiter that are joined by it are read back, unless the last is empty.
pub tokens-join :
    (delim : ℕ) (ts : List Bytes)
    → All (Without delim) ts
    → EndsFull ts
    → tokens delim (join delim ts) ≡ ts
unfolding tokens
tokens-join delim [] h full = refl
tokens-join delim (t ∷ []) (ht, h) full = tokens_from_end delim [] t ht ∙ flush_full t full
  where
    flush_full : (t : Bytes) → t ≢ [] → flush t ≡ t ∷ []
    flush_full [] e = absurd (e refl)
    flush_full (x ∷ r) e = refl
tokens-join delim (t ∷ u ∷ ts) (ht, h) full =
    tokens_from_cut delim [] t (join delim (u ∷ ts)) ht
    ∙ ap (◌∷◌ t) (tokens-join delim (u ∷ ts) h full)

flush-Without :
    (delim : ℕ) (token : Bytes) → Without delim token → All (Without delim) (flush token)
unfolding flush
flush-Without delim [] h = tt
flush-Without delim (x ∷ token) h = (h, tt)

tokens_from-Without :
    (delim : ℕ) (token cs : Bytes)
    → Without delim token
    → All (Without delim) (tokens_from delim token cs)
unfolding tokens_from
tokens_from-Without delim token [] h = flush-Without delim token h
tokens_from-Without delim token (c ∷ cs) h = elim (Bool-cases (c == delim)) [
  | inl e ↦ rw e (h, tokens_from-Without delim [] cs tt)
  | inr e ↦
      let ne : c ≢ delim = ground arith in
      rw e
        (tokens_from-Without delim (token ++ (c ∷ [])) cs (All-append _ token (c ∷ []) h (ne, tt)))
]

last-Without :
    (delim : ℕ) (ts : List Bytes) (t : Bytes)
    → All (Without delim) ts
    → last ts ≡ some t
    → Without delim t
unfolding last
last-Without delim [] t h e = cc
last-Without delim (x ∷ []) t h e = ground (arith, h.0)
last-Without delim (x ∷ y ∷ r) t h e = last-Without delim (y ∷ r) t h.1 e

-- If `filename_from_path` returns a name for a path, the name has no slash in it.
pub filename_from_path-Without :
    (path name : Bytes) → filename_from_path path ≡ some name → Without b'/' name
unfolding filename_from_path
filename_from_path-Without path name e =
    last-Without b'/' (tokens b'/' path) name (unfold tokens in tokens_from-Without b'/' [] path tt)
      e

last-cons : (x : Bytes) (ts : List Bytes) {t : Bytes} → last ts ≡ some t → last (x ∷ ts) ≡ some t
unfolding last
last-cons x [] e = cc
last-cons x (y ∷ r) e = e

last_token :
    (delim : ℕ) (token dir name : Bytes)
    → Without delim name
    → name ≢ []
    → last (tokens_from delim token (dir ++ (delim ∷ name))) ≡ some name
unfolding tokens_from
last_token delim token [] name h full = rw (tokens_from_cut delim token [] name tt) (
    last-cons _ (tokens_from delim [] name)
      (rw (tokens_from_end delim [] name h) (last_flush name full)))
  where
    last_flush : (t : Bytes) → t ≢ [] → last (flush t) ≡ some t
    last_flush [] e = absurd (e refl)
    last_flush (x ∷ r) e = unfold flush last in refl
last_token delim token (c ∷ cs) name h full =
    let here = last_token delim [] cs name h full in
    let later = last_token delim (token ++ (c ∷ [])) cs name h full in
    pick (c == delim) token _ _ here later
  where
    pick :
        (b : Bool) (x : Bytes) (ts us : List Bytes)
        → last ts ≡ some name
        → last us ≡ some name
        → last (if b then x ∷ ts else us) ≡ some name
    pick true x ts us e f = last-cons x ts e
    pick false x ts us e f = f

-- The name of a path that ends in a slash and a name that is not empty and has no slash is that
-- name, whatever stands before the slash.
pub filename_from_path_name :
    (dir name : Bytes)
    → Without b'/' name
    → name ≢ []
    → filename_from_path (dir ++ (b'/' ∷ name)) ≡ some name
unfolding filename_from_path tokens
filename_from_path_name dir name h full = last_token b'/' [] dir name h full
