-- ===== src/Crypto/Counter.antt =====
-- `incrementIV` as a counter, and the nonces that it makes in one transmission.
use xchange.Prelude.{
  ℕ, zero, suc, ◌+◌, ◌*◌, ◌^◌, ◌≤◌, ◌<◌, ◌≡◌, refl, ap, ◌∙◌, ◌≢◌, ◌⊎◌, inl, inr, arith, [], ◌∷◌,
  Bytes, AreBytes, length,
}
use native.Mathlib.Nat.{pow-suc}
use native.Mathlib.Decide.{dec_le}
use xchange.Crypto.{increment_iv}

-- The number that the bytes stand for, lowest byte first.
unfoldable pub value : Bytes → ℕ
value [] = 0
value (b ∷ bs) = b + 256 * value bs

pub value-lt : (bs : Bytes) → AreBytes bs → value bs < 256 ^ length bs
unfolding value
value-lt [] h = omega arith
value-lt (b ∷ bs) h = omega (arith, pow-suc 256 (length bs), value-lt bs h.1)

pub increment_iv-AreBytes : (bs : Bytes) → AreBytes bs → AreBytes (increment_iv bs)
unfolding increment_iv
increment_iv-AreBytes [] h = h
increment_iv-AreBytes (b ∷ bs) h = ground (arith, increment_iv-AreBytes bs h.1)

pub length-increment_iv : (bs : Bytes) → length (increment_iv bs) ≡ length bs
unfolding increment_iv
length-increment_iv [] = refl
length-increment_iv (b ∷ bs) = ground (arith, length-increment_iv bs)

-- One increment adds 1, or goes from the largest value to 0.
increment_iv_cases :
    (bs : Bytes)
    → AreBytes bs
    → (value (increment_iv bs) ≡ value bs + 1)
      ⊎ ((value (increment_iv bs) ≡ 0) × (value bs + 1 ≡ 256 ^ length bs))
unfolding increment_iv value
increment_iv_cases [] h = ground arith
increment_iv_cases (b ∷ bs) h = ground (arith, pow-suc 256 (length bs), increment_iv_cases bs h.1)

-- The iv after `k` frames.
unfoldable pub nonce : ℕ → Bytes → Bytes
nonce zero iv = iv
nonce (suc k) iv = increment_iv (nonce k iv)

nonce-AreBytes : (k : ℕ) (iv : Bytes) → AreBytes iv → AreBytes (nonce k iv)
unfolding nonce
nonce-AreBytes zero iv h = h
nonce-AreBytes (suc k) iv h = increment_iv-AreBytes _ (nonce-AreBytes k iv h)

length-nonce : (k : ℕ) (iv : Bytes) → length (nonce k iv) ≡ length iv
unfolding nonce
length-nonce zero iv = refl
length-nonce (suc k) iv = length-increment_iv (nonce k iv) ∙ length-nonce k iv

-- `k` increments add `k`, less some multiple of the number of nonces.
value-nonce :
    (k : ℕ) (iv : Bytes)
    → AreBytes iv
    → (q : ℕ) × (value (nonce k iv) + q * 256 ^ length iv ≡ value iv + k)
unfolding nonce
value-nonce zero iv h = (0, omega arith)
value-nonce (suc k) iv h =
    let (q, e) = value-nonce k iv h in
    let step = increment_iv_cases (nonce k iv) (nonce-AreBytes k iv h) in
    let len = ap (λ (n : ℕ). 256 ^ n) (length-nonce k iv) in
    elim step [
      | inl up ↦ (q, omega (arith, e, up))
      | inr wrap ↦ (q + 1, omega (arith, e, wrap, len))
    ]

apart : (M v v0 i j p q : ℕ) → i < j → j < i + M → v + p * M ≡ v0 + i → v + q * M ≡ v0 + j → ⊥
apart M v v0 i j p q lt near e f = elim (dec_le q p) [
  | yes le ↦ let m : q * M ≤ p * M = grind arith in omega arith
  | no gt ↦ let m : (p + 1) * M ≤ q * M = grind arith in omega arith
]

-- The nonces of two different frames differ, as long as there are fewer than 256 ^ length
-- frames between them.
pub nonce-ne :
    (iv : Bytes) (i j : ℕ) → AreBytes iv → i < j → j < i + 256 ^ length iv → nonce i iv ≢ nonce j iv
nonce-ne iv i j h lt near e =
    let (p, ep) = value-nonce i iv h in
    let (q, eq) = value-nonce j iv h in
    apart (256 ^ length iv) (value (nonce i iv)) (value iv) i j p q lt near ep
      (omega (arith, eq, ap value e))
