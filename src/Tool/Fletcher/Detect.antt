-- ===== src/Tool/Fletcher/Detect.antt =====
-- Which corruptions of a frame's payload the checksum of `tool::fletcher16` shows.
use xchange.Prelude.{
  ℕ, ◌+◌, ◌*◌, ◌%◌, ◌<◌, ◌≡◌, ◌≢◌, arith, [], ◌∷◌, ◌++◌, Bytes, IsByte, AreBytes, All-append,
}
use xchange.Tool.Fletcher.{fletcher16}
use xchange.Tool.Fletcher.Sums.{sums, sums-lt, sums-append, fletcher16-sums}

-- What follows keeps two different first sums apart, and two different second sums.
sums-injective_first :
    (bs : Bytes) (c0 d0 c1 d1 : ℕ)
    → c0 < 255
    → d0 < 255
    → (sums c0 c1 bs).0 ≡ (sums d0 d1 bs).0
    → c0 ≡ d0
unfolding sums
sums-injective_first [] c0 d0 c1 d1 h g e = e
sums-injective_first (b ∷ bs) c0 d0 c1 d1 h g e = omega (
  arith,
  sums-injective_first bs ((c0 + b) % 255) ((d0 + b) % 255) _ _ (omega arith) (omega arith) e,
)

sums-injective_second :
    (bs : Bytes) (c0 c1 d1 : ℕ)
    → c1 < 255
    → d1 < 255
    → (sums c0 c1 bs).1 ≡ (sums c0 d1 bs).1
    → c1 ≡ d1
unfolding sums
sums-injective_second [] c0 c1 d1 h g e = e
sums-injective_second (b ∷ bs) c0 c1 d1 h g e =
    let c0' = (c0 + b) % 255 in
    omega (
      arith,
      sums-injective_second bs c0' ((c1 + c0') % 255) ((d1 + c0') % 255) (omega arith) (omega arith)
          e,
    )

sums_of_fletcher16 :
    (xs ys : Bytes)
    → AreBytes xs
    → AreBytes ys
    → fletcher16 xs ≡ fletcher16 ys
    → ((sums 0 0 xs).0 ≡ (sums 0 0 ys).0) × ((sums 0 0 xs).1 ≡ (sums 0 0 ys).1)
sums_of_fletcher16 xs ys hx hy e = omega (
  arith,
  fletcher16-sums xs hx,
  fletcher16-sums ys hy,
  sums-lt xs 0 0 (omega arith) (omega arith),
  sums-lt ys 0 0 (omega arith) (omega arith),
)

sums_two :
    (ys : Bytes) (c0 c1 a b : ℕ)
    → sums c0 c1 (a ∷ b ∷ ys) ≡ sums ((c0 + a + b) % 255) ((c1 + 2 * c0 + 2 * a + b) % 255) ys
unfolding sums
sums_two ys c0 c1 a b =
    let e0 : ((c0 + a) % 255 + b) % 255 ≡ (c0 + a + b) % 255 = omega arith in
    let e1 : ((c1 + (c0 + a) % 255) % 255 + ((c0 + a) % 255 + b) % 255) % 255
        ≡ (c1 + 2 * c0 + 2 * a + b) % 255 =
      omega arith in
    cc (e0, e1)

module _ (xs ys : Bytes) (a b : ℕ) (hx : AreBytes xs) (hy : AreBytes ys) (ha : IsByte a)
    (hb : IsByte b) (differ : a % 255 ≢ b % 255) where
  start-lt : ((sums 0 0 xs).0 < 255) × ((sums 0 0 xs).1 < 255)
  start-lt = sums-lt xs 0 0 (omega arith) (omega arith)

  -- In a buffer of bytes, replacing one byte by another that differs from it modulo 255 changes
  -- the checksum, wherever the byte stands.
  pub fletcher16_byte_change : fletcher16 (xs ++ (a ∷ ys)) ≢ fletcher16 (xs ++ (b ∷ ys))
  unfolding sums
  fletcher16_byte_change e =
      let c = sums 0 0 xs in
      let same =
        sums_of_fletcher16 (xs ++ (a ∷ ys)) (xs ++ (b ∷ ys)) (All-append _ xs _ hx (ha, hy))
          (All-append _ xs _ hx (hb, hy)) e in
      let same' = rw (sums-append xs (a ∷ ys) 0 0, sums-append xs (b ∷ ys) 0 0) at (same.0) in
      differ (
        omega (
          arith,
          sums-injective_first ys ((c.0 + a) % 255) ((c.0 + b) % 255) _ _ (omega arith)
              (omega arith) same',
        ))

  -- In a buffer of bytes, exchanging two neighbouring bytes that differ modulo 255 changes the
  -- checksum, wherever they stand.
  pub fletcher16_swap : fletcher16 (xs ++ (a ∷ b ∷ ys)) ≢ fletcher16 (xs ++ (b ∷ a ∷ ys))
  fletcher16_swap e =
      let c = sums 0 0 xs in
      let same =
        sums_of_fletcher16 (xs ++ (a ∷ b ∷ ys)) (xs ++ (b ∷ a ∷ ys))
          (All-append _ xs _ hx (ha, (hb, hy))) (All-append _ xs _ hx (hb, (ha, hy))) e in
      let k0 : (c.0 + b + a) % 255 ≡ (c.0 + a + b) % 255 = omega arith in
      let same' =
        rw
          (
            sums-append xs (a ∷ b ∷ ys) 0 0,
            sums-append xs (b ∷ a ∷ ys) 0 0,
            sums_two ys c.0 c.1 a b,
            sums_two ys c.0 c.1 b a,
            k0,
          )
          at (same.1) in
      differ (
        omega (
          arith,
          sums-injective_second ys ((c.0 + a + b) % 255) ((c.1 + 2 * c.0 + 2 * a + b) % 255)
              ((c.1 + 2 * c.0 + 2 * b + a) % 255) (omega arith) (omega arith) same',
        ))
