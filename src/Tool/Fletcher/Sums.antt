-- ===== src/Tool/Fletcher/Sums.antt =====
-- The block-wise loop of `tool::fletcher16` against the textbook sums, reduced after every byte.
use xchange.Prelude.{
  ℕ, zero, suc, ◌+◌, ◌*◌, ◌%◌, ◌^◌, ◌≤◌, ◌<◌, ◌≡◌, refl, ap, arith, ltb, [], ◌∷◌, ◌++◌, Bytes,
  AreBytes, length, take, drop, take-append-drop, length-take, length-drop, All-take, All-drop,
  bit_or-eq-add, if◌then◌else◌,
}
use xchange.Tool.Fletcher.{max_block, sum_block, sum_blocks, fletcher16}

-- The Fletcher sums modulo 255.
unfoldable pub sums : ℕ → ℕ → Bytes → ℕ × ℕ
sums c0 c1 [] = (c0, c1)
sums c0 c1 (b ∷ bs) = let c0' = (c0 + b) % 255 in sums c0' ((c1 + c0') % 255) bs

-- What a block adds when nothing wraps.
pub exact : ℕ → ℕ → Bytes → ℕ × ℕ
exact c0 c1 [] = (c0, c1)
exact c0 c1 (b ∷ bs) = exact (c0 + b) (c1 + (c0 + b)) bs

exact-le :
    (bs : Bytes) (c0 c1 : ℕ)
    → AreBytes bs
    → (c0 ≤ (exact c0 c1 bs).0)
      × (c1 ≤ (exact c0 c1 bs).1)
      × ((exact c0 c1 bs).0 ≤ c0 + 255 * length bs)
      × (2 * (exact c0 c1 bs).1
          ≤ 2 * c1 + 2 * (length bs * c0) + 255 * (length bs * length bs + length bs))
unfolding exact
exact-le [] c0 c1 h = omega arith
exact-le (b ∷ bs) c0 c1 h =
    let ih = exact-le bs (c0 + b) (c1 + (c0 + b)) h.1 in
    let cross : length bs * b ≤ length bs * 255 = grind arith in omega (arith, ih, cross)

-- As long as the exact sums fit 32 bits, the wrapping ones are the exact ones.
sum_block-exact :
    (bs : Bytes) (c0 c1 : ℕ)
    → AreBytes bs
    → (exact c0 c1 bs).0 < 2 ^ 32
    → (exact c0 c1 bs).1 < 2 ^ 32
    → sum_block bs c0 c1 ≡ exact c0 c1 bs
unfolding sum_block exact
sum_block-exact [] c0 c1 h f g = refl
sum_block-exact (b ∷ bs) c0 c1 h f g =
    let bound = exact-le bs (c0 + b) (c1 + (c0 + b)) h.1 in
    let e0 : (c0 + b) % 2 ^ 32 ≡ c0 + b = omega arith in
    let e1 : (c1 + (c0 + b)) % 2 ^ 32 ≡ c1 + (c0 + b) = omega arith in
    rw (e0, e1) (sum_block-exact bs (c0 + b) (c1 + (c0 + b)) h.1 f g)

exact-sums :
    (bs : Bytes) (c0 c1 : ℕ)
    → ((exact c0 c1 bs).0 % 255 ≡ (sums (c0 % 255) (c1 % 255) bs).0)
      × ((exact c0 c1 bs).1 % 255 ≡ (sums (c0 % 255) (c1 % 255) bs).1)
unfolding exact sums
exact-sums [] c0 c1 = (refl, refl)
exact-sums (b ∷ bs) c0 c1 =
    let e0 : (c0 % 255 + b) % 255 ≡ (c0 + b) % 255 = omega arith in
    let e1 : (c1 % 255 + (c0 + b) % 255) % 255 ≡ (c1 + (c0 + b)) % 255 = omega arith in
    ground (arith, e0, e1, exact-sums bs (c0 + b) (c1 + (c0 + b)))

pub sums-lt :
    (bs : Bytes) (c0 c1 : ℕ)
    → c0 < 255
    → c1 < 255
    → ((sums c0 c1 bs).0 < 255) × ((sums c0 c1 bs).1 < 255)
unfolding sums
sums-lt [] c0 c1 h g = (h, g)
sums-lt (b ∷ bs) c0 c1 h g = sums-lt bs _ _ (omega arith) (omega arith)

pub sums-append :
    (xs ys : Bytes) (c0 c1 : ℕ)
    → sums c0 c1 (xs ++ ys) ≡ sums (sums c0 c1 xs).0 (sums c0 c1 xs).1 ys
unfolding sums
sums-append [] ys c0 c1 = refl
sums-append (x ∷ xs) ys c0 c1 = sums-append xs ys _ _

sum_block_fits :
    (bs : Bytes) (c0 c1 : ℕ)
    → AreBytes bs
    → length bs ≤ max_block
    → c0 < 255
    → c1 < 255
    → ((exact c0 c1 bs).0 < 2 ^ 32) × ((exact c0 c1 bs).1 < 2 ^ 32)
sum_block_fits bs c0 c1 h len f g =
    let bound = exact-le bs c0 c1 h in
    let square : length bs * length bs ≤ 5802 * length bs = grind arith in
    let cross : length bs * c0 ≤ length bs * 254 = grind arith in
    omega (arith, bound, square, cross)

-- On reduced sums and a block of at most 5802 bytes no `uint32_t` sum of the inner loop wraps: the
-- loop computes the exact sums.
pub sum_block-no_wrap :
    (bs : Bytes) (c0 c1 : ℕ)
    → AreBytes bs
    → length bs ≤ max_block
    → c0 < 255
    → c1 < 255
    → sum_block bs c0 c1 ≡ exact c0 c1 bs
sum_block-no_wrap bs c0 c1 h len f g =
    let fits = sum_block_fits bs c0 c1 h len f g in sum_block-exact bs c0 c1 h fits.0 fits.1

sum_block-sums :
    (bs : Bytes) (c0 c1 : ℕ)
    → AreBytes bs
    → length bs ≤ max_block
    → c0 < 255
    → c1 < 255
    → ((sum_block bs c0 c1).0 % 255 ≡ (sums c0 c1 bs).0)
      × ((sum_block bs c0 c1).1 % 255 ≡ (sums c0 c1 bs).1)
sum_block-sums bs c0 c1 h len f g =
    let e0 : c0 % 255 ≡ c0 = omega arith in
    let e1 : c1 % 255 ≡ c1 = omega arith in
    rw (sum_block-no_wrap bs c0 c1 h len f g) (rw (e0, e1) at (exact-sums bs c0 c1))

sum_blocks-sums :
    (fuel : ℕ) (bs : Bytes) (c0 c1 : ℕ)
    → AreBytes bs
    → length bs ≤ fuel
    → c0 < 255
    → c1 < 255
    → sum_blocks fuel bs c0 c1 ≡ sums c0 c1 bs
unfolding sum_blocks
sum_blocks-sums zero [] c0 c1 h len f g = unfold sums in refl
sum_blocks-sums zero (b ∷ bs) c0 c1 h len f g = absurd (omega arith)
sum_blocks-sums (suc fuel) [] c0 c1 h len f g = unfold sums in refl
sum_blocks-sums (suc fuel) (b ∷ bs) c0 c1 h len f g =
    let xs : Bytes = b ∷ bs in
    let n : ℕ = if ltb max_block (length xs) then max_block else length xs in
    let n_bounds : (1 ≤ n) × (n ≤ max_block) × (n ≤ length xs) = ground arith in
    let block : Bytes = take n xs in
    let reduced =
      sum_block-sums block c0 c1 (All-take _ n xs h) (omega (arith, length-take n xs)) f g in
    let bound = sums-lt block c0 c1 f g in
    let rest =
      sum_blocks-sums fuel (drop n xs) (sums c0 c1 block).0 (sums c0 c1 block).1 (All-drop _ n xs h)
        (omega (arith, length-drop n xs)) bound.0 bound.1 in
    ground (
      arith,
      reduced,
      rest,
      sums-append block (drop n xs) c0 c1,
      ap (sums c0 c1) (take-append-drop n xs),
    )

-- For every buffer of bytes `fletcher16` is the textbook checksum.
pub fletcher16-sums :
    (bs : Bytes) → AreBytes bs → fletcher16 bs ≡ (sums 0 0 bs).1 * 256 + (sums 0 0 bs).0
unfolding fletcher16
fletcher16-sums bs h =
    let bound = sums-lt bs 0 0 (omega arith) (omega arith) in
    let c0 = (sums 0 0 bs).0 in
    let c1 = (sums 0 0 bs).1 in
    rw (sum_blocks-sums (length bs) bs 0 0 h (omega arith) (omega arith) (omega arith)) (
      let e : c1 * 2 ^ 8 % 2 ^ 32 ≡ c1 * 2 ^ 8 = omega arith in
      rw (e, bit_or-eq-add 8 c1 c0 (omega arith)) (omega arith))

-- The checksum fits its 16 bits, whatever is in the buffer.
pub fletcher16-lt : (bs : Bytes) → fletcher16 bs < 2 ^ 16
unfolding fletcher16
fletcher16-lt bs = omega arith
