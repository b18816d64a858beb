-- ===== src/Tool/Fletcher/Simple.antt =====
-- `tool::bufferChkSum` of src/xchange.hpp against `tool::fletcher16`.
use xchange.Prelude.{
  ℕ, ◌+◌, ◌*◌, ◌%◌, ◌^◌, ◌≤◌, ◌<◌, ◌≡◌, refl, ap, ◌∙◌, arith, [], ◌∷◌, Bytes, AreBytes, length,
}
use xchange.Tool.Fletcher.{byte_sum, buffer_chk_sum, fletcher16}
use xchange.Tool.Fletcher.Sums.{sums, sums-lt, fletcher16-sums}

byte_sum-sums :
    (bs : Bytes) (c0 c1 : ℕ)
    → AreBytes bs
    → c0 + 255 * length bs < 2 ^ 32
    → byte_sum c0 bs % 255 ≡ (sums (c0 % 255) c1 bs).0
unfolding byte_sum sums
byte_sum-sums [] c0 c1 h small = refl
byte_sum-sums (b ∷ bs) c0 c1 h small =
    let e0 : (c0 + b) % 2 ^ 32 ≡ c0 + b = omega (arith, h.0, small) in
    let e1 : (c0 + b) % 255 ≡ (c0 % 255 + b) % 255 = omega arith in
    let c1' = (c1 + (c0 % 255 + b) % 255) % 255 in
    ap (λ (k : ℕ). byte_sum k bs % 255) e0
    ∙ byte_sum-sums bs (c0 + b) c1' h.1 (omega (arith, h.0, small))
    ∙ ap (λ (k : ℕ). (sums k c1' bs).0) e1

-- For a buffer of at most 2 ^ 24 bytes `bufferChkSum` is the low byte of `fletcher16`.
pub buffer_chk_sum-fletcher16 :
    (bs : Bytes) → AreBytes bs → length bs ≤ 2 ^ 24 → buffer_chk_sum bs ≡ fletcher16 bs % 256
unfolding buffer_chk_sum
buffer_chk_sum-fletcher16 bs h small = omega (
  arith,
  byte_sum-sums bs 0 0 h (omega arith),
  fletcher16-sums bs h,
  sums-lt bs 0 0 (omega arith) (omega arith),
)
