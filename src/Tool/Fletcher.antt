-- ===== src/Tool/Fletcher.antt =====
-- `tool::fletcher16` and `tool::bufferChkSum` of src/xchange.hpp. The list is the `len` bytes at
-- `buffer`; `uint32_t` sums wrap.
pub mod Sums
pub mod Detect
pub mod Simple
use xchange.Prelude.{
  ℕ, zero, suc, ◌+◌, ◌*◌, ◌%◌, ◌^◌, bit_or, List, [], ◌∷◌, Bytes, length, take, drop, ltb,
  if◌then◌else◌,
}

abbrev pub max_block : ℕ
max_block = 5802

-- `do { c0 = c0 + *data++; c1 = c1 + c0; } while (--blocklen);` over the bytes of one block.
unfoldable pub sum_block : Bytes → ℕ → ℕ → ℕ × ℕ
sum_block [] c0 c1 = (c0, c1)
sum_block (b ∷ bs) c0 c1 = let c0' = (c0 + b) % 2 ^ 32 in sum_block bs c0' ((c1 + c0') % 2 ^ 32)

-- The outer loop. Each round takes at least one byte, so as many rounds as bytes are enough.
unfoldable pub sum_blocks : ℕ → Bytes → ℕ → ℕ → ℕ × ℕ
sum_blocks zero data' c0 c1 = (c0, c1)
sum_blocks (suc fuel) [] c0 c1 = (c0, c1)
sum_blocks (suc fuel) (b ∷ bs) c0 c1 =
    let len = length (b ∷ bs) in
    let blocklen = if ltb max_block len then max_block else len in
    let (s0, s1) = sum_block (take blocklen (b ∷ bs)) c0 c1 in
    sum_blocks fuel (drop blocklen (b ∷ bs)) (s0 % 255) (s1 % 255)

-- `return (c1 << 8 | c0);` as a `uint16_t`.
unfoldable pub fletcher16 : Bytes → ℕ
fletcher16 data' =
    let (c0, c1) = sum_blocks (length data') data' 0 0 in bit_or (c1 * 2 ^ 8 % 2 ^ 32) c0 % 2 ^ 16

-- `for(i = 0; i < size; i++) sum += bPointer[i];`
unfoldable pub byte_sum : ℕ → Bytes → ℕ
byte_sum sum [] = sum
byte_sum sum (b ∷ bs) = byte_sum ((sum + b) % 2 ^ 32) bs

unfoldable pub buffer_chk_sum : Bytes → ℕ
buffer_chk_sum buffer = byte_sum 0 buffer % 255
