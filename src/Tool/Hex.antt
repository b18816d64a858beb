-- ===== src/Tool/Hex.antt =====
-- `tool::byteToHex` and `tool::hexToByte` of src/xchange.hpp.
pub mod RoundTrip
use xchange.Prelude.{
  ℕ, zero, suc, ◌+◌, ◌-◌, ◌*◌, ◌/◌, ◌%◌, ◌^◌, length, Bool, Option, none, some, List, [], ◌∷◌,
  Bytes, ltb, leb, ◌||◌, ◌==◌, if◌then◌else◌,
}

-- `lookup_table_lower` and `lookup_table_upper` at 0 to 15.
pub data Case : Type 0 where
  lower upper : Case

unfoldable pub digit : Case → ℕ → ℕ
digit lower n = if ltb n 10 then b'0' + n else b'a' + (n - 10)
digit upper n = if ltb n 10 then b'0' + n else b'A' + (n - 10)

unfoldable pub hex_digits : Case → Bytes → Bytes
hex_digits c [] = []
hex_digits c (b ∷ bs) = digit c (b / 16 % 16) ∷ digit c (b % 16) ∷ hex_digits c bs

-- `byteToHex` of a buffer of less than 2 ^ 31 bytes, as its size is an `int`; for another letter
-- than the two the table is a pointer without a value.
unfoldable pub byte_to_hex : Bytes → ℕ → Option Bytes
byte_to_hex buffer upper_lower =
    if upper_lower == b'l'
    then some (hex_digits lower buffer)
    else if upper_lower == b'u'
    then some (hex_digits upper buffer)
    else none

-- `hexString[i] < ':'` of a signed `char`, and the difference as a `char`.
unfoldable pub nibble : ℕ → ℕ
nibble c = if ltb c b':' || leb 128 c then (c + 256 - b'0') % 256 else (c + 256 - b'W') % 256

-- The loop of `hexToByte` while `i` is `n` below `length`: the bytes that it writes. At the end of a
-- string of odd length the low digit is the terminating zero.
unfoldable pub hex_loop : ℕ → Bytes → Bytes
hex_loop zero cs = []
hex_loop (suc n) [] = []
hex_loop (suc n) (h ∷ []) = ((nibble h * 16 % 256 + nibble 0) % 256) ∷ []
hex_loop (suc zero) (h ∷ l ∷ cs) = ((nibble h * 16 % 256 + nibble l) % 256) ∷ []
hex_loop (suc (suc n)) (h ∷ l ∷ cs) = ((nibble h * 16 % 256 + nibble l) % 256) ∷ hex_loop n cs

-- `hexToByte`: what it writes to the buffer. `length` is an `int`, negative from 2 ^ 31 on; for its
-- largest value the last `i += 2` overflows, which is `none`.
unfoldable pub hex_to_byte : Bytes → Option Bytes
hex_to_byte hex_string =
    let n = length hex_string % 2 ^ 32 in
    if leb (2 ^ 31) n
    then some []
    else if n == 2 ^ 31 - 1
    then none
    else some (hex_loop n hex_string)
