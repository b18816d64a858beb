-- ===== src/Tool/Hex/RoundTrip.antt =====
-- `hexToByte` of src/xchange.hpp on what `byteToHex` prints, in both cases.
use xchange.Prelude.{
  ℕ, zero, suc, ◌+◌, ◌-◌, ◌*◌, ◌/◌, ◌%◌, ◌^◌, ◌<◌, ◌≡◌, ◌↔◌, refl, ap, ◌∙◌, subst, arith, some, [],
  ◌∷◌, Bytes, length, IsByte, AreBytes, All,
}
use xchange.Tool.Hex.{
  Case, lower, upper, digit, hex_digits, byte_to_hex, nibble, hex_loop, hex_to_byte,
}

nibble-lower : (n : ℕ) → n < 16 → nibble (digit lower n) ≡ n
unfolding nibble digit
nibble-lower n h = ground arith

-- The number of digits, as the loop counts it.
twice : Bytes → ℕ
twice [] = zero
twice (b ∷ bs) = suc (suc (twice bs))

length-hex_digits : (c : Case) (bs : Bytes) → length (hex_digits c bs) ≡ twice bs
unfolding hex_digits twice
length-hex_digits c [] = refl
length-hex_digits c (b ∷ bs) = omega (arith, length-hex_digits c bs)

twice-length : (bs : Bytes) → twice bs ≡ 2 * length bs
unfolding twice
twice-length [] = refl
twice-length (b ∷ bs) = omega (arith, twice-length bs)

-- Below 2 ^ 30 bytes the `int` of the length is the number of digits.
hex_to_byte-hex_digits :
    (c : Case) (bs : Bytes)
    → length bs < 2 ^ 30
    → hex_to_byte (hex_digits c bs) ≡ some (hex_loop (twice bs) (hex_digits c bs))
unfolding hex_to_byte
hex_to_byte-hex_digits c bs small =
    let count = length-hex_digits c bs in
    let fits : twice bs < 2 ^ 31 - 1 = omega (arith, twice-length bs) in
    let n : length (hex_digits c bs) % 2 ^ 32 ≡ twice bs = omega (arith, count, fits) in
    rw n (ground (arith, fits))

hex_digits-lower : (bs : Bytes) → AreBytes bs → hex_loop (twice bs) (hex_digits lower bs) ≡ bs
unfolding hex_loop hex_digits twice
hex_digits-lower [] h = refl
hex_digits-lower (b ∷ bs) h = ground (
  arith,
  nibble-lower (b / 16 % 16) (omega arith),
  nibble-lower (b % 16) (omega arith),
  hex_digits-lower bs h.1,
)

-- For 'l' the hexadecimal text of a buffer of bytes is read back as the buffer, if that has less
-- than 2 ^ 30 bytes.
pub hex_to_byte-lower :
    (bs text : Bytes)
    → AreBytes bs
    → length bs < 2 ^ 30
    → byte_to_hex bs b'l' ≡ some text
    → hex_to_byte text ≡ some bs
unfolding byte_to_hex
hex_to_byte-lower bs text h small e =
    let same : hex_digits lower bs ≡ text = ground arith in
    subst (λ t. hex_to_byte t ≡ some bs) same
      (hex_to_byte-hex_digits lower bs small ∙ ap some (hex_digits-lower bs h))

-- A digit in upper case has the wrong value, by a multiple of 32 that the shift drops again.
byte_upper :
    (b : ℕ)
    → IsByte b
    → ((nibble (digit upper (b / 16 % 16)) * 16 % 256 + nibble (digit upper (b % 16))) % 256 ≡ b)
      ↔ (b % 16 < 10)
unfolding nibble digit
byte_upper b h = (λ e. ground arith, λ lt. ground arith)

hex_digits-upper :
    (bs : Bytes)
    → AreBytes bs
    → (hex_loop (twice bs) (hex_digits upper bs) ≡ bs) ↔ All (λ (b : ℕ). b % 16 < 10) bs
unfolding hex_loop hex_digits twice
hex_digits-upper [] h = (λ e. tt, λ a. refl)
hex_digits-upper (b ∷ bs) h =
    let one = byte_upper b h.0 in
    let more = hex_digits-upper bs h.1 in
    (λ e. ground (arith, one, more), λ a. ground (arith, one, more))

-- For 'u' the text of a buffer of less than 2 ^ 30 bytes is read back as the buffer exactly when no
-- byte has a low digit from A to F: the reader takes a letter for one in lower case.
pub hex_to_byte-upper :
    (bs text : Bytes)
    → AreBytes bs
    → length bs < 2 ^ 30
    → byte_to_hex bs b'u' ≡ some text
    → (hex_to_byte text ≡ some bs) ↔ All (λ (b : ℕ). b % 16 < 10) bs
unfolding byte_to_hex
hex_to_byte-upper bs text h small e =
    let same : hex_digits upper bs ≡ text = ground arith in
    let read = hex_to_byte-hex_digits upper bs small in
    let digits = hex_digits-upper bs h in
    subst (λ t. (hex_to_byte t ≡ some bs) ↔ All (λ (b : ℕ). b % 16 < 10) bs) same
      (λ back. digits.0 (cc), λ low. read ∙ ap some (digits.1 low))
