-- ===== src/Examples/Numbers.antt =====
-- Tests of the hexadecimal helpers, of addresses and of ports.
use xchange.Prelude.{ℕ, ◌%◌, ◌≤◌, ◌<◌, ◌≡◌, ◌↔◌, refl, arith, some, [], ◌∷◌, Bytes, All}
use xchange.Tool.Hex.{digit, hex_digits, byte_to_hex, hex_to_byte}
use xchange.Tool.Hex.RoundTrip.{hex_to_byte-upper}
use xchange.Tool.Number.{
  number, skip_spaces, sign, digits, starts_with_digit, stoul, client_port, server_port,
}
use xchange.Tool.Number.Port.{client_port-server_port}

-- "1fa0" and "1FA0"
abbrev two_bytes : Bytes
two_bytes = 31 ∷ 160 ∷ []

abbrev lower_text : Bytes
lower_text = b'1' ∷ b'f' ∷ b'a' ∷ b'0' ∷ []

abbrev upper_text : Bytes
upper_text = b'1' ∷ b'F' ∷ b'A' ∷ b'0' ∷ []

byte_to_hex-lower : byte_to_hex two_bytes b'l' ≡ some lower_text
unfolding byte_to_hex hex_digits digit
byte_to_hex-lower = refl

byte_to_hex-upper : byte_to_hex two_bytes b'u' ≡ some upper_text
unfolding byte_to_hex hex_digits digit
byte_to_hex-upper = refl

hex_to_byte-upper_example :
    (hex_to_byte upper_text ≡ some two_bytes) ↔ All (λ (b : ℕ). b % 16 < 10) two_bytes
hex_to_byte-upper_example =
    hex_to_byte-upper two_bytes upper_text (omega arith) (omega arith) byte_to_hex-upper

-- "10"
abbrev ten : Bytes
ten = b'1' ∷ b'0' ∷ []

stoul-ten : stoul ten ≡ number 10
unfolding stoul skip_spaces sign digits starts_with_digit
stoul-ten = refl

client_port-server_port_example :
    (client_port ten ≡ some (10 % 65536)) × ((client_port ten ≡ server_port ten) ↔ (10 ≤ 65535))
client_port-server_port_example = client_port-server_port ten 10 stoul-ten
