-- ===== src/Examples/Codec.antt =====
-- Tests of the frames' layout, the checksum and the string helpers.
use xchange.Prelude.{◌+◌, ◌*◌, ◌≡◌, ◌≢◌, refl, arith, [], ◌∷◌, ◌++◌, Bytes, length}
use xchange.Wire.{DataFrameHeader}
use xchange.Wire.Layout.{encode_header, decode_header}
use xchange.Wire.Layout.RoundTrip.{HeaderFits, decode_header-encode_header}
use xchange.Tool.Fletcher.{sum_block, sum_blocks, fletcher16}
use xchange.Tool.Fletcher.Sums.{sums, exact, sum_block-no_wrap, fletcher16-sums}
use xchange.Tool.Fletcher.Detect.{fletcher16_byte_change}

abbrev header : DataFrameHeader
header = record {
  order_nbr = 70000;
  chksum = 513;
  data_size = 1450;
  flags = 1;
  transmission_id = 77;
}

header-HeaderFits : HeaderFits header
header-HeaderFits = record {
  order_nbr = omega arith;
  chksum = omega arith;
  data_size = omega arith;
  flags = omega arith;
  transmission_id = omega arith;
}

decode_header-encode_header_example :
    (decode_header (encode_header header ++ (1 ∷ 2 ∷ [])) ≡ header)
    × (length (encode_header header) ≡ 10)
decode_header-encode_header_example =
    decode_header-encode_header header (1 ∷ 2 ∷ []) header-HeaderFits

-- "abcde" has the checksum 0xC8F0.
abbrev abcde : Bytes
abcde = 97 ∷ 98 ∷ 99 ∷ 100 ∷ 101 ∷ []

fletcher16-abcde : fletcher16 abcde ≡ 51440
unfolding fletcher16 sum_blocks sum_block
fletcher16-abcde = refl

fletcher16-sums_example : fletcher16 abcde ≡ (sums 0 0 abcde).1 * 256 + (sums 0 0 abcde).0
fletcher16-sums_example = fletcher16-sums abcde (omega arith)

sum_block-no_wrap_example : sum_block abcde 254 254 ≡ exact 254 254 abcde
sum_block-no_wrap_example =
    sum_block-no_wrap abcde 254 254 (omega arith) (omega arith) (omega arith) (omega arith)

fletcher16_byte_change_example :
    fletcher16 (abcde ++ (1 ∷ abcde)) ≢ fletcher16 (abcde ++ (129 ∷ abcde))
fletcher16_byte_change_example =
    fletcher16_byte_change abcde abcde 1 129 (omega arith) (omega arith) (omega arith) (omega arith)
      (omega arith)
