-- ===== src/Wire/Layout.antt =====
-- The packed frames as bytes: what `memcpy` of such a struct writes and reads on a little-endian
-- machine without padding.
pub mod RoundTrip
use xchange.Prelude.{ℕ, ◌+◌, ◌*◌, ◌/◌, ◌%◌, Bytes, [], ◌∷◌, ◌++◌, get_or, take}
use xchange.Wire.{CtrlFrame, DataFrameHeader, AckFrame}

abbrev pub bytes16 : ℕ → Bytes
bytes16 n = (n % 256) ∷ (n / 256 % 256) ∷ []

abbrev pub bytes32 : ℕ → Bytes
bytes32 n = (n % 256) ∷ (n / 256 % 256) ∷ (n / 65536 % 256) ∷ (n / 16777216 % 256) ∷ []

-- Past the end of the bytes a read finds 0; every reader below is given enough of them.
abbrev pub word16 : Bytes → ℕ → ℕ
word16 bs i = get_or bs i 0 + get_or bs (i + 1) 0 * 256

abbrev pub word32 : Bytes → ℕ → ℕ
word32 bs i = word16 bs i + word16 bs (i + 2) * 65536

unfoldable pub encode_ctrl : CtrlFrame → Bytes
encode_ctrl c = bytes16 c.pv ++ (c.sv ∷ c.flags ∷ c.transmission_id ∷ [])

unfoldable pub decode_ctrl : Bytes → CtrlFrame
decode_ctrl bs = record {
  pv = word16 bs 0;
  sv = get_or bs 2 0;
  flags = get_or bs 3 0;
  transmission_id = get_or bs 4 0;
}

unfoldable pub encode_header : DataFrameHeader → Bytes
encode_header h =
    bytes32 h.order_nbr
    ++ (bytes16 h.chksum ++ (bytes16 h.data_size ++ (h.flags ∷ h.transmission_id ∷ [])))

unfoldable pub decode_header : Bytes → DataFrameHeader
decode_header bs = record {
  order_nbr = word32 bs 0;
  chksum = word16 bs 4;
  data_size = word16 bs 6;
  flags = get_or bs 8 0;
  transmission_id = get_or bs 9 0;
}

unfoldable pub encode_ack : AckFrame → Bytes
encode_ack a = a.ack ++ bytes32 a.error

unfoldable pub decode_ack : Bytes → AckFrame
decode_ack bs = record { ack = take 4 bs; error = word32 bs 4 }
