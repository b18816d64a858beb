-- ===== src/Wire/Layout/RoundTrip.antt =====
-- The frames of src/xchange.hpp, copied into a buffer and read from it.
use xchange.Prelude.{◌^◌, ◌<◌, ◌≡◌, arith, IsByte, Bytes, AreBytes, ◌++◌, length}
use xchange.Wire.{CtrlFrame, DataFrameHeader}
use xchange.Wire.Layout.{encode_ctrl, decode_ctrl, encode_header, decode_header}

pub record CtrlFits (c : CtrlFrame) : Type 0 where
  pub pv : c.pv < 2 ^ 16
  pub sv : IsByte c.sv
  pub flags : IsByte c.flags
  pub transmission_id : IsByte c.transmission_id

pub record HeaderFits (h : DataFrameHeader) : Type 0 where
  pub order_nbr : h.order_nbr < 2 ^ 32
  pub chksum : h.chksum < 2 ^ 16
  pub data_size : h.data_size < 2 ^ 16
  pub flags : IsByte h.flags
  pub transmission_id : IsByte h.transmission_id

-- Whatever follows it in the buffer, a control frame whose fields fit their types is read back
-- unchanged, and it takes 5 bytes.
pub decode_ctrl-encode_ctrl :
    (c : CtrlFrame) (rest : Bytes)
    → CtrlFits c
    → (decode_ctrl (encode_ctrl c ++ rest) ≡ c) × (length (encode_ctrl c) ≡ 5)
unfolding decode_ctrl encode_ctrl
decode_ctrl-encode_ctrl c rest h = ground arith

-- Whatever follows it in the buffer, a data frame's header whose fields fit their types is read
-- back unchanged, and it takes 10 bytes.
pub decode_header-encode_header :
    (h : DataFrameHeader) (rest : Bytes)
    → HeaderFits h
    → (decode_header (encode_header h ++ rest) ≡ h) × (length (encode_header h) ≡ 10)
unfolding decode_header encode_header
decode_header-encode_header h rest f = ground arith

pub encode_header-AreBytes : (h : DataFrameHeader) → HeaderFits h → AreBytes (encode_header h)
unfolding encode_header
encode_header-AreBytes h f = omega arith
