-- ===== src/Frame.antt =====
-- `ControlFrame` and `DataFrame` of src/xcc.hpp.
use xchange.Prelude.{ℕ, ◌+◌, Option, none, some, Bytes, [], ◌++◌, take, bit_or, ltb, if◌then◌else◌}
use xchange.Wire.{
  CtrlFrame, DataFrameHeader, pv_none, sv_none, max_data_block_size, data_frame_header_size,
}
use xchange.Wire.Layout.{encode_header}
use xchange.Tool.Fletcher.{fletcher16}

-- `resetCtrlFrame`
abbrev pub empty_ctrl : CtrlFrame
empty_ctrl = record { pv = pv_none; sv = sv_none; flags = 0; transmission_id = 0 }

abbrev pub set_ctrl_flag : ℕ → CtrlFrame → CtrlFrame
set_ctrl_flag flag c = record c { flags = bit_or c.flags flag }

-- `getCtrlFrame`: the frame to send, and the reset object.
unfoldable pub get_ctrl_frame : CtrlFrame → CtrlFrame × CtrlFrame
get_ctrl_frame intern = (intern, empty_ctrl)

-- The object: its header, and the bytes that `dataPointer` points at.
pub record DataFrame : Type 0 where
  pub header : DataFrameHeader
  pub data_pointer : Bytes

abbrev pub empty_frame : DataFrame
empty_frame = record {
  header = record { order_nbr = 0; chksum = 0; data_size = 0; flags = 0; transmission_id = 0 };
  data_pointer = [];
}

abbrev pub set_flag : ℕ → DataFrame → DataFrame
set_flag flag f = record f { header = record f.header { flags = bit_or f.header.flags flag } }

abbrev pub set_transmission_id : ℕ → DataFrame → DataFrame
set_transmission_id id f = record f { header = record f.header { transmission_id = id } }

abbrev pub set_order : ℕ → DataFrame → DataFrame
set_order nbr f = record f { header = record f.header { order_nbr = nbr } }

abbrev pub set_data : Bytes → ℕ → DataFrame → DataFrame
set_data bytes size f = record f {
  header = record f.header { data_size = size };
  data_pointer = bytes;
}

unfoldable pub frame_size : DataFrame → ℕ
frame_size f = data_frame_header_size + f.header.data_size

-- `getTransmitBuffer`: the checksum goes into the header, header and data into the buffer; `none`
-- is a `memcpy` past its end.
unfoldable pub get_transmit_buffer : DataFrame → Option (Bytes × DataFrame)
get_transmit_buffer f =
    let payload = take f.header.data_size f.data_pointer in
    let header = record f.header { chksum = fletcher16 payload } in
    if ltb max_data_block_size f.header.data_size
    then none
    else some (encode_header header ++ payload, record f { header = header })
