-- ===== src/Wire.antt =====
-- The protocol of src/xchange.hpp: its enumerations, constants and packed frames. An enumeration
-- with a fixed underlying type that arrives over the wire is a number, since any value of that
-- type can arrive.
pub mod Layout
use xchange.Prelude.{ℕ, ◌-◌, Bytes, [], ◌∷◌}

-- ACK_ERROR_CODE
abbrev pub ack_ok : ℕ
ack_ok = 0

abbrev pub ack_general_err : ℕ
ack_general_err = 1

-- FLAGS
abbrev pub flag_data_frame : ℕ
flag_data_frame = 0x01

abbrev pub flag_new_transmission : ℕ
flag_new_transmission = 0x02

abbrev pub flag_end_of_transmission : ℕ
flag_end_of_transmission = 0x04

abbrev pub flag_binary_transmission : ℕ
flag_binary_transmission = 0x08

abbrev pub flag_encrypted : ℕ
flag_encrypted = 0x16

pub data DataType : Type 0 where
  type_none type_txt type_bin : DataType

-- PROTOCOL_VERSION
abbrev pub pv_none : ℕ
pv_none = 0

abbrev pub pv_00_01 : ℕ
pv_00_01 = 1

abbrev pub pv_chacha20 : ℕ
pv_chacha20 = 2

abbrev pub pv_xchacha20poly : ℕ
pv_xchacha20poly = 3

abbrev pub pv_aes_gcm : ℕ
pv_aes_gcm = 4

abbrev pub pv_last : ℕ
pv_last = 5

abbrev pub protocol_version_vec : Bytes
protocol_version_vec =
    pv_none ∷ pv_00_01 ∷ pv_chacha20 ∷ pv_xchacha20poly ∷ pv_aes_gcm ∷ pv_last ∷ []

-- SECURITY_VERSION
abbrev pub sv_none : ℕ
sv_none = 0

abbrev pub sv_plain : ℕ
sv_plain = 1

abbrev pub sv_chacha20 : ℕ
sv_chacha20 = 2

abbrev pub sv_xchacha20poly : ℕ
sv_xchacha20poly = 3

abbrev pub sv_aes_gcm : ℕ
sv_aes_gcm = 4

abbrev pub sv_last : ℕ
sv_last = 5

abbrev pub security_version_vec : Bytes
security_version_vec = sv_plain ∷ sv_chacha20 ∷ sv_xchacha20poly ∷ sv_aes_gcm ∷ []

pub record CtrlFrame : Type 0 where
  pub pv : ℕ
  pub sv : ℕ
  pub flags : ℕ
  pub transmission_id : ℕ

pub record DataFrameHeader : Type 0 where
  pub order_nbr : ℕ
  pub chksum : ℕ
  pub data_size : ℕ
  pub flags : ℕ
  pub transmission_id : ℕ

pub record AckFrame : Type 0 where
  pub ack : Bytes
  pub error : ℕ

abbrev pub ack_frame_size : ℕ
ack_frame_size = 8

abbrev pub ctrl_frame_size : ℕ
ctrl_frame_size = 5

abbrev pub data_frame_header_size : ℕ
data_frame_header_size = 10

abbrev pub mss : ℕ
mss = 1460

abbrev pub max_data_frame_size : ℕ
max_data_frame_size = mss

abbrev pub max_data_block_size : ℕ
max_data_block_size = max_data_frame_size - data_frame_header_size

abbrev pub max_filename_length : ℕ
max_filename_length = 128

abbrev pub max_connected_clients : ℕ
max_connected_clients = 10
