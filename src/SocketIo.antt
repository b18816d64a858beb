-- ===== src/SocketIo.antt =====
-- `SocketIO_Manager` of src/socketIO_handler.hpp: its state and the methods that touch nothing
-- else. The children have the methods that call the system.
pub mod Io
pub mod Accept
pub mod Receive
pub mod Send
use xchange.Prelude.{
  ℕ, suc, ◌+◌, ◌%◌, ◌^◌, Bool, true, false, not, ◌&&◌, ◌||◌, Option, none, some, Bytes, [], ◌∷◌,
  ◌++◌, length, take, drop, bit_and, ltb, leb, ◌==◌, if◌then◌else◌,
}
use xchange.Wire.{
  CtrlFrame, DataFrameHeader, AckFrame, sv_plain, flag_new_transmission, flag_encrypted,
  flag_binary_transmission, flag_end_of_transmission, ack_general_err, ack_frame_size,
  ctrl_frame_size, data_frame_header_size, max_data_frame_size, max_data_block_size,
}
use xchange.Wire.Layout.{encode_ctrl, decode_header, encode_ack, decode_ack}
use xchange.Tool.Fletcher.{fletcher16}
use xchange.Sio.{
  Kernel, Outcome, done, failed, out_of_bounds, stuck, read_from_socket, write_to_socket,
}
use xchange.Crypto.{CryptoLib, Keys, Encrypted, frame, too_long, overrun, EncryptState}
use xchange.Crypto.Handler.{
  Cipher, select_class, get_iv_size, get_data_block_size, set_iv, new_encryption, new_decryption,
  read_key, encrypt, decrypt,
}
use xchange.Frame.{
  DataFrame, empty_ctrl, set_ctrl_flag, get_ctrl_frame, frame_size, get_transmit_buffer,
}

-- The members. `ioBuffer` is not one: each method fills what it uses of it.
pub record Manager (R : Type 0) : Type 0 where
  pub error : ℕ
  pub data_block_size : ℕ
  pub frame_order_nbr : ℕ
  pub encrypted : Bool
  pub pln_buffer : Bytes
  pub ctrl_frame : CtrlFrame
  pub dec : Option (Cipher × Keys)
  pub enc : Option (Cipher × EncryptState R)

pub record Session (R W : Type 0) : Type 0 where
  pub manager : Manager R
  pub world : W

-- `TransferInfo`'s part that a control frame is made from.
pub record CtrlInfo : Type 0 where
  pub pv : ℕ
  pub sec_ver : ℕ
  pub transmission_id : ℕ
  pub is_file : Bool

-- The return values of `ReadDataFrame`: the count of bytes, EOT, or -1.
pub data ReadResult : Type 0 where
  payload : ℕ → ReadResult
  eot read_error : ReadResult

-- `VerifyDataFrame`: 0 if the header fits the transfer and the bytes in the buffer, else 1.
unfoldable pub verify_data_frame : {R : Type 0} → DataFrameHeader → Manager R → ℕ
verify_data_frame h m =
    if not (h.transmission_id == m.ctrl_frame.transmission_id)
    then 1
    else if not (h.order_nbr == m.frame_order_nbr)
    then 1
    else if ltb m.data_block_size h.data_size
    then 1
    else if not
        (fletcher16 (take h.data_size (drop data_frame_header_size m.pln_buffer)) == h.chksum)
    then 1
    else 0

-- A `memcpy` or a `recv` to the front of a buffer.
abbrev pub overwrite : Bytes → Bytes → Bytes
overwrite bs buffer = bs ++ drop (length bs) buffer

-- What `ReadDataFrame` does once a frame is in `plnBuffer`.
unfoldable pub accept_frame : {R : Type 0} → DataFrameHeader → Manager R → ReadResult × Manager R
accept_frame h m =
    let m' = record m { frame_order_nbr = (m.frame_order_nbr + 1) % 2 ^ 32 } in
    if not (verify_data_frame h m == 0)
    then (read_error, m)
    else if m'.frame_order_nbr == 0
    then (read_error, m')
    else if h.data_size == 0
    then (if bit_and h.flags flag_end_of_transmission == 0 then (read_error, m') else (eot, m'))
    else (payload h.data_size, m')

abbrev pub ack_text : Bytes
ack_text = b'A' ∷ b'C' ∷ b'K' ∷ 0 ∷ []

-- `init`, with the security version that the constructor gets; `none` is a call through the null
-- pointer that an unknown version leaves. `memory` is what the new objects' arrays held.
module _ (C : CryptoLib) where
  open C use {Rng}

  unfoldable pub new_manager : ℕ → CtrlFrame → Keys → Bytes → Rng → Option (Manager Rng)
  new_manager sv cf memory buffer rng =
      let plain : Option (Manager Rng) = some (record {
        error = 0;
        data_block_size = max_data_block_size;
        frame_order_nbr = 0;
        encrypted = false;
        pln_buffer = buffer;
        ctrl_frame = cf;
        dec = none;
        enc = none;
      }) in
      if not (sv == sv_plain)
      then elim (select_class sv) [
        | none ↦ none
        | some c ↦
            let block_size_enc = get_data_block_size c in
            let block_size_dec = get_data_block_size c in
            some (record {
              error = if block_size_dec == block_size_enc then 0 else 1;
              data_block_size = if block_size_dec == block_size_enc then block_size_enc else 0;
              frame_order_nbr = 0;
              encrypted = true;
              pln_buffer = buffer;
              ctrl_frame = cf;
              dec = some (c, new_decryption C c memory);
              enc = some (c, new_encryption C c memory rng);
            })
      ]
      else plain
