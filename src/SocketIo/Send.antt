-- ===== src/SocketIo/Send.antt =====
-- `SendDataFrame`, the control frames, `SendAck` and the key files.
use xchange.Prelude.{
  ℕ, Bool, true, false, Option, none, some, Bytes, [], ◌++◌, take, ◌==◌, if◌then◌else◌,
}
use xchange.Prelude.Action.{M}
use xchange.Wire.{CtrlFrame, flag_new_transmission, flag_encrypted, flag_binary_transmission}
use xchange.Wire.Layout.{encode_ctrl, encode_ack}
use xchange.Sio.{Kernel}
use xchange.Crypto.{CryptoLib, frame, too_long, overrun}
use xchange.Crypto.Handler.{get_iv_size, read_key, encrypt}
use xchange.Frame.{
  DataFrame, empty_ctrl, set_ctrl_flag, get_ctrl_frame, frame_size, get_transmit_buffer,
}
use xchange.SocketIo.{Session, CtrlInfo, ack_text}
use xchange.SocketIo.Io.{write_bytes, send_data_buffer}

-- The frame that `SendCtrlFrameEncrypted` and `SendCtrlFramePlain` build.
unfoldable pub ctrl_frame_of : Bool → CtrlInfo → CtrlFrame
unfolding get_ctrl_frame
ctrl_frame_of encrypted info =
    let named : CtrlFrame = record empty_ctrl { pv = info.pv; sv = info.sec_ver } in
    let opened = set_ctrl_flag flag_new_transmission named in
    let flagged = if encrypted then set_ctrl_flag flag_encrypted opened else opened in
    let numbered : CtrlFrame = record flagged { transmission_id = info.transmission_id } in
    let typed =
      if info.is_file then set_ctrl_flag flag_binary_transmission numbered else numbered in
    (get_ctrl_frame typed).0

module _ (K : Kernel) (C : CryptoLib) where
  abbrev St : Type 0
  St = Session C.Rng K.World

  -- `SendDataFrame`: true where it returns 0. An `encrypt` that returns 0 sends nothing.
  unfoldable pub send_data_frame : DataFrame → M St Bool
  send_data_frame df s =
      let sealed : Option (Bool × St) = elim s.manager.enc [
        | none ↦ none
        | some (c, e) ↦ elim (get_transmit_buffer df) [
          | none ↦ none
          | some (bytes, df') ↦ elim (encrypt C c bytes (frame_size df') e) [
            | frame out e' ↦
                send_data_buffer K C out
                  (record s { manager = record s.manager { enc = some (c, e') } })
            | too_long e' ↦
                send_data_buffer K C []
                  (record s { manager = record s.manager { enc = some (c, e') } })
            | overrun ↦ none
          ]
        ]
      ] in
      let plain : Option (Bool × St) = elim (get_transmit_buffer df) [
        | none ↦ none
        | some (bytes, df') ↦ send_data_buffer K C (take (frame_size df') bytes) s
      ] in
      if s.manager.encrypted then sealed else plain

  -- `SendCtrlFrameEncrypted`: the frame and the iv behind it.
  unfoldable pub send_ctrl_frame_encrypted : CtrlInfo → M St Bool
  send_ctrl_frame_encrypted info s = elim s.manager.enc [
    | none ↦ none
    | some (c, e) ↦
        write_bytes K C (encode_ctrl (ctrl_frame_of true info) ++ take (get_iv_size c) e.keys.iv) s
  ]

  unfoldable pub send_ctrl_frame_plain : CtrlInfo → M St Bool
  send_ctrl_frame_plain info = write_bytes K C (encode_ctrl (ctrl_frame_of false info))

  unfoldable pub send_ack : ℕ → M St Bool
  send_ack err = write_bytes K C (encode_ack (record { ack = ack_text; error = err }))

  -- `DecReadKeyFromFile`: true where it returns 0.
  unfoldable pub dec_read_key_from_file : Bytes → M St Bool
  dec_read_key_from_file file s = elim s.manager.dec [
    | none ↦ none
    | some (c, keys) ↦
        let read = read_key C c file keys in
        some (read.1 == 0, record s { manager = record s.manager { dec = some (c, read.0) } })
  ]

  unfoldable pub enc_read_key_from_file : Bytes → M St Bool
  enc_read_key_from_file file s = elim s.manager.enc [
    | none ↦ none
    | some (c, e) ↦
        let read = read_key C c file e.keys in
        some (
          read.1 == 0,
          record s { manager = record s.manager { enc = some (c, record e { keys = read.0 }) } },
        )
  ]
