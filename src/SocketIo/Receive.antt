-- ===== src/SocketIo/Receive.antt =====
-- `ReadDataFrame`, `SetIVFromSocket` and `GetAckFromSocket`.
pub mod Plain
pub mod Sealed
use xchange.Prelude.{
  ℕ, ◌+◌, Bool, true, false, Option, none, some, Bytes, ltb, leb, eqb, if◌then◌else◌,
}
use xchange.Prelude.Action.{M, pure, ◌>>=◌, ◌>>◌}
use xchange.Wire.{
  DataFrameHeader, ack_general_err, ack_frame_size, data_frame_header_size, max_data_frame_size,
  max_data_block_size,
}
use xchange.Wire.Layout.{decode_header, decode_ack}
use xchange.Sio.{Kernel}
use xchange.Crypto.{CryptoLib}
use xchange.Crypto.Handler.{get_iv_size, set_iv, decrypt}
use xchange.SocketIo.{Session, ReadResult, read_error, accept_frame, overwrite, ack_text}
use xchange.SocketIo.Io.{read_bytes}

module _ (K : Kernel) (C : CryptoLib) where
  abbrev St : Type 0
  St = Session C.Rng K.World

  set_buffer : Bytes → M St (Unit {0})
  set_buffer bs s = some (
    tt,
    record s { manager = record s.manager { pln_buffer = overwrite bs s.manager.pln_buffer } },
  )

  finish_frame : DataFrameHeader → M St ReadResult
  finish_frame h s = let (r, m) = accept_frame h s.manager in some (r, record s { manager = m })

  -- `dec->decrypt(ioBuffer, plnBuffer, MAX_DATA_FRAME_SIZE)`
  decrypt_buffer : Bytes → M St Bool
  decrypt_buffer bs s = elim s.manager.dec [
    | none ↦ none
    | some (c, keys) ↦
        let opened = decrypt C c bs keys in
        some (
          opened.0.1,
          record s {
            manager = record s.manager {
              dec = some (c, opened.1);
              pln_buffer = overwrite opened.0.0 s.manager.pln_buffer;
            };
          },
        )
  ]

  finish_from_buffer : M St ReadResult
  finish_from_buffer s = finish_frame (decode_header s.manager.pln_buffer) s

  -- The encrypted branch of `ReadDataFrame`.
  unfoldable pub read_sealed_frame : M St ReadResult
  unfolding decrypt_buffer finish_frame finish_from_buffer
  read_sealed_frame = do
    answer ← read_bytes K C max_data_frame_size false
    elim answer [
      | none ↦ pure read_error
      | some bs ↦ do
        verified ← decrypt_buffer bs
        if verified then finish_from_buffer else pure read_error
    ]

  -- The plain branch: the header is peeked at, and the whole frame read if it can fit.
  unfoldable pub read_plain_frame : M St ReadResult
  unfolding set_buffer finish_frame
  read_plain_frame = do
    peeked ← read_bytes K C data_frame_header_size true
    elim peeked [
      | none ↦ pure read_error
      | some bs ↦
          let h = decode_header bs in
          let frame_size = data_frame_header_size + h.data_size in
          let whole : M St ReadResult = do
            answer ← read_bytes K C frame_size false
            elim answer [ none ↦ pure read_error | some xs ↦ do set_buffer xs; finish_frame h ]
          in if leb h.data_size max_data_block_size
            then if ltb max_data_frame_size frame_size then pure read_error else whole
            else finish_frame h
    ]

  unfoldable pub read_data_frame : M St ReadResult
  read_data_frame s = if s.manager.encrypted then read_sealed_frame s else read_plain_frame s

  -- `SetIVFromSocket`: true where it returns 0. Without a cipher `dec` is null.
  unfoldable pub set_iv_from_socket : M St Bool
  set_iv_from_socket s = elim s.manager.dec [
    | none ↦ none
    | some (c, keys) ↦ elim (read_bytes K C (get_iv_size c) false s) [
      | none ↦ none
      | some (none, s') ↦ some (false, s')
      | some (some bs, s') ↦
          some
            (true, record s' { manager = record s'.manager { dec = some (c, set_iv c bs keys) } })
    ]
  ]

  -- `GetAckFromSocket`: the error code that it returns.
  unfoldable pub get_ack_from_socket : M St ℕ
  get_ack_from_socket = do
    answer ← read_bytes K C ack_frame_size false
    elim answer [
      | none ↦ pure ack_general_err
      | some bs ↦
          let a = decode_ack bs in if eqb a.ack ack_text then pure a.error else pure ack_general_err
    ]
