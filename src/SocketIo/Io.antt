-- ===== src/SocketIo/Io.antt =====
-- The calls of `sio` that `SocketIO_Manager` makes, as actions on its session.
use xchange.Prelude.{Bool, true, false, ℕ, Option, none, some, Bytes, length, ltb, if◌then◌else◌}
use xchange.Prelude.Action.{M, pure}
use xchange.Wire.{max_data_frame_size}
use xchange.Sio.{Kernel, done, failed, read_from_socket, write_to_socket}
use xchange.Crypto.{CryptoLib}
use xchange.SocketIo.{Session}

module _ (K : Kernel) (C : CryptoLib) where
  abbrev St : Type 0
  St = Session C.Rng K.World

  -- `sio::read_from_socket`; the answer `none` is its return value -1.
  unfoldable pub read_bytes : ℕ → Bool → M St (Option Bytes)
  read_bytes size peek s = elim (read_from_socket K size peek s.world) [
    | done xs w ↦ some (some xs, record s { world = w })
    | failed w ↦ some (none, record s { world = w })
    | _ ↦ none
  ]

  -- `sio::write_to_socket`: the answer is true where it returns 0.
  unfoldable pub write_bytes : Bytes → M St Bool
  write_bytes buffer s = elim (write_to_socket K buffer s.world) [
    | done u w ↦ some (true, record s { world = w })
    | failed w ↦ some (false, record s { world = w })
    | _ ↦ none
  ]

  -- `SendDataBuffer`
  unfoldable pub send_data_buffer : Bytes → M St Bool
  send_data_buffer buffer =
      if ltb max_data_frame_size (length buffer) then pure false else write_bytes buffer
