-- ===== src/Transfer/Session/Ack.antt =====
-- `SendAck` of the server and `GetAckFromSocket` of the client.
use xchange.Prelude.{◌≡◌, refl, arith, true, false, some, Bytes, [], ◌++◌, length}
use xchange.Wire.{ack_general_err}
use xchange.Wire.Layout.{encode_ack, decode_ack}
use xchange.Sio.{Kernel, done, read_from_socket}
use xchange.Sio.Duplex.{Duplex, write_duplex, read_duplex}
use xchange.Sio.Dry.{RunsDry, read_from_socket_dry}
use xchange.Crypto.{CryptoLib}
use xchange.SocketIo.{Session}
use xchange.SocketIo.Io.{read_bytes, write_bytes}
use xchange.SocketIo.Receive.{get_ack_from_socket}
use xchange.SocketIo.Send.{send_ack}
use xchange.Transfer.Session.{ack_bytes}

length-ack_bytes : length ack_bytes ≡ 8
unfolding encode_ack
length-ack_bytes = refl

module _ (K : Kernel) (C : CryptoLib) (incoming outgoing : K.World → Bytes)
    (net : Duplex K incoming outgoing) where
  pub send_ack_duplex :
      (s : Session C.Rng K.World)
      → (w' : K.World) × (send_ack K C 0 s ≡ some (true, record s { world = w' }))
        × (outgoing w' ≡ outgoing s.world ++ ack_bytes)
        × (incoming w' ≡ incoming s.world)
  unfolding send_ack write_bytes
  send_ack_duplex s =
      let (w', e, out, left) =
        write_duplex K incoming outgoing net ack_bytes s.world (omega (arith, length-ack_bytes)) in
      (w', ground (arith, e), out, left)

  get_ack_read :
      (s : Session C.Rng K.World) (w' : K.World)
      → read_from_socket K 8 false s.world ≡ done ack_bytes w'
      → get_ack_from_socket K C s ≡ some (0, record s { world = w' })
  unfolding get_ack_from_socket read_bytes decode_ack encode_ack
  get_ack_read s w' e = ground (arith, e)

  pub get_ack_duplex :
      (rest : Bytes) (s : Session C.Rng K.World)
      → incoming s.world ≡ ack_bytes ++ rest
      → (w' : K.World) × (get_ack_from_socket K C s ≡ some (0, record s { world = w' }))
        × (incoming w' ≡ rest)
        × (outgoing w' ≡ outgoing s.world)
  unfolding encode_ack
  get_ack_duplex rest s came =
      let (w', e, left, out) =
        read_duplex K incoming outgoing net ack_bytes rest s.world (omega arith) came in
      (w', get_ack_read s w' e, left, out)

  -- Without an ACK the answer is an error.
  pub get_ack_dry :
      RunsDry K incoming
      → (s : Session C.Rng K.World) → incoming s.world ≡ []
      → (w' : K.World) × (get_ack_from_socket K C s
          ≡ some (ack_general_err, record s { world = w' }))
        × (outgoing w' ≡ outgoing s.world)
  unfolding get_ack_from_socket read_bytes
  get_ack_dry dry s none_left =
      let (w', e, out) =
        read_from_socket_dry K incoming outgoing net dry 8 s.world (omega arith) none_left in
      (w', ground (arith, e), out)
