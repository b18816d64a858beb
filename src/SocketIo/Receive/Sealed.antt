-- ===== src/SocketIo/Receive/Sealed.antt =====
-- The encrypted branch of `ReadDataFrame` on bytes that arrive whole and authenticate.
use xchange.Prelude.{◌≡◌, arith, true, false, some, Bytes}
use xchange.Wire.Layout.{decode_header}
use xchange.Sio.{Kernel, done, read_from_socket}
use xchange.Crypto.{CryptoLib, Keys}
use xchange.Crypto.Handler.{Cipher, decrypt}
use xchange.SocketIo.{Session, Manager, accept_frame, overwrite}
use xchange.SocketIo.Io.{read_bytes}
use xchange.SocketIo.Receive.{decrypt_buffer, finish_frame, finish_from_buffer, read_sealed_frame}

module _ (K : Kernel) (C : CryptoLib) where
  abbrev St : Type 0
  St = Session C.Rng K.World

  -- The manager once the frame is decrypted.
  abbrev pub opened : Cipher → Keys → Bytes → Manager C.Rng → Manager C.Rng
  opened c keys plain m = record m {
    dec = some (c, keys);
    pln_buffer = overwrite plain m.pln_buffer;
  }

  pub read_sealed_frame_opens :
      (c : Cipher) (keys keys' : Keys) (bs plain : Bytes) (w' : K.World) (s : St)
      → s.manager.dec ≡ some (c, keys)
      → read_from_socket K 1460 false s.world ≡ done bs w'
      → decrypt C c bs keys ≡ ((plain, true), keys')
      → read_sealed_frame K C s ≡ (
          let m = opened c keys' plain s.manager in
          let r = accept_frame (decode_header m.pln_buffer) m in
          some (r.0, record { manager = r.1; world = w' }))
  unfolding read_sealed_frame decrypt_buffer finish_frame finish_from_buffer read_bytes
  read_sealed_frame_opens c keys keys' bs plain w' s dec read open_ =
      ground (arith, dec, read, open_)
