-- ===== src/Transfer/Sealed.antt =====
-- One encrypted frame, from `SendDataFrame` of the client to `ReadDataFrame` of the server.
pub mod Ends
pub mod File
use xchange.Prelude.{
  ℕ, ◌+◌, ◌^◌, ◌≤◌, ◌<◌, ◌≡◌, refl, sym, ap, ◌∙◌, arith, false, true, some, Bytes, [], ◌++◌,
  append_assoc, append-nil, length, length-append, take, take-append_left, take-append-drop, drop,
  drop-append_left,
}
use xchange.Wire.Layout.{encode_header, decode_header}
use xchange.Wire.Layout.RoundTrip.{decode_header-encode_header}
use xchange.Tool.Fletcher.{fletcher16}
use xchange.Sio.{Kernel, got, wrote, done, read_from_socket}
use xchange.Sio.Deliver.{Delivers, read_prefix}
use xchange.Sio.Accepting.{Accepts, write_accepted}
use xchange.Crypto.{CryptoLib, Keys, frame, EncryptState}
use xchange.Crypto.Handler.{Cipher, encrypt, decrypt}
use xchange.Crypto.Handler.Session.{CryptoLaws, InStep, Opens, decrypt-encrypt}
use xchange.Frame.{DataFrame, frame_size}
use xchange.SocketIo.{Session, Manager, overwrite, accept_frame}
use xchange.SocketIo.Accept.{IsNext, verify_data_frame-IsNext}
use xchange.SocketIo.Io.{write_bytes, send_data_buffer}
use xchange.SocketIo.Send.{send_data_frame}
use xchange.SocketIo.Receive.{read_data_frame}
use xchange.SocketIo.Receive.Sealed.{opened, read_sealed_frame_opens}
use xchange.Transfer.Frames.{
  header_of, frame_bytes, FrameFits, header_of-HeaderFits, payload_whole, length-frame_bytes,
  get_transmit_buffer-frame_bytes,
}
use xchange.Transfer.Arrival.{answer, buffer_payload}

-- A manager of an encrypted transfer that expects the frame `n`.
pub record SealedReady {R : Type 0} (id n : ℕ) (c : Cipher) (keys : Keys) (m : Manager R)
    : Type 0 where
  pub encrypted : m.encrypted ≡ true
  pub block : m.data_block_size ≡ 1434
  pub transmission_id : m.ctrl_frame.transmission_id ≡ id
  pub order : m.frame_order_nbr ≡ n
  pub dec : m.dec ≡ some (c, keys)

module _ (f : DataFrame) (fits : FrameFits f) where
  decode_header-frame_bytes : (tail : Bytes) → decode_header (frame_bytes f ++ tail) ≡ header_of f
  unfolding frame_bytes
  decode_header-frame_bytes tail =
      ap decode_header
        (append_assoc (encode_header (header_of f)) (take f.header.data_size f.data_pointer) tail)
      ∙ (decode_header-encode_header (header_of f) _ (header_of-HeaderFits f fits)).0

  -- The next frame of a transfer, in front of a buffer, is taken.
  accept_next :
      {R : Type 0} (m : Manager R) (tail : Bytes)
      → m.pln_buffer ≡ frame_bytes f ++ tail
      → f.header.transmission_id ≡ m.ctrl_frame.transmission_id
      → f.header.order_nbr ≡ m.frame_order_nbr
      → length f.data_pointer ≤ m.data_block_size
      → m.frame_order_nbr + 1 < 2 ^ 32
      → accept_frame (header_of f) m
        ≡ (answer f, record m { frame_order_nbr = m.frame_order_nbr + 1 })
  unfolding header_of accept_frame
  accept_next m tail buffer id order small room =
      let next : IsNext (header_of f) m = record {
        transmission_id = id;
        order_nbr = order;
        data_size = omega (arith, fits.size, small);
        chksum = ap fletcher16 (
            ap (λ n. take n (drop 10 m.pln_buffer)) fits.size
            ∙ ap (λ b. take (length f.data_pointer) (drop 10 b)) buffer
            ∙ buffer_payload f fits m tail
            ∙ sym (payload_whole f fits));
      } in
      let ok = (verify_data_frame-IsNext (header_of f) m).1 next in ground (arith, ok, room)

module _ (Kc Ks : Kernel) (C : CryptoLib) (outgoing : Kc.World → Bytes)
    (incoming : Ks.World → Bytes) (accepts : Accepts Kc outgoing) (delivers : Delivers Ks incoming)
    (laws : CryptoLaws C) where
  -- `SendDataFrame` writes the sealed frame, which the other end can open.
  pub send_sealed :
      (c : Cipher) (f : DataFrame) (e : EncryptState C.Rng) (d : Keys) (s : Session C.Rng Kc.World)
      → FrameFits f
      → length f.data_pointer ≤ 1434
      → s.manager.encrypted ≡ true
      → s.manager.enc ≡ some (c, e)
      → InStep e d
      → (out : Bytes) × (e' : EncryptState C.Rng) × (w' : Kc.World) × (send_data_frame Kc C f s
          ≡ some (true, record { manager = record s.manager { enc = some (c, e') }; world = w' }))
        × (outgoing w' ≡ outgoing s.world ++ out)
        × Opens (frame_bytes f) out e' (decrypt C c out d)
        × (Kc.write out s.world ≡ wrote (length out) w')
  unfolding send_data_frame send_data_buffer write_bytes frame_size header_of
  send_sealed c f e d s fits small enc cipher step =
      let buffer = get_transmit_buffer-frame_bytes f fits in
      let len : length (frame_bytes f) ≡ 10 + f.header.data_size = length-frame_bytes f fits in
      let (out, e', sealed, opens) =
        decrypt-encrypt C laws c (frame_bytes f) [] e d (omega (arith, len, fits.size, small))
          step in
      let sealed' : encrypt C c (frame_bytes f) (10 + f.header.data_size) e ≡ frame out e' =
        ap (λ b. encrypt C c b (10 + f.header.data_size) e) (sym (append-nil (frame_bytes f)))
        ∙ ap (λ (k : ℕ). encrypt C c (frame_bytes f ++ []) k e) (sym len)
        ∙ sealed in
      let (w', written, once, sent) =
        write_accepted Kc outgoing accepts out s.world (omega (arith, opens.size)) in
      (
        out,
        e',
        w',
        ground (arith, enc, cipher, buffer, sealed', written, opens.size),
        sent,
        opens,
        once,
      )

  -- `ReadDataFrame` on the sealed frame.
  pub read_sealed :
      (c : Cipher) (id n : ℕ) (f : DataFrame) (out rest : Bytes) (e' : EncryptState C.Rng)
      (d : Keys) (t : Session C.Rng Ks.World)
      → FrameFits f
      → length f.data_pointer ≤ 1434
      → SealedReady id n c d t.manager
      → Opens (frame_bytes f) out e' (decrypt C c out d)
      → f.header.transmission_id ≡ id
      → f.header.order_nbr ≡ n
      → n + 1 < 2 ^ 32
      → incoming t.world ≡ out ++ rest
      → (d' : Keys) × (t' : Session C.Rng Ks.World) × (read_data_frame Ks C t ≡ some (answer f, t'))
        × SealedReady id (n + 1) c d' t'.manager
        × InStep e' d'
        × (take (length f.data_pointer) (drop 10 t'.manager.pln_buffer) ≡ f.data_pointer)
        × (incoming t'.world ≡ rest)
        × (Ks.recv 1460 false t.world ≡ got out t'.world)
  unfolding read_data_frame
  read_sealed c id n f out rest e' d t fits small ready opens same_id same_order room came =
      let r = decrypt C c out d in
      let plain = r.0.0 in
      let size = length (frame_bytes f) in
      let (w', read, left, received) =
        read_prefix Ks incoming delivers out rest t.world (omega (arith, opens.size)) came in
      let split : plain ≡ frame_bytes f ++ drop size plain =
        sym (take-append-drop size plain) ∙ ap (λ b. b ++ drop size plain) opens.starts in
      let tail = drop size plain ++ drop (length plain) t.manager.pln_buffer in
      let buffer : overwrite plain t.manager.pln_buffer ≡ frame_bytes f ++ tail =
        ap (λ b. b ++ drop (length plain) t.manager.pln_buffer) split
        ∙ append_assoc (frame_bytes f) (drop size plain) _ in
      let m = opened Ks C c r.1 plain t.manager in
      let header = ap decode_header buffer ∙ decode_header-frame_bytes f fits tail in
      let taken =
        accept_next f fits m tail buffer (same_id ∙ sym ready.transmission_id)
          (same_order ∙ sym ready.order) (omega (arith, ready.block, small))
          (omega (arith, ready.order, room)) in
      let verified : r ≡ ((plain, true), r.1) = ap (λ b. ((plain, b), r.1)) opens.verified in
      let run =
        read_sealed_frame_opens Ks C c d r.1 out plain w' t ready.dec
          (ap (λ (k : ℕ). read_from_socket Ks k false t.world) (sym opens.size) ∙ read) verified in
      let whole = ap (λ h. accept_frame h m) header ∙ taken in
      let run' = run ∙ ap (λ q. some (q.0, record { manager = q.1; world = w' })) whole in
      (
        r.1,
        record {
          manager = record m { frame_order_nbr = t.manager.frame_order_nbr + 1 };
          world = w';
        },
        ground (arith, ready.encrypted, run'),
        record {
          encrypted = ready.encrypted;
          block = ready.block;
          transmission_id = ready.transmission_id;
          order = ap (λ (k : ℕ). k + 1) ready.order;
          dec = refl;
        },
        opens.in_step,
        ap (λ b. take (length f.data_pointer) (drop 10 b)) buffer ∙ buffer_payload f fits m tail,
        left,
        ap (λ (k : ℕ). Ks.recv k false t.world) (sym opens.size) ∙ received,
      )

  -- For each cipher, on ends that are in step and sockets that take writes and deliver reads whole:
  -- `SendDataFrame` of a fitting frame of at most 1434 bytes reports success and writes bytes after
  -- which the two ends are in step again; when they arrive, `ReadDataFrame` of a server that
  -- expects the frame answers its size (EOT or an error if it is empty), has its payload in the
  -- buffer, expects the next frame, and leaves what is behind it in the socket.
  pub sealed_frame_arrives :
      (c : Cipher) (id n : ℕ) (f : DataFrame) (rest : Bytes) (e : EncryptState C.Rng) (d : Keys)
      (s : Session C.Rng Kc.World) (m : Manager C.Rng) (arrive : Bytes → Ks.World)
      → FrameFits f
      → length f.data_pointer ≤ 1434
      → s.manager.encrypted ≡ true
      → s.manager.enc ≡ some (c, e)
      → SealedReady id n c d m
      → InStep e d
      → f.header.transmission_id ≡ id
      → f.header.order_nbr ≡ n
      → n + 1 < 2 ^ 32
      → ((b : Bytes) → incoming (arrive b) ≡ b ++ rest)
      → (out : Bytes) × (e' : EncryptState C.Rng) × (d' : Keys) × (w' : Kc.World) × (t' : Session
          C.Rng Ks.World)
        × (send_data_frame Kc C f s
            ≡ some (true, record { manager = record s.manager { enc = some (c, e') }; world = w' }))
        × (outgoing w' ≡ outgoing s.world ++ out)
        × (read_data_frame Ks C (record { manager = m; world = arrive out }) ≡ some (answer f, t'))
        × SealedReady id (n + 1) c d' t'.manager
        × InStep e' d'
        × (take (length f.data_pointer) (drop 10 t'.manager.pln_buffer) ≡ f.data_pointer)
        × (incoming t'.world ≡ rest)
  sealed_frame_arrives c id n f rest e d s m arrive fits small enc cipher ready step same_id
        same_order room net =
      let (out, e', w', sent, written, opens, once) =
        send_sealed c f e d s fits small enc cipher step in
      let (d', t', received, ready', step', content, left, one_call) =
        read_sealed c id n f out rest e' d (record { manager = m; world = arrive out }) fits small
          ready opens same_id same_order room (net out) in
      (out, e', d', w', t', sent, written, received, ready', step', content, left)
