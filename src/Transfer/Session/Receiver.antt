-- ===== src/Transfer/Session/Receiver.antt =====
-- `connection` of the server in a whole encrypted transfer.
use xchange.Prelude.{
  ℕ, ◌+◌, ◌/◌, ◌^◌, ◌<◌, ◌≡◌, refl, sym, ap, subst, ◌∙◌, arith, true, false, not, some, none, List,
  Bytes, [], ◌++◌, append-nil, length, if◌then◌else◌,
}
use xchange.Wire.{CtrlFrame, type_bin}
use xchange.Wire.Layout.{encode_ctrl}
use xchange.Wire.Layout.RoundTrip.{CtrlFits}
use xchange.Sio.{Kernel, done, read_from_socket}
use xchange.Sio.Duplex.{Duplex, read_duplex}
use xchange.Crypto.{CryptoLib, Keys}
use xchange.Crypto.Handler.{Cipher, select_class, get_iv_size, set_iv, new_decryption, read_key}
use xchange.Crypto.Handler.Fresh.{get_iv_size_bounds}
use xchange.Crypto.Handler.Session.{CryptoLaws}
use xchange.SocketIo.{Session}
use xchange.SocketIo.Io.{read_bytes}
use xchange.SocketIo.Receive.{set_iv_from_socket}
use xchange.SocketIo.Send.{dec_read_key_from_file}
use xchange.Server.Admission.{ctrl_frame_valid, sec_version_lookup}
use xchange.Server.Files.{Files, exists}
use xchange.Server.Files.Written.{Written}
use xchange.Server.Protocol.{Server, Params, target_path, connection_type}
use xchange.Server.Handler.{closed, Control, is_encrypted, served, connection}
use xchange.Server.Handler.Passes.{receiver_steps, connection_made}
use xchange.Transfer.Blocks.{file_frames, ends_short}
use xchange.Transfer.RecvFile.{IsFilename}
use xchange.Transfer.Sealed.Ends.{SealedWire}
use xchange.Transfer.Sealed.File.{recv_file_opens}
use xchange.Transfer.Session.{ack_bytes}
use xchange.Transfer.Session.Ack.{send_ack_duplex}
use xchange.Transfer.Session.Ends.{ctrl_frame_read, at_end}
use xchange.Transfer.Session.Start.{sealed_manager, receiver_keys, new_manager_sealed}

-- An admitted control frame that announces a file encrypted with the cipher `c`.
pub record OpensSealedFile (allowed : List ℕ) (c : Cipher) (cf : CtrlFrame) : Type 0 where
  pub fits : CtrlFits cf
  pub valid : ctrl_frame_valid allowed cf ≡ true
  pub sec_ver : ℕ
  pub version : sec_version_lookup cf.pv ≡ some sec_ver
  pub cipher : select_class sec_ver ≡ some c
  pub encrypted : is_encrypted cf ≡ true
  pub binary : connection_type cf ≡ type_bin

module _ (K : Kernel) (C : CryptoLib) (incoming outgoing : K.World → Bytes)
    (net : Duplex K incoming outgoing) (c : Cipher) where
  abbrev St : Type 0
  St = Session C.Rng K.World

  set_iv_read :
      (iv : Bytes) (d : Keys) (s : St) (w' : K.World)
      → s.manager.dec ≡ some (c, d)
      → read_from_socket K (get_iv_size c) false s.world ≡ done iv w'
      → set_iv_from_socket K C s
        ≡ some (
          true,
          record { manager = record s.manager { dec = some (c, set_iv c iv d) }; world = w' },
        )
  unfolding set_iv_from_socket read_bytes
  set_iv_read iv d s w' dec read = ground (arith, dec, read)

  iv_step :
      (iv rest : Bytes) (d : Keys) (s : St)
      → s.manager.dec ≡ some (c, d)
      → length iv ≡ get_iv_size c
      → incoming s.world ≡ iv ++ rest
      → (w' : K.World) × (set_iv_from_socket K C s
          ≡ some (
            true,
            record { manager = record s.manager { dec = some (c, set_iv c iv d) }; world = w' },
          ))
        × (incoming w' ≡ rest)
        × (outgoing w' ≡ outgoing s.world)
  iv_step iv rest d s dec size came =
      let (w', e, left, out) =
        read_duplex K incoming outgoing net iv rest s.world
          (omega (arith, size, get_iv_size_bounds c)) came in
      (
        w',
        set_iv_read iv d s w' dec
            (ap (λ (n : ℕ). read_from_socket K n false s.world) (sym size) ∙ e),
        left,
        out,
      )

  key_step :
      (file : Bytes) (d : Keys) (s : St)
      → s.manager.dec ≡ some (c, d)
      → (read_key C c file d).1 ≡ 0
      → dec_read_key_from_file K C file s
        ≡ some (
          true,
          record s { manager = record s.manager { dec = some (c, (read_key C c file d).0) } },
        )
  unfolding dec_read_key_from_file
  key_step file d s dec ok = ground (arith, dec, ok)

module _ (Kc Ks : Kernel) (C : CryptoLib) (arriving outgoing : Kc.World → Bytes)
    (incoming sent : Ks.World → Bytes) (client : Duplex Kc arriving outgoing)
    (server : Duplex Ks incoming sent) (laws : CryptoLaws C) (c : Cipher) where
  -- The server's run on a control frame, an iv and bytes that open as the frames of a file.
  pub receiver_session :
      (allowed : List ℕ) (p : Params) (cf : CtrlFrame) (name path bytes iv wire : Bytes)
      (memory : Keys) (buffer : Bytes) (rng : C.Rng) (files : Files) (w : Ks.World)
      → OpensSealedFile allowed c cf
      → IsFilename name
      → length bytes / 1434 + 3 < 2 ^ 32
      → target_path p.out_dir name ≡ some path
      → exists path files ≡ false
      → files.can_open path ≡ true
      → length iv ≡ get_iv_size c
      → (read_key C c p.key_file (set_iv c iv (new_decryption C c memory))).1 ≡ 0
      → SealedWire C c
          (receiver_keys C c p.key_file iv memory)
          (file_frames 1434 cf.transmission_id name bytes)
          wire
      → incoming w ≡ encode_ctrl cf ++ (iv ++ wire)
      → (ctl : Control) × (t : Server C.Rng Ks.World) × (connection Ks C allowed p memory buffer rng
            files w
          ≡ served ctl t)
        × (ctl.state ≡ closed)
        × (ctl.err ≡ not (ends_short 1434 bytes))
        × (t.err_state ≡ not (ends_short 1434 bytes))
        × Written path (if ends_short 1434 bytes then some bytes else none) files t.files
        × (sent t.session.world
            ≡ (sent w ++ ack_bytes) ++ (if ends_short 1434 bytes then ack_bytes else []))
  receiver_session allowed p cf name path bytes iv wire memory buffer rng files w opening named room
        target free can size key opens came =
      let short = ends_short 1434 bytes in
      let d0 = new_decryption C c memory in
      let d1 = set_iv c iv d0 in
      let m = sealed_manager C c cf memory buffer rng in
      let (bs, w0, read, back, in0, out0) =
        ctrl_frame_read Ks C incoming sent server cf (iv ++ wire) w opening.fits came in
      let a0 : Session C.Rng Ks.World = record { manager = m; world = w0 } in
      let s0 : Server C.Rng Ks.World = record {
        session = a0;
        files = files;
        printed = [];
        err_state = false;
      } in
      let (w1, iv_read, in1, out1) =
        iv_step Ks C incoming sent server c iv wire d0 a0 refl size in0 in
      let a1 : Session C.Rng Ks.World = record {
        manager = record m { dec = some (c, d1) };
        world = w1;
      } in
      let key_read = key_step Ks C incoming sent server c p.key_file d1 a1 refl key in
      let d2 = receiver_keys C c p.key_file iv memory in
      let a2 : Session C.Rng Ks.World = record {
        manager = record m { dec = some (c, d2) };
        world = w1;
      } in
      let (w3, acked, out3, in3) = send_ack_duplex Ks C incoming sent server a2 in
      let a3 : Session C.Rng Ks.World = record a2 { world = w3 } in
      let (s4, received, written, same, quiet) =
        recv_file_opens Kc Ks C arriving outgoing incoming sent client server laws c d2 p
          cf.transmission_id name path bytes wire [] (record s0 { session = a3 })
          opening.fits.transmission_id named room target free can
          (record {
            encrypted = refl;
            block = refl;
            transmission_id = refl;
            order = refl;
            dec = refl;
          })
          opens (in3 ∙ in1 ∙ sym (append-nil wire)) in
      let (w5, acked5, out5, in5) = send_ack_duplex Ks C incoming sent server s4.session in
      let run =
        receiver_steps Ks C p cf short s0 s4 a1 a2 a3 (record s4.session { world = w5 })
          opening.encrypted opening.binary iv_read key_read acked received acked5 in
      let (err, kept_files, out) =
        at_end Ks C incoming sent server short s4 (record s4.session { world = w5 }) w5 refl out5
          same in
      let before = quiet ∙ out3 ∙ ap (λ b. b ++ ack_bytes) (out1 ∙ out0) in
      (
        _,
        _,
        connection_made Ks C allowed p cf opening.sec_ver memory buffer bs rng files w w0 m _ _ read
            back opening.valid opening.version
            (new_manager_sealed C c opening.sec_ver cf memory buffer rng opening.cipher) refl run,
        refl,
        refl,
        err,
        subst (Written path (if short then some bytes else none) files) (sym kept_files) written,
        out ∙ ap (λ b. b ++ (if short then ack_bytes else [])) before,
      )
