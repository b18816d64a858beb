-- ===== src/Transfer/Session/Sender.antt =====
-- `protocol_handler` of the client in a whole encrypted transfer.
use xchange.Prelude.{
  ℕ, ◌≤◌, ◌≡◌, refl, sym, ap, subst, ◌∙◌, arith, Bool, true, false, not, some, Bytes, IsByte, [],
  ◌++◌, append_assoc, append-nil, length, length-append, take, take_all, ◌==◌, if◌then◌else◌,
}
use xchange.Wire.{CtrlFrame}
use xchange.Wire.Layout.{encode_ctrl}
use xchange.Sio.{Kernel}
use xchange.Sio.Duplex.{Duplex, write_duplex}
use xchange.Sio.Dry.{RunsDry}
use xchange.Crypto.{CryptoLib, Keys, EncryptState}
use xchange.Crypto.Handler.{Cipher, get_iv_size, new_encryption, read_key}
use xchange.Crypto.Handler.Fresh.{get_iv_size_bounds}
use xchange.Crypto.Handler.Session.{CryptoLaws, InStep}
use xchange.SocketIo.{Session, CtrlInfo}
use xchange.SocketIo.Io.{write_bytes}
use xchange.SocketIo.Receive.{get_ack_from_socket}
use xchange.SocketIo.Send.{ctrl_frame_of, send_ctrl_frame_encrypted, enc_read_key_from_file}
use xchange.Client.Handler.{stop_client, Job, Control, protocol_handler}
use xchange.Client.Handler.Passes.{sender_steps, protocol_handler_made}
use xchange.Transfer.Blocks.{file_frames}
use xchange.Transfer.Sealed.Ends.{SealedWire}
use xchange.Transfer.Sealed.File.{SealedSends, send_file_seals}
use xchange.Transfer.Session.{ack_bytes, is_lost, answers, IsSealedFile}
use xchange.Transfer.Session.Ack.{get_ack_duplex, get_ack_dry}
use xchange.Transfer.Session.Start.{
  sealed_manager, sender_state, sender_state-iv, length-sender_state, new_manager_sealed,
}

pub length-encode_ctrl : (cf : CtrlFrame) → length (encode_ctrl cf) ≡ 5
unfolding encode_ctrl
length-encode_ctrl cf = refl

-- The control frame and the iv of a connection.
abbrev pub opening : CtrlInfo → Bytes → Bytes
opening info iv = encode_ctrl (ctrl_frame_of true info) ++ iv

module _ (K : Kernel) (C : CryptoLib) (j : Job) where
  abbrev St : Type 0
  St = Session C.Rng K.World

  read_key_step :
      (c : Cipher) (e : EncryptState C.Rng) (s : St)
      → s.manager.enc ≡ some (c, e)
      → (read_key C c j.key_file e.keys).1 ≡ 0
      → enc_read_key_from_file K C j.key_file s
        ≡ some (
          true,
          record s {
            manager = record s.manager {
              enc = some (c, record e { keys = (read_key C c j.key_file e.keys).0 });
            };
          },
        )
  unfolding enc_read_key_from_file
  read_key_step c e s enc ok = ground (arith, enc, ok)

  open_step :
      (c : Cipher) (e : EncryptState C.Rng) (incoming outgoing : K.World → Bytes) (s : St)
      → Duplex K incoming outgoing
      → s.manager.enc ≡ some (c, e)
      → length e.keys.iv ≡ get_iv_size c
      → (w' : K.World) × (send_ctrl_frame_encrypted K C j.ctrl s
          ≡ some (true, record s { world = w' }))
        × (outgoing w' ≡ outgoing s.world ++ opening j.ctrl e.keys.iv)
        × (incoming w' ≡ incoming s.world)
  unfolding send_ctrl_frame_encrypted write_bytes
  open_step c e incoming outgoing s net enc size =
      let whole : take (get_iv_size c) e.keys.iv ≡ e.keys.iv =
        take_all (get_iv_size c) e.keys.iv (omega (arith, size)) in
      let cf = encode_ctrl (ctrl_frame_of true j.ctrl) in
      let small : length (opening j.ctrl e.keys.iv) ≤ 1460 = omega (
        arith,
        length-append cf e.keys.iv,
        length-encode_ctrl (ctrl_frame_of true j.ctrl),
        size,
        get_iv_size_bounds c,
      ) in
      let (w', e1, out, left) =
        write_duplex K incoming outgoing net (opening j.ctrl e.keys.iv) s.world small in
      (w', ground (arith, enc, whole, e1), out, left)

module _ (K : Kernel) (C : CryptoLib) (incoming outgoing : K.World → Bytes)
    (net : Duplex K incoming outgoing) (dry : RunsDry K incoming) where
  -- The last answer: an ACK, or none.
  pub last_ack :
      (lost : Bool) (s : Session C.Rng K.World)
      → incoming s.world ≡ (if lost then [] else ack_bytes)
      → (answer : ℕ) × (s' : Session C.Rng K.World) × (get_ack_from_socket K C s
          ≡ some (answer, s'))
        × (not (answer == 0) ≡ lost)
        × (outgoing s'.world ≡ outgoing s.world)
  last_ack true s came =
      let (w', e, out) = get_ack_dry K C incoming outgoing net dry s came in
      (1, record s { world = w' }, e, refl, out)
  last_ack false s came =
      let (w', e, left, out) =
        get_ack_duplex K C incoming outgoing net [] s (came ∙ sym (append-nil ack_bytes)) in
      (0, record s { world = w' }, e, refl, out)

module _ (Kc Ks : Kernel) (C : CryptoLib) (arriving outgoing : Kc.World → Bytes)
    (incoming sent : Ks.World → Bytes) (client : Duplex Kc arriving outgoing)
    (server : Duplex Ks incoming sent) (laws : CryptoLaws C) (c : Cipher) where
  -- The client's run, for a server whose keys `d` are in step with the client's.
  pub sender_session :
      (j : Job) (bytes : Bytes) (cf : CtrlFrame) (memory d : Keys) (buffer : Bytes) (rng : C.Rng)
      (w : Kc.World)
      → IsSealedFile c j bytes
      → RunsDry Kc arriving
      → (read_key C c j.key_file (new_encryption C c memory rng).keys).1 ≡ 0
      → InStep (sender_state C c j.key_file memory rng) d
      → arriving w ≡ answers 1434 bytes
      → (ctl : Control) × (s' : Session C.Rng Kc.World) × (wire : Bytes) × (protocol_handler Kc C j
            cf memory buffer rng w
          ≡ some (ctl, s'))
        × (ctl.error ≡ is_lost 1434 bytes)
        × (ctl.running ≡ false)
        × (outgoing s'.world
            ≡ outgoing w ++ (opening j.ctrl (new_encryption C c memory rng).keys.iv ++ wire))
        × SealedWire C c d (file_frames 1434 j.ctrl.transmission_id j.transfer.filename bytes) wire
  sender_session j bytes cf memory d buffer rng w job dry key step came =
      let e = new_encryption C c memory rng in
      let k = sender_state C c j.key_file memory rng in
      let s0 : Session C.Rng Kc.World = record {
        manager = sealed_manager C c cf memory buffer rng;
        world = w;
      } in
      let s1 : Session C.Rng Kc.World = record s0 {
        manager = record s0.manager { enc = some (c, k) };
      } in
      let (w2, opened, out2, in2) =
        open_step Kc C j c k arriving outgoing s1 client refl
          (length-sender_state C c j.key_file memory rng laws.rng) in
      let last = if is_lost 1434 bytes then [] else ack_bytes in
      let s2 : Session C.Rng Kc.World = record s1 { world = w2 } in
      let (w3, acked, in3, out3) =
        get_ack_duplex Kc C arriving outgoing client last s2 (in2 ∙ came) in
      let s3 : Session C.Rng Kc.World = record s1 { world = w3 } in
      let sends : SealedSends C c (k, d) j.transfer bytes s3 = record {
        source = job.source;
        no_limit = job.no_limit;
        transmission_id = subst IsByte (sym job.same_id) job.transmission_id;
        name = job.name;
        sealing = record { encrypted = refl; block = refl; enc = refl; in_step = step };
        room = job.room;
      } in
      let (s4, wire, sent_file, out4, in4, opens) =
        send_file_seals Kc Ks C arriving outgoing incoming sent client server laws c (k, d)
          j.transfer bytes s3 sends in
      let (answer, s5, finished, verdict, out5) =
        last_ack Kc C arriving outgoing client dry (is_lost 1434 bytes) s4 (in4 ∙ in3) in
      let run =
        sender_steps Kc C j answer s0 s1 s2 s3 s4 s5 job.mode refl refl
          (read_key_step Kc C j c e s0 refl key) opened acked sent_file finished in
      let made = new_manager_sealed C c j.ctrl.sec_ver cf memory buffer rng job.cipher in
      let front =
        out2
        ∙ ap (λ iv. outgoing w ++ opening j.ctrl iv) (sender_state-iv C c j.key_file memory rng) in
      (
        record { state = stop_client; error = not (answer == 0); running = false },
        s5,
        wire,
        protocol_handler_made Kc C j cf memory buffer rng w s0.manager made ∙ run,
        verdict,
        refl,
        out5 ∙ out4 ∙ ap (λ b. b ++ wire) (out3 ∙ front) ∙ append_assoc (outgoing w) _ wire,
        subst (λ id. SealedWire C c d (file_frames 1434 id j.transfer.filename bytes) wire)
            job.same_id opens,
      )
