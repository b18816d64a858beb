-- ===== src/Transfer/Session/Text.antt =====
-- A whole transfer of a message without encryption.
use xchange.Prelude.{
  ℕ, ◌<◌, ◌≡◌, refl, sym, ap, subst, ◌∙◌, arith, true, false, some, List, [], ◌∷◌, Bytes, IsByte,
  ◌++◌, append-nil, append_assoc, length, drop, drop-append_left,
}
use xchange.Wire.{CtrlFrame, type_txt}
use xchange.Wire.Layout.{encode_ctrl}
use xchange.Wire.Layout.RoundTrip.{CtrlFits}
use xchange.Sio.{Kernel}
use xchange.Sio.Duplex.{Duplex, write_keeps, recv_keeps}
use xchange.Crypto.{CryptoLib, Keys}
use xchange.SocketIo.{Session, new_manager}
use xchange.SocketIo.Send.{ctrl_frame_of}
use xchange.Client.Protocol.{mode_text}
use xchange.Client.Handler as Client
use xchange.Client.Handler.Passes.{plain_text_steps, protocol_handler_made}
use xchange.Server.Admission.{listed, ctrl_frame_valid, sec_version_lookup, pro_version_lookup}
use xchange.Server.Admission.Whitelist.{client_frame_admission}
use xchange.Server.Files.{Files}
use xchange.Server.Protocol.{Server, Params, message_heading, entry, connection_type}
use xchange.Server.Handler as Daemon
use xchange.Server.Handler.Passes.{text_steps, connection_made}
use xchange.Transfer.Message.{IsMessage, message_wire, send_message_keeps, recv_message_arrives}
use xchange.Transfer.Session.{ack_bytes}
use xchange.Transfer.Session.Ack.{get_ack_duplex, send_ack_duplex}
use xchange.Transfer.Session.Ends.{ctrl_frame_read}
use xchange.Transfer.Session.Plain.{open_plain}
use xchange.Transfer.Session.Refines.{plain_ctrl_frame-CtrlFits, plain_ctrl_frame-transmission_id}
use xchange.Transfer.Session.Start.{plain_manager, new_manager_plain}

-- A job that sends a message without encryption.
pub record IsTextJob (j : Client.Job) (msg : Bytes) : Type 0 where
  pub sec_ver : j.ctrl.sec_ver ≡ 1
  pub pv : j.ctrl.pv ≡ 1
  pub mode : j.mode ≡ mode_text
  pub no_file : j.ctrl.is_file ≡ false
  pub same_id : j.transfer.transmission_id ≡ j.ctrl.transmission_id
  pub some_id : 0 < j.ctrl.transmission_id
  pub message : IsMessage j.transfer msg

-- What the server finds in the control frame of such a job.
record OpensText (allowed : List ℕ) (cf : CtrlFrame) : Type 0 where
  fits : CtrlFits cf
  valid : ctrl_frame_valid allowed cf ≡ true
  plain : sec_version_lookup cf.pv ≡ some 1
  not_encrypted : Daemon.is_encrypted cf ≡ false
  text : connection_type cf ≡ type_txt

client-OpensText :
    (allowed : List ℕ) (j : Client.Job) (msg : Bytes)
    → IsTextJob j msg
    → listed 1 allowed ≡ true
    → OpensText allowed (ctrl_frame_of false j.ctrl)
unfolding Daemon.is_encrypted connection_type pro_version_lookup
client-OpensText allowed j msg job on_list =
    let table : pro_version_lookup j.ctrl.sec_ver ≡ some j.ctrl.pv =
      ground (arith, job.sec_ver, job.pv) in
    let (valid, version, sealed, binary) =
      client_frame_admission allowed j.ctrl false (omega (arith, job.sec_ver))
        (omega (arith, job.sec_ver)) table job.some_id in
    record {
      fits =
          plain_ctrl_frame-CtrlFits j.ctrl job.pv job.sec_ver
            (subst IsByte job.same_id job.message.transmission_id);
      valid = valid ∙ ap (λ v. listed v allowed) job.sec_ver ∙ on_list;
      plain = version ∙ ap some job.sec_ver;
      not_encrypted = sealed;
      text = ground (arith, binary, job.no_file);
    }

module _ (K : Kernel) (C : CryptoLib) (arriving outgoing : K.World → Bytes)
    (net : Duplex K arriving outgoing) where
  -- The client's run.
  text_sender_session :
      (j : Client.Job) (msg : Bytes) (cf : CtrlFrame) (memory : Keys) (buffer : Bytes) (rng : C.Rng)
      (w : K.World)
      → IsTextJob j msg
      → arriving w ≡ ack_bytes ++ ack_bytes
      → (s' : Session C.Rng K.World) × (Client.protocol_handler K C j cf memory buffer rng w
          ≡ some (record { state = Client.stop_client; error = false; running = false }, s'))
        × (outgoing s'.world
            ≡ outgoing w
              ++ (encode_ctrl (ctrl_frame_of false j.ctrl)
                  ++ message_wire j.transfer.transmission_id msg))
  text_sender_session j msg cf memory buffer rng w job came =
      let m = plain_manager cf buffer in
      let s0 : Session C.Rng K.World = record { manager = m; world = w } in
      let (w2, opened, out2, in2) = open_plain K C arriving outgoing net j.ctrl s0 in
      let s2 : Session C.Rng K.World = record { manager = m; world = w2 } in
      let (w3, acked, in3, out3) =
        get_ack_duplex K C arriving outgoing net ack_bytes s2 (in2 ∙ came) in
      let s3 : Session C.Rng K.World = record { manager = m; world = w3 } in
      let (w4, sent, out4, in4) =
        send_message_keeps K C outgoing net.accepts (λ v. arriving v ≡ ack_bytes)
          (write_keeps K arriving outgoing net ack_bytes) j.transfer msg s3 job.message
          (record { plain = refl; block = refl }) in3 in
      let s4 : Session C.Rng K.World = record { manager = m; world = w4 } in
      let (w5, last, in5, out5) =
        get_ack_duplex K C arriving outgoing net [] s4 (in4 ∙ sym (append-nil ack_bytes)) in
      let s5 : Session C.Rng K.World = record { manager = m; world = w5 } in
      let run = plain_text_steps K C j 0 s0 s2 s3 s4 s5 job.mode refl opened acked sent last in
      let made =
        ap (λ v. new_manager C v cf memory buffer rng) job.sec_ver
        ∙ new_manager_plain C cf memory buffer rng in
      (
        s5,
        protocol_handler_made K C j cf memory buffer rng w m made ∙ run,
        out5
            ∙ out4
            ∙ ap (λ b. b ++ message_wire j.transfer.transmission_id msg) (out3 ∙ out2)
            ∙ append_assoc (outgoing w) _ _,
      )

module _ (K : Kernel) (C : CryptoLib) (incoming outgoing : K.World → Bytes)
    (net : Duplex K incoming outgoing) where
  -- The server's run.
  text_receiver_session :
      (allowed : List ℕ) (p : Params) (cf : CtrlFrame) (j : Client.Job) (msg : Bytes)
      (memory : Keys) (buffer : Bytes) (rng : C.Rng) (files : Files) (w : K.World)
      → OpensText allowed cf
      → IsMessage j.transfer msg
      → j.transfer.transmission_id ≡ cf.transmission_id
      → 1460 < length buffer
      → incoming w ≡ encode_ctrl cf ++ message_wire j.transfer.transmission_id msg
      → (t : Server C.Rng K.World) × (Daemon.connection K C allowed p memory buffer rng files w
          ≡ Daemon.served (record { state = Daemon.closed; err = false; kind = type_txt }) t)
        × (t.printed ≡ entry p message_heading 0 msg ∷ [])
        × (t.files ≡ files)
        × (t.err_state ≡ false)
        × (outgoing t.session.world ≡ outgoing w ++ (ack_bytes ++ ack_bytes))
  text_receiver_session allowed p cf j msg memory buffer rng files w ok message same_id room came =
      let (bs, w0, read, back, in0, out0) =
        ctrl_frame_read K C incoming outgoing net cf (message_wire j.transfer.transmission_id msg) w
          ok.fits came in
      let m = plain_manager cf buffer in
      let s0 : Server C.Rng K.World = record {
        session = record { manager = m; world = w0 };
        files = files;
        printed = [];
        err_state = false;
      } in
      let (w1, ack1, out1, in1) = send_ack_duplex K C incoming outgoing net s0.session in
      let a1 : Session C.Rng K.World = record { manager = m; world = w1 } in
      let (s2, received, printed, same, err, left, quiet) =
        recv_message_arrives K C incoming net.delivers (λ v. outgoing v ≡ outgoing w1)
          (recv_keeps K incoming outgoing net (outgoing w1)) p j.transfer msg
          (record s0 { session = a1 }) message
          (record { plain = refl; block = refl; transmission_id = sym same_id; order = refl }) room
          (in1 ∙ in0) refl in
      let (w3, ack3, out3, in3) = send_ack_duplex K C incoming outgoing net s2.session in
      let a3 : Session C.Rng K.World = record s2.session { world = w3 } in
      let run = text_steps K C p cf s0 s2 a1 a3 ok.not_encrypted ok.text ack1 received ack3 in
      (
        record s2 { session = a3 },
        connection_made K C allowed p cf 1 memory buffer bs rng files w w0 m _ _ read back ok.valid
            ok.plain (new_manager_plain C cf memory buffer rng) refl run,
        printed,
        same,
        err,
        out3
            ∙ ap (λ b. b ++ ack_bytes) (quiet ∙ out1 ∙ ap (λ b. b ++ ack_bytes) out0)
            ∙ append_assoc (outgoing w) ack_bytes ack_bytes,
      )

module _ (Kc Ks : Kernel) (C D : CryptoLib) (arriving outgoing : Kc.World → Bytes)
    (incoming sent : Ks.World → Bytes) (client : Duplex Kc arriving outgoing)
    (server : Duplex Ks incoming sent) where
  -- A client whose job sends a message from the command line without encryption (1 to 1450 bytes
  -- without a zero, a transmission id that is a byte above 0) and a server that has the plain version
  -- on its whitelist and more than 1460 bytes of buffer, on duplex sockets that take writes and
  -- deliver reads whole, the server reading what the client has written. If two ACKs arrive at the
  -- client, then its handler and the server's connection run to their ends without an error, the
  -- server has written the two ACKs, its handler has written one entry to `stdoutStream`, with the
  -- time, the heading and the message, and no file changes.
  pub message_session_completes :
      (allowed : List ℕ) (p : Params) (j : Client.Job) (msg : Bytes) (cf : CtrlFrame)
      (client_memory server_memory : Keys) (client_buffer server_buffer : Bytes)
      (client_rng : C.Rng) (server_rng : D.Rng) (files : Files) (w : Kc.World)
      (connect : Kc.World → Ks.World)
      → IsTextJob j msg
      → listed 1 allowed ≡ true
      → 1460 < length server_buffer
      → arriving w ≡ ack_bytes ++ ack_bytes
      → ((u : Kc.World) → incoming (connect u) ≡ drop (length (outgoing w)) (outgoing u))
      → (s : Session C.Rng Kc.World) × (t : Server D.Rng Ks.World) × (Client.protocol_handler Kc C j
            cf client_memory client_buffer client_rng w
          ≡ some (record { state = Client.stop_client; error = false; running = false }, s))
        × (Daemon.connection Ks D allowed p server_memory server_buffer server_rng files
              (connect s.world)
            ≡ Daemon.served (record { state = Daemon.closed; err = false; kind = type_txt }) t)
        × (sent t.session.world ≡ sent (connect s.world) ++ (ack_bytes ++ ack_bytes))
        × (t.printed ≡ entry p message_heading 0 msg ∷ [])
        × (t.files ≡ files)
        × (t.err_state ≡ false)
  message_session_completes allowed p j msg cf client_memory server_memory client_buffer
        server_buffer client_rng server_rng files w connect job on_list room came link =
      let (s, ran, out) =
        text_sender_session Kc C arriving outgoing client j msg cf client_memory client_buffer
          client_rng w job came in
      let frame = ctrl_frame_of false j.ctrl in
      let arrived =
        link s.world
        ∙ ap (drop (length (outgoing w))) out
        ∙ drop-append_left (length (outgoing w)) (outgoing w)
            (encode_ctrl frame ++ message_wire j.transfer.transmission_id msg) refl in
      let (t, served, printed, same, err, answered) =
        text_receiver_session Ks D incoming sent server allowed p frame j msg server_memory
          server_buffer server_rng files (connect s.world)
          (client-OpensText allowed j msg job on_list) job.message
          (job.same_id ∙ sym (plain_ctrl_frame-transmission_id j.ctrl)) room arrived in
      (s, t, ran, served, answered, printed, same, err)
