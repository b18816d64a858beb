-- ===== src/Transfer/Session/Refines.antt =====
-- The two ends of an unencrypted file transfer against each other, as one step on the files.
use xchange.Prelude.{
  ℕ, ◌<◌, ◌≡◌, refl, sym, ap, subst, ◌∙◌, arith, true, false, some, Bytes, [], ◌++◌, append_assoc,
  length,
}
use xchange.Wire.{CtrlFrame}
use xchange.Wire.Layout.{encode_ctrl}
use xchange.Sio.{Kernel}
use xchange.Sio.Duplex.{Duplex}
use xchange.Sio.Dry.{RunsDry}
use xchange.Crypto.{CryptoLib, Keys}
use xchange.SocketIo.{Session, CtrlInfo}
use xchange.SocketIo.Send.{ctrl_frame_of}
use xchange.Client.Handler as Client
use xchange.Server.Admission.{listed, pro_version_lookup}
use xchange.Server.Admission.Whitelist.{client_frame_admission}
use xchange.Server.Files.{Files, exists}
use xchange.Server.Protocol.{Server, Params, target_path, connection_type}
use xchange.Server.Handler as Daemon
use xchange.Wire.Layout.RoundTrip.{CtrlFits}
use xchange.Prelude.{List, append-nil, drop, drop-append_left}
use xchange.Transfer.Connection.{IsPlainFile, connection_receives_file}
use xchange.Transfer.Session.Spec.{atomic_transfer, atomic_transfer-Written}
use xchange.Transfer.Blocks.{file_wire}
use xchange.Transfer.Session.{ack_bytes, is_lost, answers}
use xchange.Transfer.Session.Plain.{IsPlainJob, plain_sender_session}
use xchange.Server.Files.Written.{Written}
use xchange.Transfer.Session.Spec.{kept-is_lost}

pub plain_ctrl_frame-CtrlFits :
    (info : CtrlInfo)
    → info.pv ≡ 1
    → info.sec_ver ≡ 1
    → info.transmission_id < 256
    → CtrlFits (ctrl_frame_of false info)
unfolding ctrl_frame_of
plain_ctrl_frame-CtrlFits info pv sv id = record {
  pv = ground arith;
  sv = ground arith;
  flags = ground arith;
  transmission_id = ground arith;
}

pub plain_ctrl_frame-transmission_id :
    (info : CtrlInfo) → (ctrl_frame_of false info).transmission_id ≡ info.transmission_id
unfolding ctrl_frame_of
plain_ctrl_frame-transmission_id info = ground arith

-- The control frame of a client that sends a file without encryption.
client-IsPlainFile :
    (allowed : List ℕ) (j : Client.Job) (bytes : Bytes)
    → IsPlainJob j bytes
    → listed 1 allowed ≡ true
    → IsPlainFile allowed (ctrl_frame_of false j.ctrl)
unfolding Daemon.is_encrypted connection_type pro_version_lookup
client-IsPlainFile allowed j bytes job on_list =
    let table : pro_version_lookup j.ctrl.sec_ver ≡ some j.ctrl.pv =
      ground (arith, job.sec_ver, job.pv) in
    let (valid, version, sealed, binary) =
      client_frame_admission allowed j.ctrl false (omega (arith, job.sec_ver))
        (omega (arith, job.sec_ver)) table job.some_id in
    record {
      fits = plain_ctrl_frame-CtrlFits j.ctrl job.pv job.sec_ver job.transmission_id;
      valid = valid ∙ ap (λ v. listed v allowed) job.sec_ver ∙ on_list;
      plain = version ∙ ap some job.sec_ver;
      not_encrypted = sealed;
      binary = ground (arith, binary, job.is_file);
    }

-- A server that admits the plain version and has a place for the file.
pub record TakesPlain (allowed : List ℕ) (p : Params) (path : Bytes) (files : Files)
    (j : Client.Job) : Type 0 where
  pub on_list : listed 1 allowed ≡ true
  pub target : target_path p.out_dir j.transfer.filename ≡ some path
  pub free : exists path files ≡ false
  pub can_open : files.can_open path ≡ true

module _ (Kc Ks : Kernel) (C D : CryptoLib) (arriving outgoing : Kc.World → Bytes)
    (incoming sent : Ks.World → Bytes) (client : Duplex Kc arriving outgoing)
    (server : Duplex Ks incoming sent) (dry : RunsDry Kc arriving) where
  -- A client whose job sends a file without encryption (a transmission id that is a byte above 0, a
  -- proper name, less than 2 ^ 32 - 3 blocks of 1450 bytes, no speed limit) and a server that has the
  -- plain version on its whitelist and a path that is free and can be opened, on duplex sockets that
  -- take writes and deliver reads whole, the server reading what the client has written. If the
  -- answers below arrive at the client and nothing after them, then the client's handler and the
  -- server's connection run to their ends and the server has written these answers: an ACK, and a
  -- second one if the file is kept. The error that both ends report and the contents of the files
  -- are those of `atomic_transfer`.
  pub plain_session_refines :
      (allowed : List ℕ) (p : Params) (j : Client.Job) (bytes path : Bytes) (cf : CtrlFrame)
      (client_memory server_memory : Keys) (client_buffer server_buffer : Bytes)
      (client_rng : C.Rng) (server_rng : D.Rng) (files : Files) (w : Kc.World)
      (connect : Kc.World → Ks.World)
      → IsPlainJob j bytes
      → TakesPlain allowed p path files j
      → arriving w ≡ answers 1450 bytes
      → ((u : Kc.World) → incoming (connect u) ≡ drop (length (outgoing w)) (outgoing u))
      → (at_client : Client.Control) × (s : Session C.Rng Kc.World) × (at_server : Daemon.Control)
        × (t : Server D.Rng Ks.World) × (Client.protocol_handler Kc C j cf client_memory
              client_buffer client_rng w
            ≡ some (at_client, s))
        × (Daemon.connection Ks D allowed p server_memory server_buffer server_rng files
              (connect s.world)
            ≡ Daemon.served at_server t)
        × (sent t.session.world ≡ sent (connect s.world) ++ answers 1450 bytes)
        × ((at_client.running ≡ false) × (at_server.state ≡ Daemon.closed))
        × (at_server.err ≡ at_client.error)
        × ((at_client.error, t.files.content) ≡ atomic_transfer 1450 path bytes files.content)
  plain_session_refines allowed p j bytes path cf client_memory server_memory client_buffer
        server_buffer client_rng server_rng files w connect job takes came link =
      let (at_client, s, ran, failed, stopped, out) =
        plain_sender_session Kc C arriving outgoing client dry j bytes cf client_memory
          client_buffer client_rng w job came in
      let frame = ctrl_frame_of false j.ctrl in
      let wire = file_wire j.ctrl.transmission_id j.transfer.filename bytes in
      let same_id = plain_ctrl_frame-transmission_id j.ctrl in
      let arrived =
        link s.world
        ∙ ap (drop (length (outgoing w))) out
        ∙ drop-append_left (length (outgoing w)) (outgoing w) (encode_ctrl frame ++ wire) refl
        ∙ ap (λ b. encode_ctrl frame ++ b) (sym (append-nil wire))
        ∙ ap (λ id. encode_ctrl frame ++ (file_wire id j.transfer.filename bytes ++ []))
            (sym same_id) in
      let (at_server, t, served, closed, err, err_state, written, answered) =
        connection_receives_file Ks D incoming sent server allowed p frame j.transfer.filename path
          bytes [] server_memory server_buffer server_rng files (connect s.world)
          (client-IsPlainFile allowed j bytes job takes.on_list) job.name job.room takes.target
          takes.free takes.can_open arrived in
      let (lost, kept, acks) = kept-is_lost 1450 bytes in
      (
        at_client,
        s,
        at_server,
        t,
        ran,
        served,
        answered ∙ append_assoc _ ack_bytes _ ∙ ap (λ b. sent (connect s.world) ++ b) acks,
        (stopped, closed),
        err ∙ lost ∙ sym failed,
        ap (λ b. (b, t.files.content)) failed
            ∙ atomic_transfer-Written 1450 path bytes files t.files (is_lost 1450 bytes) refl
                takes.free (subst (λ o. Written path o files t.files) kept written),
      )
