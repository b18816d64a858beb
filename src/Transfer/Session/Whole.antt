-- ===== src/Transfer/Session/Whole.antt =====
-- The two ends of an encrypted file transfer against each other.
use xchange.Prelude.{
  ℕ, ◌≤◌, ◌<◌, ◌≡◌, refl, ap, subst, ◌∙◌, arith, true, false, some, none, List, Bytes, ◌++◌,
  append_assoc, length, drop, drop-append_left, if◌then◌else◌,
}
use xchange.Wire.{CtrlFrame}
use xchange.Sio.{Kernel}
use xchange.Sio.Duplex.{Duplex}
use xchange.Sio.Dry.{RunsDry}
use xchange.Crypto.{CryptoLib, Keys}
use xchange.Crypto.Handler.{Cipher, select_class, new_encryption}
use xchange.Crypto.Handler.Fresh.{new_encryption-iv}
use xchange.Crypto.Handler.Session.{CryptoLaws}
use xchange.SocketIo.{Session, CtrlInfo}
use xchange.SocketIo.Send.{ctrl_frame_of}
use xchange.Wire.Layout.RoundTrip.{CtrlFits}
use xchange.Client.Handler as Client
use xchange.Server.Admission.{listed, pro_version_lookup}
use xchange.Server.Admission.Whitelist.{client_frame_admission}
use xchange.Server.Files.{Files, exists}
use xchange.Server.Files.Written.{Written}
use xchange.Server.Protocol.{Server, Params, target_path, connection_type}
use xchange.Server.Handler as Daemon
use xchange.Transfer.Session.{ack_bytes, is_lost, answers, IsSealedFile}
use xchange.Transfer.Session.Spec.{kept-is_lost}
use xchange.Transfer.Session.Start.{receiver_keys, keys-InStep}
use xchange.Transfer.Session.Sender.{opening, sender_session}
use xchange.Transfer.Session.Receiver.{OpensSealedFile, receiver_session}

sealed_version :
    (c : Cipher) (sv pv : ℕ)
    → select_class sv ≡ some c
    → pro_version_lookup sv ≡ some pv
    → (0 < sv) × (sv < 5) × (pv < 5)
unfolding select_class pro_version_lookup
sealed_version c sv pv e v = ground arith

ctrl_frame_of-CtrlFits :
    (info : CtrlInfo)
    → info.pv < 5
    → info.sec_ver < 5
    → info.transmission_id < 256
    → CtrlFits (ctrl_frame_of true info)
unfolding ctrl_frame_of
ctrl_frame_of-CtrlFits info pv sv id = record {
  pv = ground arith;
  sv = ground arith;
  flags = ground arith;
  transmission_id = ground arith;
}

-- The control frame of a client that sends an encrypted file.
client-OpensSealedFile :
    (allowed : List ℕ) (c : Cipher) (j : Client.Job) (bytes : Bytes)
    → IsSealedFile c j bytes
    → listed j.ctrl.sec_ver allowed ≡ true
    → OpensSealedFile allowed c (ctrl_frame_of true j.ctrl)
unfolding Daemon.is_encrypted connection_type
client-OpensSealedFile allowed c j bytes job on_list =
    let (lo, hi, small) = sealed_version c j.ctrl.sec_ver j.ctrl.pv job.cipher job.version in
    let (valid, version, sealed, binary) =
      client_frame_admission allowed j.ctrl true lo hi job.version job.some_id in
    record {
      fits = ctrl_frame_of-CtrlFits j.ctrl small hi job.transmission_id;
      valid = valid ∙ on_list;
      sec_ver = j.ctrl.sec_ver;
      version = version;
      cipher = job.cipher;
      encrypted = sealed;
      binary = ground (arith, binary, job.is_file);
    }

ctrl_frame_of-transmission_id :
    (info : CtrlInfo) → (ctrl_frame_of true info).transmission_id ≡ info.transmission_id
unfolding ctrl_frame_of
ctrl_frame_of-transmission_id info = ground arith

-- A server that admits the client's version, has its key file, and a place for the file.
pub record IsReadyFor (allowed : List ℕ) (p : Params) (path : Bytes) (files : Files)
    (j : Client.Job) : Type 0 where
  pub on_list : listed j.ctrl.sec_ver allowed ≡ true
  pub key_file : p.key_file ≡ j.key_file
  pub target : target_path p.out_dir j.transfer.filename ≡ some path
  pub free : exists path files ≡ false
  pub can_open : files.can_open path ≡ true

module _ (Kc Ks : Kernel) (C : CryptoLib) (arriving outgoing : Kc.World → Bytes)
    (incoming sent : Ks.World → Bytes) (client : Duplex Kc arriving outgoing)
    (server : Duplex Ks incoming sent) (dry : RunsDry Kc arriving) (laws : CryptoLaws C)
    (c : Cipher) where
  -- For each cipher: a client whose job sends a file with it (the version with its protocol version,
  -- the transmission id of the transfer, a byte above 0, a key file of at least 32 bytes, a proper
  -- name, less than 2 ^ 32 - 3 blocks of 1434 bytes, no speed limit) and a server that has the version
  -- on its whitelist, the same key file and a path that is free and can be opened, both with key
  -- arrays of at most 32 bytes, on duplex sockets that take writes and deliver reads whole, the server
  -- reading what the client has written. If the answers below arrive at the client and nothing
  -- after them, then the client's handler and the server's connection run to their ends, and the
  -- server has written these answers: an ACK, and a second one if the file is kept. A file whose size
  -- is no multiple of 1434 is at the path, and neither end has an error; else both have, and the
  -- path is free. No other file changes.
  pub sealed_session_completes :
      (allowed : List ℕ) (p : Params) (j : Client.Job) (bytes path : Bytes) (cf : CtrlFrame)
      (client_memory server_memory : Keys) (client_buffer server_buffer : Bytes)
      (client_rng server_rng : C.Rng) (files : Files) (w : Kc.World) (connect : Kc.World → Ks.World)
      → IsSealedFile c j bytes
      → IsReadyFor allowed p path files j
      → length client_memory.key ≤ 32
      → length server_memory.key ≤ 32
      → arriving w ≡ answers 1434 bytes
      → ((u : Kc.World) → incoming (connect u) ≡ drop (length (outgoing w)) (outgoing u))
      → (at_client : Client.Control) × (s : Session C.Rng Kc.World) × (at_server : Daemon.Control)
        × (t : Server C.Rng Ks.World) × (Client.protocol_handler Kc C j cf client_memory
              client_buffer client_rng w
            ≡ some (at_client, s))
        × (Daemon.connection Ks C allowed p server_memory server_buffer server_rng files
              (connect s.world)
            ≡ Daemon.served at_server t)
        × (sent t.session.world ≡ sent (connect s.world) ++ answers 1434 bytes)
        × ((at_client.error ≡ is_lost 1434 bytes) × (at_client.running ≡ false))
        × ((at_server.err ≡ is_lost 1434 bytes) × (at_server.state ≡ Daemon.closed))
        × Written path (if is_lost 1434 bytes then none else some bytes) files t.files
  sealed_session_completes allowed p j bytes path cf client_memory server_memory client_buffer
        server_buffer client_rng server_rng files w connect job ready small_c small_s came link =
      let iv = (new_encryption C c client_memory client_rng).keys.iv in
      let (key_c, key_s, step) =
        keys-InStep C c j.key_file client_memory server_memory client_rng laws.rng job.key_file
          small_c small_s in
      let (at_client, s, wire, ran, failed, stopped, out, opens) =
        sender_session Kc Ks C arriving outgoing incoming sent client server laws c j bytes cf
          client_memory (receiver_keys C c j.key_file iv server_memory) client_buffer client_rng w
          job dry key_c step came in
      let frame = ctrl_frame_of true j.ctrl in
      let arrived =
        link s.world
        ∙ ap (drop (length (outgoing w))) out
        ∙ drop-append_left (length (outgoing w)) (outgoing w) (opening j.ctrl iv ++ wire) refl
        ∙ append_assoc _ iv wire in
      let same_id = ctrl_frame_of-transmission_id j.ctrl in
      let opening_ok = client-OpensSealedFile allowed c j bytes job ready.on_list in
      let (at_server, t, served, closed, err, err_state, written, answered) =
        receiver_session Kc Ks C arriving outgoing incoming sent client server laws c allowed p
          frame j.transfer.filename path bytes iv wire server_memory server_buffer server_rng files
          (connect s.world) opening_ok job.name job.room ready.target ready.free ready.can_open
          (new_encryption-iv C c client_memory client_rng laws.rng) (rw (ready.key_file) key_s)
          (rw (ready.key_file, same_id) opens) arrived in
      let (lost, kept, acks) = kept-is_lost 1434 bytes in
      (
        at_client,
        s,
        at_server,
        t,
        ran,
        served,
        answered ∙ append_assoc _ ack_bytes _ ∙ ap (λ b. sent (connect s.world) ++ b) acks,
        (failed, stopped),
        (err ∙ lost, closed),
        subst (λ o. Written path o files t.files) kept written,
      )
