-- ===== src/Transfer/Programs.antt =====
-- The two programs, src/xcc.cpp and src/xcd.cpp, from their command lines to the file and the exit
-- code, for an encrypted file.
use xchange.Prelude.{
  ℕ, ◌+◌, ◌/◌, ◌^◌, ◌≤◌, ◌<◌, ◌≡◌, refl, ap, ◌∙◌, arith, Bool, true, false, none, some, List, Bytes,
  ◌++◌, length, drop, ◌==◌, if◌then◌else◌,
}
use xchange.Sio.{Kernel}
use xchange.Sio.Duplex.{Duplex}
use xchange.Sio.Dry.{RunsDry}
use xchange.Crypto.{CryptoLib, Keys}
use xchange.Crypto.Handler.{Cipher, select_class}
use xchange.Crypto.Handler.Session.{CryptoLaws}
use xchange.SocketIo.{Session}
use xchange.Frame.{empty_ctrl}
use xchange.Client.Protocol.{mode_file}
use xchange.Client.Handler as Client
use xchange.Client.Program as Xcc
use xchange.Client.Program.Starts.{start-Runnable}
use xchange.Client.Program.Total.{job_of_named}
use xchange.Server.Admission.{listed}
use xchange.Server.Files.{Files, exists}
use xchange.Server.Files.Written.{Written}
use xchange.Server.Protocol.{Server, target_path}
use xchange.Server.Handler as Daemon
use xchange.Server.Command.{Parameter}
use xchange.Server.Program as Xcd
use xchange.Tool.Text.{split_encryption_whitelist}
use xchange.Server.Program.Agreement.{start-allowed_by, listed_default}
use xchange.Transfer.RecvFile.{IsFilename}
use xchange.Transfer.Session.{is_lost, answers, IsSealedFile}
use xchange.Transfer.Session.Whole.{IsReadyFor, sealed_session_completes}

-- What the client finds for settings that its command line gave: a file that can be read.
pub record FindsFile (e : Xcc.Surroundings) (s : Xcc.Settings) (name bytes : Bytes) : Type 0 where
  pub mode : s.mode ≡ mode_file
  pub opened : Xcc.file_io e s ≡ some (name, some bytes)
  pub proper : IsFilename name
  pub no_limit : s.bandwidth ≡ 0
  pub key_file : 32 ≤ length (Xcc.key_bytes e s.key_file)
  pub room : length bytes / 1434 + 3 < 2 ^ 32

-- A server whose command line gave `p`, with the client's key and a place for the file.
pub record ReadyToReceive (e : Xcc.Surroundings) (s : Xcc.Settings) (key_bytes : Bytes → Bytes)
    (p : Parameter) (name path : Bytes) (files : Files) : Type 0 where
  pub on_list :
      (if length p.encryption_white_list == 0
        then true
        else listed s.sec_ver (split_encryption_whitelist p.encryption_white_list))
      ≡ true
  pub same_key : key_bytes p.key_file ≡ Xcc.key_bytes e s.key_file
  pub target : target_path p.out_dir name ≡ some path
  pub free : exists path files ≡ false
  pub can_open : files.can_open path ≡ true

module _ (e : Xcc.Surroundings) (s : Xcc.Settings) (name bytes : Bytes) where
  abbrev the_job : Client.Job
  the_job = Xcc.job_with e s name (some bytes)

  -- The job of a started client.
  the_job-IsSealedFile :
      (c : Cipher) (port : ℕ) (argv : List Bytes) (ip : ℕ)
      → Xcc.start argv ≡ Xcc.connects ip port s
      → FindsFile e s name bytes
      → select_class s.sec_ver ≡ some c
      → IsSealedFile c the_job bytes
  unfolding Xcc.job_with
  the_job-IsSealedFile c port argv ip begun finds cipher =
      let r = start-Runnable argv ip port s begun in
      record {
        cipher = cipher;
        version = r.known.2;
        mode = finds.mode;
        is_file = ap Xcc.is_file_mode finds.mode;
        same_id = refl;
        some_id = omega (arith, r.transmission_id);
        transmission_id = omega (arith, r.transmission_id);
        key_file = finds.key_file;
        source = refl;
        no_limit = finds.no_limit;
        name = finds.proper;
        room = finds.room;
      }

  the_job-IsReadyFor :
      (key_bytes : Bytes → Bytes) (clock : ℕ → Bytes) (p : Parameter) (path : Bytes) (files : Files)
      (client server : List Bytes) (ip port : ℕ)
      → Xcc.start client ≡ Xcc.connects ip port s
      → Xcd.start server ≡ Xcd.listens p
      → ReadyToReceive e s key_bytes p name path files
      → IsReadyFor p.allowed_encryption_vec
          (Xcd.handler_params key_bytes clock p)
          path
          files
          the_job
  unfolding Xcc.job_with Xcd.handler_params
  the_job-IsReadyFor key_bytes clock p path files client server ip port begun listens ready =
      let known = (start-Runnable client ip port s begun).known in
      let all = listed_default s.sec_ver known.0 known.1 in
      let allowed = (start-allowed_by server p listens).0 in
      record {
        on_list = ground (arith, ready.on_list, all, allowed);
        key_file = ready.same_key;
        target = ready.target;
        free = ready.free;
        can_open = ready.can_open;
      }

-- What the client's `main` makes of a transfer that ends with `err`.
abbrev pub exit_code : Bool → Bool → ℕ
exit_code err close_fails = if err then 1 else (if close_fails then 1 else 0)

module _ (K : Kernel) (C : CryptoLib) where
  main_ends :
      (e : Xcc.Surroundings) (net : Xcc.Network K C) (argv : List Bytes) (ip port : ℕ)
      (s : Xcc.Settings) (j : Client.Job) (w : K.World) (c : Client.Control)
      (t : Session C.Rng K.World)
      → Xcc.start argv ≡ Xcc.connects ip port s
      → net.connect ip port ≡ some w
      → Xcc.job_of e s ≡ some j
      → Client.protocol_handler K C j empty_ctrl net.memory net.buffer net.rng w ≡ some (c, t)
      → Xcc.main K C e net argv ≡ Xcc.code (exit_code c.error net.close_fails)
  unfolding Xcc.main Xcc.run_transfer
  main_ends e net argv ip port s j w c t begun connected made ran =
      ground (arith, begun, connected, made, ran)

module _ (Kc Ks : Kernel) (C : CryptoLib) (arriving outgoing : Kc.World → Bytes)
    (incoming sent : Ks.World → Bytes) (client : Duplex Kc arriving outgoing)
    (server : Duplex Ks incoming sent) (dry : RunsDry Kc arriving) (laws : CryptoLaws C)
    (c : Cipher) where
  -- For each cipher: a client and a server that have started from their command lines, the client's
  -- with the cipher's version, the file mode and no speed limit; the client can read the file (a
  -- proper name, less than 2 ^ 32 - 3 blocks of 1434 bytes) and a key file of at least 32 bytes, the
  -- server has the version on its whitelist or no whitelist, the same key, and a path that is free
  -- and can be opened; both have key arrays of at most 32 bytes. If the client connects, on duplex
  -- sockets that take writes and deliver reads whole, the server reads what the client's handler has
  -- written, and the answers below and nothing after them arrive at the client, then: the server
  -- serves the connection and has written these answers. A file whose size is no multiple of 1434 is
  -- then at the path, the server has no error, and the client exits with 0, or with 1 if `close`
  -- fails; else the path is free, the server has an error, and the client exits with 1. No other file
  -- changes.
  pub programs_transfer :
      (e : Xcc.Surroundings) (net : Xcc.Network Kc C) (xcc xcd : List Bytes) (ip port : ℕ)
      (s : Xcc.Settings) (p : Parameter) (key_bytes : Bytes → Bytes) (clock : ℕ → Bytes)
      (name path bytes : Bytes) (memory : Keys) (buffer : Bytes) (rng : C.Rng) (files : Files)
      (w : Kc.World) (arrive : Kc.World → Ks.World)
      → Xcc.start xcc ≡ Xcc.connects ip port s
      → Xcd.start xcd ≡ Xcd.listens p
      → select_class s.sec_ver ≡ some c
      → FindsFile e s name bytes
      → ReadyToReceive e s key_bytes p name path files
      → length net.memory.key ≤ 32
      → length memory.key ≤ 32
      → net.connect ip port ≡ some w
      → arriving w ≡ answers 1434 bytes
      → ((u : Kc.World) → incoming (arrive u) ≡ drop (length (outgoing w)) (outgoing u))
      → (at_client : Client.Control) × (u : Session C.Rng Kc.World) × (at_server : Daemon.Control)
        × (t : Server C.Rng Ks.World) × (Client.protocol_handler Kc C
              (Xcc.job_with e s name (some bytes))
              empty_ctrl
              net.memory
              net.buffer
              net.rng
              w
            ≡ some (at_client, u))
        × (Xcc.main Kc C e net xcc ≡ Xcc.code (exit_code (is_lost 1434 bytes) net.close_fails))
        × (Daemon.connection Ks C p.allowed_encryption_vec
              (Xcd.handler_params key_bytes clock p)
              memory
              buffer
              rng
              files
              (arrive u.world)
            ≡ Daemon.served at_server t)
        × (sent t.session.world ≡ sent (arrive u.world) ++ answers 1434 bytes)
        × (at_server.err ≡ is_lost 1434 bytes)
        × Written path (if is_lost 1434 bytes then none else some bytes) files t.files
  programs_transfer e net xcc xcd ip port s p key_bytes clock name path bytes memory buffer rng
        files w arrive begun listens cipher finds ready small_c small_s connected came link =
      let j = Xcc.job_with e s name (some bytes) in
      let made = job_of_named e s name (some bytes) (ap Xcc.is_file_mode finds.mode) finds.opened in
      let (at_client, u, at_server, t, ran, served, answered, at_end, closed, written) =
        sealed_session_completes Kc Ks C arriving outgoing incoming sent client server dry laws c
          p.allowed_encryption_vec (Xcd.handler_params key_bytes clock p) j bytes path empty_ctrl
          net.memory memory net.buffer buffer net.rng rng files w arrive
          (the_job-IsSealedFile e s name bytes c port xcc ip begun finds cipher)
          (the_job-IsReadyFor e s name bytes key_bytes clock p path files xcc xcd ip port begun
            listens ready)
          small_c small_s came link in
      (
        at_client,
        u,
        at_server,
        t,
        ran,
        main_ends Kc C e net xcc ip port s j w at_client u begun connected made ran
            ∙ ap (λ b. Xcc.code (exit_code b net.close_fails)) at_end.0,
        served,
        answered,
        closed.0,
        written,
      )
