-- ===== src/Examples/Programs.antt =====
-- A test of the two programs, for
--   xcc -s 10.0.0.7 -f /a/b --encryption aes -k key
--   xcd -p 9009 -o /tmp --whitelist aes,cha
use xchange.Prelude.{ℕ, ◌≡◌, refl, arith, true, false, none, some, [], ◌∷◌, ◌++◌, Bytes, codes}
use xchange.Crypto.{Keys}
use xchange.Crypto.Handler.{aes, select_class}
use xchange.SocketIo.{Session, Manager, new_manager}
use xchange.Client.Handler.Order.{Confirmed}
use xchange.Client.Program.Success.{main-Confirmed}
use xchange.Frame.{empty_ctrl}
use xchange.Client.Handler as Client
use xchange.Client.Program as Xcc
use xchange.Tool.Text.{filename_from_path, split_encryption_whitelist, selection_to_sec_version}
use xchange.Server.Admission.{listed}
use xchange.Server.Files.{Files, exists}
use xchange.Server.Files.Written.{Written}
use xchange.Server.Protocol.{Server, last_byte, target_path}
use xchange.Server.Handler as Daemon
use xchange.Server.Program as Xcd
use xchange.Transfer.Session.{ack_bytes, answers}
use xchange.Transfer.Programs.{FindsFile, ReadyToReceive, programs_transfer}
use xchange.Examples.Sim.{
  SimWorld, sim, with_inbox, sent_bytes, bytes_to_come, sim-Duplex, sim-RunsDry, toy,
  toy-CryptoLaws, repeat,
}
use xchange.Examples.Commands.{
  client_line, settings, client_starts, server_line, parameters, server_starts, ip,
}

-- Every file has the same 40 bytes.
abbrev content : Bytes
content = repeat 40 4

abbrev machine : Xcc.Surroundings
machine = record { contents = λ path. some content; stdin = []; absolute = λ path. b'/' ∷ path }

abbrev no_keys : Keys
no_keys = record { iv = []; key = []; session_key = [] }

abbrev waiting : SimWorld
waiting = with_inbox (ack_bytes ++ ack_bytes)

abbrev network : Xcc.Network sim toy
network = record {
  connect = λ ip port. some waiting;
  close_fails = false;
  memory = no_keys;
  buffer = [];
  rng = 5;
}

abbrev no_files : Files
no_files = record { content = λ p. none; can_open = λ p. true }

abbrev server_key : Bytes → Bytes
server_key path = content

machine-FindsFile : FindsFile machine settings (codes "b") content
unfolding Xcc.file_io Xcc.key_bytes filename_from_path
machine-FindsFile = record {
  mode = refl;
  opened = refl;
  proper = record { no_zero = omega arith; some_bytes = omega arith; small = omega arith };
  no_limit = refl;
  key_file = omega arith;
  room = omega arith;
}

server-ReadyToReceive :
    ReadyToReceive machine settings server_key parameters (codes "b") (codes "/tmp/b") no_files
unfolding Xcc.key_bytes listed target_path last_byte exists split_encryption_whitelist
    selection_to_sec_version
server-ReadyToReceive = record {
  on_list = refl;
  same_key = refl;
  target = refl;
  free = refl;
  can_open = refl;
}

aes_chosen : select_class 4 ≡ some aes
unfolding select_class
aes_chosen = refl

-- A clock that stands.
abbrev clock : ℕ → Bytes
clock n = codes "12:00"

programs_transfer_example :
    (at_client : Client.Control) × (u : Session ℕ SimWorld) × (at_server : Daemon.Control)
    × (t : Server ℕ SimWorld) × (Client.protocol_handler sim toy
          (Xcc.job_with machine settings (codes "b") (some content))
          empty_ctrl
          no_keys
          []
          5
          waiting
        ≡ some (at_client, u))
    × (Xcc.main sim toy machine network client_line ≡ Xcc.code 0)
    × (Daemon.connection sim toy
          (4 ∷ 2 ∷ [])
          (Xcd.handler_params server_key clock parameters)
          no_keys
          []
          6
          no_files
          (with_inbox u.world.outbox)
        ≡ Daemon.served at_server t)
    × (t.session.world.outbox ≡ [] ++ answers 1434 content)
    × (at_server.err ≡ false)
    × Written (codes "/tmp/b") (some content) no_files t.files
programs_transfer_example =
    programs_transfer sim sim toy bytes_to_come sent_bytes bytes_to_come sent_bytes sim-Duplex
      sim-Duplex sim-RunsDry toy-CryptoLaws aes machine network client_line server_line ip 9009
      settings parameters server_key clock (codes "b") (codes "/tmp/b") content no_keys [] 6
      no_files waiting (λ (w : SimWorld). with_inbox w.outbox) client_starts server_starts
      aes_chosen machine-FindsFile server-ReadyToReceive (omega arith) (omega arith) refl refl
      (λ v. refl)

-- The run above exits with 0.
exits_zero : Xcc.main sim toy machine network client_line ≡ Xcc.code 0
exits_zero =
    (programs_transfer sim sim toy bytes_to_come sent_bytes bytes_to_come sent_bytes sim-Duplex
      sim-Duplex sim-RunsDry toy-CryptoLaws aes machine network client_line server_line ip 9009
      settings parameters server_key clock (codes "b") (codes "/tmp/b") content no_keys [] 6
      no_files waiting (λ (w : SimWorld). with_inbox w.outbox) client_starts server_starts
      aes_chosen machine-FindsFile server-ReadyToReceive (omega arith) (omega arith) refl refl
      (λ v. refl)).5

main-Confirmed_example :
    (w : SimWorld) × (j : Client.Job) × (m : Manager ℕ) × (t : Session ℕ SimWorld) × (some waiting
      ≡ some w)
    × (Xcc.job_of machine settings ≡ some j)
    × (new_manager toy 4 empty_ctrl no_keys [] 5 ≡ some m)
    × Confirmed sim toy j (record { manager = m; world = w }) t
main-Confirmed_example =
    main-Confirmed sim toy machine network client_line ip 9009 settings client_starts exits_zero
