-- ===== src/Examples/WholeSession.antt =====
-- Tests of whole connections.
use xchange.Prelude.{ℕ, ◌≡◌, refl, arith, true, false, none, some, [], ◌∷◌, ◌++◌, Bytes}
use xchange.Wire.{CtrlFrame, type_txt}
use xchange.Crypto.{Keys}
use xchange.Crypto.Handler.{xchacha, select_class}
use xchange.SocketIo.{Session}
use xchange.Client.Protocol.{mode_file, mode_text}
use xchange.Client.Handler as Client
use xchange.Server.Admission.{listed, pro_version_lookup}
use xchange.Server.Files.{Files, exists, update}
use xchange.Server.Files.Written.{Written}
use xchange.Server.Protocol.{Server, Params, message_heading, entry, last_byte, target_path}
use xchange.Server.Handler as Daemon
use xchange.Transfer.Session.{answers, ack_bytes, IsSealedFile}
use xchange.Transfer.Session.Spec.{atomic_transfer}
use xchange.Transfer.Session.Plain.{IsPlainJob}
use xchange.Transfer.Session.Refines.{TakesPlain, plain_session_refines}
use xchange.Transfer.Session.Text.{IsTextJob, message_session_completes}
use xchange.Transfer.Session.Whole.{IsReadyFor, sealed_session_completes}
use xchange.Examples.Sim.{
  SimWorld, sim, with_inbox, sent_bytes, bytes_to_come, sim-Duplex, sim-RunsDry, toy,
  toy-CryptoLaws, repeat, length-repeat,
}

abbrev three : Bytes
three = 1 ∷ 2 ∷ 3 ∷ []

abbrev a_txt : Bytes
a_txt = b'a' ∷ b'.' ∷ b't' ∷ b'x' ∷ b't' ∷ []

abbrev path : Bytes
path = b'/' ∷ b't' ∷ b'/' ∷ a_txt

abbrev key_file : Bytes
key_file = repeat 40 4

abbrev job : Client.Job
job = record {
  ctrl = record { pv = 3; sec_ver = 3; transmission_id = 1; is_file = true };
  transfer = record {
    msg = none;
    filename = a_txt;
    source = some three;
    read_stdin = false;
    bandwidth = 0;
    transmission_id = 1;
  };
  mode = mode_file;
  key_file = key_file;
}

abbrev no_frame : CtrlFrame
no_frame = record { pv = 0; sv = 0; flags = 0; transmission_id = 0 }

abbrev no_keys : Keys
no_keys = record { iv = []; key = []; session_key = [] }

abbrev params : Params
params = record { out_dir = b'/' ∷ b't' ∷ []; key_file = key_file; clock = λ n. b'9' ∷ [] }

abbrev no_files : Files
no_files = record { content = λ p. none; can_open = λ p. true }

-- Two ACKs are on their way to the client.
abbrev waiting : SimWorld
waiting = with_inbox (ack_bytes ++ ack_bytes)

job-IsSealedFile : IsSealedFile xchacha job three
unfolding select_class pro_version_lookup
job-IsSealedFile = record {
  cipher = refl;
  version = refl;
  mode = refl;
  is_file = refl;
  same_id = refl;
  some_id = omega arith;
  transmission_id = omega arith;
  key_file = omega arith;
  source = refl;
  no_limit = refl;
  name = record { no_zero = omega arith; some_bytes = omega arith; small = omega arith };
  room = omega arith;
}

server-IsReadyFor : IsReadyFor (2 ∷ 3 ∷ []) params path no_files job
unfolding listed target_path last_byte exists
server-IsReadyFor = record {
  on_list = refl;
  key_file = refl;
  target = refl;
  free = refl;
  can_open = refl;
}

sealed_session_completes_example :
    (at_client : Client.Control) × (s : Session ℕ SimWorld) × (at_server : Daemon.Control)
    × (t : Server ℕ SimWorld) × (Client.protocol_handler sim toy job no_frame no_keys [] 5 waiting
        ≡ some (at_client, s))
    × (Daemon.connection sim toy
          (2 ∷ 3 ∷ [])
          params
          no_keys
          []
          6
          no_files
          (with_inbox s.world.outbox)
        ≡ Daemon.served at_server t)
    × (t.session.world.outbox ≡ [] ++ answers 1434 three)
    × ((at_client.error ≡ false) × (at_client.running ≡ false))
    × ((at_server.err ≡ false) × (at_server.state ≡ Daemon.closed))
    × Written path (some three) no_files t.files
sealed_session_completes_example =
    sealed_session_completes sim sim toy bytes_to_come sent_bytes bytes_to_come sent_bytes
      sim-Duplex sim-Duplex sim-RunsDry toy-CryptoLaws xchacha (2 ∷ 3 ∷ []) params job three path
      no_frame no_keys no_keys [] [] 5 6 no_files waiting (λ (w : SimWorld). with_inbox w.outbox)
      job-IsSealedFile server-IsReadyFor (omega arith) (omega arith) refl (λ u. refl)

abbrev plain_job : Client.Job
plain_job = record job { ctrl = record job.ctrl { pv = 1; sec_ver = 1 } }

plain_job-IsPlainJob : IsPlainJob plain_job three
plain_job-IsPlainJob = record {
  sec_ver = refl;
  pv = refl;
  mode = refl;
  is_file = refl;
  same_id = refl;
  some_id = omega arith;
  transmission_id = omega arith;
  source = refl;
  no_limit = refl;
  name = record { no_zero = omega arith; some_bytes = omega arith; small = omega arith };
  room = omega arith;
}

server-TakesPlain : TakesPlain (1 ∷ []) params path no_files plain_job
unfolding listed target_path last_byte exists
server-TakesPlain = record { on_list = refl; target = refl; free = refl; can_open = refl }

-- The step on the files: a file of three bytes, and an empty one.
three_bytes_kept :
    atomic_transfer 1450 path three no_files.content
    ≡ (false, update no_files.content path (some three))
unfolding atomic_transfer
three_bytes_kept = refl

nothing_lost : atomic_transfer 1450 path [] no_files.content ≡ (true, no_files.content)
unfolding atomic_transfer
nothing_lost = refl

plain_session_refines_example :
    (at_client : Client.Control) × (s : Session ℕ SimWorld) × (at_server : Daemon.Control)
    × (t : Server ℕ SimWorld) × (Client.protocol_handler sim toy plain_job no_frame no_keys [] 5
          waiting
        ≡ some (at_client, s))
    × (Daemon.connection sim toy (1 ∷ []) params no_keys [] 6 no_files (with_inbox s.world.outbox)
        ≡ Daemon.served at_server t)
    × (t.session.world.outbox ≡ [] ++ answers 1450 three)
    × ((at_client.running ≡ false) × (at_server.state ≡ Daemon.closed))
    × (at_server.err ≡ at_client.error)
    × ((at_client.error, t.files.content) ≡ atomic_transfer 1450 path three no_files.content)
plain_session_refines_example =
    plain_session_refines sim sim toy toy bytes_to_come sent_bytes bytes_to_come sent_bytes
      sim-Duplex sim-Duplex sim-RunsDry (1 ∷ []) params plain_job three path no_frame no_keys
      no_keys [] [] 5 6 no_files waiting (λ (w : SimWorld). with_inbox w.outbox)
      plain_job-IsPlainJob server-TakesPlain refl (λ u. refl)

abbrev text_job : Client.Job
text_job = record {
  ctrl = record { pv = 1; sec_ver = 1; transmission_id = 1; is_file = false };
  transfer = record {
    msg = some three;
    filename = [];
    source = none;
    read_stdin = false;
    bandwidth = 0;
    transmission_id = 1;
  };
  mode = mode_text;
  key_file = [];
}

text_job-IsTextJob : IsTextJob text_job three
text_job-IsTextJob = record {
  sec_ver = refl;
  pv = refl;
  mode = refl;
  no_file = refl;
  same_id = refl;
  some_id = omega arith;
  message = record {
    argument = refl;
    not_stdin = refl;
    transmission_id = omega arith;
    no_zero = omega arith;
    some_bytes = omega arith;
    small = omega arith;
  };
}

plain_listed : listed 1 (1 ∷ []) ≡ true
unfolding listed
plain_listed = refl

message_session_completes_example :
    (s : Session ℕ SimWorld) × (t : Server ℕ SimWorld) × (Client.protocol_handler sim toy text_job
        no_frame no_keys [] 5 waiting
      ≡ some (record { state = Client.stop_client; error = false; running = false }, s))
    × (Daemon.connection sim toy
          (1 ∷ [])
          params
          no_keys
          (repeat 1461 0)
          6
          no_files
          (with_inbox s.world.outbox)
        ≡ Daemon.served (record { state = Daemon.closed; err = false; kind = type_txt }) t)
    × (t.session.world.outbox ≡ [] ++ (ack_bytes ++ ack_bytes))
    × (t.printed ≡ entry params message_heading 0 three ∷ [])
    × (t.files ≡ no_files)
    × (t.err_state ≡ false)
message_session_completes_example =
    message_session_completes sim sim toy toy bytes_to_come sent_bytes bytes_to_come sent_bytes
      sim-Duplex sim-Duplex (1 ∷ []) params text_job three no_frame no_keys no_keys []
      (repeat 1461 0) 5 6 no_files waiting (λ (w : SimWorld). with_inbox w.outbox)
      text_job-IsTextJob plain_listed (omega (arith, length-repeat 1461 0)) refl (λ u. refl)
