-- ===== src/Examples/Connections.antt =====
-- Tests of a whole connection and of the list of connections.
use xchange.Prelude.{
  ℕ, ◌≤◌, ◌≡◌, refl, arith, true, false, not, ◌&&◌, none, some, List, [], ◌∷◌, ◌++◌, Bytes, length,
  if◌then◌else◌,
}
use xchange.Wire.{CtrlFrame}
use xchange.Wire.Layout.{encode_ctrl}
use xchange.Crypto.{Keys}
use xchange.Server.Admission.{
  ctrl_frame_valid, sv_is_valid, pv_is_valid, valid_flags, listed, sec_version_lookup,
}
use xchange.Server.Files.{Files, exists}
use xchange.Server.Files.Written.{Written}
use xchange.Server.Protocol.{Server, Params, last_byte, target_path, connection_type}
use xchange.Server.Handler.{Control, closed, is_encrypted, served, connection}
use xchange.Server.Daemon.{
  Daemon, is_open, start_manager, clean_up, accept, take_up, Reach, start, next,
}
use xchange.Server.Daemon.Clients.{managers-bound}
use xchange.Server.Daemon.Sockets.{running, finished_on, clean_up-running, live_socket_closed}
use xchange.Transfer.Blocks.{file_wire, ends_short}
use xchange.Transfer.Session.{ack_bytes}
use xchange.Transfer.Connection.{IsPlainFile, connection_receives_file}
use xchange.Transfer.Bypass.{bypass_frame, connection_bypasses_whitelist}
use xchange.Examples.Sim.{SimWorld, sim, with_inbox, sent_bytes, bytes_to_come, sim-Duplex, toy}

abbrev a_txt : Bytes
a_txt = b'a' ∷ b'.' ∷ b't' ∷ b'x' ∷ b't' ∷ []

abbrev three : Bytes
three = 1 ∷ 2 ∷ 3 ∷ []

abbrev only_plain : List ℕ
only_plain = 1 ∷ []

abbrev plain_file : CtrlFrame
plain_file = record { pv = 1; sv = 1; flags = 10; transmission_id = 77 }

plain_file-IsPlainFile : IsPlainFile only_plain plain_file
unfolding ctrl_frame_valid sv_is_valid pv_is_valid valid_flags listed sec_version_lookup
    is_encrypted connection_type
plain_file-IsPlainFile = record {
  fits = record {
    pv = omega arith;
    sv = omega arith;
    flags = omega arith;
    transmission_id = omega arith;
  };
  valid = refl;
  plain = refl;
  not_encrypted = refl;
  binary = refl;
}

abbrev params : Params
params = record { out_dir = b'/' ∷ b't' ∷ []; key_file = []; clock = λ n. b'9' ∷ [] }

abbrev path : Bytes
path = b'/' ∷ b't' ∷ b'/' ∷ a_txt

abbrev no_files : Files
no_files = record { content = λ p. none; can_open = λ p. true }

abbrev no_keys : Keys
no_keys = record { iv = []; key = []; session_key = [] }

abbrev client_connected : SimWorld
client_connected = with_inbox (encode_ctrl plain_file ++ (file_wire 77 a_txt three ++ []))

connection_receives_file_example :
    (c : Control) × (t : Server ℕ SimWorld) × (connection sim toy only_plain params no_keys [] 0
        no_files client_connected
      ≡ served c t)
    × (c.state ≡ closed)
    × (c.err ≡ not (ends_short 1450 three))
    × (t.err_state ≡ not (ends_short 1450 three))
    × Written path (if ends_short 1450 three then some three else none) no_files t.files
    × (t.session.world.outbox
        ≡ ([] ++ ack_bytes) ++ (if ends_short 1450 three then ack_bytes else []))
unfolding target_path last_byte exists
connection_receives_file_example =
    connection_receives_file sim toy bytes_to_come sent_bytes sim-Duplex only_plain params
      plain_file a_txt path three [] no_keys [] 0 no_files client_connected plain_file-IsPlainFile
      (record { no_zero = omega arith; some_bytes = omega arith; small = omega arith })
      (omega arith) refl refl refl refl

abbrev only_aes : List ℕ
only_aes = 4 ∷ []

abbrev pretender_connected : SimWorld
pretender_connected = with_inbox (encode_ctrl (bypass_frame 4) ++ (file_wire 1 a_txt three ++ []))

-- The server admits encrypted transfers only, and keeps a file that came in the clear.
connection_bypasses_whitelist_example :
    (c : Control) × (t : Server ℕ SimWorld) × (connection sim toy only_aes params no_keys [] 0
        no_files pretender_connected
      ≡ served c t)
    × (c.state ≡ closed)
    × (c.err ≡ false)
    × (t.err_state ≡ false)
    × Written path (some three) no_files t.files
unfolding target_path last_byte exists listed ends_short
connection_bypasses_whitelist_example =
    connection_bypasses_whitelist sim toy bytes_to_come sent_bytes sim-Duplex only_aes 4 params
      a_txt path three [] no_keys [] 0 no_files pretender_connected (omega arith) (omega arith) refl
      (record { no_zero = omega arith; some_bytes = omega arith; small = omega arith })
      (omega arith) refl refl refl refl refl

abbrev standing : List ℕ
standing = 3 ∷ 0 ∷ 1 ∷ 2 ∷ []

abbrev waiting : Daemon
waiting = record { pending = some 5; managers = []; open_sockets = 5 ∷ standing }

waiting-Reach : Reach standing (start_manager 5 waiting)
unfolding is_open
waiting-Reach = next (next start (accept 5 refl (omega arith) refl)) (take_up 5 refl)

managers-bound_example : length (start_manager 5 waiting).managers ≤ 10
managers-bound_example = managers-bound standing (start_manager 5 waiting) waiting-Reach

abbrev one_ended : Daemon
one_ended = record {
  pending = none;
  managers =
      record { socket = 5; closed = false; done = true }
      ∷ record { socket = 6; closed = false; done = false }
      ∷ [];
  open_sockets = 6 ∷ 5 ∷ [];
}

clean_up-running_example :
    ((clean_up one_ended).managers ≡ running one_ended.managers)
    × (is_open 5 (clean_up one_ended).open_sockets
        ≡ (is_open 5 one_ended.open_sockets && not (finished_on 5 one_ended.managers)))
clean_up-running_example = clean_up-running 5 one_ended

live_socket_closed_example :
    (d : Daemon) × Reach standing d
    × (d.managers ≡ record { socket = 5; closed = false; done = false } ∷ [])
    × (is_open 5 d.open_sockets ≡ false)
unfolding is_open
live_socket_closed_example = live_socket_closed standing 5 (omega arith) refl
