-- ===== src/Examples/File.antt =====
-- Tests of a whole transfer and of the two state machines.
use xchange.Prelude.{ℕ, ◌≡◌, refl, arith, true, false, none, some, [], ◌∷◌, ◌++◌, Bytes}
use xchange.SocketIo.{Session, Manager}
use xchange.Client.Protocol.{TransferInfo, send_file}
use xchange.Server.Files.{exists}
use xchange.Server.Files.Written.{Written}
use xchange.Server.Protocol.{Server, Params, last_byte, target_path, recv_file}
use xchange.Transfer.Blocks.{file_wire}
use xchange.Transfer.Plain.{send_file-file_wire}
use xchange.Transfer.RecvFile.{IsFilename}
use xchange.Transfer.EndToEnd.{Sends, Awaits, file_arrives, file_lost}
use xchange.Examples.Sim.{
  SimWorld, sim, quiet, with_inbox, sent_bytes, bytes_to_come, sim-Accepts, sim-Delivers, toy,
  repeat,
}

abbrev a_txt : Bytes
a_txt = b'a' ∷ b'.' ∷ b't' ∷ b'x' ∷ b't' ∷ []

abbrev three : Bytes
three = 1 ∷ 2 ∷ 3 ∷ []

abbrev plain_manager : ℕ → Manager ℕ
plain_manager order = record {
  error = 0;
  data_block_size = 1450;
  frame_order_nbr = order;
  encrypted = false;
  pln_buffer = repeat 1460 0;
  ctrl_frame = record { pv = 1; sv = 1; flags = 10; transmission_id = 77 };
  dec = none;
  enc = none;
}

abbrev client : Session ℕ SimWorld
client = record { manager = plain_manager 0; world = quiet }

abbrev server : Server ℕ SimWorld
server = record {
  session = record { manager = plain_manager 0; world = quiet };
  files = record { content = λ p. none; can_open = λ p. true };
  printed = [];
  err_state = false;
}

abbrev params : Params
params = record { out_dir = b'/' ∷ b't' ∷ []; key_file = []; clock = λ n. b'9' ∷ [] }

abbrev path : Bytes
path = b'/' ∷ b't' ∷ b'/' ∷ a_txt

abbrev sending : Bytes → TransferInfo
sending bytes = record {
  msg = none;
  filename = a_txt;
  source = some bytes;
  read_stdin = false;
  bandwidth = 0;
  transmission_id = 77;
}

a_txt-IsFilename : IsFilename a_txt
a_txt-IsFilename = record { no_zero = omega arith; some_bytes = omega arith; small = omega arith }

three-Sends : Sends (sending three) three client
three-Sends = record {
  source = refl;
  no_limit = refl;
  transmission_id = omega arith;
  name = a_txt-IsFilename;
  plain = record { plain = refl; block = refl };
  room = omega arith;
}

empty-Sends : Sends (sending []) [] client
empty-Sends = record {
  source = refl;
  no_limit = refl;
  transmission_id = omega arith;
  name = a_txt-IsFilename;
  plain = record { plain = refl; block = refl };
  room = omega arith;
}

server-Awaits : (bytes : Bytes) → Awaits (sending bytes) params path server
unfolding target_path last_byte exists
server-Awaits bytes = record {
  ready = record { plain = refl; block = refl; transmission_id = refl; order = refl };
  target = refl;
  free = refl;
  can_open = refl;
}

abbrev connect : SimWorld → SimWorld
connect w = with_inbox w.outbox

abbrev connected : SimWorld → Server ℕ SimWorld
connected w = record server { session = record server.session { world = connect w } }

file_arrives_example :
    (w : SimWorld) × (t' : Server ℕ SimWorld) × (send_file sim toy (sending three) client
      ≡ some (true, record client { world = w }))
    × (recv_file sim toy params (connected w) ≡ some (true, t'))
    × Written path (some three) server.files t'.files
file_arrives_example =
    file_arrives sim sim toy toy sent_bytes bytes_to_come sim-Accepts sim-Delivers connect
      (sending three) params three path client server three-Sends (server-Awaits three) (λ w. refl)
      (omega arith)

file_lost_example :
    (w : SimWorld) × (t' : Server ℕ SimWorld) × (send_file sim toy (sending []) client
      ≡ some (true, record client { world = w }))
    × (recv_file sim toy params (connected w) ≡ some (false, t'))
    × ((q : Bytes) → t'.files.content q ≡ server.files.content q)
file_lost_example =
    file_lost sim sim toy toy sent_bytes bytes_to_come sim-Accepts sim-Delivers connect (sending [])
      params [] path client server empty-Sends (server-Awaits []) (λ w. refl) refl

send_file-file_wire_example :
    (w' : SimWorld) × (send_file sim toy (sending three) client
      ≡ some (true, record client { world = w' }))
    × (w'.outbox ≡ [] ++ file_wire 77 a_txt three)
send_file-file_wire_example =
    send_file-file_wire sim toy sent_bytes sim-Accepts (sending three) three client refl refl
      (omega arith) (omega arith) (record { plain = refl; block = refl }) (omega arith)
