-- ===== src/Examples/Text.antt =====
-- A test of a whole message.
use xchange.Prelude.{ℕ, ◌≡◌, refl, arith, true, false, none, some, [], ◌∷◌, ◌++◌, Bytes}
use xchange.SocketIo.{Session}
use xchange.Client.Protocol.{TransferInfo, eot_frame, send_message}
use xchange.Server.Protocol.{Server, Params, message_heading, entry, recv_message}
use xchange.Transfer.Frames.{frame_bytes}
use xchange.Transfer.Message.{message_arrives}
use xchange.Examples.Sim.{
  SimWorld, sim, quiet, with_inbox, sent_bytes, bytes_to_come, sim-Accepts, sim-Delivers, toy,
  repeat,
}

abbrev hello : Bytes
hello = b'h' ∷ b'e' ∷ b'l' ∷ b'l' ∷ b'o' ∷ []

abbrev info : TransferInfo
info = record {
  msg = some hello;
  filename = [];
  source = none;
  read_stdin = false;
  bandwidth = 0;
  transmission_id = 77;
}

abbrev session : Session ℕ SimWorld
session = record {
  manager = record {
    error = 0;
    data_block_size = 1450;
    frame_order_nbr = 0;
    encrypted = false;
    pln_buffer = repeat 1461 0;
    ctrl_frame = record { pv = 1; sv = 1; flags = 2; transmission_id = 77 };
    dec = none;
    enc = none;
  };
  world = quiet;
}

abbrev server : Server ℕ SimWorld
server = record {
  session = session;
  files = record { content = λ p. none; can_open = λ p. true };
  printed = [];
  err_state = false;
}

abbrev params : Params
params = record { out_dir = []; key_file = []; clock = λ n. b'9' ∷ [] }

abbrev connect : SimWorld → SimWorld
connect w = with_inbox w.outbox

message_arrives_example :
    (w : SimWorld) × (t' : Server ℕ SimWorld) × (send_message sim toy info session
      ≡ some (true, record session { world = w }))
    × (recv_message sim toy params
          (record server { session = record session { world = connect w } })
        ≡ some (true, t'))
    × (t'.printed ≡ [] ++ (entry params message_heading 0 hello ∷ []))
    × (t'.files ≡ server.files)
    × (t'.session.world.inbox ≡ frame_bytes (eot_frame 77 2))
message_arrives_example =
    message_arrives sim sim toy toy sent_bytes bytes_to_come sim-Accepts sim-Delivers connect params
      info hello session server
      (record {
        argument = refl;
        not_stdin = refl;
        transmission_id = omega arith;
        no_zero = omega arith;
        some_bytes = omega arith;
        small = omega arith;
      })
      (record { plain = refl; block = refl })
      (record { plain = refl; block = refl; transmission_id = refl; order = refl }) (omega arith)
      (λ w. refl)
