-- ===== src/Examples/Handlers.antt =====
-- Tests of the two state machines, on a connection on which nothing arrives.
use xchange.Prelude.{ℕ, ◌≡◌, refl, true, false, none, some, [], ◌∷◌}
use xchange.Wire.{CtrlFrame, type_none, type_txt}
use xchange.Wire.Layout.{encode_ctrl}
use xchange.Sio.{chunk_size, write_loop, write_to_socket, read_loop, read_from_socket}
use xchange.Crypto.Handler.{chacha}
use xchange.SocketIo.{Session, Manager}
use xchange.SocketIo.Io.{read_bytes, write_bytes}
use xchange.SocketIo.Receive.{set_iv_from_socket, get_ack_from_socket}
use xchange.SocketIo.Send.{ctrl_frame_of, send_ctrl_frame_plain}
use xchange.Client.Protocol.{mode_text}
use xchange.Client.Handler as Sender
use xchange.Client.Handler.Ends.{ctrl_loop-stops}
use xchange.Client.Handler.Order.{Confirmed, ctrl_loop-Confirmed}
use xchange.Transfer.Session.{ack_bytes}
use xchange.Wire.Layout.{encode_ack, decode_ack, encode_header}
use xchange.Client.Protocol.{send_message, send_text}
use xchange.SocketIo.Send.{send_data_frame}
use xchange.SocketIo.Io.{send_data_buffer}
use xchange.Frame.{get_transmit_buffer, frame_size}
use xchange.Tool.Fletcher.{fletcher16, sum_blocks, sum_block}
use xchange.Prelude.{◌⊎◌, ◌++◌}
use xchange.Server.Protocol.{Server, Params, connection_type}
use xchange.Server.Handler as Receiver
use xchange.Server.Handler.Ends.{ctrl_loop-closed}
use xchange.Server.Handler.Order.{Safe, ctrl_loop-Safe}
use xchange.Examples.Sim.{SimWorld, sim, quiet, with_inbox, toy}

abbrev encrypted_text : CtrlFrame
encrypted_text = record { pv = 2; sv = 2; flags = 22; transmission_id = 5 }

abbrev manager : Manager ℕ
manager = record {
  error = 0;
  data_block_size = 1450;
  frame_order_nbr = 0;
  encrypted = false;
  pln_buffer = [];
  ctrl_frame = encrypted_text;
  dec = some (chacha, record { iv = []; key = []; session_key = [] });
  enc = none;
}

abbrev server : Server ℕ SimWorld
server = record {
  session = record { manager = manager; world = quiet };
  files = record { content = λ p. none; can_open = λ p. true };
  printed = [];
  err_state = false;
}

abbrev params : Params
params = record { out_dir = []; key_file = []; clock = λ n. b'9' ∷ [] }

abbrev opening : Receiver.Control
opening = record { state = Receiver.get_type; err = false; kind = type_none }

is_sealed : Receiver.is_encrypted encrypted_text ≡ true
unfolding Receiver.is_encrypted
is_sealed = refl

-- The iv does not come: the connection is closed, and the error is kept.
server_run :
    Receiver.ctrl_loop sim toy 7 params encrypted_text opening server
    ≡ some (
      record { state = Receiver.closed; err = true; kind = type_txt },
      record server { err_state = true },
    )
unfolding Receiver.ctrl_loop Receiver.ctrl_step Receiver.is_encrypted Receiver.set_err_state
    connection_type set_iv_from_socket read_bytes read_from_socket read_loop
server_run = refl

ctrl_loop-closed_example : Receiver.closed ≡ Receiver.closed
ctrl_loop-closed_example =
    ctrl_loop-closed sim toy params encrypted_text opening
      (record { state = Receiver.closed; err = true; kind = type_txt }) server
      (record server { err_state = true }) server_run

abbrev job : Sender.Job
job = record {
  ctrl = record { pv = 1; sec_ver = 1; transmission_id = 5; is_file = false };
  transfer = record {
    msg = some (1 ∷ []);
    filename = [];
    source = none;
    read_stdin = false;
    bandwidth = 0;
    transmission_id = 5;
  };
  mode = mode_text;
  key_file = [];
}

abbrev starting : Sender.Control
starting = record { state = Sender.get_type; error = false; running = true }

abbrev stopped : Sender.Control
stopped = record { state = Sender.stop_client; error = true; running = false }

abbrev client : Session ℕ SimWorld
client = server.session

abbrev client_after : Session ℕ SimWorld
client_after = record client { world = record { inbox = []; outbox = 1 ∷ 0 ∷ 1 ∷ 2 ∷ 5 ∷ [] } }

-- The control frame goes out, and no ACK comes.
client_run : Sender.ctrl_loop sim toy 7 job starting client ≡ some (stopped, client_after)
unfolding Sender.ctrl_loop Sender.ctrl_step Sender.send_ctrl_frame send_ctrl_frame_plain
    ctrl_frame_of encode_ctrl write_bytes write_to_socket write_loop chunk_size get_ack_from_socket
    read_bytes read_from_socket read_loop
client_run = refl

ctrl_loop-stops_example : stopped.running ≡ false
ctrl_loop-stops_example =
    ctrl_loop-stops sim toy job starting stopped client client_after client_run

-- The iv does not come.
ctrl_loop-Safe_example :
    Safe sim toy params encrypted_text server (record server { err_state = true })
ctrl_loop-Safe_example =
    ctrl_loop-Safe sim toy params encrypted_text server (record server { err_state = true })
      (record { state = Receiver.closed; err = true; kind = type_txt }) is_sealed server_run

-- Both ACKs come.
abbrev client_heard : Session ℕ SimWorld
client_heard = record client { world = with_inbox (ack_bytes ++ ack_bytes) }

client_succeeds :
    (c : Sender.Control) × (t : Session ℕ SimWorld) × (Sender.ctrl_loop sim toy 7 job starting
        client_heard
      ≡ some (c, t))
    × (c.error ≡ false)
unfolding Sender.ctrl_loop Sender.ctrl_step Sender.send_ctrl_frame Sender.send send_ctrl_frame_plain
    ctrl_frame_of encode_ctrl encode_ack decode_ack write_bytes write_to_socket write_loop
    chunk_size get_ack_from_socket read_bytes read_from_socket read_loop send_message send_text
    send_data_frame send_data_buffer get_transmit_buffer encode_header frame_size fletcher16
    sum_blocks sum_block
client_succeeds = (_, _, refl, refl)

client_confirmed :
    (client_succeeds.0.error ≡ true) ⊎ Confirmed sim toy job client_heard client_succeeds.1
client_confirmed =
    ctrl_loop-Confirmed sim toy job client_heard client_succeeds.1 client_succeeds.0
      client_succeeds.2
