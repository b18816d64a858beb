-- ===== src/Examples/SealedFile.antt =====
-- A test of an encrypted transfer.
use xchange.Prelude.{
  ℕ, ◌%◌, ◌≡◌, refl, arith, true, false, not, none, some, [], ◌∷◌, Bytes, ◌==◌, if◌then◌else◌,
}
use xchange.Crypto.{Keys, EncryptState}
use xchange.Crypto.Handler.{xchacha}
use xchange.SocketIo.{Session, Manager}
use xchange.Client.Protocol.{TransferInfo, send_file}
use xchange.Server.Files.{exists}
use xchange.Server.Files.Written.{Written}
use xchange.Server.Protocol.{Server, Params, last_byte, target_path, recv_file}
use xchange.Transfer.Sealed.File.{SealedSends, SealedAwaits, sealed_file_arrives}
use xchange.Examples.Sim.{
  SimWorld, sim, quiet, with_inbox, sent_bytes, bytes_to_come, sim-Duplex, toy, toy-CryptoLaws,
  repeat,
}

abbrev three : Bytes
three = 1 ∷ 2 ∷ 3 ∷ []

abbrev a_txt : Bytes
a_txt = b'a' ∷ b'.' ∷ b't' ∷ b'x' ∷ b't' ∷ []

abbrev path : Bytes
path = b'/' ∷ b't' ∷ b'/' ∷ a_txt

abbrev keys : Keys
keys = record { iv = repeat 24 255; key = repeat 32 4; session_key = repeat 32 9 }

abbrev sealing : EncryptState ℕ
sealing = record { keys = keys; rng = 0 }

abbrev sender : Manager ℕ
sender = record {
  error = 0;
  data_block_size = 1434;
  frame_order_nbr = 0;
  encrypted = true;
  pln_buffer = [];
  ctrl_frame = record { pv = 3; sv = 3; flags = 30; transmission_id = 77 };
  dec = none;
  enc = some (xchacha, sealing);
}

abbrev receiver : Manager ℕ
receiver = record sender { dec = some (xchacha, keys); enc = none }

abbrev client : Session ℕ SimWorld
client = record { manager = sender; world = quiet }

abbrev server : Server ℕ SimWorld
server = record {
  session = record { manager = receiver; world = quiet };
  files = record { content = λ p. none; can_open = λ p. true };
  printed = [];
  err_state = false;
}

abbrev params : Params
params = record { out_dir = b'/' ∷ b't' ∷ []; key_file = []; clock = λ n. b'9' ∷ [] }

abbrev sending : TransferInfo
sending = record {
  msg = none;
  filename = a_txt;
  source = some three;
  read_stdin = false;
  bandwidth = 0;
  transmission_id = 77;
}

client-SealedSends : SealedSends toy xchacha (sealing, keys) sending three client
client-SealedSends = record {
  source = refl;
  no_limit = refl;
  transmission_id = omega arith;
  name = record { no_zero = omega arith; some_bytes = omega arith; small = omega arith };
  sealing = record {
    encrypted = refl;
    block = refl;
    enc = refl;
    in_step = record { iv = refl; session_key = refl };
  };
  room = omega arith;
}

server-SealedAwaits : SealedAwaits xchacha keys sending params path server
unfolding target_path last_byte exists
server-SealedAwaits = record {
  ready = record {
    encrypted = refl;
    block = refl;
    transmission_id = refl;
    order = refl;
    dec = refl;
  };
  target = refl;
  free = refl;
  can_open = refl;
}

sealed_file_arrives_example :
    (s' : Session ℕ SimWorld) × (t' : Server ℕ SimWorld) × (send_file sim toy sending client
      ≡ some (true, s'))
    × (recv_file sim toy params
          (record server { session = record server.session { world = with_inbox s'.world.outbox } })
        ≡ some (not (3 % 1434 == 0), t'))
    × Written path (if 3 % 1434 == 0 then none else some three) server.files t'.files
sealed_file_arrives_example =
    sealed_file_arrives sim sim toy bytes_to_come sent_bytes bytes_to_come sent_bytes sim-Duplex
      sim-Duplex toy-CryptoLaws xchacha (sealing, keys) sending params three path client server
      (λ (w : SimWorld). with_inbox w.outbox) client-SealedSends server-SealedAwaits (λ w. refl)
