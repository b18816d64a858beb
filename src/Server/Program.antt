-- ===== src/Server/Program.antt =====
-- `main` of src/xcd.cpp: from the command line to the loop that serves connections.
pub mod Agreement
use xchange.Prelude.{
  ℕ, Bool, true, false, not, ◌||◌, Option, none, some, List, Bytes, length, ◌==◌, if◌then◌else◌,
}
use xchange.Tool.Text.{split_encryption_whitelist}
use xchange.Server.Protocol.{Params}
use xchange.Server.Command.{
  Parameter, parsed, refused, exits_one, uncaught, null_pointer, parse_args, plausible,
}

-- How `main` comes to the server's socket: with an exit code, by an exception or a null pointer,
-- or with the parameters.
pub data Start : Type 0 where
  ends : ℕ → Start
  aborts undefined : Start
  listens : Parameter → Start

-- Without a whitelist all versions stay allowed.
unfoldable pub fill_whitelist : Parameter → Parameter
fill_whitelist p =
    if not (length p.encryption_white_list == 0)
    then record p { allowed_encryption_vec = split_encryption_whitelist p.encryption_white_list }
    else p

unfoldable pub start_parameter : Parameter → Start
start_parameter p =
    if p.help || p.version
    then ends 0
    else if plausible p
    then listens (fill_whitelist p)
    else ends 1

unfoldable pub start : List Bytes → Start
start argv = elim (parse_args argv) [
  | parsed p ↦ start_parameter p
  | refused ↦ ends 1
  | exits_one ↦ ends 1
  | uncaught ↦ aborts
  | null_pointer ↦ undefined
]

-- What the system answers to `socket`, `bind` and `listen`: whether each succeeds.
pub record System : Type 0 where
  pub socket_made : Bool
  pub bound : Bool
  pub listening : Bool

-- How `main` goes on: with an exit code or without one, or in `mainLoop` on an address.
pub data Run : Type 0 where
  exit : ℕ → Run
  abnormal : Run
  serves : Parameter → Run

unfoldable pub main : System → List Bytes → Run
main sys argv = elim (start argv) [
  | ends n ↦ exit n
  | aborts ↦ abnormal
  | undefined ↦ abnormal
  | listens p ↦
      if not sys.socket_made
      then exit 1
      else if not sys.bound
      then exit 1
      else if not sys.listening
      then exit 1
      else serves p
]

-- What the handler of a connection gets of the parameters; `key_bytes` is what the key file holds,
-- and `clock` the times that the handler reads.
unfoldable pub handler_params : (Bytes → Bytes) → (ℕ → Bytes) → Parameter → Params
handler_params key_bytes clock p = record {
  out_dir = p.out_dir;
  key_file = key_bytes p.key_file;
  clock = clock;
}
