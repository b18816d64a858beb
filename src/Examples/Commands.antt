-- ===== src/Examples/Commands.antt =====
-- Tests of the command lines of the two programs.
use xchange.Prelude.{
  ℕ, ◌+◌, ◌-◌, ◌*◌, ◌^◌, ◌≤◌, ◌≡◌, ◌↔◌, refl, arith, true, false, not, none, some, List, [], ◌∷◌,
  Bytes, length, bit_and, codes, ◌==◌, if◌then◌else◌,
}
use xchange.Wire.{sv_plain, flag_encrypted, flag_binary_transmission}
use xchange.Tool.Text.{
  split_encryption_whitelist, tokens, filename_from_path, selection_to_sec_version,
}
use xchange.Tool.Number.{
  skip_spaces, sign, digits, starts_with_digit, stoul, ip_from_tokens, ip_from_str, client_port,
  server_port, address,
}
use xchange.SocketIo.{Session}
use xchange.SocketIo.Send.{ctrl_frame_of}
use xchange.Client.Handler.{Job}
use xchange.Client.Protocol.{frames_per_bucket, TransferInfo, send_file, mode_file}
use xchange.Client.Command
use xchange.Client.Command.{
  CliArgs, default_args, set_security_version, check_args, coherent, long_filename,
}
use xchange.Client.Command.Print.{parse_loop-command_line, command_line}
use xchange.Client.Program
use xchange.Client.Program.{
  Settings, Surroundings, is_file_mode, job_of, bandwidth_of, stoll, mode_of, settings_of, prepare,
  start_args,
}
use xchange.Client.Program.Starts.{Runnable}
use xchange.Client.Throttle.{Delays, bucket, full_budget, throttled}
use xchange.Client.Throttle.Paces.{at_once, throttled-paces}
use xchange.Client.Program.Bandwidth.{bandwidth_of-send_file}
use xchange.Client.Program.Total.{Carries, start-job_of}
use xchange.Server.Admission.{
  listed, has_flag, ctrl_frame_valid, sec_version_lookup, pro_version_lookup,
}
use xchange.Server.Command as ServerCommand
use xchange.Server.Command.{Parameter, default_parameter, plausible}
use xchange.Server.Command.Reads as ServerReads
use xchange.Server.Command.Reads.{parse_args-command_line}
use xchange.Server.Program as ServerProgram
use xchange.Server.Program.{fill_whitelist, start_parameter}
use xchange.Server.Program.Agreement.{programs_agree}
use xchange.Examples.Sim.{SimWorld, sim, quiet, toy}

-- xcc -s 10.0.0.7 -f /a/b --encryption aes -k key
abbrev pub client_line : List Bytes
client_line =
    codes "-s"
    ∷ codes "10.0.0.7"
    ∷ codes "-f"
    ∷ codes "/a/b"
    ∷ codes "--encryption"
    ∷ codes "aes"
    ∷ codes "-k"
    ∷ codes "key"
    ∷ []

abbrev pub settings : Settings
settings = record {
  msg = none;
  file_path = some (codes "/a/b");
  key_file = codes "key";
  pv = 4;
  sec_ver = 4;
  mode = mode_file;
  bandwidth = 0;
  transmission_id = 1;
  stats = false;
  progress = false;
  read_stdin = false;
}

pub client_starts : Program.start client_line ≡ Program.connects (10 * 2 ^ 24 + 7) 9009 settings
unfolding Program.start Command.parse_loop Command.arg_kind Command.store start_args check_args
    coherent long_filename filename_from_path prepare client_port stoul skip_spaces sign digits
    starts_with_digit bandwidth_of set_security_version selection_to_sec_version pro_version_lookup
    ip_from_str ip_from_tokens settings_of mode_of
client_starts = refl

-- xcd -p 9009 -o /tmp --whitelist aes,cha
abbrev pub server_line : List Bytes
server_line =
    codes "-p"
    ∷ codes "9009"
    ∷ codes "-o"
    ∷ codes "/tmp"
    ∷ codes "--whitelist"
    ∷ codes "aes,cha"
    ∷ []

abbrev pub parameters : Parameter
parameters = record default_parameter {
  out_dir = codes "/tmp";
  encryption_white_list = codes "aes,cha";
  allowed_encryption_vec = 4 ∷ 2 ∷ [];
}

pub server_starts : ServerProgram.start server_line ≡ ServerProgram.listens parameters
unfolding ServerProgram.start ServerCommand.parse_args ServerCommand.arg_kind ServerCommand.store
    start_parameter plausible fill_whitelist server_port stoul skip_spaces sign digits
    starts_with_digit split_encryption_whitelist
server_starts = refl

-- An option at the end of the line: only -k is refused.
server_option_missing :
    (ServerCommand.parse_args (codes "-o" ∷ []) ≡ ServerCommand.null_pointer)
    × (ServerCommand.parse_args (codes "-k" ∷ []) ≡ ServerCommand.refused)
unfolding ServerCommand.parse_args ServerCommand.arg_kind ServerCommand.missing
server_option_missing = (refl, refl)

abbrev surroundings : Surroundings
surroundings = record {
  contents = λ path. some (1 ∷ 2 ∷ []);
  stdin = [];
  absolute = λ path. b'/' ∷ path;
}

abbrev pub ip : ℕ
ip = 10 * 2 ^ 24 + 7

start-job_of_example :
    (j : Job) × (job_of surroundings settings ≡ some j)
    × Carries settings j
    × Runnable 9009 settings
start-job_of_example =
    start-job_of surroundings client_line ip 9009 settings (λ path. omega arith) client_starts

programs_agree_example :
    (j : Job) × (job_of surroundings settings ≡ some j)
    × (let c = ctrl_frame_of (not (4 == sv_plain)) j.ctrl in
        (ctrl_frame_valid (4 ∷ 2 ∷ []) c ≡ (
          if length (codes "aes,cha") == 0
          then true
          else listed 4 (split_encryption_whitelist (codes "aes,cha"))))
        × (sec_version_lookup c.pv ≡ some 4)
        × (has_flag c.flags flag_encrypted ≡ not (4 == sv_plain))
        × ((bit_and c.flags flag_binary_transmission == 0) ≡ not (is_file_mode mode_file)))
programs_agree_example =
    programs_agree surroundings client_line server_line ip 9009 settings parameters
      (λ path. omega arith) client_starts server_starts

abbrev arguments : CliArgs
arguments = record default_args {
  server_ip = codes "10.0.0.7";
  outfile = codes "ab";
  name = codes "-n";
  msg = codes "--help";
  stats = true;
}

parse_loop-command_line_example :
    Command.parse_loop (command_line arguments (codes "-v" ∷ [])) none default_args
    ≡ Command.parse_loop (codes "-v" ∷ []) none arguments
parse_loop-command_line_example =
    parse_loop-command_line arguments (codes "-v" ∷ [])
      (record { no_help = refl; no_version = refl; no_mode = λ e. refl })

-- A name of one byte and a path of two.
abbrev named_file : CliArgs
named_file = record default_args {
  server_ip = codes "10.0.0.7";
  outfile = codes "ab";
  name = codes "x";
}

named_file_accepted : coherent named_file ≡ true
unfolding coherent
named_file_accepted = refl

abbrev slow_file : TransferInfo
slow_file = record {
  msg = none;
  filename = codes "a";
  source = some (1 ∷ []);
  read_stdin = false;
  bandwidth = 2000;
  transmission_id = 1;
}

abbrev session : Session ℕ SimWorld
session = record {
  manager = record {
    error = 0;
    data_block_size = 1450;
    frame_order_nbr = 0;
    encrypted = false;
    pln_buffer = [];
    ctrl_frame = record { pv = 1; sv = 1; flags = 2; transmission_id = 1 };
    dec = none;
    enc = none;
  };
  world = quiet;
}

two_thousand : stoll (codes "2000") ≡ some 2000
unfolding stoll skip_spaces sign digits starts_with_digit
two_thousand = refl

bandwidth_of-send_file_example :
    ((bandwidth_of (codes "2000") ≡ some 2000) ↔ (1460 ≤ 2000))
    × (send_file sim toy slow_file session ≡ some (false, session))
bandwidth_of-send_file_example =
    bandwidth_of-send_file sim toy slow_file session (codes "2000") two_thousand (omega arith)
      (omega arith)

-- Four blocks at 7300 bytes per second, which gives one to a bucket.
abbrev slow_blocks : List Delays
slow_blocks =
    record { sending = 9; waking = 0 }
    ∷ record { sending = 300000; waking = 0 }
    ∷ record { sending = 0; waking = 0 }
    ∷ record { sending = 7; waking = 2 }
    ∷ []

throttled-paces_example :
    (0 + bucket * 2 ≤ throttled 1 (full_budget 1 0) 0 slow_blocks)
    × (throttled 1 (full_budget 1 0) 0 (at_once (2 * (1 + 1))) ≡ 0 + bucket * 2)
throttled-paces_example = throttled-paces 1 0 2 slow_blocks (omega arith) (omega arith)

-- The smallest limit that is taken gives one block to a bucket.
one_per_bucket : frames_per_bucket 7300 ≡ 1
unfolding frames_per_bucket
one_per_bucket = refl

-- A negative number is accepted, as a very large one.
negative_bandwidth : bandwidth_of (codes "-1") ≡ some (2 ^ 64 - 1)
unfolding bandwidth_of stoll skip_spaces sign digits starts_with_digit
negative_bandwidth = refl

abbrev server_settings : Parameter
server_settings = record default_parameter { out_dir = codes "-h"; ip = ip; port = 80 }

server_ip_text : ip_from_str (codes "10.0.0.7") ≡ address ip
unfolding ip_from_str ip_from_tokens tokens stoul skip_spaces sign digits starts_with_digit
server_ip_text = refl

server_port_text : server_port (codes "80") ≡ some 80
unfolding server_port stoul skip_spaces sign digits starts_with_digit
server_port_text = refl

parse_args-command_line_example :
    ServerCommand.parse_args
      (ServerReads.command_line (codes "10.0.0.7") (codes "80") server_settings [])
    ≡ ServerCommand.parse_loop [] none server_settings
parse_args-command_line_example =
    parse_args-command_line server_settings (codes "10.0.0.7") (codes "80") [] server_ip_text
      server_port_text refl refl refl refl
