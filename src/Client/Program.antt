-- ===== src/Client/Program.antt =====
-- `main` of src/xcc.cpp: from the command line to the transfer, and the exit code.
pub mod Starts
pub mod Bandwidth
pub mod Total
pub mod Success
use xchange.Prelude.{
  ℕ, ◌-◌, ◌%◌, ◌^◌, Bool, true, false, not, ◌&&◌, ◌||◌, Option, none, some, List, Bytes, [], eqb,
  codes, ltb, leb, ◌==◌, if◌then◌else◌,
}
use xchange.Wire.{sv_plain, max_data_frame_size}
use xchange.Sio.{Kernel}
use xchange.Crypto.{CryptoLib, Keys}
use xchange.Tool.Text.{filename_from_path}
use xchange.Tool.Number.{
  skip_spaces, sign, digits, starts_with_digit, address, exits, throws, ip_from_str, client_port,
}
use xchange.Frame.{empty_ctrl}
use xchange.Client.Protocol.{TransferMode, mode_text, mode_file, mode_none}
use xchange.Client.Handler.{Job, protocol_handler}
use xchange.Client.Command.{
  CliArgs, default_args, parse_loop, is_empty, check_args, set_security_version,
}

-- `TransferInfo` as `main` fills it, but for the socket. A null pointer is `none`.
pub record Settings : Type 0 where
  pub msg : Option Bytes
  pub file_path : Option Bytes
  pub key_file : Bytes
  pub pv : ℕ
  pub sec_ver : ℕ
  pub mode : TransferMode
  pub bandwidth : ℕ
  pub transmission_id : ℕ
  pub stats : Bool
  pub progress : Bool
  pub read_stdin : Bool

-- `std::stoll` and the conversion to `uint64_t`; `none` is an exception.
unfoldable pub stoll : Bytes → Option ℕ
stoll s =
    let (minus, rest) = sign (skip_spaces s) in
    let v = digits 0 rest in
    let negative = if leb v (2 ^ 63) then some ((2 ^ 64 - v) % 2 ^ 64) else none in
    let positive = if ltb v (2 ^ 63) then some v else none in
    if starts_with_digit rest then if minus then negative else positive else none

-- The bandwidth, 0 if the option is not given; `none` where `main` returns 1.
unfoldable pub bandwidth_of : Bytes → Option ℕ
bandwidth_of text =
    let checked : Option ℕ = elim (stoll text) [
      | none ↦ none
      | some v ↦ if ltb v max_data_frame_size then none else some v
    ] in
    if is_empty text then some 0 else checked

-- The operational mode.
unfoldable pub mode_of : CliArgs → TransferMode
mode_of a =
    let from_stdin =
      if eqb a.mode (codes "file")
      then mode_file
      else if eqb a.mode (codes "message")
      then mode_text
      else mode_none in
    let given =
      if not (is_empty a.outfile)
      then mode_file
      else if not (is_empty a.msg)
      then mode_text
      else mode_none in
    if a.read_stdin then from_stdin else given

abbrev text_or_null : Bytes → Option Bytes
text_or_null s = if is_empty s then none else some s

unfoldable pub settings_of : CliArgs → ℕ → ℕ → ℕ → Settings
settings_of a sv pv bandwidth = record {
  msg = text_or_null a.msg;
  file_path = if not (is_empty a.name) && a.read_stdin then some a.name else text_or_null a.outfile;
  key_file = a.key_file;
  pv = pv;
  sec_ver = sv;
  mode = mode_of a;
  bandwidth = bandwidth;
  transmission_id = 1;
  stats = a.stats;
  progress = a.progress;
  read_stdin = a.read_stdin;
}

-- How `main` comes to the socket: with an exit code before it, by an exception that nothing
-- catches or undefined behaviour, or with an address, a port and the transfer.
pub data Start : Type 0 where
  ends : ℕ → Start
  aborts undefined : Start
  connects : ℕ → ℕ → Settings → Start

unfoldable pub prepare : CliArgs → Start
prepare a = elim (client_port a.port) [
  | none ↦ ends 1
  | some port ↦ elim (bandwidth_of a.bandwidth) [
    | none ↦ ends 1
    | some bandwidth ↦ elim (set_security_version a) [
      | none ↦ ends 1
      | some (sv, pv) ↦ elim (ip_from_str a.server_ip) [
        | address ip ↦ connects ip port (settings_of a sv pv bandwidth)
        | exits ↦ ends 1
        | throws ↦ aborts
      ]
    ]
  ]
]

unfoldable pub start_args : CliArgs → Start
start_args a = elim (check_args a) [
  | none ↦ undefined
  | some ok ↦ if ok then if a.help || a.version then ends 0 else prepare a else ends 1
]

unfoldable pub start : List Bytes → Start
start argv = elim (parse_loop argv none default_args) [ none ↦ undefined | some a ↦ start_args a ]

-- What the program finds: the contents of the files, standard input, and
-- `std::filesystem::absolute`.
pub record Surroundings : Type 0 where
  pub contents : Bytes → Option Bytes
  pub stdin : Bytes
  pub absolute : Bytes → Bytes

-- The contents of the key file; one that cannot be opened gives no bytes.
unfoldable pub key_bytes : Surroundings → Bytes → Bytes
key_bytes e path = elim (e.contents (e.absolute path)) [ none ↦ [] | some bytes ↦ bytes ]

-- `FileIO`: the name and the source. Without a path, and without a name in it, it is undefined.
unfoldable pub file_io : Surroundings → Settings → Option (Bytes × Option Bytes)
file_io e s = elim s.file_path [
  | none ↦ none
  | some path ↦
      let opened : Option (Bytes × Option Bytes) = elim (filename_from_path (e.absolute path)) [
        | none ↦ none
        | some name ↦ some (name, e.contents (e.absolute path))
      ] in
      if s.read_stdin then some (path, some e.stdin) else opened
]

abbrev pub is_file_mode : TransferMode → Bool
is_file_mode mode_file = true
is_file_mode mode_text = false
is_file_mode mode_none = false

-- What the protocol handler gets, with the name and the source of the file.
unfoldable pub job_with : Surroundings → Settings → Bytes → Option Bytes → Job
job_with e s name source = record {
  ctrl = record {
    pv = s.pv;
    sec_ver = s.sec_ver;
    transmission_id = s.transmission_id;
    is_file = is_file_mode s.mode;
  };
  transfer = record {
    msg = s.msg;
    filename = name;
    source = source;
    read_stdin = s.read_stdin;
    bandwidth = s.bandwidth;
    transmission_id = s.transmission_id;
  };
  mode = s.mode;
  key_file = key_bytes e s.key_file;
}

-- Only the file mode, and a message from standard input, have a source, and only the file mode has
-- a name.
unfoldable pub job_of : Surroundings → Settings → Option Job
unfolding job_with
job_of e s =
    let named : Option Job = elim (file_io e s) [
      | none ↦ none
      | some (name, source) ↦ some (job_with e s name source)
    ] in
    let text = job_with e s [] (if s.read_stdin then some e.stdin else none) in
    if is_file_mode s.mode then named else some text

pub data Exit : Type 0 where
  code : ℕ → Exit
  aborted undefined_behaviour : Exit

module _ (K : Kernel) (C : CryptoLib) where
  -- The network: what `connect` and `close` answer. `memory`, `buffer` and `rng` are what the
  -- protocol handler finds.
  pub record Network : Type 0 where
    pub connect : ℕ → ℕ → Option K.World
    pub close_fails : Bool
    pub memory : Keys
    pub buffer : Bytes
    pub rng : C.Rng

  -- `selectProtocolHandler`, and `close`.
  unfoldable pub run_transfer : Surroundings → Network → Settings → K.World → Exit
  run_transfer e net s w = elim (job_of e s) [
    | none ↦ undefined_behaviour
    | some j ↦ elim (protocol_handler K C j empty_ctrl net.memory net.buffer net.rng w) [
      | none ↦ undefined_behaviour
      | some (c, s') ↦ if c.error then code 1 else if net.close_fails then code 1 else code 0
    ]
  ]

  unfoldable pub main : Surroundings → Network → List Bytes → Exit
  unfolding run_transfer
  main e net argv = elim (start argv) [
    | ends n ↦ code n
    | aborts ↦ aborted
    | undefined ↦ undefined_behaviour
    | connects ip port s ↦ elim (net.connect ip port) [
      | none ↦ code 1
      | some w ↦ run_transfer e net s w
    ]
  ]
