-- ===== src/Client/Command.antt =====
-- The command line of the client: `CliArgs`, `parseArgs` and `setSecurityVersion` of src/xcc.cpp.
pub mod Print
use xchange.Prelude.{
  ℕ, Bool, true, false, not, ◌&&◌, ◌||◌, Option, none, some, List, [], ◌∷◌, Bytes, length, eqb,
  bit_and, codes, ltb, ◌==◌, if◌then◌else◌,
}
use xchange.Wire.{sv_plain, pv_00_01, max_filename_length}
use xchange.Tool.Text.{filename_from_path, selection_to_sec_version}
use xchange.Server.Admission.{pro_version_lookup}

-- `CliArgs`
pub record CliArgs : Type 0 where
  pub server_ip : Bytes
  pub port : Bytes
  pub msg : Bytes
  pub name : Bytes
  pub mode : Bytes
  pub outfile : Bytes
  pub bandwidth : Bytes
  pub encryption_mode : Bytes
  pub key_file : Bytes
  pub whitelist : Bytes
  pub progress : Bool
  pub stats : Bool
  pub help : Bool
  pub version : Bool
  pub read_stdin : Bool

-- The port is `std::to_string(DEFAULT_PORT)`.
abbrev pub default_args : CliArgs
default_args = record {
  server_ip = [];
  port = codes "9009";
  msg = [];
  name = [];
  mode = [];
  outfile = [];
  bandwidth = [];
  encryption_mode = [];
  key_file = [];
  whitelist = [];
  progress = false;
  stats = false;
  help = false;
  version = false;
  read_stdin = false;
}

-- An option that takes the argument behind it.
pub data Field : Type 0 where
  ip_field port_field msg_field encryption_field key_field outfile_field bandwidth_field name_field
        mode_field whitelist_field :
      Field

-- What an argument is; one that is not known is passed over.
pub data ArgKind : Type 0 where
  takes : Field → ArgKind
  stats_flag progress_flag help_flag version_flag other : ArgKind

abbrev is_either : Bytes → Bytes → Bytes → Bool
is_either arg short long = eqb arg short || eqb arg long

unfoldable pub arg_kind : Bytes → ArgKind
arg_kind arg =
    if eqb arg (codes "-s")
    then takes ip_field
    else if is_either arg (codes "-p") (codes "--port")
    then takes port_field
    else if is_either arg (codes "-m") (codes "--message")
    then takes msg_field
    else if is_either arg (codes "-e") (codes "--encryption")
    then takes encryption_field
    else if is_either arg (codes "-k") (codes "--key")
    then takes key_field
    else if is_either arg (codes "-f") (codes "--file")
    then takes outfile_field
    else if is_either arg (codes "-S") (codes "--stats")
    then stats_flag
    else if is_either arg (codes "-P") (codes "--progress")
    then progress_flag
    else if is_either arg (codes "-b") (codes "--bandwidth")
    then takes bandwidth_field
    else if is_either arg (codes "-n") (codes "--name")
    then takes name_field
    else if eqb arg (codes "--stdin")
    then takes mode_field
    else if eqb arg (codes "--whitelist")
    then takes whitelist_field
    else if is_either arg (codes "-h") (codes "--help")
    then help_flag
    else if is_either arg (codes "-v") (codes "--version")
    then version_flag
    else other

-- `args.<field> = argv[i]`
unfoldable pub store : Field → Bytes → CliArgs → CliArgs
store ip_field v a = record a { server_ip = v }
store port_field v a = record a { port = v }
store msg_field v a = record a { msg = v }
store encryption_field v a = record a { encryption_mode = v }
store key_field v a = record a { key_file = v }
store outfile_field v a = record a { outfile = v }
store bandwidth_field v a = record a { bandwidth = v }
store name_field v a = record a { name = v }
store mode_field v a = record a { mode = v; read_stdin = true }
store whitelist_field v a = record a { whitelist = v }

-- The loop over `argv[i:]`, with the option that waits for its argument. At the end of `argv` the
-- option reads a null pointer.
unfoldable pub parse_loop : List Bytes → Option Field → CliArgs → Option CliArgs
parse_loop [] none a = some a
parse_loop [] (some field) a = none
parse_loop (v ∷ rest) (some field) a = parse_loop rest none (store field v a)
parse_loop (arg ∷ rest) none a = elim (arg_kind arg) [
  | takes field ↦ parse_loop rest (some field) a
  | stats_flag ↦ parse_loop rest none (record a { stats = true })
  | progress_flag ↦ parse_loop rest none (record a { progress = true })
  | help_flag ↦ some (record a { help = true })
  | version_flag ↦ some (record a { version = true })
  | other ↦ parse_loop rest none a
]

abbrev pub is_empty : Bytes → Bool
is_empty s = length s == 0

-- The name of the file is longer than the server takes. `back()` of no token is undefined.
unfoldable pub long_filename : Bytes → Option Bool
long_filename path =
    let too_long : Option Bool = elim (filename_from_path path) [
      | none ↦ none
      | some name ↦ some (ltb max_filename_length (length name))
    ] in
    if is_empty path then some false else too_long

-- The tests behind the loop: whether the arguments are accepted. The sizes of the name and of the
-- file are joined by `&`, not by `&&`.
unfoldable pub coherent : CliArgs → Bool
coherent a =
    if not (is_empty a.msg) && not (is_empty a.outfile)
    then false
    else if is_empty a.server_ip
    then false
    else if not (is_empty a.encryption_mode) && is_empty a.key_file
    then false
    else if not (bit_and (length a.name) (length a.outfile) == 0)
    then false
    else if a.read_stdin
    then if not (is_empty a.outfile)
      then false
      else if eqb a.mode (codes "file") && is_empty a.name
      then false
      else not (eqb a.mode (codes "message") && not (is_empty a.name))
    else true

-- `parseArgs` from the loop on: 0 is true, 1 is false.
unfoldable pub check_args : CliArgs → Option Bool
check_args a =
    let tests : Option Bool = elim (long_filename a.outfile) [
      | none ↦ none
      | some too_long ↦ if too_long then some false else some (coherent a)
    ] in
    if a.help then some true else if a.version then some true else tests

-- `setSecurityVersion`: the security version and the protocol version, or `none` where it
-- returns 1. An unknown name is put into the table as SV_NONE, and that as PV_NONE.
unfoldable pub set_security_version : CliArgs → Option (ℕ × ℕ)
set_security_version a =
    let selected : Option (ℕ × ℕ) = elim (selection_to_sec_version a.encryption_mode) [
      | none ↦ none
      | some sv ↦ elim (pro_version_lookup sv) [ none ↦ none | some pv ↦ some (sv, pv) ]
    ] in
    if is_empty a.encryption_mode then some (sv_plain, pv_00_01) else selected
