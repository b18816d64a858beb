-- ===== src/Server/Command.antt =====
-- The command line of the server: `Parameter` of src/xcd_protocol_handler.hpp, `parseArgs` and
-- `checkArgsPlausibility` of src/xcd.cpp.
pub mod Reads
use xchange.Prelude.{
  ℕ, Bool, true, false, not, ◌&&◌, ◌||◌, Option, none, some, List, [], ◌∷◌, Bytes, length, eqb,
  codes, ◌==◌, if◌then◌else◌,
}
use xchange.Wire.{sv_none, security_version_vec}
use xchange.Tool.Number.{address, exits, throws, ip_from_str, server_port}

-- `Parameter`
pub record Parameter : Type 0 where
  pub out_dir : Bytes
  pub msg_out_file : Bytes
  pub log_file : Bytes
  pub key_file : Bytes
  pub encryption_white_list : Bytes
  pub sv : ℕ
  pub allowed_encryption_vec : List ℕ
  pub ip : ℕ
  pub port : ℕ
  pub help : Bool
  pub version : Bool

-- INADDR_ANY is 0.
abbrev pub default_parameter : Parameter
default_parameter = record {
  out_dir = [];
  msg_out_file = [];
  log_file = [];
  key_file = [];
  encryption_white_list = [];
  sv = sv_none;
  allowed_encryption_vec = security_version_vec;
  ip = 0;
  port = 9009;
  help = false;
  version = false;
}

pub data Field : Type 0 where
  ip_field port_field dir_field msg_field log_field whitelist_field key_field : Field

pub data ArgKind : Type 0 where
  takes : Field → ArgKind
  help_flag version_flag other : ArgKind

unfoldable pub arg_kind : Bytes → ArgKind
arg_kind arg =
    if eqb arg (codes "-i")
    then takes ip_field
    else if eqb arg (codes "-p")
    then takes port_field
    else if eqb arg (codes "-o")
    then takes dir_field
    else if eqb arg (codes "-m")
    then takes msg_field
    else if eqb arg (codes "-e")
    then takes log_field
    else if eqb arg (codes "--whitelist")
    then takes whitelist_field
    else if eqb arg (codes "-k") || eqb arg (codes "--key")
    then takes key_field
    else if eqb arg (codes "-h")
    then help_flag
    else if eqb arg (codes "-v")
    then version_flag
    else other

-- How `parseArgs` ends: it returns 0 or 1, or `getPort` or `ip_from_str` end the program, or an
-- exception is thrown that nothing catches, or a null pointer is read.
pub data Parse : Type 0 where
  parsed : Parameter → Parse
  refused exits_one uncaught null_pointer : Parse

-- An option at the end of `argv`: only -k is tested.
unfoldable pub missing : Field → Parse
missing key_field = refused
missing field = null_pointer

-- `params.<field> = argv[i]`
unfoldable pub store : Field → Bytes → Parameter → Parse
store ip_field v p = elim (ip_from_str v) [
  | address ip ↦ parsed (record p { ip = ip })
  | exits ↦ exits_one
  | throws ↦ uncaught
]
store port_field v p = elim (server_port v) [
  | none ↦ exits_one
  | some port ↦ parsed (record p { port = port })
]
store dir_field v p = parsed (record p { out_dir = v })
store msg_field v p = parsed (record p { msg_out_file = v })
store log_field v p = parsed (record p { log_file = v })
store whitelist_field v p = parsed (record p { encryption_white_list = v })
store key_field v p = parsed (record p { key_file = v })

-- The loop over `argv[i:]`, with the option that waits for its argument.
unfoldable pub parse_loop : List Bytes → Option Field → Parameter → Parse
parse_loop [] none p = parsed p
parse_loop [] (some field) p = missing field
parse_loop (v ∷ rest) (some field) p = elim (store field v p) [
  | parsed p' ↦ parse_loop rest none p'
  | failure ↦ failure
]
parse_loop (arg ∷ rest) none p = elim (arg_kind arg) [
  | takes field ↦ parse_loop rest (some field) p
  | help_flag ↦ parsed (record p { help = true })
  | version_flag ↦ parsed (record p { version = true })
  | other ↦ refused
]

-- `parseArgs`; without arguments it refuses.
unfoldable pub parse_args : List Bytes → Parse
unfolding parse_loop
parse_args [] = refused
parse_args (arg ∷ rest) = parse_loop (arg ∷ rest) none default_parameter

-- `checkArgsPlausibility`: whether it returns 0.
unfoldable pub plausible : Parameter → Bool
plausible p = not (length p.msg_out_file == 0 && length p.out_dir == 0)
