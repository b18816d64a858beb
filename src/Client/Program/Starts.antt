-- ===== src/Client/Program/Starts.antt =====
-- What a command line that is accepted gives the transfer.
use xchange.Prelude.{
  ℕ, ◌≤◌, ◌<◌, ◌≡◌, ◌⊎◌, refl, subst, arith, true, false, ◌||◌, none, some, List, Bytes, length,
  inl, inr, Option-cases, Bool-cases,
}
use xchange.Tool.Number.{client_port, ip_from_str, address}
use xchange.Tool.Text.{selection_to_sec_version}
use xchange.Server.Admission.{pro_version_lookup}
use xchange.Client.Protocol.{TransferMode, mode_file, mode_text, mode_none}
use xchange.Client.Command.{
  CliArgs, default_args, parse_loop, is_empty, check_args, coherent, set_security_version,
}
use xchange.Client.Program.{
  Settings, connects, bandwidth_of, mode_of, settings_of, prepare, start_args, start,
}

-- The text or the path that the mode needs.
abbrev pub Supplied : TransferMode → Settings → Type 0
Supplied mode_file s = (path : Bytes) × (s.file_path ≡ some path) × (0 < length path)
Supplied mode_text s =
    (s.read_stdin ≡ true) ⊎ ((text : Bytes) × (s.msg ≡ some text) × (0 < length text))
Supplied mode_none s = Unit {0}

-- The settings of a transfer that runs without a null pointer, on a port, with a known version.
pub record Runnable (port : ℕ) (s : Settings) : Type 0 where
  pub port_number : port < 65536
  pub known : (0 < s.sec_ver) × (s.sec_ver < 5) × (pro_version_lookup s.sec_ver ≡ some s.pv)
  pub key : (s.sec_ver ≡ 1) ⊎ (0 < length s.key_file)
  pub bandwidth : (s.bandwidth ≡ 0) ⊎ (1460 ≤ s.bandwidth)
  pub supplied : Supplied s.mode s
  pub transmission_id : s.transmission_id ≡ 1

port_small : (text : Bytes) (port : ℕ) → client_port text ≡ some port → port < 65536
unfolding client_port
port_small text port e = ground arith

bandwidth_enough : (text : Bytes) (b : ℕ) → bandwidth_of text ≡ some b → (b ≡ 0) ⊎ (1460 ≤ b)
unfolding bandwidth_of
bandwidth_enough text b e = ground arith

version_known :
    (a : CliArgs) (sv pv : ℕ)
    → set_security_version a ≡ some (sv, pv)
    → (0 < sv)
      × (sv < 5)
      × (pro_version_lookup sv ≡ some pv)
      × ((sv ≡ 1) ⊎ (is_empty a.encryption_mode ≡ false))
unfolding set_security_version selection_to_sec_version pro_version_lookup
version_known a sv pv e = elim (Bool-cases (is_empty a.encryption_mode)) [
  | inl plain ↦ (ground arith, ground arith, ground arith, inl (ground arith))
  | inr chosen ↦ (ground arith, ground arith, ground arith, inr chosen)
]

-- What the tests of `parseArgs` leave.
accepted-coherent :
    (a : CliArgs)
    → check_args a ≡ some true
    → a.help ≡ false
    → a.version ≡ false
    → coherent a ≡ true
unfolding check_args
accepted-coherent a e h v = ground arith

file_given :
    (a : CliArgs) (sv pv b : ℕ)
    → coherent a ≡ true
    → mode_of a ≡ mode_file
    → (path : Bytes) × ((settings_of a sv pv b).file_path ≡ some path) × (0 < length path)
unfolding coherent mode_of settings_of
file_given a sv pv b c m = elim (Bool-cases a.read_stdin) [
  | inl e ↦ (a.name, ground arith, ground arith)
  | inr e ↦ (a.outfile, ground arith, ground arith)
]

message_given :
    (a : CliArgs) (sv pv b : ℕ)
    → mode_of a ≡ mode_text
    → a.read_stdin ≡ false
    → (text : Bytes) × ((settings_of a sv pv b).msg ≡ some text) × (0 < length text)
unfolding mode_of settings_of
message_given a sv pv b m e = (a.msg, ground arith, ground arith)

mode_of-Supplied :
    (a : CliArgs) (sv pv b : ℕ) (m : TransferMode)
    → coherent a ≡ true
    → mode_of a ≡ m
    → Supplied m (settings_of a sv pv b)
unfolding settings_of
mode_of-Supplied a sv pv b mode_file c e = file_given a sv pv b c e
mode_of-Supplied a sv pv b mode_text c e = elim (Bool-cases a.read_stdin) [
  | inl stdin ↦ inl stdin
  | inr given ↦ inr (message_given a sv pv b e given)
]
mode_of-Supplied a sv pv b mode_none c e = tt

key_given :
    (a : CliArgs) → coherent a ≡ true → is_empty a.encryption_mode ≡ false → 0 < length a.key_file
unfolding coherent
key_given a c e = ground arith

settings_of-Runnable :
    (a : CliArgs) (port sv pv b : ℕ)
    → coherent a ≡ true
    → client_port a.port ≡ some port
    → bandwidth_of a.bandwidth ≡ some b
    → set_security_version a ≡ some (sv, pv)
    → Runnable port (settings_of a sv pv b)
unfolding settings_of
settings_of-Runnable a port sv pv b c p e v =
    let (lo, hi, table, used) = version_known a sv pv v in
    record {
      port_number = port_small a.port port p;
      known = (lo, hi, table);
      key = elim used [ inl plain ↦ inl plain | inr chosen ↦ inr (key_given a c chosen) ];
      bandwidth = bandwidth_enough a.bandwidth b e;
      supplied = mode_of-Supplied a sv pv b (mode_of a) c refl;
      transmission_id = refl;
    }

-- The stages of `main` before the socket.
prepare-connects :
    (a : CliArgs) (ip port : ℕ) (s : Settings)
    → prepare a ≡ connects ip port s
    → (sv : ℕ) × (pv : ℕ) × (b : ℕ) × (client_port a.port ≡ some port)
      × (bandwidth_of a.bandwidth ≡ some b)
      × (set_security_version a ≡ some (sv, pv))
      × (ip_from_str a.server_ip ≡ address ip)
      × (settings_of a sv pv b ≡ s)
unfolding prepare
prepare-connects a ip port s e = elim (Option-cases (bandwidth_of a.bandwidth)) [
  | inl q ↦ absurd (ground arith)
  | inr (b, q) ↦ elim (Option-cases (set_security_version a)) [
    | inl r ↦ absurd (ground arith)
    | inr (v, r) ↦ (v.0, v.1, b, ground arith, q, ground arith, ground arith, ground arith)
  ]
]

start-connects :
    (argv : List Bytes) (ip port : ℕ) (s : Settings)
    → start argv ≡ connects ip port s
    → (a : CliArgs) × (parse_loop argv none default_args ≡ some a)
      × (coherent a ≡ true)
      × (prepare a ≡ connects ip port s)
unfolding start start_args
start-connects argv ip port s e = elim (Option-cases (parse_loop argv none default_args)) [
  | inl p ↦ absurd (ground arith)
  | inr (a, p) ↦ elim (Bool-cases (a.help || a.version)) [
    | inl stop ↦ absurd (ground arith)
    | inr go ↦
        let ok : check_args a ≡ some true = ground arith in
        (a, p, accepted-coherent a ok (ground arith) (ground arith), ground arith)
  ]
]

-- If the command line makes `main` connect, then the port fits 16 bits, the security version is one
-- of the four with its protocol version, an encrypted transfer has a key file, the bandwidth is not
-- limited or at least 1460, the transmission id is 1, the file mode has a path and a message that
-- does not come from standard input has a text: no null pointer is read.
pub start-Runnable :
    (argv : List Bytes) (ip port : ℕ) (s : Settings)
    → start argv ≡ connects ip port s
    → Runnable port s
start-Runnable argv ip port s e =
    let (a, parsed, ok, prepared) = start-connects argv ip port s e in
    let (sv, pv, b, p, q, v, i, same) = prepare-connects a ip port s prepared in
    subst (Runnable port) same (settings_of-Runnable a port sv pv b ok p q v)
