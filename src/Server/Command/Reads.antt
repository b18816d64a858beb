-- ===== src/Server/Command/Reads.antt =====
-- What the server's options set, and what they leave alone.
use xchange.Prelude.{
  ◌<◌, ◌≡◌, ◌⊎◌, inl, inr, refl, ap, ◌∙◌, arith, false, Option, none, some, List, [], ◌∷◌, Bytes,
  codes,
}
use xchange.Wire.{security_version_vec}
use xchange.Tool.Number.{address, ip_from_str, server_port}
use xchange.Server.Command.{
  Parameter, default_parameter, Field, Parse, parsed, refused, exits_one, uncaught, null_pointer,
  missing, ArgKind, takes, help_flag, version_flag, other, arg_kind, store, parse_loop, parse_args,
}

pub Parse-cases :
    (r : Parse)
    → ((q : Parameter) × (r ≡ parsed q))
      ⊎ ((r ≡ refused) ⊎ (r ≡ exits_one) ⊎ (r ≡ uncaught) ⊎ (r ≡ null_pointer))
Parse-cases (parsed p) = inl (p, refl)
Parse-cases refused = inr (inl refl)
Parse-cases exits_one = inr (inr (inl refl))
Parse-cases uncaught = inr (inr (inr (inl refl)))
Parse-cases null_pointer = inr (inr (inr (inr refl)))

store-allowed :
    (field : Field) (v : Bytes) (p q : Parameter)
    → store field v p ≡ parsed q
    → q.allowed_encryption_vec ≡ p.allowed_encryption_vec
unfolding store
store-allowed Field.ip_field v p q e = ground arith
store-allowed field v p q e = ground arith

Kind-cases :
    (k : ArgKind)
    → ((field : Field) × (k ≡ takes field)) ⊎ ((k ≡ help_flag) ⊎ (k ≡ version_flag) ⊎ (k ≡ other))
Kind-cases (takes field) = inl (field, refl)
Kind-cases help_flag = inr (inl refl)
Kind-cases version_flag = inr (inr (inl refl))
Kind-cases other = inr (inr (inr refl))

parse_loop-allowed :
    (argv : List Bytes) (waits : Option Field) (p q : Parameter)
    → parse_loop argv waits p ≡ parsed q
    → q.allowed_encryption_vec ≡ p.allowed_encryption_vec
unfolding parse_loop missing
parse_loop-allowed [] none p q e = ground arith
parse_loop-allowed [] (some field) p q e = ground arith
parse_loop-allowed (v ∷ rest) (some field) p q e = elim (Parse-cases (store field v p)) [
  | inr stop ↦ absurd (ground (arith, stop))
  | inl (p', s) ↦
      parse_loop-allowed rest none p' q (ground (arith, s)) ∙ store-allowed field v p p' s
]
parse_loop-allowed (arg ∷ rest) none p q e = elim (Kind-cases (arg_kind arg)) [
  | inl (field, k) ↦ parse_loop-allowed rest (some field) p q (ground (arith, k))
  | inr k ↦ ground (arith, k)
]

-- The port fits 16 bits.
store-port :
    (field : Field) (v : Bytes) (p q : Parameter)
    → store field v p ≡ parsed q
    → p.port < 65536
    → q.port < 65536
unfolding store server_port
store-port Field.ip_field v p q e h = ground arith
store-port field v p q e h = ground arith

parse_loop-port :
    (argv : List Bytes) (waits : Option Field) (p q : Parameter)
    → parse_loop argv waits p ≡ parsed q
    → p.port < 65536
    → q.port < 65536
unfolding parse_loop missing
parse_loop-port [] none p q e h = ground arith
parse_loop-port [] (some field) p q e h = ground arith
parse_loop-port (v ∷ rest) (some field) p q e h = elim (Parse-cases (store field v p)) [
  | inr stop ↦ absurd (ground (arith, stop))
  | inl (p', s) ↦ parse_loop-port rest none p' q (ground (arith, s)) (store-port field v p p' s h)
]
parse_loop-port (arg ∷ rest) none p q e h = elim (Kind-cases (arg_kind arg)) [
  | inl (field, k) ↦ parse_loop-port rest (some field) p q (ground (arith, k)) h
  | inr k ↦ ground (arith, k)
]

pub parse_args_keeps :
    (argv : List Bytes) (q : Parameter)
    → parse_args argv ≡ parsed q
    → (q.allowed_encryption_vec ≡ security_version_vec) × (q.port < 65536)
unfolding parse_args
parse_args_keeps [] q e = (cc, cc)
parse_args_keeps (arg ∷ rest) q e = (
  parse_loop-allowed (arg ∷ rest) none default_parameter q e,
  parse_loop-port (arg ∷ rest) none default_parameter q e (omega arith),
)

parse_loop_option :
    (arg v : Bytes) (field : Field) (rest : List Bytes) (p q : Parameter)
    → arg_kind arg ≡ takes field
    → store field v p ≡ parsed q
    → parse_loop (arg ∷ v ∷ rest) none p ≡ parse_loop rest none q
unfolding parse_loop
parse_loop_option arg v field rest p q k s = ground (arith, k, s)

-- The options in the order of the source, and what is behind them.
abbrev text_options : Parameter → List Bytes → List Bytes
text_options p rest =
    codes "-o"
    ∷ p.out_dir
    ∷ codes "-m"
    ∷ p.msg_out_file
    ∷ codes "-e"
    ∷ p.log_file
    ∷ codes "--whitelist"
    ∷ p.encryption_white_list
    ∷ codes "--key"
    ∷ p.key_file
    ∷ rest

abbrev pub command_line : Bytes → Bytes → Parameter → List Bytes → List Bytes
command_line ip port p rest = codes "-i" ∷ ip ∷ codes "-p" ∷ port ∷ text_options p rest

parse_loop_texts :
    (q p : Parameter) (rest : List Bytes)
    → parse_loop (text_options q rest) none p
      ≡ parse_loop rest none (record p {
        out_dir = q.out_dir;
        msg_out_file = q.msg_out_file;
        log_file = q.log_file;
        encryption_white_list = q.encryption_white_list;
        key_file = q.key_file;
      })
unfolding parse_loop arg_kind store
parse_loop_texts q p rest = refl

-- Any texts for the directory, the files and the whitelist, also those that begin with a dash or are
-- empty, and any texts for an address and a port that read as such, can be written on a command
-- line: `parseArgs` reads them back, and goes on with what stands behind them.
pub parse_args-command_line :
    (p : Parameter) (ip port : Bytes) (rest : List Bytes)
    → ip_from_str ip ≡ address p.ip
    → server_port port ≡ some p.port
    → p.sv ≡ 0
    → p.allowed_encryption_vec ≡ security_version_vec
    → p.help ≡ false
    → p.version ≡ false
    → parse_args (command_line ip port p rest) ≡ parse_loop rest none p
unfolding parse_args arg_kind
parse_args-command_line p ip port rest i o sv allowed help version =
    let at_ip : Parameter = record default_parameter { ip = p.ip } in
    let at_port : Parameter = record at_ip { port = p.port } in
    parse_loop_option (codes "-i") ip Field.ip_field (codes "-p" ∷ port ∷ text_options p rest)
      default_parameter at_ip refl (unfold store in (ground (arith, i)))
    ∙ parse_loop_option (codes "-p") port Field.port_field (text_options p rest) at_ip at_port refl
        (unfold store in (ground (arith, o)))
    ∙ parse_loop_texts p at_port rest
    ∙ ap (parse_loop rest none) (ground (arith, sv, allowed, help, version))
