-- ===== src/Client/Command/Print.antt =====
-- Every setting of the client can be written as a command line.
use xchange.Prelude.{
  ◌≡◌, refl, subst, arith, Bool, true, false, none, List, [], ◌∷◌, ◌++◌, Bytes, codes,
  if◌then◌else◌,
}
use xchange.Client.Command.{CliArgs, default_args, arg_kind, store, parse_loop}

abbrev flag : Bool → List Bytes → List Bytes → List Bytes
flag on words rest = if on then words ++ rest else rest

-- The options in the order of the source, and what is behind them.
unfoldable pub command_line : CliArgs → List Bytes → List Bytes
command_line a rest =
    codes "-s"
    ∷ a.server_ip
    ∷ codes "--port"
    ∷ a.port
    ∷ codes "--message"
    ∷ a.msg
    ∷ codes "--encryption"
    ∷ a.encryption_mode
    ∷ codes "--key"
    ∷ a.key_file
    ∷ codes "--file"
    ∷ a.outfile
    ∷ codes "--bandwidth"
    ∷ a.bandwidth
    ∷ codes "--name"
    ∷ a.name
    ∷ codes "--whitelist"
    ∷ a.whitelist
    ∷ flag a.stats (codes "--stats" ∷ []) (
        flag a.progress (codes "--progress" ∷ [])
          (flag a.read_stdin (codes "--stdin" ∷ a.mode ∷ []) rest))

-- The arguments that a command line without -h and -v gives: the mode comes with `--stdin`.
pub record Plain (a : CliArgs) : Type 0 where
  pub no_help : a.help ≡ false
  pub no_version : a.version ≡ false
  pub no_mode : a.read_stdin ≡ false → a.mode ≡ []

-- Read in any state before them, the options set each field to its text, whatever the texts are.
parse_loop-fields :
    (ip port msg enc key file bw name wl mode : Bytes) (stats progress stdin : Bool)
    (rest : List Bytes)
    → let a : CliArgs = record {
      server_ip = ip;
      port = port;
      msg = msg;
      name = name;
      mode = if stdin then mode else [];
      outfile = file;
      bandwidth = bw;
      encryption_mode = enc;
      key_file = key;
      whitelist = wl;
      progress = progress;
      stats = stats;
      help = false;
      version = false;
      read_stdin = stdin;
    } in
      parse_loop (command_line a rest) none default_args ≡ parse_loop rest none a
unfolding parse_loop command_line arg_kind store
parse_loop-fields ip port msg enc key file bw name wl mode true true true rest = refl
parse_loop-fields ip port msg enc key file bw name wl mode true true false rest = refl
parse_loop-fields ip port msg enc key file bw name wl mode true false true rest = refl
parse_loop-fields ip port msg enc key file bw name wl mode true false false rest = refl
parse_loop-fields ip port msg enc key file bw name wl mode false true true rest = refl
parse_loop-fields ip port msg enc key file bw name wl mode false true false rest = refl
parse_loop-fields ip port msg enc key file bw name wl mode false false true rest = refl
parse_loop-fields ip port msg enc key file bw name wl mode false false false rest = refl

-- Any settings, also texts that begin with a dash or are empty, can be written on a command line:
-- `parseArgs` reads them back, and goes on with what stands behind them.
pub parse_loop-command_line :
    (a : CliArgs) (rest : List Bytes)
    → Plain a
    → parse_loop (command_line a rest) none default_args ≡ parse_loop rest none a
parse_loop-command_line a rest p =
    let full : CliArgs = record a {
      mode = if a.read_stdin then a.mode else [];
      help = false;
      version = false;
    } in
    let same : full ≡ a = ground (arith, p.no_help, p.no_version, p.no_mode) in
    subst (λ b. parse_loop (command_line b rest) none default_args ≡ parse_loop rest none b) same
      (parse_loop-fields a.server_ip a.port a.msg a.encryption_mode a.key_file a.outfile a.bandwidth
        a.name a.whitelist a.mode a.stats a.progress a.read_stdin rest)
