-- ===== src/Server/Program/Agreement.antt =====
-- A client and a server, each started from its command line.
use xchange.Prelude.{
  ℕ, ◌<◌, ◌≡◌, sym, ap, ◌∙◌, arith, true, not, some, List, Bytes, bit_and, length, ◌==◌, inl, inr,
  if◌then◌else◌,
}
use xchange.Wire.{sv_plain, security_version_vec, flag_encrypted, flag_binary_transmission}
use xchange.Tool.Text.{split_encryption_whitelist}
use xchange.SocketIo.Send.{ctrl_frame_of}
use xchange.Client.Handler.{Job}
use xchange.Client.Program
use xchange.Client.Program.{Settings, Surroundings, is_file_mode, job_of}
use xchange.Client.Program.Total.{start-job_of}
use xchange.Server.Admission.{
  pro_version_lookup, listed, has_flag, ctrl_frame_valid, sec_version_lookup,
}
use xchange.Server.Admission.Whitelist.{client_frame_admission}
use xchange.Server.Command.{Parameter, parsed, parse_args}
use xchange.Server.Command.Reads.{Parse-cases, parse_args_keeps}
use xchange.Server.Program.{listens, start, start_parameter, fill_whitelist}

-- The versions that the whitelist option leaves; without it, all four.
abbrev pub allowed_by : Bytes → List ℕ
allowed_by text = if length text == 0 then security_version_vec else split_encryption_whitelist text

start-listens :
    (argv : List Bytes) (p : Parameter)
    → start argv ≡ listens p
    → (q : Parameter) × (parse_args argv ≡ parsed q) × (fill_whitelist q ≡ p)
unfolding start start_parameter
start-listens argv p e = elim (Parse-cases (parse_args argv)) [
  | inl (q, r) ↦ (q, r, ground (arith, r))
  | inr stop ↦ absurd (ground (arith, stop))
]

-- A server that listens has the whitelist of its option, or all four versions without it.
pub start-allowed_by :
    (argv : List Bytes) (p : Parameter)
    → start argv ≡ listens p
    → (p.allowed_encryption_vec ≡ allowed_by p.encryption_white_list) × (p.port < 65536)
unfolding fill_whitelist
start-allowed_by argv p e =
    let (q, parsed_q, filled) = start-listens argv p e in
    let (all, port) = parse_args_keeps argv q parsed_q in
    (ground (arith, filled, all), ground (arith, filled, port))

pub listed_default : (sv : ℕ) → 0 < sv → sv < 5 → listed sv security_version_vec ≡ true
unfolding listed
listed_default sv lo hi = ground arith

-- A client and a server that have started from their command lines, whatever these are: the client
-- has a job whose control frame the server admits exactly if its security version is on the
-- server's whitelist, or there is none; the server then runs that version, takes the transfer for
-- encrypted if the version is not the plain one, and for a file if the client sends one.
pub programs_agree :
    (e : Surroundings) (client server : List Bytes) (ip port : ℕ) (s : Settings) (p : Parameter)
    → ((path : Bytes) → 0 < length (e.absolute path))
    → Program.start client ≡ Program.connects ip port s
    → start server ≡ listens p
    → (j : Job) × (job_of e s ≡ some j)
      × (let c = ctrl_frame_of (not (s.sec_ver == sv_plain)) j.ctrl in
          (ctrl_frame_valid p.allowed_encryption_vec c ≡ (
            if length p.encryption_white_list == 0
            then true
            else listed s.sec_ver (split_encryption_whitelist p.encryption_white_list)))
          × (sec_version_lookup c.pv ≡ some s.sec_ver)
          × (has_flag c.flags flag_encrypted ≡ not (s.sec_ver == sv_plain))
          × ((bit_and c.flags flag_binary_transmission == 0) ≡ not (is_file_mode s.mode)))
programs_agree e client server ip port s p abs begun listening =
    let (j, made, carries, r) = start-job_of e client ip port s abs begun in
    let (allowed, small) = start-allowed_by server p listening in
    let known = r.known in
    let (valid, version, encrypted, binary) =
      client_frame_admission p.allowed_encryption_vec j.ctrl (not (s.sec_ver == sv_plain))
        (ground (arith, carries.sec_ver, known.0)) (ground (arith, carries.sec_ver, known.1))
        (ap pro_version_lookup carries.sec_ver ∙ known.2 ∙ ap some (sym carries.pv))
        (ground (arith, carries.ctrl_id, r.transmission_id)) in
    let all = listed_default s.sec_ver known.0 known.1 in
    (
      j,
      made,
      (
        ground (arith, valid, allowed, all, carries.sec_ver),
        version ∙ ap some carries.sec_ver,
        encrypted,
        binary ∙ ap not carries.is_file,
      ),
    )
