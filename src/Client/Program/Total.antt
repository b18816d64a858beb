-- ===== src/Client/Program/Total.antt =====
-- A command line that makes the client connect gives the protocol handler a whole job.
use xchange.Prelude.{
  ℕ, ◌<◌, ◌≡◌, refl, ap, subst, arith, true, false, Option, none, some, List, [], Bytes, length,
  Bool-cases, inl, inr, if◌then◌else◌,
}
use xchange.Tool.Text.Name.{filename_from_path_total}
use xchange.Client.Protocol.{TransferMode, mode_file, mode_text, mode_none}
use xchange.Client.Handler.{Job}
use xchange.Client.Program.{
  Settings, Surroundings, connects, start, is_file_mode, file_io, job_with, job_of,
}
use xchange.Client.Program.Starts.{Supplied, Runnable, start-Runnable}

file_io_total :
    (e : Surroundings) (s : Settings) (path : Bytes)
    → ((p : Bytes) → 0 < length (e.absolute p))
    → s.file_path ≡ some path
    → (io : Bytes × Option Bytes) × (file_io e s ≡ some io)
unfolding file_io
file_io_total e s path abs given =
    let (name, found) = filename_from_path_total (e.absolute path) (abs path) in
    elim (Bool-cases s.read_stdin) [
      | inl stdin ↦ ((path, some e.stdin), ground (arith, given, stdin))
      | inr file ↦ ((name, e.contents (e.absolute path)), ground (arith, given, file, found))
    ]

-- The job that the settings give.
pub record Carries (s : Settings) (j : Job) : Type 0 where
  pub pv : j.ctrl.pv ≡ s.pv
  pub sec_ver : j.ctrl.sec_ver ≡ s.sec_ver
  pub ctrl_id : j.ctrl.transmission_id ≡ s.transmission_id
  pub transfer_id : j.transfer.transmission_id ≡ s.transmission_id
  pub is_file : j.ctrl.is_file ≡ is_file_mode s.mode
  pub mode : j.mode ≡ s.mode
  pub bandwidth : j.transfer.bandwidth ≡ s.bandwidth
  pub msg : j.transfer.msg ≡ s.msg
  pub read_stdin : j.transfer.read_stdin ≡ s.read_stdin

job_with-Carries :
    (e : Surroundings) (s : Settings) (name : Bytes) (source : Option Bytes)
    → Carries s (job_with e s name source)
unfolding job_with
job_with-Carries e s name source = record {
  pv = refl;
  sec_ver = refl;
  ctrl_id = refl;
  transfer_id = refl;
  is_file = refl;
  mode = refl;
  bandwidth = refl;
  msg = refl;
  read_stdin = refl;
}

job_of_text :
    (e : Surroundings) (s : Settings)
    → is_file_mode s.mode ≡ false
    → (j : Job) × (job_of e s ≡ some j) × Carries s j
unfolding job_of
job_of_text e s text =
    let source = if s.read_stdin then some e.stdin else none in
    (job_with e s [] source, rw text, job_with-Carries e s [] source)

pub job_of_named :
    (e : Surroundings) (s : Settings) (name : Bytes) (source : Option Bytes)
    → is_file_mode s.mode ≡ true
    → file_io e s ≡ some (name, source)
    → job_of e s ≡ some (job_with e s name source)
unfolding job_of
job_of_named e s name source file opened = ground (arith, file, opened)

job_of_total :
    (e : Surroundings) (port : ℕ) (s : Settings) (m : TransferMode)
    → ((p : Bytes) → 0 < length (e.absolute p))
    → s.mode ≡ m
    → Runnable port s
    → (j : Job) × (job_of e s ≡ some j) × Carries s j
job_of_total e port s mode_none abs same r = job_of_text e s (ap is_file_mode same)
job_of_total e port s mode_text abs same r = job_of_text e s (ap is_file_mode same)
job_of_total e port s mode_file abs same r =
    let (path, given, full) = subst (λ k. Supplied k s) same r.supplied in
    let (io, opened) = file_io_total e s path abs given in
    (
      job_with e s io.0 io.1,
      job_of_named e s io.0 io.1 (ap is_file_mode same) opened,
      job_with-Carries e s io.0 io.1,
    )

-- A command line that makes the client connect gives the protocol handler a job that carries its
-- settings, whatever files there are: `main` reads no null pointer on the way.
pub start-job_of :
    (e : Surroundings) (argv : List Bytes) (ip port : ℕ) (s : Settings)
    → ((p : Bytes) → 0 < length (e.absolute p))
    → start argv ≡ connects ip port s
    → (j : Job) × (job_of e s ≡ some j) × Carries s j × Runnable port s
start-job_of e argv ip port s abs h =
    let r = start-Runnable argv ip port s h in
    let (j, made, carries) = job_of_total e port s s.mode abs refl r in (j, made, carries, r)
