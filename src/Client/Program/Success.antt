-- ===== src/Client/Program/Success.antt =====
-- What the exit code 0 of `main` in src/xcc.cpp says.
use xchange.Prelude.{
  ℕ, ◌≡◌, sym, ◌∙◌, ap, arith, false, some, List, Bytes, inl, inr, Option-cases, Bool-cases,
}
use xchange.Wire.{CtrlFrame}
use xchange.Sio.{Kernel}
use xchange.Crypto.{CryptoLib, Keys}
use xchange.SocketIo.{Session, Manager, new_manager}
use xchange.Frame.{empty_ctrl}
use xchange.Client.Handler.{Job, Control, ctrl_rounds, ctrl_loop, protocol_handler}
use xchange.Client.Handler.Order.{Confirmed, at_start, ctrl_loop-Confirmed}
use xchange.Client.Program.{
  Surroundings, Settings, Network, code, connects, start, job_of, job_with, run_transfer, main,
}

job_of-sec_ver :
    (e : Surroundings) (s : Settings) (j : Job) → job_of e s ≡ some j → j.ctrl.sec_ver ≡ s.sec_ver
unfolding job_of job_with
job_of-sec_ver e s j made = ground (arith, made)

module _ (K : Kernel) (C : CryptoLib) where
  handler_ran :
      (j : Job) (cf : CtrlFrame) (memory : Keys) (buffer : Bytes) (rng : C.Rng) (w : K.World)
      (c : Control) (t : Session C.Rng K.World)
      → protocol_handler K C j cf memory buffer rng w ≡ some (c, t)
      → (m : Manager C.Rng) × (new_manager C j.ctrl.sec_ver cf memory buffer rng ≡ some m)
        × (ctrl_loop K C ctrl_rounds j (at_start K C j) (record { manager = m; world = w })
            ≡ some (c, t))
  unfolding protocol_handler
  handler_ran j cf memory buffer rng w c t e =
      elim (Option-cases (new_manager C j.ctrl.sec_ver cf memory buffer rng)) [
        | inl q ↦ absurd (ground (arith, q, e))
        | inr (m, q) ↦ (m, q, ground (arith, q, e))
      ]

  transfer_ran :
      (e : Surroundings) (net : Network K C) (s : Settings) (w : K.World)
      → run_transfer K C e net s w ≡ code 0
      → (j : Job) × (job_of e s ≡ some j)
        × (c : Control) × (t : Session C.Rng K.World) × (protocol_handler K C j empty_ctrl
              net.memory net.buffer net.rng w
            ≡ some (c, t))
        × (c.error ≡ false)
  unfolding run_transfer
  transfer_ran e net s w zero_ = elim (Option-cases (job_of e s)) [
    | inl q ↦ absurd (ground (arith, q, zero_))
    | inr (j, q) ↦
        elim (Option-cases (protocol_handler K C j empty_ctrl net.memory net.buffer net.rng w)) [
          | inl r ↦ absurd (ground (arith, q, r, zero_))
          | inr ((c, t), r) ↦ elim (Bool-cases c.error) [
            | inl bad ↦ absurd (ground (arith, q, r, bad, zero_))
            | inr good ↦ (j, q, c, t, r, good)
          ]
        ]
  ]

  main_ran :
      (e : Surroundings) (net : Network K C) (argv : List Bytes) (ip port : ℕ) (s : Settings)
      → start argv ≡ connects ip port s
      → main K C e net argv ≡ code 0
      → (w : K.World) × (net.connect ip port ≡ some w) × (run_transfer K C e net s w ≡ code 0)
  unfolding main
  main_ran e net argv ip port s begun zero_ = elim (Option-cases (net.connect ip port)) [
    | inl q ↦ absurd (ground (arith, begun, q, zero_))
    | inr (w, q) ↦ (w, q, ground (arith, begun, q, zero_))
  ]

  -- If a client that its command line makes connect exits with 0, then it has connected, and its
  -- handler has, each with success on what the one before has left, read the key file (if the
  -- transfer is encrypted), sent the control frame, got an ACK without an error, sent the message or
  -- the file, and got a second ACK without an error.
  pub main-Confirmed :
      (e : Surroundings) (net : Network K C) (argv : List Bytes) (ip port : ℕ) (s : Settings)
      → start argv ≡ connects ip port s
      → main K C e net argv ≡ code 0
      → (w : K.World) × (j : Job) × (m : Manager C.Rng) × (t : Session C.Rng K.World) × (net.connect
            ip port
          ≡ some w)
        × (job_of e s ≡ some j)
        × (new_manager C s.sec_ver empty_ctrl net.memory net.buffer net.rng ≡ some m)
        × Confirmed K C j (record { manager = m; world = w }) t
  main-Confirmed e net argv ip port s begun zero_ =
      let (w, connected, run) = main_ran e net argv ip port s begun zero_ in
      let (j, made, c, t, ran, good) = transfer_ran e net s w run in
      let (m, managed, loop) = handler_ran j empty_ctrl net.memory net.buffer net.rng w c t ran in
      let same : j.ctrl.sec_ver ≡ s.sec_ver = job_of-sec_ver e s j made in
      (
        w,
        j,
        m,
        t,
        connected,
        made,
        ap (λ v. new_manager C v empty_ctrl net.memory net.buffer net.rng) (sym same) ∙ managed,
        elim (ctrl_loop-Confirmed K C j (record { manager = m; world = w }) t c loop) [
          | inl bad ↦ absurd (ground (arith, good, bad))
          | inr ok ↦ ok
        ],
      )
