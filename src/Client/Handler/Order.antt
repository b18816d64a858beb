-- ===== src/Client/Handler/Order.antt =====
-- What stands behind a success of `ctrl_loop` in src/xcc_protocol_handler.hpp.
use xchange.Prelude.{
  ℕ, zero, suc, ◌≡◌, ◌⊎◌, refl, sym, ap, subst, ◌∙◌, arith, true, false, some, inl, inr, Bool-cases,
}
use xchange.Sio.{Kernel}
use xchange.Crypto.{CryptoLib}
use xchange.SocketIo.{Session}
use xchange.SocketIo.Receive.{get_ack_from_socket}
use xchange.SocketIo.Send.{enc_read_key_from_file}
use xchange.Client.Handler.{
  State, get_type, set_chacha20_key, send_init_ctrl_frame, rcv_init_ack, send_data, rcv_final_ack,
  stop_client, Job, Control, ctrl_rounds, send_ctrl_frame, send, ctrl_step, ctrl_loop,
}
use xchange.Client.Handler.Ends.{loop_round, ctrl_loop-stops}
use xchange.Client.Handler.Left.{
  Failed, type_left, key_left, ctrl_left, ack_left, data_left, last_left, stop_left,
}

module _ (K : Kernel) (C : CryptoLib) (j : Job) where
  abbrev St : Type 0
  St = Session C.Rng K.World

  -- The key file is read if the transfer is encrypted.
  abbrev pub Keyed : St → St → Type 0
  Keyed s t =
      ((s.manager.encrypted ≡ false) × (t ≡ s))
      ⊎ ((s.manager.encrypted ≡ true) × (enc_read_key_from_file K C j.key_file s ≡ some (true, t)))

  -- The calls of a transfer that has gone well, each on what the one before has left.
  pub record Confirmed (from to : St) : Type 0 where
    pub with_key : St
    pub opened : St
    pub admitted : St
    pub sent : St
    pub key : Keyed from with_key
    pub ctrl : send_ctrl_frame K C j with_key ≡ some (true, opened)
    pub first_ack : get_ack_from_socket K C opened ≡ some (0, admitted)
    pub content : send K C j admitted ≡ some (true, sent)
    pub final_ack : get_ack_from_socket K C sent ≡ some (0, to)

  -- The calls that have gone well so far.
  abbrev Opened : St → St → Type 0
  Opened s t =
      (with_key : St) × Keyed s with_key × (send_ctrl_frame K C j with_key ≡ some (true, t))

  abbrev Admitted : St → St → Type 0
  Admitted s t = (opened : St) × Opened s opened × (get_ack_from_socket K C opened ≡ some (0, t))

  abbrev Delivered : St → St → Type 0
  Delivered s t = (admitted : St) × Admitted s admitted × (send K C j admitted ≡ some (true, t))

  -- What is known in a state.
  abbrev Known : St → State → St → Type 0
  Known s get_type t = t ≡ s
  Known s set_chacha20_key t = (t ≡ s) × (s.manager.encrypted ≡ true)
  Known s send_init_ctrl_frame t = Keyed s t
  Known s rcv_init_ack t = Opened s t
  Known s send_data t = Admitted s t
  Known s rcv_final_ack t = Delivered s t
  Known s stop_client t = Unit {0}

  -- The loop goes on with what is known, or has stopped with an error or confirmed.
  abbrev Before : St → State → Control → St → Type 0
  Before s stop_client c t = (c.error ≡ true) ⊎ Confirmed s t
  Before s state c t = (c.running ≡ true) × Known s state t

  at_state : (s t : St) (c : Control) (x y : State) → y ≡ x → Before s x c t → Before s y c t
  at_state s t c x y e b = subst (λ z. Before s z c t) (sym e) b

  give_up : (s t : St) (c : Control) → Failed K C j c → Before s c.state c t
  give_up s t c f = at_state s t c stop_client c.state f.0 (inl f.1)

  -- A pass that the loop makes.
  Before-step :
      (s t t' : St) (c c' : Control) (state : State)
      → c.state ≡ state
      → c.running ≡ true
      → Before s state c t
      → ctrl_step K C j state c t ≡ some (c', t')
      → Before s c'.state c' t'
  Before-step s t t' c c' get_type at on b e =
      let (same, run, next) = type_left K C j c c' t t' e in
      let all = same ∙ b.1 in
      let start = ap (λ u. u.manager.encrypted) (sym b.1) in
      elim next [
        | inl (key, sealed) ↦
            at_state s t' c' set_chacha20_key c'.state key (run ∙ on, (all, start ∙ sealed))
        | inr (inl (open_, plain)) ↦
            at_state s t' c' send_init_ctrl_frame c'.state open_
              (run ∙ on, inl (start ∙ plain, all))
        | inr (inr bad) ↦ give_up s t' c' bad
      ]
  Before-step s t t' c c' set_chacha20_key at on b e =
      let (run, next) = key_left K C j c c' t t' e in
      elim next [
        | inl (good, key) ↦
            at_state s t' c' send_init_ctrl_frame c'.state good
              (run ∙ on, inr (b.1.1, ap (enc_read_key_from_file K C j.key_file) (sym b.1.0) ∙ key))
        | inr bad ↦ give_up s t' c' bad
      ]
  Before-step s t t' c c' send_init_ctrl_frame at on b e =
      let (run, next) = ctrl_left K C j c c' t t' e in
      elim next [
        | inl (good, ctrl) ↦ at_state s t' c' rcv_init_ack c'.state good (run ∙ on, (t, b.1, ctrl))
        | inr bad ↦ give_up s t' c' bad
      ]
  Before-step s t t' c c' rcv_init_ack at on b e =
      let (run, next) = ack_left K C j c c' t t' e in
      elim next [
        | inl (good, ack) ↦ at_state s t' c' send_data c'.state good (run ∙ on, (t, b.1, ack))
        | inr bad ↦ give_up s t' c' bad
      ]
  Before-step s t t' c c' send_data at on b e =
      let (run, next) = data_left K C j c c' t t' e in
      elim next [
        | inl (good, sent) ↦ at_state s t' c' rcv_final_ack c'.state good (run ∙ on, (t, b.1, sent))
        | inr bad ↦ give_up s t' c' bad
      ]
  Before-step s t t' c c' rcv_final_ack at on
        (run, (admitted, (opened, (with_key, keyed, ctrl), first), sent)) e =
      let (stop, next) = last_left K C j c c' t t' e in
      at_state s t' c' stop_client c'.state stop (elim next [
        | inl last ↦ inr (record {
          with_key = with_key;
          opened = opened;
          admitted = admitted;
          sent = t;
          key = keyed;
          ctrl = ctrl;
          first_ack = first;
          content = sent;
          final_ack = last;
        })
        | inr bad ↦ inl bad
      ])
  Before-step s t t' c c' stop_client at on b e =
      let (same, state, error) = stop_left K C j c c' t t' e in
      at_state s t' c' stop_client c'.state (state ∙ at) (
        subst (λ u. (c'.error ≡ true) ⊎ Confirmed s u) (sym same)
          (elim b [ inl bad ↦ inl (error ∙ bad) | inr good ↦ inr good ]))

  loop_off :
      (fuel : ℕ) (c c' : Control) (t t' : St)
      → c.running ≡ false
      → ctrl_loop K C fuel j c t ≡ some (c', t')
      → (c ≡ c') × (t ≡ t')
  unfolding ctrl_loop
  loop_off zero c c' t t' off e = ground (arith, e)
  loop_off (suc fuel) c c' t t' off e = ground (arith, off, e)

  loop_out :
      (c c' : Control) (t t' : St) → ctrl_loop K C zero j c t ≡ some (c', t') → (c ≡ c') × (t ≡ t')
  unfolding ctrl_loop
  loop_out c c' t t' e = ground (arith, e)

  moved :
      (s t t' : St) (c c' : Control)
      → (c ≡ c') × (t ≡ t')
      → Before s c.state c t
      → Before s c'.state c' t'
  moved s t t' c c' (same, eq) b =
      subst (λ d. Before s d.state d t') same (subst (λ u. Before s c.state c u) eq b)

  ctrl_loop-Before :
      (fuel : ℕ) (s t t' : St) (c c' : Control)
      → Before s c.state c t
      → ctrl_loop K C fuel j c t ≡ some (c', t')
      → Before s c'.state c' t'
  ctrl_loop-Before zero s t t' c c' b e = moved s t t' c c' (loop_out c c' t t' e) b
  ctrl_loop-Before (suc fuel) s t t' c c' b e = elim (Bool-cases c.running) [
    | inl on ↦
        let (c1, t1, step, rest) = loop_round K C j fuel c t (c', t') on e in
        ctrl_loop-Before fuel s t1 t' c1 c' (Before-step s t t1 c c1 c.state refl on b step) rest
    | inr off ↦ moved s t t' c c' (loop_off (suc fuel) c c' t t' off e) b
  ]

  -- A loop that is left has stopped.
  stopped :
      (s t : St) (c : Control) (state : State)
      → c.running ≡ false
      → Before s state c t
      → (c.error ≡ true) ⊎ Confirmed s t
  stopped s t c get_type off b = cc
  stopped s t c set_chacha20_key off b = cc
  stopped s t c send_init_ctrl_frame off b = cc
  stopped s t c rcv_init_ack off b = cc
  stopped s t c send_data off b = cc
  stopped s t c rcv_final_ack off b = cc
  stopped s t c stop_client off b = b

  abbrev pub at_start : Control
  at_start = record { state = get_type; error = false; running = true }

  -- However the calls of the client's handler end: if its loop ends, it has the error set, or from
  -- the start on, each on what the one before has left, the key file was read (if the transfer is
  -- encrypted), the control frame was sent, an ACK without an error has come, the message or the
  -- file was sent, and a second ACK without an error has come.
  pub ctrl_loop-Confirmed :
      (s t : St) (c : Control)
      → ctrl_loop K C ctrl_rounds j at_start s ≡ some (c, t)
      → (c.error ≡ true) ⊎ Confirmed s t
  ctrl_loop-Confirmed s t c e =
      stopped s t c c.state (ctrl_loop-stops K C j at_start c s t e)
        (ctrl_loop-Before ctrl_rounds s s t at_start c (refl, refl) e)
