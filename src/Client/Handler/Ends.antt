-- ===== src/Client/Handler/Ends.antt =====
-- The rounds of `ctrl_loop` of src/xcc_protocol_handler.hpp.
use xchange.Prelude.{
  ℕ, zero, suc, ◌≤◌, ◌<◌, ◌≡◌, ◌⊎◌, inl, inr, refl, arith, Bool, true, false, Option, none, some,
  Bool-cases, if◌then◌else◌,
}
use xchange.Sio.{Kernel}
use xchange.Crypto.{CryptoLib}
use xchange.SocketIo.{Session}
use xchange.Client.Handler.{
  State, get_type, set_chacha20_key, send_init_ctrl_frame, rcv_init_ack, send_data, rcv_final_ack,
  stop_client, Job, Control, ctrl_rounds, send_ctrl_frame, send, ctrl_step, ctrl_loop,
}

-- The passes that are left in a state.
abbrev left : State → ℕ
left get_type = 6
left set_chacha20_key = 5
left send_init_ctrl_frame = 4
left rcv_init_ack = 3
left send_data = 2
left rcv_final_ack = 1
left stop_client = 1

left-le : (state : State) → left state ≤ 7
left-le get_type = omega arith
left-le set_chacha20_key = omega arith
left-le send_init_ctrl_frame = omega arith
left-le rcv_init_ack = omega arith
left-le send_data = omega arith
left-le rcv_final_ack = omega arith
left-le stop_client = omega arith

left-pos : (state : State) → 0 < left state
left-pos get_type = omega arith
left-pos set_chacha20_key = omega arith
left-pos send_init_ctrl_frame = omega arith
left-pos rcv_init_ack = omega arith
left-pos send_data = omega arith
left-pos rcv_final_ack = omega arith
left-pos stop_client = omega arith

module _ (K : Kernel) (C : CryptoLib) (j : Job) where
  abbrev St : Type 0
  St = Session C.Rng K.World

  ctrl_step-left :
      (state : State) (c c' : Control) (s s' : St)
      → ctrl_step K C j state c s ≡ some (c', s')
      → (left c'.state < left state) ⊎ (c'.running ≡ false)
  unfolding ctrl_step send_ctrl_frame send
  ctrl_step-left get_type c c' s s' e = ground arith
  ctrl_step-left set_chacha20_key c c' s s' e = ground arith
  ctrl_step-left send_init_ctrl_frame c c' s s' e = ground arith
  ctrl_step-left rcv_init_ack c c' s s' e = ground arith
  ctrl_step-left send_data c c' s s' e = ground arith
  ctrl_step-left rcv_final_ack c c' s s' e = ground arith
  ctrl_step-left stop_client c c' s s' e = ground arith

  -- A pass of the loop that does not fail, with the rest of the loop.
  pub loop_round :
      (fuel : ℕ) (c : Control) (s : St) (r : Control × St)
      → c.running ≡ true
      → ctrl_loop K C (suc fuel) j c s ≡ some r
      → (c1 : Control) × (s1 : St) × (ctrl_step K C j c.state c s ≡ some (c1, s1))
        × (ctrl_loop K C fuel j c1 s1 ≡ some r)
  unfolding ctrl_loop
  loop_round fuel c s r on e = passed (ctrl_step K C j c.state c s) (taken c.running _ _ on e)
    where
      taken :
          (b : Bool) (x y : Option (Control × St))
          → b ≡ true
          → (if b then x else y) ≡ some r
          → x ≡ some r
      taken b x y on e = ground arith

      passed :
          (m : Option (Control × St))
          → (elim m [ none ↦ none | some (c', s') ↦ ctrl_loop K C fuel j c' s' ]) ≡ some r
          → (c1 : Control) × (s1 : St) × (m ≡ some (c1, s1)) × (ctrl_loop K C fuel j c1 s1 ≡ some r)
      passed none e = cc
      passed (some (c1, s1)) e = (c1, s1, refl, e)

  loop_stopped :
      (fuel : ℕ) (c c' : Control) (s s' : St)
      → c.running ≡ false
      → ctrl_loop K C fuel j c s ≡ some (c', s')
      → c'.running ≡ false
  unfolding ctrl_loop
  loop_stopped zero c c' s s' off e = ground arith
  loop_stopped (suc fuel) c c' s s' off e = ground arith

  ctrl_loop-stops_from :
      (fuel : ℕ) (c c' : Control) (s s' : St)
      → left c.state ≤ fuel
      → ctrl_loop K C fuel j c s ≡ some (c', s')
      → c'.running ≡ false
  ctrl_loop-stops_from zero c c' s s' h e = absurd (omega (arith, h, left-pos c.state))
  ctrl_loop-stops_from (suc fuel) c c' s s' h e = elim (Bool-cases c.running) [
    | inr off ↦ loop_stopped (suc fuel) c c' s s' off e
    | inl on ↦
        let (c1, s1, step, rest) = loop_round fuel c s (c', s') on e in
        elim (ctrl_step-left c.state c c1 s s1 step) [
          | inl less ↦ ctrl_loop-stops_from fuel c1 c' s1 s' (omega (arith, less, h)) rest
          | inr off ↦ loop_stopped fuel c1 c' s1 s' off rest
        ]
  ]

  -- Seven rounds are enough for the client's `ctrl_loop`: unless a pass runs into undefined
  -- behaviour, the loop has been left after them, from whatever state it starts and however its
  -- calls end.
  pub ctrl_loop-stops :
      (c c' : Control) (s s' : St)
      → ctrl_loop K C ctrl_rounds j c s ≡ some (c', s')
      → c'.running ≡ false
  ctrl_loop-stops c c' s s' e = ctrl_loop-stops_from 7 c c' s s' (left-le c.state) e
