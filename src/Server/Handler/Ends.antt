-- ===== src/Server/Handler/Ends.antt =====
-- The rounds of `ctrl_loop` of src/xcd_protocol_handler.hpp.
use xchange.Prelude.{ℕ, zero, suc, ◌≤◌, ◌<◌, ◌≡◌, ◌∙◌, ◌⊎◌, refl, arith, Option, none, some}
use xchange.Wire.{CtrlFrame}
use xchange.Sio.{Kernel}
use xchange.Crypto.{CryptoLib}
use xchange.Server.Protocol.{Server, Params, connection_type}
use xchange.Server.Handler.{
  State, get_type, read_iv, read_key_file, accept_connection, rcv_data, final_ack, pm_close_conn,
  closed, Control, rank, ctrl_rounds, set_err_state, receive, ctrl_step, ctrl_loop,
}

module _ (K : Kernel) (C : CryptoLib) (p : Params) (cf : CtrlFrame) where
  abbrev St : Type 0
  St = Server C.Rng K.World

  ctrl_step-rank :
      (state : State) (c c' : Control) (s s' : St)
      → ctrl_step K C p cf state c s ≡ some (c', s')
      → c.state ≡ state
      → (rank c'.state < rank state) × (0 < rank state) ⊎ (c'.state ≡ closed)
  unfolding ctrl_step set_err_state receive connection_type
  ctrl_step-rank get_type c c' s s' e h = ground arith
  ctrl_step-rank read_iv c c' s s' e h = ground arith
  ctrl_step-rank read_key_file c c' s s' e h = ground arith
  ctrl_step-rank accept_connection c c' s s' e h = ground arith
  ctrl_step-rank rcv_data c c' s s' e h = ground arith
  ctrl_step-rank final_ack c c' s s' e h = ground arith
  ctrl_step-rank pm_close_conn c c' s s' e h = ground arith
  ctrl_step-rank closed c c' s s' e h = ground arith

  rank_zero : (state : State) → rank state ≡ 0 → state ≡ closed
  rank_zero get_type h = absurd (omega (arith, h))
  rank_zero read_iv h = absurd (omega (arith, h))
  rank_zero read_key_file h = absurd (omega (arith, h))
  rank_zero accept_connection h = absurd (omega (arith, h))
  rank_zero rcv_data h = absurd (omega (arith, h))
  rank_zero final_ack h = absurd (omega (arith, h))
  rank_zero pm_close_conn h = absurd (omega (arith, h))
  rank_zero closed h = refl

  rank-le : (state : State) → rank state ≤ 7
  rank-le get_type = omega arith
  rank-le read_iv = omega arith
  rank-le read_key_file = omega arith
  rank-le accept_connection = omega arith
  rank-le rcv_data = omega arith
  rank-le final_ack = omega arith
  rank-le pm_close_conn = omega arith
  rank-le closed = omega arith

  -- What a pass that does not fail hands on to the rest of the loop.
  pub passed :
      (m : Option (Control × St)) (rest : Control → St → Option (Control × St)) (r : Control × St)
      → (elim m [ none ↦ none | some (c, s) ↦ rest c s ]) ≡ some r
      → (c : Control) × (s : St) × (m ≡ some (c, s)) × (rest c s ≡ some r)
  passed none rest r e = cc
  passed (some (c, s)) rest r e = (c, s, refl, e)

  ctrl_loop-closed_from :
      (fuel : ℕ) (c c' : Control) (s s' : St)
      → rank c.state ≤ fuel
      → ctrl_loop K C fuel p cf c s ≡ some (c', s')
      → c'.state ≡ closed
  unfolding ctrl_loop
  ctrl_loop-closed_from zero c c' s s' h e =
      let start : c'.state ≡ c.state = ground arith in start ∙ rank_zero c.state (omega (arith, h))
  ctrl_loop-closed_from (suc fuel) c c' s s' h e =
      let (c1, s1, step, rest) =
        passed (ctrl_step K C p cf c.state c s) (λ c s. ctrl_loop K C fuel p cf c s) (c', s') e in
      let lower : rank c1.state ≤ fuel =
        ground (arith, ctrl_step-rank c.state c c1 s s1 step refl) in
      ctrl_loop-closed_from fuel c1 c' s1 s' lower rest

  -- Seven rounds are enough for the server's `ctrl_loop`: unless a pass runs into undefined
  -- behaviour, the loop has closed the connection after them, from whatever state it starts and
  -- however its calls end.
  pub ctrl_loop-closed :
      (c c' : Control) (s s' : St)
      → ctrl_loop K C ctrl_rounds p cf c s ≡ some (c', s')
      → c'.state ≡ closed
  ctrl_loop-closed c c' s s' e = ctrl_loop-closed_from 7 c c' s s' (rank-le c.state) e
