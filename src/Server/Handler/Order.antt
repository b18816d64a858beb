-- ===== src/Server/Handler/Order.antt =====
-- What has come before in `ctrl_loop` of src/xcd_protocol_handler.hpp: its passes as a relation.
use xchange.Prelude.{
  ℕ, zero, suc, ◌≡◌, refl, sym, subst, ◌∙◌, ap, ◌⊎◌, inl, inr, arith, true, false, some,
}
use xchange.Wire.{CtrlFrame, type_none}
use xchange.Sio.{Kernel}
use xchange.Crypto.{CryptoLib}
use xchange.SocketIo.{Session}
use xchange.SocketIo.Receive.{set_iv_from_socket}
use xchange.SocketIo.Send.{send_ack, dec_read_key_from_file}
use xchange.Server.Protocol.{Server, Params}
use xchange.Server.Handler.{
  State, get_type, read_iv, read_key_file, accept_connection, rcv_data, final_ack, pm_close_conn,
  closed, Control, is_encrypted, ctrl_step, ctrl_loop, ctrl_rounds,
}
use xchange.Server.Handler.Ends.{passed, ctrl_loop-closed}
use xchange.Server.Handler.Left.{
  Quiet, type_left, iv_left, key_left, ack_left, data_left, end_left, close_left, closed_left,
}

module _ (K : Kernel) (C : CryptoLib) (p : Params) (cf : CtrlFrame) where
  abbrev St : Type 0
  St = Server C.Rng K.World

  abbrev at_start : Control
  at_start = record { state = get_type; err = false; kind = type_none }

  -- The variables and the object that the passes from `s` on get to.
  pub data Passes (s : St) : Control → St → Type 0 where
    enter : Passes s at_start s
    pass :
        {c c' : Control} {t t' : St}
        → Passes s c t
        → ctrl_step K C p cf c.state c t ≡ some (c', t')
        → Passes s c' t'

  -- `SetIVFromSocket` has succeeded, and after it `DecReadKeyFromFile`.
  pub record Keyed (from to : Session C.Rng K.World) : Type 0 where
    pub with_iv : Session C.Rng K.World
    pub iv : set_iv_from_socket K C from ≡ some (true, with_iv)
    pub key : dec_read_key_from_file K C p.key_file with_iv ≡ some (true, to)

  -- A connection that has the keys, and has told the client with an ACK.
  pub record Confirmed (from to : Session C.Rng K.World) : Type 0 where
    pub with_key : Session C.Rng K.World
    pub keyed : Keyed from with_key
    pub ack : send_ack K C 0 with_key ≡ some (true, to)

  -- What came before any effect.
  abbrev pub Safe : St → St → Type 0
  Safe s t = Quiet K C s t ⊎ ((u : Session C.Rng K.World) × Confirmed s.session u)

  -- What is known in a state.
  abbrev Before : St → State → St → Type 0
  Before s get_type t = t ≡ s
  Before s read_iv t = t ≡ s
  Before s read_key_file t =
      Quiet K C s t × (set_iv_from_socket K C s.session ≡ some (true, t.session))
  Before s accept_connection t = Quiet K C s t × Keyed s.session t.session
  Before s rcv_data t = Quiet K C s t × Confirmed s.session t.session
  Before s final_ack t = Safe s t
  Before s pm_close_conn t = Safe s t
  Before s closed t = Safe s t

  Quiet-trans : (s t u : St) → Quiet K C s t → Quiet K C t u → Quiet K C s u
  Quiet-trans s t u a b = (b.0 ∙ a.0, b.1 ∙ a.1)

  Safe-Quiet : (s t u : St) → Safe s t → Quiet K C t u → Safe s u
  Safe-Quiet s t u (inl a) b = inl (Quiet-trans s t u a b)
  Safe-Quiet s t u (inr c) b = inr c

  at_state : (s t : St) (x y : State) → y ≡ x → Before s x t → Before s y t
  at_state s t x y e b = subst (λ z. Before s z t) (sym e) b

  Before-step :
      (s t t' : St) (c c' : Control) (state : State)
      → is_encrypted cf ≡ true
      → c.state ≡ state
      → Before s state t
      → ctrl_step K C p cf state c t ≡ some (c', t')
      → Before s c'.state t'
  Before-step s t t' c c' get_type sealed at b e =
      let (same, next) = type_left K C p cf c c' t t' sealed e in
      let all = same ∙ b in
      elim next [
        | inl good ↦ at_state s t' read_iv c'.state good all
        | inr bad ↦
            at_state s t' pm_close_conn c'.state bad
              (inl (ap (λ u. u.files) all, ap (λ u. u.printed) all))
      ]
  Before-step s t t' c c' read_iv sealed at b e =
      let (quiet, next) = iv_left K C p cf c c' t t' e in
      let all : Quiet K C s t' =
        Quiet-trans s t t' (ap (λ u. u.files) b, ap (λ u. u.printed) b) quiet in
      elim next [
        | inl (good, iv) ↦
            at_state s t' read_key_file c'.state good
              (all, ap (λ u. set_iv_from_socket K C u.session) (sym b) ∙ iv)
        | inr bad ↦ at_state s t' pm_close_conn c'.state bad (inl all)
      ]
  Before-step s t t' c c' read_key_file sealed at b e =
      let (quiet, next) = key_left K C p cf c c' t t' e in
      let all = Quiet-trans s t t' b.0 quiet in
      elim next [
        | inl (good, key) ↦
            at_state s t' accept_connection c'.state good
              (all, record { with_iv = t.session; iv = b.1; key = key })
        | inr bad ↦ at_state s t' pm_close_conn c'.state bad (inl all)
      ]
  Before-step s t t' c c' accept_connection sealed at b e =
      let (quiet, next) = ack_left K C p cf c c' t t' e in
      let all = Quiet-trans s t t' b.0 quiet in
      elim next [
        | inl (good, ack) ↦
            at_state s t' rcv_data c'.state good
              (all, record { with_key = t.session; keyed = b.1; ack = ack })
        | inr bad ↦ at_state s t' pm_close_conn c'.state bad (inl all)
      ]
  Before-step s t t' c c' rcv_data sealed at b e = elim (data_left K C p cf c c' t t' e) [
    | inl next ↦ at_state s t' final_ack c'.state next (inr (t.session, b.1))
    | inr bad ↦ at_state s t' pm_close_conn c'.state bad (inr (t.session, b.1))
  ]
  Before-step s t t' c c' final_ack sealed at b e =
      let (quiet, next) = end_left K C p cf c c' t t' e in
      at_state s t' pm_close_conn c'.state next (Safe-Quiet s t t' b quiet)
  Before-step s t t' c c' pm_close_conn sealed at b e =
      let (quiet, next) = close_left K C p cf c c' t t' e in
      at_state s t' closed c'.state next (Safe-Quiet s t t' b quiet)
  Before-step s t t' c c' closed sealed at b e =
      let (quiet, next) = closed_left K C p cf c c' t t' e in
      at_state s t' closed c'.state (next ∙ at) (Safe-Quiet s t t' b quiet)

  Passes-Before :
      {s t : St} {c : Control} → is_encrypted cf ≡ true → Passes s c t → Before s c.state t
  Passes-Before sealed enter = refl
  Passes-Before {s = s} {t = t'} {c = c'} sealed (pass {c = b} {t = t} before e) =
      Before-step s t t' b c' b.state sealed refl (Passes-Before sealed before) e

  -- `ctrl_loop` makes passes.
  ctrl_loop-Passes :
      (fuel : ℕ) (s t t' : St) (c c' : Control)
      → Passes s c t
      → ctrl_loop K C fuel p cf c t ≡ some (c', t')
      → Passes s c' t'
  unfolding ctrl_loop
  ctrl_loop-Passes zero s t t' c c' before e =
      let q : (c ≡ c') × (t ≡ t') = ground arith in
      subst (λ x. Passes s x t') q.0 (subst (λ u. Passes s c u) q.1 before)
  ctrl_loop-Passes (suc fuel) s t t' c c' before e =
      let (c1, t1, step, rest) =
        passed K C p cf (ctrl_step K C p cf c.state c t) (λ c s. ctrl_loop K C fuel p cf c s)
          (c', t') e in
      ctrl_loop-Passes fuel s t1 t' c1 c' (pass before step) rest

  -- For a control frame that asks for encryption, however the calls of the handler end: if its loop
  -- ends, then no file has changed and nothing was printed, unless from the start of the handler on
  -- the iv has come from the socket, the key file was read and the ACK was sent, each with success
  -- and on what the one before has left.
  pub ctrl_loop-Safe :
      (s t : St) (c : Control)
      → is_encrypted cf ≡ true
      → ctrl_loop K C ctrl_rounds p cf at_start s ≡ some (c, t)
      → Safe s t
  ctrl_loop-Safe s t c sealed e =
      let passes = ctrl_loop-Passes ctrl_rounds s s t at_start c enter e in
      let closes : c.state ≡ closed = ctrl_loop-closed K C p cf at_start c s t e in
      subst (λ x. Before s x t) closes (Passes-Before sealed passes)
