-- ===== src/Client/Handler/Left.antt =====
-- What a pass of `ctrl_loop` in src/xcc_protocol_handler.hpp hands on, state by state.
use xchange.Prelude.{◌≡◌, ◌⊎◌, arith, true, false, some}
use xchange.Prelude.Action.{bind_inv}
use xchange.Sio.{Kernel}
use xchange.Crypto.{CryptoLib}
use xchange.SocketIo.{Session}
use xchange.SocketIo.Receive.{get_ack_from_socket}
use xchange.SocketIo.Send.{enc_read_key_from_file}
use xchange.Client.Handler.{
  get_type, set_chacha20_key, send_init_ctrl_frame, rcv_init_ack, send_data, rcv_final_ack,
  stop_client, Job, Control, send_ctrl_frame, send, ctrl_step,
}

module _ (K : Kernel) (C : CryptoLib) (j : Job) where
  abbrev St : Type 0
  St = Session C.Rng K.World

  -- A pass that fails.
  abbrev pub Failed : Control → Type 0
  Failed c = (c.state ≡ stop_client) × (c.error ≡ true)

  pub type_left :
      (c c' : Control) (t t' : St)
      → ctrl_step K C j get_type c t ≡ some (c', t')
      → (t' ≡ t)
        × (c'.running ≡ c.running)
        × (((c'.state ≡ set_chacha20_key) × (t.manager.encrypted ≡ true))
            ⊎ (((c'.state ≡ send_init_ctrl_frame) × (t.manager.encrypted ≡ false)) ⊎ Failed c'))
  unfolding ctrl_step
  type_left c c' t t' e = ground (arith, e)

  pub key_left :
      (c c' : Control) (t t' : St)
      → ctrl_step K C j set_chacha20_key c t ≡ some (c', t')
      → (c'.running ≡ c.running)
        × (((c'.state ≡ send_init_ctrl_frame)
              × (enc_read_key_from_file K C j.key_file t ≡ some (true, t')))
            ⊎ Failed c')
  unfolding ctrl_step
  key_left c c' t t' e =
      let (ok, s, called, rest) = bind_inv (enc_read_key_from_file K C j.key_file) _ t (c', t') e in
      ground (arith, called, rest)

  pub ctrl_left :
      (c c' : Control) (t t' : St)
      → ctrl_step K C j send_init_ctrl_frame c t ≡ some (c', t')
      → (c'.running ≡ c.running)
        × (((c'.state ≡ rcv_init_ack) × (send_ctrl_frame K C j t ≡ some (true, t'))) ⊎ Failed c')
  unfolding ctrl_step
  ctrl_left c c' t t' e =
      let (ok, s, called, rest) = bind_inv (send_ctrl_frame K C j) _ t (c', t') e in
      ground (arith, called, rest)

  pub ack_left :
      (c c' : Control) (t t' : St)
      → ctrl_step K C j rcv_init_ack c t ≡ some (c', t')
      → (c'.running ≡ c.running)
        × (((c'.state ≡ send_data) × (get_ack_from_socket K C t ≡ some (0, t'))) ⊎ Failed c')
  unfolding ctrl_step
  ack_left c c' t t' e =
      let (ack, s, called, rest) = bind_inv (get_ack_from_socket K C) _ t (c', t') e in
      ground (arith, called, rest)

  pub data_left :
      (c c' : Control) (t t' : St)
      → ctrl_step K C j send_data c t ≡ some (c', t')
      → (c'.running ≡ c.running)
        × (((c'.state ≡ rcv_final_ack) × (send K C j t ≡ some (true, t'))) ⊎ Failed c')
  unfolding ctrl_step
  data_left c c' t t' e =
      let (ok, s, called, rest) = bind_inv (send K C j) _ t (c', t') e in
      ground (arith, called, rest)

  pub last_left :
      (c c' : Control) (t t' : St)
      → ctrl_step K C j rcv_final_ack c t ≡ some (c', t')
      → (c'.state ≡ stop_client) × ((get_ack_from_socket K C t ≡ some (0, t')) ⊎ (c'.error ≡ true))
  unfolding ctrl_step
  last_left c c' t t' e =
      let (ack, s, called, rest) = bind_inv (get_ack_from_socket K C) _ t (c', t') e in
      ground (arith, called, rest)

  pub stop_left :
      (c c' : Control) (t t' : St)
      → ctrl_step K C j stop_client c t ≡ some (c', t')
      → (t' ≡ t) × (c'.state ≡ c.state) × (c'.error ≡ c.error)
  unfolding ctrl_step
  stop_left c c' t t' e = ground (arith, e)
