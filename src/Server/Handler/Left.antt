-- ===== src/Server/Handler/Left.antt =====
-- What a pass of `ctrl_loop` in src/xcd_protocol_handler.hpp hands on, state by state.
use xchange.Prelude.{◌≡◌, ◌⊎◌, arith, true, some}
use xchange.Wire.{CtrlFrame}
use xchange.Sio.{Kernel}
use xchange.Crypto.{CryptoLib}
use xchange.SocketIo.Receive.{set_iv_from_socket}
use xchange.SocketIo.Send.{send_ack, dec_read_key_from_file}
use xchange.Server.Protocol.{Server, Params}
use xchange.Server.Handler.{
  get_type, read_iv, read_key_file, accept_connection, rcv_data, final_ack, pm_close_conn, closed,
  Control, is_encrypted, set_err_state, receive, ctrl_step,
}

module _ (K : Kernel) (C : CryptoLib) where
  -- No file has changed, and nothing was printed.
  abbrev pub Quiet : Server C.Rng K.World → Server C.Rng K.World → Type 0
  Quiet s t = (t.files ≡ s.files) × (t.printed ≡ s.printed)

module _ (K : Kernel) (C : CryptoLib) (p : Params) (cf : CtrlFrame) where
  abbrev St : Type 0
  St = Server C.Rng K.World

  -- What a pass hands on.
  pub type_left :
      (c c' : Control) (t t' : St)
      → is_encrypted cf ≡ true
      → ctrl_step K C p cf get_type c t ≡ some (c', t')
      → (t' ≡ t) × ((c'.state ≡ read_iv) ⊎ (c'.state ≡ pm_close_conn))
  unfolding ctrl_step
  type_left c c' t t' sealed e = ground (arith, sealed, e)

  pub iv_left :
      (c c' : Control) (t t' : St)
      → ctrl_step K C p cf read_iv c t ≡ some (c', t')
      → Quiet K C t t'
        × (((c'.state ≡ read_key_file)
              × (set_iv_from_socket K C t.session ≡ some (true, t'.session)))
            ⊎ (c'.state ≡ pm_close_conn))
  unfolding ctrl_step
  iv_left c c' t t' e = ground (arith, e)

  pub key_left :
      (c c' : Control) (t t' : St)
      → ctrl_step K C p cf read_key_file c t ≡ some (c', t')
      → Quiet K C t t'
        × (((c'.state ≡ accept_connection)
              × (dec_read_key_from_file K C p.key_file t.session ≡ some (true, t'.session)))
            ⊎ (c'.state ≡ pm_close_conn))
  unfolding ctrl_step
  key_left c c' t t' e = ground (arith, e)

  pub ack_left :
      (c c' : Control) (t t' : St)
      → ctrl_step K C p cf accept_connection c t ≡ some (c', t')
      → Quiet K C t t'
        × (((c'.state ≡ rcv_data) × (send_ack K C 0 t.session ≡ some (true, t'.session)))
            ⊎ (c'.state ≡ pm_close_conn))
  unfolding ctrl_step
  ack_left c c' t t' e = ground (arith, e)

  pub data_left :
      (c c' : Control) (t t' : St)
      → ctrl_step K C p cf rcv_data c t ≡ some (c', t')
      → (c'.state ≡ final_ack) ⊎ (c'.state ≡ pm_close_conn)
  unfolding ctrl_step set_err_state receive
  data_left c c' t t' e = ground (arith, e)

  -- The passes after the data.
  pub end_left :
      (c c' : Control) (t t' : St)
      → ctrl_step K C p cf final_ack c t ≡ some (c', t')
      → Quiet K C t t' × (c'.state ≡ pm_close_conn)
  unfolding ctrl_step
  end_left c c' t t' e = ground (arith, e)

  pub close_left :
      (c c' : Control) (t t' : St)
      → ctrl_step K C p cf pm_close_conn c t ≡ some (c', t')
      → Quiet K C t t' × (c'.state ≡ closed)
  unfolding ctrl_step set_err_state
  close_left c c' t t' e = ground (arith, e)

  pub closed_left :
      (c c' : Control) (t t' : St)
      → ctrl_step K C p cf closed c t ≡ some (c', t')
      → Quiet K C t t' × (c'.state ≡ c.state)
  unfolding ctrl_step
  closed_left c c' t t' e = ground (arith, e)
