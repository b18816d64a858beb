-- ===== src/Client/Handler.antt =====
-- The constructor and `ctrl_loop` of `DefaultProtocolHandler` in src/xcc_protocol_handler.hpp.
pub mod Ends
pub mod Passes
pub mod Left
pub mod Order
use xchange.Prelude.{
  ℕ, zero, suc, Bool, true, false, not, Option, none, some, Bytes, ◌==◌, if◌then◌else◌,
}
use xchange.Prelude.Action.{M, pure, ◌>>=◌}
use xchange.Wire.{CtrlFrame, ack_ok}
use xchange.Sio.{Kernel}
use xchange.Crypto.{CryptoLib, Keys}
use xchange.SocketIo.{Session, CtrlInfo, new_manager}
use xchange.SocketIo.Receive.{get_ack_from_socket}
use xchange.SocketIo.Send.{send_ctrl_frame_encrypted, send_ctrl_frame_plain, enc_read_key_from_file}
use xchange.Client.Protocol.{
  TransferInfo, TransferMode, mode_text, mode_file, mode_none, send_message, send_file,
}

-- The states of `ctrl_loop`.
pub data State : Type 0 where
  get_type set_chacha20_key send_init_ctrl_frame rcv_init_ack send_data rcv_final_ack stop_client :
      State

-- `TransferInfo` whole: what the control frame is made from, the transfer, and the key file's
-- contents.
pub record Job : Type 0 where
  pub ctrl : CtrlInfo
  pub transfer : TransferInfo
  pub mode : TransferMode
  pub key_file : Bytes

-- `state` and the member `error`; `running` is false once the loop is left.
pub record Control : Type 0 where
  pub state : State
  pub error : Bool
  pub running : Bool

abbrev pub ctrl_rounds : ℕ
ctrl_rounds = 7

module _ (K : Kernel) (C : CryptoLib) where
  abbrev St : Type 0
  St = Session C.Rng K.World

  abbrev advance : State → Control → Bool → Control
  advance next c ok =
      if ok then record c { state = next } else record c { state = stop_client; error = true }

  unfoldable pub send_ctrl_frame : Job → M St Bool
  send_ctrl_frame j s =
      if s.manager.encrypted
      then send_ctrl_frame_encrypted K C j.ctrl s
      else send_ctrl_frame_plain K C j.ctrl s

  -- `err` keeps 0 from the control frame where the mode is neither of the two.
  unfoldable pub send : Job → M St Bool
  send j s = elim j.mode [
    | mode_file ↦ send_file K C j.transfer s
    | mode_text ↦ send_message K C j.transfer s
    | mode_none ↦ some (true, s)
  ]

  -- One pass through the `switch`. The case of the final ACK falls through to the stop.
  unfoldable pub ctrl_step : Job → State → Control → M St Control
  unfolding send_ctrl_frame send
  ctrl_step j get_type c s =
      let next = if s.manager.encrypted then set_chacha20_key else send_init_ctrl_frame in
      some (
        elim j.mode [
          | mode_none ↦ record c { state = stop_client; error = true }
          | _ ↦ record c { state = next }
        ],
        s,
      )
  ctrl_step j set_chacha20_key c s =
      (◌>>=◌ (enc_read_key_from_file K C j.key_file) λ ok. pure (advance send_init_ctrl_frame c ok))
        s
  ctrl_step j send_init_ctrl_frame c s =
      (◌>>=◌ (send_ctrl_frame j) λ ok. pure (advance rcv_init_ack c ok)) s
  ctrl_step j rcv_init_ack c s =
      (◌>>=◌ (get_ack_from_socket K C) λ ack. pure (advance send_data c (ack == ack_ok))) s
  ctrl_step j send_data c s = (◌>>=◌ (send j) λ ok. pure (advance rcv_final_ack c ok)) s
  ctrl_step j rcv_final_ack c s =
      (◌>>=◌ (get_ack_from_socket K C) λ ack. pure (record c {
        state = stop_client;
        error = if ack == ack_ok then c.error else true;
        running = false;
      }))
        s
  ctrl_step j stop_client c s = some (record c { running = false }, s)

  unfoldable pub ctrl_loop : ℕ → Job → Control → M St Control
  ctrl_loop zero j c s = some (c, s)
  ctrl_loop (suc fuel) j c s =
      let round : Option (Control × St) = elim (ctrl_step j c.state c s) [
        | none ↦ none
        | some (c', s') ↦ ctrl_loop fuel j c' s'
      ] in
      if c.running then round else some (c, s)

  -- The constructor: a manager for the security version, and the loop. The client's manager has
  -- no use for a control frame.
  unfoldable pub protocol_handler :
      Job → CtrlFrame → Keys → Bytes → C.Rng → K.World → Option (Control × St)
  protocol_handler j cf memory buffer rng w =
      elim (new_manager C j.ctrl.sec_ver cf memory buffer rng) [
        | none ↦ none
        | some m ↦
            ctrl_loop ctrl_rounds j (record { state = get_type; error = false; running = true })
              (record { manager = m; world = w })
      ]
