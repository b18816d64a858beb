-- ===== src/Server/Handler.antt =====
-- `init` and `ctrl_loop` of `DefaultProtocolHandler` in src/xcd_protocol_handler.hpp, and the main
-- loop of `ConnectionManager` in src/xcd.hpp, as state machines.
pub mod Ends
pub mod Passes
pub mod Left
pub mod Order
use xchange.Prelude.{
  ℕ, zero, suc, Bool, true, false, not, ◌&&◌, Option, none, some, List, [], ◌∷◌, Bytes, bit_and,
  ltb, ◌==◌, if◌then◌else◌,
}
use xchange.Prelude.Action.{M, pure, ◌>>=◌, ◌>>◌}
use xchange.Wire.{
  CtrlFrame, DataType, type_none, type_txt, type_bin, flag_encrypted, ack_ok, ctrl_frame_size,
}
use xchange.Wire.Layout.{decode_ctrl}
use xchange.Sio.{Kernel, Outcome, done, failed, read_from_socket}
use xchange.Crypto.{CryptoLib, Keys}
use xchange.SocketIo.{Session, Manager, new_manager}
use xchange.SocketIo.Receive.{set_iv_from_socket}
use xchange.SocketIo.Send.{send_ack, dec_read_key_from_file}
use xchange.Server.Admission.{ctrl_frame_valid, sec_version_lookup}
use xchange.Server.Files.{Files}
use xchange.Server.Protocol.{Server, Params, connection_type, on_socket, recv_message, recv_file}

-- The states of `ctrl_loop`.
pub data State : Type 0 where
  get_type read_iv read_key_file accept_connection rcv_data final_ack pm_close_conn closed : State

-- The variables of `ctrl_loop`, with the member `type`.
pub record Control : Type 0 where
  pub state : State
  pub err : Bool
  pub kind : DataType

abbrev pub rank : State → ℕ
rank get_type = 7
rank read_iv = 6
rank read_key_file = 5
rank accept_connection = 4
rank rcv_data = 3
rank final_ack = 2
rank pm_close_conn = 1
rank closed = 0

abbrev pub ctrl_rounds : ℕ
ctrl_rounds = 7

-- `init`, up to the security version's objects: `encrypted`.
unfoldable pub is_encrypted : CtrlFrame → Bool
is_encrypted cf = bit_and cf.flags flag_encrypted == flag_encrypted

module _ (K : Kernel) (C : CryptoLib) where
  abbrev St : Type 0
  St = Server C.Rng K.World

  -- The branches that test a return value: on success the next state, else the end with an error.
  abbrev advance : State → Control → Bool → Control
  advance next c ok =
      if ok
      then record c { state = next; err = false }
      else record c { state = pm_close_conn; err = true }

  unfoldable pub set_err_state : M St (Unit {0})
  set_err_state s = some (tt, record s { err_state = true })

  unfoldable pub receive : Params → Control → M St Bool
  receive p c s = elim c.kind [
    | type_txt ↦ recv_message K C p s
    | type_bin ↦ recv_file K C p s
    | type_none ↦ some (not c.err, s)
  ]

  -- One pass through the `switch`.
  unfoldable pub ctrl_step : Params → CtrlFrame → State → Control → M St Control
  unfolding set_err_state receive
  ctrl_step p cf get_type c =
      let kind = connection_type cf in
      let next = if is_encrypted cf then read_iv else accept_connection in
      pure (elim kind [
        | type_none ↦ record c { state = pm_close_conn; err = true; kind = type_none }
        | other ↦ record c { state = next; kind = other }
      ])
  ctrl_step p cf read_iv c = do
    ok ← on_socket K C (set_iv_from_socket K C)
    pure (advance read_key_file c ok)
  ctrl_step p cf read_key_file c = do
    ok ← on_socket K C (dec_read_key_from_file K C p.key_file)
    pure (advance accept_connection c ok)
  ctrl_step p cf accept_connection c = do
    ok ← on_socket K C (send_ack K C ack_ok)
    pure (advance rcv_data c ok)
  ctrl_step p cf rcv_data c = do
    ok ← receive p c
    let failure : M St Control = do set_err_state; pure (advance final_ack c false)
    if ok then pure (advance final_ack c true) else failure
  ctrl_step p cf final_ack c = do
    ok ← on_socket K C (send_ack K C ack_ok)
    pure (record c { state = pm_close_conn; err = not ok })
  ctrl_step p cf pm_close_conn c =
      let failure : M St Control = (do set_err_state; pure (record c { state = closed })) in
      if c.err then failure else pure (record c { state = closed })
  ctrl_step p cf closed c = pure c

  -- `while(connected)`
  unfoldable pub ctrl_loop : ℕ → Params → CtrlFrame → Control → M St Control
  ctrl_loop zero p cf c = pure c
  ctrl_loop (suc fuel) p cf c = do c' ← ctrl_step p cf c.state c; ctrl_loop fuel p cf c'

  -- The constructor of the handler. Where `init` returns early, `state` has no value.
  unfoldable pub protocol_handler :
      Params → ℕ → CtrlFrame → Keys → Bytes → C.Rng → Files → K.World → Option (Control × St)
  protocol_handler p sv cf memory buffer rng files w =
      elim (new_manager C sv cf memory buffer rng) [
        | none ↦ none
        | some m ↦
            let start : St = record {
              session = record { manager = m; world = w };
              files = files;
              printed = [];
              err_state = false;
            } in
            let run =
              ctrl_loop ctrl_rounds p cf
                (record { state = get_type; err = false; kind = type_none }) start in
            if m.error == 0 then run else none
      ]

-- How `ConnectionManager::mainLoop` ends: without a frame, with a frame that is refused, after a
-- transfer, or by an exception or undefined behaviour.
pub data ConnectionEnd (R W : Type 0) : Type 0 where
  no_frame refused : W → ConnectionEnd R W
  served : Control → Server R W → ConnectionEnd R W
  undefined : ConnectionEnd R W

module _ (K : Kernel) (C : CryptoLib) where
  -- `STATE_RCV_CTRL_FRAME` and `STATE_START_PROTOCOL_MANAGER`.
  unfoldable pub connection :
      List ℕ → Params → Keys → Bytes → C.Rng → Files → K.World → ConnectionEnd C.Rng K.World
  connection allowed p memory buffer rng files w =
      elim (read_from_socket K ctrl_frame_size false w) [
        | done bs w' ↦
            let cf = decode_ctrl bs in
            let transfer : ConnectionEnd C.Rng K.World = elim (sec_version_lookup cf.pv) [
              | none ↦ undefined
              | some sv ↦ elim (protocol_handler K C p sv cf memory buffer rng files w') [
                | none ↦ undefined
                | some (c, s) ↦ served c s
              ]
            ] in
            if ctrl_frame_valid allowed cf then transfer else refused w'
        | failed w' ↦ no_frame w'
        | _ ↦ undefined
      ]
