-- ===== src/Client/Handler/Passes.antt =====
-- The passes of `ctrl_loop` in src/xcc_protocol_handler.hpp when the calls succeed.
use xchange.Prelude.{ℕ, ◌≡◌, ◌∙◌, arith, true, false, not, some, Bytes, ◌==◌, if◌then◌else◌}
use xchange.Prelude.Action.{bind_some}
use xchange.Wire.{CtrlFrame}
use xchange.Sio.{Kernel}
use xchange.Crypto.{CryptoLib, Keys}
use xchange.SocketIo.{Session, Manager, new_manager}
use xchange.SocketIo.Receive.{get_ack_from_socket}
use xchange.SocketIo.Send.{send_ctrl_frame_encrypted, send_ctrl_frame_plain, enc_read_key_from_file}
use xchange.Client.Protocol.{mode_file, mode_text, send_file, send_message}
use xchange.Client.Handler.{
  State, get_type, set_chacha20_key, send_init_ctrl_frame, rcv_init_ack, send_data, rcv_final_ack,
  stop_client, Job, Control, send_ctrl_frame, send, ctrl_step, ctrl_loop, protocol_handler,
}

module _ (K : Kernel) (C : CryptoLib) (j : Job) where
  abbrev St : Type 0
  St = Session C.Rng K.World

  opens :
      (s : St)
      → s.manager.encrypted ≡ true
      → send_ctrl_frame K C j s ≡ send_ctrl_frame_encrypted K C j.ctrl s
  unfolding send_ctrl_frame
  opens s on = ground (arith, on)

  sends : (s : St) → j.mode ≡ mode_file → send K C j s ≡ send_file K C j.transfer s
  unfolding send
  sends s mode = ground (arith, mode)

  opens_plain :
      (s : St)
      → s.manager.encrypted ≡ false
      → send_ctrl_frame K C j s ≡ send_ctrl_frame_plain K C j.ctrl s
  unfolding send_ctrl_frame
  opens_plain s off = ground (arith, off)

  -- The passes whose calls succeed.
  ctrl_frame_pass :
      (c : Control) (s s' : St)
      → send_ctrl_frame K C j s ≡ some (true, s')
      → ctrl_step K C j send_init_ctrl_frame c s ≡ some (record c { state = rcv_init_ack }, s')
  unfolding ctrl_step
  ctrl_frame_pass c s s' e = bind_some (send_ctrl_frame K C j) _ true s s' e

  file_pass :
      (c : Control) (s s' : St)
      → j.mode ≡ mode_file
      → send_file K C j.transfer s ≡ some (true, s')
      → ctrl_step K C j send_data c s ≡ some (record c { state = rcv_final_ack }, s')
  unfolding ctrl_step
  file_pass c s s' mode e = bind_some (send K C j) _ true s s' (sends s mode ∙ e)

  key_pass :
      (c : Control) (s s' : St)
      → enc_read_key_from_file K C j.key_file s ≡ some (true, s')
      → ctrl_step K C j set_chacha20_key c s ≡ some (record c { state = send_init_ctrl_frame }, s')
  unfolding ctrl_step
  key_pass c s s' e = bind_some (enc_read_key_from_file K C j.key_file) _ true s s' e

  ack_pass :
      (c : Control) (s s' : St)
      → get_ack_from_socket K C s ≡ some (0, s')
      → ctrl_step K C j rcv_init_ack c s ≡ some (record c { state = send_data }, s')
  unfolding ctrl_step
  ack_pass c s s' e = bind_some (get_ack_from_socket K C) _ 0 s s' e

  last_pass :
      (answer : ℕ) (c : Control) (s s' : St)
      → get_ack_from_socket K C s ≡ some (answer, s')
      → ctrl_step K C j rcv_final_ack c s
        ≡ some (
          record {
            state = stop_client;
            error = if answer == 0 then c.error else true;
            running = false;
          },
          s',
        )
  unfolding ctrl_step
  last_pass answer c s s' e = bind_some (get_ack_from_socket K C) _ answer s s' e

  type_pass :
      (c : Control) (s : St)
      → s.manager.encrypted ≡ true
      → j.mode ≡ mode_file
      → ctrl_step K C j get_type c s ≡ some (record c { state = set_chacha20_key }, s)
  unfolding ctrl_step
  type_pass c s on mode = ground (arith, on, mode)

  plain_type_pass :
      (c : Control) (s : St)
      → s.manager.encrypted ≡ false
      → j.mode ≡ mode_file
      → ctrl_step K C j get_type c s ≡ some (record c { state = send_init_ctrl_frame }, s)
  unfolding ctrl_step
  plain_type_pass c s off mode = ground (arith, off, mode)

  -- The six passes of `ctrl_loop`; `answer` is what the last `GetAckFromSocket` returns.
  pub sender_steps :
      (answer : ℕ) (s0 s1 s2 s3 s4 s5 : St)
      → j.mode ≡ mode_file
      → s0.manager.encrypted ≡ true
      → s1.manager.encrypted ≡ true
      → enc_read_key_from_file K C j.key_file s0 ≡ some (true, s1)
      → send_ctrl_frame_encrypted K C j.ctrl s1 ≡ some (true, s2)
      → get_ack_from_socket K C s2 ≡ some (0, s3)
      → send_file K C j.transfer s3 ≡ some (true, s4)
      → get_ack_from_socket K C s4 ≡ some (answer, s5)
      → ctrl_loop K C 7 j (record { state = get_type; error = false; running = true }) s0
        ≡ some (record { state = stop_client; error = not (answer == 0); running = false }, s5)
  unfolding ctrl_loop
  sender_steps answer s0 s1 s2 s3 s4 s5 mode on still key ctrl ack file last =
      let at : State → Control = λ state. record { state = state; error = false; running = true } in
      ground (
        arith,
        type_pass (at get_type) s0 on mode,
        key_pass (at set_chacha20_key) s0 s1 key,
        ctrl_frame_pass (at send_init_ctrl_frame) s1 s2 (opens s1 still ∙ ctrl),
        ack_pass (at rcv_init_ack) s2 s3 ack,
        file_pass (at send_data) s3 s4 mode file,
        last_pass answer (at rcv_final_ack) s4 s5 last,
      )

  abbrev at : State → Control
  at state = record { state = state; error = false; running = true }

  plain_text_pass :
      (c : Control) (s : St)
      → s.manager.encrypted ≡ false
      → j.mode ≡ mode_text
      → ctrl_step K C j get_type c s ≡ some (record c { state = send_init_ctrl_frame }, s)
  unfolding ctrl_step
  plain_text_pass c s off mode = ground (arith, off, mode)

  data_pass :
      (c : Control) (s s' : St)
      → send K C j s ≡ some (true, s')
      → ctrl_step K C j send_data c s ≡ some (record c { state = rcv_final_ack }, s')
  unfolding ctrl_step
  data_pass c s s' e = bind_some (send K C j) _ true s s' e

  sends_text : (s : St) → j.mode ≡ mode_text → send K C j s ≡ send_message K C j.transfer s
  unfolding send
  sends_text s mode = ground (arith, mode)

  -- The five passes without encryption, once the mode is known.
  plain_passes :
      (answer : ℕ) (s0 s2 s3 s4 s5 : St)
      → s0.manager.encrypted ≡ false
      → ctrl_step K C j get_type (at get_type) s0 ≡ some (at send_init_ctrl_frame, s0)
      → send_ctrl_frame_plain K C j.ctrl s0 ≡ some (true, s2)
      → get_ack_from_socket K C s2 ≡ some (0, s3)
      → send K C j s3 ≡ some (true, s4)
      → get_ack_from_socket K C s4 ≡ some (answer, s5)
      → ctrl_loop K C 7 j (at get_type) s0
        ≡ some (record { state = stop_client; error = not (answer == 0); running = false }, s5)
  unfolding ctrl_loop
  plain_passes answer s0 s2 s3 s4 s5 off first ctrl ack content last = ground (
    arith,
    first,
    ctrl_frame_pass (at send_init_ctrl_frame) s0 s2 (opens_plain s0 off ∙ ctrl),
    ack_pass (at rcv_init_ack) s2 s3 ack,
    data_pass (at send_data) s3 s4 content,
    last_pass answer (at rcv_final_ack) s4 s5 last,
  )

  pub plain_sender_steps :
      (answer : ℕ) (s0 s2 s3 s4 s5 : St)
      → j.mode ≡ mode_file
      → s0.manager.encrypted ≡ false
      → send_ctrl_frame_plain K C j.ctrl s0 ≡ some (true, s2)
      → get_ack_from_socket K C s2 ≡ some (0, s3)
      → send_file K C j.transfer s3 ≡ some (true, s4)
      → get_ack_from_socket K C s4 ≡ some (answer, s5)
      → ctrl_loop K C 7 j (record { state = get_type; error = false; running = true }) s0
        ≡ some (record { state = stop_client; error = not (answer == 0); running = false }, s5)
  plain_sender_steps answer s0 s2 s3 s4 s5 mode off ctrl ack file last =
      plain_passes answer s0 s2 s3 s4 s5 off (plain_type_pass (at get_type) s0 off mode) ctrl ack
        (sends s3 mode ∙ file) last

  pub plain_text_steps :
      (answer : ℕ) (s0 s2 s3 s4 s5 : St)
      → j.mode ≡ mode_text
      → s0.manager.encrypted ≡ false
      → send_ctrl_frame_plain K C j.ctrl s0 ≡ some (true, s2)
      → get_ack_from_socket K C s2 ≡ some (0, s3)
      → send_message K C j.transfer s3 ≡ some (true, s4)
      → get_ack_from_socket K C s4 ≡ some (answer, s5)
      → ctrl_loop K C 7 j (record { state = get_type; error = false; running = true }) s0
        ≡ some (record { state = stop_client; error = not (answer == 0); running = false }, s5)
  plain_text_steps answer s0 s2 s3 s4 s5 mode off ctrl ack text last =
      plain_passes answer s0 s2 s3 s4 s5 off (plain_text_pass (at get_type) s0 off mode) ctrl ack
        (sends_text s3 mode ∙ text) last

  pub protocol_handler_made :
      (cf : CtrlFrame) (memory : Keys) (buffer : Bytes) (rng : C.Rng) (w : K.World)
      (m : Manager C.Rng)
      → new_manager C j.ctrl.sec_ver cf memory buffer rng ≡ some m
      → protocol_handler K C j cf memory buffer rng w
        ≡ ctrl_loop K C 7 j
            (record { state = get_type; error = false; running = true })
            (record { manager = m; world = w })
  unfolding protocol_handler
  protocol_handler_made cf memory buffer rng w m made = ground (arith, made)
