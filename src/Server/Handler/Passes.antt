-- ===== src/Server/Handler/Passes.antt =====
-- The passes of `ctrl_loop` in src/xcd_protocol_handler.hpp when the calls
-- that open the connection succeed.
use xchange.Prelude.{ℕ, ◌≡◌, arith, List, [], Bool, true, false, not, some, Bytes, if◌then◌else◌}
use xchange.Wire.{CtrlFrame, type_none, type_txt, type_bin}
use xchange.Wire.Layout.{decode_ctrl}
use xchange.Sio.{Kernel, done, read_from_socket}
use xchange.Crypto.{CryptoLib, Keys}
use xchange.SocketIo.{Session, Manager, new_manager}
use xchange.SocketIo.Receive.{set_iv_from_socket}
use xchange.SocketIo.Send.{send_ack, dec_read_key_from_file}
use xchange.Server.Admission.{ctrl_frame_valid, sec_version_lookup}
use xchange.Server.Files.{Files}
use xchange.Server.Protocol.{Server, Params, connection_type, recv_file, recv_message}
use xchange.Server.Handler.{
  get_type, closed, Control, is_encrypted, set_err_state, receive, ctrl_step, ctrl_loop,
  protocol_handler, served, connection,
}

module _ (K : Kernel) (C : CryptoLib) (p : Params) (cf : CtrlFrame) where
  abbrev St : Type 0
  St = Server C.Rng K.World

  -- The calls up to the transfer succeed; `ok` is what `recv_file` answers.
  pub receiver_steps :
      (ok : Bool) (s0 s4 : St) (a1 a2 a3 a5 : Session C.Rng K.World)
      → is_encrypted cf ≡ true
      → connection_type cf ≡ type_bin
      → set_iv_from_socket K C s0.session ≡ some (true, a1)
      → dec_read_key_from_file K C p.key_file a1 ≡ some (true, a2)
      → send_ack K C 0 a2 ≡ some (true, a3)
      → recv_file K C p (record s0 { session = a3 }) ≡ some (ok, s4)
      → send_ack K C 0 s4.session ≡ some (true, a5)
      → ctrl_loop K C 7 p cf (record { state = get_type; err = false; kind = type_none }) s0
        ≡ some (
          record { state = closed; err = not ok; kind = type_bin },
          if ok then record s4 { session = a5 } else record s4 { err_state = true },
        )
  unfolding ctrl_loop ctrl_step set_err_state receive
  receiver_steps true s0 s4 a1 a2 a3 a5 sealed binary iv key ack file last =
      ground (arith, sealed, binary, iv, key, ack, file, last)
  receiver_steps false s0 s4 a1 a2 a3 a5 sealed binary iv key ack file last =
      ground (arith, sealed, binary, iv, key, ack, file, last)

  -- The same for an unencrypted file.
  pub plain_steps :
      (ok : Bool) (s0 s4 : St) (a3 a5 : Session C.Rng K.World)
      → is_encrypted cf ≡ false
      → connection_type cf ≡ type_bin
      → send_ack K C 0 s0.session ≡ some (true, a3)
      → recv_file K C p (record s0 { session = a3 }) ≡ some (ok, s4)
      → send_ack K C 0 s4.session ≡ some (true, a5)
      → ctrl_loop K C 7 p cf (record { state = get_type; err = false; kind = type_none }) s0
        ≡ some (
          record { state = closed; err = not ok; kind = type_bin },
          if ok then record s4 { session = a5 } else record s4 { err_state = true },
        )
  unfolding ctrl_loop ctrl_step set_err_state receive
  plain_steps true s0 s4 a3 a5 plain binary ack file last =
      ground (arith, plain, binary, ack, file, last)
  plain_steps false s0 s4 a3 a5 plain binary ack file last =
      ground (arith, plain, binary, ack, file, last)

  -- The same for an unencrypted message that is received.
  pub text_steps :
      (s0 s4 : St) (a3 a5 : Session C.Rng K.World)
      → is_encrypted cf ≡ false
      → connection_type cf ≡ type_txt
      → send_ack K C 0 s0.session ≡ some (true, a3)
      → recv_message K C p (record s0 { session = a3 }) ≡ some (true, s4)
      → send_ack K C 0 s4.session ≡ some (true, a5)
      → ctrl_loop K C 7 p cf (record { state = get_type; err = false; kind = type_none }) s0
        ≡ some (record { state = closed; err = false; kind = type_txt }, record s4 { session = a5 })
  unfolding ctrl_loop ctrl_step set_err_state receive
  text_steps s0 s4 a3 a5 plain text ack message last =
      ground (arith, plain, text, ack, message, last)

module _ (K : Kernel) (C : CryptoLib) where
  -- `mainLoop` with an admitted control frame is the handler's loop.
  pub connection_made :
      (allowed : List ℕ) (p : Params) (cf : CtrlFrame) (sv : ℕ) (memory : Keys) (buffer bs : Bytes)
      (rng : C.Rng) (files : Files) (w w0 : K.World) (m : Manager C.Rng) (c : Control)
      (t : Server C.Rng K.World)
      → read_from_socket K 5 false w ≡ done bs w0
      → decode_ctrl bs ≡ cf
      → ctrl_frame_valid allowed cf ≡ true
      → sec_version_lookup cf.pv ≡ some sv
      → new_manager C sv cf memory buffer rng ≡ some m
      → m.error ≡ 0
      → ctrl_loop K C 7 p cf
          (record { state = get_type; err = false; kind = type_none })
          (record {
            session = record { manager = m; world = w0 };
            files = files;
            printed = [];
            err_state = false;
          })
        ≡ some (c, t)
      → connection K C allowed p memory buffer rng files w ≡ served c t
  unfolding connection protocol_handler
  connection_made allowed p cf sv memory buffer bs rng files w w0 m c t read back ok known made fine
        run =
      ground (arith, read, back, ok, known, made, fine, run)
