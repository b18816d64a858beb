-- ===== src/Transfer/Message.antt =====
-- `sendMessage` of the client against `recv_message` of the server, unencrypted.
use xchange.Prelude.{
  ℕ, ◌+◌, ◌%◌, ◌^◌, ◌≤◌, ◌<◌, ◌≡◌, ◌≢◌, refl, sym, ap, ◌∙◌, subst, arith, true, false, some, Bytes,
  IsByte, [], ◌∷◌, ◌++◌, append_assoc, length, length-drop, set, drop, drop-append_left, All,
}
use xchange.Sio.{Kernel}
use xchange.Sio.Accepting.{Accepts}
use xchange.Sio.Deliver.{Delivers}
use xchange.Sio.Kept.{KeptByRecv, KeptByWrite, Anything, recv-Anything, write-Anything}
use xchange.Crypto.{CryptoLib}
use xchange.SocketIo.{Session, payload}
use xchange.SocketIo.Send.{send_data_frame}
use xchange.Client.Protocol.{TransferInfo, data_frame, eot_frame, send_text, send_message}
use xchange.Server.Protocol.{Server, Params, message_heading, entry, c_string, recv_message}
use xchange.Server.Protocol.Message.{drop-set, c_string-set, expecting_one, recv_message_payload}
use xchange.Transfer.Frames.{frame_bytes}
use xchange.Transfer.Plain.{IsPlain, send_data_frame_writes}
use xchange.Transfer.Blocks.{data_frame-FrameFits, eot_frame-FrameFits}
use xchange.Transfer.Arrival.{Ready, answer, read_data_frame_keeps}

-- A message that `sendMessage` takes from the command line, and what it writes for it.
pub record IsMessage (info : TransferInfo) (msg : Bytes) : Type 0 where
  pub argument : info.msg ≡ some msg
  pub not_stdin : info.read_stdin ≡ false
  pub transmission_id : IsByte info.transmission_id
  pub no_zero : All (λ (b : ℕ). b ≢ 0) msg
  pub some_bytes : 0 < length msg
  pub small : length msg ≤ 1450

abbrev pub message_wire : ℕ → Bytes → Bytes
message_wire id msg = frame_bytes (data_frame id 1 msg) ++ frame_bytes (eot_frame id 2)

module _ (K : Kernel) (C : CryptoLib) (outgoing : K.World → Bytes) (accepts : Accepts K outgoing)
    (Kept : K.World → Type 0) (keeps : KeptByWrite K Kept) where
  send_steps :
      (info : TransferInfo) (msg : Bytes) (s s1 s2 : Session C.Rng K.World)
      → IsMessage info msg
      → s.manager.data_block_size ≡ 1450
      → send_data_frame K C (data_frame info.transmission_id 1 msg) s ≡ some (true, s1)
      → send_data_frame K C (eot_frame info.transmission_id 2) s1 ≡ some (true, s2)
      → send_message K C info s ≡ some (true, s2)
  unfolding send_message send_text
  send_steps info msg s s1 s2 ok block e1 e2 =
      ground (arith, ok.argument, ok.not_stdin, ok.small, block, e1, e2)

  pub send_message_keeps :
      (info : TransferInfo) (msg : Bytes) (s : Session C.Rng K.World)
      → IsMessage info msg
      → IsPlain s.manager
      → Kept s.world
      → (w : K.World) × (send_message K C info s ≡ some (true, record s { world = w }))
        × (outgoing w ≡ outgoing s.world ++ message_wire info.transmission_id msg)
        × Kept w
  send_message_keeps info msg s ok p kept =
      let id = info.transmission_id in
      let (w1, e1, o1, once1) =
        send_data_frame_writes K C outgoing accepts (data_frame id 1 msg) s
          (data_frame-FrameFits id 1 msg ok.small ok.transmission_id (omega arith)) p in
      let (w2, e2, o2, once2) =
        send_data_frame_writes K C outgoing accepts (eot_frame id 2) (record s { world = w1 })
          (eot_frame-FrameFits id 2 ok.transmission_id (omega arith)) p in
      (
        w2,
        send_steps info msg s _ _ ok p.block e1 e2,
        o2
            ∙ ap (λ b. b ++ frame_bytes (eot_frame id 2)) o1
            ∙ append_assoc (outgoing s.world) (frame_bytes (data_frame id 1 msg))
                (frame_bytes (eot_frame id 2)),
        keeps.after_write _ w1 w2 _ once2 (keeps.after_write _ s.world w1 _ once1 kept),
      )

module _ (K : Kernel) (C : CryptoLib) (incoming : K.World → Bytes) (delivers : Delivers K incoming)
    (Kept : K.World → Type 0) (keeps : KeptByRecv K Kept) where
  -- `recv_message` on the two frames of a message.
  pub recv_message_arrives :
      (p : Params) (info : TransferInfo) (msg : Bytes) (t : Server C.Rng K.World)
      → IsMessage info msg
      → Ready info.transmission_id t.session.manager.frame_order_nbr t.session.manager
      → 1460 < length t.session.manager.pln_buffer
      → incoming t.session.world ≡ message_wire info.transmission_id msg
      → Kept t.session.world
      → (t' : Server C.Rng K.World) × (recv_message K C p t ≡ some (true, t'))
        × (t'.printed ≡ t.printed ++ (entry p message_heading (length t.printed) msg ∷ []))
        × (t'.files ≡ t.files)
        × (t'.err_state ≡ t.err_state)
        × (incoming t'.session.world ≡ frame_bytes (eot_frame info.transmission_id 2))
        × Kept t'.session.world
  recv_message_arrives p info msg t ok ready room came kept =
      let id = info.transmission_id in
      let f = data_frame id 1 msg in
      let (s', read, larger, arrived, kept') =
        read_data_frame_keeps K C incoming delivers Kept keeps id 1 f (frame_bytes (eot_frame id 2))
          (expecting_one K C t.session)
          (data_frame-FrameFits id 1 msg ok.small ok.transmission_id (omega arith))
          (record {
            plain = ready.plain;
            block = ready.block;
            transmission_id = ready.transmission_id;
            order = refl;
          })
          refl refl (omega arith) came kept in
      let size : length msg % 2 ^ 16 ≡ length msg = omega (arith, ok.small) in
      let whole : answer f ≡ payload (length msg) = ground (arith, ok.some_bytes, size) in
      let fits : 10 + length msg < length s'.manager.pln_buffer =
        omega (arith, larger, room, ok.small) in
      let behind = drop 10 s'.manager.pln_buffer in
      let text : c_string (drop 10 (set s'.manager.pln_buffer (10 + length msg) 0)) ≡ some msg =
        ap c_string (drop-set 10 (length msg) 0 s'.manager.pln_buffer)
        ∙ c_string-set (length msg) behind
            (omega (arith, fits, length-drop 10 s'.manager.pln_buffer))
            (subst (All (λ (b : ℕ). b ≢ 0)) (sym arrived.buffered) ok.no_zero)
        ∙ ap some arrived.buffered in
      let (t', received, printed, files, world, err_state) =
        recv_message_payload K C p (length msg) msg t s' (read ∙ ap (λ r. some (r, s')) whole) fits
          text in
      (
        t',
        received,
        printed,
        files,
        err_state,
        ap incoming world ∙ arrived.left,
        subst Kept (sym world) kept',
      )

module _ (Kc Ks : Kernel) (C D : CryptoLib) (outgoing : Kc.World → Bytes)
    (incoming : Ks.World → Bytes) (accepts : Accepts Kc outgoing) (delivers : Delivers Ks incoming)
    (connect : Kc.World → Ks.World) where
  -- On sockets that take writes and deliver reads whole, unencrypted, with a server that has room
  -- for a frame and one byte in its buffer: a message from the command line of 1 to 1450 bytes
  -- without a zero is sent and arrives. Both sides report success; the server writes one
  -- entry to `stdoutStream`, with the time, the heading and the message, and touches no file, and
  -- only the EOT frame is left in its socket.
  pub message_arrives :
      (p : Params) (info : TransferInfo) (msg : Bytes) (s : Session C.Rng Kc.World)
      (t : Server D.Rng Ks.World)
      → IsMessage info msg
      → IsPlain s.manager
      → Ready info.transmission_id t.session.manager.frame_order_nbr t.session.manager
      → 1460 < length t.session.manager.pln_buffer
      → ((w : Kc.World) → incoming (connect w) ≡ drop (length (outgoing s.world)) (outgoing w))
      → (w : Kc.World) × (t' : Server D.Rng Ks.World) × (send_message Kc C info s
          ≡ some (true, record s { world = w }))
        × (recv_message Ks D p (record t { session = record t.session { world = connect w } })
            ≡ some (true, t'))
        × (t'.printed ≡ t.printed ++ (entry p message_heading (length t.printed) msg ∷ []))
        × (t'.files ≡ t.files)
        × (incoming t'.session.world ≡ frame_bytes (eot_frame info.transmission_id 2))
  message_arrives p info msg s t ok plain ready room wire =
      let (w, sent, out, kept) =
        send_message_keeps Kc C outgoing accepts (Anything Kc) (write-Anything Kc) info msg s ok
          plain tt in
      let came =
        wire w
        ∙ ap (drop (length (outgoing s.world))) out
        ∙ drop-append_left _ (outgoing s.world) _ refl in
      let t0 : Server D.Rng Ks.World = record t {
        session = record t.session { world = connect w };
      } in
      let (t', received, printed, files, same, left, kept') =
        recv_message_arrives Ks D incoming delivers (Anything Ks) (recv-Anything Ks) p info msg t0
          ok
          (record {
            plain = ready.plain;
            block = ready.block;
            transmission_id = ready.transmission_id;
            order = refl;
          })
          room came tt in
      (w, t', sent, received, printed, files, left)
