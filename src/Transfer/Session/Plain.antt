-- ===== src/Transfer/Session/Plain.antt =====
-- A whole transfer of a file without encryption: `protocol_handler` of the client against
-- `connection` of the server.
use xchange.Prelude.{
  ℕ, ◌+◌, ◌/◌, ◌^◌, ◌<◌, ◌≡◌, refl, sym, ap, subst, ◌∙◌, arith, true, false, some, Option, Bytes,
  IsByte, [], ◌++◌, append_assoc, length, if◌then◌else◌,
}
use xchange.Wire.{CtrlFrame}
use xchange.Wire.Layout.{encode_ctrl}
use xchange.Sio.{Kernel}
use xchange.Sio.Duplex.{Duplex, write_duplex, write_keeps}
use xchange.Sio.Dry.{RunsDry}
use xchange.Crypto.{CryptoLib, Keys}
use xchange.SocketIo.{Session, Manager, CtrlInfo, new_manager}
use xchange.SocketIo.Io.{write_bytes}
use xchange.SocketIo.Send.{ctrl_frame_of, send_ctrl_frame_plain}
use xchange.Client.Protocol.{mode_file}
use xchange.Client.Handler as Client
use xchange.Client.Handler.Passes.{plain_sender_steps, protocol_handler_made}
use xchange.Transfer.Blocks.{file_wire}
use xchange.Transfer.Plain.{send_file_keeps}
use xchange.Transfer.RecvFile.{IsFilename}
use xchange.Transfer.Session.{ack_bytes, is_lost, answers}
use xchange.Transfer.Session.Ack.{get_ack_duplex}
use xchange.Transfer.Session.Start.{plain_manager, new_manager_plain}
use xchange.Transfer.Session.Sender.{length-encode_ctrl, last_ack}

-- A job that sends a file without encryption.
pub record IsPlainJob (j : Client.Job) (bytes : Bytes) : Type 0 where
  pub sec_ver : j.ctrl.sec_ver ≡ 1
  pub pv : j.ctrl.pv ≡ 1
  pub mode : j.mode ≡ mode_file
  pub is_file : j.ctrl.is_file ≡ true
  pub same_id : j.transfer.transmission_id ≡ j.ctrl.transmission_id
  pub some_id : 0 < j.ctrl.transmission_id
  pub transmission_id : IsByte j.ctrl.transmission_id
  pub source : j.transfer.source ≡ some bytes
  pub no_limit : j.transfer.bandwidth ≡ 0
  pub name : IsFilename j.transfer.filename
  pub room : length bytes / 1450 + 3 < 2 ^ 32

module _ (K : Kernel) (C : CryptoLib) (arriving outgoing : K.World → Bytes)
    (net : Duplex K arriving outgoing) where
  abbrev St : Type 0
  St = Session C.Rng K.World

  pub open_plain :
      (info : CtrlInfo) (s : St)
      → (w' : K.World) × (send_ctrl_frame_plain K C info s ≡ some (true, record s { world = w' }))
        × (outgoing w' ≡ outgoing s.world ++ encode_ctrl (ctrl_frame_of false info))
        × (arriving w' ≡ arriving s.world)
  unfolding send_ctrl_frame_plain write_bytes
  open_plain info s =
      let (w', e, out, left) =
        write_duplex K arriving outgoing net (encode_ctrl (ctrl_frame_of false info)) s.world
          (omega (arith, length-encode_ctrl (ctrl_frame_of false info))) in
      (w', ground (arith, e), out, left)

  -- The client's run.
  pub plain_sender_session :
      (dry : RunsDry K arriving) (j : Client.Job) (bytes : Bytes) (cf : CtrlFrame) (memory : Keys)
      (buffer : Bytes) (rng : C.Rng) (w : K.World)
      → IsPlainJob j bytes
      → arriving w ≡ answers 1450 bytes
      → (ctl : Client.Control) × (s' : St) × (Client.protocol_handler K C j cf memory buffer rng w
          ≡ some (ctl, s'))
        × (ctl.error ≡ is_lost 1450 bytes)
        × (ctl.running ≡ false)
        × (outgoing s'.world
            ≡ outgoing w
              ++ (encode_ctrl (ctrl_frame_of false j.ctrl)
                  ++ file_wire j.ctrl.transmission_id j.transfer.filename bytes))
  plain_sender_session dry j bytes cf memory buffer rng w job came =
      let m = plain_manager cf buffer in
      let s0 : St = record { manager = m; world = w } in
      let (w2, opened, out2, in2) = open_plain j.ctrl s0 in
      let s2 : St = record { manager = m; world = w2 } in
      let last = if is_lost 1450 bytes then [] else ack_bytes in
      let (w3, acked, in3, out3) = get_ack_duplex K C arriving outgoing net last s2 (in2 ∙ came) in
      let s3 : St = record { manager = m; world = w3 } in
      let (w4, sent, out4, in4) =
        send_file_keeps K C outgoing net.accepts (λ v. arriving v ≡ last)
          (write_keeps K arriving outgoing net last) j.transfer bytes s3 job.source job.no_limit
          (omega (arith, job.name.small)) (subst IsByte (sym job.same_id) job.transmission_id)
          (record { plain = refl; block = refl }) (omega (arith, job.room)) in3 in
      let s4 : St = record { manager = m; world = w4 } in
      let (answer, s5, finished, verdict, out5) =
        last_ack K C arriving outgoing net dry (is_lost 1450 bytes) s4 in4 in
      let run =
        plain_sender_steps K C j answer s0 s2 s3 s4 s5 job.mode refl opened acked sent finished in
      let made = ap new_manager_of job.sec_ver ∙ new_manager_plain C cf memory buffer rng in
      (
        _,
        s5,
        protocol_handler_made K C j cf memory buffer rng w m made ∙ run,
        verdict,
        refl,
        out5
            ∙ out4
            ∙ ap (λ b. b ++ file_wire j.transfer.transmission_id j.transfer.filename bytes)
                (out3 ∙ out2)
            ∙ append_assoc (outgoing w) _ _
            ∙ ap
                (λ id.
                  outgoing w
                  ++ (encode_ctrl (ctrl_frame_of false j.ctrl)
                      ++ file_wire id j.transfer.filename bytes))
                job.same_id,
      )
    where
      new_manager_of : ℕ → Option (Manager C.Rng)
      new_manager_of v = new_manager C v cf memory buffer rng
