-- ===== src/Transfer/Connection.antt =====
-- A whole connection of the server in src/xcd.hpp, for a client that sends a file unencrypted.
use xchange.Prelude.{
  ℕ, ◌+◌, ◌/◌, ◌^◌, ◌<◌, ◌≡◌, refl, sym, ap, ◌∙◌, subst, true, false, not, none, some, List, [],
  Bytes, ◌++◌, length, if◌then◌else◌,
}
use xchange.Wire.{CtrlFrame, type_bin}
use xchange.Wire.Layout.{encode_ctrl}
use xchange.Wire.Layout.RoundTrip.{CtrlFits}
use xchange.Sio.{Kernel}
use xchange.Crypto.{CryptoLib, Keys}
use xchange.SocketIo.{Session}
use xchange.Server.Admission.{ctrl_frame_valid, sec_version_lookup}
use xchange.Server.Files.{Files, exists}
use xchange.Server.Files.Written.{Written}
use xchange.Server.Protocol.{Server, Params, target_path, connection_type}
use xchange.Server.Handler.{closed, Control, is_encrypted, served, connection}
use xchange.Transfer.Blocks.{file_wire, ends_short}
use xchange.Transfer.RecvFile.{IsFilename}
use xchange.Server.Handler.Passes.{plain_steps, connection_made}
use xchange.Transfer.Session.{ack_bytes}
use xchange.Transfer.Session.Ack.{send_ack_duplex}
use xchange.Transfer.Session.Start.{plain_manager, new_manager_plain}
use xchange.Transfer.Session.Ends.{ctrl_frame_read, at_end}
use xchange.Sio.Duplex.{Duplex, recv_keeps}
use xchange.Transfer.Plain.{recv_file-file_wire}

-- The control frame of a plain file transfer.
pub record IsPlainFile (allowed : List ℕ) (cf : CtrlFrame) : Type 0 where
  pub fits : CtrlFits cf
  pub valid : ctrl_frame_valid allowed cf ≡ true
  pub plain : sec_version_lookup cf.pv ≡ some 1
  pub not_encrypted : is_encrypted cf ≡ false
  pub binary : connection_type cf ≡ type_bin

module _ (K : Kernel) (C : CryptoLib) (incoming outgoing : K.World → Bytes)
    (net : Duplex K incoming outgoing) where
  abbrev St : Type 0
  St = Server C.Rng K.World

  -- The object that the constructor starts with.
  abbrev fresh_server : CtrlFrame → Bytes → Files → K.World → St
  fresh_server cf buffer files w = record {
    session = record { manager = plain_manager cf buffer; world = w };
    files = files;
    printed = [];
    err_state = false;
  }

  -- A connection on which a control frame of a plain file transfer arrives, then what `sendFile`
  -- writes for a file, on a server with a duplex socket that takes writes and delivers reads whole,
  -- and where the path is free and can be opened: the connection is served to its end and closed.
  -- If the file's size is no multiple of 1450, without an error, and the path holds the file; else
  -- with the error set, and the path is free. No other file changes. The server has written an ACK,
  -- and a second one if it has kept the file.
  pub connection_receives_file :
      (allowed : List ℕ) (p : Params) (cf : CtrlFrame) (name path bytes tail : Bytes)
      (memory : Keys) (buffer : Bytes) (rng : C.Rng) (files : Files) (w : K.World)
      → IsPlainFile allowed cf
      → IsFilename name
      → length bytes / 1450 + 3 < 2 ^ 32
      → target_path p.out_dir name ≡ some path
      → exists path files ≡ false
      → files.can_open path ≡ true
      → incoming w ≡ encode_ctrl cf ++ (file_wire cf.transmission_id name bytes ++ tail)
      → (c : Control) × (t : St) × (connection K C allowed p memory buffer rng files w ≡ served c t)
        × (c.state ≡ closed)
        × (c.err ≡ not (ends_short 1450 bytes))
        × (t.err_state ≡ not (ends_short 1450 bytes))
        × Written path (if ends_short 1450 bytes then some bytes else none) files t.files
        × (outgoing t.session.world
            ≡ (outgoing w ++ ack_bytes) ++ (if ends_short 1450 bytes then ack_bytes else []))
  connection_receives_file allowed p cf name path bytes tail memory buffer rng files w ok named room
        target fresh can came =
      let short = ends_short 1450 bytes in
      let (bs, w0, read, back, in0, out0) =
        ctrl_frame_read K C incoming outgoing net cf
          (file_wire cf.transmission_id name bytes ++ tail) w ok.fits came in
      let s0 = fresh_server cf buffer files w0 in
      let (w1, ack1, out1, in1) = send_ack_duplex K C incoming outgoing net s0.session in
      let a1 : Session C.Rng K.World = record s0.session { world = w1 } in
      let (s2, received, written, same, quiet) =
        recv_file-file_wire K C incoming net.delivers (λ v. outgoing v ≡ outgoing w1)
          (recv_keeps K incoming outgoing net (outgoing w1)) p cf.transmission_id name path bytes
          tail (record s0 { session = a1 }) ok.fits.transmission_id named room target fresh can
          (record { plain = refl; block = refl; transmission_id = refl; order = refl }) (in1 ∙ in0)
          refl in
      let (w3, ack3, out3, in3) = send_ack_duplex K C incoming outgoing net s2.session in
      let a3 : Session C.Rng K.World = record s2.session { world = w3 } in
      let run =
        plain_steps K C p cf short s0 s2 a1 a3 ok.not_encrypted ok.binary ack1 received ack3 in
      let (err, kept_files, out) = at_end K C incoming outgoing net short s2 a3 w3 refl out3 same in
      (
        _,
        _,
        connection_made K C allowed p cf 1 memory buffer bs rng files w w0 s0.session.manager _ _
            read back ok.valid ok.plain (new_manager_plain C cf memory buffer rng) refl run,
        refl,
        refl,
        err,
        subst (Written path (if short then some bytes else none) files) (sym kept_files) written,
        out
            ∙ ap (λ b. b ++ (if short then ack_bytes else []))
                (quiet ∙ out1 ∙ ap (λ b. b ++ ack_bytes) out0),
      )
