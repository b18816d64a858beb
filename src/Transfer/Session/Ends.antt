-- ===== src/Transfer/Session/Ends.antt =====
-- The first and the last call of a connection of the server.
use xchange.Prelude.{
  ℕ, ◌≡◌, refl, sym, ap, ◌∙◌, arith, Bool, true, false, not, Bytes, [], ◌++◌, append-nil,
  if◌then◌else◌,
}
use xchange.Wire.{CtrlFrame}
use xchange.Wire.Layout.{encode_ctrl, decode_ctrl}
use xchange.Wire.Layout.RoundTrip.{CtrlFits, decode_ctrl-encode_ctrl}
use xchange.Sio.{Kernel, done, read_from_socket}
use xchange.Sio.Duplex.{Duplex, read_duplex}
use xchange.Crypto.{CryptoLib}
use xchange.SocketIo.{Session}
use xchange.Server.Protocol.{Server}
use xchange.Transfer.Session.{ack_bytes}

module _ (K : Kernel) (C : CryptoLib) (incoming outgoing : K.World → Bytes)
    (net : Duplex K incoming outgoing) where
  abbrev St : Type 0
  St = Session C.Rng K.World

  pub ctrl_frame_read :
      (cf : CtrlFrame) (rest : Bytes) (w : K.World)
      → CtrlFits cf
      → incoming w ≡ encode_ctrl cf ++ rest
      → (bs : Bytes) × (w' : K.World) × (read_from_socket K 5 false w ≡ done bs w')
        × (decode_ctrl bs ≡ cf)
        × (incoming w' ≡ rest)
        × (outgoing w' ≡ outgoing w)
  ctrl_frame_read cf rest w fits came =
      let (back, size) = decode_ctrl-encode_ctrl cf [] fits in
      let (w', e, left, out) =
        read_duplex K incoming outgoing net (encode_ctrl cf) rest w (omega (arith, size)) came in
      (
        encode_ctrl cf,
        w',
        ap (λ (n : ℕ). read_from_socket K n false w) (sym size) ∙ e,
        ap decode_ctrl (sym (append-nil (encode_ctrl cf))) ∙ back,
        left,
        out,
      )

  -- The last ACK is sent if the file is complete.
  pub at_end :
      (ok : Bool) (s : Server C.Rng K.World) (a : St) (w : K.World)
      → a ≡ record s.session { world = w }
      → outgoing w ≡ outgoing s.session.world ++ ack_bytes
      → s.err_state ≡ false
      → let t = if ok then record s { session = a } else record s { err_state = true } in
        (t.err_state ≡ not ok)
        × (t.files ≡ s.files)
        × (outgoing t.session.world ≡ outgoing s.session.world ++ (if ok then ack_bytes else []))
  at_end true s a w same out fine = (fine, refl, ap (λ a. outgoing a.world) same ∙ out)
  at_end false s a w same out fine = (refl, refl, sym (append-nil (outgoing s.session.world)))
