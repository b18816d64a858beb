-- ===== src/SocketIo/Receive/Plain.antt =====
-- The plain branch of `ReadDataFrame` on a frame that arrives whole.
use xchange.Prelude.{
  ◌+◌, ◌≤◌, ◌≡◌, sym, ap, ◌∙◌, arith, true, false, some, Bytes, [], ◌++◌, length, length-append,
  append_assoc, append-nil, take, drop, take-append_left, drop-append_left,
}
use xchange.Wire.{DataFrameHeader}
use xchange.Wire.Layout.{encode_header, decode_header}
use xchange.Wire.Layout.RoundTrip.{HeaderFits, decode_header-encode_header}
use xchange.Sio.{Kernel}
use xchange.Sio.Deliver.{Delivers, read_delivered, peek_delivered}
use xchange.Sio.Kept.{KeptByRecv}
use xchange.Crypto.{CryptoLib}
use xchange.SocketIo.{Session, Manager, ReadResult, accept_frame, overwrite}
use xchange.SocketIo.Io.{read_bytes}
use xchange.SocketIo.Receive.{read_plain_frame}

module _ (K : Kernel) (C : CryptoLib) (incoming : K.World → Bytes) (net : Delivers K incoming)
    (Kept : K.World → Type 0) (keeps : KeptByRecv K Kept) where
  abbrev St : Type 0
  St = Session C.Rng K.World

  -- What `ReadDataFrame` answers and leaves once the bytes `wire` of a frame are in the buffer.
  abbrev pub after_frame : DataFrameHeader → Bytes → Manager C.Rng → ReadResult × Manager C.Rng
  after_frame h wire m = accept_frame h (record m { pln_buffer = overwrite wire m.pln_buffer })

  pub read_plain_frame_arrives :
      (h : DataFrameHeader) (content rest : Bytes) (s : St)
      → HeaderFits h
      → h.data_size ≡ length content
      → h.data_size ≤ 1450
      → incoming s.world ≡ (encode_header h ++ content) ++ rest
      → Kept s.world
      → (w' : K.World) × (read_plain_frame K C s ≡ (
          let r = after_frame h (encode_header h ++ content) s.manager in
          some (r.0, record { manager = r.1; world = w' })))
        × (incoming w' ≡ rest)
        × Kept w'
  unfolding read_plain_frame read_bytes
  read_plain_frame_arrives h content rest s fits size small e kept =
      let wire = encode_header h ++ content in
      let head = decode_header-encode_header h (content ++ rest) fits in
      let len = length-append (encode_header h) content in
      let total = ap length e ∙ length-append wire rest in
      let (w1, r1, i1, c1) =
        peek_delivered K incoming net 10 s.world (omega arith)
          (omega (arith, head.1, len, total)) in
      let seen : take 10 (incoming s.world) ≡ encode_header h =
        ap (take 10) (e ∙ append_assoc (encode_header h) content rest)
        ∙ take-append_left 10 (encode_header h) (content ++ rest) (sym head.1) in
      let back : decode_header (encode_header h) ≡ h =
        ap decode_header (sym (append-nil (encode_header h)))
        ∙ (decode_header-encode_header h [] fits).0 in
      let (w2, r2, i2, c2) =
        read_delivered K incoming net (10 + h.data_size) w1 (omega arith)
          (omega (arith, head.1, len, total, ap length i1)) in
      let all_of = i1 ∙ e in
      let size_of_wire : 10 + h.data_size ≡ length wire = omega (arith, head.1, len) in
      let taken : take (10 + h.data_size) (incoming w1) ≡ wire =
        ap (take (10 + h.data_size)) all_of
        ∙ take-append_left (10 + h.data_size) wire rest size_of_wire in
      let left : incoming w2 ≡ rest =
        i2
        ∙ ap (drop (10 + h.data_size)) all_of
        ∙ drop-append_left (10 + h.data_size) wire rest size_of_wire in
      (
        w2,
        ground (arith, r1, seen, back, r2, taken),
        left,
        keeps.after_recv _ false w1 w2 _ c2 (keeps.after_recv 10 true s.world w1 _ c1 kept),
      )
