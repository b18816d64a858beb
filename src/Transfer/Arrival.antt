-- ===== src/Transfer/Arrival.antt =====
-- One plain frame from the socket to the buffer of the receiving `SocketIO_Manager`.
use xchange.Prelude.{
  ℕ, ◌+◌, ◌^◌, ◌<◌, ◌≤◌, ◌≡◌, refl, sym, ap, ◌∙◌, arith, false, some, Bytes, [], ◌++◌, append_assoc,
  length, length-append, length-drop, take, drop, take-append_left, drop-append_left, bit_and, ◌==◌,
  if◌then◌else◌,
}
use xchange.Wire.{flag_end_of_transmission}
use xchange.Wire.Layout.{encode_header}
use xchange.Wire.Layout.RoundTrip.{decode_header-encode_header}
use xchange.Tool.Fletcher.{fletcher16}
use xchange.Sio.{Kernel}
use xchange.Sio.Deliver.{Delivers}
use xchange.Sio.Kept.{KeptByRecv, Anything, recv-Anything}
use xchange.Crypto.{CryptoLib}
use xchange.Frame.{DataFrame}
use xchange.SocketIo.{
  Session, Manager, ReadResult, payload, eot, read_error, overwrite, accept_frame,
}
use xchange.SocketIo.Accept.{IsNext, verify_data_frame-IsNext}
use xchange.SocketIo.Receive.{read_data_frame}
use xchange.SocketIo.Receive.Plain.{read_plain_frame_arrives}
use xchange.Transfer.Frames.{header_of, frame_bytes, FrameFits, header_of-HeaderFits, payload_whole}

-- A manager of a plain transfer that expects the frame `n`.
pub record Ready {R : Type 0} (id n : ℕ) (m : Manager R) : Type 0 where
  pub plain : m.encrypted ≡ false
  pub block : m.data_block_size ≡ 1450
  pub transmission_id : m.ctrl_frame.transmission_id ≡ id
  pub order : m.frame_order_nbr ≡ n

-- What `ReadDataFrame` answers to a frame that is the next one.
abbrev pub answer : DataFrame → ReadResult
answer f =
    if f.header.data_size == 0
    then (if bit_and f.header.flags flag_end_of_transmission == 0 then read_error else eot)
    else payload f.header.data_size

-- The state after it.
pub record Arrived {R W : Type 0} (id n : ℕ) (content rest : Bytes) (incoming : W → Bytes)
    (s : Session R W) : Type 0 where
  pub ready : Ready id n s.manager
  pub buffered : take (length content) (drop 10 s.manager.pln_buffer) ≡ content
  pub left : incoming s.world ≡ rest

module _ {R : Type 0} (f : DataFrame) (fits : FrameFits f) (m : Manager R) where
  -- The bytes behind the header, once the frame is in the buffer.
  abbrev loaded : Manager R
  loaded = record m { pln_buffer = overwrite (frame_bytes f) m.pln_buffer }

  pub buffer_payload :
      (tail : Bytes)
      → take (length f.data_pointer) (drop 10 (frame_bytes f ++ tail)) ≡ f.data_pointer
  unfolding frame_bytes
  buffer_payload tail =
      let head = decode_header-encode_header (header_of f) [] (header_of-HeaderFits f fits) in
      let content = take f.header.data_size f.data_pointer in
      rw (
        append_assoc (encode_header (header_of f)) content tail,
        drop-append_left 10 (encode_header (header_of f)) (content ++ tail) (sym head.1),
        payload_whole f fits,
        take-append_left (length f.data_pointer) f.data_pointer tail refl,
      )

  loaded-IsNext :
      f.header.transmission_id ≡ m.ctrl_frame.transmission_id
      → f.header.order_nbr ≡ m.frame_order_nbr
      → m.data_block_size ≡ 1450
      → IsNext (header_of f) loaded
  unfolding header_of
  loaded-IsNext id order block = record {
    transmission_id = id;
    order_nbr = order;
    data_size = omega (arith, fits.size, fits.small);
    chksum = ap fletcher16 (
        ap (λ n. take n (drop 10 loaded.pln_buffer)) fits.size
        ∙ buffer_payload _
        ∙ sym (payload_whole f fits));
  }

  -- The next frame of a transfer is taken, unless it is empty without the EOT flag.
  accept_loaded :
      IsNext (header_of f) loaded
      → m.frame_order_nbr + 1 < 2 ^ 32
      → (accept_frame (header_of f) loaded).0 ≡ answer f
        × ((accept_frame (header_of f) loaded).1 ≡ record m {
          pln_buffer = overwrite (frame_bytes f) m.pln_buffer;
          frame_order_nbr = m.frame_order_nbr + 1;
        })
  unfolding accept_frame header_of
  accept_loaded next room =
      let ok = (verify_data_frame-IsNext (header_of f) loaded).1 next in ground (arith, ok)

module _ (K : Kernel) (C : CryptoLib) (incoming : K.World → Bytes) (net : Delivers K incoming)
    (Kept : K.World → Type 0) (keeps : KeptByRecv K Kept) where
  -- `ReadDataFrame` on the next frame.
  pub read_data_frame_keeps :
      (id n : ℕ) (f : DataFrame) (rest : Bytes) (s : Session C.Rng K.World)
      → FrameFits f
      → Ready id n s.manager
      → f.header.transmission_id ≡ id
      → f.header.order_nbr ≡ n
      → n + 1 < 2 ^ 32
      → incoming s.world ≡ frame_bytes f ++ rest
      → Kept s.world
      → (s' : Session C.Rng K.World) × (read_data_frame K C s ≡ some (answer f, s'))
        × (length s.manager.pln_buffer ≤ length s'.manager.pln_buffer)
        × Arrived id (n + 1) f.data_pointer rest incoming s'
        × Kept s'.world
  unfolding read_data_frame header_of frame_bytes
  read_data_frame_keeps id n f rest s fits ready same_id same_order room e kept =
      let h = header_of f in
      let content = take f.header.data_size f.data_pointer in
      let whole = ap length (payload_whole f fits) in
      let (w', run, left, kept') =
        read_plain_frame_arrives K C incoming net Kept keeps h content rest s
          (header_of-HeaderFits f fits) (omega (arith, whole, fits.size))
          (omega (arith, fits.size, fits.small)) e kept in
      let next =
        loaded-IsNext f fits s.manager (same_id ∙ sym ready.transmission_id)
          (same_order ∙ sym ready.order) ready.block in
      let (result, manager) = accept_loaded f fits s.manager next (omega (arith, ready.order)) in
      let manager' : Manager C.Rng = record s.manager {
        pln_buffer = overwrite (frame_bytes f) s.manager.pln_buffer;
        frame_order_nbr = s.manager.frame_order_nbr + 1;
      } in
      (
        record { manager = manager'; world = w' },
        ground (arith, run, ready.plain, result, manager),
        omega (
          arith,
          length-append (frame_bytes f) (drop (length (frame_bytes f)) s.manager.pln_buffer),
          length-drop (length (frame_bytes f)) s.manager.pln_buffer,
        ),
        record {
          ready = record {
            plain = ready.plain;
            block = ready.block;
            transmission_id = ready.transmission_id;
            order = ap (λ (k : ℕ). k + 1) ready.order;
          };
          buffered =
              buffer_payload f fits s.manager (drop (length (frame_bytes f)) s.manager.pln_buffer);
          left = left;
        },
        kept',
      )

module _ (K : Kernel) (C : CryptoLib) (incoming : K.World → Bytes) (net : Delivers K incoming) where
  -- If the bytes of a fitting frame come next on an unencrypted connection, with anything behind
  -- them, and the frame has the transfer's id and the number that is expected and is not the last
  -- of 2 ^ 32, `ReadDataFrame` answers its size (EOT or an error if it is empty, by its EOT flag),
  -- has its payload in the buffer (which is not shorter than before) behind the header, expects
  -- the next number, and leaves what is behind the frame in the socket.
  pub read_data_frame_arrives :
      (id n : ℕ) (f : DataFrame) (rest : Bytes) (s : Session C.Rng K.World)
      → FrameFits f
      → Ready id n s.manager
      → f.header.transmission_id ≡ id
      → f.header.order_nbr ≡ n
      → n + 1 < 2 ^ 32
      → incoming s.world ≡ frame_bytes f ++ rest
      → (s' : Session C.Rng K.World) × (read_data_frame K C s ≡ some (answer f, s'))
        × (length s.manager.pln_buffer ≤ length s'.manager.pln_buffer)
        × Arrived id (n + 1) f.data_pointer rest incoming s'
  read_data_frame_arrives id n f rest s fits ready same_id same_order room e =
      let (s', run, larger, arrived, kept) =
        read_data_frame_keeps K C incoming net (Anything K) (recv-Anything K) id n f rest s fits
          ready same_id same_order room e tt in
      (s', run, larger, arrived)
