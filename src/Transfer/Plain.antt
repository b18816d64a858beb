-- ===== src/Transfer/Plain.antt =====
-- An unencrypted connection: its two ends as the loops of a transfer use them, and the exact bytes
-- of a file on it.
use xchange.Prelude.{
  ℕ, ◌+◌, ◌/◌, ◌^◌, ◌≤◌, ◌<◌, ◌≡◌, inl, refl, sym, ap, subst, ◌∙◌, arith, true, false, some, List,
  [], ◌∷◌, Bytes, IsByte, ◌++◌, append-nil, append_assoc, length, take_all,
}
use xchange.Sio.{Kernel, wrote}
use xchange.Sio.Kept.{KeptByRecv, KeptByWrite, Anything, write-Anything}
use xchange.Sio.Accepting.{Accepts, write_accepted}
use xchange.Sio.Deliver.{Delivers}
use xchange.Crypto.{CryptoLib}
use xchange.Frame.{DataFrame, frame_size}
use xchange.SocketIo.{Session, Manager}
use xchange.SocketIo.Io.{write_bytes, send_data_buffer}
use xchange.SocketIo.Send.{send_data_frame}
use xchange.Client.Protocol.{TransferInfo, send_file}
use xchange.Server.Files.{exists}
use xchange.Server.Files.Written.{Written}
use xchange.Server.Protocol.{Server, Params, target_path, recv_file}
use xchange.Transfer.Frames.{
  frame_bytes, FrameFits, header_of, length-frame_bytes, get_transmit_buffer-frame_bytes,
}
use xchange.Transfer.Blocks.{file_frames, file_wire, wire_of, ends_short}
use xchange.Transfer.Arrival.{Ready, read_data_frame_keeps}
use xchange.Transfer.Channel.{Outbound, Inbound}
use xchange.Transfer.SendFile.{send_file_sends}
use xchange.Transfer.RecvFile.{IsFilename, kept, recv_file-file_frames}

-- The manager of an unencrypted transfer.
pub record IsPlain {R : Type 0} (m : Manager R) : Type 0 where
  pub plain : m.encrypted ≡ false
  pub block : m.data_block_size ≡ 1450

module _ (K : Kernel) (C : CryptoLib) (outgoing : K.World → Bytes) (net : Accepts K outgoing) where
  abbrev St : Type 0
  St = Session C.Rng K.World

  -- A frame that fits is written whole by one call, and only the world changes.
  pub send_data_frame_writes :
      (f : DataFrame) (s : St)
      → FrameFits f
      → IsPlain s.manager
      → (w' : K.World) × (send_data_frame K C f s ≡ some (true, record s { world = w' }))
        × (outgoing w' ≡ outgoing s.world ++ frame_bytes f)
        × (K.write (frame_bytes f) s.world ≡ wrote (length (frame_bytes f)) w')
  unfolding send_data_frame send_data_buffer write_bytes frame_size header_of
  send_data_frame_writes f s fits p =
      let buffer = get_transmit_buffer-frame_bytes f fits in
      let len = length-frame_bytes f fits in
      let sizes : (frame_size f ≡ length (frame_bytes f)) × (length (frame_bytes f) ≤ 1460) =
        omega (arith, len, fits.size, fits.small) in
      let all = take_all (frame_size f) (frame_bytes f) (omega (arith, sizes)) in
      let (w', e, once, out) = write_accepted K outgoing net (frame_bytes f) s.world sizes.1 in
      (w', ground (arith, p.plain, buffer, all, e, sizes), out, once)

  module _ (Kept : K.World → Type 0) (keeps : KeptByWrite K Kept) where
    -- The manager `m` does not change, nor what a write keeps.
    abbrev Sending : Manager C.Rng → St → Type 0
    Sending m s = (s.manager ≡ m) × Kept s.world

    pub send_plain :
        (m : Manager C.Rng) (f : DataFrame) (k : Unit {0}) (s : St)
        → IsPlain m
        → FrameFits f
        → length f.data_pointer ≤ 1450
        → Sending m s
        → (out : Bytes) × (k' : Unit {0}) × (s' : St) × (send_data_frame K C f s ≡ some (true, s'))
          × (outgoing s'.world ≡ outgoing s.world ++ out)
          × Sending m s'
          × ((fs : List DataFrame) (w : Bytes) → w ≡ wire_of fs → out ++ w ≡ wire_of (f ∷ fs))
    send_plain m f k s p fits small (same, kept) =
        let (w', e, out, once) = send_data_frame_writes f s fits (subst IsPlain (sym same) p) in
        (
          frame_bytes f,
          tt,
          record s { world = w' },
          e,
          out,
          (same, keeps.after_write (frame_bytes f) s.world w' _ once kept),
          λ fs w h. ap (λ b. frame_bytes f ++ b) h,
        )

    -- The sending end.
    abbrev pub plain_out : (m : Manager C.Rng) → IsPlain m → Outbound K C outgoing
    plain_out m p = record {
      block = 1450;
      is_block = inl refl;
      Key = Unit {0};
      Wire = λ k fs w. w ≡ wire_of fs;
      nil = λ k. refl;
      Open = λ k s. Sending m s;
      block_size = λ k s sending. ap (λ n. n.data_block_size) sending.0 ∙ p.block;
      send = λ f k s fits small sending. send_plain m f k s p fits small sending;
    }

    -- `sendFile` changes the world only.
    pub send_file_keeps :
        (info : TransferInfo) (bytes : Bytes) (s : St)
        → info.source ≡ some bytes
        → info.bandwidth ≡ 0
        → length info.filename ≤ 1450
        → IsByte info.transmission_id
        → IsPlain s.manager
        → length bytes / 1450 + 3 ≤ 2 ^ 32
        → Kept s.world
        → (w' : K.World) × (send_file K C info s ≡ some (true, record s { world = w' }))
          × (outgoing w' ≡ outgoing s.world ++ file_wire info.transmission_id info.filename bytes)
          × Kept w'
    unfolding file_wire
    send_file_keeps info bytes s source fast small byte p room kept =
        let frames = file_frames 1450 info.transmission_id info.filename bytes in
        let (k', s', e, sent) =
          send_file_sends K C outgoing (plain_out s.manager p) info bytes tt s source fast small
            byte (refl, kept) room in
        let manager = sent.still_open.0 in
        let same : s' ≡ record s { world = s'.world } = ground (arith, manager) in
        let wire : sent.out ≡ wire_of frames =
          sym (append-nil sent.out) ∙ sent.reads [] [] refl ∙ ap wire_of (append-nil frames) in
        (
          s'.world,
          e ∙ ap (λ t. some (true, t)) same,
          sent.written ∙ ap (λ b. outgoing s.world ++ b) wire,
          sent.still_open.1,
        )

  -- On a socket that takes every write whole, `sendFile` of a file that can be read, with no speed
  -- limit, unencrypted, with a name of at most a block and few enough blocks for the frame counter,
  -- returns 0 and has written the frame with the name, a frame for each block and the EOT frame.
  pub send_file-file_wire :
      (info : TransferInfo) (bytes : Bytes) (s : St)
      → info.source ≡ some bytes
      → info.bandwidth ≡ 0
      → length info.filename ≤ 1450
      → IsByte info.transmission_id
      → IsPlain s.manager
      → length bytes / 1450 + 3 ≤ 2 ^ 32
      → (w' : K.World) × (send_file K C info s ≡ some (true, record s { world = w' }))
        × (outgoing w' ≡ outgoing s.world ++ file_wire info.transmission_id info.filename bytes)
  send_file-file_wire info bytes s source fast small byte p room =
      let (w', e, out, kept) =
        send_file_keeps (Anything K) (write-Anything K) info bytes s source fast small byte p room
          tt in
      (w', e, out)

module _ (K : Kernel) (C : CryptoLib) (incoming : K.World → Bytes) (net : Delivers K incoming)
    (Kept : K.World → Type 0) (keeps : KeptByRecv K Kept) where
  abbrev Holding : ℕ → ℕ → List DataFrame → Bytes → Session C.Rng K.World → Type 0
  Holding id n fs tail s =
      Ready id n s.manager × (incoming s.world ≡ wire_of fs ++ tail) × Kept s.world

  -- The receiving end.
  abbrev pub plain_in : Inbound K C
  plain_in = record {
    block = 1450;
    is_block = inl refl;
    Holds = Holding;
    Always = λ s. Kept s.world;
    holds-Always = λ id n fs tail s h. h.2;
    order = λ id n fs tail s h. h.0.order;
    read = λ id n f fs tail s fits small same_id same_order room h.
        let (s', e, larger, arrived, kept) =
          read_data_frame_keeps K C incoming net Kept keeps id n f (wire_of fs ++ tail) s fits h.0
            same_id same_order room (h.1 ∙ append_assoc (frame_bytes f) (wire_of fs) tail) h.2 in
        (s', e, (arrived.ready, arrived.left, kept), arrived.buffered);
  }

  pub recv_file-file_wire :
      (p : Params) (id : ℕ) (name path bytes tail : Bytes) (s : Server C.Rng K.World)
      → IsByte id
      → IsFilename name
      → length bytes / 1450 + 3 < 2 ^ 32
      → target_path p.out_dir name ≡ some path
      → exists path s.files ≡ false
      → s.files.can_open path ≡ true
      → Ready id 0 s.session.manager
      → incoming s.session.world ≡ file_wire id name bytes ++ tail
      → Kept s.session.world
      → (s' : Server C.Rng K.World) × (recv_file K C p s ≡ some (ends_short 1450 bytes, s'))
        × Written path (kept K C plain_in bytes) s.files s'.files
        × (s'.err_state ≡ s.err_state)
        × Kept s'.session.world
  unfolding file_wire
  recv_file-file_wire p id name path bytes tail s byte ok room target fresh can ready came kept =
      recv_file-file_frames K C plain_in p id name path bytes tail s byte ok room target fresh can
        (ready, came, kept)
