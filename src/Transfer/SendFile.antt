-- ===== src/Transfer/SendFile.antt =====
-- All that `sendFile` sends for one file, without a speed limit, over a connection of either kind.
use xchange.Prelude.{
  ℕ, suc, ◌+◌, ◌/◌, ◌^◌, ◌≤◌, ◌<◌, ◌≡◌, refl, ap, ◌∙◌, arith, true, false, some, Bytes, IsByte,
  length,
}
use xchange.Sio.{Kernel}
use xchange.Crypto.{CryptoLib}
use xchange.SocketIo.{Session}
use xchange.SocketIo.Send.{send_data_frame}
use xchange.Client.Source.{FileIo, open_source}
use xchange.Client.Protocol.{
  TransferInfo, data_frame, eot_frame, next_order, send_blocks, send_rounds, send_file,
}
use xchange.Transfer.Blocks.{
  block_bounds, block_count, file_frames, data_frame-FrameFits, eot_frame-FrameFits,
}
use xchange.Transfer.Channel.{Outbound}
use xchange.Transfer.Sending.{Sent, Sent-trans, send_frame, send_blocks-block_frames}

module _ (K : Kernel) (C : CryptoLib) where
  -- The steps of `sendFile`, put together.
  send_file_steps :
      (info : TransferInfo) (bytes : Bytes) (k : ℕ) (s s1 s2 s3 : Session C.Rng K.World)
      → info.source ≡ some bytes
      → info.bandwidth ≡ 0
      → k + 1 < 2 ^ 32
      → send_data_frame K C (data_frame info.transmission_id 0 info.filename) s ≡ some (true, s1)
      → send_blocks K C
          (send_rounds K C bytes)
          info.transmission_id
          0
          (record { rest = bytes; good = true; error = false })
          s1
        ≡ some (some k, s2)
      → send_data_frame K C (eot_frame info.transmission_id (k + 1)) s2 ≡ some (true, s3)
      → send_file K C info s ≡ some (true, s3)
  unfolding send_file open_source
  send_file_steps info bytes k s s1 s2 s3 source fast room e1 e2 e3 =
      let order : next_order k ≡ k + 1 = omega (arith, room) in
      ground (arith, source, fast, e1, e2, order, e3)

module _ (K : Kernel) (C : CryptoLib) (outgoing : K.World → Bytes) (O : Outbound K C outgoing) where
  -- `sendFile` of a file that can be read, with a name of at most a block and few enough blocks for
  -- the frame counter, returns 0 and has sent the frames of the file.
  pub send_file_sends :
      (info : TransferInfo) (bytes : Bytes) (k : O.Key) (s : Session C.Rng K.World)
      → info.source ≡ some bytes
      → info.bandwidth ≡ 0
      → length info.filename ≤ O.block
      → IsByte info.transmission_id
      → O.Open k s
      → length bytes / O.block + 3 ≤ 2 ^ 32
      → (k' : O.Key) × (s' : Session C.Rng K.World) × (send_file K C info s ≡ some (true, s'))
        × Sent K C outgoing O
            (file_frames O.block info.transmission_id info.filename bytes)
            k
            s
            k'
            s'
  unfolding file_frames
  send_file_sends info bytes k s source fast small byte here room =
      let id = info.transmission_id in
      let b = O.block in
      let bounds = block_bounds b O.is_block in
      let file : FileIo = record { rest = bytes; good = true; error = false } in
      let (k1, s1, e1, sent1) =
        send_frame K C outgoing O (data_frame id 0 info.filename) k s
          (data_frame-FrameFits id 0 info.filename (omega (arith, small, bounds)) byte
            (omega arith))
          small here in
      let (k2, s2, e2, sent2) =
        send_blocks-block_frames K C outgoing O (length bytes + 1) id 0 file k1 s1 sent1.still_open
          byte refl (omega arith) (omega (arith, room)) in
      let (k3, s3, e3, sent3) =
        send_frame K C outgoing O (eot_frame id (block_count b bytes + 1)) k2 s2
          (eot_frame-FrameFits id (block_count b bytes + 1) byte (omega (arith, room)))
          (omega (arith, bounds)) sent2.still_open in
      let rounds : send_rounds K C bytes ≡ suc (length bytes + 1) = omega arith in
      let count : 0 + length bytes / b + 1 ≡ block_count b bytes = omega arith in
      let e2' =
        ap (λ (j : ℕ). send_blocks K C j id 0 file s1) rounds
        ∙ e2
        ∙ ap (λ (j : ℕ). some (some j, s2)) count in
      (
        k3,
        s3,
        send_file_steps K C info bytes (block_count b bytes) s s1 s2 s3 source fast
            (omega (arith, room)) e1 e2' e3,
        Sent-trans K C outgoing O sent1 (Sent-trans K C outgoing O sent2 sent3),
      )
