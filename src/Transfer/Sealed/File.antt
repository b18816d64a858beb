-- ===== src/Transfer/Sealed/File.antt =====
-- `sendFile` of the client against `recv_file` of the server, encrypted.
use xchange.Prelude.{
  ℕ, ◌+◌, ◌/◌, ◌%◌, ◌^◌, ◌<◌, ◌≡◌, refl, sym, ap, subst, ◌∙◌, arith, Bool, true, false, not, none,
  some, Bytes, IsByte, [], ◌++◌, append-nil, length, drop, drop-append_left, ◌==◌, if◌then◌else◌,
}
use xchange.Sio.{Kernel}
use xchange.Sio.Duplex.{Duplex}
use xchange.Crypto.{CryptoLib, Keys, EncryptState}
use xchange.Crypto.Handler.{Cipher}
use xchange.Crypto.Handler.Session.{CryptoLaws}
use xchange.SocketIo.{Session}
use xchange.Client.Protocol.{TransferInfo, send_file}
use xchange.Server.Files.{exists}
use xchange.Server.Files.Written.{Written}
use xchange.Server.Protocol.{Server, Params, target_path, recv_file}
use xchange.Transfer.Blocks.{file_frames, ends_short}
use xchange.Transfer.SendFile.{send_file_sends}
use xchange.Transfer.RecvFile.{IsFilename, recv_file-file_frames}
use xchange.Transfer.Sealed.{SealedReady}
use xchange.Transfer.Sealed.Ends.{Sealing, SealedWire, SealedHolds, sealed_out, sealed_in}

-- The client that sends the file with the cipher `c`, in step with the keys `k.1`.
pub record SealedSends {W : Type 0} (C : CryptoLib) (c : Cipher) (k : EncryptState C.Rng × Keys)
    (info : TransferInfo) (bytes : Bytes) (s : Session C.Rng W) : Type 0 where
  pub source : info.source ≡ some bytes
  pub no_limit : info.bandwidth ≡ 0
  pub transmission_id : IsByte info.transmission_id
  pub name : IsFilename info.filename
  pub sealing : Sealing C c k s
  pub room : length bytes / 1434 + 3 < 2 ^ 32

-- The server that waits for the file with the keys `d`, and the path it will get.
pub record SealedAwaits {R W : Type 0} (c : Cipher) (d : Keys) (info : TransferInfo) (p : Params)
    (path : Bytes) (s : Server R W) : Type 0 where
  pub ready : SealedReady info.transmission_id 0 c d s.session.manager
  pub target : target_path p.out_dir info.filename ≡ some path
  pub free : exists path s.files ≡ false
  pub can_open : s.files.can_open path ≡ true

module _ (Kc Ks : Kernel) (C : CryptoLib) (arriving outgoing : Kc.World → Bytes)
    (incoming sent : Ks.World → Bytes) (client : Duplex Kc arriving outgoing)
    (server : Duplex Ks incoming sent) (laws : CryptoLaws C) (c : Cipher) where
  -- What `sendFile` of an encrypted transfer writes opens as the frames of the file.
  pub send_file_seals :
      (k : EncryptState C.Rng × Keys) (info : TransferInfo) (bytes : Bytes)
      (s : Session C.Rng Kc.World)
      → SealedSends C c k info bytes s
      → (s' : Session C.Rng Kc.World) × (wire : Bytes) × (send_file Kc C info s ≡ some (true, s'))
        × (outgoing s'.world ≡ outgoing s.world ++ wire)
        × (arriving s'.world ≡ arriving s.world)
        × SealedWire C c k.1 (file_frames 1434 info.transmission_id info.filename bytes) wire
  send_file_seals k info bytes s sends =
      let end =
        sealed_out Kc Ks C arriving outgoing incoming sent client server laws c (arriving s.world)
          [] in
      let frames = file_frames 1434 info.transmission_id info.filename bytes in
      let (k', s', e, passed) =
        send_file_sends Kc C outgoing end info bytes k s sends.source sends.no_limit
          (omega (arith, sends.name.small)) sends.transmission_id
          (record { sealing = sends.sealing; arrives = refl }) (omega (arith, sends.room)) in
      (
        s',
        passed.out,
        e,
        passed.written,
        passed.still_open.arrives,
        subst (λ fs. SealedWire C c k.1 fs passed.out) (append-nil frames)
            (subst (λ w. SealedWire C c k.1 (frames ++ []) w) (append-nil passed.out)
              (passed.reads [] [] refl)),
      )

  -- What `recv_file` of an encrypted transfer makes of bytes that open as the frames of a file.
  pub recv_file_opens :
      (d : Keys) (p : Params) (id : ℕ) (name path bytes wire tail : Bytes)
      (t : Server C.Rng Ks.World)
      → IsByte id
      → IsFilename name
      → length bytes / 1434 + 3 < 2 ^ 32
      → target_path p.out_dir name ≡ some path
      → exists path t.files ≡ false
      → t.files.can_open path ≡ true
      → SealedReady id 0 c d t.session.manager
      → SealedWire C c d (file_frames 1434 id name bytes) wire
      → incoming t.session.world ≡ wire ++ tail
      → (t' : Server C.Rng Ks.World) × (recv_file Ks C p t ≡ some (ends_short 1434 bytes, t'))
        × Written path (if ends_short 1434 bytes then some bytes else none) t.files t'.files
        × (t'.err_state ≡ t.err_state)
        × (sent t'.session.world ≡ sent t.session.world)
  recv_file_opens d p id name path bytes wire tail t byte ok room target free can ready opens came =
      let outbox = sent t.session.world in
      let holds : SealedHolds Kc Ks C arriving outgoing incoming sent client server laws c [] outbox
          id 0 (file_frames 1434 id name bytes) tail t.session =
        record {
          keys = d;
          wire = wire;
          ready = ready;
          opens = opens;
          coming = came;
          written = refl;
        } in
      recv_file-file_frames Ks C
        (sealed_in Kc Ks C arriving outgoing incoming sent client server laws c [] outbox) p id name
        path bytes tail t byte ok room target free can holds

  -- For each cipher, on duplex sockets that take writes and deliver reads whole, with a client and a
  -- server whose keys are in step, a server that expects the client's first frame at a path that is
  -- free and can be opened, a proper name, less than 2 ^ 32 - 3 blocks of 1434 bytes and no speed
  -- limit: `sendFile` reports success. If the size of the file is no multiple of 1434, `recv_file`
  -- does too, and the path holds the bytes that the client has read; else `recv_file` reports an
  -- error, and the path is free again. No other file changes.
  pub sealed_file_arrives :
      (k : EncryptState C.Rng × Keys) (info : TransferInfo) (p : Params) (bytes path : Bytes)
      (s : Session C.Rng Kc.World) (t : Server C.Rng Ks.World) (connect : Kc.World → Ks.World)
      → SealedSends C c k info bytes s
      → SealedAwaits c k.1 info p path t
      → ((w : Kc.World) → incoming (connect w) ≡ drop (length (outgoing s.world)) (outgoing w))
      → (s' : Session C.Rng Kc.World) × (t' : Server C.Rng Ks.World) × (send_file Kc C info s
          ≡ some (true, s'))
        × (recv_file Ks C p (record t { session = record t.session { world = connect s'.world } })
            ≡ some (not (length bytes % 1434 == 0), t'))
        × Written path (if length bytes % 1434 == 0 then none else some bytes) t.files t'.files
  unfolding ends_short
  sealed_file_arrives k info p bytes path s t connect sends awaits link =
      let (s', wire, e, written, arrives, opens) = send_file_seals k info bytes s sends in
      let at_server : Server C.Rng Ks.World = record t {
        session = record t.session { world = connect s'.world };
      } in
      let came : incoming (connect s'.world) ≡ wire ++ [] =
        link s'.world
        ∙ ap (drop (length (outgoing s.world))) written
        ∙ drop-append_left _ (outgoing s.world) wire refl
        ∙ sym (append-nil wire) in
      let (t', received, files, same, quiet) =
        recv_file_opens k.1 p info.transmission_id info.filename path bytes wire [] at_server
          sends.transmission_id sends.name sends.room awaits.target awaits.free awaits.can_open
          awaits.ready opens came in
      (
        s',
        t',
        e,
        received,
        subst (λ o. Written path o t.files t'.files) (kept_short (length bytes % 1434 == 0)) files,
      )
    where
      kept_short :
          (b : Bool) → (if not b then some bytes else none) ≡ (if b then none else some bytes)
      kept_short true = refl
      kept_short false = refl
