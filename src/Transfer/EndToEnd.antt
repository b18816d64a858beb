-- ===== src/Transfer/EndToEnd.antt =====
-- `sendFile` of the client against `recv_file` of the server, unencrypted: what the one has written
-- to the socket is what the other has still to read.
use xchange.Prelude.{
  ◌+◌, ◌/◌, ◌%◌, ◌^◌, ◌<◌, ◌≡◌, ◌≢◌, refl, sym, ap, subst, ◌∙◌, arith, Bool, true, false, none,
  some, Bytes, IsByte, [], append-nil, length, drop, drop-append_left, if◌then◌else◌,
}
use xchange.Sio.{Kernel}
use xchange.Sio.Accepting.{Accepts}
use xchange.Sio.Kept.{Anything, recv-Anything}
use xchange.Sio.Deliver.{Delivers}
use xchange.Crypto.{CryptoLib}
use xchange.SocketIo.{Session}
use xchange.Client.Protocol.{TransferInfo, send_file}
use xchange.Server.Files.{exists}
use xchange.Server.Files.Written.{Written, Written-none}
use xchange.Server.Protocol.{Server, Params, target_path, recv_file}
use xchange.Transfer.Blocks.{ends_short}
use xchange.Transfer.Arrival.{Ready}
use xchange.Transfer.RecvFile.{IsFilename, kept}
use xchange.Transfer.Plain.{IsPlain, plain_in, send_file-file_wire, recv_file-file_wire}

-- The client that sends the file, as its command line and its control frame set it up.
pub record Sends {R W : Type 0} (info : TransferInfo) (bytes : Bytes) (s : Session R W)
    : Type 0 where
  pub source : info.source ≡ some bytes
  pub no_limit : info.bandwidth ≡ 0
  pub transmission_id : IsByte info.transmission_id
  pub name : IsFilename info.filename
  pub plain : IsPlain s.manager
  pub room : length bytes / 1450 + 3 < 2 ^ 32

-- The server that waits for the file, and the path it will get.
pub record Awaits {R W : Type 0} (info : TransferInfo) (p : Params) (path : Bytes) (s : Server R W)
    : Type 0 where
  pub ready : Ready info.transmission_id 0 s.session.manager
  pub target : target_path p.out_dir info.filename ≡ some path
  pub free : exists path s.files ≡ false
  pub can_open : s.files.can_open path ≡ true

-- The two ends: the server's socket holds what the client wrote since `s` and nothing else.
module _ (Kc Ks : Kernel) (C D : CryptoLib) (outgoing : Kc.World → Bytes)
    (incoming : Ks.World → Bytes) (accepts : Accepts Kc outgoing) (delivers : Delivers Ks incoming)
    (connect : Kc.World → Ks.World) where
  abbrev connected : Kc.World → Server D.Rng Ks.World → Server D.Rng Ks.World
  connected w t = record t { session = record t.session { world = connect w } }

  transfer_ends :
      (info : TransferInfo) (p : Params) (bytes path : Bytes) (s : Session C.Rng Kc.World)
      (t : Server D.Rng Ks.World)
      → Sends info bytes s
      → Awaits info p path t
      → ((w : Kc.World) → incoming (connect w) ≡ drop (length (outgoing s.world)) (outgoing w))
      → (w : Kc.World) × (t' : Server D.Rng Ks.World) × (send_file Kc C info s
          ≡ some (true, record s { world = w }))
        × (recv_file Ks D p (connected w t) ≡ some (ends_short 1450 bytes, t'))
        × Written path
            (kept Ks D (plain_in Ks D incoming delivers (Anything Ks) (recv-Anything Ks)) bytes)
            t.files
            t'.files
  transfer_ends info p bytes path s t sends awaits wire =
      let (w, sent, out) =
        send_file-file_wire Kc C outgoing accepts info bytes s sends.source sends.no_limit
          (omega (arith, sends.name.small)) sends.transmission_id sends.plain
          (omega (arith, sends.room)) in
      let came =
        wire w
        ∙ ap (drop (length (outgoing s.world))) out
        ∙ drop-append_left _ (outgoing s.world) _ refl
        ∙ sym (append-nil _) in
      let (t', received, files, same, kept_all) =
        recv_file-file_wire Ks D incoming delivers (Anything Ks) (recv-Anything Ks) p
          info.transmission_id info.filename path bytes [] (connected w t) sends.transmission_id
          sends.name sends.room awaits.target awaits.free awaits.can_open awaits.ready came tt in
      (w, t', sent, received, files)

  -- On sockets that take writes and deliver reads whole, with a server that expects the client's
  -- first frame at a path that is free and can be opened, and a file of less than 2 ^ 32 - 3 blocks
  -- with a proper name: a file whose size is no multiple of 1450 arrives. Both sides report
  -- success, the path holds the bytes that were sent, and no other file changes.
  pub file_arrives :
      (info : TransferInfo) (p : Params) (bytes path : Bytes) (s : Session C.Rng Kc.World)
      (t : Server D.Rng Ks.World)
      → Sends info bytes s
      → Awaits info p path t
      → ((w : Kc.World) → incoming (connect w) ≡ drop (length (outgoing s.world)) (outgoing w))
      → length bytes % 1450 ≢ 0
      → (w : Kc.World) × (t' : Server D.Rng Ks.World) × (send_file Kc C info s
          ≡ some (true, record s { world = w }))
        × (recv_file Ks D p (connected w t) ≡ some (true, t'))
        × Written path (some bytes) t.files t'.files
  unfolding ends_short
  file_arrives info p bytes path s t sends awaits wire size =
      let (w, t', sent, received, files) = transfer_ends info p bytes path s t sends awaits wire in
      let short : ends_short 1450 bytes ≡ true = ground (arith, size) in
      (
        w,
        t',
        sent,
        received ∙ ap (λ b. some (b, t')) short,
        subst (λ (b : Bool). Written path (if b then some bytes else none) t.files t'.files) short
            files,
      )

  -- On the same conditions, a file whose size is a multiple of 1450, the empty one too, is lost:
  -- `sendFile` reports success, `recv_file` an error, and every file is as it was before.
  pub file_lost :
      (info : TransferInfo) (p : Params) (bytes path : Bytes) (s : Session C.Rng Kc.World)
      (t : Server D.Rng Ks.World)
      → Sends info bytes s
      → Awaits info p path t
      → ((w : Kc.World) → incoming (connect w) ≡ drop (length (outgoing s.world)) (outgoing w))
      → length bytes % 1450 ≡ 0
      → (w : Kc.World) × (t' : Server D.Rng Ks.World) × (send_file Kc C info s
          ≡ some (true, record s { world = w }))
        × (recv_file Ks D p (connected w t) ≡ some (false, t'))
        × ((q : Bytes) → t'.files.content q ≡ t.files.content q)
  unfolding ends_short
  file_lost info p bytes path s t sends awaits wire size =
      let (w, t', sent, received, files) = transfer_ends info p bytes path s t sends awaits wire in
      let long : ends_short 1450 bytes ≡ false = ground (arith, size) in
      let gone =
        subst (λ (b : Bool). Written path (if b then some bytes else none) t.files t'.files) long
          files in
      (
        w,
        t',
        sent,
        received ∙ ap (λ b. some (b, t')) long,
        Written-none path t.files t'.files awaits.free gone,
      )
