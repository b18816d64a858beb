-- ===== src/Sio/Duplex.antt =====
-- A connection whose two directions do not touch each other.
use xchange.Prelude.{ℕ, ◌≤◌, ◌<◌, ◌≡◌, ◌∙◌, false, Bool, Bytes, ◌++◌, length}
use xchange.Sio.{Kernel, got, wrote, done, read_from_socket, write_to_socket}
use xchange.Sio.Kept.{KeptByRecv, KeptByWrite}
use xchange.Sio.Deliver.{Delivers, read_prefix}
use xchange.Sio.Accepting.{Accepts, write_accepted}

-- Reads and writes are whole, a write leaves what arrives alone, and a read what was sent.
pub record Duplex (K : Kernel) (incoming outgoing : K.World → Bytes) : Type 0 where
  pub delivers : Delivers K incoming
  pub accepts : Accepts K outgoing
  pub write_quiet :
      (b : Bytes) (w w' : K.World) (n : ℕ) → K.write b w ≡ wrote n w' → incoming w' ≡ incoming w
  pub recv_quiet :
      (n : ℕ) (peek : Bool) (w w' : K.World) (xs : Bytes)
      → K.recv n peek w ≡ got xs w'
      → outgoing w' ≡ outgoing w

module _ (K : Kernel) (incoming outgoing : K.World → Bytes) (net : Duplex K incoming outgoing) where
  pub write_duplex :
      (b : Bytes) (w : K.World)
      → length b ≤ 1460
      → (w' : K.World) × (write_to_socket K b w ≡ done tt w')
        × (outgoing w' ≡ outgoing w ++ b)
        × (incoming w' ≡ incoming w)
  write_duplex b w h =
      let (w', e, once, out) = write_accepted K outgoing net.accepts b w h in
      (w', e, out, net.write_quiet b w w' (length b) once)

  pub read_duplex :
      (bs rest : Bytes) (w : K.World)
      → 0 < length bs
      → incoming w ≡ bs ++ rest
      → (w' : K.World) × (read_from_socket K (length bs) false w ≡ done bs w')
        × (incoming w' ≡ rest)
        × (outgoing w' ≡ outgoing w)
  read_duplex bs rest w pos e =
      let (w', r, left, received) = read_prefix K incoming net.delivers bs rest w pos e in
      (w', r, left, net.recv_quiet (length bs) false w w' bs received)

  pub write_keeps : (inbox : Bytes) → KeptByWrite K (λ w. incoming w ≡ inbox)
  write_keeps inbox = record { after_write = λ b w w' n e same. net.write_quiet b w w' n e ∙ same }

  pub recv_keeps : (sent : Bytes) → KeptByRecv K (λ w. outgoing w ≡ sent)
  recv_keeps sent = record {
    after_recv = λ n peek w w' xs e same. net.recv_quiet n peek w w' xs e ∙ same;
  }
