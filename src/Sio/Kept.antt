-- ===== src/Sio/Kept.antt =====
-- What the calls of a socket leave alone.
use xchange.Prelude.{ℕ, ◌≡◌, Bool, Bytes}
use xchange.Sio.{Kernel, got, wrote}

pub record KeptByRecv (K : Kernel) (Kept : K.World → Type 0) : Type 0 where
  pub after_recv :
      (n : ℕ) (peek : Bool) (w w' : K.World) (xs : Bytes)
      → K.recv n peek w ≡ got xs w'
      → Kept w
      → Kept w'

pub record KeptByWrite (K : Kernel) (Kept : K.World → Type 0) : Type 0 where
  pub after_write :
      (b : Bytes) (w w' : K.World) (n : ℕ) → K.write b w ≡ wrote n w' → Kept w → Kept w'

-- Nothing to keep.
abbrev pub Anything : (K : Kernel) → K.World → Type 0
Anything K w = Unit {0}

pub recv-Anything : (K : Kernel) → KeptByRecv K (Anything K)
recv-Anything K = record { after_recv = λ n peek w w' xs e kept. tt }

pub write-Anything : (K : Kernel) → KeptByWrite K (Anything K)
write-Anything K = record { after_write = λ b w w' n e kept. tt }
