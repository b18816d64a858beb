-- ===== src/Transfer/Blocks.antt =====
-- The frames of a file's transfer, for a manager whose frames take `b` bytes of data.
use xchange.Prelude.{
  ℕ, zero, suc, ◌+◌, ◌-◌, ◌/◌, ◌%◌, ◌^◌, ◌≤◌, ◌<◌, ◌≡◌, ◌⊎◌, inl, inr, refl, arith, Bool, true,
  false, not, List, [], ◌∷◌, ◌++◌, Bytes, IsByte, length, take, drop, ltb, ◌==◌, if◌then◌else◌,
}
use xchange.Frame.{DataFrame}
use xchange.Client.Protocol.{data_frame, block_frame, eot_frame}
use xchange.Transfer.Frames.{frame_bytes, FrameFits}

-- The two block sizes: a plain frame's, and that of a frame within a sealed one.
abbrev pub IsBlock : ℕ → Type 0
IsBlock b = (b ≡ 1450) ⊎ (b ≡ 1434)

-- The frames of the file's blocks, from the counter `n` on: a block that comes short is the last.
unfoldable pub block_frames : ℕ → ℕ → ℕ → ℕ → Bytes → List DataFrame
block_frames b zero id n rest = []
block_frames b (suc fuel) id n rest =
    let more = block_frames b fuel id (n + 1) (drop b rest) in
    block_frame id (n + 1) (take b rest) ∷ (if ltb (length (take b rest)) b then [] else more)

-- The number of the last block's frame.
abbrev pub block_count : ℕ → Bytes → ℕ
block_count b bytes = length bytes / b + 1

-- The name, the blocks, and the frame with the EOT flag.
unfoldable pub file_frames : ℕ → ℕ → Bytes → Bytes → List DataFrame
file_frames b id name bytes =
    data_frame id 0 name
    ∷ (block_frames b (length bytes + 1) id 0 bytes
        ++ (eot_frame id (block_count b bytes + 1) ∷ []))

-- The last block comes short, and it is empty if the blocks end with the file.
unfoldable pub ends_short : ℕ → Bytes → Bool
ends_short b bytes = not (length bytes % b == 0)

-- What frames look like on a plain connection.
abbrev pub wire_of : List DataFrame → Bytes
wire_of [] = []
wire_of (f ∷ fs) = frame_bytes f ++ wire_of fs

unfoldable pub file_wire : ℕ → Bytes → Bytes → Bytes
file_wire id name bytes = wire_of (file_frames 1450 id name bytes)

module _ (b : ℕ) (ok : IsBlock b) where
  pub block_bounds : (1434 ≤ b) × (b ≤ 1450)
  block_bounds = elim ok [ inl e ↦ omega (arith, e) | inr e ↦ omega (arith, e) ]

  pub div_short : (n : ℕ) → n < b → n / b ≡ 0
  div_short n h = elim ok [
    | inl e ↦ rw e (omega (arith, e, h))
    | inr e ↦ rw e (omega (arith, e, h))
  ]

  pub div_full : (n : ℕ) → b ≤ n → n / b ≡ (n - b) / b + 1
  div_full n h = elim ok [ inl e ↦ rw e (omega (arith, e, h)) | inr e ↦ rw e (omega (arith, e, h)) ]

  pub mod_short : (n : ℕ) → n < b → n % b ≡ n
  mod_short n h = elim ok [
    | inl e ↦ rw e (omega (arith, e, h))
    | inr e ↦ rw e (omega (arith, e, h))
  ]

  pub mod_full : (n : ℕ) → b ≤ n → (n - b) % b ≡ n % b
  mod_full n h = elim ok [ inl e ↦ rw e (omega (arith, e, h)) | inr e ↦ rw e (omega (arith, e, h)) ]

pub block_frames_short :
    (b fuel id n : ℕ) (rest : Bytes)
    → ltb (length (take b rest)) b ≡ true
    → block_frames b (suc fuel) id n rest ≡ block_frame id (n + 1) (take b rest) ∷ []
unfolding block_frames
block_frames_short b fuel id n rest h = rw h

pub block_frames_full :
    (b fuel id n : ℕ) (rest : Bytes)
    → ltb (length (take b rest)) b ≡ false
    → block_frames b (suc fuel) id n rest
      ≡ block_frame id (n + 1) (take b rest) ∷ block_frames b fuel id (n + 1) (drop b rest)
unfolding block_frames
block_frames_full b fuel id n rest h = rw h

module _ (id n : ℕ) where
  pub data_frame-FrameFits :
      (chunk : Bytes)
      → length chunk ≤ 1450
      → IsByte id
      → n < 2 ^ 32
      → FrameFits (data_frame id n chunk)
  data_frame-FrameFits chunk small byte room = record {
    size = omega arith;
    small = small;
    order_nbr = room;
    flags = omega arith;
    transmission_id = byte;
  }

  pub block_frame-FrameFits :
      (chunk : Bytes)
      → length chunk ≤ 1450
      → IsByte id
      → n < 2 ^ 32
      → FrameFits (block_frame id n chunk)
  block_frame-FrameFits chunk small byte room = record {
    size = omega arith;
    small = small;
    order_nbr = room;
    flags = omega arith;
    transmission_id = byte;
  }

  pub eot_frame-FrameFits : IsByte id → n < 2 ^ 32 → FrameFits (eot_frame id n)
  eot_frame-FrameFits byte room = record {
    size = refl;
    small = omega arith;
    order_nbr = room;
    flags = omega arith;
    transmission_id = byte;
  }
