-- ===== src/Sio/Accepting.antt =====
-- A connection that takes every `write` of at most a frame whole, with a send buffer of twice a
-- frame at least.
use xchange.Prelude.{
  ℕ, suc, ◌%◌, ◌^◌, ◌≤◌, ◌≡◌, ◌∙◌, refl, arith, Option, none, some, Bytes, length, ◌++◌, take,
  take_all,
}
use xchange.Sio.{Kernel, wrote, done, chunk_size, write_loop, write_to_socket}
use xchange.Sio.Write.{first_state, write_to_socket-write_loop}

pub record Accepts (K : Kernel) (outgoing : K.World → Bytes) : Type 0 where
  pub accept :
      (b : Bytes) (w : K.World)
      → length b ≤ 1460
      → (w' : K.World) × (K.write b w ≡ wrote (length b) w') × (outgoing w' ≡ outgoing w ++ b)
  pub roomy : (w : K.World) (total : ℕ) → K.so_sndbuf w ≡ some total → 2920 ≤ total

chunk_size_roomy :
    (o : Option ℕ) (n : ℕ)
    → n ≤ 1460
    → ((total : ℕ) → o ≡ some total → 2920 ≤ total)
    → chunk_size o n ≡ n
unfolding chunk_size
chunk_size_roomy none n h room = ground arith
chunk_size_roomy (some total) n h room = ground (arith, room total refl)

module _ (K : Kernel) where
  write_loop_once :
      (b : Bytes) (fuel : ℕ) (w w' : K.World)
      → K.write b w ≡ wrote (length b) w'
      → write_loop K b (length b) (suc fuel) (first_state (length b)) w ≡ done tt w'
  unfolding write_loop
  write_loop_once b fuel w w' e =
      let all : take (length b) b ≡ b = take_all (length b) b (omega arith) in ground (arith, all)

module _ (K : Kernel) (outgoing : K.World → Bytes) (net : Accepts K outgoing) where
  pub write_accepted :
      (b : Bytes) (w : K.World)
      → length b ≤ 1460
      → (w' : K.World) × (write_to_socket K b w ≡ done tt w')
        × (K.write b w ≡ wrote (length b) w')
        × (outgoing w' ≡ outgoing w ++ b)
  write_accepted b w h =
      let (w', e, out) = net.accept b w h in
      let at_once : chunk_size (K.so_sndbuf w) (length b) % 2 ^ 32 ≡ length b =
        omega (arith, h, chunk_size_roomy (K.so_sndbuf w) (length b) h (net.roomy w)) in
      (
        w',
        write_to_socket-write_loop K b w (omega (arith, h))
            ∙ rw at_once (write_loop_once K b 20 w w' e),
        e,
        out,
      )
