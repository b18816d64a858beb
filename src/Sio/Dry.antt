-- ===== src/Sio/Dry.antt =====
-- `read_from_socket` on a connection on which nothing more arrives: `recv` returns 0, as at the
-- end of the stream.
use xchange.Prelude.{ℕ, zero, suc, ◌≤◌, ◌<◌, ◌≡◌, ◌∙◌, arith, false, [], Bytes, append-nil}
use xchange.Sio.Duplex.{Duplex}
use xchange.Sio.{Kernel, got, failed, initial_retry, read_rounds, read_loop, read_from_socket}

pub record RunsDry (K : Kernel) (incoming : K.World → Bytes) : Type 0 where
  pub recv_dry :
      (n : ℕ) (w : K.World)
      → incoming w ≡ []
      → (w' : K.World) × (K.recv n false w ≡ got [] w') × (incoming w' ≡ [])

module _ (K : Kernel) (incoming outgoing : K.World → Bytes) (duplex : Duplex K incoming outgoing)
    (net : RunsDry K incoming) where
  -- Each round takes one from the counter, and the loop fails at 0.
  read_loop_dry :
      (fuel counter n : ℕ) (received : Bytes) (w : K.World)
      → 0 < n
      → 0 < counter
      → counter ≤ fuel
      → incoming w ≡ []
      → (w' : K.World) × (read_loop K false fuel
            (record { retry_counter = counter; remaining_bytes = n; received = received })
            w
          ≡ failed w')
        × (outgoing w' ≡ outgoing w)
  unfolding read_loop
  read_loop_dry zero counter n received w pos c enough dry = absurd (omega arith)
  read_loop_dry (suc fuel) zero n received w pos c enough dry = absurd (omega arith)
  read_loop_dry (suc fuel) (suc zero) n received w pos c enough dry =
      let (w', e, still) = net.recv_dry n w dry in
      (w', ground (arith, e), duplex.recv_quiet n false w w' [] e)
  read_loop_dry (suc fuel) (suc (suc k)) n received w pos c enough dry =
      let (w1, e, still) = net.recv_dry n w dry in
      let (w', rest, out) =
        read_loop_dry fuel (suc k) n received w1 pos (omega arith) (omega arith) still in
      (w', ground (arith, e, append-nil received, rest), out ∙ duplex.recv_quiet n false w w1 [] e)

  pub read_from_socket_dry :
      (n : ℕ) (w : K.World)
      → 0 < n
      → incoming w ≡ []
      → (w' : K.World) × (read_from_socket K n false w ≡ failed w') × (outgoing w' ≡ outgoing w)
  unfolding read_from_socket
  read_from_socket_dry n w pos dry =
      read_loop_dry (read_rounds n (K.interrupts w)) initial_retry n [] w pos (omega arith)
        (omega arith) dry
