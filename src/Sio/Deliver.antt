-- ===== src/Sio/Deliver.antt =====
-- A connection on which MSG_WAITALL is met in full: what is asked for and will arrive is returned
-- by one call, as `recv` documents it when no signal, error or disconnect comes between.
use xchange.Prelude.{
  ℕ, ◌≤◌, ◌<◌, ◌≡◌, refl, ap, ◌∙◌, true, false, arith, Bytes, ◌++◌, length, length-append, take,
  drop, length-take, take-append_left, drop-append_left,
}
use xchange.Sio.{Kernel, got, done, read_from_socket}
use xchange.Sio.Read.{read_from_socket_whole}

pub record Delivers (K : Kernel) (incoming : K.World → Bytes) : Type 0 where
  pub recv_full :
      (n : ℕ) (w : K.World)
      → n ≤ length (incoming w)
      → (w' : K.World) × (K.recv n false w ≡ got (take n (incoming w)) w')
        × (incoming w' ≡ drop n (incoming w))
  pub peek_full :
      (n : ℕ) (w : K.World)
      → n ≤ length (incoming w)
      → (w' : K.World) × (K.recv n true w ≡ got (take n (incoming w)) w')
        × (incoming w' ≡ incoming w)

module _ (K : Kernel) (incoming : K.World → Bytes) (net : Delivers K incoming) where
  pub read_delivered :
      (n : ℕ) (w : K.World)
      → 0 < n
      → n ≤ length (incoming w)
      → (w' : K.World) × (read_from_socket K n false w ≡ done (take n (incoming w)) w')
        × (incoming w' ≡ drop n (incoming w))
        × (K.recv n false w ≡ got (take n (incoming w)) w')
  read_delivered n w pos h =
      let (w', e, f) = net.recv_full n w h in
      (
        w',
        read_from_socket_whole K n false w _ w' e (omega (arith, length-take n (incoming w))) pos,
        f,
        e,
      )

  -- The next bytes, and the call that returned them.
  pub read_prefix :
      (bs rest : Bytes) (w : K.World)
      → 0 < length bs
      → incoming w ≡ bs ++ rest
      → (w' : K.World) × (read_from_socket K (length bs) false w ≡ done bs w')
        × (incoming w' ≡ rest)
        × (K.recv (length bs) false w ≡ got bs w')
  read_prefix bs rest w pos e =
      let n = length bs in
      let front : take n (incoming w) ≡ bs = ap (take n) e ∙ take-append_left n bs rest refl in
      let (w', r, left) = net.recv_full n w (omega (arith, ap length e, length-append bs rest)) in
      let received : K.recv n false w ≡ got bs w' = r ∙ ap (λ x. got x w') front in
      (
        w',
        read_from_socket_whole K n false w bs w' received refl pos,
        left ∙ ap (drop n) e ∙ drop-append_left n bs rest refl,
        received,
      )

  pub peek_delivered :
      (n : ℕ) (w : K.World)
      → 0 < n
      → n ≤ length (incoming w)
      → (w' : K.World) × (read_from_socket K n true w ≡ done (take n (incoming w)) w')
        × (incoming w' ≡ incoming w)
        × (K.recv n true w ≡ got (take n (incoming w)) w')
  peek_delivered n w pos h =
      let (w', e, f) = net.peek_full n w h in
      (
        w',
        read_from_socket_whole K n true w _ w' e (omega (arith, length-take n (incoming w))) pos,
        f,
        e,
      )
