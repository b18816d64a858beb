-- ===== src/Sio/Read.antt =====
-- `sio::read_from_socket`: how many bytes it returns, which, and when it gives up.
use xchange.Prelude.{
  ℕ, zero, suc, ◌+◌, ◌-◌, ◌*◌, ◌≤◌, ◌<◌, ◌≡◌, refl, ◌≢◌, ◌⊎◌, inl, inr, arith, Bool, false, ◌&&◌,
  some, [], ◌∷◌, ◌++◌, append_assoc, Bytes, length, length-append, ltb, ◌==◌, if◌then◌else◌,
  Option-cases,
}
use xchange.Sio.{
  Kernel, Recv, got, recv_transient, recv_fatal, done, failed, stuck, ReadState, drop_last,
  read_loop, read_from_socket,
}

-- What the documentation of `recv` promises, and that only finitely many transient errors come.
pub record RecvLaws (K : Kernel) : Type 0 where
  pub got-le :
      (n : ℕ) (p : Bool) (w : K.World) (xs : Bytes) (w' : K.World)
      → K.recv n p w ≡ got xs w'
      → length xs ≤ n
  pub got-interrupts :
      (n : ℕ) (p : Bool) (w : K.World) (xs : Bytes) (w' : K.World)
      → K.recv n p w ≡ got xs w'
      → K.interrupts w' ≤ K.interrupts w
  pub transient-interrupts :
      (n : ℕ) (p : Bool) (w w' : K.World)
      → K.recv n p w ≡ recv_transient w'
      → K.interrupts w' < K.interrupts w

Recv-cases :
    {W : Type 0} (r : Recv W)
    → ((w : W) × (r ≡ recv_transient w))
      ⊎ ((w : W) × (r ≡ recv_fatal w))
      ⊎ ((xs : Bytes) × (w : W) × (r ≡ got xs w))
Recv-cases (got xs w) = inr (inr (xs, w, refl))
Recv-cases (recv_transient w) = inl (w, refl)
Recv-cases (recv_fatal w) = inr (inl (w, refl))

abbrev after_got : Bytes → ReadState → ReadState
after_got xs s = record {
  retry_counter =
      if ltb 0 (s.remaining_bytes - length xs) && length xs == 0
      then s.retry_counter - 1
      else s.retry_counter;
  remaining_bytes = s.remaining_bytes - length xs;
  received = s.received ++ xs;
}

abbrev after_retry : Bytes → ReadState → ReadState
after_retry p s = record {
  retry_counter = s.retry_counter + 1;
  remaining_bytes = s.remaining_bytes + 1;
  received = p;
}

length-drop_last : (xs : Bytes) {p : Bytes} → drop_last xs ≡ some p → length p + 1 ≡ length xs
unfolding drop_last
length-drop_last [] e = cc
length-drop_last (x ∷ []) e = ground arith
length-drop_last (x ∷ y ∷ r) e = elim (Option-cases (drop_last (y ∷ r))) [
  | inl f ↦ ground arith
  | inr (q, f) ↦ ground (arith, length-drop_last (y ∷ r) f)
]

module _ (K : Kernel) (laws : RecvLaws K) where
  open K use {World, recv, interrupts}

  read_loop-ne-stuck :
      (peek : Bool) (fuel : ℕ) (s : ReadState) (w : World)
      → 0 < s.retry_counter
      → s.remaining_bytes + s.retry_counter + 3 * interrupts w < fuel
      → read_loop K peek fuel s w ≢ stuck
  unfolding read_loop
  read_loop-ne-stuck peek zero s w c h = absurd (omega arith)
  read_loop-ne-stuck peek (suc fuel) s w c h = elim (Recv-cases (recv s.remaining_bytes peek w)) [
    | inl (w', e) ↦ elim (Option-cases (drop_last s.received)) [
      | inl f ↦ ground arith
      | inr (p, f) ↦ ground (
        arith,
        laws.transient-interrupts _ peek w w' e,
        read_loop-ne-stuck peek fuel (after_retry p s) w',
      )
    ]
    | inr (inl (w', e)) ↦ ground arith
    | inr (inr (xs, w', e)) ↦ ground (
      arith,
      laws.got-interrupts _ peek w xs w' e,
      read_loop-ne-stuck peek fuel (after_got xs s) w',
    )
  ]

  -- For every kernel whose `recv` returns at most the bytes asked for and is interrupted finitely
  -- often, `read_from_socket` ends within the model's fuel, for every size and with or without
  -- MSG_PEEK.
  pub read_from_socket-ne-stuck :
      (size : ℕ) (peek : Bool) (w : World) → read_from_socket K size peek w ≢ stuck
  unfolding read_from_socket
  read_from_socket-ne-stuck size peek w = read_loop-ne-stuck peek _ _ w (omega arith) (omega arith)

  length-read_loop :
      (peek : Bool) (fuel : ℕ) (s : ReadState) (w : World) (xs : Bytes) (w' : World)
      → read_loop K peek fuel s w ≡ done xs w'
      → length xs ≡ length s.received + s.remaining_bytes
  unfolding read_loop
  length-read_loop peek zero s w xs w' r = cc
  length-read_loop peek (suc fuel) s w xs w' r = elim (Recv-cases (recv s.remaining_bytes peek w)) [
    | inl (w1, e) ↦ elim (Option-cases (drop_last s.received)) [
      | inl f ↦ ground arith
      | inr (p, f) ↦ ground (
        arith,
        length-drop_last s.received f,
        length-read_loop peek fuel (after_retry p s) w1 xs w',
      )
    ]
    | inr (inl (w1, e)) ↦ ground arith
    | inr (inr (ys, w1, e)) ↦ ground (
      arith,
      laws.got-le _ peek w ys w1 e,
      length-append s.received ys,
      length-read_loop peek fuel (after_got ys s) w1 xs w',
    )
  ]

  -- For such a kernel, if `read_from_socket` returns 0, the buffer has as many bytes as were asked
  -- for.
  pub length-read_from_socket :
      (size : ℕ) (peek : Bool) (w : World) (xs : Bytes) (w' : World)
      → read_from_socket K size peek w ≡ done xs w'
      → length xs ≡ size
  unfolding read_from_socket
  length-read_from_socket size peek w xs w' r = omega (arith, length-read_loop peek _ _ w xs w' r)

-- What `recv` without MSG_PEEK promises of a world that knows the bytes still to come.
pub record StreamLaws (K : Kernel) (incoming : K.World → Bytes) : Type 0 where
  pub got-incoming :
      (n : ℕ) (w : K.World) (xs : Bytes) (w' : K.World)
      → K.recv n false w ≡ got xs w'
      → incoming w ≡ xs ++ incoming w'

module _ (K : Kernel) (incoming : K.World → Bytes) (stream : StreamLaws K incoming) where
  open K use {World, recv}

  read_loop-in_order :
      ((n : ℕ) (w w' : World) → recv n false w ≢ recv_transient w')
      → (fuel : ℕ) (s : ReadState) (w : World) (xs : Bytes) (w' : World)
      → read_loop K false fuel s w ≡ done xs w'
      → s.received ++ incoming w ≡ xs ++ incoming w'
  unfolding read_loop
  read_loop-in_order calm zero s w xs w' r = cc
  read_loop-in_order calm (suc fuel) s w xs w' r =
      elim (Recv-cases (recv s.remaining_bytes false w)) [
        | inl (w1, e) ↦ absurd (calm _ w w1 e)
        | inr (inl (w1, e)) ↦ ground arith
        | inr (inr (ys, w1, e)) ↦ ground (
          arith,
          stream.got-incoming _ w ys w1 e,
          append_assoc s.received ys (incoming w1),
          read_loop-in_order calm fuel (after_got ys s) w1 xs w',
        )
      ]

  -- For a kernel that never reports a transient error, if `read_from_socket` without MSG_PEEK
  -- returns 0, the buffer holds the next bytes of the stream, in order, and the rest of the stream
  -- is still to come, however the kernel cuts the stream into reads.
  pub read_from_socket-in_order :
      (size : ℕ) (w : World) (xs : Bytes) (w' : World)
      → ((n : ℕ) (v v' : World) → recv n false v ≢ recv_transient v')
      → read_from_socket K size false w ≡ done xs w'
      → incoming w ≡ xs ++ incoming w'
  unfolding read_from_socket
  read_from_socket-in_order size w xs w' calm r = read_loop-in_order calm _ _ w xs w' r

module _ (K : Kernel) where
  open K use {World, recv}

  read_loop_whole :
      (fuel : ℕ) (peek : Bool) (s : ReadState) (w : World) (xs : Bytes) (w' : World)
      → recv s.remaining_bytes peek w ≡ got xs w'
      → length xs ≡ s.remaining_bytes
      → 0 < s.remaining_bytes
      → 0 < s.retry_counter
      → read_loop K peek (suc (suc fuel)) s w ≡ done (s.received ++ xs) w'
  unfolding read_loop
  read_loop_whole fuel peek s w xs w' e len pos c = ground arith

  -- A call of `recv` that delivers all that was asked for ends the loop.
  pub read_from_socket_whole :
      (size : ℕ) (peek : Bool) (w : World) (xs : Bytes) (w' : World)
      → recv size peek w ≡ got xs w'
      → length xs ≡ size
      → 0 < size
      → read_from_socket K size peek w ≡ done xs w'
  unfolding read_from_socket
  read_from_socket_whole size peek w xs w' e len pos =
      let fuel = size + 98 + 3 * K.interrupts w + 1 in
      let e' : size + 100 + 3 * K.interrupts w + 1 ≡ suc (suc fuel) = omega arith in
      rw e' (read_loop_whole fuel peek _ w xs w' e len pos (omega arith))

  -- A read of at least one byte whose first `recv` reports an error that is meant to be retried
  -- (EAGAIN, EWOULDBLOCK, EINTR) fails at once: the retry counter starts at 100, above
  -- MAX_READ_RETRY_ON_ERR.
  pub read_from_socket_no_retry :
      (size : ℕ) (peek : Bool) (w w' : World)
      → 0 < size
      → recv size peek w ≡ recv_transient w'
      → read_from_socket K size peek w ≡ failed w'
  unfolding read_from_socket read_loop
  read_from_socket_no_retry size peek w w' pos e = ground arith
