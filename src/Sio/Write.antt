-- ===== src/Sio/Write.antt =====
-- How `sio::write_to_socket` of src/xchange.hpp ends, and what it has sent by then.
use xchange.Prelude.{
  ℕ, zero, suc, ◌+◌, ◌-◌, ◌%◌, ◌^◌, false, ◌≤◌, ◌<◌, ◌≡◌, refl, sym, ◌∙◌, ap, ◌≢◌, ◌⊎◌, arith, ◌++◌,
  append-nil, append_assoc, Bytes, length, take, drop, length-take, take-take, take_add, take_all,
  leb, ltb, if◌then◌else◌, Bool-cases, inl, inr,
}
use xchange.Sio.{
  Kernel, Sent, wrote, sent_transient, sent_fatal, Outcome, done, failed, out_of_bounds, stuck,
  WriteState, write_loop, write_to_socket, max_resend, max_send_retry_on_err, chunk_size,
  write_rounds,
}

-- What the documentation of `write` promises of a world that remembers all bytes written to the
-- socket: a call takes a prefix of its buffer, and an error takes none.
pub record WriteLaws (K : Kernel) (outgoing : K.World → Bytes) : Type 0 where
  pub wrote-le :
      (b : Bytes) (w : K.World) (n : ℕ) (w' : K.World) → K.write b w ≡ wrote n w' → n ≤ length b
  pub wrote-outgoing :
      (b : Bytes) (w : K.World) (n : ℕ) (w' : K.World)
      → K.write b w ≡ wrote n w'
      → outgoing w' ≡ outgoing w ++ take n b
  pub transient-outgoing :
      (b : Bytes) (w w' : K.World) → K.write b w ≡ sent_transient w' → outgoing w' ≡ outgoing w
  pub fatal-outgoing :
      (b : Bytes) (w w' : K.World) → K.write b w ≡ sent_fatal w' → outgoing w' ≡ outgoing w

Sent-cases :
    {W : Type 0} (r : Sent W)
    → ((w : W) × (r ≡ sent_transient w))
      ⊎ ((w : W) × (r ≡ sent_fatal w))
      ⊎ ((n : ℕ) × (w : W) × (r ≡ wrote n w))
Sent-cases (wrote n w) = inr (inr (n, w, refl))
Sent-cases (sent_transient w) = inl (w, refl)
Sent-cases (sent_fatal w) = inr (inl (w, refl))

abbrev chunk_of : Bytes → ℕ → WriteState → Bytes
chunk_of buffer at_once s =
    take (if leb at_once s.bytes_remaining then at_once else s.bytes_remaining)
      (drop s.bytes_sent buffer)

-- The state before the first round.
abbrev pub first_state : ℕ → WriteState
first_state remaining = record {
  retry_count_err = 0;
  resend_count = 0;
  bytes_sent = 0;
  bytes_remaining = remaining;
}

abbrev after_retry : WriteState → WriteState
after_retry s = record s { retry_count_err = s.retry_count_err + 1 }

abbrev after_resend : ℕ → WriteState → WriteState
after_resend n s = record s {
  resend_count = s.resend_count + 1;
  bytes_sent = s.bytes_sent + n;
  bytes_remaining = s.bytes_remaining - n;
}

module _ (K : Kernel) where
  open K use {World, write}

  write_loop-ne-stuck :
      (buffer : Bytes) (at_once fuel : ℕ) (s : WriteState) (w : World)
      → (max_resend + 1 - s.resend_count) + (max_send_retry_on_err + 1 - s.retry_count_err) < fuel
      → write_loop K buffer at_once fuel s w ≢ stuck
  unfolding write_loop
  write_loop-ne-stuck buffer at_once zero s w h = absurd (omega arith)
  write_loop-ne-stuck buffer at_once (suc fuel) s w h =
      elim (Sent-cases (write (chunk_of buffer at_once s) w)) [
        | inl (w', e) ↦ ground (arith, write_loop-ne-stuck buffer at_once fuel (after_retry s) w')
        | inr (inl (w', e)) ↦ ground arith
        | inr (inr (n, w', e)) ↦
            ground (arith, write_loop-ne-stuck buffer at_once fuel (after_resend n s) w')
      ]

  write_loop-in_bounds :
      (buffer : Bytes) (at_once fuel : ℕ) (s : WriteState) (w w' : World)
      → write_loop K buffer at_once fuel s w ≢ out_of_bounds w'
  unfolding write_loop
  write_loop-in_bounds buffer at_once zero s w w' = λ e. cc
  write_loop-in_bounds buffer at_once (suc fuel) s w w' =
      elim (Sent-cases (write (chunk_of buffer at_once s) w)) [
        | inl (w1, e) ↦
            ground (arith, write_loop-in_bounds buffer at_once fuel (after_retry s) w1 w')
        | inr (inl (w1, e)) ↦ ground arith
        | inr (inr (n, w1, e)) ↦
            ground (arith, write_loop-in_bounds buffer at_once fuel (after_resend n s) w1 w')
      ]

  -- The loop ends within its fuel, whatever the kernel does.
  pub write_to_socket-ne-stuck : (buffer : Bytes) (w : World) → write_to_socket K buffer w ≢ stuck
  unfolding write_to_socket
  write_to_socket-ne-stuck buffer w =
      let at_once = chunk_size (K.so_sndbuf w) (length buffer) % 2 ^ 32 in
      let rounds =
        write_loop-ne-stuck buffer at_once write_rounds (first_state (length buffer % 2 ^ 32)) w
          (omega arith) in
      elim (Bool-cases (leb (2 ^ 31) (length buffer % 2 ^ 32))) [
        | inl negative ↦ ground (arith, negative)
        | inr fits ↦ ground (arith, fits, rounds)
      ]

  -- Below 2 ^ 31 bytes the `int` counts the buffer.
  pub write_to_socket-write_loop :
      (buffer : Bytes) (w : World)
      → length buffer < 2 ^ 31
      → write_to_socket K buffer w
        ≡ write_loop K buffer
            (chunk_size (K.so_sndbuf w) (length buffer) % 2 ^ 32)
            write_rounds
            (first_state (length buffer))
            w
  unfolding write_to_socket
  write_to_socket-write_loop buffer w small =
      let n : length buffer % 2 ^ 32 ≡ length buffer = omega arith in
      let fits : leb (2 ^ 31) (length buffer) ≡ false = ground arith in rw (n, fits) refl

module _ (K : Kernel) (outgoing : K.World → Bytes) (laws : WriteLaws K outgoing) where
  open K use {World, write}

  module _ (before buffer : Bytes) (at_once : ℕ) where
    -- The state after some rounds: the counts fit the buffer, and the socket has its first bytes.
    record Progress (s : WriteState) (w : World) : Type 0 where
      counts : s.bytes_sent + s.bytes_remaining ≡ length buffer
      delivered : outgoing w ≡ before ++ take s.bytes_sent buffer

    Progress-resend :
        (s : WriteState) (w w' : World) (n : ℕ)
        → Progress s w
        → write (chunk_of buffer at_once s) w ≡ wrote n w'
        → Progress (after_resend n s) w'
    Progress-resend s w w' n p e =
        let k = if leb at_once s.bytes_remaining then at_once else s.bytes_remaining in
        let n_le = laws.wrote-le _ w n w' e in
        let k_le : k ≤ s.bytes_remaining = ground arith in
        let rest = drop s.bytes_sent buffer in
        let short = length-take k rest in
        record {
          counts = omega arith;
          delivered =
              laws.wrote-outgoing _ w n w' e
              ∙ ap (λ b. b ++ take n (chunk_of buffer at_once s)) p.delivered
              ∙ append_assoc before _ _
              ∙ ap (λ b. before ++ (take s.bytes_sent buffer ++ b))
                  (take-take n k rest (omega arith))
              ∙ ap (◌++◌ before) (sym (take_add s.bytes_sent n buffer));
        }

    Progress-retry :
        (s : WriteState) (w w' : World)
        → Progress s w
        → write (chunk_of buffer at_once s) w ≡ sent_transient w'
        → Progress (after_retry s) w'
    Progress-retry s w w' p e = record {
      counts = p.counts;
      delivered = laws.transient-outgoing _ w w' e ∙ p.delivered;
    }

    write_loop-done :
        (fuel : ℕ) (s : WriteState) (w w' : World)
        → Progress s w
        → write_loop K buffer at_once fuel s w ≡ done tt w'
        → outgoing w' ≡ before ++ buffer
    unfolding write_loop
    write_loop-done zero s w w' p r = cc
    write_loop-done (suc fuel) s w w' p r =
        elim (Sent-cases (write (chunk_of buffer at_once s) w)) [
          | inl (w1, e) ↦
              ground (arith, write_loop-done fuel (after_retry s) w1 w' (Progress-retry s w w1 p e))
          | inr (inl (w1, e)) ↦ ground arith
          | inr (inr (n, w1, e)) ↦
              let q = Progress-resend s w w1 n p e in
              ground (
                arith,
                write_loop-done fuel (after_resend n s) w1 w' q,
                q.delivered,
                q.counts,
                take_all (s.bytes_sent + n) buffer,
              )
        ]

    abbrev PrefixSent : World → Type 0
    PrefixSent w = (n : ℕ) × (n ≤ length buffer) × (outgoing w ≡ before ++ take n buffer)

    write_loop-failed :
        (fuel : ℕ) (s : WriteState) (w w' : World)
        → Progress s w
        → write_loop K buffer at_once fuel s w ≡ failed w'
        → PrefixSent w'
    unfolding write_loop
    write_loop-failed zero s w w' p r = cc
    write_loop-failed (suc fuel) s w w' p r =
        elim (Bool-cases (ltb max_send_retry_on_err s.retry_count_err)) [
          | inl stop ↦ (s.bytes_sent, omega (arith, p.counts), ground (arith, p.delivered))
          | inr go ↦ elim (Bool-cases (ltb max_resend s.resend_count)) [
            | inl stop ↦ (s.bytes_sent, omega (arith, p.counts), ground (arith, p.delivered))
            | inr on ↦ elim (Sent-cases (write (chunk_of buffer at_once s) w)) [
              | inl (w1, e) ↦
                  write_loop-failed fuel (after_retry s) w1 w' (Progress-retry s w w1 p e)
                    (ground arith)
              | inr (inl (w1, e)) ↦ (
                s.bytes_sent,
                omega (arith, p.counts),
                ground (arith, p.delivered, laws.fatal-outgoing _ w w1 e),
              )
              | inr (inr (n, w1, e)) ↦
                  write_loop-failed fuel (after_resend n s) w1 w' (Progress-resend s w w1 n p e)
                    (ground arith)
            ]
          ]
        ]

  start :
      (buffer : Bytes) (at_once : ℕ) (w : World)
      → Progress (outgoing w) buffer at_once (first_state (length buffer)) w
  start buffer at_once w = record {
    counts = omega arith;
    delivered = sym (append-nil (outgoing w));
  }

  -- What a call of `write_to_socket` may have done to a socket that had got `before`.
  abbrev pub Delivered : Bytes → Bytes → Outcome (Unit {0}) World → Type 0
  Delivered before buffer (done u w) = outgoing w ≡ before ++ buffer
  Delivered before buffer (failed w) =
      (n : ℕ) × (n ≤ length buffer) × (outgoing w ≡ before ++ take n buffer)
  Delivered before buffer (out_of_bounds w) = ⊥
  Delivered before buffer stuck = ⊥

  Delivered-result :
      (buffer : Bytes) (w : World) (r : Outcome (Unit {0}) World)
      → write_loop K buffer
          (chunk_size (K.so_sndbuf w) (length buffer) % 2 ^ 32)
          write_rounds
          (first_state (length buffer))
          w
        ≡ r
      → Delivered (outgoing w) buffer r
  Delivered-result buffer w (done u w') e =
      write_loop-done (outgoing w) buffer _ _ _ w w' (start buffer _ w) e
  Delivered-result buffer w (failed w') e =
      write_loop-failed (outgoing w) buffer _ _ _ w w' (start buffer _ w) e
  Delivered-result buffer w (out_of_bounds w') e = write_loop-in_bounds K buffer _ _ _ w w' e
  Delivered-result buffer w stuck e = write_loop-ne-stuck K buffer _ _ _ w (omega arith) e

  -- For every kernel that keeps the documented laws and every buffer of less than 2 ^ 31 bytes,
  -- `write_to_socket` ends. If it returns 0 the socket has got the whole buffer, once and in order;
  -- if it returns -1, a prefix of it.
  pub write_to_socket-Delivered :
      (buffer : Bytes) (w : World)
      → length buffer < 2 ^ 31
      → Delivered (outgoing w) buffer (write_to_socket K buffer w)
  write_to_socket-Delivered buffer w small =
      Delivered-result buffer w _ (sym (write_to_socket-write_loop K buffer w small))
