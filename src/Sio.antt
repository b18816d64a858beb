-- ===== src/Sio.antt =====
-- `sio::write_to_socket` and `sio::read_from_socket` of src/xchange.hpp. The system calls are a
-- parameter: what one call reports, and the world after it.
pub mod Write
pub mod Read
pub mod Deliver
pub mod Accepting
pub mod Kept
pub mod Duplex
pub mod Dry
use xchange.Prelude.{
  ℕ, zero, suc, ◌+◌, ◌-◌, ◌*◌, ◌/◌, ◌%◌, ◌^◌, Bool, true, false, ◌&&◌, Option, none, some, List, [],
  ◌∷◌, ◌++◌, Bytes, length, take, drop, ltb, leb, ◌==◌, if◌then◌else◌,
}

-- What `recv` reports: the bytes, or an error that is EAGAIN, EWOULDBLOCK or EINTR, or another one.
pub data Recv (W : Type 0) : Type 0 where
  got : Bytes → W → Recv W
  recv_transient recv_fatal : W → Recv W

-- What `write` reports: the count of bytes taken, or an error of one of the two kinds.
pub data Sent (W : Type 0) : Type 0 where
  wrote : ℕ → W → Sent W
  sent_transient sent_fatal : W → Sent W

-- `recv n peek w` asks for `n` bytes, with MSG_PEEK if `peek`; `so_sndbuf` is the send buffer's
-- size, or `none` if `getsockopt` fails. `interrupts` bounds the transient errors that `recv` has
-- still to report; only the fuel of the read loop looks at it.
pub record Kernel : Type 1 where
  pub World : Type 0
  pub recv : ℕ → Bool → World → Recv World
  pub write : Bytes → World → Sent World
  pub so_sndbuf : World → Option ℕ
  pub interrupts : World → ℕ

abbrev pub max_resend : ℕ
max_resend = 15

abbrev pub max_send_retry_on_err : ℕ
max_send_retry_on_err = 3

abbrev pub max_read_retry_on_err : ℕ
max_read_retry_on_err = 3

abbrev pub thread_pause_time_ms : ℕ
thread_pause_time_ms = 50

abbrev pub socket_rcvtimeo_sec : ℕ
socket_rcvtimeo_sec = 5

-- How a transfer ends: return value 0 (with the bytes that were read), return value -1, an access
-- outside of the buffer, or no end within the fuel.
pub data Outcome (A W : Type 0) : Type 0 where
  done : A → W → Outcome A W
  failed : W → Outcome A W
  out_of_bounds : W → Outcome A W
  stuck : Outcome A W

-- The buffer's prefix that `recv` calls have filled; an error that the loop falls through takes
-- the last byte off again, and `none` is the index before the first one.
unfoldable pub drop_last : Bytes → Option Bytes
drop_last [] = none
drop_last (x ∷ []) = some []
drop_last (x ∷ y ∷ r) = elim (drop_last (y ∷ r)) [ none ↦ none | some p ↦ some (x ∷ p) ]

pub record WriteState : Type 0 where
  pub retry_count_err : ℕ
  pub resend_count : ℕ
  pub bytes_sent : ℕ
  pub bytes_remaining : ℕ

-- `write_at_once`. The queue length is a `size_t`, so the -1 of a failed `getsockopt` is its
-- largest value and never below 0.
unfoldable pub chunk_size : Option ℕ → ℕ → ℕ
chunk_size sndbuf size =
    let queue : ℕ = elim sndbuf [ none ↦ 2 ^ 64 - 1 | some total ↦ total / 2 ] in
    if ltb queue size then queue else size

abbrev pub write_rounds : ℕ
write_rounds = 21

pub record ReadState : Type 0 where
  pub retry_counter : ℕ
  pub remaining_bytes : ℕ
  pub received : Bytes

abbrev pub initial_retry : ℕ
initial_retry = 1000 / thread_pause_time_ms * socket_rcvtimeo_sec

abbrev pub read_rounds : ℕ → ℕ → ℕ
read_rounds size errors = size + initial_retry + 3 * errors + 1

module _ (K : Kernel) where
  open K use {World, recv, write, so_sndbuf, interrupts}

  -- The `while(active)` loop.
  unfoldable pub write_loop : Bytes → ℕ → ℕ → WriteState → World → Outcome (Unit {0}) World
  write_loop buffer at_once zero s w = stuck
  write_loop buffer at_once (suc fuel) s w =
      let chunk = if leb at_once s.bytes_remaining then at_once else s.bytes_remaining in
      let retry = λ (w' : World).
        write_loop buffer at_once fuel (record s { retry_count_err = s.retry_count_err + 1 }) w' in
      let resend = λ (n : ℕ) (w' : World).
        write_loop buffer at_once fuel
          (record s {
            resend_count = s.resend_count + 1;
            bytes_sent = s.bytes_sent + n;
            bytes_remaining = s.bytes_remaining - n;
          })
          w' in
      let attempt : Outcome (Unit {0}) World =
        elim (write (take chunk (drop s.bytes_sent buffer)) w) [
          | sent_transient w' ↦ retry w'
          | sent_fatal w' ↦ failed w'
          | wrote n w' ↦
              let more = resend n w' in if s.bytes_remaining - n == 0 then done tt w' else more
        ] in
      if ltb max_send_retry_on_err s.retry_count_err
      then failed w
      else if ltb max_resend s.resend_count
      then failed w
      else attempt

  -- `bytes_remaining` and `write_at_once` are `int`s. A size that makes `bytes_remaining` negative
  -- makes the first `write` ask for a huge `size_t`, behind the end of the buffer. Else the loop's
  -- `int`s stay in range, since `write` returns at most what it is asked for.
  unfoldable pub write_to_socket : Bytes → World → Outcome (Unit {0}) World
  write_to_socket buffer w =
      let remaining = length buffer % 2 ^ 32 in
      let rounds =
        write_loop buffer (chunk_size (so_sndbuf w) (length buffer) % 2 ^ 32) write_rounds
          (record {
            retry_count_err = 0;
            resend_count = 0;
            bytes_sent = 0;
            bytes_remaining = remaining;
          })
          w in
      if leb (2 ^ 31) remaining then out_of_bounds w else rounds

  -- The `while(remaining_bytes > 0)` loop. After an error that is retried, `ret_value` is -1 when
  -- the two counts are moved by it.
  unfoldable pub read_loop : Bool → ℕ → ReadState → World → Outcome Bytes World
  read_loop peek zero s w = stuck
  read_loop peek (suc fuel) s w =
      let retry = λ (p : Bytes) (w' : World).
        read_loop peek fuel
          (record {
            retry_counter = s.retry_counter + 1;
            remaining_bytes = s.remaining_bytes + 1;
            received = p;
          })
          w' in
      let next = λ (counter : ℕ) (xs : Bytes) (w' : World).
        read_loop peek fuel
          (record {
            retry_counter = counter;
            remaining_bytes = s.remaining_bytes - length xs;
            received = s.received ++ xs;
          })
          w' in
      let attempt : Outcome Bytes World = elim (recv s.remaining_bytes peek w) [
        | recv_transient w' ↦
            let again : Outcome Bytes World = elim (drop_last s.received) [
              | none ↦ out_of_bounds w'
              | some p ↦ retry p w'
            ] in
            if ltb max_read_retry_on_err (s.retry_counter + 1) then failed w' else again
        | recv_fatal w' ↦ failed w'
        | got xs w' ↦
            let counter =
              if ltb 0 (s.remaining_bytes - length xs) && length xs == 0
              then s.retry_counter - 1
              else s.retry_counter in
            let more = next counter xs w' in if counter == 0 then failed w' else more
      ] in
      if s.remaining_bytes == 0 then done s.received w else attempt

  unfoldable pub read_from_socket : ℕ → Bool → World → Outcome Bytes World
  read_from_socket size peek w =
      read_loop peek (read_rounds size (interrupts w))
        (record { retry_counter = initial_retry; remaining_bytes = size; received = [] }) w
