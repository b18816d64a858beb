-- ===== src/Client/Throttle.antt =====
-- The bandwidth control in the loop of `sendFile` in src/xcc_protocol_handler.hpp. The clock is a
-- count of microseconds; how long a block takes and how late a sleep ends is up to the machine.
pub mod Paces
use xchange.Prelude.{
  ℕ, zero, suc, ◌+◌, ◌-◌, ◌*◌, ◌/◌, ◌≤◌, ◌<◌, ◌≡◌, ap, ◌∙◌, arith, true, List, [], ◌∷◌, length, ltb,
  ◌==◌, if◌then◌else◌, Bool-cases, inl, inr,
}
use xchange.Client.Protocol.{buckets_per_sec}

-- `bucket`
abbrev pub bucket : ℕ
bucket = 1000000 / buckets_per_sec

-- `frameBudget` and `start_time`.
pub record Throttle : Type 0 where
  pub frame_budget : ℕ
  pub start_time : ℕ

-- What the machine adds for one block: the time that reading and sending it takes, and the time by
-- which a sleep after it ends late.
pub record Delays : Type 0 where
  pub sending : ℕ
  pub waking : ℕ

-- The end of a round at `now`: the control's state after it and the time. The budget is tested
-- before it is lowered, and at 0 it does not stay at the value to which it wraps.
unfoldable pub throttle : ℕ → ℕ → Throttle → ℕ → Throttle × ℕ
throttle frames_per_bucket late t now =
    let duration = now - t.start_time in
    let woken = if ltb duration bucket then (now + (bucket - duration)) + late else now in
    if frames_per_bucket == 0
    then (t, now)
    else if t.frame_budget == 0
    then (record { frame_budget = frames_per_bucket; start_time = woken }, woken)
    else (record t { frame_budget = t.frame_budget - 1 }, now)

-- The rounds of the loop, one for each block: the time after them.
unfoldable pub throttled : ℕ → Throttle → ℕ → List Delays → ℕ
throttled frames_per_bucket t now [] = now
throttled frames_per_bucket t now (d ∷ ds) =
    let (t', now') = throttle frames_per_bucket d.waking t (now + d.sending) in
    throttled frames_per_bucket t' now' ds

-- What `sendFile` starts its loop with at `now`.
abbrev pub full_budget : ℕ → ℕ → Throttle
full_budget frames_per_bucket now = record { frame_budget = frames_per_bucket; start_time = now }
