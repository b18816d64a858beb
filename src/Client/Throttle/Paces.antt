-- ===== src/Client/Throttle/Paces.antt =====
-- How fast the bandwidth control of `sendFile` in src/xcc_protocol_handler.hpp lets blocks go out.
use xchange.Prelude.{
  ℕ, zero, suc, ◌+◌, ◌-◌, ◌*◌, ◌≤◌, ◌<◌, ◌≡◌, ap, ◌∙◌, arith, true, List, [], ◌∷◌, length, ltb,
  Bool-cases, inl, inr,
}
use xchange.Client.Throttle.{bucket, Delays, throttle, throttled, full_budget}

throttle_spends :
    (f late budget start now : ℕ)
    → 0 < f
    → throttle f late (record { frame_budget = suc budget; start_time = start }) now
      ≡ (record { frame_budget = budget; start_time = start }, now)
unfolding throttle
throttle_spends f late budget start now pos =
    let less : suc budget - 1 ≡ budget = omega arith in ground (arith, less)

throttle_pauses :
    (f late start now : ℕ)
    → 0 < f
    → start ≤ now
    → (woken : ℕ) × (throttle f late (record { frame_budget = 0; start_time = start }) now
        ≡ (full_budget f woken, woken))
      × (start + bucket ≤ woken)
unfolding throttle
throttle_pauses f late start now pos before = elim (Bool-cases (ltb (now - start) bucket)) [
  | inl early ↦
      ((now + (bucket - (now - start))) + late, ground (arith, early), ground (arith, early))
  | inr full ↦ (now, ground (arith, full), ground (arith, full))
]

-- From the middle of a bucket of which `used` blocks are gone.
throttled_paces_on :
    (f used budget start now q : ℕ) (ds : List Delays)
    → 0 < f
    → used + budget ≡ f
    → start ≤ now
    → q * (f + 1) ≤ used + length ds
    → start + bucket * q ≤ throttled f (record { frame_budget = budget; start_time = start }) now ds
unfolding throttled
throttled_paces_on f used budget start now zero [] pos sum before enough = omega (arith, before)
throttled_paces_on f used budget start now (suc q) [] pos sum before enough =
    let more : suc q * (f + 1) ≡ q * (f + 1) + (f + 1) = grind arith in
    absurd (omega (arith, more, sum, enough))
throttled_paces_on f used (suc budget) start now q (d ∷ ds) pos sum before enough =
    rw (throttle_spends f d.waking budget start (now + d.sending) pos) (
      throttled_paces_on f (suc used) budget start (now + d.sending) q ds pos (omega arith)
        (omega arith) (omega arith))
throttled_paces_on f used zero start now zero (d ∷ ds) pos sum before enough =
    let (woken, e, later) = throttle_pauses f d.waking start (now + d.sending) pos (omega arith) in
    let rest =
      throttled_paces_on f 0 f woken woken 0 ds pos (omega arith) (omega arith) (omega arith) in
    rw e (omega (arith, later, rest))
throttled_paces_on f used zero start now (suc q) (d ∷ ds) pos sum before enough =
    let (woken, e, later) = throttle_pauses f d.waking start (now + d.sending) pos (omega arith) in
    let more : suc q * (f + 1) ≡ q * (f + 1) + (f + 1) = grind arith in
    let rest =
      throttled_paces_on f 0 f woken woken q ds pos (omega arith) (omega arith)
        (omega (arith, more, sum, enough)) in
    rw e (omega (arith, later, rest))

-- `k` blocks to which the machine adds nothing.
unfoldable pub at_once : ℕ → List Delays
at_once zero = []
at_once (suc k) = record { sending = 0; waking = 0 } ∷ at_once k

throttle_pauses_exactly :
    (f start : ℕ)
    → 0 < f
    → throttle f 0 (record { frame_budget = 0; start_time = start }) (start + 0)
      ≡ (full_budget f (start + bucket), start + bucket)
unfolding throttle
throttle_pauses_exactly f start pos =
    let woken : ((start + 0) + (bucket - ((start + 0) - start))) + 0 ≡ start + bucket =
      omega arith in
    let early : ltb ((start + 0) - start) bucket ≡ true = ground arith in
    ground (arith, woken, early)

throttled_exactly_on :
    (f used budget start q k : ℕ)
    → 0 < f
    → used + budget ≡ f
    → q * (f + 1) ≤ used + k
    → used + k < (q + 1) * (f + 1)
    → throttled f (record { frame_budget = budget; start_time = start }) start (at_once k)
      ≡ start + bucket * q
unfolding throttled at_once
throttled_exactly_on f used budget start zero zero pos sum enough few = omega arith
throttled_exactly_on f used budget start (suc q) zero pos sum enough few =
    let more : suc q * (f + 1) ≡ q * (f + 1) + (f + 1) = grind arith in
    absurd (omega (arith, more, sum, enough))
throttled_exactly_on f used (suc budget) start q (suc k) pos sum enough few =
    let same : start + 0 ≡ start = omega arith in
    ap (λ r. throttled f r.0 r.1 (at_once k)) (throttle_spends f 0 budget start (start + 0) pos)
    ∙ ap
        (λ (now : ℕ).
          throttled f (record { frame_budget = budget; start_time = start }) now (at_once k))
        same
    ∙ throttled_exactly_on f (suc used) budget start q k pos (omega arith) (omega arith)
        (omega (arith, few))
throttled_exactly_on f used zero start zero (suc k) pos sum enough few =
    absurd (omega (arith, sum, few))
throttled_exactly_on f used zero start (suc q) (suc k) pos sum enough few =
    let more : suc q * (f + 1) ≡ q * (f + 1) + (f + 1) = grind arith in
    let most : (suc q + 1) * (f + 1) ≡ (q + 1) * (f + 1) + (f + 1) = grind arith in
    let rest =
      throttled_exactly_on f 0 f (start + bucket) q k pos (omega arith)
        (omega (arith, more, sum, enough)) (omega (arith, most, sum, few)) in
    ap (λ r. throttled f r.0 r.1 (at_once k)) (throttle_pauses_exactly f start pos)
    ∙ omega (arith, rest)

-- With a limit that gives `f` blocks to a bucket: sending `q` times `f + 1` blocks takes at least
-- `q` buckets of time, whatever the machine adds to each block, and exactly `q` if it adds nothing:
-- a bucket has one block more than the limit gives to it.
pub throttled-paces :
    (f now q : ℕ) (ds : List Delays)
    → 0 < f
    → q * (f + 1) ≤ length ds
    → (now + bucket * q ≤ throttled f (full_budget f now) now ds)
      × (throttled f (full_budget f now) now (at_once (q * (f + 1))) ≡ now + bucket * q)
throttled-paces f now q ds pos enough =
    let more : (q + 1) * (f + 1) ≡ q * (f + 1) + (f + 1) = grind arith in
    (
      throttled_paces_on f 0 f now now q ds pos (omega arith) (omega arith) (omega arith),
      throttled_exactly_on f 0 f now q (q * (f + 1)) pos (omega arith) (omega arith)
          (omega (arith, more)),
    )
