-- ===== src/Coordinator/Result/Backoff.antt =====
-- The exponential backoff of src/symphony/coordinator.py.
use Prim.Native.Nat.{◌*◌, ◌^◌, ◌+◌}
use native.Mathlib.Nat.{le-mul_of_pos_right, mul-le-mul_left, pow-le-pow_right, one-le-pow}
use openhands_symphony.Base.{ℕ, zero, ◌-◌, ◌≤◌, ◌<◌, arith}
use openhands_symphony.Coordinator.Host.{Host}
use openhands_symphony.Coordinator.Result.{backoff_seconds, jitter_bound, with_jitter}

-- Before the jitter the delay lies between the base and the cap, and grows with the attempts.
pub backoff_seconds_bounded :
    (base cap attempt later : ℕ)
    → base ≤ cap
    → attempt ≤ later
    → (base ≤ backoff_seconds base cap attempt)
      × (backoff_seconds base cap attempt ≤ cap)
      × (backoff_seconds base cap attempt ≤ backoff_seconds base cap later)
unfolding backoff_seconds
backoff_seconds_bounded base cap attempt later h le =
    let two : zero < 2 = omega arith in
    let grows : base * 2 ^ (attempt - 1) ≤ base * 2 ^ (later - 1) =
      mul-le-mul_left base (pow-le-pow_right two (omega arith)) in
    let at_least : base ≤ base * 2 ^ (attempt - 1) =
      le-mul_of_pos_right base (one-le-pow (attempt - 1) 2 two) in
    (ground arith, ground arith, ground arith)

jitter_bound-le : (seconds : ℕ) → jitter_bound seconds ≤ 60
unfolding jitter_bound
jitter_bound-le seconds = ground arith

-- Where the configured base is at most the cap and a random number stays within its bound, the delay
-- with its jitter that rests a provider after a tool failure is at least the base, at most a minute
-- over the cap, and not below the delay without jitter of any earlier attempt.
pub with_jitter_bounded :
    (h : Host) (attempt later tick : ℕ)
    → ((bound t : ℕ) → h.random bound t ≤ bound)
    → h.config.provider_backoff_base_seconds ≤ h.config.provider_backoff_max_seconds
    → attempt ≤ later
    → let base = h.config.provider_backoff_base_seconds in
      let cap = h.config.provider_backoff_max_seconds in
      let delay = with_jitter h (backoff_seconds base cap later) tick in
      (base ≤ delay) × (delay ≤ cap + 60) × (backoff_seconds base cap attempt ≤ delay)
unfolding with_jitter
with_jitter_bounded h attempt later tick random le earlier =
    let base = h.config.provider_backoff_base_seconds in
    let cap = h.config.provider_backoff_max_seconds in
    let (low, high, grows) = backoff_seconds_bounded base cap attempt later le earlier in
    let (least, most, _) = backoff_seconds_bounded base cap later later le (omega arith) in
    let added = random (jitter_bound (backoff_seconds base cap later)) tick in
    let bound = jitter_bound-le (backoff_seconds base cap later) in
    (omega (arith, least), omega (arith, most, added, bound), omega (arith, grows))
