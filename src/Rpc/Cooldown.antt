-- ===== src/Rpc/Cooldown.antt =====
-- What a failure does to an endpoint's cooldown.
use arbitrage_runtime.Base.{
  Option, arith, max, min, none, refl, saturating_add, some, ℕ, ◌+◌, ◌^◌, ◌∙◌, ◌≡◌, ◌≤◌,
}
use arbitrage_runtime.Base.Time.{from_millis, from_secs}
use arbitrage_runtime.Rpc.{
  RpcEndpointState, RpcFailureKind, add32, capacity_exhausted, count_failure, decay_counters,
  decay_failure_counters, later_of, prune_burst_reservations, rate_limited, record_failure,
  refreshed, remote, stale, timeout, transport,
}
use native.Mathlib.Nat.{one-le-pow, pow-le-pow_right}

pow_least : (k : ℕ) → 1 ≤ 2 ^ k
pow_least k = one-le-pow k 2 (omega arith)

two_least : (k : ℕ) → 1 ≤ k → 2 ≤ 2 ^ k
two_least k h = pow-le-pow_right {n = 2} (omega arith) {i = 1} {j = k} h

-- The cooldown that a kind of failure asks for.
cooldown_least :
    (kind : RpcFailureKind) (state : RpcEndpointState)
    → from_millis 500 ≤ (count_failure kind state).1
unfolding count_failure saturating_add
cooldown_least timeout state =
    let power = two_least (min (add32 state.timeout_failures 1) 5) (omega arith) in omega arith
cooldown_least rate_limited state =
    let power = pow_least (min (add32 state.rate_limit_failures 1) 4) in omega arith
cooldown_least capacity_exhausted state = omega arith
cooldown_least stale state = omega arith
cooldown_least transport state = omega arith
cooldown_least remote state = omega arith

-- Counting a failure leaves the cooldown alone.
count_failure_cooldown :
    (kind : RpcFailureKind) (state : RpcEndpointState)
    → (count_failure kind state).0.cooldown_until ≡ state.cooldown_until
unfolding count_failure
count_failure_cooldown timeout state = refl
count_failure_cooldown rate_limited state = refl
count_failure_cooldown capacity_exhausted state = refl
count_failure_cooldown stale state = refl
count_failure_cooldown transport state = refl
count_failure_cooldown remote state = refl

-- The instant until which the endpoint is cooling down, or `now`.
abbrev pub cooling_until : ℕ → Option ℕ → ℕ
cooling_until now none = now
cooling_until now (some until) = until

refreshed_cooldown :
    (now : ℕ) (state : RpcEndpointState)
    → (refreshed now state).cooldown_until ≡ state.cooldown_until
unfolding decay_failure_counters decay_counters prune_burst_reservations
refreshed_cooldown now state = ground arith

later_of_bounds :
    (now : ℕ) (o : Option ℕ) (until : ℕ)
    → now ≤ until
    → (until ≤ later_of o until)
      × (cooling_until now o ≤ later_of o until)
      × (later_of o until ≤ max (cooling_until now o) until)
unfolding later_of
later_of_bounds now none until h = (omega arith, omega arith, omega arith)
later_of_bounds now (some existing) until h = (ground arith, ground arith, ground arith)

-- A failure never shortens a cooldown: afterwards the endpoint cools down for at least half a second,
-- at least as long as before, and at most as long as before or 45 seconds, whatever the failure.
pub record_failure_cooldown :
    (now : ℕ) (kind : RpcFailureKind) (state : RpcEndpointState)
    → (until : ℕ) × ((record_failure now kind state).cooldown_until ≡ some until)
      × (now + from_millis 500 ≤ until)
      × (cooling_until now state.cooldown_until ≤ until)
      × (until ≤ max (cooling_until now state.cooldown_until) (now + from_secs 45))
unfolding record_failure
record_failure_cooldown now kind state =
    let fresh = refreshed now state in
    let raised = record fresh { failures = add32 fresh.failures 1 } in
    let (counted, cooldown) = count_failure kind raised in
    let least = cooldown_least kind raised in
    let same : counted.cooldown_until ≡ state.cooldown_until =
      count_failure_cooldown kind raised ∙ refreshed_cooldown now state in
    let (low, kept, high) =
      later_of_bounds now state.cooldown_until (now + min cooldown (from_secs 45)) (omega arith) in
    (
      later_of state.cooldown_until (now + min cooldown (from_secs 45)),
      rw same refl,
      omega arith,
      kept,
      omega arith,
    )
