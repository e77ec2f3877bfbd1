-- ===== src/Rpc/Decay.antt =====
-- The decay of an endpoint's failures does not depend on how often it is looked at.
use arbitrage_runtime.Base.{
  Bool-cases, arith, inl, inr, refl, saturating_mul, saturating_sub, sym, u32_max, ℕ, ◌*◌, ◌+◌, ◌/◌,
  ◌<◌, ◌==◌, ◌^◌, ◌≡◌, ◌≤◌,
}
use arbitrage_runtime.Base.Time.{as_secs, from_secs, since}
use arbitrage_runtime.Rpc.{
  RpcEndpointState, decay_counters, decay_failure_counters, decay_steps_of, failure_decay_secs,
}
use native.Mathlib.Numerals.{unary_clauses}

-- Whole steps of 20 seconds since the last decay.
abbrev steps_since : ℕ → ℕ → ℕ
steps_since now last = as_secs (since now last) / failure_decay_secs

steps_split :
    (last first second : ℕ)
    → last ≤ first
    → first ≤ second
    → steps_since second last
      ≡ steps_since first last
        + steps_since second (last + from_secs (failure_decay_secs * steps_since first last))
steps_split last first second h k = omega arith

-- A counter of 32 bits that decays by two amounts decays by their sum.
counter_split :
    (c a b n : ℕ)
    → c ≤ u32_max
    → saturating_sub (saturating_sub c (saturating_mul u32_max a n)) (saturating_mul u32_max b n)
      ≡ saturating_sub c (saturating_mul u32_max (a + b) n)
unfolding saturating_mul
counter_split c a b n h =
    let sum : (a + b) * n ≡ a * n + b * n = omega arith in rw sum (omega arith)

abbrev pub HasWords : RpcEndpointState → Type 0
HasWords state =
    (state.failures ≤ u32_max)
    × (state.timeout_failures ≤ u32_max)
    × (state.stale_failures ≤ u32_max)
    × (state.rate_limit_failures ≤ u32_max)

decay_none : (state : RpcEndpointState) → decay_counters 0 state ≡ state
unfolding decay_counters saturating_mul
decay_none state = simp unary_clauses refl

decay_counters_twice :
    (state : RpcEndpointState) (a b : ℕ)
    → HasWords state
    → decay_counters b (decay_counters a state) ≡ decay_counters (a + b) state
unfolding decay_counters
decay_counters_twice state a b (f, t, s, r) =
    let time : state.last_failure_decay_at
          + from_secs (failure_decay_secs * a)
          + from_secs (failure_decay_secs * b)
        ≡ state.last_failure_decay_at + from_secs (failure_decay_secs * (a + b)) =
      omega arith in
    rw
      (
        time,
        counter_split state.failures a b 2 f,
        counter_split state.timeout_failures a b 2 t,
        counter_split state.stale_failures a b 2 s,
        counter_split state.rate_limit_failures a b 4 r,
      )
      refl

decayed_at :
    (state : RpcEndpointState) (steps : ℕ)
    → (decay_counters steps state).last_failure_decay_at
      ≡ state.last_failure_decay_at + from_secs (failure_decay_secs * steps)
unfolding decay_counters
decayed_at state steps = refl

decay_as_counters :
    (now : ℕ) (state : RpcEndpointState)
    → steps_since now state.last_failure_decay_at < 2 ^ 32
    → decay_failure_counters now state
      ≡ decay_counters (steps_since now state.last_failure_decay_at) state
unfolding decay_failure_counters decay_steps_of
decay_as_counters now state small =
    let steps = steps_since now state.last_failure_decay_at in
    let whole : decay_steps_of now state ≡ steps = omega arith in
    elim (Bool-cases (steps == 0)) [
      | inl e ↦
          let zero_steps : steps ≡ 0 = ground arith in
          rw (whole, zero_steps) (sym (decay_none state))
      | inr e ↦ rw (whole, e) refl
    ]

-- For counters of 32 bits, and as long as fewer than 2^32 steps have passed since the last decay:
-- looking at an endpoint twice decays its failures as looking at it once, at the later time, does.
pub decay_failure_counters_twice :
    (state : RpcEndpointState) (first second : ℕ)
    → HasWords state
    → state.last_failure_decay_at ≤ first
    → first ≤ second
    → as_secs (since second state.last_failure_decay_at) / failure_decay_secs < 2 ^ 32
    → decay_failure_counters second (decay_failure_counters first state)
      ≡ decay_failure_counters second state
unfolding decay_counters
decay_failure_counters_twice state first second w h k small =
    let last = state.last_failure_decay_at in
    let a = steps_since first last in
    let split = steps_split last first second h k in
    let at = decayed_at state a in
    let b = steps_since second (last + from_secs (failure_decay_secs * a)) in
    rw
      (
        decay_as_counters first state (omega arith),
        decay_as_counters second state small,
        decay_as_counters second (decay_counters a state) (rw at (omega arith)),
        at,
        split,
      )
      (decay_counters_twice state a b w)
