-- ===== src/Rpc.antt =====
-- src/rpc.rs: the state that the fleet keeps of an RPC endpoint. Instants are nanoseconds, and an
-- operation reads the clock once. `as_secs_f64` and `from_secs_f64` of `std::time::Duration` are
-- parameters.
use arbitrage_runtime.Base.{
  Bool, List, Option, [], false, if◌then◌else◌, leb, ltb, min, none, retain, saturating_add,
  saturating_mul, saturating_sub, some, true, u32_max, ℕ, ◌%◌, ◌*◌, ◌++◌, ◌+◌, ◌/◌, ◌==◌, ◌^◌, ◌∷◌,
}
use arbitrage_runtime.Base.Float.{Float}
use arbitrage_runtime.Base.Time.{as_secs, from_millis, from_secs, since}
pub mod Decay
pub mod Cooldown
pub mod Burst
pub mod Disabled
pub mod Tests

pub data RpcKind : Type 0 where
  tenderly getblock generic alchemy infura : RpcKind

pub data RpcFailureKind : Type 0 where
  timeout rate_limited capacity_exhausted stale transport remote : RpcFailureKind

pub record BurstReservation : Type 0 where
  pub reserved_at : ℕ
  pub units : ℕ

-- The reason for being disabled is left out.
pub record RpcEndpointState : Type 0 where
  pub failures : ℕ
  pub timeout_failures : ℕ
  pub rate_limit_failures : ℕ
  pub stale_failures : ℕ
  pub last_failure_decay_at : ℕ
  pub disabled : Bool
  pub cooldown_until : Option ℕ
  pub avg_latency : Option ℕ
  pub last_block : Option ℕ
  pub last_block_at : Option ℕ
  pub recent_burst_reservations : List BurstReservation
  pub last_selected_at : Option ℕ

abbrev pub failure_decay_secs : ℕ
failure_decay_secs = 20

abbrev pub burst_window_ms : ℕ
burst_window_ms = 1_200

abbrev pub in_window : ℕ → BurstReservation → Bool
in_window now item = leb (since now item.reserved_at) (from_millis burst_window_ms)

-- The loop of `prune_burst_reservations`.
unfoldable pub pop_expired : ℕ → List BurstReservation → List BurstReservation
pop_expired now [] = []
pop_expired now (item ∷ items) = if in_window now item then item ∷ items else pop_expired now items

unfoldable pub prune_burst_reservations : ℕ → RpcEndpointState → RpcEndpointState
prune_burst_reservations now state = record state {
  recent_burst_reservations = pop_expired now state.recent_burst_reservations;
}

-- The steps as a `u32`.
unfoldable pub decay_steps_of : ℕ → RpcEndpointState → ℕ
decay_steps_of now state =
    as_secs (since now state.last_failure_decay_at) / failure_decay_secs % 2 ^ 32

abbrev mul32 : ℕ → ℕ → ℕ
mul32 = saturating_mul u32_max

unfoldable pub decay_counters : ℕ → RpcEndpointState → RpcEndpointState
decay_counters steps state = record state {
  last_failure_decay_at = state.last_failure_decay_at + from_secs (failure_decay_secs * steps);
  failures = saturating_sub state.failures (mul32 steps 2);
  timeout_failures = saturating_sub state.timeout_failures (mul32 steps 2);
  stale_failures = saturating_sub state.stale_failures (mul32 steps 2);
  rate_limit_failures = saturating_sub state.rate_limit_failures (mul32 steps 4);
}

unfoldable pub decay_failure_counters : ℕ → RpcEndpointState → RpcEndpointState
decay_failure_counters now state =
    let steps = decay_steps_of now state in if steps == 0 then state else decay_counters steps state

abbrev pub sum_units : List BurstReservation → ℕ
sum_units [] = 0
sum_units (item ∷ items) = item.units + sum_units items

-- The sum of the `u32` wraps.
unfoldable pub burst_load_units : ℕ → RpcEndpointState → ℕ
burst_load_units now state =
    sum_units (retain (in_window now) state.recent_burst_reservations) % 2 ^ 32

unfoldable pub endpoint_burst_capacity_units : RpcKind → Bool → ℕ
endpoint_burst_capacity_units alchemy false = 24
endpoint_burst_capacity_units alchemy true = 18
endpoint_burst_capacity_units infura false = 30
endpoint_burst_capacity_units infura true = 12
endpoint_burst_capacity_units tenderly false = 10
endpoint_burst_capacity_units tenderly true = 8
endpoint_burst_capacity_units getblock false = 10
endpoint_burst_capacity_units getblock true = 8
endpoint_burst_capacity_units generic false = 12
endpoint_burst_capacity_units generic true = 10

unfoldable pub endpoint_burst_cost_units : RpcKind → Bool → ℕ
endpoint_burst_cost_units alchemy false = 1
endpoint_burst_cost_units alchemy true = 7
endpoint_burst_cost_units infura false = 1
endpoint_burst_cost_units infura true = 6
endpoint_burst_cost_units tenderly false = 2
endpoint_burst_cost_units tenderly true = 8
endpoint_burst_cost_units getblock false = 1
endpoint_burst_cost_units getblock true = 5
endpoint_burst_cost_units generic false = 2
endpoint_burst_cost_units generic true = 6

abbrev pub add32 : ℕ → ℕ → ℕ
add32 = saturating_add u32_max

-- The counters that a failure raises, and the cooldown for it.
unfoldable pub count_failure : RpcFailureKind → RpcEndpointState → RpcEndpointState × ℕ
count_failure rate_limited state =
    let count = add32 state.rate_limit_failures 1 in
    (record state { rate_limit_failures = count }, from_secs (2 ^ min count 4 * 2))
count_failure capacity_exhausted state = (
  record state { rate_limit_failures = add32 state.rate_limit_failures 10; disabled = true },
  from_secs (24 * 60 * 60),
)
count_failure timeout state =
    let count = add32 state.timeout_failures 1 in
    (record state { timeout_failures = count }, from_millis (400 * 2 ^ min count 5))
count_failure stale state =
    (record state { stale_failures = add32 state.stale_failures 1 }, from_millis 900)
count_failure transport state = (state, from_millis 700)
count_failure remote state = (state, from_millis 500)

-- An earlier cooldown that ends later is kept.
unfoldable pub later_of : Option ℕ → ℕ → ℕ
later_of none until = until
later_of (some existing) until = if ltb until existing then existing else until

-- Before each operation, burst reservations are pruned and failures decay.
abbrev pub refreshed : ℕ → RpcEndpointState → RpcEndpointState
refreshed now state = decay_failure_counters now (prune_burst_reservations now state)

unfoldable pub record_failure : ℕ → RpcFailureKind → RpcEndpointState → RpcEndpointState
record_failure now kind state =
    let fresh = refreshed now state in
    let (counted, cooldown) =
      count_failure kind (record fresh { failures = add32 fresh.failures 1 }) in
    let until = now + min cooldown (from_secs 45) in
    record counted { cooldown_until = some (later_of counted.cooldown_until until) }

abbrev observed_at : ℕ → Option ℕ → RpcEndpointState → RpcEndpointState
observed_at now none state = state
observed_at now (some block) state = record state {
  last_block = some block;
  last_block_at = some now;
}

abbrev unexpired : ℕ → Option ℕ → Option ℕ
unexpired now none = none
unexpired now (some until) = if leb until now then none else some until

module _ (f : Float) (as_secs_f64 : ℕ → f.F) (from_secs_f64 : f.F → ℕ) where
  open f use {lit, add, mul}

  abbrev smoothed : Option ℕ → ℕ → ℕ
  smoothed none latency = latency
  smoothed (some previous) latency =
      from_secs_f64
        (add (mul (as_secs_f64 previous) (lit 72 2)) (mul (as_secs_f64 latency) (lit 28 2)))

  unfoldable pub record_success : ℕ → ℕ → Option ℕ → RpcEndpointState → RpcEndpointState
  record_success now latency observed_block state =
      let fresh = refreshed now state in
      let lighter = record fresh {
        avg_latency = some (smoothed fresh.avg_latency latency);
        failures = saturating_sub fresh.failures 1;
        timeout_failures = saturating_sub fresh.timeout_failures 1;
        rate_limit_failures = saturating_sub fresh.rate_limit_failures 1;
        stale_failures = saturating_sub fresh.stale_failures 1;
      } in
      let seen = observed_at now observed_block lighter in
      record seen { cooldown_until = unexpired now seen.cooldown_until }

-- `reserve_selection` with `reserve_burst_units`.
unfoldable pub reserve_selection : ℕ → RpcKind → Bool → RpcEndpointState → RpcEndpointState
reserve_selection now kind send_mode state =
    let fresh = refreshed now state in
    let reserved = record fresh {
      recent_burst_reservations =
          fresh.recent_burst_reservations
          ++ (record { reserved_at = now; units = endpoint_burst_cost_units kind send_mode } ∷ []);
      last_selected_at = some now;
    } in
    if leb (mul32 (endpoint_burst_capacity_units kind true) 2) (burst_load_units now reserved)
    then record reserved { cooldown_until = some (now + from_millis 900) }
    else reserved
