-- ===== src/Rpc/Tests.antt =====
-- The state of an endpoint on numbers; 10^9 is a second.
use arbitrage_runtime.Base.{
  List, [], false, max, none, refl, saturating_add, saturating_mul, some, true, ℕ, ◌*◌, ◌+◌, ◌^◌,
  ◌∷◌, ◌≡◌, ◌≤◌,
}
use arbitrage_runtime.Base.Float.{Micros}
use arbitrage_runtime.Base.Time.{from_millis, from_secs}
use arbitrage_runtime.Rpc.{
  BurstReservation, RpcEndpointState, burst_load_units, capacity_exhausted, count_failure,
  decay_counters, decay_failure_counters, decay_steps_of, endpoint_burst_capacity_units,
  endpoint_burst_cost_units, infura, later_of, pop_expired, prune_burst_reservations,
  record_failure, reserve_selection, tenderly, timeout,
}
use arbitrage_runtime.Rpc.Cooldown.{cooling_until, record_failure_cooldown}
use arbitrage_runtime.Rpc.Disabled.{
  EndpointEvent, capacity_exhausted_disables, endpoint_run, selected_for, succeeded_after,
}

abbrev fresh : RpcEndpointState
fresh = record {
  failures = 5;
  timeout_failures = 0;
  rate_limit_failures = 9;
  stale_failures = 1;
  last_failure_decay_at = 0;
  disabled = false;
  cooldown_until = none;
  avg_latency = none;
  last_block = none;
  last_block_at = none;
  recent_burst_reservations = [];
  last_selected_at = none;
}

decay_runs : (decay_failure_counters (25 * 10 ^ 9) fresh).rate_limit_failures ≡ 5
unfolding decay_failure_counters decay_steps_of decay_counters saturating_mul
decay_runs = refl

-- A capacity that is exhausted for the month asks for a cooldown of a day and gets 45 seconds.
capacity_runs :
    (record_failure (10 ^ 9) capacity_exhausted fresh).cooldown_until ≡ some (46 * 10 ^ 9)
unfolding record_failure count_failure later_of decay_failure_counters decay_steps_of
    prune_burst_reservations saturating_add
capacity_runs = refl

record_failure_cooldown_example :
    (until : ℕ) × ((record_failure (10 ^ 9) timeout fresh).cooldown_until ≡ some until)
    × (10 ^ 9 + from_millis 500 ≤ until)
    × (cooling_until (10 ^ 9) none ≤ until)
    × (until ≤ max (cooling_until (10 ^ 9) none) (10 ^ 9 + from_secs 45))
record_failure_cooldown_example = record_failure_cooldown (10 ^ 9) timeout fresh

abbrev busy : List BurstReservation
busy =
    record { reserved_at = 10 ^ 9; units = 8 } ∷ record { reserved_at = 2 * 10 ^ 9; units = 8 } ∷ []

abbrev later_events : List (ℕ × EndpointEvent)
later_events =
    (2 * 10 ^ 9, succeeded_after 100 (some 7)) ∷ (3 * 10 ^ 9, selected_for infura true) ∷ []

capacity_exhausted_disables_example :
    (endpoint_run Micros
      (λ d. d)
      (λ x. x)
      later_events
      (record_failure (10 ^ 9) capacity_exhausted fresh)).disabled
    ≡ true
capacity_exhausted_disables_example =
    capacity_exhausted_disables Micros (λ d. d) (λ x. x) (10 ^ 9) later_events fresh

-- A selection that fills the burst window sets the cooldown anew, and shortens one that lasts longer.
abbrev cooling : RpcEndpointState
cooling = record fresh {
  cooldown_until = some (40 * 10 ^ 9);
  recent_burst_reservations = record { reserved_at = 10 ^ 9; units = 8 } ∷ [];
}

selection_shortens :
    (reserve_selection (10 ^ 9) tenderly true cooling).cooldown_until ≡ some (19 * 10 ^ 8)
unfolding reserve_selection burst_load_units endpoint_burst_cost_units endpoint_burst_capacity_units
    decay_failure_counters decay_steps_of prune_burst_reservations pop_expired saturating_mul
selection_shortens = refl
