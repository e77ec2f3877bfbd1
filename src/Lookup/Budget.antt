-- ===== src/Lookup/Budget.antt =====
-- The budgets of lookups (`PendingLookupBackpressure`, `rpc_lookup_pressure`,
-- `effective_pending_lookup_budget_for_mode`, `allow_small_scavenger_candidate` and
-- `classify_candidate_lane` of src/mev/runtime.rs).
use arbitrage_runtime.Base.{
  Bool, List, Option, [], false, if◌then◌else◌, leb, ltb, max, min, none, saturating_add,
  saturating_mul, some, true, u256_max, u64_max, ℕ, ◌&&◌, ◌*◌, ◌==◌, ◌^◌, ◌||◌, ◌∷◌,
}
use arbitrage_runtime.Base.Float.{Float}
use arbitrage_runtime.Base.Time.{from_secs, since}
use arbitrage_runtime.Decode.Signal.{
  SwapSignal, universal_router_execute, universal_router_execute_no_deadline,
}
use arbitrage_runtime.Executor.Handle.Types.{accepted}
pub mod Bounds

pub data OpportunityMode : Type 0 where
  conservative : OpportunityMode
  aggressive : OpportunityMode
  scavenger : OpportunityMode

-- What the code reads of an endpoint of the fleet.
pub record RpcEndpointSnapshot : Type 0 where
  pub disabled : Bool
  pub failures : ℕ
  pub timeout_failures : ℕ
  pub rate_limit_failures : ℕ
  pub stale_failures : ℕ
  pub cooldown_remaining_secs : ℕ
  pub read_capacity_per_sec : ℕ

pub record RpcLookupPressure : Type 0 where
  pub available_readers : ℕ
  pub available_read_capacity_per_sec : ℕ
  pub rate_limited_readers : ℕ
  pub failing_readers : ℕ

abbrev add64 : ℕ → ℕ → ℕ
add64 a b = saturating_add u64_max a b

unfoldable pub rate_limited_endpoint : RpcEndpointSnapshot → RpcLookupPressure → RpcLookupPressure
rate_limited_endpoint e p =
    if ltb 0 e.rate_limit_failures
    then record p { rate_limited_readers = add64 p.rate_limited_readers 1 }
    else p

unfoldable pub failing_endpoint : RpcEndpointSnapshot → RpcLookupPressure → RpcLookupPressure
failing_endpoint e p =
    if ltb 0 e.failures || ltb 0 e.timeout_failures || ltb 0 e.stale_failures
    then record p { failing_readers = add64 p.failing_readers 1 }
    else p

unfoldable pub available_endpoint : RpcEndpointSnapshot → RpcLookupPressure → RpcLookupPressure
available_endpoint e p =
    if e.cooldown_remaining_secs == 0 && e.rate_limit_failures == 0
    then record p {
      available_readers = add64 p.available_readers 1;
      available_read_capacity_per_sec =
          add64 p.available_read_capacity_per_sec e.read_capacity_per_sec;
    }
    else p

unfoldable pub pressure_loop : List RpcEndpointSnapshot → RpcLookupPressure → RpcLookupPressure
pressure_loop [] p = p
pressure_loop (e ∷ es) p = pressure_loop es (
    if e.disabled then p else available_endpoint e (failing_endpoint e (rate_limited_endpoint e p)))

unfoldable pub rpc_lookup_pressure : List RpcEndpointSnapshot → RpcLookupPressure
rpc_lookup_pressure endpoints = pressure_loop endpoints (record {
  available_readers = 0;
  available_read_capacity_per_sec = 0;
  rate_limited_readers = 0;
  failing_readers = 0;
})

unfoldable pub default_budget : OpportunityMode → ℕ
default_budget conservative = 60
default_budget aggressive = 90
default_budget scavenger = 25

unfoldable pub least_reader_cap : OpportunityMode → ℕ
least_reader_cap conservative = 8
least_reader_cap aggressive = 10
least_reader_cap scavenger = 4

-- The budget before the pressure is applied.
unfoldable pub base_budget : OpportunityMode → Option ℕ → RpcLookupPressure → ℕ
base_budget mode none p =
    min (default_budget mode) (max p.available_read_capacity_per_sec (least_reader_cap mode))
base_budget mode (some configured) p =
    min (min (max configured 1) 1_000)
      (max p.available_read_capacity_per_sec (least_reader_cap mode))

unfoldable pub budget_floor : RpcLookupPressure → ℕ
budget_floor p = if p.available_readers == 0 then 4 else 10

module _ (f : Float) where
  open f use {F, lit, of_nat, mul, round_to_nat}

  unfoldable pub pressure_multiplier : Option ℕ → RpcLookupPressure → F
  pressure_multiplier (some configured) p =
      if p.available_readers == 0
      then lit 5 2
      else if ltb 0 p.rate_limited_readers
      then lit 25 2
      else if ltb p.available_readers p.failing_readers
      then lit 60 2
      else lit 1 0
  pressure_multiplier none p =
      if p.available_readers == 0
      then lit 3 2
      else if leb p.available_readers 1 && ltb 0 p.rate_limited_readers
      then lit 18 2
      else if leb p.available_readers 1 || ltb 0 p.rate_limited_readers
      then lit 28 2
      else if ltb p.available_readers p.failing_readers
      then lit 45 2
      else lit 1 0

  -- The floor is a whole number, so it can be taken after the cast.
  unfoldable pub effective_pending_lookup_budget_for_mode :
      OpportunityMode → Option ℕ → RpcLookupPressure → ℕ
  effective_pending_lookup_budget_for_mode mode configured p =
      max
        (round_to_nat
          (mul (of_nat (base_budget mode configured p)) (pressure_multiplier configured p)))
        (budget_floor p)

-- `unwrap_or(1).clamp(1, 3)`.
unfoldable pub pending_lookup_fanout : Option ℕ → ℕ
pending_lookup_fanout none = 1
pending_lookup_fanout (some n) = min (max n 1) 3

pub data CandidateLane : Type 0 where
  small : CandidateLane
  medium : CandidateLane
  large : CandidateLane
  universal : CandidateLane

unfoldable pub classify_candidate_lane : {f : Float} → SwapSignal f → ℕ → CandidateLane
classify_candidate_lane signal min_large_swap_wei =
    if signal.selector == universal_router_execute
      || signal.selector == universal_router_execute_no_deadline
    then universal
    else if leb (max (saturating_mul u256_max min_large_swap_wei 250) (5 * 10 ^ 17))
        signal.notional_wei
    then large
    else if leb (max (saturating_mul u256_max min_large_swap_wei 25) (5 * 10 ^ 16))
        signal.notional_wei
    then medium
    else small

pub record SmallSwapBudget : Type 0 where
  pub window_started : ℕ
  pub accepted : ℕ

abbrev pub small_scavenger_budget_per_sec : ℕ
small_scavenger_budget_per_sec = 8

unfoldable pub fresh_small_window : ℕ → SmallSwapBudget → SmallSwapBudget
fresh_small_window now b =
    if leb (from_secs 1) (since now b.window_started)
    then record { window_started = now; accepted = 0 }
    else b

unfoldable pub count_small : SmallSwapBudget → SmallSwapBudget × Bool
count_small b =
    if ltb b.accepted small_scavenger_budget_per_sec
    then (record b { accepted = add64 b.accepted 1 }, true)
    else (b, false)

unfoldable pub allow_small_scavenger_candidate : ℕ → SmallSwapBudget → SmallSwapBudget × Bool
allow_small_scavenger_candidate now b = count_small (fresh_small_window now b)
