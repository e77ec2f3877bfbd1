-- ===== src/Gate/Preflight.antt =====
-- The fast test of a signal before its payload is built (`fast_preflight_gate` of
-- src/mev/runtime.rs).
use Prim.Native.String.{String}
use arbitrage_runtime.Base.{
  Bool, Option, false, if◌then◌else◌, ltb, max, min, none, saturating_add, saturating_mul,
  saturating_sub, some, true, u256_max, u64_max, ℕ, ◌&&◌, ◌==◌,
}
use arbitrage_runtime.Base.Float.{Float}
use arbitrage_runtime.Decode.Hints.{fast_path_penalty, notional_size_bucket}
use arbitrage_runtime.Decode.Signal.{SwapSignal, path_len}
use arbitrage_runtime.Executor.Observe.{wei_to_eth_f64}
use arbitrage_runtime.Gate.{MevConfig, value_usd}
use arbitrage_runtime.Gate.TryScore.{
  ContextSignal, heuristic_gas_baseline_gwei, scavenger_fast_try_score, selector_heuristic_factor,
  zero_to_one,
}
use arbitrage_runtime.Lookup.Budget.{OpportunityMode, aggressive, conservative, scavenger}
use arbitrage_runtime.Lookup.Gate.{wei_to_gwei_f64}

pub record FastPreflightDecision (f : Float) : Type 0 where
  pub should_continue : Bool
  pub reject_reason : Option String
  pub ev_upper_bound_usd : f.F
  pub estimated_gas_cost_usd : f.F
  pub competition_score_fast : f.F
  pub gas_ratio : f.F
  pub scavenger_try_score : f.F

abbrev is_none : Option String → Bool
is_none none = true
is_none (some reason) = false

module _ (f : Float) where
  open f use {F, lit, of_nat, add, sub, mul, div, neg, lt, le, max_f64}

  unfoldable pub invalid_signal : String → FastPreflightDecision f
  invalid_signal reason = record {
    should_continue = false;
    reject_reason = some reason;
    ev_upper_bound_usd = lit 0 0;
    estimated_gas_cost_usd = lit 0 0;
    competition_score_fast = lit 1 0;
    gas_ratio = lit 0 0;
    scavenger_try_score = lit 0 0;
  }

  unfoldable pub preflight_size_factor : ℕ → F
  preflight_size_factor bucket =
      if bucket == 0 then lit 22 5 else if bucket == 1 then lit 38 5 else lit 60 5

  unfoldable pub gas_ratio_of : String → ℕ → F
  gas_ratio_of network gas_price =
      max_f64
        (div (wei_to_gwei_f64 f gas_price)
          (max_f64 (heuristic_gas_baseline_gwei f network) (lit 1 9)))
        (lit 0 0)

  unfoldable pub estimated_gas_cost : MevConfig f → ℕ → F
  estimated_gas_cost config gas_price = value_usd f config (
      saturating_mul u256_max gas_price (
        max (saturating_add u64_max config.estimated_exec_gas config.estimated_bundle_overhead_gas)
          180_000))

  unfoldable pub ev_upper_bound : MevConfig f → SwapSignal f → ℕ → ContextSignal f → F
  ev_upper_bound config signal gas_price context =
      let notional_eth = wei_to_eth_f64 f signal.notional_wei in
      let heuristic_factor =
        max_f64
          (mul
            (mul
              (mul
                (mul (selector_heuristic_factor f signal.selector) (
                  preflight_size_factor
                    (notional_size_bucket f notional_eth config.effective_min_large_swap_eth)))
                (sub (lit 1 0) (fast_path_penalty f (path_len signal))))
              (add (lit 88 2) (mul (zero_to_one f context.priority_score) (lit 18 2))))
            (sub (lit 1 0) (mul (zero_to_one f context.toxicity_score) (lit 20 2))))
          (lit 5 5) in
      sub (mul (mul notional_eth config.eth_usd_price) heuristic_factor)
        (estimated_gas_cost config gas_price)

  -- The competition score of the conservative mode.
  unfoldable pub competition_score : MevConfig f → SwapSignal f → F → ContextSignal f → F
  competition_score config signal gas_ratio context =
      let bucket =
        notional_size_bucket f (wei_to_eth_f64 f signal.notional_wei)
          config.effective_min_large_swap_eth in
      let gas_pressure = zero_to_one f (div (sub gas_ratio (lit 1 0)) (lit 8 1)) in
      let size_pressure =
        if bucket == 0 then lit 20 2 else if bucket == 1 then lit 48 2 else lit 72 2 in
      let context_confidence = zero_to_one f (div (of_nat (min context.samples 24)) (lit 24 0)) in
      let path_risk = div (of_nat (min (saturating_sub (path_len signal) 2) 3)) (lit 3 0) in
      zero_to_one f (
        sub
          (add
            (add (add (mul gas_pressure (lit 46 2)) (mul size_pressure (lit 34 2)))
              (mul path_risk (lit 14 2)))
            (mul (zero_to_one f context.toxicity_score)
              (add (lit 8 2) (mul context_confidence (lit 8 2)))))
          (mul (zero_to_one f context.priority_score)
            (add (lit 3 2) (mul context_confidence (lit 5 2)))))

  unfoldable pub scavenger_reject : F → F → Option String
  scavenger_reject score gas_ratio =
      if lt score (lit 18 2) && lt (lit 145 2) gas_ratio
      then some "scavenger_score_below_cheap_threshold"
      else none

  unfoldable pub aggressive_reject : F → F → F → F → Option String
  aggressive_reject score gas_ratio ev min_usd =
      if lt score (lit 24 2) && lt ev (mul min_usd (lit 35 2))
      then some "bloody_score_below_research_threshold"
      else if lt (lit 185 2) gas_ratio && lt ev min_usd
      then some "bloody_gas_pressure_without_edge"
      else none

  unfoldable pub conservative_reject : F → F → F → Option String
  conservative_reject score ev min_usd =
      if lt ev (mul min_usd (lit 15 1))
      then some "ev_upper_bound_below_min"
      else if lt (lit 75 2) score
      then some "competition_fast_too_high"
      else none

  unfoldable pub decision : F → F → F → F → F → Option String → FastPreflightDecision f
  decision ev gas_cost competition gas_ratio try_score reject = record {
    should_continue = is_none reject;
    reject_reason = reject;
    ev_upper_bound_usd = ev;
    estimated_gas_cost_usd = gas_cost;
    competition_score_fast = competition;
    gas_ratio = gas_ratio;
    scavenger_try_score = try_score;
  }

  unfoldable pub decide_mode :
      OpportunityMode
      → MevConfig f
      → String
      → SwapSignal f
      → ℕ
      → ContextSignal f
      → FastPreflightDecision f
  decide_mode mode config network signal gas_price context =
      let gas_ratio = gas_ratio_of network gas_price in
      let gas_cost = estimated_gas_cost config gas_price in
      let ev = ev_upper_bound config signal gas_price context in
      let min_usd = config.effective_min_profit_usd in
      let score =
        scavenger_fast_try_score f signal gas_ratio (wei_to_eth_f64 f signal.notional_wei) config
          context in
      let competition = competition_score config signal gas_ratio context in
      elim mode [
        | scavenger ↦
            decision ev gas_cost (sub (lit 1 0) score) gas_ratio score
              (scavenger_reject score gas_ratio)
        | aggressive ↦
            decision ev gas_cost (sub (lit 1 0) score) gas_ratio score
              (aggressive_reject score gas_ratio ev min_usd)
        | conservative ↦
            decision ev gas_cost competition gas_ratio (lit 0 0)
              (conservative_reject competition ev min_usd)
      ]

  unfoldable pub fast_preflight_gate :
      MevConfig f → String → SwapSignal f → ℕ → ℕ → ContextSignal f → FastPreflightDecision f
  fast_preflight_gate config network signal gas_price min_large_swap_wei context =
      if ltb (path_len signal) 2
      then invalid_signal "invalid_path"
      else if ltb signal.notional_wei min_large_swap_wei
      then invalid_signal "notional_below_min"
      else decide_mode config.opportunity_mode config network signal gas_price context
