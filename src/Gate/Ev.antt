-- ===== src/Gate/Ev.antt =====
-- The expected-value gate (`ev_gate_diagnostic` and its parts in src/mev/runtime.rs). The V2 and the V3
-- version differ in the least price impact: 8 and 6 basis points.
use arbitrage_runtime.Base.{
  Bool, Option, if◌then◌else◌, leb, max, none, not, some, tests, ℕ, ◌&&◌, ◌==◌,
}
use arbitrage_runtime.Base.Float.{Float}
use arbitrage_runtime.Base.Time.{as_millis}
use arbitrage_runtime.Decode.Signal.{SwapKind, SwapSignal, v2_kind, v3_kind}
use arbitrage_runtime.Gate.{ExecutionPayload, GateDiagnostic, MevConfig, is_scavenger, value_usd}

module _ (f : Float) where
  open f use {F, lt, le}

  unfoldable pub lookup_is_fresh : MevConfig f → ℕ → Bool
  lookup_is_fresh config lookup_latency =
      leb (as_millis lookup_latency) (max config.effective_max_pending_age_ms 1)

  unfoldable pub gas_budget_ok : MevConfig f → ExecutionPayload → Bool
  gas_budget_ok config payload = leb payload.gas_limit config.max_gas_per_tx

  unfoldable pub scavenger_ev_gate_result :
      MevConfig f → ExecutionPayload → ℕ → Bool → GateDiagnostic f
  scavenger_ev_gate_result config payload lookup_latency pass = record {
    pass = pass;
    reason =
        if not (lookup_is_fresh config lookup_latency)
        then "ev_lookup_stale"
        else if payload.expected_profit_wei == 0
        then "ev_zero_expected_profit"
        else if not (gas_budget_ok config payload)
        then "ev_gas_limit_above_cap"
        else "ev_gate_pass";
    expected_profit_wei = payload.expected_profit_wei;
    execution_cost_wei = 0;
    min_profit_wei = 0;
    net_ev_usd = value_usd f config payload.expected_profit_wei;
    roi_bps = 0;
  }

  -- The tests of the standard gate.
  pub record EvTests : Type 0 where
    pub fresh : Bool
    pub large_enough : Bool
    pub inevitable_impact : Bool
    pub profit_above_threshold : Bool
    pub net_ev_usd : F
    pub gas_ok : Bool

  unfoldable pub standard_ev_gate_result :
      MevConfig f → ExecutionPayload → ℕ → Bool → EvTests → GateDiagnostic f
  standard_ev_gate_result config payload min_profit_wei pass tests = record {
    pass = pass;
    reason =
        if not tests.fresh
        then "ev_lookup_stale"
        else if not tests.large_enough
        then "ev_notional_below_min"
        else if not tests.inevitable_impact
        then "ev_price_impact_too_low"
        else if not tests.profit_above_threshold
        then "ev_profit_below_min_wei"
        else if lt tests.net_ev_usd config.effective_min_profit_usd
        then "ev_profit_below_min_usd"
        else if not tests.gas_ok
        then "ev_gas_limit_above_cap"
        else "ev_gate_pass";
    expected_profit_wei = payload.expected_profit_wei;
    execution_cost_wei = 0;
    min_profit_wei = min_profit_wei;
    net_ev_usd = tests.net_ev_usd;
    roi_bps = 0;
  }

  abbrev or_zero_wei : Option ℕ → ℕ
  or_zero_wei none = 0
  or_zero_wei (some wei) = wei

  -- `parse_ether` of the printed number is a parameter.
  unfoldable pub standard_tests :
      MevConfig f → (F → Option ℕ) → ExecutionPayload → ℕ → ℕ → ℕ → ℕ → EvTests
  standard_tests config parse_ether payload notional_wei lookup_latency min_profit_wei
        least_impact =
      record {
        fresh = lookup_is_fresh config lookup_latency;
        large_enough =
            leb (or_zero_wei (parse_ether config.effective_min_large_swap_eth)) notional_wei;
        inevitable_impact = leb least_impact payload.price_impact_bps;
        profit_above_threshold = leb min_profit_wei payload.expected_profit_wei;
        net_ev_usd = value_usd f config payload.expected_profit_wei;
        gas_ok = gas_budget_ok config payload;
      }

  unfoldable pub all_tests : MevConfig f → EvTests → Bool
  all_tests config tests =
      tests.fresh
      && tests.large_enough
      && tests.inevitable_impact
      && tests.profit_above_threshold
      && le config.effective_min_profit_usd tests.net_ev_usd
      && tests.gas_ok

  unfoldable pub ev_gate_diagnostic_with :
      ℕ → MevConfig f → (F → Option ℕ) → ExecutionPayload → ℕ → ℕ → ℕ → GateDiagnostic f
  ev_gate_diagnostic_with least_impact config parse_ether payload notional_wei lookup_latency
        min_profit_wei =
      let tests =
        standard_tests config parse_ether payload notional_wei lookup_latency min_profit_wei
          least_impact in
      if is_scavenger config.opportunity_mode
      then scavenger_ev_gate_result config payload lookup_latency (
          lookup_is_fresh config lookup_latency
          && not (payload.expected_profit_wei == 0)
          && gas_budget_ok config payload)
      else standard_ev_gate_result config payload min_profit_wei (all_tests config tests) tests

  abbrev least_impact_of : SwapKind → ℕ
  least_impact_of v2_kind = 8
  least_impact_of (v3_kind fee_tier encoded_path hops exact_out) = 6

  unfoldable pub ev_gate_diagnostic :
      MevConfig f → (F → Option ℕ) → ExecutionPayload → SwapSignal f → ℕ → ℕ → GateDiagnostic f
  ev_gate_diagnostic config parse_ether payload signal lookup_latency min_profit_wei =
      ev_gate_diagnostic_with (least_impact_of signal.kind) config parse_ether payload
        signal.notional_wei lookup_latency min_profit_wei
