-- ===== src/Gate/Quality.antt =====
-- `quality_gate_diagnostic` and `passes_scavenger_sanity_gate` of src/mev/runtime.rs.
use Prim.Native.String.{String}
use arbitrage_runtime.Base.{
  Option, if◌then◌else◌, leb, length, ltb, max, min, none, not, saturating_mul, some, u64_max, ℕ,
  ◌&&◌, ◌==◌, ◌||◌,
}
use arbitrage_runtime.Base.Float.{Float, clamp}
use arbitrage_runtime.Base.Time.{as_millis}
use arbitrage_runtime.Gate.{
  ExecutionPayload, GateDiagnostic, MevConfig, is_scavenger, roi_of,
  scavenger_quality_price_impact_cap_bps, value_usd,
}

module _ (f : Float) where
  open f use {F, lit, of_nat, mul, div, trunc_to_nat}

  -- The score of the impact is clamped to 0..100 before it is compared.
  unfoldable pub impact_score : MevConfig f → ExecutionPayload → ℕ
  impact_score config payload =
      min
        (trunc_to_nat (
          clamp f (lit 0 0) (lit 100 0) (
            mul
              (div (of_nat payload.price_impact_bps)
                (of_nat (max config.effective_max_price_impact_bps 1)))
              (lit 100 0))))
        65_535

  unfoldable pub scavenger_quality : MevConfig f → ExecutionPayload → ℕ → GateDiagnostic f
  scavenger_quality config payload execution_cost_wei =
      let impact_cap = scavenger_quality_price_impact_cap_bps f config in
      record {
        pass = not (payload.expected_profit_wei == 0) && leb payload.price_impact_bps impact_cap;
        reason =
            if payload.expected_profit_wei == 0
            then "quality_zero_expected_profit"
            else if ltb impact_cap payload.price_impact_bps
            then "quality_price_impact_above_cap"
            else "quality_gate_pass";
        expected_profit_wei = payload.expected_profit_wei;
        execution_cost_wei = execution_cost_wei;
        min_profit_wei = 0;
        net_ev_usd = value_usd f config payload.expected_profit_wei;
        roi_bps = roi_of f payload.expected_profit_wei execution_cost_wei;
      }

  unfoldable pub standard_quality : MevConfig f → ExecutionPayload → ℕ → GateDiagnostic f
  standard_quality config payload execution_cost_wei =
      let roi = roi_of f payload.expected_profit_wei execution_cost_wei in
      let score = impact_score config payload in
      record {
        pass = leb config.effective_min_roi_bps roi && leb score 100;
        reason =
            if ltb roi config.effective_min_roi_bps
            then "quality_roi_below_min"
            else if ltb 100 score
            then "quality_impact_score_above_cap"
            else "quality_gate_pass";
        expected_profit_wei = payload.expected_profit_wei;
        execution_cost_wei = execution_cost_wei;
        min_profit_wei = 0;
        net_ev_usd = value_usd f config payload.expected_profit_wei;
        roi_bps = roi;
      }

  unfoldable pub quality_gate_diagnostic : MevConfig f → ExecutionPayload → ℕ → GateDiagnostic f
  quality_gate_diagnostic config payload execution_cost_wei =
      if is_scavenger config.opportunity_mode
      then scavenger_quality config payload execution_cost_wei
      else standard_quality config payload execution_cost_wei

  -- The error, or none where the payload is sane.
  unfoldable pub passes_scavenger_sanity_gate : MevConfig f → ExecutionPayload → ℕ → Option String
  passes_scavenger_sanity_gate config payload lookup_latency =
      if length payload.tx == 0 || length payload.calldata == 0
      then some "scavenger_empty_payload"
      else if payload.target_contract == 0
      then some "scavenger_missing_target"
      else if payload.capital_committed_wei == 0
      then some "scavenger_zero_capital"
      else if payload.expected_profit_wei == 0
      then some "scavenger_no_positive_gross_edge"
      else if ltb config.max_gas_per_tx payload.gas_limit
      then some "scavenger_gas_limit_above_cap"
      else if ltb (scavenger_quality_price_impact_cap_bps f config) payload.price_impact_bps
      then some "scavenger_price_impact_above_cap"
      else if ltb (max (saturating_mul u64_max config.effective_max_pending_age_ms 3) 1)
          (as_millis lookup_latency)
      then some "scavenger_lookup_stale"
      else none
