-- ===== src/Gate/Tests.antt =====
-- Tests of the gates, and the theorems at concrete inputs.
use arbitrage_runtime.Amm.V2.{V2PoolState, reserves_for}
use arbitrage_runtime.Base.{
  [], arith, inr, max, none, not, refl, saturating_add, saturating_mul, some, true, ℕ, ◌*◌, ◌+◌,
  ◌/◌, ◌<◌, ◌^◌, ◌∷◌, ◌≡◌, ◌≤◌,
}
use arbitrage_runtime.Base.Float.{Micros, clamp, micros}
use arbitrage_runtime.Decode.Signal.{SwapSignal, v2_kind}
use arbitrage_runtime.Executor.Observe.{wei_to_eth_f64}
use arbitrage_runtime.Gate.{
  ExecutionPayload, GateDiagnostic, MevConfig, clamp_nat, is_scavenger, roi_of,
  scavenger_quality_price_impact_cap_bps, uniswap_v2, value_usd,
}
use arbitrage_runtime.Gate.Economic.{
  EdgeSettings, edge_floor, on_pool, pool_state_valid, raw_gas_cost, required_edge, safety_gas_cost,
  scavenger_economic_edge_diagnostic, scavenger_war_quote_diagnostic,
}
use arbitrage_runtime.Gate.Ev.{ev_gate_diagnostic}
use arbitrage_runtime.Gate.GasCap.{
  Capped, CompareLaws, adaptive_gas_cap_gwei, adaptive_gas_cap_gwei-Capped, checked_clamp,
}
use arbitrage_runtime.Gate.Quality.{impact_score, quality_gate_diagnostic, standard_quality}
use arbitrage_runtime.Gate.Quote.{IsLive, war_quote_covers_gas}
use arbitrage_runtime.Gate.Reasons.{Says, ev_gate_diagnostic-Says}
use arbitrage_runtime.Lookup.Budget.{aggressive}

Micros-CompareLaws : CompareLaws Micros
Micros-CompareLaws = record { lt_irrefl = λ x. ground arith; not_lt_of_le = λ x y h. ground arith }

adaptive_gas_cap_gwei-Capped_example :
    Capped Micros
      (micros 120 0)
      (max (micros 1_000 0) (micros 1 0))
      (adaptive_gas_cap_gwei Micros (micros 3 2) (micros 1 0) (micros 1_000 0))
adaptive_gas_cap_gwei-Capped_example =
    adaptive_gas_cap_gwei-Capped Micros Micros-CompareLaws (micros 3 2) (micros 1 0)
      (micros 1_000 0)

-- With a hard cap of 4 gwei there is no cap to compute: the bounds cross.
low_hard_cap : adaptive_gas_cap_gwei Micros (micros 3 2) (micros 1 0) (micros 4 0) ≡ none
unfolding adaptive_gas_cap_gwei checked_clamp
low_hard_cap = refl

abbrev polygon : MevConfig Micros
polygon = record {
  opportunity_mode = aggressive;
  effective_max_price_impact_bps = 80;
  effective_min_roi_bps = 50;
  effective_max_pending_age_ms = 250;
  effective_min_profit_usd = micros 2 2;
  effective_min_large_swap_eth = micros 1 0;
  eth_usd_price = micros 1 0;
  gas_safety_margin_bps = 11_000;
  max_gas_per_tx = 900_000;
  estimated_exec_gas = 260_000;
  estimated_bundle_overhead_gas = 60_000;
}

abbrev pool : V2PoolState
pool = record {
  pair = 1;
  token0 = 2;
  token1 = 3;
  reserve0 = 10 ^ 21;
  reserve1 = 10 ^ 21;
  fee_bps = 30;
}

abbrev payload : ExecutionPayload
payload = record {
  tx = 1 ∷ [];
  calldata = 1 ∷ [];
  target_contract = 9;
  capital_committed_wei = 10 ^ 18;
  expected_profit_wei = 10 ^ 18;
  gas_limit = 300_000;
  price_impact_bps = 5_000;
  pool_state_before = uniswap_v2 pool;
}

-- A price impact of fifty per cent, over a cap of 0.8 per cent, passes.
high_impact_passes : (quality_gate_diagnostic Micros polygon payload (10 ^ 16)).pass ≡ true
unfolding quality_gate_diagnostic standard_quality impact_score roi_of is_scavenger clamp
high_impact_passes = refl

abbrev settings : EdgeSettings Micros
settings = record {
  min_gas_fraction_bps = none;
  min_economic_edge_usd = none;
  require_net_positive = true;
  parse_ether = λ x. none;
}

abbrev swap : SwapSignal Micros
swap = record {
  selector = 0x38ed1739;
  amount_in = 10 ^ 18;
  amount_out_min = none;
  notional_wei = 10 ^ 18;
  path = 2 ∷ 3 ∷ [];
  router = 8;
  kind = v2_kind;
  decode_confidence = micros 1 0;
  decode_source = "abi";
}

value_compares :
    Micros.le (micros 2 2) (value_usd Micros polygon payload.expected_profit_wei)
    ≡ not (Micros.lt (value_usd Micros polygon payload.expected_profit_wei) (micros 2 2))
unfolding value_usd wei_to_eth_f64
value_compares = refl

ev_gate_diagnostic-Says_example :
    Says "ev_gate_pass"
      (ev_gate_diagnostic Micros polygon (λ x. some (10 ^ 18)) payload swap (100 * 10 ^ 6) 1_000)
ev_gate_diagnostic-Says_example =
    ev_gate_diagnostic-Says Micros polygon (λ x. some (10 ^ 18)) payload swap (100 * 10 ^ 6) 1_000
      value_compares

abbrev quiet : ExecutionPayload
quiet = record payload { price_impact_bps = 40 }

abbrev gas_gwei : ℕ
gas_gwei = 30 * 10 ^ 9

abbrev economic : GateDiagnostic Micros
economic = scavenger_economic_edge_diagnostic Micros polygon settings quiet gas_gwei

quiet_passes :
    (scavenger_war_quote_diagnostic Micros polygon quiet (2 ∷ 3 ∷ []) gas_gwei economic).pass ≡ true
unfolding scavenger_war_quote_diagnostic scavenger_economic_edge_diagnostic required_edge edge_floor
    raw_gas_cost safety_gas_cost pool_state_valid on_pool reserves_for roi_of clamp_nat
    scavenger_quality_price_impact_cap_bps saturating_add saturating_mul
quiet_passes = refl

war_quote_covers_gas_example :
    (gas_gwei * quiet.gas_limit * polygon.gas_safety_margin_bps
      < quiet.expected_profit_wei * 10_000)
    × (gas_gwei * quiet.gas_limit * polygon.gas_safety_margin_bps / 10_000
          + gas_gwei * quiet.gas_limit * 100 / 10_000
        ≤ quiet.expected_profit_wei)
    × (gas_gwei * quiet.gas_limit + gas_gwei * quiet.gas_limit * 100 / 10_000
        ≤ quiet.expected_profit_wei)
    × (polygon.effective_min_roi_bps
        ≤ roi_of Micros quiet.expected_profit_wei
            (gas_gwei * quiet.gas_limit * polygon.gas_safety_margin_bps / 10_000))
    × IsLive quiet.pool_state_before
    × (quiet.price_impact_bps ≤ 4_000)
war_quote_covers_gas_example =
    war_quote_covers_gas Micros polygon settings quiet (2 ∷ 3 ∷ []) gas_gwei 100 refl
      (inr (refl, refl)) (omega arith) (omega arith) (omega arith) (omega arith) (omega arith)
      quiet_passes
