-- ===== src/Executor/Tests.antt =====
-- Fees, submit paths and observed results on numbers.
use arbitrage_runtime.Base.{
  List, [], arith, max, none, refl, saturating_add, saturating_mul, some, suc, take, true, zero, ℕ,
  ◌*◌, ◌++◌, ◌+◌, ◌/◌, ◌^◌, ◌∷◌, ◌≡◌, ◌≤◌,
}
use arbitrage_runtime.Base.Float.{Micros}
use arbitrage_runtime.Executor.Fees.{
  FeeConfig, RelayQuote, capped, context_extra_bps, dynamic_gas_price, eip1559, executor_fees,
  max_gas_price_wei, overpaid, path_extra_bps,
}
use arbitrage_runtime.Executor.Fees.Bounds.{dynamic_gas_price_bounds, executor_fees-valid}
use arbitrage_runtime.Executor.Observe.{
  Probe, Receipt, no_receipt, observe_realized_pnl, observe_rounds, probe_error, probe_result,
  receipt_found, receipt_has_required_confirmations, result_of, round_result,
}
use arbitrage_runtime.Executor.Observe.Receipts.{Observed, observe_realized_pnl-Observed}
use arbitrage_runtime.Executor.Submit.{
  RpcHandle, direct_rpc_submit_endpoints_from_ranked_paths, order_by_paths, take_path,
}
use arbitrage_runtime.Executor.Submit.Endpoints.{IsOrder, submit_endpoints-IsOrder}

abbrev fees : FeeConfig Micros
fees = record {
  gas_overpay_base_extra_bps = 100;
  gas_overpay_miss_extra_bps = 200;
  gas_overpay_revert_extra_bps = 300;
  gas_overpay_submit_failure_extra_bps = 400;
  gas_overpay_max_extra_bps = 500;
  capital_multiplier_toxicity_threshold = 800_000;
  capital_multiplier_priority_threshold = 700_000;
  max_gas_price_gwei = some 5;
}

abbrev poor_relay : RelayQuote Micros
poor_relay = record {
  relay = "rpc://a";
  accept_rate = 500_000;
  accepted_not_included_rate = 200_000;
  revert_rate = 0;
}

price_runs : dynamic_gas_price Micros fees (3 * 10 ^ 9) (some poor_relay) 0 0 ≡ 3_150_000_000
unfolding dynamic_gas_price path_extra_bps context_extra_bps overpaid capped max_gas_price_wei
    saturating_add saturating_mul
price_runs = refl

dynamic_gas_price_bounds_example :
    (capped (max_gas_price_wei Micros fees) (3 * 10 ^ 9)
      ≤ dynamic_gas_price Micros fees (3 * 10 ^ 9) (some poor_relay) 0 0)
    × (dynamic_gas_price Micros fees (3 * 10 ^ 9) (some poor_relay) 0 0
        ≤ capped (max_gas_price_wei Micros fees) (3 * 10 ^ 9 * (10_000 + 500) / 10_000))
dynamic_gas_price_bounds_example =
    dynamic_gas_price_bounds Micros fees (3 * 10 ^ 9) (some poor_relay) 0 0 (omega arith)
      (omega arith)

executor_fees-valid_example :
    (max_fee : ℕ) × (priority_fee : ℕ) × (executor_fees 100 (some 90)
      ≡ eip1559 max_fee priority_fee)
    × (priority_fee ≤ max_fee)
    × (100 / 4 ≤ priority_fee)
    × (100 ≤ max_fee)
    × (90 + priority_fee ≤ max_fee)
    × (max_fee ≤ 90 + 100)
executor_fees-valid_example = executor_fees-valid 100 90 (omega arith)

-- The cap on the gas price does not bound the fee cap: at a base fee and a gas price of 100 the fee
-- cap is 125.
fee_cap_runs : executor_fees 100 (some 100) ≡ eip1559 125 25
unfolding executor_fees saturating_add
fee_cap_runs = refl

abbrev node_a : RpcHandle
node_a = record { id = 1; name = "a" }

abbrev node_b : RpcHandle
node_b = record { id = 2; name = "b" }

abbrev nodes : List RpcHandle
nodes = node_a ∷ node_b ∷ []

-- The path of `a` is frozen and no longer ranked; `a` is submitted to all the same.
submit_runs :
    direct_rpc_submit_endpoints_from_ranked_paths 2 ("rpc://b" ∷ []) nodes ≡ node_b ∷ node_a ∷ []
unfolding direct_rpc_submit_endpoints_from_ranked_paths order_by_paths take_path
submit_runs = refl

submit_endpoints-IsOrder_example :
    (first : List RpcHandle) × (others : List RpcHandle) × IsOrder
      ("rpc://b" ∷ [])
      nodes
      first
      others
    × (direct_rpc_submit_endpoints_from_ranked_paths 2 ("rpc://b" ∷ []) nodes
        ≡ take (max 2 1) (first ++ others))
submit_endpoints-IsOrder_example = submit_endpoints-IsOrder 2 ("rpc://b" ∷ []) nodes

abbrev receipt : Receipt
receipt = record {
  block_number = some 50;
  status = some 1;
  gas_used = some 21_000;
  effective_gas_price = some 10;
}

abbrev probes : ℕ → List Probe
probes zero = probe_error ∷ no_receipt ∷ []
probes (suc n) = receipt_found receipt (some 52) none ∷ []

observed_runs : (observe_realized_pnl Micros 2 none (10 ^ 18) probes).success ≡ true
unfolding observe_realized_pnl observe_rounds round_result probe_result
    receipt_has_required_confirmations result_of saturating_add
observed_runs = refl

observe_realized_pnl-Observed_example :
    Observed Micros 2 none (10 ^ 18) 10 probes (observe_realized_pnl Micros 2 none (10 ^ 18) probes)
observe_realized_pnl-Observed_example = observe_realized_pnl-Observed Micros 2 none (10 ^ 18) probes
