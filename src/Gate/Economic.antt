-- ===== src/Gate/Economic.antt =====
-- The economic edge of a payload in scavenger mode (`scavenger_payload_has_economic_edge`,
-- `scavenger_economic_edge_diagnostic`, `scavenger_war_quote_diagnostic` of src/mev/runtime.rs).
use arbitrage_runtime.Amm.V2.{V2PoolState, reserves_for}
use arbitrage_runtime.Base.{
  Bool, List, Option, [], false, if◌then◌else◌, leb, length, ltb, max, none, not, saturating_add,
  saturating_mul, saturating_sub, some, true, u256_max, ℕ, ◌&&◌, ◌/◌, ◌==◌, ◌||◌, ◌∷◌,
}
use arbitrage_runtime.Base.Float.{Float}
use arbitrage_runtime.Gate.{
  AmmState, ExecutionPayload, GateDiagnostic, MevConfig, clamp_nat, roi_of,
  scavenger_quality_price_impact_cap_bps, uniswap_v2, uniswap_v3, value_usd,
}

-- What the environment says: the least fraction of the gas cost, the least edge and whether the edge must
-- also cover the gas. `parse_ether` of a number printed with eighteen digits is a parameter.
pub record EdgeSettings (f : Float) : Type 0 where
  pub min_gas_fraction_bps : Option ℕ
  pub min_economic_edge_usd : Option f.F
  pub require_net_positive : Bool
  pub parse_ether : f.F → Option ℕ

module _ (f : Float) where
  open f use {F, lit, div, max_f64}

  abbrev or_hundred : Option ℕ → ℕ
  or_hundred none = 100
  or_hundred (some bps) = bps

  abbrev or_default_edge : Option F → F
  or_default_edge none = lit 5 4
  or_default_edge (some usd) = usd

  abbrev or_no_ether : Option ℕ → ℕ
  or_no_ether none = 0
  or_no_ether (some wei) = wei

  unfoldable pub raw_gas_cost : ExecutionPayload → ℕ → ℕ
  raw_gas_cost payload gas_price = saturating_mul u256_max gas_price payload.gas_limit

  unfoldable pub edge_floor : MevConfig f → EdgeSettings f → ℕ → ℕ
  edge_floor config settings gas_cost_wei =
      let fraction = clamp_nat 1 10_000 (or_hundred settings.min_gas_fraction_bps) in
      let min_edge_wei = saturating_mul u256_max gas_cost_wei fraction / 10_000 in
      let min_edge_usd = max_f64 (or_default_edge settings.min_economic_edge_usd) (lit 0 0) in
      let min_edge_native = div min_edge_usd (max_f64 config.eth_usd_price (lit 1 6)) in
      max min_edge_wei (or_no_ether (settings.parse_ether min_edge_native))

  unfoldable pub required_edge : MevConfig f → EdgeSettings f → ℕ → ℕ
  required_edge config settings gas_cost_wei =
      let floor = edge_floor config settings gas_cost_wei in
      if settings.require_net_positive then saturating_add u256_max gas_cost_wei floor else floor

  unfoldable pub scavenger_payload_has_economic_edge :
      MevConfig f → EdgeSettings f → ExecutionPayload → ℕ → Bool
  scavenger_payload_has_economic_edge config settings payload gas_price =
      if payload.expected_profit_wei == 0
      then false
      else leb (required_edge config settings (raw_gas_cost payload gas_price))
          payload.expected_profit_wei

  unfoldable pub scavenger_economic_edge_diagnostic :
      MevConfig f → EdgeSettings f → ExecutionPayload → ℕ → GateDiagnostic f
  scavenger_economic_edge_diagnostic config settings payload gas_price =
      let gas_cost_wei = raw_gas_cost payload gas_price in
      let required = required_edge config settings gas_cost_wei in
      record {
        pass = leb required payload.expected_profit_wei;
        reason =
            if payload.expected_profit_wei == 0
            then "ev_zero_expected_profit"
            else if not (leb required payload.expected_profit_wei)
            then "ev_scavenger_edge_below_floor"
            else "ev_gate_pass";
        expected_profit_wei = payload.expected_profit_wei;
        execution_cost_wei = gas_cost_wei;
        min_profit_wei = required;
        net_ev_usd = value_usd f config (saturating_sub payload.expected_profit_wei gas_cost_wei);
        roi_bps = roi_of f payload.expected_profit_wei gas_cost_wei;
      }

  abbrev is_pair : Option (ℕ × ℕ) → Bool
  is_pair none = false
  is_pair (some reserves) = true

  unfoldable pub on_pool : V2PoolState → List ℕ → Bool
  on_pool pool [] = false
  on_pool pool (a ∷ []) = false
  on_pool pool (a ∷ b ∷ path) = is_pair (reserves_for pool a b) || is_pair (reserves_for pool b a)

  unfoldable pub pool_state_valid : AmmState → List ℕ → Bool
  pool_state_valid (uniswap_v2 pool) path =
      not (pool.reserve0 == 0) && not (pool.reserve1 == 0) && on_pool pool path
  pool_state_valid (uniswap_v3 pool) path =
      not (pool.liquidity == 0)
      && not (pool.sqrt_price_x96 == 0)
      && not (length pool.initialized_ticks == 0)

  unfoldable pub safety_gas_cost : MevConfig f → ExecutionPayload → ℕ → ℕ
  safety_gas_cost config payload gas_price =
      saturating_mul u256_max (raw_gas_cost payload gas_price) config.gas_safety_margin_bps / 10_000

  unfoldable pub scavenger_war_quote_diagnostic :
      MevConfig f → ExecutionPayload → List ℕ → ℕ → GateDiagnostic f → GateDiagnostic f
  scavenger_war_quote_diagnostic config payload path gas_price economic =
      let cost = safety_gas_cost config payload gas_price in
      let economic_floor_wei = saturating_sub economic.min_profit_wei economic.execution_cost_wei in
      let required = saturating_add u256_max cost economic_floor_wei in
      let roi = roi_of f payload.expected_profit_wei cost in
      let valid = pool_state_valid payload.pool_state_before path in
      let cap = scavenger_quality_price_impact_cap_bps f config in
      record {
        pass =
            economic.pass
            && valid
            && ltb cost payload.expected_profit_wei
            && leb required payload.expected_profit_wei
            && leb config.effective_min_roi_bps roi
            && leb payload.price_impact_bps cap;
        reason =
            if not economic.pass
            then economic.reason
            else if not valid
            then "scavenger_quote_invalid_pool_state"
            else if leb payload.expected_profit_wei cost
            then "scavenger_quote_net_after_gas_not_positive"
            else if ltb payload.expected_profit_wei required
            then "scavenger_quote_edge_below_safety_floor"
            else if ltb roi config.effective_min_roi_bps
            then "scavenger_quote_roi_below_min"
            else if ltb cap payload.price_impact_bps
            then "scavenger_quote_price_impact_above_cap"
            else "scavenger_quote_pass";
        expected_profit_wei = payload.expected_profit_wei;
        execution_cost_wei = cost;
        min_profit_wei = required;
        net_ev_usd = value_usd f config (saturating_sub payload.expected_profit_wei cost);
        roi_bps = roi;
      }
