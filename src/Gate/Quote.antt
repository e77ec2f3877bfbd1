-- ===== src/Gate/Quote.antt =====
-- What the scavenger's last quote guarantees of the payloads that it lets pass, together with the economic
-- gate before it.
use arbitrage_runtime.Base.{
  List, arith, inl, inr, leb→le, length, min, mul_mono, none, refl, saturating_add, saturating_mul,
  saturating_mul_fits, some, true, u256_max, ℕ, ◌*◌, ◌+◌, ◌-◌, ◌/◌, ◌<◌, ◌≡◌, ◌≤◌, ◌⊎◌,
}
use arbitrage_runtime.Base.Float.{Float}
use arbitrage_runtime.Gate.{
  AmmState, ExecutionPayload, GateDiagnostic, MevConfig, clamp_nat, roi_of,
  scavenger_quality_price_impact_cap_bps, uniswap_v2, uniswap_v3,
}
use arbitrage_runtime.Gate.Economic.{
  EdgeSettings, edge_floor, pool_state_valid, raw_gas_cost, required_edge, safety_gas_cost,
  scavenger_economic_edge_diagnostic, scavenger_war_quote_diagnostic,
}
use mathlib.Core.Path.{subst}
use native.Mathlib.Nat.{le_trans}

-- A pool that can be traded against.
abbrev pub IsLive : AmmState → Type 0
IsLive (uniswap_v2 pool) = (0 < pool.reserve0) × (0 < pool.reserve1)
IsLive (uniswap_v3 pool) =
    (0 < pool.liquidity) × (0 < pool.sqrt_price_x96) × (0 < length pool.initialized_ticks)

module _ (f : Float) where
  pool_state_valid-IsLive :
      (state : AmmState) (path : List ℕ) → pool_state_valid f state path ≡ true → IsLive state
  unfolding pool_state_valid
  pool_state_valid-IsLive (uniswap_v2 pool) path h = (ground arith, ground arith)
  pool_state_valid-IsLive (uniswap_v3 pool) path h = (ground arith, ground arith, ground arith)

  impact_cap-le : (config : MevConfig f) → scavenger_quality_price_impact_cap_bps f config ≤ 4_000
  unfolding scavenger_quality_price_impact_cap_bps clamp_nat
  impact_cap-le config = ground arith

  -- The part of the gas cost that an edge must reach, where the product fits.
  edge_floor-ge :
      (config : MevConfig f) (settings : EdgeSettings f) (gas fraction : ℕ)
      → (settings.min_gas_fraction_bps ≡ some fraction)
        ⊎ ((settings.min_gas_fraction_bps ≡ none) × (fraction ≡ 100))
      → 1 ≤ fraction
      → fraction ≤ 10_000
      → gas * fraction ≤ u256_max
      → gas * fraction / 10_000 ≤ edge_floor f config settings gas
  unfolding edge_floor clamp_nat
  edge_floor-ge config settings gas fraction (inl e) low high fits =
      let product = saturating_mul_fits u256_max gas fraction fits in rw e (ground arith)
  edge_floor-ge config settings gas fraction (inr (e, same)) low high fits =
      let product = saturating_mul_fits u256_max gas fraction fits in rw e (ground arith)

  quote_pass :
      (config : MevConfig f) (payload : ExecutionPayload) (path : List ℕ) (gas_price : ℕ)
      (economic : GateDiagnostic f)
      → (scavenger_war_quote_diagnostic f config payload path gas_price economic).pass ≡ true
      → (economic.pass ≡ true)
        × (pool_state_valid f payload.pool_state_before path ≡ true)
        × (safety_gas_cost f config payload gas_price < payload.expected_profit_wei)
        × (min
              (safety_gas_cost f config payload gas_price
                + (economic.min_profit_wei - economic.execution_cost_wei))
              u256_max
            ≤ payload.expected_profit_wei)
        × (config.effective_min_roi_bps
            ≤ roi_of f payload.expected_profit_wei (safety_gas_cost f config payload gas_price))
        × (payload.price_impact_bps ≤ scavenger_quality_price_impact_cap_bps f config)
  unfolding scavenger_war_quote_diagnostic saturating_add
  quote_pass config payload path gas_price economic h = ground arith

  safety_gas_cost-eq :
      (config : MevConfig f) (payload : ExecutionPayload) (gas_price : ℕ)
      → gas_price * payload.gas_limit ≤ u256_max
      → gas_price * payload.gas_limit * config.gas_safety_margin_bps ≤ u256_max
      → safety_gas_cost f config payload gas_price
        ≡ gas_price * payload.gas_limit * config.gas_safety_margin_bps / 10_000
  unfolding safety_gas_cost raw_gas_cost
  safety_gas_cost-eq config payload gas_price h k =
      rw (saturating_mul_fits u256_max gas_price payload.gas_limit h) (
        rw
          (saturating_mul_fits u256_max (gas_price * payload.gas_limit) config.gas_safety_margin_bps
            k)
          refl)

  -- The sums of the two gates, in numbers.
  covers_of_gates :
      (gas cost part floor profit : ℕ)
      → part ≤ floor
      → profit < u256_max
      → min (gas + floor) u256_max ≤ profit
      → min (cost + (min (gas + floor) u256_max - gas)) u256_max ≤ profit
      → (cost + part ≤ profit) × (gas + part ≤ profit)
  covers_of_gates gas cost part floor profit h p e q = (omega arith, omega arith)

  -- A payload that passes the scavenger's economic gate, with net profit required, and then its last quote
  -- pays for its gas: where the products below fit in 256 bits and the profit is not their greatest
  -- number, the profit exceeds the gas cost with the safety margin and covers it, and also the bare gas
  -- cost, with the required fraction of the gas cost on top. Its return on the cost with the margin
  -- reaches the least one, its pool can be traded against and its price impact is at most forty per cent.
  pub war_quote_covers_gas :
      (config : MevConfig f) (settings : EdgeSettings f) (payload : ExecutionPayload)
      (path : List ℕ) (gas_price fraction : ℕ)
      → settings.require_net_positive ≡ true
      → (settings.min_gas_fraction_bps ≡ some fraction)
        ⊎ ((settings.min_gas_fraction_bps ≡ none) × (fraction ≡ 100))
      → 1 ≤ fraction
      → fraction ≤ 10_000
      → gas_price * payload.gas_limit * 10_000 ≤ u256_max
      → gas_price * payload.gas_limit * config.gas_safety_margin_bps ≤ u256_max
      → payload.expected_profit_wei < u256_max
      → (scavenger_war_quote_diagnostic f config payload path gas_price
          (scavenger_economic_edge_diagnostic f config settings payload gas_price)).pass
        ≡ true
      → (gas_price * payload.gas_limit * config.gas_safety_margin_bps
          < payload.expected_profit_wei * 10_000)
        × (gas_price * payload.gas_limit * config.gas_safety_margin_bps / 10_000
              + gas_price * payload.gas_limit * fraction / 10_000
            ≤ payload.expected_profit_wei)
        × (gas_price * payload.gas_limit + gas_price * payload.gas_limit * fraction / 10_000
            ≤ payload.expected_profit_wei)
        × (config.effective_min_roi_bps
            ≤ roi_of f payload.expected_profit_wei
                (gas_price * payload.gas_limit * config.gas_safety_margin_bps / 10_000))
        × IsLive payload.pool_state_before
        × (payload.price_impact_bps ≤ 4_000)
  unfolding scavenger_economic_edge_diagnostic required_edge raw_gas_cost saturating_add
  war_quote_covers_gas config settings payload path gas_price fraction net given low high fits
        margin bound h =
      let economic = scavenger_economic_edge_diagnostic f config settings payload gas_price in
      let (passed, valid, above, covered, roi, impact) =
        quote_pass config payload path gas_price economic h in
      let gas = gas_price * payload.gas_limit in
      let raw : saturating_mul u256_max gas_price payload.gas_limit ≡ gas =
        saturating_mul_fits u256_max gas_price payload.gas_limit (omega arith) in
      let cost = safety_gas_cost-eq config payload gas_price (omega arith) margin in
      let part_fits : gas * fraction ≤ u256_max =
        le_trans (mul_mono gas fraction gas 10_000 (omega arith) high) fits in
      let part = edge_floor-ge config settings gas fraction given low high part_fits in
      let floor = edge_floor f config settings gas in
      let required = required_edge f config settings (raw_gas_cost f payload gas_price) in
      let all_gas : required ≡ min (gas + floor) u256_max = rw (raw, net) refl in
      let enough : required ≤ payload.expected_profit_wei = leb→le _ _ passed in
      let safe = gas * config.gas_safety_margin_bps / 10_000 in
      let (with_margin, bare) =
        covers_of_gates gas safe (gas * fraction / 10_000) floor payload.expected_profit_wei part
          bound (omega arith) (omega arith) in
      (
        omega arith,
        with_margin,
        bare,
        subst (λ (c : ℕ). config.effective_min_roi_bps ≤ roi_of f payload.expected_profit_wei c)
            cost roi,
        pool_state_valid-IsLive payload.pool_state_before path valid,
        omega (arith, impact_cap-le config),
      )
