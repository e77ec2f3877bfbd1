-- ===== src/Route.antt =====
-- Multi-hop V2 routes: the quotes of src/mev/runtime.rs (`quote_v2_runtime_route_exact_in` and its
-- neighbours) and of src/mev/execution/payload_builder.rs (`quote_v2_route_exact_in`).
use arbitrage_runtime.Amm.V2.{
  V2PoolState, amount_out_exact_in, mul256, price_impact_bps, reserves_for,
}
use arbitrage_runtime.Base.{
  Bool, List, Option, [], false, if◌then◌else◌, leb, length, ltb, max, none, not, saturating_add,
  saturating_mul, saturating_sub, some, true, u64_max, ℕ, ◌+◌, ◌/◌, ◌==◌, ◌>>=◌, ◌||◌, ◌∷◌,
}
pub mod Quotes
pub mod Impact
pub mod Dedup
pub mod Distinct
pub mod Tests

-- The loop of `quote_v2_runtime_route_exact_in`: hop `idx` goes from `route[idx]` to `route[idx + 1]` in `pools[idx]`. The
-- callers have checked the lengths, so no index is out of range.
unfoldable pub quote_hops : ℕ → List ℕ → List V2PoolState → Option ℕ
quote_hops amount route [] = some amount
quote_hops amount [] (pool ∷ pools) = none
quote_hops amount (token_in ∷ []) (pool ∷ pools) = none
quote_hops amount (token_in ∷ token_out ∷ route) (pool ∷ pools) = do
  (reserve_in, reserve_out) ← reserves_for pool token_in token_out
  amount_out ← amount_out_exact_in amount reserve_in reserve_out pool.fee_bps
  quote_hops amount_out (token_out ∷ route) pools

-- `route.len() < 2 || pools.len() + 1 != route.len()`.
abbrev pub misfit : List ℕ → List V2PoolState → Bool
misfit route pools = ltb (length route) 2 || not (length pools + 1 == length route)

unfoldable pub quote_v2_runtime_route_exact_in : ℕ → List ℕ → List V2PoolState → Option ℕ
quote_v2_runtime_route_exact_in amount_in route pools =
    if misfit route pools then none else quote_hops amount_in route pools

unfoldable pub effective_fee : ℕ → V2PoolState → ℕ
effective_fee fallback_fee_bps pool = if pool.fee_bps == 0 then fallback_fee_bps else pool.fee_bps

-- The loop of `quote_v2_route_exact_in`.
unfoldable pub quote_fallback_hops : ℕ → ℕ → List ℕ → List V2PoolState → Option ℕ
quote_fallback_hops fallback_fee_bps amount route [] = some amount
quote_fallback_hops fallback_fee_bps amount [] (pool ∷ pools) = none
quote_fallback_hops fallback_fee_bps amount (token_in ∷ []) (pool ∷ pools) = none
quote_fallback_hops fallback_fee_bps amount (token_in ∷ token_out ∷ route) (pool ∷ pools) = do
  (reserve_in, reserve_out) ← reserves_for pool token_in token_out
  amount_out ←
      amount_out_exact_in amount reserve_in reserve_out (effective_fee fallback_fee_bps pool)
  quote_fallback_hops fallback_fee_bps amount_out (token_out ∷ route) pools

unfoldable pub quote_v2_route_exact_in : ℕ → List ℕ → List V2PoolState → ℕ → Option ℕ
quote_v2_route_exact_in amount_in route_path route_pools fallback_fee_bps =
    if misfit route_path route_pools
    then none
    else quote_fallback_hops fallback_fee_bps amount_in route_path route_pools

unfoldable pub impact_hops : ℕ → ℕ → List ℕ → List V2PoolState → Option ℕ
impact_hops worst_impact_bps amount route [] = some worst_impact_bps
impact_hops worst_impact_bps amount [] (pool ∷ pools) = none
impact_hops worst_impact_bps amount (token_in ∷ []) (pool ∷ pools) = none
impact_hops worst_impact_bps amount (token_in ∷ token_out ∷ route) (pool ∷ pools) = do
  (reserve_in, reserve_out) ← reserves_for pool token_in token_out
  amount_out ← amount_out_exact_in amount reserve_in reserve_out pool.fee_bps
  impact_hops (max worst_impact_bps (price_impact_bps amount amount_out reserve_in reserve_out))
      amount_out (token_out ∷ route) pools

unfoldable pub quote_v2_runtime_route_impact_bps : ℕ → List ℕ → List V2PoolState → Option ℕ
quote_v2_runtime_route_impact_bps amount_in route pools =
    if misfit route pools then none else impact_hops 0 amount_in route pools

-- The test of one hop, on what `reserves_for` gives.
unfoldable pub low_liquidity : ℕ → Option (ℕ × ℕ) → Bool
low_liquidity probe_amount none = true
low_liquidity probe_amount (some (reserve_in, reserve_out)) =
    leb reserve_in (mul256 probe_amount 20) || leb reserve_out 1

unfoldable pub low_liquidity_hops : ℕ → List ℕ → List V2PoolState → Bool
low_liquidity_hops probe_amount route [] = false
low_liquidity_hops probe_amount [] (pool ∷ pools) = true
low_liquidity_hops probe_amount (token_in ∷ []) (pool ∷ pools) = true
low_liquidity_hops probe_amount (token_in ∷ token_out ∷ route) (pool ∷ pools) =
    low_liquidity probe_amount (reserves_for pool token_in token_out)
    || low_liquidity_hops probe_amount (token_out ∷ route) pools

unfoldable pub route_has_low_liquidity_probe : ℕ → List ℕ → List V2PoolState → Bool
route_has_low_liquidity_probe probe_amount route pools =
    if misfit route pools then true else low_liquidity_hops probe_amount route pools

unfoldable pub scavenger_v2_route_score : ℕ → ℕ → ℕ → ℕ
scavenger_v2_route_score amount_out impact_bps route_len =
    let hop_count = max (saturating_sub route_len 1) 1 in
    let penalty_bps =
      saturating_add u64_max (saturating_add u64_max 10_000 (saturating_mul u64_max impact_bps 2))
        (saturating_mul u64_max (saturating_sub hop_count 1) 250) in
    mul256 amount_out 10_000 / max penalty_bps 1
