-- ===== src/Route/Tests.antt =====
-- Routes on numbers.
use arbitrage_runtime.Amm.V2.{
  V2PoolState, amount_out_exact_in, apply_swap_exact_in, finish_swap, price_impact_bps,
  reserves_for, with_reserves,
}
use arbitrage_runtime.Base.{
  List, [], arith, refl, saturating_add, saturating_mul, some, ℕ, ◌∷◌, ◌≡◌,
}
use arbitrage_runtime.Route.{
  impact_hops, quote_hops, quote_v2_route_exact_in, quote_v2_runtime_route_exact_in,
  quote_v2_runtime_route_impact_bps,
}
use arbitrage_runtime.Route.Dedup.{dedup_address_path, retain_unseen}
use arbitrage_runtime.Route.Quotes.{quote-swap_route, quotes-agree, swap_route, swap_route-quote}

abbrev first_pool : V2PoolState
first_pool = record {
  pair = 1;
  token0 = 10;
  token1 = 20;
  reserve0 = 1_000_000;
  reserve1 = 2_000_000;
  fee_bps = 30;
}

abbrev second_pool : V2PoolState
second_pool = record {
  pair = 2;
  token0 = 20;
  token1 = 30;
  reserve0 = 500_000;
  reserve1 = 800_000;
  fee_bps = 25;
}

abbrev pools : List V2PoolState
pools = first_pool ∷ second_pool ∷ []

abbrev route : List ℕ
route = 10 ∷ 20 ∷ 30 ∷ []

quote_runs : quote_v2_runtime_route_exact_in 1_000 route pools ≡ some 3_166
unfolding quote_v2_runtime_route_exact_in quote_hops reserves_for amount_out_exact_in saturating_mul
    saturating_add
quote_runs = refl

quote-swap_route_example :
    (nexts : List V2PoolState) × (swap_route 1_000 route pools ≡ some (3_166, nexts))
quote-swap_route_example =
    quote-swap_route 1_000 route pools
      ((omega arith, omega arith), ((omega arith, omega arith), tt)) (omega arith) (omega arith)
      quote_runs

abbrev feeless_pool : V2PoolState
feeless_pool = record second_pool { fee_bps = 0 }

quotes-agree_example :
    quote_v2_route_exact_in 1_000 route (first_pool ∷ feeless_pool ∷ []) 25
    ≡ quote_v2_runtime_route_exact_in 1_000 route (first_pool ∷ second_pool ∷ [])
quotes-agree_example = quotes-agree 25 1_000 route (first_pool ∷ feeless_pool ∷ [])

abbrev first_after : V2PoolState
first_after = record first_pool { reserve0 = 1_001_000; reserve1 = 1_998_008 }

abbrev second_after : V2PoolState
second_after = record second_pool { reserve0 = 501_992; reserve1 = 796_834 }

swaps_run : swap_route 1_000 route pools ≡ some (3_166, first_after ∷ second_after ∷ [])
unfolding swap_route apply_swap_exact_in reserves_for amount_out_exact_in finish_swap with_reserves
    price_impact_bps saturating_mul saturating_add
swaps_run = refl

swap_route-quote_example : quote_v2_runtime_route_exact_in 1_000 route pools ≡ some 3_166
swap_route-quote_example = swap_route-quote 1_000 route pools (omega arith) refl swaps_run

impact_runs : quote_v2_runtime_route_impact_bps 1_000 route pools ≡ some 65
unfolding quote_v2_runtime_route_impact_bps impact_hops reserves_for amount_out_exact_in
    price_impact_bps saturating_mul saturating_add
impact_runs = refl

dedup_runs : dedup_address_path (10 ∷ 20 ∷ 10 ∷ 30 ∷ []) ≡ 10 ∷ 20 ∷ 30 ∷ []
unfolding dedup_address_path retain_unseen
dedup_runs = refl
