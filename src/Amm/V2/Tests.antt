-- ===== src/Amm/V2/Tests.antt =====
-- The pool on numbers.
use arbitrage_runtime.Amm.V2.{
  SizeCandidate, V2PoolState, V2SwapResult, amount_out_exact_in, apply_swap_exact_in,
  candidates_from, finish_swap, price_impact_bps, push_some, reserves_for, size_candidate,
  size_candidates, with_reserves,
}
use arbitrage_runtime.Amm.V2.Bounds.{amount_out-eq-exact_out, exact_out}
use arbitrage_runtime.Amm.V2.Scoring.{
  find_roi_optimal_input, find_roi_optimal_input-profit, score_greater, select_best_size_candidate,
  sizing_score,
}
use arbitrage_runtime.Amm.V2.Sizing.{
  IsPricedFor, priced, size_candidates-priced, size_candidates_complete, sized,
}
use arbitrage_runtime.Amm.V2.Swap.{apply_swap_exact_in-product}
use arbitrage_runtime.Base.{
  All, Any, List, [], arith, inl, length, none, refl, saturating_add, saturating_mul, some, ℕ, ◌*◌,
  ◌+◌, ◌<◌, ◌∷◌, ◌≡◌, ◌≤◌,
}
use arbitrage_runtime.Base.Float.{Micros, clamp}
use arbitrage_runtime.Base.Select.{IsPreorder, by_key-IsPreorder, max_by, max_from}

abbrev pool : V2PoolState
pool = record {
  pair = 1;
  token0 = 10;
  token1 = 20;
  reserve0 = 1_000_000;
  reserve1 = 2_000_000;
  fee_bps = 30;
}

abbrev after_swap : V2PoolState
after_swap = record {
  pair = 1;
  token0 = 10;
  token1 = 20;
  reserve0 = 1_001_000;
  reserve1 = 1_998_008;
  fee_bps = 30;
}

abbrev swapped : V2SwapResult
swapped = record {
  amount_in = 1_000;
  amount_out = 1_992;
  new_reserve_in = 1_001_000;
  new_reserve_out = 1_998_008;
  price_impact_bps = 40;
}

swap_runs : apply_swap_exact_in pool 10 20 1_000 ≡ some (after_swap, swapped)
unfolding apply_swap_exact_in reserves_for amount_out_exact_in finish_swap with_reserves
    price_impact_bps saturating_mul saturating_add
swap_runs = refl

swap_of_unknown_token : apply_swap_exact_in pool 10 30 1_000 ≡ none
unfolding apply_swap_exact_in reserves_for
swap_of_unknown_token = refl

apply_swap_exact_in-product_example : 1_000_000 * 2_000_000 ≤ 1_001_000 * 1_998_008
apply_swap_exact_in-product_example =
    apply_swap_exact_in-product pool 10 20 1_000 after_swap swapped (omega arith) (omega arith)
      (omega arith) swap_runs

quote_runs : amount_out_exact_in 1_000 1_000_000 2_000_000 30 ≡ some 1_992
unfolding amount_out_exact_in saturating_mul saturating_add
quote_runs = refl

amount_out-eq-exact_out_example : 1_992 ≡ exact_out 1_000 1_000_000 2_000_000 30
amount_out-eq-exact_out_example =
    amount_out-eq-exact_out 1_000 1_000_000 2_000_000 30 (omega arith) (omega arith) (omega arith)
      quote_runs

abbrev halves : List ℕ
halves = 5_000 ∷ 10_000 ∷ []

sizes_run : length (size_candidates 1_000_000 2_000_000 10_000 100 30 halves) ≡ 2
unfolding size_candidates candidates_from push_some size_candidate amount_out_exact_in
    price_impact_bps saturating_mul saturating_add
sizes_run = refl

size_candidates-priced_example :
    All
      (IsPricedFor 1_000_000 2_000_000 10_000 100 30 halves)
      (size_candidates 1_000_000 2_000_000 10_000 100 30 halves)
size_candidates-priced_example = size_candidates-priced 1_000_000 2_000_000 10_000 100 30 halves

quote_of_half : amount_out_exact_in (sized 10_000 5_000) 1_000_000 2_000_000 30 ≡ some 9_920
unfolding amount_out_exact_in saturating_mul saturating_add
quote_of_half = refl

size_candidates_complete_example :
    Any
      (λ c. c ≡ priced 1_000_000 2_000_000 10_000 100 30 5_000 9_920)
      (size_candidates 1_000_000 2_000_000 10_000 100 30 halves)
unfolding saturating_mul
size_candidates_complete_example =
    size_candidates_complete 1_000_000 2_000_000 10_000 100 30 5_000 9_920 halves (inl refl)
      (omega arith) quote_of_half (omega arith)

abbrev candidates : List SizeCandidate
candidates = size_candidates 1_000_000 2_000_000 10_000 100 30 halves

score_order : (p t : ℕ) → IsPreorder (score_greater Micros p t)
unfolding score_greater
score_order p t = by_key-IsPreorder (λ c. sizing_score Micros c p t)

selection_runs :
    select_best_size_candidate Micros candidates 500_000 0
    ≡ some (priced 1_000_000 2_000_000 10_000 100 30 10_000 19_743)
unfolding size_candidates candidates_from push_some size_candidate amount_out_exact_in
    price_impact_bps saturating_mul saturating_add select_best_size_candidate max_by max_from
    score_greater sizing_score clamp
selection_runs = refl

optimum_runs : find_roi_optimal_input Micros 1_000_000 2_000_000 10_000 100 30 ≡ some (3_000, 2_864)
unfolding size_candidates candidates_from push_some size_candidate amount_out_exact_in
    price_impact_bps saturating_mul saturating_add select_best_size_candidate max_by max_from
    score_greater sizing_score clamp find_roi_optimal_input
optimum_runs = refl

find_roi_optimal_input-profit_example :
    (0 < 2_864) × (amount_out_exact_in 3_000 1_000_000 2_000_000 30 ≡ some (2_864 + 100 + 3_000))
find_roi_optimal_input-profit_example =
    find_roi_optimal_input-profit Micros 1_000_000 2_000_000 10_000 100 30 3_000 2_864 optimum_runs
