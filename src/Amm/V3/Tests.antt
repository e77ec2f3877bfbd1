-- ===== src/Amm/V3/Tests.antt =====
-- Runs of the pool, and the theorems at them.
use arbitrage_runtime.Amm.V3.{
  Printing, V3PoolState, V3SwapResult, V3Tick, add_net, apply_crossed_tick_liquidity, cross_ticks,
  crossed, f64_to_u256, finish_exact_in, move_price, moved_pool, simulate_exact_in,
  sqrt_price_to_tick, v3_price_impact_bps,
}
use arbitrage_runtime.Amm.V3.Ticks.{apply_crossed_tick_liquidity-direction}
use arbitrage_runtime.Base.{
  List, [], refl, saturating_add, saturating_mul, some, ◌*◌, ◌/◌, ◌^◌, ◌∷◌, ◌≡◌,
}
use arbitrage_runtime.Base.Float.{Micros}
use arbitrage_runtime.Base.Int.{int_ltb, negsuc, pos}

abbrev tick_at_five : V3Tick
tick_at_five = record { index = pos 5; liquidity_net = pos 400 }

abbrev two_ticks : List V3Tick
two_ticks = record { index = negsuc 2; liquidity_net = negsuc 99 } ∷ tick_at_five ∷ []

apply_crossed_tick_liquidity-direction_example :
    apply_crossed_tick_liquidity 1_000 (pos 7) (negsuc 0) two_ticks
    ≡ apply_crossed_tick_liquidity 1_000 (negsuc 0) (pos 7) two_ticks
unfolding int_ltb
apply_crossed_tick_liquidity-direction_example =
    apply_crossed_tick_liquidity-direction 1_000 (negsuc 0) (pos 7) two_ticks refl

-- Up across a tick with a net of 400 and down again: the liquidity ends at 1800.
up_and_down :
    apply_crossed_tick_liquidity
      (apply_crossed_tick_liquidity 1_000 (negsuc 0) (pos 7) two_ticks)
      (pos 7)
      (negsuc 0)
      two_ticks
    ≡ 1_800
unfolding apply_crossed_tick_liquidity cross_ticks crossed add_net int_ltb saturating_add
up_and_down = refl

abbrev printing : Printing Micros
printing = record {
  ln = λ x. x;
  floor_to_int = λ x. pos (x / 10 ^ 6);
  printed_nat = λ x. x / 10 ^ 6;
}

abbrev pool_at_one : V3PoolState
pool_at_one = record {
  pool = 9;
  token0 = 1;
  token1 = 2;
  sqrt_price_x96 = 2 ^ 96;
  liquidity = 1_000_000;
  current_tick = pos 0;
  fee_bps = 30;
  initialized_ticks = two_ticks;
}

abbrev moved : V3PoolState
moved = record pool_at_one { sqrt_price_x96 = 2 ^ 96 * 999_003 / 10 ^ 6; current_tick = pos 0 }

abbrev swapped : V3SwapResult
swapped = record {
  amount_in = 1_000;
  amount_out = 997;
  sqrt_price_x96_after = 2 ^ 96 * 999_003 / 10 ^ 6;
  tick_after = pos 0;
  price_impact_bps = 0;
}

swap_runs : simulate_exact_in Micros printing pool_at_one 1 2 1_000 ≡ some (moved, swapped)
unfolding simulate_exact_in finish_exact_in moved_pool move_price f64_to_u256 sqrt_price_to_tick
    v3_price_impact_bps apply_crossed_tick_liquidity cross_ticks crossed add_net int_ltb
    saturating_mul
swap_runs = refl
