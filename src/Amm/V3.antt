-- ===== src/Amm/V3.antt =====
-- src/mev/amm/uniswap_v3.rs: the pool with concentrated liquidity, its swap in floating point and the
-- liquidity of the ticks that the swap crosses. Tick indices and nets of liquidity have a sign.
use arbitrage_runtime.Base.{
  Bool, List, Option, [], false, if◌then◌else◌, leb, none, not, saturating_add, saturating_mul,
  saturating_sub, some, true, u256_max, ℕ, ◌&&◌, ◌+◌, ◌/◌, ◌==◌, ◌>>=◌, ◌^◌, ◌||◌, ◌∷◌,
}
use arbitrage_runtime.Base.Float.{Float}
use arbitrage_runtime.Base.Int.{int_leb, int_ltb, negsuc, pos, ℤ}
pub mod Ticks
mod Tests

pub record V3Tick : Type 0 where
  pub index : ℤ
  pub liquidity_net : ℤ

pub record V3PoolState : Type 0 where
  pub pool : ℕ
  pub token0 : ℕ
  pub token1 : ℕ
  pub sqrt_price_x96 : ℕ
  pub liquidity : ℕ
  pub current_tick : ℤ
  pub fee_bps : ℕ
  pub initialized_ticks : List V3Tick

pub record V3SwapResult : Type 0 where
  pub amount_in : ℕ
  pub amount_out : ℕ
  pub sqrt_price_x96_after : ℕ
  pub tick_after : ℤ
  pub price_impact_bps : ℕ

unfoldable pub crossed : ℤ → ℤ → V3Tick → Bool
crossed before after tick =
    if int_ltb before after
    then int_ltb before tick.index && int_leb tick.index after
    else int_leb tick.index before && int_ltb after tick.index

-- The negation of the least 256-bit number, which overflows in the code, is not modelled.
unfoldable pub add_net : ℕ → ℤ → ℕ
add_net liquidity (pos n) = saturating_add u256_max liquidity n
add_net liquidity (negsuc n) = saturating_sub liquidity (n + 1)

unfoldable pub cross_ticks : ℕ → ℤ → ℤ → List V3Tick → ℕ
cross_ticks liquidity before after [] = liquidity
cross_ticks liquidity before after (tick ∷ ticks) =
    cross_ticks
      (if crossed before after tick then add_net liquidity tick.liquidity_net else liquidity) before
      after ticks

unfoldable pub apply_crossed_tick_liquidity : ℕ → ℤ → ℤ → List V3Tick → ℕ
apply_crossed_tick_liquidity liquidity before after ticks =
    if not (int_ltb before after) && not (int_ltb after before)
    then liquidity
    else cross_ticks liquidity before after ticks

-- What the code takes from the standard library beside the operations of `Float`: the logarithm, `floor`
-- with the cast to `i32`, and the digits that `{:.0}` prints, read as a number.
pub record Printing (f : Float) : Type 0 where
  pub ln : f.F → f.F
  pub floor_to_int : f.F → ℤ
  pub printed_nat : f.F → ℕ

module _ (f : Float) (p : Printing f) where
  open f use {
    F, lit, of_nat, add, sub, mul, div, abs, lt, le, max_f64, min_f64, is_finite, trunc_to_nat,
  }

  abbrev q96 : F
  q96 = of_nat (2 ^ 96)

  unfoldable pub sqrt_price_to_tick : F → ℤ
  sqrt_price_to_tick sqrt_price =
      p.floor_to_int (div (p.ln (mul sqrt_price sqrt_price)) (p.ln (lit 10_001 4)))

  unfoldable pub v3_price_impact_bps : F → F → ℕ
  v3_price_impact_bps sqrt_before sqrt_after =
      let price_before = mul sqrt_before sqrt_before in
      let price_after = mul sqrt_after sqrt_after in
      if le price_before (lit 0 0)
      then 10_000
      else trunc_to_nat (
          max_f64
            (min_f64 (mul (div (abs (sub price_after price_before)) price_before) (lit 10_000 0))
              (lit 10_000 0))
            (lit 0 0))

  -- The parse of the printed digits fails beyond 256 bits.
  unfoldable pub f64_to_u256 : F → Option ℕ
  f64_to_u256 value =
      if not (is_finite value) || lt value (lit 0 0)
      then none
      else if leb (p.printed_nat value) u256_max
      then some (p.printed_nat value)
      else none

  -- The square root of the price after the swap, and the amount out.
  unfoldable pub move_price : Bool → F → F → F → F × F
  move_price true liquidity sqrt_before amount =
      let sqrt_after = div (mul liquidity sqrt_before) (add liquidity (mul amount sqrt_before)) in
      (sqrt_after, mul liquidity (sub sqrt_before sqrt_after))
  move_price false liquidity sqrt_before amount =
      let sqrt_after = add sqrt_before (div amount liquidity) in
      (sqrt_after, mul liquidity (sub (div (lit 1 0) sqrt_before) (div (lit 1 0) sqrt_after)))

  unfoldable pub moved_pool : V3PoolState → ℕ → F → F → ℕ → ℕ → V3PoolState × V3SwapResult
  moved_pool state amount_in sqrt_before sqrt_after sqrt_price_x96_after amount_out =
      let tick_after = sqrt_price_to_tick sqrt_after in
      (
        record state {
          sqrt_price_x96 = sqrt_price_x96_after;
          current_tick = tick_after;
          liquidity =
              apply_crossed_tick_liquidity state.liquidity state.current_tick tick_after
                state.initialized_ticks;
        },
        record {
          amount_in = amount_in;
          amount_out = amount_out;
          sqrt_price_x96_after = sqrt_price_x96_after;
          tick_after = tick_after;
          price_impact_bps = v3_price_impact_bps sqrt_before sqrt_after;
        },
      )

  unfoldable pub finish_exact_in : V3PoolState → ℕ → F → F × F → Option (V3PoolState × V3SwapResult)
  finish_exact_in state amount_in sqrt_before (sqrt_after, out) =
      if not (is_finite sqrt_after) || not (is_finite out) || le out (lit 0 0) then none else (do
        sqrt_price_x96_after ← f64_to_u256 (mul sqrt_after q96)
        amount_out ← f64_to_u256 out
        some (moved_pool state amount_in sqrt_before sqrt_after sqrt_price_x96_after amount_out))

  unfoldable pub simulate_exact_in : V3PoolState → ℕ → ℕ → ℕ → Option (V3PoolState × V3SwapResult)
  simulate_exact_in state token_in token_out amount_in =
      let zero_for_one = token_in == state.token0 && token_out == state.token1 in
      let one_for_zero = token_in == state.token1 && token_out == state.token0 in
      let amount_less_fee =
        saturating_mul u256_max amount_in (saturating_sub 10_000 state.fee_bps) / 10_000 in
      let sqrt_before = div (of_nat state.sqrt_price_x96) q96 in
      let liquidity = of_nat state.liquidity in
      if amount_in == 0 || state.liquidity == 0
      then none
      else if not zero_for_one && not one_for_zero
      then none
      else if le sqrt_before (lit 0 0) || le liquidity (lit 0 0)
      then none
      else finish_exact_in state amount_in sqrt_before
          (move_price zero_for_one liquidity sqrt_before (of_nat amount_less_fee))
