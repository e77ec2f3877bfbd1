-- ===== src/Amm/V3/Ticks.antt =====
-- The liquidity of crossed ticks.
use arbitrage_runtime.Amm.V3.{V3Tick, apply_crossed_tick_liquidity, cross_ticks, crossed}
use arbitrage_runtime.Base.{List, [], arith, false, refl, true, ℕ, ◌∷◌, ◌≡◌}
use arbitrage_runtime.Base.Int.{int_ltb, negsuc, pos, ℤ}

int_ltb-asym : (a b : ℤ) → int_ltb a b ≡ true → int_ltb b a ≡ false
unfolding int_ltb
int_ltb-asym (pos a) (pos b) h = ground arith
int_ltb-asym (pos a) (negsuc b) h = ground arith
int_ltb-asym (negsuc a) (pos b) h = refl
int_ltb-asym (negsuc a) (negsuc b) h = ground arith

-- The same ticks are crossed on the way down as on the way up.
crossed-swap :
    (low high : ℤ) (tick : V3Tick)
    → int_ltb low high ≡ true
    → crossed low high tick ≡ crossed high low tick
unfolding crossed
crossed-swap low high tick h = let back = int_ltb-asym low high h in ground arith

cross_ticks-swap :
    (low high : ℤ) (ticks : List V3Tick) (liquidity : ℕ)
    → int_ltb low high ≡ true
    → cross_ticks liquidity low high ticks ≡ cross_ticks liquidity high low ticks
unfolding cross_ticks
cross_ticks-swap low high [] liquidity h = refl
cross_ticks-swap low high (tick ∷ ticks) liquidity h =
    rw (crossed-swap low high tick h) (cross_ticks-swap low high ticks _ h)

-- The liquidity after a move between two ticks does not depend on the direction of the move: a swap down
-- adds the nets of the ticks that it crosses exactly as the swap up between the same two ticks does.
pub apply_crossed_tick_liquidity-direction :
    (liquidity : ℕ) (low high : ℤ) (ticks : List V3Tick)
    → int_ltb low high ≡ true
    → apply_crossed_tick_liquidity liquidity high low ticks
      ≡ apply_crossed_tick_liquidity liquidity low high ticks
unfolding apply_crossed_tick_liquidity
apply_crossed_tick_liquidity-direction liquidity low high ticks h =
    let back = int_ltb-asym low high h in
    let same = cross_ticks-swap low high ticks liquidity h in ground arith
