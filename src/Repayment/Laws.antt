-- ===== src/Repayment/Laws.antt =====
-- The repayments are what the pools require, and no more than a unit above it.
use arbitrage_runtime.Amm.V2.{mul256}
use arbitrage_runtime.Amm.V2.Bounds.{div_bounds, reserve_limit}
use arbitrage_runtime.Base.{
  Bool-cases, Option, arith, false, inl, inr, leb, mul_mono, none, refl, saturating_add_fits,
  saturating_mul_fits, some, suc, sym, u256_max, zero, ℕ, ◌*◌, ◌+◌, ◌-◌, ◌/◌, ◌<◌, ◌==◌, ◌^◌, ◌||◌,
  ◌≡◌, ◌≤◌, ◌⊎◌,
}
use arbitrage_runtime.Repayment.{v2_repayment_amount_in_profit_token, v3_flash_repayment_wei}
use mathlib.Core.Path.{subst}

-- The quotient's bounds, with `rest` for what is left in the pool.
restores_of_bounds :
    (rest amount profit q : ℕ)
    → q * (rest * 997) ≤ profit * amount * 1_000
    → profit * amount * 1_000 < q * (rest * 997) + rest * 997
    → (1_000 * ((rest + amount) * profit) ≤ rest * (1_000 * profit + 997 * (q + 1)))
      × (rest * (997 * q) ≤ 1_000 * (profit * amount))
restores_of_bounds rest amount profit q low high = (omega arith, omega arith)

-- What holds of a repayment that is offered, and of the inputs where none is.
abbrev pub Restores : ℕ → ℕ → ℕ → Option ℕ → Type 0
Restores borrow profit amount none = (amount ≡ 0) ⊎ (profit ≡ 0) ⊎ (borrow ≤ amount)
Restores borrow profit amount (some rep) =
    (0 < amount)
    × (amount < borrow)
    × (0 < profit)
    × (1_000 * (borrow * profit) ≤ (borrow - amount) * (1_000 * profit + 997 * rep))
    × ((borrow - amount) * (997 * (rep - 1)) ≤ 1_000 * (profit * amount))

v2_repayment_offered :
    (borrow profit amount : ℕ)
    → borrow < reserve_limit
    → profit < reserve_limit
    → 0 < amount
    → amount < borrow
    → 0 < profit
    → (rep : ℕ) × (v2_repayment_amount_in_profit_token borrow profit amount ≡ some rep)
      × (1_000 * (borrow * profit) ≤ (borrow - amount) * (1_000 * profit + 997 * rep))
      × ((borrow - amount) * (997 * (rep - 1)) ≤ 1_000 * (profit * amount))
unfolding v2_repayment_amount_in_profit_token
v2_repayment_offered borrow profit amount lb lp ha hb hp =
    let rest = borrow - amount in
    let n = profit * amount * 1_000 in
    let d = rest * 997 in
    let small : profit * amount ≤ reserve_limit * reserve_limit =
      mul_mono profit amount reserve_limit reserve_limit (omega arith) (omega arith) in
    let guard : (amount == 0 || borrow == 0 || profit == 0 || leb borrow amount) ≡ false =
      ground arith in
    let num : mul256 (mul256 profit amount) 1_000 ≡ n =
      rw (saturating_mul_fits u256_max profit amount (omega arith))
        (saturating_mul_fits u256_max (profit * amount) 1_000 (omega arith)) in
    let den : mul256 rest 997 ≡ d = saturating_mul_fits u256_max rest 997 (omega arith) in
    let nonzero : (d == 0) ≡ false = ground arith in
    let (low, high) = div_bounds n d (omega arith) in
    let whole : n / d ≤ n =
      let k : n / d * 1 ≤ n / d * d = mul_mono (n / d) 1 (n / d) d (omega arith) (omega arith) in
      omega arith in
    let restored = restores_of_bounds rest amount profit (n / d) low high in
    let whole_reserve : borrow ≡ rest + amount = omega arith in
    let add_sub : n / d + 1 - 1 ≡ n / d = omega arith in
    (
      n / d + 1,
      rw (guard, num, den, nonzero, saturating_add_fits u256_max (n / d) 1 (omega arith)),
      subst (λ (x : ℕ). 1_000 * (x * profit) ≤ rest * (1_000 * profit + 997 * (n / d + 1)))
          (sym whole_reserve) restored.0,
      subst (λ (x : ℕ). rest * (997 * x) ≤ 1_000 * (profit * amount)) (sym add_sub) restored.1,
    )

v2_repayment_refused :
    (borrow profit amount : ℕ)
    → (amount ≡ 0) ⊎ (profit ≡ 0) ⊎ (borrow ≤ amount)
    → v2_repayment_amount_in_profit_token borrow profit amount ≡ none
unfolding v2_repayment_amount_in_profit_token
v2_repayment_refused borrow profit amount h = ground arith

-- With reserves below 2^112 a repayment is offered exactly when something is borrowed, less than the
-- whole reserve, from a pool that is not empty, and none is offered otherwise. An offered one restores the
-- pair's product under the 0.3% fee (`(B - b) * (1000 * P + 997 * rep) ≥ 1000 * B * P`), and one unit
-- less than it is at most what restoring the product takes.
pub v2_repayment-Restores :
    (borrow profit amount : ℕ)
    → borrow < reserve_limit
    → profit < reserve_limit
    → Restores borrow profit amount (v2_repayment_amount_in_profit_token borrow profit amount)
v2_repayment-Restores borrow profit amount lb lp =
    elim (Bool-cases (amount == 0 || profit == 0 || leb borrow amount)) [
      | inl guarded ↦
          let why : (amount ≡ 0) ⊎ (profit ≡ 0) ⊎ (borrow ≤ amount) = ground arith in
          rw (v2_repayment_refused borrow profit amount why) why
      | inr unguarded ↦
          let (ha, hb, hp) : (0 < amount) × (amount < borrow) × (0 < profit) =
            (ground arith, ground arith, ground arith) in
          let (rep, e, low, high) = v2_repayment_offered borrow profit amount lb lp ha hb hp in
          rw e (ha, hb, hp, low, high)
    ]

-- Below saturation the repayment of a V3 flash swap is the amount and its fee rounded up: the fee
-- covers `amount * fee_tier` millionths, by less than one unit.
pub v3_flash_repayment_rounds_up :
    (amount fee_tier : ℕ)
    → amount < 2 ^ 200
    → fee_tier < 2 ^ 32
    → (fee : ℕ) × (v3_flash_repayment_wei amount fee_tier ≡ amount + fee)
      × (amount * fee_tier ≤ fee * 1_000_000)
      × (fee * 1_000_000 < amount * fee_tier + 1_000_000)
unfolding v3_flash_repayment_wei
v3_flash_repayment_rounds_up zero fee_tier la lf = (0, refl, omega arith, omega arith)
v3_flash_repayment_rounds_up (suc m) fee_tier la lf =
    let amount = suc m in
    let small : amount * fee_tier ≤ 2 ^ 200 * 2 ^ 32 =
      mul_mono amount fee_tier (2 ^ 200) (2 ^ 32) (omega arith) (omega arith) in
    let fee = (amount * fee_tier + 999_999) / 1_000_000 in
    let product = saturating_mul_fits u256_max amount fee_tier (omega arith) in
    let sum = saturating_add_fits u256_max (amount * fee_tier) 999_999 (omega arith) in
    let total = saturating_add_fits u256_max amount fee (omega arith) in
    let nonzero : (amount == 0) ≡ false = ground arith in
    (fee, rw (nonzero, product, sum, total), omega arith, omega arith)
