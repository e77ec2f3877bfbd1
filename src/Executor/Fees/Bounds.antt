-- ===== src/Executor/Fees/Bounds.antt =====
-- What the fees of the executor's transaction are worth.
use arbitrage_runtime.Base.{
  Option, arith, max, min, mul_mono, none, refl, saturating_add, saturating_mul_fits,
  saturating_sub, some, u256_max, u64_max, ℕ, ◌%◌, ◌*◌, ◌+◌, ◌/◌, ◌^◌, ◌≡◌, ◌≤◌,
}
use arbitrage_runtime.Base.Float.{Float}
use arbitrage_runtime.Executor.Fees.{
  FeeConfig, RelayQuote, capped, context_extra_bps, dynamic_gas_price, eip1559, executor_fees,
  max_gas_price_wei, overpaid, path_extra_bps,
}

overpaid_bounds :
    (base extra most : ℕ)
    → extra ≤ most
    → 10_000 + most ≤ u64_max
    → base * (10_000 + most) ≤ u256_max
    → (base ≤ overpaid base extra) × (overpaid base extra ≤ base * (10_000 + most) / 10_000)
unfolding overpaid
overpaid_bounds base extra most le small fits =
    let whole : (10_000 + extra) % 2 ^ 64 ≡ 10_000 + extra = omega arith in
    let least : base * 10_000 ≤ base * (10_000 + extra) =
      mul_mono base 10_000 base (10_000 + extra) (omega arith) (omega arith) in
    let largest : base * (10_000 + extra) ≤ base * (10_000 + most) =
      mul_mono base (10_000 + extra) base (10_000 + most) (omega arith) (omega arith) in
    let product = saturating_mul_fits u256_max base (10_000 + extra) (omega arith) in
    rw (whole, product) (omega arith, omega arith)

capped_mono :
    (limit : Option ℕ) (a b c : ℕ)
    → a ≤ b
    → b ≤ c
    → (capped limit a ≤ capped limit b) × (capped limit b ≤ capped limit c)
unfolding capped
capped_mono none a b c h k = (h, k)
capped_mono (some limit) a b c h k = (omega arith, omega arith)

module _ (f : Float) where
  -- The gas price lies between the base price and the base price with the largest surcharge, each under
  -- the cap on the gas price where there is one, when the product fits in 256 bits and the surcharge in
  -- 64.
  pub dynamic_gas_price_bounds :
      (config : FeeConfig f) (base : ℕ) (relay : Option (RelayQuote f)) (toxicity priority : f.F)
      → 10_000 + config.gas_overpay_max_extra_bps ≤ u64_max
      → base * (10_000 + config.gas_overpay_max_extra_bps) ≤ u256_max
      → let price = dynamic_gas_price f config base relay toxicity priority in
        let limit = max_gas_price_wei f config in
        (capped limit base ≤ price)
        × (price ≤ capped limit (base * (10_000 + config.gas_overpay_max_extra_bps) / 10_000))
  unfolding dynamic_gas_price
  dynamic_gas_price_bounds config base relay toxicity priority small fits =
      let most = config.gas_overpay_max_extra_bps in
      let extra =
        min
          (context_extra_bps f config toxicity priority
            (path_extra_bps f config relay config.gas_overpay_base_extra_bps))
          most in
      let (low, high) = overpaid_bounds base extra most (omega arith) small fits in
      capped_mono (max_gas_price_wei f config) _ _ _ low high

-- Where the base fee and the gas price together fit in 256 bits, the fees of a transaction with a
-- base fee are fees that a node accepts: the tip is at most the fee cap. The tip is at least a
-- quarter of the gas price, the fee cap is at least the gas price and pays the base fee with the
-- tip, and it is at most the base fee and the gas price together.
pub executor_fees-valid :
    (gas_price base_fee : ℕ)
    → base_fee + gas_price ≤ u256_max
    → (max_fee : ℕ) × (priority_fee : ℕ) × (executor_fees gas_price (some base_fee)
        ≡ eip1559 max_fee priority_fee)
      × (priority_fee ≤ max_fee)
      × (gas_price / 4 ≤ priority_fee)
      × (gas_price ≤ max_fee)
      × (base_fee + priority_fee ≤ max_fee)
      × (max_fee ≤ base_fee + gas_price)
unfolding executor_fees saturating_add
executor_fees-valid gas_price base_fee h =
    let priority_fee = max (saturating_sub gas_price base_fee) (gas_price / 4) in
    (
      max (saturating_add u256_max base_fee priority_fee) gas_price,
      priority_fee,
      refl,
      ground arith,
      ground arith,
      ground arith,
      ground arith,
      ground arith,
    )
