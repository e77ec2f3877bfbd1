-- ===== src/Executor/Fees.antt =====
-- The fees of the executor's transaction: `dynamic_gas_price` and the fee fields that
-- `sign_executor_transaction` of src/mev/execution/executor.rs sets.
use Prim.Native.String.{String}
use arbitrage_runtime.Base.{
  Option, if◌then◌else◌, max, min, none, saturating_add, saturating_mul, saturating_sub, some,
  u256_max, u64_max, ℕ, ◌%◌, ◌+◌, ◌/◌, ◌^◌,
}
use arbitrage_runtime.Base.Float.{Float}
pub mod Bounds

-- `RelayQuote` of src/mev/adaptive.rs, with the fields that the executor decides on.
pub record RelayQuote (f : Float) : Type 0 where
  pub relay : String
  pub accept_rate : f.F
  pub accepted_not_included_rate : f.F
  pub revert_rate : f.F

-- The part of `MevConfig` that the gas price reads.
pub record FeeConfig (f : Float) : Type 0 where
  pub gas_overpay_base_extra_bps : ℕ
  pub gas_overpay_miss_extra_bps : ℕ
  pub gas_overpay_revert_extra_bps : ℕ
  pub gas_overpay_submit_failure_extra_bps : ℕ
  pub gas_overpay_max_extra_bps : ℕ
  pub capital_multiplier_toxicity_threshold : f.F
  pub capital_multiplier_priority_threshold : f.F
  pub max_gas_price_gwei : Option ℕ

abbrev add64 : ℕ → ℕ → ℕ
add64 = saturating_add u64_max

abbrev gwei_to_wei : Option ℕ → Option ℕ
gwei_to_wei none = none
gwei_to_wei (some value) = some (saturating_mul u256_max value (10 ^ 9))

unfoldable pub overpaid : ℕ → ℕ → ℕ
overpaid base_gas_price extra_bps =
    saturating_mul u256_max base_gas_price ((10_000 + extra_bps) % 2 ^ 64) / 10_000

unfoldable pub capped : Option ℕ → ℕ → ℕ
capped none adjusted = adjusted
capped (some limit) adjusted = min adjusted limit

module _ (f : Float) where
  open f use {F, lit, le}

  unfoldable pub max_gas_price_wei : FeeConfig f → Option ℕ
  max_gas_price_wei config = gwei_to_wei config.max_gas_price_gwei

  -- The surcharge for the record of the best submit path.
  unfoldable pub path_extra_bps : FeeConfig f → Option (RelayQuote f) → ℕ → ℕ
  path_extra_bps config none extra = extra
  path_extra_bps config (some relay) extra =
      let missed =
        if le (lit 10 2) relay.accepted_not_included_rate
        then add64 extra config.gas_overpay_miss_extra_bps
        else extra in
      let reverted =
        if le (lit 5 2) relay.revert_rate
        then add64 missed config.gas_overpay_revert_extra_bps
        else missed in
      if le relay.accept_rate (lit 60 2)
      then add64 reverted config.gas_overpay_submit_failure_extra_bps
      else reverted

  unfoldable pub context_extra_bps : FeeConfig f → F → F → ℕ → ℕ
  context_extra_bps config toxicity priority extra =
      if le config.capital_multiplier_toxicity_threshold toxicity
      then add64 extra (config.gas_overpay_miss_extra_bps / 2)
      else if le config.capital_multiplier_priority_threshold priority
      then add64 extra (config.gas_overpay_base_extra_bps / 2)
      else extra

  unfoldable pub dynamic_gas_price : FeeConfig f → ℕ → Option (RelayQuote f) → F → F → ℕ
  dynamic_gas_price config base_gas_price best_relay toxicity priority =
      let path = path_extra_bps config best_relay config.gas_overpay_base_extra_bps in
      let extra_bps =
        min (context_extra_bps config toxicity priority path) config.gas_overpay_max_extra_bps in
      capped (max_gas_price_wei config) (overpaid base_gas_price extra_bps)

-- The fee fields of the transaction: a legacy one, or one of EIP-1559.
pub data TxFees : Type 0 where
  legacy : ℕ → TxFees
  eip1559 : ℕ → ℕ → TxFees

-- `eip1559 max_fee priority_fee`.
unfoldable pub executor_fees : ℕ → Option ℕ → TxFees
executor_fees gas_price none = legacy gas_price
executor_fees gas_price (some base_fee) =
    let min_priority = gas_price / 4 in
    let priority_fee = max (saturating_sub gas_price base_fee) min_priority in
    let max_fee = max (saturating_add u256_max base_fee priority_fee) gas_price in
    eip1559 max_fee priority_fee
