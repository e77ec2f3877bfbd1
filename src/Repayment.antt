-- ===== src/Repayment.antt =====
-- What a flash swap must pay back: `v2_repayment_amount_in_profit_token` and `v3_flash_repayment_wei`
-- of src/mev/execution/payload_builder.rs.
use arbitrage_runtime.Amm.V2.{add256, mul256}
use arbitrage_runtime.Base.{
  Option, if◌then◌else◌, leb, none, saturating_sub, some, ℕ, ◌-◌, ◌/◌, ◌==◌, ◌||◌,
}
pub mod Laws
pub mod Tests

unfoldable pub v2_repayment_amount_in_profit_token : ℕ → ℕ → ℕ → Option ℕ
v2_repayment_amount_in_profit_token borrow_reserve profit_reserve borrowed_amount =
    if borrowed_amount == 0
      || borrow_reserve == 0
      || profit_reserve == 0
      || leb borrow_reserve borrowed_amount
    then none
    else (let numerator = mul256 (mul256 profit_reserve borrowed_amount) 1_000 in
        let denominator = mul256 (saturating_sub borrow_reserve borrowed_amount) 997 in
        if denominator == 0 then none else some (add256 (numerator / denominator) 1))

-- `fee_denominator - U256::one()` does not underflow.
unfoldable pub v3_flash_repayment_wei : ℕ → ℕ → ℕ
v3_flash_repayment_wei amount fee_tier =
    if amount == 0
    then 0
    else (let fee = add256 (mul256 amount fee_tier) (1_000_000 - 1) / 1_000_000 in
        add256 amount fee)
