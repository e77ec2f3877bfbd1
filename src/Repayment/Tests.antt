-- ===== src/Repayment/Tests.antt =====
-- Repayments on numbers.
use arbitrage_runtime.Base.{arith, none, refl, saturating_add, saturating_mul, some, ◌≡◌}
use arbitrage_runtime.Repayment.{v2_repayment_amount_in_profit_token}
use arbitrage_runtime.Repayment.Laws.{Restores, v2_repayment-Restores}

v2_repayment_runs : v2_repayment_amount_in_profit_token 1_000 2_000 100 ≡ some 223
unfolding v2_repayment_amount_in_profit_token saturating_mul saturating_add
v2_repayment_runs = refl

v2_repayment-Restores_example :
    Restores 1_000 2_000 100 (v2_repayment_amount_in_profit_token 1_000 2_000 100)
v2_repayment-Restores_example = v2_repayment-Restores 1_000 2_000 100 (omega arith) (omega arith)

nothing_borrowed : v2_repayment_amount_in_profit_token 1_000 2_000 0 ≡ none
unfolding v2_repayment_amount_in_profit_token
nothing_borrowed = refl
