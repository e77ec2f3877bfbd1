-- ===== src/Executor/Budget/Runs.antt =====
-- The budget over a whole run: requests and releases in any order.
use arbitrage_runtime.Base.{
  All, Any, Any-retain, List, [], arith, not, retain, retain-holds, true, ℕ, ◌==◌, ◌∷◌, ◌≡◌, ◌≢◌,
}
use arbitrage_runtime.Base.Float.{AddLaws, Float}
use arbitrage_runtime.Executor.Budget.{
  BudgetConfig, BudgetReservation, CapitalBudget, ClusterKey, check_and_reserve, release,
}
use arbitrage_runtime.Executor.Budget.Exposure.{
  IsWithin, check_and_reserve-IsWithin, release-IsWithin,
}

pub data BudgetCall (f : Float) : Type 0 where
  reserve_call : ℕ → f.F → ClusterKey → ℕ → ℕ → BudgetCall f
  release_call : ℕ → BudgetCall f

module _ (f : Float) where
  unfoldable pub run : BudgetConfig f → List (BudgetCall f) → CapitalBudget f → CapitalBudget f
  run config [] rs = rs
  run config (reserve_call now capital cluster pair victim_tx ∷ calls) rs =
      run config calls (check_and_reserve f now config capital cluster pair victim_tx rs).1
  run config (release_call victim_tx ∷ calls) rs = run config calls (release f victim_tx rs)

  abbrev pub IsSound : BudgetCall f → Type 0
  IsSound (reserve_call now capital cluster pair victim_tx) = f.le (f.lit 0 0) capital ≡ true
  IsSound (release_call victim_tx) = Unit

  module _ (laws : AddLaws f) where
    -- Where additions of numbers that are not negative are monotone: in any run of requests of capital that is not
    -- negative and of releases, the exposure of the whole window, of each cluster and of each pair
    -- stays within its limit, when it is at the start.
    pub run-IsWithin :
        (config : BudgetConfig f) (calls : List (BudgetCall f)) (rs : CapitalBudget f)
        → All IsSound calls
        → IsWithin f laws config rs
        → IsWithin f laws config (run config calls rs)
    unfolding run
    run-IsWithin config [] rs s w = w
    run-IsWithin config (reserve_call now capital cluster pair victim_tx ∷ calls) rs (s, ss) w =
        run-IsWithin config calls _ ss
          (check_and_reserve-IsWithin f laws now config capital cluster pair victim_tx rs s w)
    run-IsWithin config (release_call victim_tx ∷ calls) rs (s, ss) w =
        run-IsWithin config calls _ ss (release-IsWithin f laws config victim_tx rs w)

  other_kept :
      (victim_tx : ℕ) (r : BudgetReservation f)
      → r.victim_tx ≢ victim_tx
      → (y : BudgetReservation f) → y ≡ r
      → not (y.victim_tx == victim_tx) ≡ true
  other_kept victim_tx r other y e = rw e (ground arith)

  All-other :
      (victim_tx : ℕ) (rs : CapitalBudget f)
      → All (λ r. not (r.victim_tx == victim_tx) ≡ true) rs
      → All (λ r. r.victim_tx ≢ victim_tx) rs
  All-other victim_tx [] h = tt
  All-other victim_tx (r ∷ rs) (h, hs) = (ground arith, All-other victim_tx rs hs)

  -- A release leaves no reservation of the transaction, and takes none of another transaction.
  pub release_removes :
      (victim_tx : ℕ) (rs : CapitalBudget f)
      → All (λ r. r.victim_tx ≢ victim_tx) (release f victim_tx rs)
        × ((r : BudgetReservation f)
            → r.victim_tx ≢ victim_tx
            → Any (λ x. x ≡ r) rs
            → Any (λ x. x ≡ r) (release f victim_tx rs))
  unfolding release
  release_removes victim_tx rs =
      let other = λ (r : BudgetReservation f). not (r.victim_tx == victim_tx) in
      (
        All-other victim_tx (retain other rs) (retain-holds other rs),
        λ r ne m. Any-retain other (λ x. x ≡ r) rs (other_kept victim_tx r ne) m,
      )
