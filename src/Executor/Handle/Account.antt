-- ===== src/Executor/Handle/Account.antt =====
-- The account of an opportunity's reservation: what each outcome leaves, and the gates that leave it
-- alone.
use Prim.Native.String.{String}
use arbitrage_runtime.Base.{
  All, Any, Any-append_right, Bool, List, [], arith, false, inl, inr, length, refl, some, true, ℕ,
  ◌∷◌, ◌≡◌, ◌≢◌, ◌≤◌, ◌⊎◌,
}
use arbitrage_runtime.Base.Float.{Float}
use arbitrage_runtime.Executor.Budget.{
  BudgetConfig, CapitalBudget, ClusterKey, check_and_reserve, prune,
}
use arbitrage_runtime.Executor.Budget.Kept.{Kept, prune-Kept}
use arbitrage_runtime.Executor.Handle.Admit.{signing}
use arbitrage_runtime.Executor.Handle.Gates.{balance_gate, first_gate, preflight_gate}
use arbitrage_runtime.Executor.Handle.Types.{
  EngineConfig, Opportunity, Outcome, Preflight, SendContext, SkipReason, all_submissions_failed,
  failed, no_submit_path, sign_error, skipped, submitted,
}

abbrev pub leaves_reservation : SkipReason → Bool
leaves_reservation no_submit_path = true
leaves_reservation _ = false

abbrev pub HasPaths : List String → Type 0
HasPaths paths = 1 ≤ length paths

module _ (f : Float) where
  abbrev pub SkipLedger : ℕ → Bool → CapitalBudget f → CapitalBudget f → Type 0
  SkipLedger victim_tx true before after = Any (λ r. r.victim_tx ≡ victim_tx) after
  SkipLedger victim_tx false before after = Kept after before

  -- The reservations after a call, by the call's outcome: after a submission, accepted or not, none is
  -- left for the opportunity; where the call stops between the reservation and the submission, the
  -- reservation is left; anywhere else none is added.
  abbrev pub Ledger : ℕ → Outcome → CapitalBudget f → CapitalBudget f → Type 0
  Ledger victim_tx (submitted path) before after = All (λ r. r.victim_tx ≢ victim_tx) after
  Ledger victim_tx (failed all_submissions_failed) before after =
      All (λ r. r.victim_tx ≢ victim_tx) after
  Ledger victim_tx (failed sign_error) before after = Any (λ r. r.victim_tx ≡ victim_tx) after
  Ledger victim_tx (skipped reason) before after =
      SkipLedger victim_tx (leaves_reservation reason) before after
  Ledger victim_tx (failed _) before after = Kept after before

  pub reserve_ledger :
      (now : ℕ) (config : BudgetConfig f) (capital : f.F) (cluster : ClusterKey)
      (pair victim_tx : ℕ)
      → (rs : CapitalBudget f)
      → let (decision, after) = check_and_reserve f now config capital cluster pair victim_tx rs in
        (decision.allowed ≡ true → Any (λ r. r.victim_tx ≡ victim_tx) after)
        × (decision.allowed ≡ false → Kept after rs)
  unfolding check_and_reserve
  reserve_ledger now config capital cluster pair victim_tx rs =
      let kept = prune f now config.capital_window_secs rs in
      (
        λ allowed. rw allowed (Any-append_right _ kept _ (inl refl)),
        λ refused. rw refused (prune-Kept f now config.capital_window_secs rs),
      )

  -- A plan that ends the call has kept the account of its outcome, and any other is as `P` says.
  abbrev pub Planned :
      {A : Type 0} → (A → Type 0) → ℕ → CapitalBudget f → CapitalBudget f → Outcome ⊎ A → Type 0
  Planned P victim_tx before after (inl outcome) = Ledger victim_tx outcome before after
  Planned P victim_tx before after (inr plan) = P plan

  pub signing_ledger :
      (victim_tx : ℕ) (before after : CapitalBudget f) (signs : Bool) (paths : List String)
      → Any (λ r. r.victim_tx ≡ victim_tx) after
      → Planned HasPaths victim_tx before after (signing f signs paths)
  signing_ledger victim_tx before after signs [] h = h
  signing_ledger victim_tx before after true (path ∷ paths) h = omega arith
  signing_ledger victim_tx before after false (path ∷ paths) h = h

  pub quiet-Ledger :
      (victim_tx : ℕ) (before after : CapitalBudget f) (reason : SkipReason)
      → leaves_reservation reason ≡ false
      → Kept after before
      → Ledger victim_tx (skipped reason) before after
  quiet-Ledger victim_tx before after reason e k = rw e k

  pub first_gate_quiet :
      (config : EngineConfig f) (opportunity : Opportunity f) (reason : SkipReason)
      → first_gate f config opportunity ≡ some reason
      → leaves_reservation reason ≡ false
  unfolding first_gate
  first_gate_quiet config opportunity reason h = ground arith

  pub balance_gate_quiet :
      (config : EngineConfig f) (context : SendContext f) (reason : SkipReason)
      → balance_gate f config context ≡ some reason
      → leaves_reservation reason ≡ false
  unfolding balance_gate
  balance_gate_quiet config context reason h = ground arith

  pub preflight_gate_quiet :
      (config : EngineConfig f) (answer : Preflight) (reason : SkipReason)
      → preflight_gate f config answer ≡ some reason
      → leaves_reservation reason ≡ false
  unfolding preflight_gate
  preflight_gate_quiet config answer reason h = ground arith
