-- ===== src/Executor/Observe/Ledger.antt =====
-- What the ledger of results counts.
use arbitrage_runtime.Base.{
  Bool-cases, List, [], arith, if◌then◌else◌, inl, inr, length, saturating_add_fits, suc, u64_max,
  ℕ, ◌+◌, ◌<◌, ◌∷◌, ◌≡◌, ◌≤◌,
}
use arbitrage_runtime.Base.Float.{Float}
use arbitrage_runtime.Executor.Guard.{ExecutionResult}
use arbitrage_runtime.Executor.Observe.{PnlTracker, record_pnl}

module _ (f : Float) where
  abbrev pub count_failures : List (ExecutionResult f) → ℕ
  count_failures [] = 0
  count_failures (r ∷ rs) = if r.success then count_failures rs else suc (count_failures rs)

  pub record_all : List (ExecutionResult f) → PnlTracker f → PnlTracker f
  record_all [] pnl = pnl
  record_all (r ∷ rs) pnl = record_all rs (record_pnl f r pnl)

  record_pnl-counts :
      (r : ExecutionResult f) (pnl : PnlTracker f)
      → pnl.executions < u64_max
      → pnl.failures ≤ pnl.executions
      → ((record_pnl f r pnl).executions ≡ pnl.executions + 1)
        × ((record_pnl f r pnl).failures ≡ pnl.failures + (if r.success then 0 else 1))
  unfolding record_pnl
  record_pnl-counts r pnl h k =
      let fits = saturating_add_fits u64_max pnl.executions 1 (omega arith) in
      let fits' = saturating_add_fits u64_max pnl.failures 1 (omega arith) in
      elim (Bool-cases r.success) [ inl e ↦ rw e (fits, omega arith) | inr e ↦ rw e (fits, fits') ]

  -- After any run of results that fills no counter, from a ledger with no more failures than
  -- executions, the ledger has counted each execution once and each failed one once.
  pub record_all-counts :
      (rs : List (ExecutionResult f)) (pnl : PnlTracker f)
      → pnl.executions + length rs ≤ u64_max
      → pnl.failures ≤ pnl.executions
      → let after = record_all rs pnl in
        (after.executions ≡ pnl.executions + length rs)
        × (after.failures ≡ pnl.failures + count_failures rs)
        × (after.failures ≤ after.executions)
  unfolding record_all
  record_all-counts [] pnl h k = (omega arith, omega arith, omega arith)
  record_all-counts (r ∷ rs) pnl h k =
      let (one, fail) = record_pnl-counts r pnl (omega arith) k in
      let (all, fails, le) =
        record_all-counts rs (record_pnl f r pnl) (omega arith) (ground arith) in
      (omega arith, ground arith, le)
