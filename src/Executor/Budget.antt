-- ===== src/Executor/Budget.antt =====
-- `CapitalBudget` of src/mev/execution/executor.rs: the capital that open executions have reserved in
-- a window of time, with a limit on the total and one for each cluster and each pair.
use arbitrage_runtime.Base.{
  Bool, List, [], false, if◌then◌else◌, ltb, not, retain, true, ℕ, ◌&&◌, ◌++◌, ◌==◌, ◌∷◌,
}
use arbitrage_runtime.Base.Float.{Float}
use arbitrage_runtime.Base.Time.{as_secs, since}
pub mod Exposure
pub mod Kept
pub mod Runs
pub mod Tests

-- `ClusterKey` of src/mev/adaptive.rs.
pub record ClusterKey : Type 0 where
  pub router : ℕ
  pub token_in : ℕ
  pub token_out : ℕ
  pub selector : ℕ

unfoldable pub cluster_eq : ClusterKey → ClusterKey → Bool
cluster_eq a b =
    a.router == b.router
    && a.token_in == b.token_in
    && a.token_out == b.token_out
    && a.selector == b.selector

pub data RejectReason : Type 0 where
  window_exposure_limit cluster_window_limit pair_window_limit allowed_reason : RejectReason

module _ (f : Float) where
  open f use {F, lit, add, lt}

  pub record BudgetReservation : Type 0 where
    pub reserved_at : ℕ
    pub cluster : ClusterKey
    pub pair : ℕ
    pub victim_tx : ℕ
    pub capital_eth : F

  -- The part of `MevConfig` that the budget reads.
  pub record BudgetConfig : Type 0 where
    pub capital_window_secs : ℕ
    pub max_window_exposure_eth : F
    pub max_cluster_window_exposure_eth : F
    pub max_pair_window_exposure_eth : F

  pub record BudgetDecision : Type 0 where
    pub allowed : Bool
    pub reject_reason : RejectReason
    pub capital : F
    pub total_window_eth : F
    pub cluster_window_eth : F
    pub pair_window_eth : F

  abbrev pub CapitalBudget : Type 0
  CapitalBudget = List BudgetReservation

  -- The loop over the reservations, for one of its three sums: the reservations that `counts` accepts.
  unfoldable pub window_sum : (BudgetReservation → Bool) → F → CapitalBudget → F
  window_sum counts acc [] = acc
  window_sum counts acc (r ∷ rs) =
      window_sum counts (if counts r then add acc r.capital_eth else acc) rs

  abbrev pub every : BudgetReservation → Bool
  every r = true

  abbrev pub in_cluster : ClusterKey → BudgetReservation → Bool
  in_cluster c r = cluster_eq r.cluster c

  abbrev pub in_pair : ℕ → BudgetReservation → Bool
  in_pair p r = r.pair == p

  unfoldable pub prune : ℕ → ℕ → CapitalBudget → CapitalBudget
  prune now window_secs [] = []
  prune now window_secs (r ∷ rs) =
      if ltb window_secs (as_secs (since now r.reserved_at))
      then prune now window_secs rs
      else r ∷ rs

  unfoldable pub release : ℕ → CapitalBudget → CapitalBudget
  release victim_tx = retain (λ r. not (r.victim_tx == victim_tx))

  unfoldable pub reject_reason_of : BudgetConfig → F → F → F → RejectReason
  reject_reason_of config total_after cluster_after pair_after =
      if lt config.max_window_exposure_eth total_after
      then window_exposure_limit
      else if lt config.max_cluster_window_exposure_eth cluster_after
      then cluster_window_limit
      else if lt config.max_pair_window_exposure_eth pair_after
      then pair_window_limit
      else allowed_reason

  abbrev pub is_allowed : RejectReason → Bool
  is_allowed allowed_reason = true
  is_allowed _ = false

  unfoldable pub check_and_reserve :
      ℕ → BudgetConfig → F → ClusterKey → ℕ → ℕ → CapitalBudget → BudgetDecision × CapitalBudget
  check_and_reserve now config capital_eth cluster pair victim_tx reservations =
      let kept = prune now config.capital_window_secs reservations in
      let total_after = add (window_sum every (lit 0 0) kept) capital_eth in
      let cluster_after = add (window_sum (in_cluster cluster) (lit 0 0) kept) capital_eth in
      let pair_after = add (window_sum (in_pair pair) (lit 0 0) kept) capital_eth in
      let reason = reject_reason_of config total_after cluster_after pair_after in
      (
        record {
          allowed = is_allowed reason;
          reject_reason = reason;
          capital = capital_eth;
          total_window_eth = total_after;
          cluster_window_eth = cluster_after;
          pair_window_eth = pair_after;
        },
        if is_allowed reason
            then kept
              ++ (record {
                reserved_at = now;
                cluster = cluster;
                pair = pair;
                victim_tx = victim_tx;
                capital_eth = capital_eth;
              }
                  ∷ [])
            else kept,
      )
