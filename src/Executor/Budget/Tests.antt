-- ===== src/Executor/Budget/Tests.antt =====
-- The budget on numbers, in millionths.
use arbitrage_runtime.Base.{List, [], refl, ◌∷◌, ◌≡◌}
use arbitrage_runtime.Base.Float.{Micros, Micros-AddLaws}
use arbitrage_runtime.Executor.Budget.{
  BudgetConfig, BudgetReservation, ClusterKey, check_and_reserve, cluster_eq, prune,
  reject_reason_of, release, window_sum,
}
use arbitrage_runtime.Executor.Budget.Exposure.{IsWithin}
use arbitrage_runtime.Executor.Budget.Runs.{
  BudgetCall, release_call, reserve_call, run, run-IsWithin,
}

abbrev limits : BudgetConfig Micros
limits = record {
  capital_window_secs = 60;
  max_window_exposure_eth = 3_000_000;
  max_cluster_window_exposure_eth = 2_000_000;
  max_pair_window_exposure_eth = 2_000_000;
}

abbrev cluster : ClusterKey
cluster = record { router = 1; token_in = 10; token_out = 20; selector = 99 }

abbrev calls : List (BudgetCall Micros)
calls =
    reserve_call 0 1_500_000 cluster 5 100
    ∷ reserve_call 1 1_500_000 cluster 5 101
    ∷ release_call 100
    ∷ reserve_call 2 1_500_000 cluster 5 102
    ∷ []

abbrev left : BudgetReservation Micros
left = record {
  reserved_at = 2;
  cluster = cluster;
  pair = 5;
  victim_tx = 102;
  capital_eth = 1_500_000;
}

-- The second request is above the limit of the cluster, the third is not, after the release.
calls-run : run Micros limits calls [] ≡ left ∷ []
unfolding run check_and_reserve prune window_sum reject_reason_of release cluster_eq
calls-run = refl

empty-IsWithin : IsWithin Micros Micros-AddLaws limits []
unfolding window_sum
empty-IsWithin = record { capitals = tt; total = refl; clusters = λ c. refl; pairs = λ p. refl }

run-IsWithin_example : IsWithin Micros Micros-AddLaws limits (run Micros limits calls [])
run-IsWithin_example =
    run-IsWithin Micros Micros-AddLaws limits calls [] (refl, (refl, (tt, (refl, tt))))
      empty-IsWithin
