-- ===== src/Lookup/Tests.antt =====
-- Tests of the lookup component, and the theorems at concrete inputs.
use arbitrage_runtime.Base.{
  List, [], arith, contains, false, none, not, refl, saturating_add, some, true, ℕ, ◌+◌, ◌^◌, ◌∷◌,
  ◌≡◌, ◌≤◌,
}
use arbitrage_runtime.Base.Bytes.{be_value}
use arbitrage_runtime.Base.Float.{Micros, clamp}
use arbitrage_runtime.Base.Indexed.{enumerate, swap_remove}
use arbitrage_runtime.Base.Select.{IsPreorder, max_by}
use arbitrage_runtime.Lookup.Backpressure.{
  PendingLookupBackpressure, allowed_count, allowed_count-bounded, decide, fresh_window,
  refresh_pressure, shed, should_enqueue, should_enqueue_recovers, soft_full,
}
use arbitrage_runtime.Lookup.Batch.{
  Drained, MicroBatcher, PendingExecutionCandidate, drain_best, drain_best-Drained, ranking_score,
  ranks_above,
}
use arbitrage_runtime.Lookup.Budget.{
  RpcLookupPressure, aggressive, base_budget, budget_floor,
  effective_pending_lookup_budget_for_mode, least_reader_cap, pressure_multiplier,
}
use arbitrage_runtime.Lookup.Gate.{Transaction, selector_of}
use arbitrage_runtime.Lookup.Seen.{IsWindow, Seen, mark_seen_tx, mark_seen_tx-IsWindow, window}

abbrev empty_window : Seen
empty_window = record { seen_hashes = []; seen_order = [] }

abbrev one_seen : Seen
one_seen = record { seen_hashes = 7 ∷ []; seen_order = 7 ∷ [] }

one_seen-IsWindow : IsWindow window one_seen
one_seen-IsWindow = record { bounded = omega arith; distinct = (tt, tt); agree = λ h. refl }

mark_seen_tx-IsWindow_example :
    IsWindow window (mark_seen_tx 9 one_seen).0
    × ((mark_seen_tx 9 one_seen).1 ≡ not (contains one_seen.seen_order 9))
mark_seen_tx-IsWindow_example = mark_seen_tx-IsWindow 9 one_seen one_seen-IsWindow

marked_new :
    mark_seen_tx 9 one_seen ≡ (record { seen_hashes = 9 ∷ 7 ∷ []; seen_order = 7 ∷ 9 ∷ [] }, true)
unfolding mark_seen_tx
marked_new = refl

marked_again : mark_seen_tx 7 one_seen ≡ (one_seen, false)
unfolding mark_seen_tx
marked_again = refl

abbrev candidate : ℕ → ℕ → PendingExecutionCandidate Micros ℕ
candidate name ev = record {
  opportunity = name;
  ev_real_usd = ev;
  p_positive = 500_000;
  capital_efficiency = 500_000;
  relay_score = 0;
  context_priority_score = 500_000;
}

abbrev batch : MicroBatcher (PendingExecutionCandidate Micros ℕ)
batch = record {
  opened_at = some 3;
  candidates = candidate 1 100 ∷ candidate 2 900_000 ∷ candidate 3 5_000 ∷ [];
}

scores-IsPreorder :
    IsPreorder (λ (a b : ℕ × PendingExecutionCandidate Micros ℕ). ranks_above Micros ℕ a.1 b.1)
scores-IsPreorder = record { asymm = λ x y h. ground arith; trans = λ x y z h k. ground arith }

drain_best-Drained_example : Drained Micros ℕ batch.candidates (drain_best Micros ℕ 5 batch)
drain_best-Drained_example = drain_best-Drained Micros ℕ scores-IsPreorder 5 batch

best_drained :
    drain_best Micros ℕ 5 batch
    ≡ some (
      candidate 2 900_000,
      2,
      record { opened_at = some 5; candidates = candidate 1 100 ∷ candidate 3 5_000 ∷ [] },
    )
unfolding drain_best ranking_score max_by enumerate swap_remove clamp
best_drained = refl

abbrev calm : RpcLookupPressure
calm = record {
  available_readers = 2;
  available_read_capacity_per_sec = 50;
  rate_limited_readers = 0;
  failing_readers = 0;
}

abbrev starting : PendingLookupBackpressure
starting = record {
  window_started = 0;
  accepted_in_window = 0;
  pressure_refreshed_at = 0;
  pressure = calm;
  dropped_since_event = 0;
  last_event_at = 0;
}

abbrev two_per_second : RpcLookupPressure → ℕ
two_per_second p = 2

abbrev three_calls : List (ℕ × RpcLookupPressure × ℕ)
three_calls = (10, calm, 8_000) ∷ (20, calm, 8_000) ∷ (30, calm, 8_000) ∷ []

allowed_count-bounded_example :
    starting.accepted_in_window + allowed_count two_per_second three_calls starting ≤ 2
allowed_count-bounded_example =
    allowed_count-bounded two_per_second three_calls starting 2 (λ p. omega arith) (omega arith)
      (omega arith, (omega arith, (omega arith, tt))) (omega arith)

abbrev exhausted : PendingLookupBackpressure
exhausted = record starting { accepted_in_window = 2; dropped_since_event = 7 }

should_enqueue_recovers_example :
    ((should_enqueue two_per_second (10 ^ 9) calm 8_000 exhausted).allowed ≡ true)
    × ((should_enqueue two_per_second (10 ^ 9) calm 8_000 exhausted).state.window_started ≡ 10 ^ 9)
    × ((should_enqueue two_per_second (10 ^ 9) calm 8_000 exhausted).state.accepted_in_window ≡ 1)
    × ((should_enqueue two_per_second (10 ^ 9) calm 8_000 exhausted).calls ≡ [])
should_enqueue_recovers_example =
    should_enqueue_recovers two_per_second (10 ^ 9) calm 8_000 exhausted (λ p. omega arith)
      (omega arith) (omega arith)

exhausted_now : (should_enqueue two_per_second 10 calm 8_000 exhausted).allowed ≡ false
unfolding should_enqueue decide shed fresh_window refresh_pressure saturating_add soft_full
exhausted_now = refl

two_of_three : allowed_count two_per_second three_calls starting ≡ 2
unfolding allowed_count should_enqueue decide fresh_window refresh_pressure saturating_add
two_of_three = refl

abbrev swap_tx : Transaction
swap_tx = record {
  to = some 5;
  input = 0x38 ∷ 0xed ∷ 0x17 ∷ 0x39 ∷ 0 ∷ [];
  max_fee_per_gas = none;
  gas_price = some 30_000_000_000;
}

swap_tx_selector : selector_of swap_tx ≡ some 0x38ed1739
unfolding selector_of be_value
swap_tx_selector = refl

-- A configured limit of one lookup a second is raised to ten.
limit_raised : effective_pending_lookup_budget_for_mode Micros aggressive (some 1) calm ≡ 10
unfolding effective_pending_lookup_budget_for_mode base_budget pressure_multiplier budget_floor
    least_reader_cap
limit_raised = refl
