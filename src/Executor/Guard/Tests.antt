-- ===== src/Executor/Guard/Tests.antt =====
-- The guards on numbers; 10^9 is a second.
use arbitrage_runtime.Base.{
  Bool, Distinct, List, [], arith, false, none, refl, saturating_add, some, true, ℕ, ◌*◌, ◌++◌, ◌+◌,
  ◌<◌, ◌^◌, ◌∷◌, ◌≡◌, ◌≢◌, ◌≤◌,
}
use arbitrage_runtime.Base.Assoc.{get, insert, kept_value, keys}
use arbitrage_runtime.Base.Float.{Micros, clamp}
use arbitrage_runtime.Base.Time.{from_secs}
use arbitrage_runtime.Executor.Guard.{
  ContextExecutionGuard, ContextFreezeKey, ExecutionGuard, ExecutionResult, GuardConfig,
  context_loss, context_stop_loss_snapshot, decay_context_guard, decay_since, global, is_live,
  key_eq, or_default, record_context, record_global, record_result, snapshot_of, stop_loss_snapshot,
}
use arbitrage_runtime.Executor.Guard.Context.{key_eq_iff}
use arbitrage_runtime.Executor.Guard.Global.{Event, losses_freeze, record_events}
use arbitrage_runtime.Executor.Guard.Isolation.{armed_context_freezes, record_result-others}
use arbitrage_runtime.Executor.Pressure.{
  contextual_freeze_secs, contextual_regime_pressure, contextual_stop_loss_threshold, ewma_f64,
}

abbrev config : GuardConfig Micros
config = record {
  stop_loss_consecutive_losses = 3;
  stop_loss_freeze_secs = 60;
  context_stop_loss_consecutive_losses = 1;
  context_stop_loss_freeze_secs = 120;
}

abbrev loss : ExecutionResult Micros
loss = record { realized_profit = 0; gas_used = 21_000; success = false }

abbrev win : ExecutionResult Micros
win = record { realized_profit = 5; gas_used = 21_000; success = true }

abbrev key : ContextFreezeKey
key = record { pair = 5; router = 1; submit_path = "rpc://a" }

abbrev other_key : ContextFreezeKey
other_key = record { pair = 5; router = 1; submit_path = "rpc://b" }

abbrev fresh : ExecutionGuard Micros
fresh = record { consecutive_losses = 0; frozen_until = none; context_guards = [] }

abbrev at_second : ℕ → ExecutionResult Micros → Event Micros
at_second s result = record {
  at = s * 10 ^ 9;
  result = result;
  key = some key;
  priority = 500_000;
  toxicity = 500_000;
}

abbrev two_losses : List (Event Micros)
two_losses = at_second 1 loss ∷ at_second 2 loss ∷ []

abbrev after_three : ExecutionGuard Micros
after_three = record_events Micros config (two_losses ++ (at_second 3 loss ∷ [])) fresh

losses_freeze_example :
    (5 * 10 ^ 9 < 63 * 10 ^ 9
      → (stop_loss_snapshot Micros (5 * 10 ^ 9) after_three).0
        ≡ some (snapshot_of Micros 3 (63 * 10 ^ 9) (5 * 10 ^ 9) global))
    × (63 * 10 ^ 9 ≤ 5 * 10 ^ 9
        → ((stop_loss_snapshot Micros (5 * 10 ^ 9) after_three).0 ≡ none)
          × ((stop_loss_snapshot Micros (5 * 10 ^ 9) after_three).1.consecutive_losses ≡ 0)
          × ((stop_loss_snapshot Micros (5 * 10 ^ 9) after_three).1.frozen_until ≡ none))
losses_freeze_example =
    losses_freeze Micros config two_losses (at_second 3 loss) fresh (5 * 10 ^ 9) (refl, (refl, tt))
      refl (omega arith) (omega arith)

abbrev stored : ContextExecutionGuard Micros
stored = record {
  consecutive_losses = 2;
  frozen_until = none;
  last_event_at = some (10 ^ 9);
  regime_pressure_ewma = 400_000;
}

abbrev with_other : ExecutionGuard Micros
with_other = record fresh { context_guards = (other_key, stored) ∷ [] }

keys_test : key_eq key other_key ≡ false
unfolding key_eq
keys_test = refl

keys_differ : key ≢ other_key
keys_differ = λ e. let same = (key_eq_iff key other_key).1 e in let test = keys_test in cc

abbrev recorded_loss : ExecutionGuard Micros × Bool × Bool
recorded_loss = record_result Micros (10 ^ 9) config loss (some key) 500_000 500_000 with_other

record_result-others_example :
    (get key_eq other_key recorded_loss.0.context_guards
      ≡ kept_value key_eq key_eq_iff
          (is_live Micros (10 ^ 9))
          (get key_eq other_key with_other.context_guards))
    × Distinct (keys key_eq recorded_loss.0.context_guards)
record_result-others_example =
    record_result-others Micros config (10 ^ 9) loss key other_key 500_000 500_000 with_other
      (tt, tt) keys_differ

loss_arms : recorded_loss.2 ≡ true
unfolding record_result record_context record_global context_loss contextual_stop_loss_threshold
    contextual_regime_pressure clamp ewma_f64 decay_context_guard decay_since get key_eq insert
    saturating_add
loss_arms = refl

abbrev armed_state : ContextExecutionGuard Micros
armed_state =
    (record_context Micros (10 ^ 9) config loss 500_000 500_000
      (or_default Micros (get key_eq key with_other.context_guards))).0

abbrev armed_until : ℕ
armed_until =
    10 ^ 9
    + from_secs (
        contextual_freeze_secs Micros config.context_stop_loss_freeze_secs
          armed_state.regime_pressure_ewma)

armed_context_freezes_example :
    (2 * 10 ^ 9 < armed_until
      → (context_stop_loss_snapshot Micros (2 * 10 ^ 9) config key recorded_loss.0).0 ≢ none)
    × (armed_until ≤ 2 * 10 ^ 9
        → ((context_stop_loss_snapshot Micros (2 * 10 ^ 9) config key recorded_loss.0).0 ≡ none)
          × (get key_eq key
                (context_stop_loss_snapshot Micros
                  (2 * 10 ^ 9)
                  config
                  key
                  recorded_loss.0).1.context_guards
              ≡ none))
armed_context_freezes_example =
    armed_context_freezes Micros config (10 ^ 9) loss key 500_000 500_000 with_other (2 * 10 ^ 9)
      (tt, tt) loss_arms
