-- ===== src/Executor/Guard.antt =====
-- `ExecutionGuard` of src/mev/execution/executor.rs: the stop-loss that freezes execution after losses
-- in a row, for the whole engine and for each context (pair, router and submit path). An operation
-- reads the clock once: `now` stands for each of its `Instant::now()`.
use Prim.Native.String.{String}
use arbitrage_runtime.Base.{
  Bool, List, Option, false, if◌then◌else◌, leb, ltb, max, none, saturating_add, saturating_sub,
  some, true, u32_max, ℕ, ◌&&◌, ◌+◌, ◌==◌, ◌||◌,
}
use arbitrage_runtime.Base.Assoc.{get, insert, remove, retain_values}
use arbitrage_runtime.Base.Float.{Float}
use arbitrage_runtime.Base.Time.{as_secs, from_secs, since}
use arbitrage_runtime.Executor.Pressure.{
  contextual_freeze_secs, contextual_regime_pressure, contextual_stop_loss_threshold, decay_steps,
  decay_window, ewma_f64,
}
use text.Mathlib.Text.{◌==◌ as str_eq}
pub mod Context
pub mod Global
pub mod Isolation
pub mod Tests

pub record ContextFreezeKey : Type 0 where
  pub pair : ℕ
  pub router : ℕ
  pub submit_path : String

unfoldable pub key_eq : ContextFreezeKey → ContextFreezeKey → Bool
key_eq a b = a.pair == b.pair && a.router == b.router && str_eq a.submit_path b.submit_path

pub data Scope : Type 0 where
  global contextual : Scope

pub record StopLossSnapshot : Type 0 where
  pub consecutive_losses : ℕ
  pub remaining_freeze_secs : ℕ
  pub scope : Scope

module _ (f : Float) where
  open f use {F, lit, add, sub, mul, lt, le, of_nat, powi, round_to_nat}

  pub record ContextExecutionGuard : Type 0 where
    pub consecutive_losses : ℕ
    pub frozen_until : Option ℕ
    pub last_event_at : Option ℕ
    pub regime_pressure_ewma : F

  pub record ExecutionGuard : Type 0 where
    pub consecutive_losses : ℕ
    pub frozen_until : Option ℕ
    pub context_guards : List (ContextFreezeKey × ContextExecutionGuard)

  -- The part of `MevConfig` that the guard reads.
  pub record GuardConfig : Type 0 where
    pub stop_loss_consecutive_losses : ℕ
    pub stop_loss_freeze_secs : ℕ
    pub context_stop_loss_consecutive_losses : ℕ
    pub context_stop_loss_freeze_secs : ℕ

  -- `ExecutionResult` of src/mev/pnl/tracker.rs.
  pub record ExecutionResult : Type 0 where
    pub realized_profit : F
    pub gas_used : ℕ
    pub success : Bool

  abbrev pub default_context : ContextExecutionGuard
  default_context = record {
    consecutive_losses = 0;
    frozen_until = none;
    last_event_at = none;
    regime_pressure_ewma = lit 0 0;
  }

  abbrev pub is_win : ExecutionResult → Bool
  is_win result = result.success && lt (lit 0 0) result.realized_profit

  -- The state after the steps; the exponent of `powi` is taken as it is, without the cast to `i32`.
  unfoldable pub decay_by : ContextExecutionGuard → ℕ → ℕ → ContextExecutionGuard
  decay_by state now steps = record state {
    consecutive_losses = saturating_sub state.consecutive_losses (max steps 1);
    last_event_at = some now;
    regime_pressure_ewma = mul state.regime_pressure_ewma (powi (lit 88 2) (max steps 1));
  }

  unfoldable pub decay_since : ContextExecutionGuard → ℕ → ℕ → Option ℕ → ContextExecutionGuard
  decay_since state now base_freeze_secs none = state
  decay_since state now base_freeze_secs (some last_event_at) =
      let elapsed_secs = as_secs (since now last_event_at) in
      if ltb elapsed_secs (decay_window base_freeze_secs) || state.consecutive_losses == 0
      then state
      else decay_by state now (decay_steps elapsed_secs (decay_window base_freeze_secs))

  unfoldable pub decay_context_guard : ContextExecutionGuard → ℕ → ℕ → ContextExecutionGuard
  decay_context_guard state now base_freeze_secs =
      decay_since state now base_freeze_secs state.last_event_at

  -- The first block of `record_result`: the engine's own losses. The flag is `global_freeze_armed`.
  unfoldable pub record_global : ℕ → GuardConfig → Bool → ExecutionGuard → ExecutionGuard × Bool
  record_global now config true guard =
      (record guard { consecutive_losses = 0; frozen_until = none }, false)
  record_global now config false guard =
      let losses = saturating_add u32_max guard.consecutive_losses 1 in
      if leb config.stop_loss_consecutive_losses losses
      then (
        record guard {
          consecutive_losses = losses;
          frozen_until = some (now + from_secs config.stop_loss_freeze_secs);
        },
        true,
      )
      else (record guard { consecutive_losses = losses }, false)

  -- The state of a context after a loss; the flag is `contextual_freeze_armed`.
  unfoldable pub context_loss :
      ℕ → GuardConfig → ContextExecutionGuard → ContextExecutionGuard × Bool
  context_loss now config state =
      let loss_increment = if le (lit 82 2) state.regime_pressure_ewma then 2 else 1 in
      let losses = saturating_add u32_max state.consecutive_losses loss_increment in
      let dynamic_threshold =
        contextual_stop_loss_threshold f config.context_stop_loss_consecutive_losses
          state.regime_pressure_ewma in
      if leb dynamic_threshold losses
      then (
        record state {
          consecutive_losses = losses;
          frozen_until = some (
              now
              + from_secs (
                  contextual_freeze_secs f config.context_stop_loss_freeze_secs
                    state.regime_pressure_ewma));
        },
        true,
      )
      else (record state { consecutive_losses = losses }, false)

  unfoldable pub record_context :
      ℕ
      → GuardConfig
      → ExecutionResult
      → F
      → F
      → ContextExecutionGuard
      → ContextExecutionGuard × Bool
  record_context now config result priority toxicity entry =
      let state = decay_context_guard entry now (max config.context_stop_loss_freeze_secs 1) in
      let regime_pressure =
        contextual_regime_pressure f priority toxicity result.success result.realized_profit in
      let observed = record state {
        last_event_at = some now;
        regime_pressure_ewma = ewma_f64 f state.regime_pressure_ewma regime_pressure (lit 35 2);
      } in
      if is_win result
      then (record observed { consecutive_losses = 0; frozen_until = none }, false)
      else context_loss now config observed

  unfoldable pub is_live : ℕ → ContextExecutionGuard → Bool
  is_live now state = elim state.frozen_until [
    | some frozen_until ↦ ltb now frozen_until || ltb 0 state.consecutive_losses
    | none ↦ ltb 0 state.consecutive_losses
  ]

  abbrev pub or_default : Option ContextExecutionGuard → ContextExecutionGuard
  or_default none = default_context
  or_default (some state) = state

  -- `record_result` on the guard. `key` is there when pair, router and submit path all are; the scores
  -- are those after `unwrap_or(0.5)`. The flags say which freeze was armed.
  unfoldable pub record_result :
      ℕ
      → GuardConfig
      → ExecutionResult
      → Option ContextFreezeKey
      → F
      → F
      → ExecutionGuard
      → ExecutionGuard × Bool × Bool
  record_result now config result none priority toxicity guard =
      let (after, armed) = record_global now config (is_win result) guard in
      (
        record after { context_guards = retain_values key_eq (is_live now) after.context_guards },
        armed,
        false,
      )
  record_result now config result (some key) priority toxicity guard =
      let (after, armed) = record_global now config (is_win result) guard in
      let (state, context_armed) =
        record_context now config result priority toxicity
          (or_default (get key_eq key after.context_guards)) in
      (
        record after {
          context_guards =
              retain_values key_eq (is_live now) (insert key_eq key state after.context_guards);
        },
        armed,
        context_armed,
      )

  abbrev pub snapshot_of : ℕ → ℕ → ℕ → Scope → StopLossSnapshot
  snapshot_of losses frozen_until now scope = record {
    consecutive_losses = losses;
    remaining_freeze_secs = as_secs (since frozen_until now);
    scope = scope;
  }

  unfoldable pub stop_loss_snapshot : ℕ → ExecutionGuard → Option StopLossSnapshot × ExecutionGuard
  stop_loss_snapshot now guard = elim guard.frozen_until [
    | none ↦ (none, guard)
    | some frozen_until ↦
        if leb frozen_until now
        then (none, record guard { frozen_until = none; consecutive_losses = 0 })
        else (some (snapshot_of guard.consecutive_losses frozen_until now global), guard)
  ]

  -- The context's guard is decayed in place before it is read.
  unfoldable pub context_snapshot_of :
      ℕ
      → ContextFreezeKey
      → ContextExecutionGuard
      → ExecutionGuard
      → Option StopLossSnapshot × ExecutionGuard
  context_snapshot_of now key state guard =
      let written = record guard {
        context_guards = insert key_eq key state guard.context_guards;
      } in
      elim state.frozen_until [
        | none ↦ (none, written)
        | some frozen_until ↦
            if leb frozen_until now
            then (none, record guard { context_guards = remove key_eq key guard.context_guards })
            else (some (snapshot_of state.consecutive_losses frozen_until now contextual), written)
      ]

  unfoldable pub context_stop_loss_snapshot :
      ℕ → GuardConfig → ContextFreezeKey → ExecutionGuard → Option StopLossSnapshot × ExecutionGuard
  context_stop_loss_snapshot now config key guard = elim (get key_eq key guard.context_guards) [
    | none ↦ (none, guard)
    | some state ↦
        context_snapshot_of now key
          (decay_context_guard state now (max config.context_stop_loss_freeze_secs 1)) guard
  ]
