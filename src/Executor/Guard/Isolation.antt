-- ===== src/Executor/Guard/Isolation.antt =====
-- The guards of two contexts do not touch each other, and an armed freeze blocks its context.
use arbitrage_runtime.Base.{
  Bool, Bool-cases, Distinct, arith, false, if◌then◌else◌, inl, inr, leb, max, none, refl,
  saturating_add, some, sym, true, u32_max, ℕ, ◌+◌, ◌<◌, ◌∙◌, ◌≡◌, ◌≢◌, ◌≤◌,
}
use arbitrage_runtime.Base.Assoc.{
  Distinct-insert, Distinct-retain, get, get-insert, get-remove, get-retain_values, insert,
  kept_value, keys, retain_values,
}
use arbitrage_runtime.Base.Float.{Float}
use arbitrage_runtime.Base.Time.{from_secs}
use arbitrage_runtime.Executor.Guard.{
  ContextExecutionGuard, ContextFreezeKey, ExecutionGuard, ExecutionResult, GuardConfig,
  context_loss, context_snapshot_of, context_stop_loss_snapshot, decay_context_guard, is_live,
  is_win, key_eq, or_default, record_context, record_global, record_result,
}
use arbitrage_runtime.Executor.Guard.Context.{decay_forgives, key_eq_iff}
use arbitrage_runtime.Executor.Pressure.{contextual_freeze_secs, contextual_stop_loss_threshold}

module _ (f : Float) (config : GuardConfig f) where
  record_global_contexts :
      (now : ℕ) (win : Bool) (guard : ExecutionGuard f)
      → (record_global f now config win guard).0.context_guards ≡ guard.context_guards
  unfolding record_global
  record_global_contexts now true guard = refl
  record_global_contexts now false guard = ground arith

  -- In a table with one entry for a context, a result for one context leaves every other context's
  -- guard as it was, except that a guard that is neither frozen nor has losses is dropped; and the
  -- table keeps one entry for a context.
  pub record_result-others :
      (now : ℕ)
      → (result : ExecutionResult f) → (key other : ContextFreezeKey) → (p t : f.F)
      → (guard : ExecutionGuard f) → Distinct (keys key_eq guard.context_guards)
      → key ≢ other
      → let after = (record_result f now config result (some key) p t guard).0 in
        (get key_eq other after.context_guards
          ≡ kept_value key_eq key_eq_iff (is_live f now) (get key_eq other guard.context_guards))
        × Distinct (keys key_eq after.context_guards)
  unfolding record_result retain_values
  record_result-others now result key other p t guard d ne =
      let own = (record_global f now config (is_win f result) guard).0.context_guards in
      let same = record_global_contexts now (is_win f result) guard in
      let state = (record_context f now config result p t (or_default f (get key_eq key own))).0 in
      let d' : Distinct (keys key_eq own) = rw same d in
      let written = Distinct-insert key_eq key_eq_iff key state own d' in
      let apart = get-insert key_eq key_eq_iff key other state own in
      let e = key_eq_iff key other in
      let differ : key_eq key other ≡ false = ground arith in
      (
        get-retain_values key_eq key_eq_iff other (is_live f now) _ written
            ∙ rw (apart, differ, same) refl,
        Distinct-retain key_eq key_eq_iff (λ e. is_live f now e.1) (insert key_eq key state own)
            written,
      )

  one_loss : (losses increment : ℕ) → 1 ≤ increment → 1 ≤ saturating_add u32_max losses increment
  unfolding saturating_add
  one_loss losses increment h = ground arith

  -- What a context's loss writes when it arms the freeze.
  context_loss_armed :
      (now : ℕ) (state : ContextExecutionGuard f)
      → (context_loss f now config state).1 ≡ true
      → let after = (context_loss f now config state).0 in
        (after.frozen_until
          ≡ some (
              now
              + from_secs (
                  contextual_freeze_secs f config.context_stop_loss_freeze_secs
                    after.regime_pressure_ewma)))
        × (1 ≤ after.consecutive_losses)
  unfolding context_loss
  context_loss_armed now state armed =
      let increment = if f.le (f.lit 82 2) state.regime_pressure_ewma then 2 else 1 in
      let losses = saturating_add u32_max state.consecutive_losses increment in
      let threshold =
        contextual_stop_loss_threshold f config.context_stop_loss_consecutive_losses
          state.regime_pressure_ewma in
      let some_loss : 1 ≤ increment = ground arith in
      elim (Bool-cases (leb threshold losses)) [
        | inl e ↦ rw e (refl, one_loss state.consecutive_losses increment some_loss)
        | inr e ↦ absurd (ground arith)
      ]

  record_context_armed :
      (now : ℕ) (result : ExecutionResult f) (p t : f.F) (entry : ContextExecutionGuard f)
      → (record_context f now config result p t entry).1 ≡ true
      → let after = (record_context f now config result p t entry).0 in
        (after.frozen_until
          ≡ some (
              now
              + from_secs (
                  contextual_freeze_secs f config.context_stop_loss_freeze_secs
                    after.regime_pressure_ewma)))
        × (1 ≤ after.consecutive_losses)
  unfolding record_context
  record_context_armed now result p t entry armed = elim (Bool-cases (is_win f result)) [
    | inl win ↦ absurd (ground arith)
    | inr loss ↦ rw loss (context_loss_armed now _ (ground arith))
  ]

  live :
      (now : ℕ) (state : ContextExecutionGuard f)
      → 1 ≤ state.consecutive_losses
      → is_live f now state ≡ true
  unfolding is_live
  live now state h = ground arith

  recorded :
      (now : ℕ) (result : ExecutionResult f) (key : ContextFreezeKey) (p t : f.F)
      → (guard : ExecutionGuard f) → Distinct (keys key_eq guard.context_guards)
      → let state =
          (record_context f now config result p t
            (or_default f (get key_eq key guard.context_guards))).0 in
        1 ≤ state.consecutive_losses
        → get key_eq key (record_result f now config result (some key) p t guard).0.context_guards
          ≡ some state
  unfolding record_result retain_values
  recorded now result key p t guard d many =
      let own = (record_global f now config (is_win f result) guard).0.context_guards in
      let same = record_global_contexts now (is_win f result) guard in
      let state = (record_context f now config result p t (or_default f (get key_eq key own))).0 in
      let d' : Distinct (keys key_eq own) = rw same d in
      let written = Distinct-insert key_eq key_eq_iff key state own d' in
      let here = get-insert key_eq key_eq_iff key key state own in
      let itself : key_eq key key ≡ true = (key_eq_iff key key).1 refl in
      let many' : 1 ≤ state.consecutive_losses = rw same many in
      get-retain_values key_eq key_eq_iff key (is_live f now) _ written
      ∙ rw (here, itself, live now state many', same) refl

  read_context :
      (read : ℕ) (key : ContextFreezeKey) (guard : ExecutionGuard f)
      → (state : ContextExecutionGuard f) → get key_eq key guard.context_guards ≡ some state
      → context_stop_loss_snapshot f read config key guard
        ≡ context_snapshot_of f read key
            (decay_context_guard f state read (max config.context_stop_loss_freeze_secs 1))
            guard
  unfolding context_stop_loss_snapshot
  read_context read key guard state found = rw (found, context_stop_loss_snapshot) refl

  read_frozen :
      (read until : ℕ) (key : ContextFreezeKey) (guard : ExecutionGuard f)
      → (state : ContextExecutionGuard f) → state.frozen_until ≡ some until
      → let snapshot = context_snapshot_of f read key state guard in
        (read < until → snapshot.0 ≢ none)
        × (until ≤ read → (snapshot.0 ≡ none) × (get key_eq key snapshot.1.context_guards ≡ none))
  unfolding context_snapshot_of
  read_frozen read until key guard state frozen = (
    λ early.
        let shut : leb until read ≡ false = ground arith in rw (frozen, shut) (λ e. absurd (cc)),
    λ late.
        let over : leb until read ≡ true = ground arith in
        (
          rw (frozen, over) refl,
          rw (frozen, over)
              (get-remove key_eq key_eq_iff key key guard.context_guards
                ∙ ground (arith, key_eq_iff key key)),
        ),
  )

  -- When a result arms a context's freeze, in a table with one entry for a context, the context's
  -- snapshot reports it as frozen until the freeze has run out, whatever decay takes from its
  -- losses; from then on it reports nothing, and the context's guard is dropped.
  pub armed_context_freezes :
      (now : ℕ)
      → (result : ExecutionResult f) → (key : ContextFreezeKey) → (p t : f.F)
      → (guard : ExecutionGuard f) → (read : ℕ) → Distinct (keys key_eq guard.context_guards)
      → (record_result f now config result (some key) p t guard).2 ≡ true
      → let after = (record_result f now config result (some key) p t guard).0 in
        let state =
          (record_context f now config result p t
            (or_default f (get key_eq key guard.context_guards))).0 in
        let until =
          now
          + from_secs (
              contextual_freeze_secs f config.context_stop_loss_freeze_secs
                state.regime_pressure_ewma) in
        (read < until → (context_stop_loss_snapshot f read config key after).0 ≢ none)
        × (until ≤ read
            → ((context_stop_loss_snapshot f read config key after).0 ≡ none)
              × (get key_eq key
                    (context_stop_loss_snapshot f read config key after).1.context_guards
                  ≡ none))
  unfolding record_result
  armed_context_freezes now result key p t guard read d armed =
      let own = (record_global f now config (is_win f result) guard).0.context_guards in
      let same = record_global_contexts now (is_win f result) guard in
      let entry = or_default f (get key_eq key guard.context_guards) in
      let (frozen, many) = record_context_armed now result p t entry (rw (sym same) armed) in
      let base = max config.context_stop_loss_freeze_secs 1 in
      let state = (record_context f now config result p t entry).0 in
      let (_, keeps, _) = decay_forgives f state read 0 base in
      let after = (record_result f now config result (some key) p t guard).0 in
      let seen = read_context read key after state (recorded now result key p t guard d many) in
      rw seen
        (read_frozen read _ key after (decay_context_guard f state read base) (keeps ∙ frozen))
