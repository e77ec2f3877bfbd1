-- ===== src/Executor/Handle/OpenPaths.antt =====
-- The paths that are left when the frozen contexts are taken out.
use Prim.Native.String.{String}
use arbitrage_runtime.Base.{
  All, All-map, Any, Bool-cases, List, Option, Option-cases, [], ap, arith, false, inl, inr, leb,
  max, none, refl, some, sym, true, ℕ, ◌∙◌, ◌∷◌, ◌≡◌, ◌≤◌, ◌⊎◌,
}
use arbitrage_runtime.Base.Assoc.{
  get, get-insert_other, get-insert_same, get-remove_other, get-remove_same, insert, remove,
}
use arbitrage_runtime.Base.Float.{Float}
use arbitrage_runtime.Executor.Guard.{
  ContextExecutionGuard, ContextFreezeKey, ExecutionGuard, GuardConfig, StopLossSnapshot,
  context_snapshot_of, context_stop_loss_snapshot, contextual, decay_context_guard, key_eq,
  snapshot_of,
}
use arbitrage_runtime.Executor.Guard.Context.{decay_forgives, key_eq_iff}
use arbitrage_runtime.Executor.Handle.Admit.{is_open, retain_open}
use mathlib.Core.Option.{some-injective}
use mathlib.Core.Path.{subst}

module _ (f : Float) (now : ℕ) (config : GuardConfig f) where
  -- The context is not frozen at `now`.
  abbrev pub IsOpen : ContextFreezeKey → ExecutionGuard f → Type 0
  IsOpen key guard =
      (state : ContextExecutionGuard f) (until : ℕ)
      → get key_eq key guard.context_guards ≡ some state
      → state.frozen_until ≡ some until
      → until ≤ now

  abbrev decayed : ContextExecutionGuard f → ContextExecutionGuard f
  decayed state = decay_context_guard f state now (max config.context_stop_loss_freeze_secs 1)

  decayed_frozen :
      (state : ContextExecutionGuard f) → (decayed state).frozen_until ≡ state.frozen_until
  decayed_frozen state =
      (decay_forgives f state now 0 (max config.context_stop_loss_freeze_secs 1)).1

  -- What a snapshot of a context with a guard writes.
  snapshot_writes :
      (read : ContextFreezeKey) (state : ContextExecutionGuard f) (guard : ExecutionGuard f)
      → let after = (context_snapshot_of f now read state guard).1.context_guards in
        (after ≡ insert key_eq read state guard.context_guards)
        ⊎ (after ≡ remove key_eq read guard.context_guards)
  unfolding context_snapshot_of
  snapshot_writes read state guard = ground arith

  read_some :
      (read : ContextFreezeKey) (guard : ExecutionGuard f) (state : ContextExecutionGuard f)
      → get key_eq read guard.context_guards ≡ some state
      → context_stop_loss_snapshot f now config read guard
        ≡ context_snapshot_of f now read (decayed state) guard
  unfolding context_stop_loss_snapshot
  read_some read guard state e = rw (e, context_stop_loss_snapshot) refl

  read_none :
      (read : ContextFreezeKey) (guard : ExecutionGuard f)
      → get key_eq read guard.context_guards ≡ none
      → context_stop_loss_snapshot f now config read guard ≡ (none, guard)
  unfolding context_stop_loss_snapshot
  read_none read guard e = rw (e, context_stop_loss_snapshot) refl

  same_entry :
      (read : ContextFreezeKey)
      → (guard : ExecutionGuard f) → (old : ContextExecutionGuard f)
      → (state : ContextExecutionGuard f) → get key_eq read guard.context_guards ≡ some old
      → get key_eq read (context_snapshot_of f now read (decayed old) guard).1.context_guards
        ≡ some state
      → state.frozen_until ≡ old.frozen_until
  same_entry read guard old state found h =
      let ins = get-insert_same key_eq key_eq_iff read (decayed old) guard.context_guards in
      let rem = get-remove_same key_eq key_eq_iff read guard.context_guards in
      elim (snapshot_writes read (decayed old) guard) [
        | inl e ↦
            let d : decayed old ≡ state =
              some-injective _ _ (sym ins ∙ ap (get key_eq read) (sym e) ∙ h) in
            subst (λ (s : ContextExecutionGuard f). s.frozen_until ≡ old.frozen_until) d
              (decayed_frozen old)
        | inr e ↦
            let gone : none ≡ some state = sym rem ∙ ap (get key_eq read) (sym e) ∙ h in absurd (cc)
      ]

  -- The entry of a context after a snapshot of a context with a guard.
  entry_after :
      (key read : ContextFreezeKey)
      → (guard : ExecutionGuard f) → (old : ContextExecutionGuard f)
      → (state : ContextExecutionGuard f) → get key_eq read guard.context_guards ≡ some old
      → get key_eq key (context_snapshot_of f now read (decayed old) guard).1.context_guards
        ≡ some state
      → (before : ContextExecutionGuard f) × (get key_eq key guard.context_guards ≡ some before)
        × (state.frozen_until ≡ before.frozen_until)
  entry_after key read guard old state found h = elim (Bool-cases (key_eq read key)) [
    | inl same ↦
        let e = (key_eq_iff read key).0 same in
        (
          old,
          subst (λ k. get key_eq k guard.context_guards ≡ some old) e found,
          same_entry read guard old state found (
              subst
                (λ k.
                  get key_eq k (context_snapshot_of f now read (decayed old) guard).1.context_guards
                  ≡ some state)
                (sym e) h),
        )
    | inr differ ↦
        let ins =
          get-insert_other key_eq key_eq_iff read key (decayed old) guard.context_guards differ in
        let rem = get-remove_other key_eq key_eq_iff read key guard.context_guards differ in
        (
          state,
          elim (snapshot_writes read (decayed old) guard) [
            | inl e ↦ sym ins ∙ ap (get key_eq key) (sym e) ∙ h
            | inr e ↦ sym rem ∙ ap (get key_eq key) (sym e) ∙ h
          ],
          refl,
        )
  ]

  -- Reading a context's snapshot freezes no context.
  snapshot-IsOpen :
      (key read : ContextFreezeKey) (guard : ExecutionGuard f)
      → IsOpen key guard
      → IsOpen key (context_stop_loss_snapshot f now config read guard).1
  snapshot-IsOpen key read guard h state until found shut =
      elim (Option-cases (get key_eq read guard.context_guards)) [
        | inl e ↦
            h state until
              (subst
                (λ (r : Option StopLossSnapshot × ExecutionGuard f).
                  get key_eq key r.1.context_guards ≡ some state)
                (read_none read guard e) found)
              shut
        | inr (old, e) ↦
            let (before, was, kept) = entry_after key read guard old state e (
              subst
                (λ (r : Option StopLossSnapshot × ExecutionGuard f).
                  get key_eq key r.1.context_guards ≡ some state)
                (read_some read guard old e) found) in
            h before until was (sym kept ∙ shut)
      ]

  empty_snapshot :
      (key : ContextFreezeKey) (state : ContextExecutionGuard f) (guard : ExecutionGuard f)
      (until : ℕ)
      → is_open f (context_snapshot_of f now key state guard).0 ≡ true
      → state.frozen_until ≡ some until
      → until ≤ now
  unfolding context_snapshot_of
  empty_snapshot key state guard until h shut = elim (Bool-cases (leb until now)) [
    | inl late ↦ ground arith
    | inr early ↦
        let e : (context_snapshot_of f now key state guard).0
            ≡ some (snapshot_of f state.consecutive_losses until now contextual) =
          rw (shut, early) refl in
        let never : false ≡ true = subst (λ o. is_open f o ≡ true) e h in absurd (cc)
  ]

  -- A context whose snapshot is empty is not frozen.
  empty-IsOpen :
      (key : ContextFreezeKey) (guard : ExecutionGuard f)
      → is_open f (context_stop_loss_snapshot f now config key guard).0 ≡ true
      → IsOpen key (context_stop_loss_snapshot f now config key guard).1
  empty-IsOpen key guard h state until found shut =
      elim (Option-cases (get key_eq key guard.context_guards)) [
        | inl e ↦
            let there : get key_eq key guard.context_guards ≡ some state =
              subst
                (λ (r : Option StopLossSnapshot × ExecutionGuard f).
                  get key_eq key r.1.context_guards ≡ some state)
                (read_none key guard e) found in
            absurd (cc)
        | inr (old, e) ↦
            let seen = read_some key guard old e in
            let kept = same_entry key guard old state e (
              subst
                (λ (r : Option StopLossSnapshot × ExecutionGuard f).
                  get key_eq key r.1.context_guards ≡ some state)
                seen found) in
            empty_snapshot key (decayed old) guard until
              (subst (λ (r : Option StopLossSnapshot × ExecutionGuard f). is_open f r.0 ≡ true) seen
                h)
              (decayed_frozen old ∙ sym kept ∙ shut)
      ]

  retain_open_keeps :
      (key : String → ContextFreezeKey) (paths : List String) (guard : ExecutionGuard f)
      → (other : ContextFreezeKey) → IsOpen other guard
      → IsOpen other (retain_open f now config key paths guard).1
  unfolding retain_open
  retain_open_keeps key [] guard other h = h
  retain_open_keeps key (path ∷ paths) guard other h =
      retain_open_keeps key paths _ other (snapshot-IsOpen other (key path) guard h)

  abbrev pub Listed : (String → ContextFreezeKey) → List String → ExecutionGuard f → String → Type 0
  Listed key paths guard path = IsOpen (key path) guard × Any (λ p. p ≡ path) paths

  -- Every path that is left has a context that is not frozen, in the state in which the submission
  -- starts; and it is one of the ranked paths.
  pub retain_open-All :
      (key : String → ContextFreezeKey) (paths : List String) (guard : ExecutionGuard f)
      → let (open_paths, after) = retain_open f now config key paths guard in
        All (Listed key paths after) open_paths
  unfolding retain_open
  retain_open-All key [] guard = tt
  retain_open-All key (path ∷ paths) guard =
      let read = (context_stop_loss_snapshot f now config (key path) guard).1 in
      let later =
        All-map _ (Listed key (path ∷ paths) (retain_open f now config key paths read).1) _
          (λ p (o, m). (o, inr m)) (retain_open-All key paths read) in
      elim (Bool-cases (is_open f (context_stop_loss_snapshot f now config (key path) guard).0)) [
        | inl e ↦ rw e (
          (retain_open_keeps key paths read (key path) (empty-IsOpen (key path) guard e), inl refl),
          later,
        )
        | inr e ↦ rw e later
      ]
