-- ===== src/Executor/Guard/Global.antt =====
-- The engine's own stop-loss over a run of results.
use arbitrage_runtime.Base.{
  All, List, Option, [], arith, false, length, none, refl, saturating_add_fits, some, true, u32_max,
  ℕ, ◌++◌, ◌+◌, ◌<◌, ◌∙◌, ◌∷◌, ◌≡◌, ◌≤◌,
}
use arbitrage_runtime.Base.Float.{Float}
use arbitrage_runtime.Base.Time.{from_secs}
use arbitrage_runtime.Executor.Guard.{
  ContextFreezeKey, ExecutionGuard, ExecutionResult, GuardConfig, global, is_win, record_global,
  record_result, snapshot_of, stop_loss_snapshot,
}

pub record Event (f : Float) : Type 0 where
  pub at : ℕ
  pub result : ExecutionResult f
  pub key : Option ContextFreezeKey
  pub priority : f.F
  pub toxicity : f.F

module _ (f : Float) (config : GuardConfig f) where
  pub record_event : Event f → ExecutionGuard f → ExecutionGuard f
  record_event e guard = (record_result f e.at config e.result e.key e.priority e.toxicity guard).0

  pub record_events : List (Event f) → ExecutionGuard f → ExecutionGuard f
  record_events [] guard = guard
  record_events (e ∷ es) guard = record_events es (record_event e guard)

  abbrev pub IsLoss : Event f → Type 0
  IsLoss e = is_win f e.result ≡ false

  -- The context of a result has no bearing on the engine's own counter and freeze.
  record_result_global :
      (now : ℕ) (result : ExecutionResult f) (key : Option ContextFreezeKey) (p t : f.F)
      → (guard : ExecutionGuard f)
      → let after = (record_result f now config result key p t guard).0 in
        let own = (record_global f now config (is_win f result) guard).0 in
        (after.consecutive_losses ≡ own.consecutive_losses)
        × (after.frozen_until ≡ own.frozen_until)
  unfolding record_result
  record_result_global now result none p t guard = (refl, refl)
  record_result_global now result (some key) p t guard = (refl, refl)

  record_event-loss :
      (e : Event f) (guard : ExecutionGuard f)
      → IsLoss e
      → guard.consecutive_losses < u32_max
      → ((record_event e guard).consecutive_losses ≡ guard.consecutive_losses + 1)
        × (config.stop_loss_consecutive_losses ≤ guard.consecutive_losses + 1
            → (record_event e guard).frozen_until
              ≡ some (e.at + from_secs config.stop_loss_freeze_secs))
  unfolding record_event record_global
  record_event-loss e guard loss small =
      let (losses, frozen) = record_result_global e.at e.result e.key e.priority e.toxicity guard in
      (
        losses ∙ rw loss (ground (arith, saturating_add_fits u32_max guard.consecutive_losses 1)),
        λ reached.
            frozen
            ∙ rw loss (ground (arith, saturating_add_fits u32_max guard.consecutive_losses 1)),
      )

  record_events-losses :
      (es : List (Event f)) (guard : ExecutionGuard f)
      → All IsLoss es
      → guard.consecutive_losses + length es ≤ u32_max
      → (record_events es guard).consecutive_losses ≡ guard.consecutive_losses + length es
  unfolding record_events
  record_events-losses [] guard l small = omega arith
  record_events-losses (e ∷ es) guard (l, ls) small =
      let (one, _) = record_event-loss e guard l (omega arith) in
      omega (arith, record_events-losses es (record_event e guard) ls (omega arith))

  record_events-snoc :
      (es : List (Event f)) (last : Event f) (guard : ExecutionGuard f)
      → record_events (es ++ (last ∷ [])) guard ≡ record_event last (record_events es guard)
  unfolding record_events
  record_events-snoc [] last guard = refl
  record_events-snoc (e ∷ es) last guard = record_events-snoc es last (record_event e guard)

  -- Losses in a row that reach the threshold, without filling the counter, freeze the engine: until
  -- the freeze that the last of them armed has run out, the snapshot reports the engine as frozen
  -- with the count of the losses and the whole seconds left; from then on it reports nothing and the
  -- counter starts again from 0.
  pub losses_freeze :
      (es : List (Event f)) (last : Event f) (guard : ExecutionGuard f) (t : ℕ)
      → All IsLoss es
      → IsLoss last
      → guard.consecutive_losses + length es < u32_max
      → config.stop_loss_consecutive_losses ≤ guard.consecutive_losses + length es + 1
      → let until = last.at + from_secs config.stop_loss_freeze_secs in
        let losses = guard.consecutive_losses + length es + 1 in
        let after = record_events (es ++ (last ∷ [])) guard in
        (t < until → (stop_loss_snapshot f t after).0 ≡ some (snapshot_of f losses until t global))
        × (until ≤ t
            → ((stop_loss_snapshot f t after).0 ≡ none)
              × ((stop_loss_snapshot f t after).1.consecutive_losses ≡ 0)
              × ((stop_loss_snapshot f t after).1.frozen_until ≡ none))
  unfolding stop_loss_snapshot
  losses_freeze es last guard t ls l small reached =
      let before = record_events es guard in
      let count = record_events-losses es guard ls (omega arith) in
      let (losses, arm) = record_event-loss last before l (omega arith) in
      let until = arm (omega arith) in
      let total : (record_event last before).consecutive_losses
          ≡ guard.consecutive_losses + length es + 1 =
        omega arith in
      rw (record_events-snoc, until, total)
        (λ early. ground arith, λ late. (ground arith, ground arith, ground arith))

  -- A win lifts the freeze and clears the counter, whatever came before.
  pub win_lifts :
      (e : Event f) (guard : ExecutionGuard f)
      → is_win f e.result ≡ true
      → ((record_event e guard).consecutive_losses ≡ 0)
        × ((record_event e guard).frozen_until ≡ none)
  unfolding record_event record_global
  win_lifts e guard win =
      let (losses, frozen) = record_result_global e.at e.result e.key e.priority e.toxicity guard in
      (losses ∙ rw win, frozen ∙ rw win)
