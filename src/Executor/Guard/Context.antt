-- ===== src/Executor/Guard/Context.antt =====
-- The guard of one context: decay, threshold and freeze.
use arbitrage_runtime.Amm.V2.Bounds.{div_bounds}
use arbitrage_runtime.Base.{
  Bool-cases, Option, arith, inl, inr, ltb, max, mul_mono, none, refl, saturating_sub, some, suc,
  true, zero, ℕ, ◌%◌, ◌*◌, ◌+◌, ◌/◌, ◌<◌, ◌==◌, ◌^◌, ◌||◌, ◌↔◌, ◌≡◌, ◌≤◌,
}
use arbitrage_runtime.Base.Float.{Float}
use arbitrage_runtime.Base.Time.{as_secs, since}
use arbitrage_runtime.Executor.Guard.{
  ContextExecutionGuard, ContextFreezeKey, decay_by, decay_context_guard, decay_since, key_eq,
}
use arbitrage_runtime.Executor.Pressure.{contextual_stop_loss_threshold, decay_steps, decay_window}
use mathlib.Core.Option.{some-injective}
use native.Mathlib.Decide.{dec_lt}
use text.Mathlib.TextEquality.{eq_iff}

pub key_eq_iff : (a b : ContextFreezeKey) → (key_eq a b ≡ true) ↔ (a ≡ b)
unfolding key_eq
key_eq_iff a b = ground (arith, eq_iff a.submit_path b.submit_path)

module _ (f : Float) where
  open f use {F}

  steps_cover :
      (losses elapsed window : ℕ)
      → 0 < window
      → elapsed < 2 ^ 32
      → losses * window ≤ elapsed
      → losses ≤ elapsed / window % 2 ^ 32
  steps_cover losses elapsed window hw he h =
      let (low, high) = div_bounds elapsed window hw in
      let k : elapsed / window * 1 ≤ elapsed / window * window =
        mul_mono (elapsed / window) 1 (elapsed / window) window (omega arith) hw in
      let many : losses < elapsed / window + 1 = elim (dec_lt losses (elapsed / window + 1)) [
        | yes lt ↦ lt
        | no ge ↦
            let k' : (elapsed / window + 1) * window ≤ losses * window =
              mul_mono (elapsed / window + 1) window losses window (omega arith) (omega arith) in
            absurd (omega arith)
      ] in
      omega arith

  quiet_losses :
      (losses elapsed window : ℕ)
      → losses * window ≤ elapsed
      → (ltb elapsed window || losses == 0 ≡ true)
      → losses ≡ 0
  quiet_losses zero elapsed window h quiet = refl
  quiet_losses (suc n) elapsed window h quiet =
      let k : 1 * window ≤ suc n * window =
        mul_mono 1 window (suc n) window (omega arith) (omega arith) in
      let w : window ≤ elapsed = omega arith in absurd (ground arith)

  due_losses :
      (losses elapsed base : ℕ)
      → elapsed < 2 ^ 32
      → losses * decay_window base ≤ elapsed
      → saturating_sub losses (max (decay_steps elapsed (decay_window base)) 1) ≡ 0
  due_losses losses elapsed base he h =
      let enough = steps_cover losses elapsed (decay_window base) (ground arith) he h in
      ground arith

  abbrev Forgives : ContextExecutionGuard f → ℕ → ℕ → Option ℕ → Type 0
  Forgives state now base seen =
      let after = decay_since f state now base seen in
      (after.consecutive_losses ≤ state.consecutive_losses)
      × (after.frozen_until ≡ state.frozen_until)
      × ((at : ℕ)
          → seen ≡ some at
          → as_secs (since now at) < 2 ^ 32
          → state.consecutive_losses * decay_window base ≤ as_secs (since now at)
          → after.consecutive_losses ≡ 0)

  decay_since-Forgives :
      (state : ContextExecutionGuard f) (now base : ℕ) (seen : Option ℕ)
      → Forgives state now base seen
  unfolding decay_since decay_by
  decay_since-Forgives state now base none = (omega arith, refl, λ at e. absurd (cc))
  decay_since-Forgives state now base (some seen) =
      let elapsed = as_secs (since now seen) in
      elim (Bool-cases (ltb elapsed (decay_window base) || state.consecutive_losses == 0)) [
        | inl quiet ↦ rw quiet (
          omega arith,
          refl,
          λ at e small covered.
              let same : seen ≡ at = some-injective _ _ e in
              quiet_losses state.consecutive_losses elapsed (decay_window base) (rw same covered)
                quiet,
        )
        | inr due ↦ rw due (
          omega arith,
          refl,
          λ at e small covered.
              let same : seen ≡ at = some-injective _ _ e in
              due_losses state.consecutive_losses elapsed base (rw same small) (rw same covered),
        )
      ]

  -- Decay only ever forgives and keeps the freeze; and it forgives everything when, since the last
  -- event, one decay window has passed for each loss and fewer than 2^32 seconds.
  pub decay_forgives :
      (state : ContextExecutionGuard f) (now at base : ℕ)
      → let after = decay_context_guard f state now base in
        (after.consecutive_losses ≤ state.consecutive_losses)
        × (after.frozen_until ≡ state.frozen_until)
        × (state.last_event_at ≡ some at
            → as_secs (since now at) < 2 ^ 32
            → state.consecutive_losses * decay_window base ≤ as_secs (since now at)
            → after.consecutive_losses ≡ 0)
  unfolding decay_context_guard
  decay_forgives state now at base =
      let (less, frozen, forgiven) = decay_since-Forgives state now base state.last_event_at in
      (less, frozen, forgiven at)

  -- The threshold is at least one and never above the configured one, so a context is frozen at the
  -- latest when its losses reach what is configured.
  pub context_threshold_bounds :
      (base : ℕ) (pressure : F)
      → (1 ≤ contextual_stop_loss_threshold f base pressure)
        × (contextual_stop_loss_threshold f base pressure ≤ max base 1)
        × (base ≤ contextual_stop_loss_threshold f base pressure + 1)
  unfolding contextual_stop_loss_threshold
  context_threshold_bounds base pressure = ground arith
