-- ===== src/Executor/Pressure.antt =====
-- The numbers that the guard of a context uses: its steps of decay, the pressure of its results, and the
-- threshold and the freeze that depend on it (src/mev/execution/executor.rs).
-- `elapsed_secs / decay_window_secs` as a `u32`.
use arbitrage_runtime.Base.{Bool, if◌then◌else◌, max, saturating_sub, ℕ, ◌%◌, ◌&&◌, ◌/◌, ◌^◌}
use arbitrage_runtime.Base.Float.{Float, clamp}

abbrev pub decay_steps : ℕ → ℕ → ℕ
decay_steps elapsed_secs decay_window_secs = elapsed_secs / decay_window_secs % 2 ^ 32

abbrev pub decay_window : ℕ → ℕ
decay_window base_freeze_secs = max (base_freeze_secs / 2) 30

module _ (f : Float) where
  open f use {F, lit, add, sub, mul, lt, le, of_nat, powi, round_to_nat}

  unfoldable pub ewma_f64 : F → F → F → F
  ewma_f64 current sample alpha =
      if le current (lit 2_220_446_049_250_313 31)
      then sample
      else add current (mul (sub sample current) alpha)

  unfoldable pub contextual_regime_pressure : F → F → Bool → F → F
  contextual_regime_pressure context_priority_score context_toxicity_score success realized_profit =
      let unit = clamp f (lit 0 0) (lit 1 0) in
      let toxicity = unit context_toxicity_score in
      let low_priority = unit (sub (lit 1 0) (unit context_priority_score)) in
      let outcome_penalty = if success && lt (lit 0 0) realized_profit then lit 0 0 else lit 24 2 in
      unit (add (add (mul toxicity (lit 62 2)) (mul low_priority (lit 22 2))) outcome_penalty)

  unfoldable pub contextual_stop_loss_threshold : ℕ → F → ℕ
  contextual_stop_loss_threshold base_threshold regime_pressure =
      if le (lit 78 2) regime_pressure
      then max (saturating_sub base_threshold 1) 1
      else max base_threshold 1

  unfoldable pub contextual_freeze_secs : ℕ → F → ℕ
  contextual_freeze_secs base_freeze_secs regime_pressure =
      let multiplier =
        if le (lit 90 2) regime_pressure
        then lit 200 2
        else if le (lit 78 2) regime_pressure
        then lit 150 2
        else if le (lit 62 2) regime_pressure
        then lit 120 2
        else lit 1 0 in
      round_to_nat (mul (of_nat base_freeze_secs) multiplier)
