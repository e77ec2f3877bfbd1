-- ===== src/Executor/Handle/Gates.antt =====
-- The gates of `handle` that read nothing of the engine's state: age, wallet, gas price, balance and
-- preflight.
use arbitrage_runtime.Base.{
  Bool, Option, false, if◌then◌else◌, inl, inr, ltb, max, none, not, some, ℕ, ◌⊎◌,
}
use arbitrage_runtime.Base.Float.{Float}
use arbitrage_runtime.Executor.Fees.{max_gas_price_wei}
use arbitrage_runtime.Executor.Handle.Types.{
  EngineConfig, Opportunity, Outcome, Preflight, SendContext, SkipReason, World, bad_private_key,
  failed, gas_price_over_cap, no_send_context, observation_mode, overfunded, preflight_answer,
  preflight_error, preflight_hard_fail, preflight_reverted, skipped, stale, underfunded,
}
use arbitrage_runtime.Executor.Observe.{wei_to_eth_f64}

module _ (f : Float) where
  open f use {lt}

  -- The steps before the first lock is taken.
  unfoldable pub first_gate : EngineConfig f → Opportunity f → Option SkipReason
  first_gate config opportunity =
      if not config.allow_send
      then some observation_mode
      else if ltb (max config.max_pending_age_ms 1) opportunity.age_ms
      then some stale
      else none

  abbrev over_cap : Option ℕ → ℕ → Bool
  over_cap none gas_price = false
  over_cap (some limit) gas_price = ltb limit gas_price

  unfoldable pub balance_gate : EngineConfig f → SendContext f → Option SkipReason
  balance_gate config context =
      let hot_balance_eth = wei_to_eth_f64 f context.hot_balance in
      if over_cap (max_gas_price_wei f config.fees) context.gas_price
      then some gas_price_over_cap
      else if lt hot_balance_eth config.executor_min_buffer_eth
      then some underfunded
      else if lt config.executor_max_buffer_eth hot_balance_eth
      then some overfunded
      else none

  abbrev pub preflight_stops : Bool → Preflight → Option SkipReason
  preflight_stops hard (preflight_answer success) =
      if success then none else some preflight_reverted
  preflight_stops hard preflight_error = if hard then some preflight_hard_fail else none

  unfoldable pub preflight_gate : EngineConfig f → Preflight → Option SkipReason
  preflight_gate config answer =
      if config.preflight_enabled then preflight_stops config.preflight_is_hard answer else none

  abbrev pub after_preflight : SendContext f → Option SkipReason → Outcome ⊎ SendContext f
  after_preflight context none = inr context
  after_preflight context (some reason) = inl (skipped reason)

  abbrev pub after_balance :
      EngineConfig f → Preflight → SendContext f → Option SkipReason → Outcome ⊎ SendContext f
  after_balance config preflight context none =
      after_preflight context (preflight_gate config preflight)
  after_balance config preflight context (some reason) = inl (skipped reason)

  abbrev pub after_context :
      EngineConfig f → Preflight → Option (SendContext f) → Outcome ⊎ SendContext f
  after_context config preflight none = inl (failed no_send_context)
  after_context config preflight (some context) =
      after_balance config preflight context (balance_gate config context)

  -- The steps that read nothing of the engine's state: the wallet, the send context and the preflight.
  unfoldable pub outer_gate : EngineConfig f → World f → Outcome ⊎ SendContext f
  outer_gate config world =
      if not world.wallet_parses
      then inl (failed bad_private_key)
      else after_context config world.preflight world.send_context
