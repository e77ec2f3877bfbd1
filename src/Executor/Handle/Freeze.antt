-- ===== src/Executor/Handle/Freeze.antt =====
-- A frozen engine does nothing.
use Prim.Native.String.{String}
use arbitrage_runtime.Base.{List, Option, arith, false, leb, none, refl, some, ℕ, ◌<◌, ◌≡◌, ◌⊎◌}
use arbitrage_runtime.Base.Float.{Float}
use arbitrage_runtime.Executor.Guard.{ExecutionGuard, global, snapshot_of, stop_loss_snapshot}
use arbitrage_runtime.Executor.Handle.{after_admit, handle}
use arbitrage_runtime.Executor.Handle.Admit.{admit, after_first, after_payload}
use arbitrage_runtime.Executor.Handle.Gates.{first_gate}
use arbitrage_runtime.Executor.Handle.Types.{
  Engine, EngineConfig, Opportunity, Outcome, Payload, SkipReason, World, frozen, no_payload,
  skipped,
}

module _ (f : Float) (config : EngineConfig f) (world : World f) (opportunity : Opportunity f) where
  abbrev Idle : Engine f → Outcome × Engine f → Type 0
  Idle engine result = (reason : SkipReason) × (result ≡ (skipped reason, engine))

  -- The call that goes on from a plan, with the state that the plan has left.
  abbrev resumed : (Outcome ⊎ (Payload f × List String)) × Engine f → Outcome × Engine f
  resumed (plan, engine) = after_admit f config world opportunity engine plan

  frozen_snapshot :
      (guard : ExecutionGuard f) (until : ℕ)
      → guard.frozen_until ≡ some until
      → world.gate_at < until
      → stop_loss_snapshot f world.gate_at guard
        ≡ (some (snapshot_of f guard.consecutive_losses until world.gate_at global), guard)
  unfolding stop_loss_snapshot
  frozen_snapshot guard until is_shut early =
      let shut : leb until world.gate_at ≡ false = ground arith in rw (is_shut, shut) refl

  frozen_payload :
      (engine : Engine f) (until : ℕ) (o : Option (Payload f))
      → engine.guard.frozen_until ≡ some until
      → world.gate_at < until
      → Idle engine (resumed (after_payload f config world opportunity engine o))
  frozen_payload engine until none shut early = (no_payload, refl)
  frozen_payload engine until (some payload) shut early =
      (frozen, rw (frozen_snapshot engine.guard until shut early) refl)

  -- As long as the engine's freeze has not run out, a call submits nothing: it ends with a reason to
  -- skip and leaves the budget, the guards and the ledger as they were.
  pub handle_frozen :
      (engine : Engine f) (until : ℕ)
      → engine.guard.frozen_until ≡ some until
      → world.gate_at < until
      → (reason : SkipReason) × (handle f config world opportunity engine
          ≡ (skipped reason, engine))
  unfolding handle admit
  handle_frozen engine until shut early = go (first_gate f config opportunity)
    where
      go :
          (o : Option SkipReason)
          → Idle engine (resumed (after_first f config world opportunity engine o))
      go none = frozen_payload engine until opportunity.execution_payload shut early
      go (some reason) = (reason, refl)
