-- ===== src/Executor/Handle/Limits.antt =====
-- The limits of the budget hold across a call.
use Prim.Native.String.{String}
use arbitrage_runtime.Base.{
  Bool, Bool-cases, List, Option, [], false, inl, inr, none, some, true, ℕ, ◌∷◌, ◌≡◌, ◌⊎◌,
}
use arbitrage_runtime.Base.Float.{AddLaws, Float}
use arbitrage_runtime.Executor.Budget.Exposure.{
  IsWithin, check_and_reserve-IsWithin, release-IsWithin,
}
use arbitrage_runtime.Executor.Guard.{ExecutionResult, StopLossSnapshot, stop_loss_snapshot}
use arbitrage_runtime.Executor.Handle.{after_admit, finish, finish_failed, handle, settle}
use arbitrage_runtime.Executor.Handle.Admit.{
  admit, after_first, after_freeze, after_outer, after_payload, after_reserve, reserve_and_rank,
}
use arbitrage_runtime.Executor.Handle.Gates.{first_gate}
use arbitrage_runtime.Executor.Handle.Types.{
  Engine, EngineConfig, Opportunity, Outcome, Payload, SendContext, SkipReason, Submission, World,
  accepted, not_joined, refused,
}
use arbitrage_runtime.Executor.Observe.{timeout_result, wei_to_eth_f64}

module _ (f : Float) (laws : AddLaws f) (config : EngineConfig f) (world : World f)
    (opportunity : Opportunity f)
    (nonneg : (wei : ℕ) → f.le (f.lit 0 0) (wei_to_eth_f64 f wei) ≡ true) where
  abbrev Holds : Engine f → Type 0
  Holds engine = IsWithin f laws config.limits engine.budget

  after_reserve-Holds :
      (payload : Payload f) (context : SendContext f) (allowed : Bool) (engine : Engine f)
      → Holds engine
      → Holds (after_reserve f config world opportunity payload context allowed engine).1
  unfolding after_reserve
  after_reserve-Holds payload context false engine h = h
  after_reserve-Holds payload context true engine h = h

  plan-Holds :
      (payload : Payload f) (context : SendContext f) (engine : Engine f)
      → Holds engine
      → Holds (reserve_and_rank f config world opportunity payload context engine).1
  unfolding reserve_and_rank
  plan-Holds payload context engine h = after_reserve-Holds payload context _ _ (
      check_and_reserve-IsWithin f laws world.reserve_at config.limits
        (wei_to_eth_f64 f payload.capital_committed_wei) opportunity.cluster payload.pair
        opportunity.victim_tx engine.budget (nonneg payload.capital_committed_wei) h)

  after_outer-Holds :
      (payload : Payload f) (engine : Engine f) (o : Outcome ⊎ SendContext f)
      → Holds engine
      → Holds (after_outer f config world opportunity payload engine o).1
  after_outer-Holds payload engine (inl outcome) h = h
  after_outer-Holds payload engine (inr context) h = plan-Holds payload context engine h

  after_freeze-Holds :
      (payload : Payload f) (engine : Engine f) (o : Option StopLossSnapshot)
      → Holds engine
      → Holds (after_freeze f config world opportunity payload engine o).1
  after_freeze-Holds payload engine (some snapshot) h = h
  after_freeze-Holds payload engine none h = after_outer-Holds payload engine _ h

  after_payload-Holds :
      (engine : Engine f) (o : Option (Payload f))
      → Holds engine
      → Holds (after_payload f config world opportunity engine o).1
  after_payload-Holds engine none h = h
  after_payload-Holds engine (some payload) h =
      after_freeze-Holds payload
        (record engine { guard = (stop_loss_snapshot f world.gate_at engine.guard).1 })
        (stop_loss_snapshot f world.gate_at engine.guard).0 h

  after_first-Holds :
      (engine : Engine f) (o : Option SkipReason)
      → Holds engine
      → Holds (after_first f config world opportunity engine o).1
  after_first-Holds engine none h = after_payload-Holds engine opportunity.execution_payload h
  after_first-Holds engine (some reason) h = h

  finish-Holds :
      (payload : Payload f) (path : Option String) (result : ExecutionResult f) (engine : Engine f)
      → Holds engine
      → Holds (finish f config world.settle_at opportunity payload path result engine)
  unfolding finish
  finish-Holds payload path result engine h =
      release-IsWithin f laws config.limits opportunity.victim_tx engine.budget h

  finish_failed-Holds :
      (payload : Payload f) (paths : List String) (engine : Engine f)
      → Holds engine
      → Holds (finish_failed f config world.settle_at opportunity payload paths engine)
  unfolding finish_failed finish
  finish_failed-Holds payload [] engine h = elim (Bool-cases config.uses_bundle_relays) [
    | inl e ↦ rw e (finish-Holds payload none (timeout_result f) engine h)
    | inr e ↦ rw e h
  ]
  finish_failed-Holds payload (path ∷ paths) engine h =
      finish-Holds payload (some path) (timeout_result f) engine h

  settle-Holds :
      (payload : Payload f) (paths : List String) (arrivals : List (String × Submission))
      → (engine : Engine f) → Holds engine
      → Holds (settle f config world opportunity payload paths arrivals engine).1
  unfolding settle
  settle-Holds payload paths [] engine h = finish_failed-Holds payload paths engine h
  settle-Holds payload paths ((p, accepted probes) ∷ rest) engine h =
      finish-Holds payload (some p) _ engine h
  settle-Holds payload paths ((p, refused message) ∷ rest) engine h =
      settle-Holds payload paths rest engine h
  settle-Holds payload paths ((p, not_joined) ∷ rest) engine h =
      settle-Holds payload paths rest engine h

  after_admit-Holds :
      (engine : Engine f) (plan : Outcome ⊎ (Payload f × List String))
      → Holds engine
      → Holds (after_admit f config world opportunity engine plan).1
  after_admit-Holds engine (inl outcome) h = h
  after_admit-Holds engine (inr (payload, paths)) h = settle-Holds payload paths _ engine h

  -- Where the additions of capital are monotone and no amount of wei converts to a negative number:
  -- a call, however it ends, keeps the exposure of the whole window, of each cluster and of each
  -- pair within its limit.
  pub handle-IsWithin :
      (engine : Engine f)
      → IsWithin f laws config.limits engine.budget
      → IsWithin f laws config.limits (handle f config world opportunity engine).1.budget
  unfolding handle admit
  handle-IsWithin engine h =
      after_admit-Holds (admit f config world opportunity engine).1
        (admit f config world opportunity engine).0
        (after_first-Holds engine (first_gate f config opportunity) h)
