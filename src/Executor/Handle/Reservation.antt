-- ===== src/Executor/Handle/Reservation.antt =====
-- What `handle` does with the reservation of its opportunity.
use Prim.Native.String.{String}
use arbitrage_runtime.Base.{
  Any, Bool, Bool-cases, List, Option, [], arith, false, inl, inr, none, refl, some, true, ◌∷◌, ◌≡◌,
  ◌⊎◌,
}
use arbitrage_runtime.Base.Float.{Float}
use arbitrage_runtime.Executor.Budget.{CapitalBudget}
use arbitrage_runtime.Executor.Budget.Kept.{Kept, Kept-refl}
use arbitrage_runtime.Executor.Budget.Runs.{release_removes}
use arbitrage_runtime.Executor.Guard.{StopLossSnapshot, stop_loss_snapshot}
use arbitrage_runtime.Executor.Handle.{after_admit, finish, finish_failed, handle, settle}
use arbitrage_runtime.Executor.Handle.Account.{
  HasPaths, Ledger, Planned, balance_gate_quiet, first_gate_quiet, leaves_reservation,
  preflight_gate_quiet, quiet-Ledger, reserve_ledger, signing_ledger,
}
use arbitrage_runtime.Executor.Handle.Admit.{
  admit, after_first, after_freeze, after_outer, after_payload, after_reserve, reserve_and_rank,
  with_payload,
}
use arbitrage_runtime.Executor.Handle.Gates.{
  after_balance, after_context, after_preflight, first_gate, outer_gate,
}
use arbitrage_runtime.Executor.Handle.Types.{
  Engine, EngineConfig, Opportunity, Outcome, Payload, SendContext, SkipReason, Submission, World,
  accepted, not_joined, refused,
}
use arbitrage_runtime.Executor.Observe.{wei_to_eth_f64}

module _ (f : Float) where
  module _ (config : EngineConfig f) (world : World f) (opportunity : Opportunity f) where
    after_reserve_ledger :
        (payload : Payload f) (context : SendContext f) (allowed : Bool)
        → (before : CapitalBudget f) → (engine : Engine f)
        → (allowed ≡ true → Any (λ r. r.victim_tx ≡ opportunity.victim_tx) engine.budget)
        → (allowed ≡ false → Kept engine.budget before)
        → let (plan, after) =
            after_reserve f config world opportunity payload context allowed engine in
          Planned f HasPaths opportunity.victim_tx before after.budget plan
    unfolding after_reserve
    after_reserve_ledger payload context false before engine reserved same = same refl
    after_reserve_ledger payload context true before engine reserved same =
        signing_ledger f opportunity.victim_tx before engine.budget world.signs _ (reserved refl)

    plan_ledger :
        (payload : Payload f) (context : SendContext f) (engine : Engine f)
        → let (plan, after) = reserve_and_rank f config world opportunity payload context engine in
          Planned f HasPaths opportunity.victim_tx engine.budget after.budget plan
    unfolding reserve_and_rank
    plan_ledger payload context engine =
        let (reserved, same) =
          reserve_ledger f world.reserve_at config.limits
            (wei_to_eth_f64 f payload.capital_committed_wei) opportunity.cluster payload.pair
            opportunity.victim_tx engine.budget in
        after_reserve_ledger payload context _ engine.budget _ reserved same

    -- A gate's answer that ends the call, when no reservation has been made.
    gate_ledger :
        (before : CapitalBudget f) (o : Option SkipReason) (context : SendContext f)
        → ((reason : SkipReason) → o ≡ some reason → leaves_reservation reason ≡ false)
        → Planned f (λ c. Unit) opportunity.victim_tx before before (after_preflight f context o)
    gate_ledger before none context quiet = tt
    gate_ledger before (some reason) context quiet =
        quiet-Ledger f opportunity.victim_tx before before reason (quiet reason refl)
          (Kept-refl before)

    balance_ledger :
        (before : CapitalBudget f) (o : Option SkipReason) (context : SendContext f)
        → ((reason : SkipReason) → o ≡ some reason → leaves_reservation reason ≡ false)
        → Planned f
            (λ c. Unit)
            opportunity.victim_tx
            before
            before
            (after_balance f config world.preflight context o)
    balance_ledger before none context quiet =
        gate_ledger before _ context (preflight_gate_quiet f config world.preflight)
    balance_ledger before (some reason) context quiet =
        quiet-Ledger f opportunity.victim_tx before before reason (quiet reason refl)
          (Kept-refl before)

    context_ledger :
        (before : CapitalBudget f) (o : Option (SendContext f))
        → Planned f
            (λ c. Unit)
            opportunity.victim_tx
            before
            before
            (after_context f config world.preflight o)
    context_ledger before none = Kept-refl before
    context_ledger before (some context) =
        balance_ledger before _ context (balance_gate_quiet f config context)

    outer_ledger :
        (before : CapitalBudget f)
        → Planned f (λ c. Unit) opportunity.victim_tx before before (outer_gate f config world)
    unfolding outer_gate
    outer_ledger before = elim (Bool-cases world.wallet_parses) [
      | inl e ↦ rw e (context_ledger before world.send_context)
      | inr e ↦ rw e (Kept-refl before)
    ]

    abbrev HasPlan : Payload f × List String → Type 0
    HasPlan (payload, paths) = HasPaths paths

    with_payload_ledger :
        (payload : Payload f) (before after : CapitalBudget f) (plan : Outcome ⊎ List String)
        → Planned f HasPaths opportunity.victim_tx before after plan
        → Planned f HasPlan opportunity.victim_tx before after (with_payload f payload plan)
    with_payload_ledger payload before after (inl outcome) h = h
    with_payload_ledger payload before after (inr paths) h = h

    after_outer_ledger :
        (payload : Payload f) (engine : Engine f) (o : Outcome ⊎ SendContext f)
        → Planned f (λ c. Unit) opportunity.victim_tx engine.budget engine.budget o
        → let (plan, after) = after_outer f config world opportunity payload engine o in
          Planned f HasPlan opportunity.victim_tx engine.budget after.budget plan
    after_outer_ledger payload engine (inl outcome) h = h
    after_outer_ledger payload engine (inr context) h =
        with_payload_ledger payload engine.budget _ _ (plan_ledger payload context engine)

    after_freeze_ledger :
        (payload : Payload f) (engine : Engine f) (o : Option StopLossSnapshot)
        → let (plan, after) = after_freeze f config world opportunity payload engine o in
          Planned f HasPlan opportunity.victim_tx engine.budget after.budget plan
    after_freeze_ledger payload engine (some snapshot) = Kept-refl engine.budget
    after_freeze_ledger payload engine none =
        after_outer_ledger payload engine _ (outer_ledger engine.budget)

    after_payload_ledger :
        (engine : Engine f) (o : Option (Payload f))
        → let (plan, after) = after_payload f config world opportunity engine o in
          Planned f HasPlan opportunity.victim_tx engine.budget after.budget plan
    after_payload_ledger engine none = Kept-refl engine.budget
    after_payload_ledger engine (some payload) =
        after_freeze_ledger payload
          (record engine { guard = (stop_loss_snapshot f world.gate_at engine.guard).1 })
          (stop_loss_snapshot f world.gate_at engine.guard).0

    after_first_ledger :
        (engine : Engine f) (o : Option SkipReason)
        → ((reason : SkipReason) → o ≡ some reason → leaves_reservation reason ≡ false)
        → let (plan, after) = after_first f config world opportunity engine o in
          Planned f HasPlan opportunity.victim_tx engine.budget after.budget plan
    after_first_ledger engine none quiet = after_payload_ledger engine opportunity.execution_payload
    after_first_ledger engine (some reason) quiet =
        quiet-Ledger f opportunity.victim_tx engine.budget engine.budget reason (quiet reason refl)
          (Kept-refl engine.budget)

    -- Every submission that has an end, accepted or not, releases the reservation.
    settle-Ledger :
        (payload : Payload f)
        → (paths : List String) → (arrivals : List (String × Submission))
        → (before : CapitalBudget f) → (engine : Engine f) → HasPaths paths
        → let (outcome, after) = settle f config world opportunity payload paths arrivals engine in
          Ledger f opportunity.victim_tx outcome before after.budget
    unfolding settle finish finish_failed
    settle-Ledger payload [] [] before engine h = absurd (omega arith)
    settle-Ledger payload (path ∷ paths) [] before engine h =
        (release_removes f opportunity.victim_tx engine.budget).0
    settle-Ledger payload paths ((p, accepted probes) ∷ rest) before engine h =
        (release_removes f opportunity.victim_tx engine.budget).0
    settle-Ledger payload paths ((p, refused message) ∷ rest) before engine h =
        settle-Ledger payload paths rest before engine h
    settle-Ledger payload paths ((p, not_joined) ∷ rest) before engine h =
        settle-Ledger payload paths rest before engine h

    after_admit-Ledger :
        (before : CapitalBudget f)
        → (engine : Engine f) → (plan : Outcome ⊎ (Payload f × List String))
        → Planned f HasPlan opportunity.victim_tx before engine.budget plan
        → let (outcome, after) = after_admit f config world opportunity engine plan in
          Ledger f opportunity.victim_tx outcome before after.budget
    after_admit-Ledger before engine (inl outcome) h = h
    after_admit-Ledger before engine (inr (payload, paths)) h =
        settle-Ledger payload paths _ before engine h

    -- After a call that submitted the transaction, accepted or not, no reservation of the opportunity is
    -- left. After a call that stopped for want of an open path or of a signature, the reservation it made
    -- is left. After any other call the reservations are what is left of those before.
    pub handle_reservation :
        (engine : Engine f)
        → let (outcome, after) = handle f config world opportunity engine in
          Ledger f opportunity.victim_tx outcome engine.budget after.budget
    unfolding handle admit
    handle_reservation engine =
        after_admit-Ledger engine.budget (admit f config world opportunity engine).1
          (admit f config world opportunity engine).0
          (after_first_ledger engine (first_gate f config opportunity)
            (first_gate_quiet f config opportunity))
