-- ===== src/Executor/Handle/Admit.antt =====
-- `handle` up to the signature: the gates, the reservation and the open submit paths.
use Prim.Native.String.{String}
use arbitrage_runtime.Base.{
  Bool, List, Option, [], false, if◌then◌else◌, inl, inr, none, some, true, ℕ, ◌∷◌, ◌⊎◌,
}
use arbitrage_runtime.Base.Float.{Float}
use arbitrage_runtime.Executor.Budget.{check_and_reserve}
use arbitrage_runtime.Executor.Guard.{
  ContextFreezeKey, ExecutionGuard, GuardConfig, StopLossSnapshot, context_stop_loss_snapshot,
  stop_loss_snapshot,
}
use arbitrage_runtime.Executor.Handle.Gates.{first_gate, outer_gate}
use arbitrage_runtime.Executor.Handle.Types.{
  Engine, EngineConfig, Opportunity, Outcome, Payload, SendContext, SkipReason, World, failed,
  frozen, no_payload, no_submit_path, over_budget, sign_error, skipped,
}
use arbitrage_runtime.Executor.Observe.{wei_to_eth_f64}
use arbitrage_runtime.Executor.Submit.{rank_direct_rpc_submit_paths, rank_relays}

module _ (f : Float) where
  abbrev pub path_key : Opportunity f → Payload f → String → ContextFreezeKey
  path_key opportunity payload path = record {
    pair = payload.pair;
    router = opportunity.cluster.router;
    submit_path = path;
  }

  abbrev pub is_open : Option StopLossSnapshot → Bool
  is_open none = true
  is_open (some snapshot) = false

  -- `ranked_submit_paths.retain(…)`: the paths whose context is not frozen.
  unfoldable pub retain_open :
      ℕ
      → GuardConfig f
      → (String → ContextFreezeKey)
      → List String
      → ExecutionGuard f
      → List String × ExecutionGuard f
  retain_open now config key [] guard = ([], guard)
  retain_open now config key (path ∷ paths) guard =
      let (snapshot, read) = context_stop_loss_snapshot f now config (key path) guard in
      let (rest, after) = retain_open now config key paths read in
      (if is_open snapshot then path ∷ rest else rest, after)

  unfoldable pub ranked_submit_paths :
      EngineConfig f → World f → Opportunity f → SendContext f → List String
  ranked_submit_paths config world opportunity context =
      if config.uses_bundle_relays
      then rank_relays world.rank_for_cluster config.builder_relays opportunity.preferred_relay
      else rank_direct_rpc_submit_paths config.rpc_fanout_count world.rank_for_cluster
          world.rank_labels world.send_candidates context.endpoint

  abbrev pub signing : Bool → List String → Outcome ⊎ List String
  signing signs [] = inl (skipped no_submit_path)
  signing true (path ∷ paths) = inr (path ∷ paths)
  signing false (path ∷ paths) = inl (failed sign_error)

  -- The paths that are open, and the signature, after a reservation that was allowed or not.
  unfoldable pub after_reserve :
      EngineConfig f
      → World f
      → Opportunity f
      → Payload f
      → SendContext f
      → Bool
      → Engine f
      → (Outcome ⊎ List String) × Engine f
  after_reserve config world opportunity payload context false engine =
      (inl (skipped over_budget), engine)
  after_reserve config world opportunity payload context true engine =
      let (paths, guard) =
        retain_open world.filter_at config.stop_loss (path_key opportunity payload)
          (ranked_submit_paths config world opportunity context) engine.guard in
      (signing world.signs paths, record engine { guard = guard })

  -- From the reservation to the signature.
  unfoldable pub reserve_and_rank :
      EngineConfig f
      → World f
      → Opportunity f
      → Payload f
      → SendContext f
      → Engine f
      → (Outcome ⊎ List String) × Engine f
  reserve_and_rank config world opportunity payload context engine =
      let (decision, budget) =
        check_and_reserve f world.reserve_at config.limits
          (wei_to_eth_f64 f payload.capital_committed_wei) opportunity.cluster payload.pair
          opportunity.victim_tx engine.budget in
      after_reserve config world opportunity payload context decision.allowed
        (record engine { budget = budget })

  abbrev pub with_payload : Payload f → Outcome ⊎ List String → Outcome ⊎ (Payload f × List String)
  with_payload payload (inl outcome) = inl outcome
  with_payload payload (inr paths) = inr (payload, paths)

  abbrev pub after_outer :
      EngineConfig f
      → World f
      → Opportunity f
      → Payload f
      → Engine f
      → Outcome ⊎ SendContext f
      → (Outcome ⊎ (Payload f × List String)) × Engine f
  after_outer config world opportunity payload engine (inl outcome) = (inl outcome, engine)
  after_outer config world opportunity payload engine (inr context) =
      let (plan, after) = reserve_and_rank config world opportunity payload context engine in
      (with_payload payload plan, after)

  abbrev pub after_freeze :
      EngineConfig f
      → World f
      → Opportunity f
      → Payload f
      → Engine f
      → Option StopLossSnapshot
      → (Outcome ⊎ (Payload f × List String)) × Engine f
  after_freeze config world opportunity payload engine (some snapshot) =
      (inl (skipped frozen), engine)
  after_freeze config world opportunity payload engine none =
      after_outer config world opportunity payload engine (outer_gate f config world)

  abbrev pub after_payload :
      EngineConfig f
      → World f
      → Opportunity f
      → Engine f
      → Option (Payload f)
      → (Outcome ⊎ (Payload f × List String)) × Engine f
  after_payload config world opportunity engine none = (inl (skipped no_payload), engine)
  after_payload config world opportunity engine (some payload) =
      let (snapshot, guard) = stop_loss_snapshot f world.gate_at engine.guard in
      after_freeze config world opportunity payload (record engine { guard = guard }) snapshot

  abbrev pub after_first :
      EngineConfig f
      → World f
      → Opportunity f
      → Engine f
      → Option SkipReason
      → (Outcome ⊎ (Payload f × List String)) × Engine f
  after_first config world opportunity engine (some reason) = (inl (skipped reason), engine)
  after_first config world opportunity engine none =
      after_payload config world opportunity engine opportunity.execution_payload

  -- All steps before the submission: where they end the call, its outcome; else the payload and the
  -- paths to submit over.
  unfoldable pub admit :
      EngineConfig f
      → World f
      → Opportunity f
      → Engine f
      → (Outcome ⊎ (Payload f × List String)) × Engine f
  admit config world opportunity engine =
      after_first config world opportunity engine (first_gate f config opportunity)
