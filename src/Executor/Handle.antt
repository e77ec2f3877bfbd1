-- ===== src/Executor/Handle.antt =====
-- `ExecutionEngine::handle` of src/mev/execution/executor.rs: from an opportunity to a submitted
-- transaction and its result, on the state that the engine keeps under its locks. What the wallet, the
-- providers and the relays answer is the argument `world`, and so are the instants at which the steps
-- read the clock. Reports to the dashboard, to the adaptive policy and to the RPC fleet's statistics
-- are left out; they decide nothing here.
use Prim.Native.String.{String}
use arbitrage_runtime.Base.{
  List, Option, [], if◌then◌else◌, inl, inr, map, max, none, retain, some, take, ℕ, ◌∷◌, ◌⊎◌,
}
use arbitrage_runtime.Base.Float.{Float}
use arbitrage_runtime.Executor.Budget.{release}
use arbitrage_runtime.Executor.Guard.{ExecutionResult, record_result}
use arbitrage_runtime.Executor.Handle.Admit.{admit, path_key}
use arbitrage_runtime.Executor.Handle.Types.{
  Engine, EngineConfig, Opportunity, Outcome, Payload, Submission, World, accepted,
  all_submissions_failed, failed, not_joined, refused, submitted,
}
use arbitrage_runtime.Executor.Observe.{observe_realized_pnl, record_pnl, timeout_result}
use arbitrage_runtime.Executor.Submit.{direct_rpc_submit_endpoints_from_ranked_paths, label}
pub mod Types
pub mod Gates
pub mod Admit
pub mod Account
pub mod Reservation
pub mod Freeze
pub mod Limits
pub mod OpenPaths
pub mod Tests

module _ (f : Float) where
  -- `release_budget` and `record_result`.
  unfoldable pub finish :
      EngineConfig f
      → ℕ
      → Opportunity f
      → Payload f
      → Option String
      → ExecutionResult f
      → Engine f
      → Engine f
  finish config now opportunity payload path result engine = record engine {
    budget = release f opportunity.victim_tx engine.budget;
    guard =
        (record_result f now config.stop_loss result
          (elim path [ none ↦ none | some p ↦ some (path_key f opportunity payload p) ])
          payload.context_priority_score payload.context_toxicity_score engine.guard).0;
    pnl = record_pnl f result engine.pnl;
  }

  -- After the last submission has failed. Over RPC the reservation is released under
  -- `ranked_submit_paths.first()`.
  unfoldable pub finish_failed :
      EngineConfig f → ℕ → Opportunity f → Payload f → List String → Engine f → Engine f
  finish_failed config now opportunity payload [] engine =
      if config.uses_bundle_relays
      then finish config now opportunity payload none (timeout_result f) engine
      else engine
  finish_failed config now opportunity payload (path ∷ paths) engine =
      finish config now opportunity payload (some path) (timeout_result f) engine

  -- The loop over `join_next`, which does the same to this state over RPC and over relays: the first
  -- submission that is accepted ends it.
  unfoldable pub settle :
      EngineConfig f
      → World f
      → Opportunity f
      → Payload f
      → List String
      → List (String × Submission)
      → Engine f
      → Outcome × Engine f
  settle config world opportunity payload paths [] engine = (
    failed all_submissions_failed,
    finish_failed config world.settle_at opportunity payload paths engine,
  )
  settle config world opportunity payload paths ((path, accepted probes) ∷ rest) engine = (
    submitted path,
    finish config world.settle_at opportunity payload (some path)
        (observe_realized_pnl f config.finality_confirmations world.token
          payload.expected_profit_wei probes)
        engine,
  )
  settle config world opportunity payload paths ((path, refused message) ∷ rest) engine =
      settle config world opportunity payload paths rest engine
  settle config world opportunity payload paths ((path, not_joined) ∷ rest) engine =
      settle config world opportunity payload paths rest engine

  -- The paths that a submission is spawned for.
  unfoldable pub spawned : EngineConfig f → World f → List String → List String
  spawned config world paths =
      if config.uses_bundle_relays
      then retain world.url_parses (take (max config.relay_fanout_count 1) paths)
      else map label (
          direct_rpc_submit_endpoints_from_ranked_paths config.rpc_fanout_count paths
            world.submit_candidates)

  abbrev pub after_admit :
      EngineConfig f
      → World f
      → Opportunity f
      → Engine f
      → Outcome ⊎ (Payload f × List String)
      → Outcome × Engine f
  after_admit config world opportunity engine (inl outcome) = (outcome, engine)
  after_admit config world opportunity engine (inr (payload, paths)) =
      settle config world opportunity payload paths (world.join (spawned config world paths)) engine

  unfoldable pub handle : EngineConfig f → World f → Opportunity f → Engine f → Outcome × Engine f
  handle config world opportunity engine =
      let (plan, admitted) = admit f config world opportunity engine in
      after_admit config world opportunity admitted plan
