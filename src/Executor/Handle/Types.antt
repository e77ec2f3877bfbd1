-- ===== src/Executor/Handle/Types.antt =====
-- The data of `ExecutionEngine::handle` of src/mev/execution/executor.rs: configuration, opportunity,
-- engine, outcomes, and the answers that come from outside.
use Prim.Native.String.{String}
use arbitrage_runtime.Base.{Bool, List, Option, ℕ}
use arbitrage_runtime.Base.Float.{Float}
use arbitrage_runtime.Executor.Budget.{BudgetConfig, CapitalBudget, ClusterKey}
use arbitrage_runtime.Executor.Fees.{FeeConfig}
use arbitrage_runtime.Executor.Guard.{ExecutionGuard, GuardConfig}
use arbitrage_runtime.Executor.Observe.{PnlTracker, Probe, TokenMeta}
use arbitrage_runtime.Executor.Submit.{RpcHandle}

pub data SkipReason : Type 0 where
  observation_mode stale no_payload frozen gas_price_over_cap underfunded overfunded : SkipReason
  preflight_reverted preflight_hard_fail over_budget no_submit_path : SkipReason

pub data FailReason : Type 0 where
  bad_private_key no_send_context sign_error all_submissions_failed : FailReason

-- `Ok(())` with the reason to stop or with the path that took the transaction, or `Err`.
pub data Outcome : Type 0 where
  skipped : SkipReason → Outcome
  submitted : String → Outcome
  failed : FailReason → Outcome

-- The answer of `validate_with_evm_preflight`; the flag is `preflight_result.success`.
pub data Preflight : Type 0 where
  preflight_answer : Bool → Preflight
  preflight_error : Preflight

-- What `join_next` gives for one spawned submission: the probes of the observation that follows it, an
-- error text, or a task that did not end.
pub data Submission : Type 0 where
  accepted : (ℕ → List Probe) → Submission
  refused : String → Submission
  not_joined : Submission

module _ (f : Float) where
  open f use {F, lt}

  pub record EngineConfig : Type 0 where
    pub allow_send : Bool
    pub max_pending_age_ms : ℕ
    pub executor_min_buffer_eth : F
    pub executor_max_buffer_eth : F
    pub uses_bundle_relays : Bool
    pub relay_fanout_count : ℕ
    pub rpc_fanout_count : ℕ
    pub builder_relays : List String
    pub finality_confirmations : ℕ
    pub preflight_enabled : Bool
    pub preflight_is_hard : Bool
    pub fees : FeeConfig f
    pub limits : BudgetConfig f
    pub stop_loss : GuardConfig f

  pub record Payload : Type 0 where
    pub pair : ℕ
    pub capital_committed_wei : ℕ
    pub expected_profit_wei : ℕ
    pub context_priority_score : F
    pub context_toxicity_score : F

  pub record Opportunity : Type 0 where
    pub victim_tx : ℕ
    pub age_ms : ℕ
    pub cluster : ClusterKey
    pub preferred_relay : Option String
    pub execution_payload : Option Payload

  pub record SendContext : Type 0 where
    pub endpoint : RpcHandle
    pub hot_balance : ℕ
    pub gas_price : ℕ

  pub record World : Type 0 where
    pub wallet_parses : Bool
    pub send_context : Option SendContext
    pub preflight : Preflight
    pub rank_for_cluster : List String → List String
    pub rank_labels : List String → List String
    pub send_candidates : List RpcHandle
    pub submit_candidates : List RpcHandle
    pub signs : Bool
    pub url_parses : String → Bool
    pub join : List String → List (String × Submission)
    pub token : Option (TokenMeta f)
    pub gate_at : ℕ
    pub reserve_at : ℕ
    pub filter_at : ℕ
    pub settle_at : ℕ

  pub record Engine : Type 0 where
    pub budget : CapitalBudget f
    pub guard : ExecutionGuard f
    pub pnl : PnlTracker f
