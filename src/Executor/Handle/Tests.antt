-- ===== src/Executor/Handle/Tests.antt =====
-- `handle` on numbers, in millionths; 10^9 is a second.
use Prim.Native.String.{String}
use arbitrage_runtime.Base.{
  All, List, [], arith, false, none, refl, some, true, ℕ, ◌*◌, ◌^◌, ◌∷◌, ◌≡◌,
}
use arbitrage_runtime.Base.Assoc.{get, insert}
use arbitrage_runtime.Base.Float.{Micros, Micros-AddLaws}
use arbitrage_runtime.Executor.Budget.{
  check_and_reserve, cluster_eq, prune, reject_reason_of, window_sum,
}
use arbitrage_runtime.Executor.Budget.Exposure.{IsWithin}
use arbitrage_runtime.Executor.Fees.{max_gas_price_wei}
use arbitrage_runtime.Executor.Guard.{
  ExecutionGuard, context_snapshot_of, context_stop_loss_snapshot, decay_by, decay_context_guard,
  decay_since, key_eq, stop_loss_snapshot,
}
use arbitrage_runtime.Executor.Handle.{handle, settle, spawned}
use arbitrage_runtime.Executor.Handle.Account.{Ledger}
use arbitrage_runtime.Executor.Handle.Admit.{
  admit, after_reserve, path_key, ranked_submit_paths, reserve_and_rank, retain_open,
}
use arbitrage_runtime.Executor.Handle.Freeze.{handle_frozen}
use arbitrage_runtime.Executor.Handle.Gates.{balance_gate, first_gate, outer_gate, preflight_gate}
use arbitrage_runtime.Executor.Handle.Limits.{handle-IsWithin}
use arbitrage_runtime.Executor.Handle.OpenPaths.{Listed, retain_open-All}
use arbitrage_runtime.Executor.Handle.Reservation.{handle_reservation}
use arbitrage_runtime.Executor.Handle.Types.{
  Engine, EngineConfig, Opportunity, Payload, SkipReason, Submission, World, all_submissions_failed,
  failed, preflight_error, refused, sign_error, skipped,
}
use arbitrage_runtime.Executor.Observe.{wei_to_eth_f64}
use arbitrage_runtime.Executor.Submit.{
  RpcHandle, direct_rpc_submit_endpoints, direct_rpc_submit_endpoints_from_ranked_paths,
  order_by_paths, push_endpoint, push_endpoints, push_paths, rank_direct_rpc_submit_paths,
  take_path,
}

abbrev config : EngineConfig Micros
config = record {
  allow_send = true;
  max_pending_age_ms = 500;
  executor_min_buffer_eth = 10_000;
  executor_max_buffer_eth = 5_000_000;
  uses_bundle_relays = false;
  relay_fanout_count = 2;
  rpc_fanout_count = 2;
  builder_relays = [];
  finality_confirmations = 0;
  preflight_enabled = false;
  preflight_is_hard = false;
  fees = record {
    gas_overpay_base_extra_bps = 0;
    gas_overpay_miss_extra_bps = 0;
    gas_overpay_revert_extra_bps = 0;
    gas_overpay_submit_failure_extra_bps = 0;
    gas_overpay_max_extra_bps = 0;
    capital_multiplier_toxicity_threshold = 800_000;
    capital_multiplier_priority_threshold = 700_000;
    max_gas_price_gwei = none;
  };
  limits = record {
    capital_window_secs = 60;
    max_window_exposure_eth = 3_000_000;
    max_cluster_window_exposure_eth = 2_000_000;
    max_pair_window_exposure_eth = 2_000_000;
  };
  stop_loss = record {
    stop_loss_consecutive_losses = 3;
    stop_loss_freeze_secs = 60;
    context_stop_loss_consecutive_losses = 2;
    context_stop_loss_freeze_secs = 120;
  };
}

abbrev node_a : RpcHandle
node_a = record { id = 1; name = "a" }

abbrev payload : Payload Micros
payload = record {
  pair = 5;
  capital_committed_wei = 10 ^ 18;
  expected_profit_wei = 10 ^ 16;
  context_priority_score = 500_000;
  context_toxicity_score = 500_000;
}

abbrev opportunity : Opportunity Micros
opportunity = record {
  victim_tx = 77;
  age_ms = 20;
  cluster = record { router = 1; token_in = 10; token_out = 20; selector = 99 };
  preferred_relay = none;
  execution_payload = some payload;
}

abbrev refusing : List String → List (String × Submission)
refusing [] = []
refusing (path ∷ paths) = (path, refused "nonce too low") ∷ refusing paths

abbrev world : World Micros
world = record {
  wallet_parses = true;
  send_context = some (record { endpoint = node_a; hot_balance = 10 ^ 18; gas_price = 10 });
  preflight = preflight_error;
  rank_for_cluster = λ paths. paths;
  rank_labels = λ paths. paths;
  send_candidates = node_a ∷ [];
  submit_candidates = node_a ∷ [];
  signs = true;
  url_parses = λ url. true;
  join = refusing;
  token = none;
  gate_at = 10 ^ 9;
  reserve_at = 10 ^ 9;
  filter_at = 10 ^ 9;
  settle_at = 2 * 10 ^ 9;
}

abbrev fresh : ExecutionGuard Micros
fresh = record { consecutive_losses = 0; frozen_until = none; context_guards = [] }

abbrev engine : Engine Micros
engine = record {
  budget = [];
  guard = fresh;
  pnl = record {
    daily_pnl_eth = 0;
    realized_profit = 0;
    realized_loss = 0;
    executions = 0;
    failures = 0;
  };
}

abbrev unsigned_world : World Micros
unsigned_world = record world { signs = false }

-- Without a signature the reservation stays.
unsigned_runs : (handle Micros config unsigned_world opportunity engine).0 ≡ failed sign_error
unfolding handle admit first_gate stop_loss_snapshot outer_gate balance_gate preflight_gate
    reserve_and_rank after_reserve check_and_reserve prune window_sum reject_reason_of cluster_eq
    retain_open ranked_submit_paths rank_direct_rpc_submit_paths direct_rpc_submit_endpoints
    push_paths push_endpoints push_endpoint context_stop_loss_snapshot get max_gas_price_wei
    wei_to_eth_f64
unsigned_runs = refl

refused_runs : (handle Micros config world opportunity engine).0 ≡ failed all_submissions_failed
unfolding handle admit first_gate stop_loss_snapshot outer_gate balance_gate preflight_gate
    reserve_and_rank after_reserve check_and_reserve prune window_sum reject_reason_of cluster_eq
    retain_open ranked_submit_paths rank_direct_rpc_submit_paths direct_rpc_submit_endpoints
    push_paths push_endpoints push_endpoint context_stop_loss_snapshot get max_gas_price_wei
    wei_to_eth_f64 settle spawned direct_rpc_submit_endpoints_from_ranked_paths order_by_paths
    take_path
refused_runs = refl

handle_reservation_example :
    Ledger Micros 77
      (handle Micros config world opportunity engine).0
      []
      (handle Micros config world opportunity engine).1.budget
handle_reservation_example = handle_reservation Micros config world opportunity engine

abbrev frozen_engine : Engine Micros
frozen_engine = record engine {
  guard = record fresh { consecutive_losses = 3; frozen_until = some (5 * 10 ^ 9) };
}

handle_frozen_example :
    (reason : SkipReason) × (handle Micros config world opportunity frozen_engine
      ≡ (skipped reason, frozen_engine))
handle_frozen_example =
    handle_frozen Micros config world opportunity frozen_engine (5 * 10 ^ 9) refl (omega arith)

abbrev frozen_context : ExecutionGuard Micros
frozen_context = record fresh {
  context_guards =
      (
        path_key Micros opportunity payload "rpc://a",
        record {
          consecutive_losses = 2;
          frozen_until = some (5 * 10 ^ 9);
          last_event_at = some (10 ^ 9);
          regime_pressure_ewma = 500_000;
        },
      )
      ∷ [];
}

abbrev two_paths : List String
two_paths = "rpc://a" ∷ "rpc://b" ∷ []

open_runs :
    (retain_open Micros
      (2 * 10 ^ 9)
      config.stop_loss
      (path_key Micros opportunity payload)
      two_paths
      frozen_context).0
    ≡ "rpc://b" ∷ []
unfolding retain_open context_stop_loss_snapshot context_snapshot_of decay_context_guard decay_since
    decay_by get insert key_eq
open_runs = refl

retain_open-All_example :
    All
      (Listed Micros
        (2 * 10 ^ 9)
        config.stop_loss
        (path_key Micros opportunity payload)
        two_paths
        (retain_open Micros
          (2 * 10 ^ 9)
          config.stop_loss
          (path_key Micros opportunity payload)
          two_paths
          frozen_context).1)
      (retain_open Micros
        (2 * 10 ^ 9)
        config.stop_loss
        (path_key Micros opportunity payload)
        two_paths
        frozen_context).0
retain_open-All_example =
    retain_open-All Micros (2 * 10 ^ 9) config.stop_loss (path_key Micros opportunity payload)
      two_paths frozen_context

wei_nonneg : (wei : ℕ) → Micros.le (Micros.lit 0 0) (wei_to_eth_f64 Micros wei) ≡ true
wei_nonneg wei = ground arith

empty-IsWithin : IsWithin Micros Micros-AddLaws config.limits engine.budget
unfolding window_sum
empty-IsWithin = record { capitals = tt; total = refl; clusters = λ c. refl; pairs = λ p. refl }

handle-IsWithin_example :
    IsWithin Micros Micros-AddLaws config.limits
      (handle Micros config unsigned_world opportunity engine).1.budget
handle-IsWithin_example =
    handle-IsWithin Micros Micros-AddLaws config unsigned_world opportunity wei_nonneg engine
      empty-IsWithin
