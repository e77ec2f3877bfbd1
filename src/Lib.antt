-- ===== src/Lib.antt =====
-- Verification of the arbitrage runtime: which pending transactions it looks up, what it decodes from
-- their calldata, what it computes about pools, routes, sizes and repayments, how its gates decide, and
-- what its execution engine keeps while it turns opportunities into transactions.
--
-- The program watches pending transactions and admits some of them for a lookup, decodes the swap in
-- one, finds an arbitrage behind it (all in src/mev/runtime.rs), sizes it on the state of the pools
-- (src/mev/amm), builds a flash-loan payload (src/mev/execution/payload_builder.rs), passes it through
-- gates and a micro-batch (src/mev/runtime.rs) and hands it to the execution engine
-- (src/mev/execution/executor.rs). The engine holds three pieces of shared state under locks: the
-- capital budget, the stop-loss guards and the ledger of results. `handle` reads and writes all three:
-- it asks the guards, reserves capital, ranks the submit paths, signs, submits, observes the receipt,
-- releases the reservation and records the result, which may freeze the engine or one of its contexts.
--
-- Files:
--   Lookup         src/mev/runtime.rs before decoding. Lookup/Seen: mark_seen_tx; Lookup/Batch:
--                  MicroBatcher and ranking_score; Lookup/Budget: rpc_lookup_pressure,
--                  effective_pending_lookup_budget_for_mode, pending_lookup_fanout,
--                  classify_candidate_lane, allow_small_scavenger_candidate; Lookup/Backpressure:
--                  PendingLookupBackpressure::should_enqueue; Lookup/Gate:
--                  pre_decode_tx_gate_with_cap, and find_selector of src/mev/decoder/simd.rs
--   Decode         src/mev/runtime.rs from calldata to a SwapSignal. Decode/V3Path: parse_v3_path,
--                  parse_v3_path_segments, encode_v3_path; Decode/Token: the tokens of the ABI and
--                  the searches of them; Decode/Hints: what monitored tokens and amounts in the
--                  bytes suggest; Decode/Universal, Universal/Graph and Decode/Monitored: the
--                  Universal Router, its route graph and the choice of a signal; Decode/Direct and
--                  Decode/Partial: the decoders of one call; Decode/Swap and Swap/Dispatch: calls
--                  within calls and decode_swap_signal
--   Gate           src/mev/runtime.rs on a payload. Gate/Quality: quality_gate_diagnostic,
--                  passes_scavenger_sanity_gate; Gate/Economic:
--                  scavenger_payload_has_economic_edge, scavenger_economic_edge_diagnostic,
--                  scavenger_war_quote_diagnostic; Gate/Ev: ev_gate_diagnostic; Gate/TryScore and
--                  Gate/Preflight: fast_preflight_gate; Gate/GasCap: adaptive_gas_cap_gwei and the
--                  overrides of rejections
--   Amm/V2         src/mev/amm/uniswap_v2.rs: V2PoolState, reserves_for, apply_swap_exact_in,
--                  amount_out_exact_in, price_impact_bps, size_candidates; V2/Scoring:
--                  select_best_size_candidate, sizing_score, find_roi_optimal_input
--   Amm/V3         src/mev/amm/uniswap_v3.rs: V3PoolState, simulate_exact_in,
--                  apply_crossed_tick_liquidity
--   PoolCache      src/mev/cache/pool_cache.rs: get_or_fetch_v2, get_or_fetch_v3
--   Route          src/mev/runtime.rs: quote_v2_runtime_route_exact_in,
--                  quote_v2_runtime_route_impact_bps, route_has_low_liquidity_probe,
--                  scavenger_v2_route_score; src/mev/execution/payload_builder.rs:
--                  quote_v2_route_exact_in; Route/Dedup: dedup_routes, push_unique_address,
--                  dedup_address_path
--   Repayment      src/mev/execution/payload_builder.rs: v2_repayment_amount_in_profit_token,
--                  v3_flash_repayment_wei
--   Executor/Budget    CapitalBudget of src/mev/execution/executor.rs
--   Executor/Pressure  the numbers of a context's guard: contextual_regime_pressure,
--                      contextual_stop_loss_threshold, contextual_freeze_secs, ewma_f64
--   Executor/Guard     ExecutionGuard: record_result, decay_context_guard, stop_loss_snapshot,
--                      context_stop_loss_snapshot
--   Executor/Fees      dynamic_gas_price and the fees of sign_executor_transaction
--   Executor/Submit    direct_rpc_submit_endpoints, direct_rpc_submit_endpoints_from_ranked_paths,
--                      rank_direct_rpc_submit_paths, rank_relays
--   Executor/Observe   observe_realized_pnl, receipt_has_required_confirmations, realized_profit_eth;
--                      PnlTracker of src/mev/pnl/tracker.rs
--   Executor/Handle    ExecutionEngine::handle over all of these: Handle/Types its data, Handle/Gates
--                      and Handle/Admit the steps up to the signature, Handle the submission
--   Rpc                src/rpc.rs: RpcEndpointState, record_success, record_failure,
--                      reserve_selection, decay_failure_counters, prune_burst_reservations
--   Base               shared notation, words, lists, maps, time and floating point
--
-- Conventions. A U256, u64 or u32 is a number, and its saturating operations are written out with
-- their bound. An address, a hash and a selector are numbers; an i32 or I256 is a whole number with a
-- sign. An f64 is a parameter, the record Float of its type and operations; theorems that need laws
-- of it name them as a hypothesis (AddLaws), and Micros, a concrete instance in whole millionths,
-- meets them. The logarithm, floor and the printing of an f64 are the record Printing beside it. An
-- Instant is a number of nanoseconds; an operation that reads the clock takes the instant as an
-- argument, once for each call. A hash map is an association list, with one entry for a key where a
-- theorem says so. A lock is always taken. The cast of an exponent to i32, and a panic of as_u64 on a
-- receipt's gas beyond 64 bits, are not modelled.
--
-- `handle` is a function of the engine's state and of the answers of wallet, providers, relays and
-- preflight; the tasks of a JoinSet are a list of answers in the order in which they end. Calls of
-- several opportunities at once interleave only between the operations on the shared state, which are
-- each under one lock; Executor/Budget/Runs and Executor/Guard/Global state their results for any
-- sequence of those. The loops are by recursion on their lists; the ten rounds of the observation are
-- the number in the code.
--
-- The ABI decoder and parse_ether are arguments, functions without laws; only the termination of
-- decode_swap_signal names a law of the decoder as its hypothesis (Shrinks: a byte string inside decoded
-- arguments is shorter than the arguments). decode_swap_signal recurs on fuel and has a third answer
-- for running out of it; more fuel than the length of the arguments is enough. Sub-plans of the
-- Universal Router nest to the depth of 4 that the code allows. Other hypotheses on floating point are
-- TruncLaws (what the cast of a clamped number gives), CompareLaws (that the comparisons of a number
-- agree) and IsPreorder (that a comparison of scores orders them). A panic of as_u32 on a decoded fee
-- cannot happen, as the decoder gives 24 bits; the one of clamp on an empty range is a missing answer.
--
-- Not modelled: the adaptive policy's statistics (its rankings are arguments), the RPC fleet's choice
-- of endpoints and its classification of error texts, the calls of providers for pending transactions
-- and the queues between threads, validate_payload_ev, the payload builder's encodings, the EVM
-- preflight, storage, dashboard, benchmark, replay, configuration and the Solidity contracts.
pub mod Amm
pub mod Base
pub mod Decode
pub mod Executor
pub mod Gate
pub mod Lookup
pub mod PoolCache
pub mod Repayment
pub mod Route
pub mod Rpc
