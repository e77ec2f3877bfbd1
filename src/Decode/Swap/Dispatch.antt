-- ===== src/Decode/Swap/Dispatch.antt =====
-- The match on the selector in `decode_swap_signal` and in `decode_known_aggregator_partial`
-- (src/mev/runtime.rs), and the recursion.
use Prim.Native.String.{String}
use arbitrage_runtime.Base.{
  List, Option, [], contains, if◌then◌else◌, none, some, suc, zero, ℕ, ◌==◌, ◌||◌, ◌∷◌,
}
use arbitrage_runtime.Base.Float.{Float}
use arbitrage_runtime.Decode.Direct.{
  MonitoredTokenConfig, addresses, decode_algebra_exact_input_single, decode_exact_eth,
  decode_exact_tokens, decode_universal_router_swap, decode_v3_exact_input,
  decode_v3_exact_input_single_no_deadline, decode_v3_exact_input_single_with_deadline,
  decode_zero_ex_sell_to_uniswap,
}
use arbitrage_runtime.Decode.Monitored.{decode_universal_router_swap_for_monitored}
use arbitrage_runtime.Decode.Partial.{
  decode_partial_swap_from_monitored_tokens, decode_swap_exact_eth_for_token_partial,
  decode_transit_v5_v2_partial, decode_transit_v5_v3_partial,
}
use arbitrage_runtime.Decode.Signal.{
  SwapSignal, aggregator_selector_0060ea13, aggregator_selector_0a2b8f36,
  aggregator_selector_448e340e, aggregator_selector_9265bb9d, aggregator_selector_c3192f1f,
  algebra_exact_input_single, multicall_bytes, multicall_deadline_bytes, polymarket_batch_execute,
  private_searcher_selector_d00ba30b, private_swap_wrapper_2e35732f, safe_exec_transaction,
  swap_exact_eth_for_tokens, swap_exact_eth_for_tokens_supporting_fee, swap_exact_tokens_for_eth,
  swap_exact_tokens_for_eth_supporting_fee, swap_exact_tokens_for_tokens,
  swap_exact_tokens_for_tokens_supporting_fee, transit_exact_input_v2_swap,
  transit_exact_input_v3_swap, transit_swap_v5, uniswap_v3_exact_input_single_no_deadline,
  universal_router_execute, universal_router_execute_no_deadline, v3_exact_input,
  v3_exact_input_single, zero_ex_sell_to_uniswap,
}
use arbitrage_runtime.Decode.Swap.{
  Decoded, Recurse, decode_batch_execute_nested_swap, decode_multicall_nested_swap,
  decode_private_searcher_fingerprint, decode_private_swap_wrapper,
  decode_safe_exec_transaction_swap, of_option, out_of_fuel, rejected,
}
use arbitrage_runtime.Decode.Token.{Decoder, or_else}

abbrev pub token_order_selectors : List ℕ
token_order_selectors =
    transit_swap_v5 ∷ aggregator_selector_0a2b8f36 ∷ aggregator_selector_0060ea13
    ∷ aggregator_selector_448e340e ∷ aggregator_selector_9265bb9d ∷ []

module _ (f : Float) (decode : Decoder) (parse_ether : f.F → Option ℕ) where
  module _ (monitored : List (MonitoredTokenConfig f)) where
    abbrev pub partial_swap : ℕ → ℕ → ℕ → List ℕ → f.F → String → Option (SwapSignal f)
    partial_swap = decode_partial_swap_from_monitored_tokens f decode (addresses monitored)

    unfoldable pub decode_known_aggregator_partial :
        Recurse f → ℕ → ℕ → ℕ → List ℕ → Decoded (SwapSignal f)
    decode_known_aggregator_partial rec selector router value args =
        if selector == transit_exact_input_v3_swap
        then of_option (
            or_else
              (decode_transit_v5_v3_partial f decode (addresses monitored) selector router value
                args)
              (partial_swap selector router value args (f.lit 45 2)
                "transit_v5_token_order_partial"))
        else if selector == transit_exact_input_v2_swap
        then of_option (
            or_else
              (decode_transit_v5_v2_partial f decode (addresses monitored) selector router value
                args)
              (partial_swap selector router value args (f.lit 52 2)
                "transit_v5_v2_token_order_partial"))
        else if contains token_order_selectors selector
        then of_option (partial_swap selector router value args (f.lit 35 2) "token_order_partial")
        else if selector == aggregator_selector_c3192f1f
        then of_option (
            or_else
              (decode_swap_exact_eth_for_token_partial f decode (addresses monitored) selector
                router value args)
              (partial_swap selector router value args (f.lit 35 2) "token_order_partial"))
        else if selector == private_searcher_selector_d00ba30b
        then decode_private_searcher_fingerprint f decode monitored rec selector router value args
        else rejected

    -- The arms that look at no inner call, and `none` for the others.
    unfoldable pub decode_direct : ℕ → ℕ → ℕ → List ℕ → Option (Option (SwapSignal f))
    decode_direct selector router value args =
        if selector == swap_exact_eth_for_tokens
          || selector == swap_exact_eth_for_tokens_supporting_fee
        then some (decode_exact_eth f decode selector router value args)
        else if selector == swap_exact_tokens_for_tokens
            || selector == swap_exact_tokens_for_eth
            || selector == swap_exact_tokens_for_tokens_supporting_fee
            || selector == swap_exact_tokens_for_eth_supporting_fee
        then some (decode_exact_tokens f decode selector router args)
        else if selector == v3_exact_input_single
        then some (decode_v3_exact_input_single_with_deadline f decode selector router args)
        else if selector == uniswap_v3_exact_input_single_no_deadline
        then some (decode_v3_exact_input_single_no_deadline f decode selector router args)
        else if selector == algebra_exact_input_single
        then some (decode_algebra_exact_input_single f decode selector router args)
        else if selector == v3_exact_input
        then some (decode_v3_exact_input f decode selector router args)
        else if selector == universal_router_execute
            || selector == universal_router_execute_no_deadline
        then some (
            or_else
              (decode_universal_router_swap_for_monitored f parse_ether monitored decode selector
                router args)
              (decode_universal_router_swap f decode selector router args))
        else if selector == zero_ex_sell_to_uniswap
        then some (decode_zero_ex_sell_to_uniswap f decode selector router args)
        else none

    unfoldable pub decode_nested : Recurse f → ℕ → ℕ → ℕ → List ℕ → Decoded (SwapSignal f)
    decode_nested rec selector router value args =
        if selector == safe_exec_transaction
        then decode_safe_exec_transaction_swap f decode monitored rec args
        else if selector == multicall_bytes || selector == multicall_deadline_bytes
        then decode_multicall_nested_swap f decode monitored rec selector router value args
        else if selector == private_swap_wrapper_2e35732f
        then decode_private_swap_wrapper f decode monitored rec selector router value args
        else if selector == polymarket_batch_execute
        then decode_batch_execute_nested_swap f decode monitored rec selector router value args
        else decode_known_aggregator_partial rec selector router value args

    unfoldable pub direct_or :
        Option (Option (SwapSignal f)) → Decoded (SwapSignal f) → Decoded (SwapSignal f)
    direct_or none nested = nested
    direct_or (some signal) nested = of_option signal

    unfoldable pub decode_swap_signal : ℕ → Recurse f
    decode_swap_signal zero selector router value args = out_of_fuel
    decode_swap_signal (suc fuel) selector router value args =
        direct_or (decode_direct selector router value args)
          (decode_nested (decode_swap_signal fuel) selector router value args)
