-- ===== src/Decode/Consistent/Signal.antt =====
-- Every signal of `decode_swap_signal` is consistent, whatever the decoder of its fields answers.
use arbitrage_runtime.Base.{
  All, All-append, Bool, List, Option, Option-cases, [], contains, false, if◌then◌else◌, inl, inr,
  none, some, suc, true, zero, ℕ, ◌==◌, ◌||◌, ◌∷◌,
}
use arbitrage_runtime.Base.Float.{Float}
use arbitrage_runtime.Base.Holds.{AllSome}
use arbitrage_runtime.Base.Select.{max_by, max_by-All}
use arbitrage_runtime.Decode.Consistent.{Consistent}
use arbitrage_runtime.Decode.Consistent.Direct.{
  algebra-Consistent, candidates-Consistent, deadline-Consistent, exact_eth-Consistent,
  exact_input-Consistent, exact_tokens-Consistent, no_deadline-Consistent, router_swap-Consistent,
  zero_ex-Consistent,
}
use arbitrage_runtime.Decode.Consistent.Nested.{
  Accepts, batch-Consistent, fingerprint-Consistent, if-Accepts, multicall-Consistent,
  of_option-Accepts, or_else-AllSome, safe-Consistent, wrapper-Consistent,
}
use arbitrage_runtime.Decode.Consistent.Partial.{
  eth_for_token-Consistent, guess-Consistent, transit_v2-Consistent, transit_v3-Consistent,
}
use arbitrage_runtime.Decode.Direct.{MonitoredTokenConfig, addresses}
use arbitrage_runtime.Decode.Monitored.{
  decode_universal_router_swap_for_monitored, priced_signals, with_notional,
}
use arbitrage_runtime.Decode.Signal.{
  SwapSignal, aggregator_selector_c3192f1f, algebra_exact_input_single, multicall_bytes,
  multicall_deadline_bytes, polymarket_batch_execute, private_searcher_selector_d00ba30b,
  private_swap_wrapper_2e35732f, safe_exec_transaction, swap_exact_eth_for_tokens,
  swap_exact_eth_for_tokens_supporting_fee, swap_exact_tokens_for_eth,
  swap_exact_tokens_for_eth_supporting_fee, swap_exact_tokens_for_tokens,
  swap_exact_tokens_for_tokens_supporting_fee, transit_exact_input_v2_swap,
  transit_exact_input_v3_swap, uniswap_v3_exact_input_single_no_deadline, universal_router_execute,
  universal_router_execute_no_deadline, v3_exact_input, v3_exact_input_single,
  zero_ex_sell_to_uniswap,
}
use arbitrage_runtime.Decode.Swap.{
  Decoded, Recurse, decode_multicall_nested_swap, decode_safe_exec_transaction_swap,
}
use arbitrage_runtime.Decode.Swap.Dispatch.{
  decode_direct, decode_known_aggregator_partial, decode_nested, decode_swap_signal, direct_or,
  token_order_selectors,
}
use arbitrage_runtime.Decode.Token.{Decoder}

module _ (f : Float) (decode : Decoder) (parse_ether : f.F → Option ℕ)
    (monitored : List (MonitoredTokenConfig f)) where
  with_notional-Consistent :
      (signal : SwapSignal f) (o : Option ℕ)
      → Consistent signal
      → All Consistent (with_notional f parse_ether monitored signal o)
  unfolding with_notional
  with_notional-Consistent signal none h = tt
  with_notional-Consistent signal (some notional_wei) h = (h, tt)

  priced-Consistent :
      (signals : List (SwapSignal f))
      → All Consistent signals
      → All Consistent (priced_signals f parse_ether monitored signals)
  unfolding priced_signals
  priced-Consistent [] h = tt
  priced-Consistent (s ∷ signals) (h, hs) =
      All-append Consistent _ _ (with_notional-Consistent s _ h) (priced-Consistent signals hs)

  max_by-Consistent :
      (greater : SwapSignal f → SwapSignal f → Bool) (signals : List (SwapSignal f))
      → All Consistent signals
      → AllSome Consistent (max_by greater signals)
  max_by-Consistent greater signals h = elim (Option-cases (max_by greater signals)) [
    | inl e ↦ rw e tt
    | inr (s, e) ↦ rw e (max_by-All greater Consistent signals h e)
  ]

  monitored-Consistent :
      (selector router : ℕ) (args : List ℕ)
      → AllSome Consistent (
          decode_universal_router_swap_for_monitored f parse_ether monitored decode selector router
            args)
  unfolding decode_universal_router_swap_for_monitored
  monitored-Consistent selector router args =
      max_by-Consistent _ _
        (priced-Consistent _ (candidates-Consistent f decode selector router args))

  aggregator-Consistent :
      (rec : Recurse f)
      → ((selector router value : ℕ) (args : List ℕ)
          → Accepts Consistent (rec selector router value args))
      → (selector router value : ℕ) (args : List ℕ)
      → Accepts Consistent (
          decode_known_aggregator_partial f decode parse_ether monitored rec selector router value
            args)
  unfolding decode_known_aggregator_partial
  aggregator-Consistent rec inner selector router value args =
      let guess = guess-Consistent f decode (addresses monitored) selector router value args in
      if-Accepts Consistent (selector == transit_exact_input_v3_swap) _ _
        (of_option-Accepts Consistent _ (
          or_else-AllSome Consistent _ _
            (transit_v3-Consistent f decode (addresses monitored) selector router value args)
            (guess _ _)))
        (if-Accepts Consistent (selector == transit_exact_input_v2_swap) _ _
          (of_option-Accepts Consistent _ (
            or_else-AllSome Consistent _ _
              (transit_v2-Consistent f decode (addresses monitored) selector router value args)
              (guess _ _)))
          (if-Accepts Consistent (contains token_order_selectors selector) _ _
            (of_option-Accepts Consistent _ (guess _ _))
            (if-Accepts Consistent (selector == aggregator_selector_c3192f1f) _ _
              (of_option-Accepts Consistent _ (
                or_else-AllSome Consistent _ _
                  (eth_for_token-Consistent f decode (addresses monitored) selector router value
                    args)
                  (guess _ _)))
              (if-Accepts Consistent (selector == private_searcher_selector_d00ba30b) _ _
                (fingerprint-Consistent f decode monitored rec inner selector router value args)
                tt))))

  -- A direct arm, if one is taken.
  abbrev Sound : Option (Option (SwapSignal f)) → Type 0
  Sound none = Unit
  Sound (some o) = AllSome Consistent o

  if-Sound :
      (b : Bool) (o : Option (SwapSignal f)) (rest : Option (Option (SwapSignal f)))
      → AllSome Consistent o
      → Sound rest
      → Sound (if b then some o else rest)
  if-Sound true o rest h k = h
  if-Sound false o rest h k = k

  decode_direct-Sound :
      (selector router value : ℕ) (args : List ℕ)
      → Sound (decode_direct f decode parse_ether monitored selector router value args)
  unfolding decode_direct
  decode_direct-Sound selector router value args =
      if-Sound
        (selector == swap_exact_eth_for_tokens
          || selector == swap_exact_eth_for_tokens_supporting_fee)
        _ _ (exact_eth-Consistent f decode selector router value args)
        (if-Sound
          (selector == swap_exact_tokens_for_tokens
            || selector == swap_exact_tokens_for_eth
            || selector == swap_exact_tokens_for_tokens_supporting_fee
            || selector == swap_exact_tokens_for_eth_supporting_fee)
          _ _ (exact_tokens-Consistent f decode selector router args)
          (if-Sound (selector == v3_exact_input_single) _ _
            (deadline-Consistent f decode selector router args)
            (if-Sound (selector == uniswap_v3_exact_input_single_no_deadline) _ _
              (no_deadline-Consistent f decode selector router args)
              (if-Sound (selector == algebra_exact_input_single) _ _
                (algebra-Consistent f decode selector router args)
                (if-Sound (selector == v3_exact_input) _ _
                  (exact_input-Consistent f decode selector router args)
                  (if-Sound
                    (selector == universal_router_execute
                      || selector == universal_router_execute_no_deadline)
                    _ _
                    (or_else-AllSome Consistent _ _ (monitored-Consistent selector router args)
                      (router_swap-Consistent f decode selector router args))
                    (if-Sound (selector == zero_ex_sell_to_uniswap) _ none
                      (zero_ex-Consistent f decode selector router args) tt)))))))

  direct_or-Consistent :
      (o : Option (Option (SwapSignal f))) (nested : Decoded (SwapSignal f))
      → Sound o
      → Accepts Consistent nested
      → Accepts Consistent (direct_or f decode parse_ether monitored o nested)
  unfolding direct_or
  direct_or-Consistent none nested h k = k
  direct_or-Consistent (some o) nested h k = of_option-Accepts Consistent o h

  -- Whatever the ABI decoder answers, the path and the kind of every signal that a call decodes to, also
  -- through inner calls and by partial decoders, agree: a V3 signal has a path of two tokens, carries the
  -- encoding of one pool from the second token back to the first with the signal's fee, and has at least
  -- one hop, exactly one for an exact output.
  pub decode_swap_signal-Consistent :
      (fuel selector router value : ℕ) (args : List ℕ)
      → Accepts Consistent
          (decode_swap_signal f decode parse_ether monitored fuel selector router value args)
  unfolding decode_swap_signal decode_nested decode_safe_exec_transaction_swap
      decode_multicall_nested_swap
  decode_swap_signal-Consistent zero selector router value args = tt
  decode_swap_signal-Consistent (suc fuel) selector router value args =
      let rec = decode_swap_signal f decode parse_ether monitored fuel in
      let inner = decode_swap_signal-Consistent fuel in
      direct_or-Consistent _ _ (decode_direct-Sound selector router value args) (
        if-Accepts Consistent (selector == safe_exec_transaction) _ _
          (safe-Consistent f decode monitored rec inner _)
          (if-Accepts Consistent
            (selector == multicall_bytes || selector == multicall_deadline_bytes) _ _
            (multicall-Consistent f decode monitored rec inner selector router value args _)
            (if-Accepts Consistent (selector == private_swap_wrapper_2e35732f) _ _
              (wrapper-Consistent f decode monitored rec inner selector router value args)
              (if-Accepts Consistent (selector == polymarket_batch_execute) _ _
                (batch-Consistent f decode monitored rec inner selector router value args)
                (aggregator-Consistent rec inner selector router value args)))))
