-- ===== src/Decode/Swap/Termination.antt =====
-- `decode_swap_signal` ends: fuel above the length of the arguments is enough.
use Prim.Native.String.{String}
use arbitrage_runtime.Base.{
  All, Bool, List, Option, [], arith, contains, false, if◌then◌else◌, length, none, some, suc, true,
  zero, ℕ, ◌<◌, ◌==◌, ◌||◌, ◌∷◌, ◌≤◌,
}
use arbitrage_runtime.Base.Float.{Float}
use arbitrage_runtime.Base.Holds.{AllSome, AllSome-weaken}
use arbitrage_runtime.Decode.Direct.{MonitoredTokenConfig, addresses}
use arbitrage_runtime.Decode.Signal.{
  SwapSignal, aggregator_selector_c3192f1f, multicall_bytes, multicall_deadline_bytes,
  polymarket_batch_execute, private_searcher_selector_d00ba30b, private_swap_wrapper_2e35732f,
  safe_exec_transaction, transit_exact_input_v2_swap, transit_exact_input_v3_swap,
}
use arbitrage_runtime.Decode.Swap.{
  Call, Decoded, Recurse, after_multicall, after_safe_call, batch_call, batch_calls,
  child_selectors, decode_batch_execute_nested_swap, decode_call, decode_multicall_nested_swap,
  decode_nested_swap_from_calldata, decode_private_searcher_fingerprint,
  decode_private_swap_wrapper, decode_safe_exec_transaction_swap, first_signal, found, if_monitored,
  multicall_call, multicall_calls, of_option, otherwise, out_of_fuel, rejected, relabel, safe_call,
  scan_here, split_selector,
}
use arbitrage_runtime.Decode.Swap.Dispatch.{
  decode_known_aggregator_partial, decode_nested, decode_swap_signal, direct_or,
  token_order_selectors,
}
use arbitrage_runtime.Decode.Swap.Shorter.{
  Fits, Shrinks, Within, batch_call-Fits, batch_calls-Within, multicall_call-Fits,
  multicall_calls-Within, safe_call-Fits, split_selector-shorter,
}
use arbitrage_runtime.Decode.Token.{Decoder, Token, path_contains_monitored_token}

abbrev pub Finished {ℓ} : {A : Type ℓ} → Decoded A → Type 0
Finished out_of_fuel = ⊥
Finished rejected = Unit
Finished (found a) = Unit

otherwise-Finished {ℓ} :
    {A : Type ℓ} (x y : Decoded A) → Finished x → Finished y → Finished (otherwise x y)
unfolding otherwise
otherwise-Finished out_of_fuel y h k = h
otherwise-Finished rejected y h k = k
otherwise-Finished (found a) y h k = tt

of_option-Finished {ℓ} : {A : Type ℓ} (o : Option A) → Finished (of_option o)
unfolding of_option
of_option-Finished none = tt
of_option-Finished (some a) = tt

if-Finished {ℓ} :
    {A : Type ℓ} (b : Bool) (x y : Decoded A)
    → Finished x
    → Finished y
    → Finished (if b then x else y)
if-Finished true x y h k = h
if-Finished false x y h k = k

module _ (f : Float) (decode : Decoder) (monitored : List (MonitoredTokenConfig f)) where
  relabel-Finished :
      (selector : ℕ) (cap : f.F) (source : String) (o : Decoded (SwapSignal f))
      → Finished o
      → Finished (relabel f decode monitored selector cap source o)
  unfolding relabel
  relabel-Finished selector cap source out_of_fuel h = h
  relabel-Finished selector cap source rejected h = tt
  relabel-Finished selector cap source (found s) h = tt

  if_monitored-Finished :
      (o : Decoded (SwapSignal f)) → Finished o → Finished (if_monitored f decode monitored o)
  unfolding if_monitored
  if_monitored-Finished out_of_fuel h = h
  if_monitored-Finished rejected h = tt
  if_monitored-Finished (found s) h =
      if-Finished (path_contains_monitored_token s.path (addresses monitored)) (found s) rejected tt
        tt

  -- The decoder answers on arguments of fewer bytes.
  module _ (n : ℕ) (rec : Recurse f)
      (answers : (selector router value : ℕ) (args : List ℕ)
        → length args < n
        → Finished (rec selector router value args)) where
    decode_call-Finished :
        (o : Option Call) → AllSome (Fits n) o → Finished (decode_call f decode monitored rec o)
    unfolding decode_call
    decode_call-Finished none h = tt
    decode_call-Finished (some call) h = answers call.selector call.target call.value call.args h

    first_signal-Finished :
        (read : Token → Option Call)
        → ((t : Token) → Within n t → AllSome (Fits n) (read t))
        → (ts : List Token) → All (Within n) ts
        → Finished (first_signal f decode monitored rec read ts)
    unfolding first_signal
    first_signal-Finished read k [] h = tt
    first_signal-Finished read k (t ∷ ts) (h, hs) =
        otherwise-Finished (decode_call f decode monitored rec (read t))
          (first_signal f decode monitored rec read ts) (decode_call-Finished (read t) (k t h))
          (first_signal-Finished read k ts hs)

    scan_here-Finished :
        (router value : ℕ) (o : Option (ℕ × List ℕ))
        → AllSome (λ s. length s.1 < n) o
        → Finished (scan_here f decode monitored rec router value o)
    unfolding scan_here
    scan_here-Finished router value none h = tt
    scan_here-Finished router value (some (selector, rest)) h =
        if-Finished (contains child_selectors selector)
          (if_monitored f decode monitored (rec selector router value rest)) rejected
          (if_monitored-Finished (rec selector router value rest)
            (answers selector router value rest h))
          tt

    nested-Finished :
        (router value : ℕ) (input : List ℕ)
        → length input ≤ n
        → Finished (decode_nested_swap_from_calldata f decode monitored rec router value input)
    unfolding decode_nested_swap_from_calldata
    nested-Finished router value [] h = tt
    nested-Finished router value (b ∷ input) h =
        otherwise-Finished
          (scan_here f decode monitored rec router value (split_selector (b ∷ input)))
          (decode_nested_swap_from_calldata f decode monitored rec router value input)
          (scan_here-Finished router value (split_selector (b ∷ input)) (
            AllSome-weaken (λ s. length s.1 < length (b ∷ input)) (λ s. length s.1 < n)
              (split_selector (b ∷ input)) (split_selector-shorter (b ∷ input))
              (λ s less. omega arith)))
          (nested-Finished router value input (omega arith))

    safe-Finished :
        (o : Option Call) → AllSome (Fits n) o → Finished (after_safe_call f decode monitored rec o)
    unfolding after_safe_call
    safe-Finished none h = tt
    safe-Finished (some call) h =
        otherwise-Finished (rec call.selector call.target call.value call.args) _
          (answers call.selector call.target call.value call.args h) (of_option-Finished _)

    multicall-Finished :
        (selector router value : ℕ) (args : List ℕ) (o : Option (List Token))
        → length args ≤ n
        → AllSome (All (Within n)) o
        → Finished (after_multicall f decode monitored rec selector router value args o)
    unfolding after_multicall
    multicall-Finished selector router value args none h k = tt
    multicall-Finished selector router value args (some calls) h k =
        otherwise-Finished _ _
          (relabel-Finished selector (f.lit 92 2) "multicall_nested" _ (
            first_signal-Finished (multicall_call router value) (multicall_call-Fits n router value)
              calls k))
          (relabel-Finished selector (f.lit 68 2) "multicall_selector_scan" _
            (nested-Finished router value args h))

    wrapper-Finished :
        (selector router value : ℕ) (args : List ℕ)
        → length args ≤ n
        → Finished (decode_private_swap_wrapper f decode monitored rec selector router value args)
    unfolding decode_private_swap_wrapper
    wrapper-Finished selector router value args h =
        relabel-Finished selector (f.lit 88 2) "private_swap_wrapper_nested" _
          (nested-Finished router value args h)

    fingerprint-Finished :
        (selector router value : ℕ) (args : List ℕ)
        → length args ≤ n
        → Finished
            (decode_private_searcher_fingerprint f decode monitored rec selector router value args)
    unfolding decode_private_searcher_fingerprint
    fingerprint-Finished selector router value args h =
        otherwise-Finished _ _
          (relabel-Finished selector (f.lit 62 2) "private_searcher_nested_fingerprint" _
            (nested-Finished router value args h))
          (of_option-Finished _)

    batch-Finished :
        (selector router value : ℕ) (args : List ℕ)
        → length args ≤ n
        → All (Within n) (batch_calls decode args)
        → Finished
            (decode_batch_execute_nested_swap f decode monitored rec selector router value args)
    unfolding decode_batch_execute_nested_swap
    batch-Finished selector router value args h k =
        otherwise-Finished _ _
          (relabel-Finished selector (f.lit 82 2) "batch_execute_nested" _
            (first_signal-Finished batch_call (batch_call-Fits n) (batch_calls decode args) k))
          (relabel-Finished selector (f.lit 58 2) "batch_execute_selector_scan" _
            (nested-Finished router value args h))

    aggregator-Finished :
        (parse_ether : f.F → Option ℕ) (selector router value : ℕ) (args : List ℕ)
        → length args ≤ n
        → Finished (
            decode_known_aggregator_partial f decode parse_ether monitored rec selector router value
              args)
    unfolding decode_known_aggregator_partial
    aggregator-Finished parse_ether selector router value args h =
        if-Finished (selector == transit_exact_input_v3_swap) _ _ (of_option-Finished _) (
          if-Finished (selector == transit_exact_input_v2_swap) _ _ (of_option-Finished _) (
            if-Finished (contains token_order_selectors selector) _ _ (of_option-Finished _) (
              if-Finished (selector == aggregator_selector_c3192f1f) _ _ (of_option-Finished _) (
                if-Finished (selector == private_searcher_selector_d00ba30b) _ _
                  (fingerprint-Finished selector router value args h) tt))))

module _ (f : Float) (decode : Decoder) (parse_ether : f.F → Option ℕ)
    (monitored : List (MonitoredTokenConfig f)) where
  direct_or-Finished :
      (o : Option (Option (SwapSignal f))) (nested : Decoded (SwapSignal f))
      → Finished nested
      → Finished (direct_or f decode parse_ether monitored o nested)
  unfolding direct_or
  direct_or-Finished none nested h = h
  direct_or-Finished (some signal) nested h = of_option-Finished signal

  -- Where the byte strings of decoded arguments are shorter than the arguments, decoding a call with fuel
  -- above the length of its arguments does not run out of fuel: it answers with a signal or with none.
  pub decode_swap_signal-Finished :
      Shrinks decode
      → (fuel selector router value : ℕ) (args : List ℕ) → length args < fuel
      → Finished (decode_swap_signal f decode parse_ether monitored fuel selector router value args)
  unfolding decode_swap_signal decode_nested decode_safe_exec_transaction_swap
      decode_multicall_nested_swap
  decode_swap_signal-Finished shrinks zero selector router value args h = absurd (omega arith)
  decode_swap_signal-Finished shrinks (suc fuel) selector router value args h =
      let rec = decode_swap_signal f decode parse_ether monitored fuel in
      let n = length args in
      let answers : (s r v : ℕ) (inner : List ℕ) → length inner < n → Finished (rec s r v inner) =
        λ s r v inner less. decode_swap_signal-Finished shrinks fuel s r v inner (omega arith) in
      direct_or-Finished _ _ (
        if-Finished (selector == safe_exec_transaction) _ _
          (safe-Finished f decode monitored n rec answers (safe_call decode args)
            (safe_call-Fits decode shrinks args))
          (if-Finished (selector == multicall_bytes || selector == multicall_deadline_bytes) _ _
            (multicall-Finished f decode monitored n rec answers selector router value args
              (multicall_calls decode selector args) (omega arith)
              (multicall_calls-Within decode shrinks selector args))
            (if-Finished (selector == private_swap_wrapper_2e35732f) _ _
              (wrapper-Finished f decode monitored n rec answers selector router value args
                (omega arith))
              (if-Finished (selector == polymarket_batch_execute) _ _
                (batch-Finished f decode monitored n rec answers selector router value args
                  (omega arith) (batch_calls-Within decode shrinks args))
                (aggregator-Finished f decode monitored n rec answers parse_ether selector router
                  value args (omega arith))))))
