-- ===== src/Decode/Swap.antt =====
-- `decode_swap_signal` of src/mev/runtime.rs: the choice of a decoder by the selector, and the decoders
-- that decode calls inside the call. `rec` is `decode_swap_signal` itself, on less fuel: selector, router,
-- value and arguments.
use Prim.Native.String.{String}
use arbitrage_runtime.Base.{
  List, Option, [], contains, if◌then◌else◌, none, not, some, ℕ, ◌==◌, ◌>>=◌, ◌∷◌,
}
use arbitrage_runtime.Base.Bytes.{be_value}
use arbitrage_runtime.Base.Float.{Float}
use arbitrage_runtime.Decode.Direct.{MonitoredTokenConfig, addresses}
use arbitrage_runtime.Decode.Partial.{
  decode_partial_swap_from_monitored_tokens, decode_safe_inner_aggregator_partial,
}
use arbitrage_runtime.Decode.Signal.{
  SwapSignal, algebra_exact_input_single, multicall_bytes, swap_exact_tokens_for_tokens,
  swap_exact_tokens_for_tokens_supporting_fee, uniswap_v3_exact_input_single_no_deadline,
  v3_exact_input_single,
}
use arbitrage_runtime.Decode.Token.{
  Decoder, ParamType, Token, address_type, array_type, bytes_type, field, params_of,
  path_contains_monitored_token, token_as_address, token_as_array, token_as_bytes, token_as_tuple,
  token_as_uint, tokens_list, tuple_type, uint_type,
}
pub mod Dispatch
pub mod Shorter
pub mod Termination

-- `found` and `rejected` are the code's `Some` and `None`; `out_of_fuel` is no answer of the code.
pub data Decoded {ℓ} (A : Type ℓ) : Type ℓ where
  out_of_fuel : Decoded A
  rejected : Decoded A
  found : A → Decoded A

unfoldable pub of_option {ℓ} : {A : Type ℓ} → Option A → Decoded A
of_option none = rejected
of_option (some a) = found a

-- `or_else`.
unfoldable pub otherwise {ℓ} : {A : Type ℓ} → Decoded A → Decoded A → Decoded A
otherwise out_of_fuel y = out_of_fuel
otherwise rejected y = y
otherwise (found a) y = found a

-- The selector in the first four bytes, and the rest.
unfoldable pub split_selector : List ℕ → Option (ℕ × List ℕ)
split_selector (a ∷ b ∷ c ∷ d ∷ rest) = some (be_value (a ∷ b ∷ c ∷ d ∷ []), rest)
split_selector _ = none

abbrev pub child_selectors : List ℕ
child_selectors =
    v3_exact_input_single ∷ uniswap_v3_exact_input_single_no_deadline ∷ algebra_exact_input_single
    ∷ swap_exact_tokens_for_tokens ∷ swap_exact_tokens_for_tokens_supporting_fee ∷ []

abbrev pub safe_params : List ParamType
safe_params =
    address_type
    ∷ uint_type 256
    ∷ bytes_type
    ∷ uint_type 8
    ∷ uint_type 256
    ∷ uint_type 256
    ∷ uint_type 256
    ∷ address_type
    ∷ address_type
    ∷ bytes_type
    ∷ []

abbrev pub batch_params : List ParamType
batch_params =
    array_type (tuple_type (params_of (address_type ∷ uint_type 256 ∷ bytes_type ∷ []))) ∷ []

-- One call inside another: the target, the value, the selector and the arguments.
pub record Call : Type 0 where
  pub target : ℕ
  pub value : ℕ
  pub selector : ℕ
  pub args : List ℕ

abbrev or_no_value : Option ℕ → ℕ
or_no_value none = 0
or_no_value (some n) = n

abbrev pub or_empty {ℓ} : {A : Type ℓ} → Option (List A) → List A
or_empty none = []
or_empty (some xs) = xs

-- A call of a multicall goes to the same router with the same value.
unfoldable pub multicall_call : ℕ → ℕ → Token → Option Call
multicall_call router value t = do
  calldata ← token_as_bytes t
  (selector, args) ← split_selector calldata
  some (record { target = router; value = value; selector = selector; args = args })

unfoldable pub batch_call : Token → Option Call
batch_call t = do
  fields ← token_as_tuple t
  target ← field (tokens_list fields) 0 token_as_address
  calldata ← field (tokens_list fields) 2 token_as_bytes
  (selector, args) ← split_selector calldata
  some (record {
    target = target;
    value = or_no_value (field (tokens_list fields) 1 token_as_uint);
    selector = selector;
    args = args;
  })

unfoldable pub multicall_calls : Decoder → ℕ → List ℕ → Option (List Token)
multicall_calls decode selector args =
    if selector == multicall_bytes
    then (decode (array_type bytes_type ∷ []) args >>= λ decoded. field decoded 0 token_as_array)
    else (decode (uint_type 256 ∷ array_type bytes_type ∷ []) args >>= λ decoded.
        field decoded 1 token_as_array)

unfoldable pub batch_calls : Decoder → List ℕ → List Token
batch_calls decode args =
    or_empty (decode batch_params args >>= λ decoded. field decoded 0 token_as_array)

-- The call that a Safe executes, where it is no delegate call.
unfoldable pub safe_call : Decoder → List ℕ → Option Call
safe_call decode args = do
  decoded ← decode safe_params args
  target ← field decoded 0 token_as_address
  value ← field decoded 1 token_as_uint
  inner ← field decoded 2 token_as_bytes
  operation ← field decoded 3 token_as_uint
  (selector, rest) ← (if not (operation == 0) then none else split_selector inner)
  some (record { target = target; value = value; selector = selector; args = rest })

module _ (f : Float) where
  abbrev pub Recurse : Type 0
  Recurse = ℕ → ℕ → ℕ → List ℕ → Decoded (SwapSignal f)

  module _ (decode : Decoder) (monitored : List (MonitoredTokenConfig f)) where
    -- What a wrapper writes into the signal of an inner call.
    unfoldable pub relabel : ℕ → f.F → String → Decoded (SwapSignal f) → Decoded (SwapSignal f)
    relabel selector cap source out_of_fuel = out_of_fuel
    relabel selector cap source rejected = rejected
    relabel selector cap source (found signal) = found (record signal {
      selector = selector;
      decode_confidence = f.min_f64 signal.decode_confidence cap;
      decode_source = source;
    })

    unfoldable pub decode_call : Recurse → Option Call → Decoded (SwapSignal f)
    decode_call rec none = rejected
    decode_call rec (some call) = rec call.selector call.target call.value call.args

    -- The first signal of a list of calls.
    unfoldable pub first_signal :
        Recurse → (Token → Option Call) → List Token → Decoded (SwapSignal f)
    first_signal rec read [] = rejected
    first_signal rec read (t ∷ ts) = otherwise (decode_call rec (read t)) (first_signal rec read ts)

    -- A signal of the scan counts where its path has a monitored token.
    unfoldable pub if_monitored : Decoded (SwapSignal f) → Decoded (SwapSignal f)
    if_monitored out_of_fuel = out_of_fuel
    if_monitored rejected = rejected
    if_monitored (found signal) =
        if path_contains_monitored_token signal.path (addresses monitored)
        then found signal
        else rejected

    unfoldable pub scan_here : Recurse → ℕ → ℕ → Option (ℕ × List ℕ) → Decoded (SwapSignal f)
    scan_here rec router value none = rejected
    scan_here rec router value (some (selector, rest)) =
        if contains child_selectors selector
        then if_monitored (rec selector router value rest)
        else rejected

    -- The scan of the calldata, byte by byte, for the selector of a call.
    unfoldable pub decode_nested_swap_from_calldata :
        Recurse → ℕ → ℕ → List ℕ → Decoded (SwapSignal f)
    decode_nested_swap_from_calldata rec router value [] = rejected
    decode_nested_swap_from_calldata rec router value (b ∷ input) =
        otherwise (scan_here rec router value (split_selector (b ∷ input)))
          (decode_nested_swap_from_calldata rec router value input)

    unfoldable pub after_safe_call : Recurse → Option Call → Decoded (SwapSignal f)
    after_safe_call rec none = rejected
    after_safe_call rec (some call) =
        otherwise (rec call.selector call.target call.value call.args) (
          of_option (
            decode_safe_inner_aggregator_partial f decode (addresses monitored) call.selector
              call.target call.value call.args))

    unfoldable pub decode_safe_exec_transaction_swap : Recurse → List ℕ → Decoded (SwapSignal f)
    decode_safe_exec_transaction_swap rec args = after_safe_call rec (safe_call decode args)

    unfoldable pub after_multicall :
        Recurse → ℕ → ℕ → ℕ → List ℕ → Option (List Token) → Decoded (SwapSignal f)
    after_multicall rec selector router value args none = rejected
    after_multicall rec selector router value args (some calls) =
        otherwise
          (relabel selector (f.lit 92 2) "multicall_nested"
            (first_signal rec (multicall_call router value) calls))
          (relabel selector (f.lit 68 2) "multicall_selector_scan"
            (decode_nested_swap_from_calldata rec router value args))

    unfoldable pub decode_multicall_nested_swap :
        Recurse → ℕ → ℕ → ℕ → List ℕ → Decoded (SwapSignal f)
    decode_multicall_nested_swap rec selector router value args =
        after_multicall rec selector router value args (multicall_calls decode selector args)

    unfoldable pub decode_private_swap_wrapper :
        Recurse → ℕ → ℕ → ℕ → List ℕ → Decoded (SwapSignal f)
    decode_private_swap_wrapper rec selector router value args =
        relabel selector (f.lit 88 2) "private_swap_wrapper_nested"
          (decode_nested_swap_from_calldata rec router value args)

    unfoldable pub decode_batch_execute_nested_swap :
        Recurse → ℕ → ℕ → ℕ → List ℕ → Decoded (SwapSignal f)
    decode_batch_execute_nested_swap rec selector router value args =
        otherwise
          (relabel selector (f.lit 82 2) "batch_execute_nested"
            (first_signal rec batch_call (batch_calls decode args)))
          (relabel selector (f.lit 58 2) "batch_execute_selector_scan"
            (decode_nested_swap_from_calldata rec router value args))

    unfoldable pub decode_private_searcher_fingerprint :
        Recurse → ℕ → ℕ → ℕ → List ℕ → Decoded (SwapSignal f)
    decode_private_searcher_fingerprint rec selector router value args =
        otherwise
          (relabel selector (f.lit 62 2) "private_searcher_nested_fingerprint"
            (decode_nested_swap_from_calldata rec router value args))
          (of_option (
            decode_partial_swap_from_monitored_tokens f decode (addresses monitored) selector router
              value args (f.lit 42 2) "private_searcher_token_fingerprint"))
