-- ===== src/Decode/Partial.antt =====
-- Partial decoders (src/mev/runtime.rs): a swap guessed from the monitored tokens, the amounts and the
-- paths that the calldata of an aggregator shows.
use Prim.Native.String.{String}
use arbitrage_runtime.Base.{
  Bool, List, Option, [], contains, false, get_elem?, if◌then◌else◌, length, ltb, max, none, not,
  some, true, ℕ, ◌++◌, ◌==◌, ◌>>=◌, ◌||◌, ◌∷◌,
}
use arbitrage_runtime.Base.Float.{Float}
use arbitrage_runtime.Decode.Direct.{first_tuple, one_tuple}
use arbitrage_runtime.Decode.Hints.{
  amount_hint_from_calldata, monitored_token_addresses_in_input, partial_path_from_monitored_tokens,
}
use arbitrage_runtime.Decode.Signal.{
  SwapSignal, safe_inner_selector_8cc7104f, safe_inner_selector_9e7212ad, v2_kind, v3_kind,
}
use arbitrage_runtime.Decode.Token.{
  Decoder, ParamType, address_type, array_type, bytes_type, field, params_of,
  path_contains_monitored_token, string_type, token_as_address, token_as_bytes, token_as_uint,
  token_tree_find_address_path, token_tree_find_v3_path_bytes, tuple_type, uint_type,
}
use arbitrage_runtime.Decode.V3Path.{
  ParsedV3Path, V3PathSegment, encode_v3_path, parse_v3_path, parse_v3_path_segments,
}
use arbitrage_runtime.Route.Dedup.{dedup_address_path}

abbrev pub exact_eth_for_token_params : List ParamType
exact_eth_for_token_params =
    uint_type 256 ∷ uint_type 256 ∷ address_type ∷ address_type ∷ bytes_type ∷ uint_type 256 ∷ []

abbrev pub transit_v3_params : List ParamType
transit_v3_params = one_tuple (
    address_type
    ∷ address_type
    ∷ address_type
    ∷ address_type
    ∷ uint_type 256
    ∷ uint_type 256
    ∷ uint_type 256
    ∷ uint_type 256
    ∷ array_type (uint_type 256)
    ∷ bytes_type
    ∷ string_type
    ∷ [])

abbrev pub transit_v2_params : List ParamType
transit_v2_params =
    tuple_type (
      params_of (
        address_type
        ∷ address_type
        ∷ uint_type 256
        ∷ uint_type 256
        ∷ uint_type 256
        ∷ uint_type 256
        ∷ array_type address_type
        ∷ array_type address_type
        ∷ bytes_type
        ∷ string_type
        ∷ []))
    ∷ uint_type 256
    ∷ []

-- `unwrap_or_else(U256::one)`.
abbrev or_one : Option ℕ → ℕ
or_one none = 1
or_one (some n) = n

-- The value of the call where there is one, else the amount that the calldata hints at.
unfoldable pub hinted_amount : ℕ → List ℕ → ℕ
hinted_amount value args = if ltb 0 value then value else or_one (amount_hint_from_calldata args)

-- `!path.contains(&token_out)`, then `dedup_address_path`.
unfoldable pub path_with_out : List ℕ → ℕ → List ℕ
path_with_out path token_out =
    dedup_address_path (if contains path token_out then path else path ++ (token_out ∷ []))

-- The tokens of the first segment, else those of the parsed path.
unfoldable pub first_tokens : Option V3PathSegment → ParsedV3Path → List ℕ
first_tokens none parsed = parsed.token_in ∷ parsed.edge_token_out ∷ []
first_tokens (some segment) parsed = segment.token_in ∷ segment.token_out ∷ []

unfoldable pub short_or_same : List ℕ → Bool
short_or_same [] = true
short_or_same (a ∷ []) = true
short_or_same (a ∷ b ∷ path) = a == b

module _ (f : Float) (decode : Decoder) (monitored : List ℕ) where
  unfoldable pub guessed_signal : ℕ → ℕ → ℕ → Option ℕ → List ℕ → f.F → String → SwapSignal f
  guessed_signal selector router amount_in amount_out_min path confidence source = record {
    selector = selector;
    amount_in = amount_in;
    amount_out_min = amount_out_min;
    notional_wei = 0;
    path = path;
    router = router;
    kind = v2_kind;
    decode_confidence = confidence;
    decode_source = source;
  }

  unfoldable pub decode_partial_swap_from_monitored_tokens :
      ℕ → ℕ → ℕ → List ℕ → f.F → String → Option (SwapSignal f)
  decode_partial_swap_from_monitored_tokens selector router value args confidence source =
      let path = partial_path_from_monitored_tokens monitored args in
      if short_or_same path
      then none
      else some
          (guessed_signal selector router (hinted_amount value args) none path confidence source)

  -- The guards on a guessed path.
  unfoldable pub if_usable : List ℕ → SwapSignal f → Option (SwapSignal f)
  if_usable path signal =
      if ltb (length path) 2 || not (path_contains_monitored_token path monitored)
      then none
      else some signal

  unfoldable pub if_monitored_path : List ℕ → SwapSignal f → Option (SwapSignal f)
  if_monitored_path path signal =
      if not (path_contains_monitored_token path monitored) then none else some signal

  unfoldable pub decode_swap_exact_eth_for_token_partial :
      ℕ → ℕ → ℕ → List ℕ → Option (SwapSignal f)
  decode_swap_exact_eth_for_token_partial selector router value args = do
    decoded ← decode exact_eth_for_token_params args
    amount_in ← field decoded 0 token_as_uint
    token_out ← field decoded 2 token_as_address
    path_bytes ← field decoded 4 token_as_bytes
    let path = path_with_out (monitored_token_addresses_in_input monitored path_bytes) token_out
    if_usable path (
        guessed_signal selector router (if ltb 0 value then value else max amount_in 1)
          (field decoded 1 token_as_uint) path (f.lit 62 2) "swap_exact_eth_for_token_path_partial")

  unfoldable pub transit_v3_signal : ℕ → ℕ → ℕ → List ℕ → ParsedV3Path → SwapSignal f
  transit_v3_signal selector router amount_in path parsed = record {
    selector = selector;
    amount_in = amount_in;
    amount_out_min = none;
    notional_wei = 0;
    path = path;
    router = router;
    kind =
        v3_kind parsed.first_fee_tier
          (encode_v3_path parsed.edge_token_out parsed.first_fee_tier parsed.token_in) parsed.hops
          false;
    decode_confidence = f.lit 72 2;
    decode_source = "transit_v5_v3_path_partial";
  }

  unfoldable pub decode_transit_v5_v3_partial : ℕ → ℕ → ℕ → List ℕ → Option (SwapSignal f)
  decode_transit_v5_v3_partial selector router value args = do
    fields ← first_tuple (decode transit_v3_params args)
    path_bytes ← token_tree_find_v3_path_bytes fields
    parsed ← parse_v3_path path_bytes
    let path = first_tokens (get_elem? (parse_v3_path_segments path_bytes) 0) parsed
    if_monitored_path path
        (transit_v3_signal selector router (hinted_amount value args) path parsed)

  unfoldable pub decode_transit_v5_v2_partial : ℕ → ℕ → ℕ → List ℕ → Option (SwapSignal f)
  decode_transit_v5_v2_partial selector router value args = do
    fields ← first_tuple (decode transit_v2_params args)
    tree_path ← token_tree_find_address_path monitored fields
    let path = dedup_address_path tree_path
    if_usable path (
        guessed_signal selector router (hinted_amount value args) none path (f.lit 68 2)
          "transit_v5_v2_path_partial")

  unfoldable pub decode_safe_inner_aggregator_partial : ℕ → ℕ → ℕ → List ℕ → Option (SwapSignal f)
  decode_safe_inner_aggregator_partial selector target value args =
      if selector == safe_inner_selector_9e7212ad
      then none
      else if selector == safe_inner_selector_8cc7104f
      then decode_partial_swap_from_monitored_tokens selector target value args (f.lit 75 2)
          "safe_inner_partial"
      else decode_partial_swap_from_monitored_tokens selector target value args (f.lit 55 2)
          "safe_inner_token_hint"
