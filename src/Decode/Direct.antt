-- ===== src/Decode/Direct.antt =====
-- The decoders of one call that look at no other call (src/mev/runtime.rs): the V2 and V3 routers, 0x, and
-- the choice among the signals of a Universal Router call.
use Prim.Native.String.{String}
use arbitrage_runtime.Base.{
  Bool, List, Option, [], false, get_elem?, if◌then◌else◌, map, none, some, ℕ, ◌++◌, ◌==◌, ◌>>=◌,
  ◌∷◌,
}
use arbitrage_runtime.Base.Float.{Float}
use arbitrage_runtime.Decode.Signal.{SwapSignal, v3_kind}
use arbitrage_runtime.Decode.Token.{
  Decoder, ParamType, Token, Tokens, address_type, array_type, bool_type, bytes_type, field,
  or_else, params_of, token_as_address, token_as_address_vec, token_as_bytes, token_as_tuple,
  token_as_uint, tokens_list, tuple_type, uint_type,
}
use arbitrage_runtime.Decode.Universal.{
  decode_universal_router_parts, flat_option, plan_of, plan_params, to_list, v2_signal, v3_signal,
}
use arbitrage_runtime.Decode.Universal.Graph.{
  UniversalRouterHop, collect_universal_router_graph, max_depth,
}
use arbitrage_runtime.Decode.V3Path.{encode_v3_path, parse_v3_path}
use text.Mathlib.Text.{◌==◌ as str_eq}

abbrev pub exact_eth_params : List ParamType
exact_eth_params = uint_type 256 ∷ array_type address_type ∷ address_type ∷ uint_type 256 ∷ []

abbrev pub exact_tokens_params : List ParamType
exact_tokens_params =
    uint_type 256 ∷ uint_type 256 ∷ array_type address_type ∷ address_type ∷ uint_type 256 ∷ []

abbrev pub one_tuple : List ParamType → List ParamType
one_tuple fields = tuple_type (params_of fields) ∷ []

abbrev pub exact_input_params : List ParamType
exact_input_params =
    one_tuple (bytes_type ∷ address_type ∷ uint_type 256 ∷ uint_type 256 ∷ uint_type 256 ∷ [])

abbrev pub single_deadline_params : List ParamType
single_deadline_params = one_tuple (
    address_type
    ∷ address_type
    ∷ uint_type 24
    ∷ address_type
    ∷ uint_type 256
    ∷ uint_type 256
    ∷ uint_type 256
    ∷ uint_type 160
    ∷ [])

abbrev pub single_no_deadline_params : List ParamType
single_no_deadline_params = one_tuple (
    address_type
    ∷ address_type
    ∷ uint_type 24
    ∷ address_type
    ∷ uint_type 256
    ∷ uint_type 256
    ∷ uint_type 160
    ∷ [])

abbrev pub algebra_single_params : List ParamType
algebra_single_params = one_tuple (
    address_type ∷ address_type ∷ address_type ∷ uint_type 256 ∷ uint_type 256 ∷ uint_type 160 ∷ [])

abbrev pub zero_ex_params : List ParamType
zero_ex_params = array_type address_type ∷ uint_type 256 ∷ uint_type 256 ∷ bool_type ∷ []

-- `let Token::Tuple(values) = decoded.first()? else { return None }`.
unfoldable pub first_tuple : Option (List Token) → Option Tokens
first_tuple decoded = do tokens ← decoded; field tokens 0 token_as_tuple

-- A signal of one V3 pool between two tokens.
unfoldable pub single_signal :
    (f : Float) → ℕ → ℕ → ℕ → Option ℕ → ℕ → ℕ → ℕ → Bool → f.F → String → SwapSignal f
single_signal f selector router amount_in amount_out_min token_in token_out fee_tier exact_out
      confidence source =
    record {
      selector = selector;
      amount_in = amount_in;
      amount_out_min = amount_out_min;
      notional_wei = 0;
      path = token_in ∷ token_out ∷ [];
      router = router;
      kind = v3_kind fee_tier (encode_v3_path token_out fee_tier token_in) 1 exact_out;
      decode_confidence = confidence;
      decode_source = source;
    }

pub record MonitoredTokenConfig (f : Float) : Type 0 where
  pub address : ℕ
  pub decimals : ℕ
  pub price_eth : f.F

abbrev pub addresses : {f : Float} → List (MonitoredTokenConfig f) → List ℕ
addresses = map (λ t. t.address)

unfoldable pub find_token :
    {f : Float} → List (MonitoredTokenConfig f) → ℕ → Option (MonitoredTokenConfig f)
find_token [] a = none
find_token (t ∷ ts) a = if t.address == a then some t else find_token ts a

-- `as_u32` panics on a number that does not fit; a decoded `uint24` does.
module _ (f : Float) (decode : Decoder) (selector router : ℕ) where
  unfoldable pub decode_exact_eth : ℕ → List ℕ → Option (SwapSignal f)
  decode_exact_eth value args = do
    decoded ← decode exact_eth_params args
    path ← field decoded 1 token_as_address_vec
    some (v2_signal f selector router value (field decoded 0 token_as_uint) value path "abi")

  unfoldable pub decode_exact_tokens : List ℕ → Option (SwapSignal f)
  decode_exact_tokens args = do
    decoded ← decode exact_tokens_params args
    amount_in ← field decoded 0 token_as_uint
    path ← field decoded 2 token_as_address_vec
    some (v2_signal f selector router amount_in (field decoded 1 token_as_uint) 0 path "abi")

  unfoldable pub decode_v3_exact_input : List ℕ → Option (SwapSignal f)
  decode_v3_exact_input args = do
    fields ← first_tuple (decode exact_input_params args)
    path_bytes ← field (tokens_list fields) 0 token_as_bytes
    parsed ← parse_v3_path path_bytes
    amount_in ← field (tokens_list fields) 3 token_as_uint
    some (
        v3_signal f selector router amount_in (field (tokens_list fields) 4 token_as_uint) parsed
          false "abi")

  unfoldable pub decode_v3_exact_input_single_values :
      List Token → ℕ → ℕ → f.F → String → Option (SwapSignal f)
  decode_v3_exact_input_single_values fields amount_in_index amount_out_min_index confidence
        source =
      do
        token_in ← field fields 0 token_as_address
        token_out ← field fields 1 token_as_address
        fee_tier ← field fields 2 token_as_uint
        amount_in ← field fields amount_in_index token_as_uint
        some (
            single_signal f selector router amount_in
              (field fields amount_out_min_index token_as_uint) token_in token_out fee_tier false
              confidence source)

  unfoldable pub decode_v3_exact_input_single_with_deadline : List ℕ → Option (SwapSignal f)
  decode_v3_exact_input_single_with_deadline args = do
    fields ← first_tuple (decode single_deadline_params args)
    decode_v3_exact_input_single_values (tokens_list fields) 5 6 (f.lit 1 0) "abi"

  unfoldable pub decode_v3_exact_input_single_no_deadline : List ℕ → Option (SwapSignal f)
  decode_v3_exact_input_single_no_deadline args = do
    fields ← first_tuple (decode single_no_deadline_params args)
    decode_v3_exact_input_single_values (tokens_list fields) 4 5 (f.lit 98 2)
        "uniswap_v3_exact_input_single_no_deadline"

  unfoldable pub decode_algebra_exact_input_single : List ℕ → Option (SwapSignal f)
  decode_algebra_exact_input_single args = do
    fields ← first_tuple (decode algebra_single_params args)
    token_in ← field (tokens_list fields) 0 token_as_address
    token_out ← field (tokens_list fields) 1 token_as_address
    amount_in ← field (tokens_list fields) 3 token_as_uint
    some (
        single_signal f selector router amount_in (field (tokens_list fields) 4 token_as_uint)
          token_in token_out 3_000 false (f.lit 86 2) "algebra_exact_input_single")

  unfoldable pub decode_zero_ex_sell_to_uniswap : List ℕ → Option (SwapSignal f)
  decode_zero_ex_sell_to_uniswap args = do
    decoded ← decode zero_ex_params args
    path ← field decoded 0 token_as_address_vec
    amount_in ← field decoded 1 token_as_uint
    some (v2_signal f selector router amount_in (field decoded 2 token_as_uint) 0 path "0x_uniswap")

  unfoldable pub v3_hop_signal : UniversalRouterHop → ℕ → Option (SwapSignal f)
  v3_hop_signal hop amount_in = do
    fee_tier ← hop.fee_tier
    some (
        single_signal f selector router amount_in hop.amount_out hop.token_in hop.token_out fee_tier
          hop.exact_out (f.lit 1 0) "universal_router")

  unfoldable pub hop_signal : UniversalRouterHop → ℕ → Option (SwapSignal f)
  hop_signal hop amount_in =
      if amount_in == 0
      then none
      else if str_eq hop.dex "v3"
      then v3_hop_signal hop amount_in
      else some (
          v2_signal f selector router amount_in hop.amount_out 0 (hop.token_in ∷ hop.token_out ∷ [])
            "universal_router")

  -- The signal of one hop of the route graph.
  unfoldable pub universal_router_hop_to_signal : UniversalRouterHop → Option (SwapSignal f)
  universal_router_hop_to_signal hop = do amount_in ← hop.amount_in; hop_signal hop amount_in

  unfoldable pub signals_of_hops : List UniversalRouterHop → List (SwapSignal f)
  signals_of_hops [] = []
  signals_of_hops (hop ∷ hops) =
      to_list (universal_router_hop_to_signal hop) ++ signals_of_hops hops

  unfoldable pub decode_universal_router_graph_candidates :
      List ℕ × List Token → List (SwapSignal f)
  decode_universal_router_graph_candidates plan =
      signals_of_hops
        (collect_universal_router_graph decode max_depth plan (record {
          command_count = 0;
          swap_command_count = 0;
          hops = [];
          unsupported_commands = [];
        })).hops

  abbrev pub non_empty : List (SwapSignal f) → List (SwapSignal f) → List (SwapSignal f)
  non_empty [] others = others
  non_empty (s ∷ signals) others = s ∷ signals

  unfoldable pub plan_candidates : List ℕ × List Token → List (SwapSignal f)
  plan_candidates plan =
      non_empty (decode_universal_router_parts f decode selector router max_depth plan)
        (decode_universal_router_graph_candidates plan)

  unfoldable pub decode_universal_router_swap_candidates : List ℕ → List (SwapSignal f)
  decode_universal_router_swap_candidates args = flat_option plan_candidates (
      plan_of (
        or_else (decode (bytes_type ∷ array_type bytes_type ∷ uint_type 256 ∷ []) args)
          (decode plan_params args)))

  unfoldable pub decode_universal_router_swap : List ℕ → Option (SwapSignal f)
  decode_universal_router_swap args = get_elem? (decode_universal_router_swap_candidates args) 0
