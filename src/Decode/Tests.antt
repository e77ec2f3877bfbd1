-- ===== src/Decode/Tests.antt =====
-- Tests of the decoders, and the theorems at concrete inputs.
use arbitrage_runtime.Base.{List, Option, [], arith, false, none, refl, some, ℕ, ◌∷◌, ◌≡◌}
use arbitrage_runtime.Base.Bytes.{be_bytes, be_value, slice}
use arbitrage_runtime.Base.Float.{Micros}
use arbitrage_runtime.Decode.Consistent.{Consistent}
use arbitrage_runtime.Decode.Consistent.Nested.{Accepts}
use arbitrage_runtime.Decode.Consistent.Signal.{decode_swap_signal-Consistent}
use arbitrage_runtime.Decode.Direct.{
  decode_v3_exact_input_single_no_deadline, decode_v3_exact_input_single_values, first_tuple,
  single_signal,
}
use arbitrage_runtime.Decode.Signal.{multicall_bytes, v3_kind}
use arbitrage_runtime.Decode.Swap.{
  after_multicall, decode_call, decode_multicall_nested_swap, first_signal, found, multicall_call,
  multicall_calls, of_option, otherwise, relabel, split_selector,
}
use arbitrage_runtime.Decode.Swap.Dispatch.{
  decode_direct, decode_nested, decode_swap_signal, direct_or,
}
use arbitrage_runtime.Decode.Swap.Shorter.{Shrinks}
use arbitrage_runtime.Decode.Swap.Termination.{Finished, decode_swap_signal-Finished}
use arbitrage_runtime.Decode.Token.{
  ParamType, Token, Tokens, address_token, array_token, array_type, bytes_token, bytes_type, field,
  more_tokens, no_tokens, parses, token_as_address, token_as_array, token_as_bytes, token_as_tuple,
  token_as_uint, token_tree_find_v3_path_bytes, tuple_token, tuple_type, uint_token,
}
use arbitrage_runtime.Decode.Token.Search.{
  first_that, leaves, token_leaves, token_tree_find_v3_path_bytes-leaves,
}
use arbitrage_runtime.Decode.V3Path.{
  encode_v3_path, parse_v3_exact_out_path, parse_v3_path, parse_v3_path_segments, segment_at,
  segments_loop,
}
use arbitrage_runtime.Decode.V3Path.RoundTrip.{
  parse_v3_path-encode_v3_path, parse_v3_path_segments-path_bytes, path_bytes, segments_of,
}

abbrev usdc : ℕ
usdc = 0x2791bca1f2de4661ed88a30c99a7a9449aa84174

abbrev weth : ℕ
weth = 0x7ceb23fd6bc0add59e62ac25578270cff1b9f619

abbrev wmatic : ℕ
wmatic = 0x0d500b1d8e8ef31e21c99d1db9a6444d3adf1270

abbrev two_hops : List (ℕ × ℕ)
two_hops = (500, weth) ∷ (3_000, wmatic) ∷ []

-- A path of two hops has 66 bytes and is read back whole.
two_hops_read : parse_v3_path_segments (path_bytes usdc two_hops) ≡ segments_of usdc two_hops
unfolding parse_v3_path_segments segments_loop segment_at be_bytes be_value slice
two_hops_read = refl

parse_v3_path_segments-path_bytes_example :
    parse_v3_path_segments (path_bytes usdc two_hops) ≡ segments_of usdc two_hops
parse_v3_path_segments-path_bytes_example =
    parse_v3_path_segments-path_bytes usdc 500 weth ((3_000, wmatic) ∷ []) (omega arith)
      ((omega arith, omega arith), ((omega arith, omega arith), tt))

parse_v3_path-encode_v3_path_example :
    (parse_v3_path (encode_v3_path usdc 500 weth)
      ≡ some (record { token_in = usdc; edge_token_out = weth; first_fee_tier = 500; hops = 1 }))
    × (parse_v3_exact_out_path (encode_v3_path usdc 500 weth)
        ≡ some (record { token_in = weth; edge_token_out = usdc; first_fee_tier = 500; hops = 1 }))
parse_v3_path-encode_v3_path_example =
    parse_v3_path-encode_v3_path usdc 500 weth (omega arith) (omega arith) (omega arith)

-- The exact-output reader takes no path of two hops.
two_hops_exact_out : parse_v3_exact_out_path (path_bytes usdc two_hops) ≡ none
unfolding parse_v3_exact_out_path parse_v3_path be_bytes
two_hops_exact_out = refl

-- A tree with bytes that are no path, then a path inside a tuple.
abbrev tree : Tokens
tree = more_tokens (bytes_token (1 ∷ 2 ∷ [])) (
    more_tokens (tuple_token (more_tokens (bytes_token (encode_v3_path usdc 500 weth)) no_tokens))
      no_tokens)

token_tree_find_v3_path_bytes-leaves_example :
    token_tree_find_v3_path_bytes tree ≡ first_that parses (leaves tree)
token_tree_find_v3_path_bytes-leaves_example = token_tree_find_v3_path_bytes-leaves tree

tree_path_found : token_tree_find_v3_path_bytes tree ≡ some (encode_v3_path usdc 500 weth)
unfolding token_tree_find_v3_path_bytes parses parse_v3_path encode_v3_path be_bytes
tree_path_found = refl

-- A decoder that reads an array of one call, and the fields of a V3 swap.
swap_fields : List Token
swap_fields =
    address_token usdc
    ∷ address_token weth
    ∷ uint_token 500
    ∷ address_token 9
    ∷ uint_token 77
    ∷ uint_token 70
    ∷ []

abbrev tokens_of : List Token → Tokens
tokens_of [] = no_tokens
tokens_of (t ∷ ts) = more_tokens t (tokens_of ts)

by_params : List ParamType → List ℕ → Option (List Token)
by_params (array_type bytes_type ∷ []) (b ∷ calldata) =
    some (array_token (tokens_of (bytes_token calldata ∷ [])) ∷ [])
by_params (tuple_type fields ∷ []) args = some (tuple_token (tokens_of swap_fields) ∷ [])
by_params _ args = none

by_params-Shrinks : Shrinks by_params
unfolding by_params token_leaves swap_fields
by_params-Shrinks (array_type bytes_type ∷ []) (b ∷ calldata) = ((omega arith, tt), tt)
by_params-Shrinks (tuple_type fields ∷ []) args = (tt, tt)
by_params-Shrinks _ args = tt

-- A multicall with one call: a byte that the decoder skips, the selector of a V3 swap, an argument.
abbrev multicall_args : List ℕ
multicall_args = 0 ∷ 0x04 ∷ 0xe4 ∷ 0x5a ∷ 0xaf ∷ 1 ∷ []

abbrev no_ether : ℕ → Option ℕ
no_ether n = none

decode_swap_signal-Finished_example :
    Finished (decode_swap_signal Micros by_params no_ether [] 7 multicall_bytes 3 0 multicall_args)
decode_swap_signal-Finished_example =
    decode_swap_signal-Finished Micros by_params no_ether [] by_params-Shrinks 7 multicall_bytes 3 0
      multicall_args (omega arith)

decode_swap_signal-Consistent_example :
    Accepts Consistent
      (decode_swap_signal Micros by_params no_ether [] 7 multicall_bytes 3 0 multicall_args)
decode_swap_signal-Consistent_example =
    decode_swap_signal-Consistent Micros by_params no_ether [] 7 multicall_bytes 3 0 multicall_args

-- The call inside is found, under the selector and the name of the multicall.
multicall_found :
    decode_swap_signal Micros by_params no_ether [] 7 multicall_bytes 3 0 multicall_args
    ≡ found (record {
      selector = multicall_bytes;
      amount_in = 77;
      amount_out_min = some 70;
      notional_wei = 0;
      path = usdc ∷ weth ∷ [];
      router = 3;
      kind = v3_kind 500 (encode_v3_path weth 500 usdc) 1 false;
      decode_confidence = 920_000;
      decode_source = "multicall_nested";
    })
unfolding decode_swap_signal decode_direct decode_nested decode_multicall_nested_swap
    after_multicall multicall_calls field token_as_array token_as_bytes token_as_tuple
    token_as_address token_as_uint first_signal multicall_call split_selector decode_call relabel
    otherwise direct_or of_option decode_v3_exact_input_single_no_deadline
    decode_v3_exact_input_single_values first_tuple single_signal by_params swap_fields be_value
multicall_found = refl
