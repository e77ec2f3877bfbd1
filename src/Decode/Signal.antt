-- ===== src/Decode/Signal.antt =====
-- The decoded swap (`SwapSignal`, `SwapKind` of src/mev/runtime.rs) and its selectors. A selector is the
-- number that its four bytes spell.
use Prim.Native.String.{String}
use arbitrage_runtime.Base.{Bool, List, Option, false, length, max, none, some, ℕ, ◌+◌}
use arbitrage_runtime.Base.Float.{Float}

-- `SwapKind`.
pub data SwapKind : Type 0 where
  v2_kind : SwapKind
  v3_kind : ℕ → List ℕ → ℕ → Bool → SwapKind

pub record SwapSignal (f : Float) : Type 0 where
  pub selector : ℕ
  pub amount_in : ℕ
  pub amount_out_min : Option ℕ
  pub notional_wei : ℕ
  pub path : List ℕ
  pub router : ℕ
  pub kind : SwapKind
  pub decode_confidence : f.F
  pub decode_source : String

abbrev kind_path_len : SwapKind → ℕ → ℕ
kind_path_len v2_kind path = path
kind_path_len (v3_kind fee_tier encoded_path hops exact_out) path = max (hops + 1) path

unfoldable pub path_len : {f : Float} → SwapSignal f → ℕ
path_len signal = kind_path_len signal.kind (length signal.path)

unfoldable pub is_partial_decode : {f : Float} → SwapSignal f → Bool
is_partial_decode {f} signal = f.lt signal.decode_confidence (f.lit 99 2)

abbrev pub kind_hops : SwapKind → Option ℕ
kind_hops v2_kind = none
kind_hops (v3_kind fee_tier encoded_path hops exact_out) = some hops

abbrev pub is_exact_out : SwapKind → Bool
is_exact_out v2_kind = false
is_exact_out (v3_kind fee_tier encoded_path hops exact_out) = exact_out

abbrev pub swap_exact_tokens_for_tokens : ℕ
swap_exact_tokens_for_tokens = 0x38ed1739

abbrev pub swap_exact_eth_for_tokens : ℕ
swap_exact_eth_for_tokens = 0x7ff36ab5

abbrev pub swap_exact_tokens_for_eth : ℕ
swap_exact_tokens_for_eth = 0x18cbafe5

abbrev pub swap_exact_tokens_for_tokens_supporting_fee : ℕ
swap_exact_tokens_for_tokens_supporting_fee = 0x5c11d795

abbrev pub swap_exact_eth_for_tokens_supporting_fee : ℕ
swap_exact_eth_for_tokens_supporting_fee = 0xb6f9de95

abbrev pub swap_exact_tokens_for_eth_supporting_fee : ℕ
swap_exact_tokens_for_eth_supporting_fee = 0x791ac947

abbrev pub v3_exact_input_single : ℕ
v3_exact_input_single = 0x414bf389

abbrev pub v3_exact_input : ℕ
v3_exact_input = 0xc04b8d59

abbrev pub universal_router_execute : ℕ
universal_router_execute = 0x3593564c

abbrev pub universal_router_execute_no_deadline : ℕ
universal_router_execute_no_deadline = 0x24856bc3

abbrev pub zero_ex_sell_to_uniswap : ℕ
zero_ex_sell_to_uniswap = 0xd9627aa4

abbrev pub safe_exec_transaction : ℕ
safe_exec_transaction = 0x6a761202

abbrev pub transit_swap_v5 : ℕ
transit_swap_v5 = 0xd808d889

abbrev pub transit_exact_input_v3_swap : ℕ
transit_exact_input_v3_swap = 0xb9b5149b

abbrev pub transit_exact_input_v2_swap : ℕ
transit_exact_input_v2_swap = 0x0dc4bdae

abbrev pub private_searcher_selector_d00ba30b : ℕ
private_searcher_selector_d00ba30b = 0xd00ba30b

abbrev pub private_swap_wrapper_2e35732f : ℕ
private_swap_wrapper_2e35732f = 0x2e35732f

abbrev pub polymarket_batch_execute : ℕ
polymarket_batch_execute = 0x023e8d84

abbrev pub uniswap_v3_exact_input_single_no_deadline : ℕ
uniswap_v3_exact_input_single_no_deadline = 0x04e45aaf

abbrev pub algebra_exact_input_single : ℕ
algebra_exact_input_single = 0xbc651188

abbrev pub multicall_bytes : ℕ
multicall_bytes = 0xac9650d8

abbrev pub multicall_deadline_bytes : ℕ
multicall_deadline_bytes = 0x5ae401dc

abbrev pub aggregator_selector_c3192f1f : ℕ
aggregator_selector_c3192f1f = 0xc3192f1f

abbrev pub safe_inner_selector_8cc7104f : ℕ
safe_inner_selector_8cc7104f = 0x8cc7104f

abbrev pub safe_inner_selector_9e7212ad : ℕ
safe_inner_selector_9e7212ad = 0x9e7212ad

abbrev pub aggregator_selector_0a2b8f36 : ℕ
aggregator_selector_0a2b8f36 = 0x0a2b8f36

abbrev pub aggregator_selector_0060ea13 : ℕ
aggregator_selector_0060ea13 = 0x0060ea13

abbrev pub aggregator_selector_448e340e : ℕ
aggregator_selector_448e340e = 0x448e340e

abbrev pub aggregator_selector_9265bb9d : ℕ
aggregator_selector_9265bb9d = 0x9265bb9d
