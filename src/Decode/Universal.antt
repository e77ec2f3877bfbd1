-- ===== src/Decode/Universal.antt =====
-- The Universal Router (`decode_universal_router_swap_candidates` and its neighbours in
-- src/mev/runtime.rs). `left` is how many levels of sub-plans may still be entered: the code's `depth` is
-- 4 - `left`, and it returns at a depth above 3.
use Prim.Native.String.{String}
use arbitrage_runtime.Base.{
  Bool, List, Option, [], false, if◌then◌else◌, none, some, suc, true, zero, ℕ, ◌%◌, ◌++◌, ◌==◌,
  ◌>>=◌, ◌∷◌,
}
use arbitrage_runtime.Base.Float.{Float}
use arbitrage_runtime.Decode.Signal.{SwapSignal, v2_kind, v3_kind}
use arbitrage_runtime.Decode.Token.{
  Decoder, ParamType, Token, address_type, array_type, bool_type, bytes_type, field,
  token_as_address_vec, token_as_array, token_as_bytes, token_as_uint, uint_type,
}
use arbitrage_runtime.Decode.V3Path.{
  ParsedV3Path, encode_v3_path, parse_v3_exact_out_path, parse_v3_path,
}
pub mod Graph

-- `command & UNIVERSAL_ROUTER_COMMAND_MASK`, a mask of seven ones.
unfoldable pub opcode_of : ℕ → ℕ
opcode_of command = command % 128

abbrev pub plan_params : List ParamType
plan_params = bytes_type ∷ array_type bytes_type ∷ []

abbrev pub v2_params : List ParamType
v2_params = address_type ∷ uint_type 256 ∷ uint_type 256 ∷ array_type address_type ∷ bool_type ∷ []

abbrev pub v3_params : List ParamType
v3_params = address_type ∷ uint_type 256 ∷ uint_type 256 ∷ bytes_type ∷ bool_type ∷ []

-- The commands and inputs among decoded tokens.
unfoldable pub plan_of : Option (List Token) → Option (List ℕ × List Token)
plan_of decoded = do
  tokens ← decoded
  commands ← field tokens 0 token_as_bytes
  inputs ← field tokens 1 token_as_array
  some (commands, inputs)

-- The signal of a parsed V3 path, as both Universal Router commands and the direct decoder build it.
unfoldable pub v3_signal :
    (f : Float) → ℕ → ℕ → ℕ → Option ℕ → ParsedV3Path → Bool → String → SwapSignal f
v3_signal f selector router amount_in amount_out_min parsed exact_out source = record {
  selector = selector;
  amount_in = amount_in;
  amount_out_min = amount_out_min;
  notional_wei = 0;
  path = parsed.token_in ∷ parsed.edge_token_out ∷ [];
  router = router;
  kind =
      v3_kind parsed.first_fee_tier
        (encode_v3_path parsed.edge_token_out parsed.first_fee_tier parsed.token_in) parsed.hops
        exact_out;
  decode_confidence = f.lit 1 0;
  decode_source = source;
}

unfoldable pub v2_signal : (f : Float) → ℕ → ℕ → ℕ → Option ℕ → ℕ → List ℕ → String → SwapSignal f
v2_signal f selector router amount_in amount_out_min notional_wei path source = record {
  selector = selector;
  amount_in = amount_in;
  amount_out_min = amount_out_min;
  notional_wei = notional_wei;
  path = path;
  router = router;
  kind = v2_kind;
  decode_confidence = f.lit 1 0;
  decode_source = source;
}

abbrev pub to_list {ℓ} : {A : Type ℓ} → Option A → List A
to_list none = []
to_list (some x) = x ∷ []

-- What a function makes of a value that may be missing: nothing of a missing one.
abbrev pub flat_option {ℓ κ} : {A : Type ℓ} {B : Type κ} → (A → List B) → Option A → List B
flat_option g none = []
flat_option g (some x) = g x

module _ (f : Float) (decode : Decoder) (selector router : ℕ) where
  unfoldable pub decode_universal_router_v2_exact_in : List ℕ → Option (SwapSignal f)
  decode_universal_router_v2_exact_in input = do
    decoded ← decode v2_params input
    amount_in ← field decoded 1 token_as_uint
    path ← field decoded 3 token_as_address_vec
    some (
        v2_signal f selector router amount_in (field decoded 2 token_as_uint) 0 path
          "universal_router")

  unfoldable pub decode_universal_router_v2_exact_out : List ℕ → Option (SwapSignal f)
  decode_universal_router_v2_exact_out input = do
    decoded ← decode v2_params input
    amount_out ← field decoded 1 token_as_uint
    amount_in_max ← field decoded 2 token_as_uint
    path ← field decoded 3 token_as_address_vec
    some (v2_signal f selector router amount_in_max (some amount_out) 0 path "universal_router")

  unfoldable pub decode_universal_router_v3_exact_in : List ℕ → Option (SwapSignal f)
  decode_universal_router_v3_exact_in input = do
    decoded ← decode v3_params input
    amount_in ← field decoded 1 token_as_uint
    path_bytes ← field decoded 3 token_as_bytes
    parsed ← parse_v3_path path_bytes
    some (
        v3_signal f selector router amount_in (field decoded 2 token_as_uint) parsed false
          "universal_router")

  unfoldable pub decode_universal_router_v3_exact_out : List ℕ → Option (SwapSignal f)
  decode_universal_router_v3_exact_out input = do
    decoded ← decode v3_params input
    amount_out ← field decoded 1 token_as_uint
    amount_in_max ← field decoded 2 token_as_uint
    path_bytes ← field decoded 3 token_as_bytes
    parsed ← parse_v3_exact_out_path path_bytes
    some
        (v3_signal f selector router amount_in_max (some amount_out) parsed true "universal_router")

  -- The arms of the match on the opcode; `sub_plan` is what the commands of a sub-plan give.
  unfoldable pub command_signals :
      (List ℕ × List Token → List (SwapSignal f)) → ℕ → List ℕ → List (SwapSignal f)
  command_signals sub_plan opcode input =
      if opcode == 0x00
      then to_list (decode_universal_router_v3_exact_in input)
      else if opcode == 0x01
      then to_list (decode_universal_router_v3_exact_out input)
      else if opcode == 0x08
      then to_list (decode_universal_router_v2_exact_in input)
      else if opcode == 0x09
      then to_list (decode_universal_router_v2_exact_out input)
      else if opcode == 0x21
      then flat_option sub_plan (plan_of (decode plan_params input))
      else []

  -- The loop over the commands: it skips an input that is not bytes and ends where inputs run out.
  unfoldable pub commands_loop :
      (List ℕ × List Token → List (SwapSignal f)) → List ℕ → List Token → List (SwapSignal f)
  commands_loop sub_plan [] inputs = []
  commands_loop sub_plan (command ∷ commands) [] = []
  commands_loop sub_plan (command ∷ commands) (input ∷ inputs) =
      flat_option (command_signals sub_plan (opcode_of command)) (token_as_bytes input)
      ++ commands_loop sub_plan commands inputs

  unfoldable pub decode_universal_router_parts : ℕ → List ℕ × List Token → List (SwapSignal f)
  decode_universal_router_parts zero plan = []
  decode_universal_router_parts (suc left) (commands, inputs) =
      commands_loop (decode_universal_router_parts left) commands inputs
