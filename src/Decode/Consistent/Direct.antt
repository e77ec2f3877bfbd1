-- ===== src/Decode/Consistent/Direct.antt =====
-- Every signal of the direct decoders and of the Universal Router is consistent.
use Prim.Native.String.{String}
use arbitrage_runtime.Base.{
  All, All-append, Bool, Bool-cases, List, Option, [], false, if◌then◌else◌, inl, inr, none, some,
  suc, true, zero, ℕ, ◌==◌, ◌∷◌, ◌≤◌,
}
use arbitrage_runtime.Base.Float.{Float}
use arbitrage_runtime.Base.Holds.{>>=-AllSome, >>=-any, AllSome, get_elem?-AllSome, none_or-AllSome}
use arbitrage_runtime.Decode.Consistent.{
  Consistent, parse_v3_path-hops, single_signal-Consistent, to_list-All,
  universal_v2_exact_in-Consistent, universal_v2_exact_out-Consistent,
  universal_v3_exact_in-Consistent, universal_v3_exact_out-Consistent, v3_signal-Consistent,
}
use arbitrage_runtime.Decode.Direct.{
  decode_algebra_exact_input_single, decode_exact_eth, decode_exact_tokens,
  decode_universal_router_graph_candidates, decode_universal_router_swap,
  decode_universal_router_swap_candidates, decode_v3_exact_input,
  decode_v3_exact_input_single_no_deadline, decode_v3_exact_input_single_values,
  decode_v3_exact_input_single_with_deadline, decode_zero_ex_sell_to_uniswap, exact_eth_params,
  exact_tokens_params, first_tuple, hop_signal, non_empty, plan_candidates, signals_of_hops,
  universal_router_hop_to_signal, v3_hop_signal, zero_ex_params,
}
use arbitrage_runtime.Decode.Signal.{SwapSignal}
use arbitrage_runtime.Decode.Token.{
  Decoder, Token, field, token_as_address, token_as_address_vec, token_as_bytes, token_as_uint,
  tokens_list,
}
use arbitrage_runtime.Decode.Universal.{
  command_signals, commands_loop, decode_universal_router_parts, flat_option, opcode_of, plan_of,
  plan_params, v2_signal,
}
use arbitrage_runtime.Decode.Universal.Graph.{UniversalRouterHop, max_depth}
use arbitrage_runtime.Decode.V3Path.{parse_v3_path}
use text.Mathlib.Text.{◌==◌ as str_eq}

if-All {ℓ} :
    {A : Type ℓ} (P : A → Type 0) (b : Bool) (x y : List A)
    → All P x
    → All P y
    → All P (if b then x else y)
if-All P true x y h k = h
if-All P false x y h k = k

flat_option-All {ℓ κ} :
    {A : Type ℓ} {B : Type κ} (P : B → Type 0) (g : A → List B) (o : Option A)
    → ((a : A) → All P (g a))
    → All P (flat_option g o)
flat_option-All P g none k = tt
flat_option-All P g (some a) k = k a

module _ (f : Float) (decode : Decoder) (selector router : ℕ) where
  abbrev Signals : List (SwapSignal f) → Type 0
  Signals = All Consistent

  command_signals-Consistent :
      (sub_plan : List ℕ × List Token → List (SwapSignal f))
      → ((plan : List ℕ × List Token) → Signals (sub_plan plan))
      → (opcode : ℕ) (input : List ℕ)
      → Signals (command_signals f decode selector router sub_plan opcode input)
  unfolding command_signals
  command_signals-Consistent sub_plan k opcode input =
      let listed = to_list-All f decode selector router in
      if-All Consistent (opcode == 0x00) _ _
        (listed _ (universal_v3_exact_in-Consistent f decode selector router input))
        (if-All Consistent (opcode == 0x01) _ _
          (listed _ (universal_v3_exact_out-Consistent f decode selector router input))
          (if-All Consistent (opcode == 0x08) _ _
            (listed _ (universal_v2_exact_in-Consistent f decode selector router input))
            (if-All Consistent (opcode == 0x09) _ _
              (listed _ (universal_v2_exact_out-Consistent f decode selector router input))
              (if-All Consistent (opcode == 0x21) _ []
                (flat_option-All Consistent sub_plan (plan_of (decode plan_params input)) k) tt))))

  commands_loop-Consistent :
      (sub_plan : List ℕ × List Token → List (SwapSignal f))
      → ((plan : List ℕ × List Token) → Signals (sub_plan plan))
      → (commands : List ℕ) (inputs : List Token)
      → Signals (commands_loop f decode selector router sub_plan commands inputs)
  unfolding commands_loop
  commands_loop-Consistent sub_plan k [] inputs = tt
  commands_loop-Consistent sub_plan k (command ∷ commands) [] = tt
  commands_loop-Consistent sub_plan k (command ∷ commands) (input ∷ inputs) =
      All-append Consistent _ _
        (flat_option-All Consistent _ (token_as_bytes input)
          (command_signals-Consistent sub_plan k (opcode_of command)))
        (commands_loop-Consistent sub_plan k commands inputs)

  parts-Consistent :
      (left : ℕ) (plan : List ℕ × List Token)
      → Signals (decode_universal_router_parts f decode selector router left plan)
  unfolding decode_universal_router_parts
  parts-Consistent zero plan = tt
  parts-Consistent (suc left) (commands, inputs) =
      commands_loop-Consistent _ (parts-Consistent left) commands inputs

  hop_signal-Consistent :
      (hop : UniversalRouterHop) (amount_in : ℕ)
      → AllSome Consistent (hop_signal f decode selector router hop amount_in)
  unfolding hop_signal v3_hop_signal v2_signal
  hop_signal-Consistent hop amount_in =
      none_or-AllSome Consistent (amount_in == 0) _ (elim (Bool-cases (str_eq hop.dex "v3")) [
        | inl e ↦ rw e (
            >>=-any Consistent hop.fee_tier _ (λ fee_tier.
              single_signal-Consistent f selector router amount_in hop.amount_out hop.token_in
                hop.token_out fee_tier hop.exact_out (f.lit 1 0) "universal_router"))
        | inr e ↦ rw e tt
      ])

  hops-Consistent :
      (hops : List UniversalRouterHop) → Signals (signals_of_hops f decode selector router hops)
  unfolding signals_of_hops universal_router_hop_to_signal
  hops-Consistent [] = tt
  hops-Consistent (hop ∷ hops) =
      All-append Consistent _ _
        (to_list-All f decode selector router _
          (>>=-any Consistent hop.amount_in _ (hop_signal-Consistent hop)))
        (hops-Consistent hops)

  non_empty-Consistent :
      (signals others : List (SwapSignal f))
      → Signals signals
      → Signals others
      → Signals (non_empty f decode selector router signals others)
  non_empty-Consistent [] others h k = k
  non_empty-Consistent (s ∷ signals) others h k = h

  pub candidates-Consistent :
      (args : List ℕ)
      → Signals (decode_universal_router_swap_candidates f decode selector router args)
  unfolding decode_universal_router_swap_candidates plan_candidates
      decode_universal_router_graph_candidates
  candidates-Consistent args =
      flat_option-All Consistent _ (plan_of _)
        (λ plan. non_empty-Consistent _ _ (parts-Consistent max_depth plan) (hops-Consistent _))

  pub router_swap-Consistent :
      (args : List ℕ)
      → AllSome Consistent (decode_universal_router_swap f decode selector router args)
  unfolding decode_universal_router_swap
  router_swap-Consistent args = get_elem?-AllSome Consistent _ 0 (candidates-Consistent args)

  single_values-Consistent :
      (fields : List Token) (i j : ℕ) (confidence : f.F) (source : String)
      → AllSome Consistent (
          decode_v3_exact_input_single_values f decode selector router fields i j confidence source)
  unfolding decode_v3_exact_input_single_values
  single_values-Consistent fields i j confidence source =
      >>=-any Consistent (field fields 0 token_as_address) _ λ token_in.
        >>=-any Consistent (field fields 1 token_as_address) _ λ token_out.
          >>=-any Consistent (field fields 2 token_as_uint) _ λ fee_tier.
            >>=-any Consistent (field fields i token_as_uint) _ λ amount_in.
              single_signal-Consistent f selector router amount_in _ token_in token_out fee_tier
                false confidence source

  pub deadline-Consistent :
      (args : List ℕ)
      → AllSome Consistent
          (decode_v3_exact_input_single_with_deadline f decode selector router args)
  unfolding decode_v3_exact_input_single_with_deadline
  deadline-Consistent args =
      >>=-any Consistent (first_tuple _) _ (λ ts. single_values-Consistent _ 5 6 _ _)

  pub no_deadline-Consistent :
      (args : List ℕ)
      → AllSome Consistent (decode_v3_exact_input_single_no_deadline f decode selector router args)
  unfolding decode_v3_exact_input_single_no_deadline
  no_deadline-Consistent args =
      >>=-any Consistent (first_tuple _) _ (λ ts. single_values-Consistent _ 4 5 _ _)

  pub algebra-Consistent :
      (args : List ℕ)
      → AllSome Consistent (decode_algebra_exact_input_single f decode selector router args)
  unfolding decode_algebra_exact_input_single
  algebra-Consistent args = >>=-any Consistent (first_tuple _) _ λ fields.
      >>=-any Consistent (field (tokens_list fields) 0 token_as_address) _ λ token_in.
        >>=-any Consistent (field (tokens_list fields) 1 token_as_address) _ λ token_out.
          >>=-any Consistent (field (tokens_list fields) 3 token_as_uint) _ λ amount_in.
            single_signal-Consistent f selector router amount_in _ token_in token_out _ false _ _

  pub exact_input-Consistent :
      (args : List ℕ) → AllSome Consistent (decode_v3_exact_input f decode selector router args)
  unfolding decode_v3_exact_input
  exact_input-Consistent args = >>=-any Consistent (first_tuple _) _ λ fields.
      >>=-any Consistent (field (tokens_list fields) 0 token_as_bytes) _ λ path.
        >>=-AllSome (λ p. 1 ≤ p.hops) Consistent (parse_v3_path path) _ (parse_v3_path-hops path)
          λ p h.
            >>=-any Consistent (field (tokens_list fields) 3 token_as_uint) _
              λ amount_in. v3_signal-Consistent f selector router amount_in _ p false _ h (λ no. cc)

  pub exact_eth-Consistent :
      (value : ℕ) (args : List ℕ)
      → AllSome Consistent (decode_exact_eth f decode selector router value args)
  unfolding decode_exact_eth v2_signal
  exact_eth-Consistent value args =
      >>=-any Consistent (decode exact_eth_params args) _
        λ decoded. >>=-any Consistent (field decoded 1 token_as_address_vec) _ (λ path. tt)

  pub exact_tokens-Consistent :
      (args : List ℕ) → AllSome Consistent (decode_exact_tokens f decode selector router args)
  unfolding decode_exact_tokens v2_signal
  exact_tokens-Consistent args = >>=-any Consistent (decode exact_tokens_params args) _ λ decoded.
      >>=-any Consistent (field decoded 0 token_as_uint) _
        λ amount_in. >>=-any Consistent (field decoded 2 token_as_address_vec) _ (λ path. tt)

  pub zero_ex-Consistent :
      (args : List ℕ)
      → AllSome Consistent (decode_zero_ex_sell_to_uniswap f decode selector router args)
  unfolding decode_zero_ex_sell_to_uniswap v2_signal
  zero_ex-Consistent args = >>=-any Consistent (decode zero_ex_params args) _ λ decoded.
      >>=-any Consistent (field decoded 0 token_as_address_vec) _
        λ path. >>=-any Consistent (field decoded 1 token_as_uint) _ (λ amount_in. tt)
