-- ===== src/Gate/TryScore.antt =====
-- The score of the chance that a trade behind a signal is worth trying (`scavenger_fast_try_score` of
-- src/mev/runtime.rs) and the heuristics that it weighs.
use Prim.Native.String.{String}
use arbitrage_runtime.Base.{Bool, Option, false, if◌then◌else◌, leb, none, some, ℕ, ◌==◌, ◌||◌}
use arbitrage_runtime.Base.Float.{Float, clamp}
use arbitrage_runtime.Decode.Signal.{
  SwapKind, SwapSignal, path_len, swap_exact_eth_for_tokens,
  swap_exact_eth_for_tokens_supporting_fee, swap_exact_tokens_for_eth,
  swap_exact_tokens_for_eth_supporting_fee, swap_exact_tokens_for_tokens,
  swap_exact_tokens_for_tokens_supporting_fee, v2_kind, v3_exact_input, v3_exact_input_single,
  v3_kind,
}
use arbitrage_runtime.Gate.{MevConfig}
use text.Mathlib.Text.{◌==◌ as str_eq}

pub record ContextSignal (f : Float) : Type 0 where
  pub priority_score : f.F
  pub toxicity_score : f.F
  pub samples : ℕ

module _ (f : Float) where
  open f use {F, lit, of_nat, add, sub, mul, div, neg, lt, le, max_f64}

  abbrev pub zero_to_one : F → F
  zero_to_one x = clamp f (lit 0 0) (lit 1 0) x

  unfoldable pub heuristic_gas_baseline_gwei : String → F
  heuristic_gas_baseline_gwei network =
      if str_eq network "arbitrum"
      then lit 15 2
      else if str_eq network "polygon"
      then lit 80 0
      else if str_eq network "bsc"
      then lit 3 0
      else lit 25 0

  unfoldable pub selector_heuristic_factor : ℕ → F
  selector_heuristic_factor selector =
      if selector == v3_exact_input_single
      then lit 116 2
      else if selector == v3_exact_input
      then lit 104 2
      else if selector == swap_exact_eth_for_tokens
          || selector == swap_exact_eth_for_tokens_supporting_fee
      then lit 118 2
      else if selector == swap_exact_tokens_for_eth
          || selector == swap_exact_tokens_for_eth_supporting_fee
      then lit 108 2
      else if selector == swap_exact_tokens_for_tokens
          || selector == swap_exact_tokens_for_tokens_supporting_fee
      then lit 94 2
      else lit 82 2

  abbrev is_zero_some : Option ℕ → Bool
  is_zero_some none = false
  is_zero_some (some n) = n == 0

  unfoldable pub scavenger_slippage_window_hint : SwapSignal f → F
  scavenger_slippage_window_hint signal =
      if is_zero_some signal.amount_out_min
      then lit 95 2
      else if signal.selector == swap_exact_tokens_for_tokens_supporting_fee
          || signal.selector == swap_exact_eth_for_tokens_supporting_fee
          || signal.selector == swap_exact_tokens_for_eth_supporting_fee
      then lit 72 2
      else if leb 3 (path_len signal)
      then lit 52 2
      else lit 30 2

  unfoldable pub scavenger_impact_imbalance_hint : F → F → ℕ → F
  scavenger_impact_imbalance_hint notional_eth min_large_swap_eth len =
      let size_pressure =
        zero_to_one (div (div notional_eth (max_f64 min_large_swap_eth (lit 1 6))) (lit 3 0)) in
      zero_to_one (add (mul size_pressure (lit 78 2)) (if leb len 2 then lit 22 2 else lit 8 2))

  unfoldable pub kind_inefficiency : SwapKind → ℕ → F
  kind_inefficiency v2_kind len = if leb 3 len then lit 72 2 else lit 38 2
  kind_inefficiency (v3_kind fee_tier encoded_path hops exact_out) len =
      if leb 2 hops then lit 78 2 else lit 46 2

  unfoldable pub scavenger_route_inefficiency_hint : SwapSignal f → F
  scavenger_route_inefficiency_hint signal = kind_inefficiency signal.kind (path_len signal)

  unfoldable pub scavenger_fast_try_score : SwapSignal f → F → F → MevConfig f → ContextSignal f → F
  scavenger_fast_try_score signal gas_ratio notional_eth config context =
      let least_swap = config.effective_min_large_swap_eth in
      let low_competition =
        add
          (add (mul (zero_to_one (div (sub (lit 135 2) gas_ratio) (lit 135 2))) (lit 55 2))
            (mul (zero_to_one context.priority_score) (lit 25 2)))
          (mul (sub (lit 1 0) (zero_to_one context.toxicity_score)) (lit 20 2)) in
      let victim_size_factor =
        zero_to_one (div (div notional_eth (max_f64 least_swap (lit 1 6))) (lit 4 0)) in
      zero_to_one (
        add
          (add
            (add
              (add (mul (scavenger_slippage_window_hint signal) (lit 35 2)) (
                mul (scavenger_impact_imbalance_hint notional_eth least_swap (path_len signal))
                  (lit 25 2)))
              (mul low_competition (lit 20 2)))
            (mul (scavenger_route_inefficiency_hint signal) (lit 10 2)))
          (mul victim_size_factor (lit 10 2)))
