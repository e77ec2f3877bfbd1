-- ===== src/Decode/Hints.antt =====
-- What calldata that no decoder reads still shows (src/mev/runtime.rs): monitored tokens by their bytes,
-- an amount by its size, and the path guessed from them.
use Prim.Native.String.{String}
use arbitrage_runtime.Base.{
  Bool, List, Option, [], drop, false, if◌then◌else◌, leb, length, map, min, none, not, retain,
  some, suc, take, true, zero, ℕ, ◌&&◌, ◌+◌, ◌/◌, ◌==◌, ◌^◌, ◌||◌, ◌∷◌,
}
use arbitrage_runtime.Base.Bytes.{be_bytes, be_value}
use arbitrage_runtime.Base.Float.{Float, clamp}
use arbitrage_runtime.Base.Sort.{sort_by_key}
use arbitrage_runtime.Route.Dedup.{dedup_address_path}
use text.Mathlib.Text.{◌==◌ as str_eq}

-- `input.windows(20).position(|window| window == address)`.
unfoldable pub starts_with : List ℕ → List ℕ → Bool
starts_with [] input = true
starts_with (b ∷ bs) [] = false
starts_with (b ∷ bs) (x ∷ xs) = b == x && starts_with bs xs

abbrev one_later : Option ℕ → Option ℕ
one_later none = none
one_later (some n) = some (n + 1)

unfoldable pub window_position : List ℕ → List ℕ → Option ℕ
unfolding starts_with
window_position window [] = none
window_position window (x ∷ xs) =
    let later = one_later (window_position window xs) in
    if starts_with window (x ∷ xs) then some 0 else later

unfoldable pub input_contains_address : List ℕ → ℕ → Bool
unfolding window_position
input_contains_address input address = elim (window_position (be_bytes 20 address) input) [
  | none ↦ false
  | some position ↦ true
]

abbrev push_match : Option ℕ → ℕ → List (ℕ × ℕ) → List (ℕ × ℕ)
push_match none address rest = rest
push_match (some position) address rest = (position, address) ∷ rest

unfoldable pub matches : List ℕ → List ℕ → List (ℕ × ℕ)
unfolding window_position
matches [] input = []
matches (address ∷ monitored) input =
    push_match (window_position (be_bytes 20 address) input) address (matches monitored input)

unfoldable pub monitored_token_addresses_in_input : List ℕ → List ℕ → List ℕ
unfolding matches
monitored_token_addresses_in_input monitored input =
    take 6 (map (λ m. m.1) (sort_by_key (λ m. m.0) (matches monitored input)))

-- `chunks_exact(32)`, with so many chunks left.
unfoldable pub chunks_exact : ℕ → List ℕ → List (List ℕ)
chunks_exact zero input = []
chunks_exact (suc n) input = take 32 input ∷ chunks_exact n (drop 32 input)

abbrev lesser : ℕ → Option ℕ → Option ℕ
lesser x none = some x
lesser x (some y) = some (min x y)

unfoldable pub min_of : List ℕ → Option ℕ
min_of [] = none
min_of (x ∷ xs) = lesser x (min_of xs)

unfoldable pub amount_hint_from_calldata : List ℕ → Option ℕ
unfolding chunks_exact min_of
amount_hint_from_calldata input = min_of (
    retain (λ value. leb 10_000 value && leb value (10 ^ 24))
      (map be_value (chunks_exact (length input / 32) input)))

abbrev polygon_partial_counterpart_tokens : List ℕ
polygon_partial_counterpart_tokens =
    0x2791bca1f2de4661ed88a30c99a7a9449aa84174 ∷ 0xc2132d05d31c914a87c6611c10748aeb04b58e8f
    ∷ 0x0d500b1d8e8ef31e21c99d1db9a6444d3adf1270 ∷ 0x7ceb23fd6bc0add59e62ac25578270cff1b9f619
    ∷ 0x8f3cf7ad23cd3cadbd9735aff958023239c6a063 ∷ []

-- The two loops for a counterpart of a lone anchor: the first other token is pushed.
unfoldable pub counterpart : ℕ → List ℕ → Option ℕ
counterpart anchor [] = none
counterpart anchor (t ∷ ts) = if not (t == anchor) then some t else counterpart anchor ts

unfoldable pub with_counterpart : ℕ → Option ℕ → Option ℕ → List ℕ
with_counterpart anchor (some t) fallback = anchor ∷ t ∷ []
with_counterpart anchor none (some t) = anchor ∷ t ∷ []
with_counterpart anchor none none = anchor ∷ []

unfoldable pub complete_path : List ℕ → List ℕ → List ℕ
unfolding counterpart with_counterpart
complete_path monitored [] = []
complete_path monitored (anchor ∷ []) =
    with_counterpart anchor (counterpart anchor monitored)
      (counterpart anchor polygon_partial_counterpart_tokens)
complete_path monitored (a ∷ b ∷ path) = a ∷ b ∷ path

unfoldable pub partial_path_from_monitored_tokens : List ℕ → List ℕ → List ℕ
unfolding complete_path
partial_path_from_monitored_tokens monitored args =
    complete_path monitored (dedup_address_path (monitored_token_addresses_in_input monitored args))

module _ (f : Float) where
  open f use {F, lit, of_nat, add, sub, mul, div, lt, max_f64}

  unfoldable pub aggregator_slippage_hint : String → ℕ → F
  aggregator_slippage_hint source input_len =
      let size_hint = clamp f (lit 0 0) (lit 35 2) (div (of_nat input_len) (lit 1600 0)) in
      let source_hint =
        if str_eq source "universal_router"
        then lit 62 2
        else if str_eq source "odos" || str_eq source "1inch"
        then lit 58 2
        else if str_eq source "0x_matcha" || str_eq source "paraswap" || str_eq source "kyber"
        then lit 52 2
        else lit 45 2 in
      clamp f (lit 0 0) (lit 95 2) (add source_hint size_hint)

  unfoldable pub notional_size_bucket : F → F → ℕ
  notional_size_bucket notional_eth min_large_swap_eth =
      if lt notional_eth (mul min_large_swap_eth (lit 125 2))
      then 0
      else if lt notional_eth (mul min_large_swap_eth (lit 25 1))
      then 1
      else 2

  unfoldable pub fast_path_penalty : ℕ → F
  fast_path_penalty len =
      if leb len 2
      then lit 0 0
      else if len == 3
      then lit 18 2
      else if len == 4
      then lit 30 2
      else lit 42 2
