-- ===== src/Decode/Consistent/Partial.antt =====
-- Every signal of the partial decoders is consistent.
use Prim.Native.String.{String}
use arbitrage_runtime.Base.{
  Bool-cases, List, Option, [], get_elem?, inl, inr, length, ltb, not, refl, some, ℕ, ◌==◌, ◌||◌,
  ◌∷◌, ◌≡◌, ◌≤◌,
}
use arbitrage_runtime.Base.Float.{Float}
use arbitrage_runtime.Base.Holds.{>>=-AllSome, >>=-any, AllSome, AllSome-both, none_or-AllSome}
use arbitrage_runtime.Decode.Consistent.{Consistent, first_tokens-parsed, parse_v3_path-hops}
use arbitrage_runtime.Decode.Direct.{first_tuple}
use arbitrage_runtime.Decode.Hints.{partial_path_from_monitored_tokens}
use arbitrage_runtime.Decode.Partial.{
  decode_partial_swap_from_monitored_tokens, decode_safe_inner_aggregator_partial,
  decode_swap_exact_eth_for_token_partial, decode_transit_v5_v2_partial,
  decode_transit_v5_v3_partial, exact_eth_for_token_params, first_tokens, guessed_signal,
  if_monitored_path, if_usable, short_or_same, transit_v3_signal,
}
use arbitrage_runtime.Decode.Signal.{
  SwapSignal, safe_inner_selector_8cc7104f, safe_inner_selector_9e7212ad,
}
use arbitrage_runtime.Decode.Token.{
  Decoder, field, path_contains_monitored_token, token_as_address, token_as_bytes, token_as_uint,
  token_tree_find_address_path, token_tree_find_v3_path_bytes,
}
use arbitrage_runtime.Decode.V3Path.{ParsedV3Path, parse_v3_path, parse_v3_path_segments}

module _ (f : Float) (decode : Decoder) (monitored : List ℕ) where
  guessed-Consistent :
      (selector router amount_in : ℕ) (amount_out_min : Option ℕ) (path : List ℕ) (confidence : f.F)
      (source : String)
      → Consistent (
          guessed_signal f decode monitored selector router amount_in amount_out_min path confidence
            source)
  unfolding guessed_signal
  guessed-Consistent selector router amount_in amount_out_min path confidence source = tt

  transit_signal-Consistent :
      (selector router amount_in : ℕ) (path : List ℕ) (p : ParsedV3Path)
      → 1 ≤ p.hops
      → path ≡ p.token_in ∷ p.edge_token_out ∷ []
      → Consistent (transit_v3_signal f decode monitored selector router amount_in path p)
  unfolding transit_v3_signal
  transit_signal-Consistent selector router amount_in path p h e =
      (p.token_in, p.edge_token_out, e, refl, h, (λ no. cc))

  pub guess-Consistent :
      (selector router value : ℕ) (args : List ℕ) (confidence : f.F) (source : String)
      → AllSome Consistent (
          decode_partial_swap_from_monitored_tokens f decode monitored selector router value args
            confidence source)
  unfolding decode_partial_swap_from_monitored_tokens
  guess-Consistent selector router value args confidence source =
      none_or-AllSome (Consistent {f = f})
        (short_or_same (partial_path_from_monitored_tokens monitored args)) (some _)
        (guessed-Consistent _ _ _ _ _ _ _)

  if_usable-Consistent :
      (path : List ℕ) (signal : SwapSignal f)
      → Consistent signal
      → AllSome Consistent (if_usable f decode monitored path signal)
  unfolding if_usable
  if_usable-Consistent path signal h =
      none_or-AllSome (Consistent {f = f})
        (ltb (length path) 2 || not (path_contains_monitored_token path monitored)) (some signal) h

  if_monitored_path-Consistent :
      (path : List ℕ) (signal : SwapSignal f)
      → Consistent signal
      → AllSome Consistent (if_monitored_path f decode monitored path signal)
  unfolding if_monitored_path
  if_monitored_path-Consistent path signal h =
      none_or-AllSome (Consistent {f = f}) (not (path_contains_monitored_token path monitored))
        (some signal) h

  pub eth_for_token-Consistent :
      (selector router value : ℕ) (args : List ℕ)
      → AllSome Consistent
          (decode_swap_exact_eth_for_token_partial f decode monitored selector router value args)
  unfolding decode_swap_exact_eth_for_token_partial
  eth_for_token-Consistent selector router value args =
      >>=-any Consistent (decode exact_eth_for_token_params args) _ λ decoded.
        >>=-any Consistent (field decoded 0 token_as_uint) _ λ amount_in.
          >>=-any Consistent (field decoded 2 token_as_address) _ λ token_out.
            >>=-any Consistent (field decoded 4 token_as_bytes) _
              (λ path. if_usable-Consistent _ _ (guessed-Consistent _ _ _ _ _ _ _))

  pub transit_v3-Consistent :
      (selector router value : ℕ) (args : List ℕ)
      → AllSome Consistent
          (decode_transit_v5_v3_partial f decode monitored selector router value args)
  unfolding decode_transit_v5_v3_partial
  transit_v3-Consistent selector router value args = >>=-any Consistent (first_tuple _) _ λ fields.
      >>=-any Consistent (token_tree_find_v3_path_bytes fields) _ λ path.
        >>=-AllSome
          (λ p.
            (1 ≤ p.hops)
            × (first_tokens (get_elem? (parse_v3_path_segments path) 0) p
                ≡ p.token_in ∷ p.edge_token_out ∷ []))
          Consistent (parse_v3_path path) _
          (AllSome-both (λ p. 1 ≤ p.hops) _ (parse_v3_path path) (parse_v3_path-hops path)
            (first_tokens-parsed path))
          λ p (h, e).
            if_monitored_path-Consistent _ _ (transit_signal-Consistent selector router _ _ p h e)

  pub transit_v2-Consistent :
      (selector router value : ℕ) (args : List ℕ)
      → AllSome Consistent
          (decode_transit_v5_v2_partial f decode monitored selector router value args)
  unfolding decode_transit_v5_v2_partial
  transit_v2-Consistent selector router value args = >>=-any Consistent (first_tuple _) _ λ fields.
      >>=-any Consistent (token_tree_find_address_path monitored fields) _
        (λ path. if_usable-Consistent _ _ (guessed-Consistent _ _ _ _ _ _ _))

  pub safe_inner-Consistent :
      (selector target value : ℕ) (args : List ℕ)
      → AllSome Consistent
          (decode_safe_inner_aggregator_partial f decode monitored selector target value args)
  unfolding decode_safe_inner_aggregator_partial
  safe_inner-Consistent selector target value args =
      none_or-AllSome (Consistent {f = f}) (selector == safe_inner_selector_9e7212ad) _
        (elim (Bool-cases (selector == safe_inner_selector_8cc7104f)) [
          | inl e ↦ rw e (guess-Consistent selector target value args _ _)
          | inr e ↦ rw e (guess-Consistent selector target value args _ _)
        ])
