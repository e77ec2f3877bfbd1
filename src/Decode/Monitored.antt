-- ===== src/Decode/Monitored.antt =====
-- The choice among the signals of a Universal Router call by their value in monitored tokens
-- (`decode_universal_router_swap_for_monitored` of src/mev/runtime.rs).
use arbitrage_runtime.Base.{
  Bool, List, Option, [], get_elem?, if◌then◌else◌, ltb, none, some, ℕ, ◌&&◌, ◌++◌, ◌==◌, ◌>>=◌,
  ◌||◌, ◌∷◌,
}
use arbitrage_runtime.Base.Float.{Float}
use arbitrage_runtime.Base.Select.{max_by}
use arbitrage_runtime.Decode.Direct.{
  MonitoredTokenConfig, decode_universal_router_swap_candidates, find_token,
}
use arbitrage_runtime.Decode.Signal.{
  SwapSignal, is_exact_out, path_len, swap_exact_eth_for_tokens,
  swap_exact_eth_for_tokens_supporting_fee,
}
use arbitrage_runtime.Decode.Token.{Decoder}

module _ (f : Float) (parse_ether : f.F → Option ℕ)
    (monitored : List (MonitoredTokenConfig f)) where
  unfoldable pub token_value : SwapSignal f → Option (MonitoredTokenConfig f) → Option ℕ
  token_value signal none = none
  token_value signal (some t) =
      parse_ether
        (f.mul (f.div (f.of_nat signal.amount_in) (f.powi (f.lit 10 0) t.decimals)) t.price_eth)

  unfoldable pub estimate_notional_wei : SwapSignal f → Option ℕ
  estimate_notional_wei signal =
      if signal.selector == swap_exact_eth_for_tokens
        || signal.selector == swap_exact_eth_for_tokens_supporting_fee
      then some signal.amount_in
      else (do input ← get_elem? signal.path 0; token_value signal (find_token monitored input))

  -- The order of the ranks: the notional, then exact input before exact output, then the shorter path.
  unfoldable pub exact_in_score : SwapSignal f → ℕ
  exact_in_score signal = if is_exact_out signal.kind then 0 else 1

  unfoldable pub rank_greater : SwapSignal f → SwapSignal f → Bool
  rank_greater a b =
      ltb b.notional_wei a.notional_wei
      || (a.notional_wei == b.notional_wei
          && (ltb (exact_in_score b) (exact_in_score a)
              || (exact_in_score a == exact_in_score b && ltb (path_len a) (path_len b))))

  unfoldable pub with_notional : SwapSignal f → Option ℕ → List (SwapSignal f)
  with_notional signal none = []
  with_notional signal (some notional_wei) = record signal { notional_wei = notional_wei } ∷ []

  unfoldable pub priced_signals : List (SwapSignal f) → List (SwapSignal f)
  priced_signals [] = []
  priced_signals (s ∷ signals) = with_notional s (estimate_notional_wei s) ++ priced_signals signals

  unfoldable pub decode_universal_router_swap_for_monitored :
      Decoder → ℕ → ℕ → List ℕ → Option (SwapSignal f)
  decode_universal_router_swap_for_monitored decode selector router args =
      max_by rank_greater
        (priced_signals (decode_universal_router_swap_candidates f decode selector router args))
