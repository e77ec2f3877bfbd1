-- ===== src/Amm/V2/Scoring.antt =====
-- `select_best_size_candidate`, `sizing_score` and `find_roi_optimal_input`, over any model of `f64`.
use arbitrage_runtime.Amm.V2.{SizeCandidate, amount_out_exact_in, size_candidates}
use arbitrage_runtime.Amm.V2.Sizing.{IsPriced, size_candidates-priced}
use arbitrage_runtime.Base.{
  >>=-eq-some, All, Any, Bool, List, Option, [], arith, false, inl, inr, some, ℕ, ◌+◌, ◌<◌, ◌>>=◌,
  ◌∷◌, ◌≡◌,
}
use arbitrage_runtime.Base.Float.{Float, clamp}
use arbitrage_runtime.Base.Select.{IsPreorder, max_by, max_by-All, max_by-max}
use mathlib.Core.Option.{some-injective}
use mathlib.Core.Path.{subst}

module _ (f : Float) where
  open f use {F, lit, of_nat, add, sub, mul, div, total_greater}

  -- `net_profit_wei.to_string().parse::<f64>()` is a number for every `U256`.
  unfoldable pub sizing_score : SizeCandidate → F → F → F
  sizing_score candidate context_priority_score context_toxicity_score =
      let net_profit = of_nat candidate.net_profit_wei in
      let roi_component = div (of_nat candidate.roi_bps) (lit 10_000 0) in
      let size_component = div (of_nat candidate.capital_fraction_bps) (lit 10_000 0) in
      let slippage_penalty = div (of_nat candidate.self_slippage_bps) (lit 10_000 0) in
      let one = lit 1 0 in
      mul
        (mul
          (mul
            (mul (mul net_profit (add one (mul context_priority_score (lit 20 2))))
              (add one (mul roi_component (lit 45 2))))
            (add one (mul size_component (lit 10 2))))
          (sub one (mul context_toxicity_score (lit 42 2))))
        (sub one (mul slippage_penalty (lit 55 2)))

  unfoldable pub score_greater : F → F → SizeCandidate → SizeCandidate → Bool
  score_greater priority toxicity left right =
      total_greater (sizing_score left priority toxicity) (sizing_score right priority toxicity)

  unfoldable pub select_best_size_candidate : List SizeCandidate → F → F → Option SizeCandidate
  select_best_size_candidate candidates context_priority_score context_toxicity_score =
      let priority = clamp f (lit 0 0) (lit 15 1) context_priority_score in
      let toxicity = clamp f (lit 0 0) (lit 1 0) context_toxicity_score in
      max_by (score_greater priority toxicity) candidates

  abbrev pub roi_fractions : List ℕ
  roi_fractions = 50 ∷ 100 ∷ 200 ∷ 350 ∷ 500 ∷ 750 ∷ 1_000 ∷ 1_500 ∷ 2_000 ∷ 2_500 ∷ 3_000 ∷ []

  unfoldable pub find_roi_optimal_input : ℕ → ℕ → ℕ → ℕ → ℕ → Option (ℕ × ℕ)
  find_roi_optimal_input reserve_in reserve_out capital_cap gas_cost_wei fee_bps = do
    best ←
        select_best_size_candidate
          (size_candidates reserve_in reserve_out capital_cap gas_cost_wei fee_bps roi_fractions)
          (lit 1 0) (lit 0 0)
    some (best.amount_in, best.net_profit_wei)

  -- A candidate that is priced for some fraction.
  abbrev Gains : ℕ → ℕ → ℕ → ℕ → SizeCandidate → Type 0
  Gains r s gas fee c =
      (0 < c.net_profit_wei)
      × (amount_out_exact_in c.amount_in r s fee ≡ some (c.net_profit_wei + gas + c.amount_in))

  Gains-of_priced :
      (r s cap gas fee : ℕ) (fractions : List ℕ) (c : SizeCandidate)
      → Any (λ bps. IsPriced r s cap gas fee bps c) fractions
      → Gains r s gas fee c
  Gains-of_priced r s cap gas fee [] c h = elim h [ ]
  Gains-of_priced r s cap gas fee (b ∷ rest) c (inl p) =
      let net = p.net in let more = p.profitable in (omega arith, rw net p.quoted)
  Gains-of_priced r s cap gas fee (b ∷ rest) c (inr h) = Gains-of_priced r s cap gas fee rest c h

  All-gain :
      (r s cap gas fee : ℕ) (fractions : List ℕ) (cs : List SizeCandidate)
      → All (λ c. Any (λ bps. IsPriced r s cap gas fee bps c) fractions) cs
      → All (Gains r s gas fee) cs
  All-gain r s cap gas fee fractions [] h = tt
  All-gain r s cap gas fee fractions (c ∷ cs) (h, hs) =
      (Gains-of_priced r s cap gas fee fractions c h, All-gain r s cap gas fee fractions cs hs)

  -- The optimal input is quoted, and the profit that is reported with it is positive and is the quote
  -- less the input and the gas. This holds whatever the scores are.
  pub find_roi_optimal_input-profit :
      (r s cap gas fee amount profit : ℕ)
      → find_roi_optimal_input r s cap gas fee ≡ some (amount, profit)
      → (0 < profit) × (amount_out_exact_in amount r s fee ≡ some (profit + gas + amount))
  unfolding find_roi_optimal_input select_best_size_candidate
  find_roi_optimal_input-profit r s cap gas fee amount profit h =
      let candidates = size_candidates r s cap gas fee roi_fractions in
      let greater =
        score_greater (clamp f (lit 0 0) (lit 15 1) (lit 1 0))
          (clamp f (lit 0 0) (lit 1 0) (lit 0 0)) in
      let (best, chosen, e) = >>=-eq-some (max_by greater candidates) _ h in
      let gains =
        max_by-All greater (Gains r s gas fee) candidates
          (All-gain r s cap gas fee roi_fractions candidates
            (size_candidates-priced r s cap gas fee roi_fractions))
          chosen in
      let e' = some-injective _ _ e in
      subst (λ (p : ℕ × ℕ). (0 < p.1) × (amount_out_exact_in p.0 r s fee ≡ some (p.1 + gas + p.0)))
        e' gains

  -- When the comparison of scores is a total preorder, the selected candidate has the greatest
  -- score: no candidate's score compares greater.
  pub select_best_size_candidate-max :
      (candidates : List SizeCandidate) (p t : F) {best : SizeCandidate}
      → ((priority toxicity : F) → IsPreorder (score_greater priority toxicity))
      → select_best_size_candidate candidates p t ≡ some best
      → All
          (λ c.
            score_greater (clamp f (lit 0 0) (lit 15 1) p) (clamp f (lit 0 0) (lit 1 0) t) c best
            ≡ false)
          candidates
  unfolding select_best_size_candidate
  select_best_size_candidate-max candidates p t order h =
      max_by-max (score_greater (clamp f (lit 0 0) (lit 15 1) p) (clamp f (lit 0 0) (lit 1 0) t))
        (order _ _) candidates h
