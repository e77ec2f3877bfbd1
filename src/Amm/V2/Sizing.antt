-- ===== src/Amm/V2/Sizing.antt =====
-- `size_candidates`: which fractions of the capital become candidates, and what each one records.
use arbitrage_runtime.Amm.V2.{
  SizeCandidate, amount_out_exact_in, candidates_from, mul256, price_impact_bps, push_some,
  size_candidate, size_candidates,
}
use arbitrage_runtime.Amm.V2.Bounds.{amount_out_guard}
use arbitrage_runtime.Base.{
  >>=-eq-some, All, Any, Bool-cases, List, Option, [], arith, else-eq-some, false, inl, inr, min,
  none, refl, saturating_mul, saturating_sub, some, suc, u64_max, zero, ℕ, ◌+◌, ◌-◌, ◌/◌, ◌<◌, ◌==◌,
  ◌||◌, ◌∷◌, ◌≡◌, ◌≤◌,
}
use mathlib.Core.Option.{some-injective}

abbrev pub sized : ℕ → ℕ → ℕ
sized capital_cap bps = mul256 capital_cap bps / 10_000

pub price_impact_bps-le : (a out r s : ℕ) → price_impact_bps a out r s ≤ 10_000
unfolding price_impact_bps
price_impact_bps-le a out r s = ground arith

sized_pos : (cap bps : ℕ) → 0 < sized cap bps → 0 < cap
unfolding saturating_mul
sized_pos zero bps h = absurd (omega arith)
sized_pos (suc cap) bps h = omega arith

-- What the loop records for a fraction.
pub record IsPriced (r s cap gas fee bps : ℕ) (c : SizeCandidate) : Type 0 where
  pub fraction : c.capital_fraction_bps ≡ bps
  pub sized_in : c.amount_in ≡ sized cap bps
  pub positive : 0 < c.amount_in
  pub quoted : amount_out_exact_in c.amount_in r s fee ≡ some c.amount_out
  pub gross : c.gross_profit_wei + c.amount_in ≡ c.amount_out
  pub net : c.net_profit_wei + gas + c.amount_in ≡ c.amount_out
  pub profitable : c.amount_in + gas < c.amount_out
  pub roi : c.roi_bps ≤ u64_max
  pub slippage : c.self_slippage_bps ≤ 10_000

module _ (r s cap gas fee : ℕ) where
  candidate-IsPriced :
      (bps : ℕ) (c : SizeCandidate)
      → size_candidate r s cap gas fee bps ≡ some c
      → IsPriced r s cap gas fee bps c
  unfolding size_candidate
  candidate-IsPriced bps c h =
      let (guard, body) = else-eq-some (sized cap bps == 0) _ h in
      let (out, hq, rest) = >>=-eq-some (amount_out_exact_in (sized cap bps) r s fee) _ body in
      let net = saturating_sub (saturating_sub out (sized cap bps)) gas in
      let (net_guard, done) = else-eq-some (net == 0) _ rest in
      let e = some-injective _ _ done in
      rw (← e) (record {
        fraction = refl;
        sized_in = refl;
        positive = ground arith;
        quoted = hq;
        gross = ground arith;
        net = ground arith;
        profitable = ground arith;
        roi = ground arith;
        slippage = price_impact_bps-le (sized cap bps) out r s;
      })

  abbrev pub priced : ℕ → ℕ → SizeCandidate
  priced bps out = record {
    capital_fraction_bps = bps;
    amount_in = sized cap bps;
    amount_out = out;
    gross_profit_wei = out - sized cap bps;
    net_profit_wei = out - sized cap bps - gas;
    roi_bps = min (mul256 (out - sized cap bps - gas) 10_000 / sized cap bps) u64_max;
    self_slippage_bps = price_impact_bps (sized cap bps) out r s;
  }

  candidate_complete :
      (bps out : ℕ)
      → 0 < sized cap bps
      → amount_out_exact_in (sized cap bps) r s fee ≡ some out
      → sized cap bps + gas < out
      → size_candidate r s cap gas fee bps ≡ some (priced bps out)
  unfolding size_candidate
  candidate_complete bps out hp hq h =
      let some_in : (sized cap bps == 0) ≡ false = ground arith in
      let some_net : (out - sized cap bps - gas == 0) ≡ false = ground arith in
      rw (some_in, hq, some_net)

  -- Every candidate is priced for one of the fractions.
  abbrev pub IsPricedFor : List ℕ → SizeCandidate → Type 0
  IsPricedFor fractions c = Any (λ bps. IsPriced r s cap gas fee bps c) fractions

  widen :
      (bps : ℕ) (fractions : List ℕ) (cs : List SizeCandidate)
      → All (IsPricedFor fractions) cs
      → All (IsPricedFor (bps ∷ fractions)) cs
  widen bps fractions [] h = tt
  widen bps fractions (c ∷ cs) (h, hs) = (inr h, widen bps fractions cs hs)

  push-priced :
      (bps : ℕ) (fractions : List ℕ) (o : Option SizeCandidate) (cs : List SizeCandidate)
      → size_candidate r s cap gas fee bps ≡ o
      → All (IsPricedFor fractions) cs
      → All (IsPricedFor (bps ∷ fractions)) (push_some o cs)
  unfolding push_some
  push-priced bps fractions none cs e h = widen bps fractions cs h
  push-priced bps fractions (some c) cs e h =
      (inl (candidate-IsPriced bps c e), widen bps fractions cs h)

  candidates_from-priced :
      (fractions : List ℕ) → All (IsPricedFor fractions) (candidates_from r s cap gas fee fractions)
  unfolding candidates_from
  candidates_from-priced [] = tt
  candidates_from-priced (bps ∷ rest) =
      push-priced bps rest (size_candidate r s cap gas fee bps) _ refl (candidates_from-priced rest)

  -- Every candidate records, for one of the fractions, the share of the capital that it puts in, the
  -- quote for it, and gross and net profit that are the true differences: it gains more than the gas.
  pub size_candidates-priced :
      (fractions : List ℕ) → All (IsPricedFor fractions) (size_candidates r s cap gas fee fractions)
  unfolding size_candidates
  size_candidates-priced fractions = elim (Bool-cases (cap == 0 || r == 0 || s == 0)) [
    | inl e ↦ rw e tt
    | inr e ↦ rw e (candidates_from-priced fractions)
  ]

  push-keeps :
      (P : SizeCandidate → Type 0) (o : Option SizeCandidate) (cs : List SizeCandidate)
      → Any P cs
      → Any P (push_some o cs)
  unfolding push_some
  push-keeps P none cs h = h
  push-keeps P (some c) cs h = inr h

  candidates_from_complete :
      (bps out : ℕ) (fractions : List ℕ)
      → size_candidate r s cap gas fee bps ≡ some (priced bps out)
      → Any (λ b. b ≡ bps) fractions
      → Any (λ c. c ≡ priced bps out) (candidates_from r s cap gas fee fractions)
  unfolding candidates_from push_some
  candidates_from_complete bps out [] e h = elim h [ ]
  candidates_from_complete bps out (b ∷ rest) e (inl same) = rw (same, e) (inl refl)
  candidates_from_complete bps out (b ∷ rest) e (inr h) =
      push-keeps (λ c. c ≡ priced bps out) (size_candidate r s cap gas fee b) _
        (candidates_from_complete bps out rest e h)

  -- No profitable fraction is skipped: if the quote for a fraction's share gains more than the gas,
  -- the candidates hold an entry with that fraction, share, quote and profit.
  pub size_candidates_complete :
      (bps out : ℕ) (fractions : List ℕ)
      → Any (λ b. b ≡ bps) fractions
      → 0 < sized cap bps
      → amount_out_exact_in (sized cap bps) r s fee ≡ some out
      → sized cap bps + gas < out
      → Any (λ c. c ≡ priced bps out) (size_candidates r s cap gas fee fractions)
  unfolding size_candidates
  size_candidates_complete bps out fractions m hp hq h =
      let (_, hr, hs, _) = amount_out_guard (sized cap bps) r s fee hq in
      let capital : (cap == 0) ≡ false = ground (arith, sized_pos cap bps hp) in
      let e : (cap == 0 || r == 0 || s == 0) ≡ false = ground arith in
      rw e (candidates_from_complete bps out fractions (candidate_complete bps out hp hq h) m)
