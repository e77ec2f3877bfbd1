-- ===== src/Route/Impact.antt =====
-- The worst impact along a route, and the score that weighs a quote by it.
use arbitrage_runtime.Amm.V2.{V2PoolState, amount_out_exact_in, price_impact_bps, reserves_for}
use arbitrage_runtime.Amm.V2.Bounds.{div_bounds}
use arbitrage_runtime.Amm.V2.Sizing.{price_impact_bps-le}
use arbitrage_runtime.Base.{
  >>=-eq-some, All, Any, List, Option, [], arith, else-eq-some, inl, inr, max, min, mul_mono, none,
  refl, saturating_add, saturating_mul, some, suc, u256_max, u64_max, ℕ, ◌*◌, ◌+◌, ◌-◌, ◌/◌, ◌<◌,
  ◌>>=◌, ◌∷◌, ◌≡◌, ◌≤◌, ◌⊎◌,
}
use arbitrage_runtime.Route.{
  impact_hops, misfit, quote_v2_runtime_route_impact_bps, scavenger_v2_route_score,
}
use mathlib.Core.Option.{some-injective}
use mathlib.Core.Path.{subst}
use native.Mathlib.Decide.{dec_lt}

-- The impacts of the hops, in order.
pub hop_impacts : ℕ → List ℕ → List V2PoolState → Option (List ℕ)
hop_impacts amount route [] = some []
hop_impacts amount [] (pool ∷ pools) = none
hop_impacts amount (token_in ∷ []) (pool ∷ pools) = none
hop_impacts amount (token_in ∷ token_out ∷ route) (pool ∷ pools) = do
  (reserve_in, reserve_out) ← reserves_for pool token_in token_out
  amount_out ← amount_out_exact_in amount reserve_in reserve_out pool.fee_bps
  impacts ← hop_impacts amount_out (token_out ∷ route) pools
  some (price_impact_bps amount amount_out reserve_in reserve_out ∷ impacts)

found_after :
    (start here w : ℕ) (impacts : List ℕ)
    → (w ≡ max start here) ⊎ Any (λ i. i ≡ w) impacts
    → (w ≡ start) ⊎ Any (λ i. i ≡ w) (here ∷ impacts)
found_after start here w impacts (inl e) = elim (dec_lt start here) [
  | yes lt ↦ inr (inl (omega arith))
  | no ge ↦ inl (omega arith)
]
found_after start here w impacts (inr m) = inr (inr m)

-- The loop keeps the greatest of what it started from and the hops' impacts.
impact_hops-worst :
    (start amount : ℕ) (route : List ℕ) (pools : List V2PoolState) {w : ℕ}
    → impact_hops start amount route pools ≡ some w
    → (impacts : List ℕ) × (hop_impacts amount route pools ≡ some impacts)
      × (start ≤ w)
      × All (λ i. i ≤ w) impacts
      × ((w ≡ start) ⊎ Any (λ i. i ≡ w) impacts)
unfolding impact_hops hop_impacts
impact_hops-worst start amount route [] h = ([], refl, ground arith, tt, inl (ground arith))
impact_hops-worst start amount [] (pool ∷ pools) h = absurd (cc)
impact_hops-worst start amount (i ∷ []) (pool ∷ pools) h = absurd (cc)
impact_hops-worst start amount (i ∷ o ∷ route) (pool ∷ pools) {w} h =
    let (rs, hr, rest) = >>=-eq-some (reserves_for pool i o) _ h in
    let (mid, hq, tail) = >>=-eq-some (amount_out_exact_in amount rs.0 rs.1 pool.fee_bps) _ rest in
    let here = price_impact_bps amount mid rs.0 rs.1 in
    let (impacts, listed, up, bounded, found) =
      impact_hops-worst (max start here) mid (o ∷ route) pools {w = w} tail in
    (
      here ∷ impacts,
      rw (hr, hq, listed),
      omega arith,
      (omega arith, bounded),
      found_after start here w impacts found,
    )

hop_impacts-le :
    (amount : ℕ) (route : List ℕ) (pools : List V2PoolState) {impacts : List ℕ}
    → hop_impacts amount route pools ≡ some impacts
    → All (λ i. i ≤ 10_000) impacts
unfolding hop_impacts
hop_impacts-le amount route [] h = subst (All (λ i. i ≤ 10_000)) (some-injective _ _ h) tt
hop_impacts-le amount [] (pool ∷ pools) h = absurd (cc)
hop_impacts-le amount (i ∷ []) (pool ∷ pools) h = absurd (cc)
hop_impacts-le amount (i ∷ o ∷ route) (pool ∷ pools) h =
    let (rs, hr, rest) = >>=-eq-some (reserves_for pool i o) _ h in
    let (mid, hq, tail) = >>=-eq-some (amount_out_exact_in amount rs.0 rs.1 pool.fee_bps) _ rest in
    let (impacts, listed, e) = >>=-eq-some (hop_impacts mid (o ∷ route) pools) _ tail in
    subst (All (λ i. i ≤ 10_000)) (some-injective _ _ e)
      (price_impact_bps-le amount mid rs.0 rs.1, hop_impacts-le mid (o ∷ route) pools listed)

Any-All-le : (w n : ℕ) (xs : List ℕ) → All (λ i. i ≤ n) xs → Any (λ i. i ≡ w) xs → w ≤ n
Any-All-le w n [] a m = elim m [ ]
Any-All-le w n (x ∷ xs) (a, as') (inl e) = omega arith
Any-All-le w n (x ∷ xs) (a, as') (inr m) = Any-All-le w n xs as' m

-- The impact of a route bounds the impact of every hop, is zero or the impact of one of them, and is at
-- most 10000 basis points.
pub route_impact-worst :
    (amount : ℕ) (route : List ℕ) (pools : List V2PoolState) {w : ℕ}
    → quote_v2_runtime_route_impact_bps amount route pools ≡ some w
    → (impacts : List ℕ) × (hop_impacts amount route pools ≡ some impacts)
      × All (λ i. i ≤ w) impacts
      × ((w ≡ 0) ⊎ Any (λ i. i ≡ w) impacts)
      × (w ≤ 10_000)
unfolding quote_v2_runtime_route_impact_bps
route_impact-worst amount route pools {w} h =
    let (_, hops) = else-eq-some (misfit route pools) _ h in
    let (impacts, listed, _, bounded, found) =
      impact_hops-worst 0 amount route pools {w = w} hops in
    let small = hop_impacts-le amount route pools listed in
    (
      impacts,
      listed,
      bounded,
      found,
      elim found [ inl e ↦ omega arith | inr m ↦ Any-All-le w 10_000 impacts small m ],
    )

div_antitone : (n m d e : ℕ) → 0 < d → n ≤ m → d ≤ e → n / e ≤ m / d
div_antitone n m d e hd hn he = elim (dec_lt (m / d) (n / e)) [
  | yes lt ↦
      let low = (div_bounds n e (omega arith)).0 in
      let high = (div_bounds m d hd).1 in
      let k : suc (m / d) * d ≤ n / e * e = mul_mono (suc (m / d)) d (n / e) e lt he in
      absurd (omega arith)
  | no ge ↦ omega arith
]

abbrev penalty : ℕ → ℕ → ℕ
penalty i m =
    max
      (min (min (10_000 + min (i * 2) u64_max) u64_max + min ((max (m - 1) 1 - 1) * 250) u64_max)
        u64_max)
      1

penalty_mono : (i j m n : ℕ) → j ≤ i → n ≤ m → (10_000 ≤ penalty j n) × (penalty j n ≤ penalty i m)
penalty_mono i j m n hi hm = (omega arith, omega arith)

-- The score of a route never exceeds the amount, and a route that pays at least as much, with no more
-- impact and no more hops, scores no less.
pub route_score_mono :
    (a b i j m n : ℕ)
    → a ≤ b
    → j ≤ i
    → n ≤ m
    → (scavenger_v2_route_score a i m ≤ a)
      × (scavenger_v2_route_score a i m ≤ scavenger_v2_route_score b j n)
unfolding scavenger_v2_route_score saturating_add saturating_mul
route_score_mono a b i j m n ha hi hm =
    let (floor, _) = penalty_mono i i m m (omega arith) (omega arith) in
    let (floor', above) = penalty_mono i j m n hi hm in
    let capped =
      div_antitone (min (a * 10_000) u256_max) (a * 10_000) 10_000 (penalty i m) (omega arith)
        (omega arith) floor in
    (
      omega arith,
      div_antitone (min (a * 10_000) u256_max) (min (b * 10_000) u256_max) (penalty j n)
          (penalty i m) (omega arith) (omega arith) above,
    )
