-- ===== src/Gate/GasCap.antt =====
-- `adaptive_gas_cap_gwei` and the overrides of the adaptive policy's rejections (src/mev/runtime.rs).
use arbitrage_runtime.Base.{
  Bool, Bool-cases, Option, false, if◌then◌else◌, inl, inr, none, some, true, ◌&&◌, ◌≡◌,
}
use arbitrage_runtime.Base.Float.{Float, clamp}
use arbitrage_runtime.Gate.{MevConfig}
use arbitrage_runtime.Lookup.Budget.{aggressive, conservative, scavenger}

-- What the overrides read of the policy's quotes.
pub record PreflightQuote (f : Float) : Type 0 where
  pub upper_bound_ev_usd : f.F
  pub preflight_score : f.F
  pub gas_pressure : f.F

pub record AdaptiveQuote (f : Float) : Type 0 where
  pub ev_real_usd : f.F
  pub p_positive : f.F
  pub risk_score : f.F
  pub gas_pressure : f.F

module _ (f : Float) where
  open f use {F, lit, add, sub, mul, div, neg, lt, le, max_f64}

  unfoldable pub should_override_preflight_reject : MevConfig f → PreflightQuote f → Bool
  should_override_preflight_reject config quote = elim config.opportunity_mode [
    | conservative ↦ false
    | aggressive ↦
        le (mul config.effective_min_profit_usd (lit 45 2)) quote.upper_bound_ev_usd
        && le (lit 12 2) quote.preflight_score
        && le quote.gas_pressure (lit 105 2)
    | scavenger ↦ true
  ]

  unfoldable pub should_override_adaptive_reject : MevConfig f → AdaptiveQuote f → Bool
  should_override_adaptive_reject config quote = elim config.opportunity_mode [
    | conservative ↦ false
    | aggressive ↦
        le config.effective_min_profit_usd quote.ev_real_usd
        && le (lit 20 2) quote.p_positive
        && le quote.risk_score (lit 95 2)
        && le quote.gas_pressure (lit 1 0)
    | scavenger ↦ true
  ]

  unfoldable pub tier_floor : F → F → F
  tier_floor ev hard_cap_gwei =
      if le (lit 25 2) ev
      then lit 1_000 0
      else if le (lit 14 2) ev
      then mul hard_cap_gwei (lit 98 2)
      else if le (lit 10 2) ev
      then lit 850 0
      else if le (lit 5 2) ev
      then lit 450 0
      else if le (lit 2 2) ev
      then mul hard_cap_gwei (lit 95 2)
      else if le (lit 5 3) ev
      then lit 350 0
      else if le (lit 1 3) ev
      then lit 300 0
      else if lt (lit 0 0) ev
      then lit 250 0
      else if le (neg (lit 2 2)) ev
      then lit 150 0
      else lit 120 0

  unfoldable pub continuous_cap : F → F
  continuous_cap ev =
      if lt (lit 0 0) ev
      then add (lit 100 0) (mul ev (lit 3_000 0))
      else add (lit 150 0) (mul ev (lit 1_500 0))

  unfoldable pub size_multiplier : F → F → F
  size_multiplier ev notional_eth =
      if lt (lit 0 0) ev
      then clamp f (lit 1 0) (lit 118 2) (add (lit 95 2) (div notional_eth (lit 40 0)))
      else clamp f (lit 75 2) (lit 115 2) (div notional_eth (lit 10 0))

  unfoldable pub edge_cap : F → F → F
  edge_cap ev hard_cap_gwei =
      if le (lit 2 2) ev
      then tier_floor ev hard_cap_gwei
      else max_f64 (tier_floor ev hard_cap_gwei) (continuous_cap ev)

  -- `f64::clamp` panics, here `none`, unless the lower bound is at most the upper.
  unfoldable pub checked_clamp : F → F → F → Option F
  checked_clamp lo hi x = if le lo hi then some (clamp f lo hi x) else none

  unfoldable pub adaptive_gas_cap_gwei : F → F → F → Option F
  adaptive_gas_cap_gwei ev_upper_bound_usd notional_eth hard_cap_gwei =
      checked_clamp (lit 120 0) (max_f64 hard_cap_gwei (lit 1 0)) (
        mul (edge_cap ev_upper_bound_usd hard_cap_gwei)
          (size_multiplier ev_upper_bound_usd notional_eth))

  -- No bound of a result is exceeded: neither comparison with a bound says so.
  abbrev pub Capped : F → F → Option F → Type 0
  Capped lo hi none = le lo hi ≡ false
  Capped lo hi (some cap) = (le lo hi ≡ true) × (lt cap lo ≡ false) × (lt hi cap ≡ false)

  -- What a comparison of floating-point numbers promises.
  pub record CompareLaws : Type 0 where
    pub lt_irrefl : (x : F) → lt x x ≡ false
    pub not_lt_of_le : (x y : F) → le x y ≡ true → lt y x ≡ false

  checked_clamp-Capped : CompareLaws → (lo hi x : F) → Capped lo hi (checked_clamp lo hi x)
  unfolding checked_clamp clamp
  checked_clamp-Capped laws lo hi x = elim (Bool-cases (le lo hi)) [
    | inr e ↦ rw e e
    | inl e ↦ elim (Bool-cases (lt x lo)) [
      | inl a ↦ rw (e, a) (e, laws.lt_irrefl lo, laws.not_lt_of_le lo hi e)
      | inr a ↦ elim (Bool-cases (lt hi x)) [
        | inl b ↦ rw (e, a, b) (e, laws.not_lt_of_le lo hi e, laws.lt_irrefl hi)
        | inr b ↦ rw (e, a, b) (e, a, b)
      ]
    ]
  ]

  -- The adaptive cap on the gas price exists, and is neither below 120 gwei nor above the hard cap or one
  -- gwei, where 120 gwei is at most the greater of these; for a lower hard cap the function panics.
  pub adaptive_gas_cap_gwei-Capped :
      CompareLaws
      → (ev notional_eth hard_cap_gwei : F)
      → Capped
          (lit 120 0)
          (max_f64 hard_cap_gwei (lit 1 0))
          (adaptive_gas_cap_gwei ev notional_eth hard_cap_gwei)
  unfolding adaptive_gas_cap_gwei
  adaptive_gas_cap_gwei-Capped laws ev notional_eth hard_cap_gwei =
      checked_clamp-Capped laws (lit 120 0) (max_f64 hard_cap_gwei (lit 1 0)) _
