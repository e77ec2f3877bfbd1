-- ===== src/Lookup/Budget/Bounds.antt =====
-- The bounds of the budget of lookups.
use arbitrage_runtime.Base.{
  Bool-cases, Option, arith, inl, inr, leb, leb→le, max, mul_mono, none, some, true, ℕ, ◌*◌, ◌+◌,
  ◌/◌, ◌^◌, ◌≡◌, ◌≤◌,
}
use arbitrage_runtime.Base.Float.{Float, Micros, micros}
use arbitrage_runtime.Lookup.Budget.{
  OpportunityMode, RpcLookupPressure, aggressive, base_budget, budget_floor, conservative,
  default_budget, effective_pending_lookup_budget_for_mode, pressure_multiplier, scavenger,
}
use native.Mathlib.Nat.{div-mul-le_self, one-le-pow}

-- What rounding promises of a product with a factor of at most one.
pub record RoundLaws (f : Float) : Type 0 where
  pub lit_le_one : (n k : ℕ) → n ≤ 10 ^ k → f.le (f.lit n k) (f.lit 1 0) ≡ true
  pub round_le :
      (n : ℕ) (m : f.F) → f.le m (f.lit 1 0) ≡ true → f.round_to_nat (f.mul (f.of_nat n) m) ≤ n

base_budget-le :
    (mode : OpportunityMode) (configured : Option ℕ) (p : RpcLookupPressure)
    → base_budget mode configured p ≤ 1_000
unfolding base_budget default_budget
base_budget-le conservative none p = omega arith
base_budget-le aggressive none p = omega arith
base_budget-le scavenger none p = omega arith
base_budget-le mode (some c) p = omega arith

budget_floor-le : (p : RpcLookupPressure) → budget_floor p ≤ 10
unfolding budget_floor
budget_floor-le p = ground arith

-- Whole numbers of millionths round so.
micros_round : (n m : ℕ) → m ≤ 10 ^ 6 → (n * 10 ^ 6 * m / 10 ^ 6 + 500_000) / 10 ^ 6 ≤ n
micros_round n m h = omega (arith, mul_mono (n * 10 ^ 6) m (n * 10 ^ 6) (10 ^ 6) (omega arith) h)

micros_le_one : (n k : ℕ) → n ≤ 10 ^ k → micros n k ≤ 10 ^ 6
micros_le_one n k h =
    let pos : 1 ≤ 10 ^ k = one-le-pow k 10 (omega arith) in
    let part : n * 10 ^ 6 / 10 ^ k * 10 ^ k ≤ n * 10 ^ 6 = div-mul-le_self (n * 10 ^ 6) (10 ^ k) in
    elim (Bool-cases (leb (micros n k) (10 ^ 6))) [
      | inl e ↦ leb→le (micros n k) (10 ^ 6) e
      | inr e ↦
          let above : 10 ^ 6 + 1 ≤ n * 10 ^ 6 / 10 ^ k = ground arith in
          absurd (
            omega (
              arith,
              mul_mono (10 ^ 6 + 1) (10 ^ k) (n * 10 ^ 6 / 10 ^ k) (10 ^ k) above (omega arith),
            ))
    ]

pub Micros-RoundLaws : RoundLaws Micros
Micros-RoundLaws = record {
  lit_le_one = λ n k h. ground (arith, micros_le_one n k h);
  round_le = λ n m h. micros_round n m (ground arith);
}

module _ (f : Float) (laws : RoundLaws f) where
  open laws use {lit_le_one, round_le}

  multiplier_le_one :
      (configured : Option ℕ) (p : RpcLookupPressure)
      → f.le (pressure_multiplier f configured p) (f.lit 1 0) ≡ true
  unfolding pressure_multiplier
  multiplier_le_one (some c) p = ground (
    arith,
    lit_le_one 5 2 (omega arith),
    lit_le_one 25 2 (omega arith),
    lit_le_one 60 2 (omega arith),
    lit_le_one 1 0 (omega arith),
  )
  multiplier_le_one none p = ground (
    arith,
    lit_le_one 3 2 (omega arith),
    lit_le_one 18 2 (omega arith),
    lit_le_one 28 2 (omega arith),
    lit_le_one 45 2 (omega arith),
    lit_le_one 1 0 (omega arith),
  )

  -- Where a factor of at most one rounds to no more, the budget lies between the floor, of ten lookups a
  -- second with a reader available and of four without, and the greater of the floor and the base: the
  -- configured or default number within the readers' capacity.
  pub effective_budget_bounds :
      (mode : OpportunityMode) (configured : Option ℕ) (p : RpcLookupPressure)
      → (budget_floor p ≤ effective_pending_lookup_budget_for_mode f mode configured p)
        × (effective_pending_lookup_budget_for_mode f mode configured p
            ≤ max (base_budget mode configured p) (budget_floor p))
        × (effective_pending_lookup_budget_for_mode f mode configured p ≤ 1_000)
  unfolding effective_pending_lookup_budget_for_mode
  effective_budget_bounds mode configured p =
      let rounded =
        round_le (base_budget mode configured p) (pressure_multiplier f configured p)
          (multiplier_le_one configured p) in
      (
        omega arith,
        omega (arith, rounded),
        omega (arith, rounded, base_budget-le mode configured p, budget_floor-le p),
      )
