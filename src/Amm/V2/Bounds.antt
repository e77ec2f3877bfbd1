-- ===== src/Amm/V2/Bounds.antt =====
-- `amount_out_exact_in` against the exact quotient, and what bounds the output.
-- Amounts that an on-chain pair can hold are below 2^112, so no operation saturates.
use arbitrage_runtime.Amm.V2.{add256, amount_out_exact_in, mul256}
use arbitrage_runtime.Base.{
  arith, mul_mono, saturating_add_fits, saturating_mul_fits, some, sym, u256_max, ℕ, ◌*◌, ◌+◌, ◌-◌,
  ◌/◌, ◌<◌, ◌^◌, ◌∙◌, ◌≡◌, ◌≤◌,
}
use mathlib.Core.Option.{some-injective}

abbrev pub reserve_limit : ℕ
reserve_limit = 2 ^ 112

-- `n / d` is the whole part of the exact quotient.
pub div_bounds : (n d : ℕ) → 0 < d → (n / d * d ≤ n) × (n < n / d * d + d)
div_bounds n d h = grind arith

module _ (a r s fee : ℕ) (la : a < reserve_limit) (lr : r < reserve_limit) where
  with_fee_fits : mul256 a (10_000 - fee) ≡ a * (10_000 - fee)
  with_fee_fits = saturating_mul_fits u256_max a (10_000 - fee) (
      let h : a * (10_000 - fee) ≤ reserve_limit * 10_000 =
        mul_mono a (10_000 - fee) reserve_limit 10_000 (omega arith) (omega arith) in
      omega arith)

  denominator_fits :
      add256 (mul256 r 10_000) (mul256 a (10_000 - fee)) ≡ r * 10_000 + a * (10_000 - fee)
  denominator_fits =
      let h : a * (10_000 - fee) ≤ reserve_limit * 10_000 =
        mul_mono a (10_000 - fee) reserve_limit 10_000 (omega arith) (omega arith) in
      rw (with_fee_fits, saturating_mul_fits u256_max r 10_000 (omega arith))
        (saturating_add_fits u256_max (r * 10_000) (a * (10_000 - fee)) (omega arith))

  numerator_fits : s < reserve_limit → mul256 (mul256 a (10_000 - fee)) s ≡ a * (10_000 - fee) * s
  numerator_fits ls =
      let h : a * (10_000 - fee) ≤ reserve_limit * 10_000 =
        mul_mono a (10_000 - fee) reserve_limit 10_000 (omega arith) (omega arith) in
      let k : a * (10_000 - fee) * s ≤ reserve_limit * 10_000 * reserve_limit =
        mul_mono (a * (10_000 - fee)) s (reserve_limit * 10_000) reserve_limit h (omega arith) in
      rw with_fee_fits (saturating_mul_fits u256_max (a * (10_000 - fee)) s (omega arith))

-- The exact constant-product quotient.
abbrev pub exact_out : ℕ → ℕ → ℕ → ℕ → ℕ
exact_out a r s fee = a * (10_000 - fee) * s / (r * 10_000 + a * (10_000 - fee))

-- With no saturation the output is the exact constant-product quotient.
pub amount_out_exact :
    (a r s fee : ℕ)
    → 0 < a
    → 0 < r
    → 0 < s
    → fee < 10_000
    → a < reserve_limit
    → r < reserve_limit
    → s < reserve_limit
    → amount_out_exact_in a r s fee ≡ some (exact_out a r s fee)
unfolding amount_out_exact_in
amount_out_exact a r s fee ha hr hs hf la lr ls = ground (
  arith,
  denominator_fits a r s fee la lr,
  numerator_fits a r s fee la lr ls,
  with_fee_fits a r s fee la lr,
)

-- A quote was made only if the guard passed.
pub amount_out_guard :
    (a r s fee : ℕ) {out : ℕ}
    → amount_out_exact_in a r s fee ≡ some out
    → (0 < a) × (0 < r) × (0 < s) × (fee < 10_000)
unfolding amount_out_exact_in
amount_out_guard a r s fee h = ground arith

-- With reserves and input below 2^112 nothing saturates: a quote is the exact quotient of the
-- constant-product formula.
pub amount_out-eq-exact_out :
    (a r s fee : ℕ) {out : ℕ}
    → a < reserve_limit
    → r < reserve_limit
    → s < reserve_limit
    → amount_out_exact_in a r s fee ≡ some out
    → out ≡ exact_out a r s fee
amount_out-eq-exact_out a r s fee la lr ls h =
    let (ha, hr, hs, hf) = amount_out_guard a r s fee h in
    some-injective _ _ (sym h ∙ amount_out_exact a r s fee ha hr hs hf la lr ls)
