-- ===== src/Base/Float.antt =====
-- `f64` as the code uses it: the type and its operations, and the laws of IEEE arithmetic that a
-- theorem names as a hypothesis. The operations are parameters of the model.
use arbitrage_runtime.Base.{
  Bool, arith, false, if◌then◌else◌, leb, ltb, max, min, refl, true, ℕ, ◌*◌, ◌+◌, ◌-◌, ◌/◌, ◌^◌,
  ◌≡◌,
}

pub record Float : Type 1 where
  pub F : Type 0
  -- `lit n k` is the literal n / 10^k.
  pub lit : ℕ → ℕ → F
  -- `as f64`, and the parse of a decimal number.
  pub of_nat : ℕ → F
  pub add : F → F → F
  pub sub : F → F → F
  pub mul : F → F → F
  pub div : F → F → F
  pub lt : F → F → Bool
  pub le : F → F → Bool
  -- `total_cmp` answers `Greater`.
  pub total_greater : F → F → Bool
  pub neg : F → F
  pub max_f64 : F → F → F
  pub min_f64 : F → F → F
  pub abs : F → F
  -- `f64::powi` at an exponent that is not negative.
  pub powi : F → ℕ → F
  -- `f64::round` and the cast `as u64` after it.
  pub round_to_nat : F → ℕ
  -- The cast `as u64`, which drops the fraction and takes 0 for what is negative or not a number.
  pub trunc_to_nat : F → ℕ
  pub is_finite : F → Bool

-- `f64::clamp`.
module _ (f : Float) where
  open f use {F, lt}

  unfoldable pub clamp : F → F → F → F
  clamp lo hi x = if lt x lo then lo else if lt hi x then hi else x

-- Addition of numbers that are not negative, which are no NaN: it does not go down, and it is monotone.
pub record AddLaws (f : Float) : Type 0 where
  pub le_refl : (x : f.F) → f.le (f.lit 0 0) x ≡ true → f.le x x ≡ true
  pub le_trans : (x y z : f.F) → f.le x y ≡ true → f.le y z ≡ true → f.le x z ≡ true
  pub le-add :
      (x y : f.F)
      → f.le (f.lit 0 0) x ≡ true
      → f.le (f.lit 0 0) y ≡ true
      → f.le x (f.add x y) ≡ true
  pub add_mono :
      (x y z : f.F)
      → f.le (f.lit 0 0) x ≡ true
      → f.le x y ≡ true
      → f.le (f.lit 0 0) z ≡ true
      → f.le (f.add x z) (f.add y z) ≡ true
  pub zero_le : f.le (f.lit 0 0) (f.lit 0 0) ≡ true
  pub not_lt : (x y z : f.F) → f.le x y ≡ true → f.lt z y ≡ false → f.lt z x ≡ false

-- An instance that shows that the laws can be met: whole numbers of millionths.
abbrev pub micros : ℕ → ℕ → ℕ
micros n k = n * 10 ^ 6 / 10 ^ k

abbrev pub Micros : Float
Micros = record {
  F = ℕ;
  lit = micros;
  of_nat = λ n. n * 10 ^ 6;
  add = λ a b. a + b;
  sub = λ a b. a - b;
  mul = λ a b. a * b / 10 ^ 6;
  div = λ a b. a * 10 ^ 6 / b;
  lt = ltb;
  le = leb;
  total_greater = λ a b. ltb b a;
  neg = λ a. 0;
  max_f64 = max;
  min_f64 = min;
  abs = λ a. a;
  powi = λ a n. a ^ n * 10 ^ 6 / 10 ^ (6 * n);
  round_to_nat = λ a. (a + 500_000) / 10 ^ 6;
  trunc_to_nat = λ a. a / 10 ^ 6;
  is_finite = λ a. true;
}

pub Micros-AddLaws : AddLaws Micros
Micros-AddLaws = record {
  le_refl = λ x h. ground arith;
  le_trans = λ x y z h k. ground arith;
  le-add = λ x y h k. ground arith;
  add_mono = λ x y z hx h k. ground arith;
  zero_le = refl;
  not_lt = λ x y z h k. ground arith;
}
