-- ===== src/Base/Select.antt =====
-- `Iterator::max_by`: of two elements the later is kept, unless the earlier compares greater.
use arbitrage_runtime.Base.{
  All, Bool, Bool-cases, List, Option, [], arith, false, if◌then◌else◌, inl, inr, ltb, none, refl,
  some, true, ℕ, ◌∷◌, ◌≡◌, ◌≢◌,
}
use mathlib.Core.Option.{some-injective}

module _ {ℓ} {A : Type ℓ} (greater : A → A → Bool) where
  unfoldable pub max_from : A → List A → A
  max_from best [] = best
  max_from best (x ∷ xs) = max_from (if greater best x then best else x) xs

  unfoldable pub max_by : List A → Option A
  unfolding max_from
  max_by [] = none
  max_by (x ∷ xs) = some (max_from x xs)

  max_from-All {κ} :
      (P : A → Type κ) (best : A) (xs : List A) → P best → All P xs → P (max_from best xs)
  unfolding max_from
  max_from-All P best [] h hs = h
  max_from-All P best (x ∷ xs) h (hx, hs) = elim (Bool-cases (greater best x)) [
    | inl e ↦ rw e (max_from-All P best xs h hs)
    | inr e ↦ rw e (max_from-All P x xs hx hs)
  ]

  -- What holds of every element holds of the chosen one.
  pub max_by-All {κ} : (P : A → Type κ) (xs : List A) {m : A} → All P xs → max_by xs ≡ some m → P m
  unfolding max_by
  max_by-All P [] h e = absurd (cc)
  max_by-All P (x ∷ xs) (hx, hs) e = rw (← some-injective _ _ e) (max_from-All P x xs hx hs)

  pub max_by-ne-none : (xs : List A) → xs ≢ [] → max_by xs ≢ none
  unfolding max_by
  max_by-ne-none [] h = absurd (h refl)
  max_by-ne-none (x ∷ xs) h = λ e. cc

  -- `greater` is the strict part of a total preorder.
  pub record IsPreorder : Type ℓ where
    pub asymm : (x y : A) → greater x y ≡ true → greater y x ≡ false
    pub trans : (x y z : A) → greater y x ≡ false → greater z y ≡ false → greater z x ≡ false

  module _ (order : IsPreorder) where
    open order use {asymm, trans}

    max_from-max :
        (best : A) (xs : List A) {m : A}
        → max_from best xs ≡ m
        → (greater best m ≡ false) × All (λ x. greater x m ≡ false) xs
    unfolding max_from
    max_from-max best [] e = (
      rw (← e) (elim (Bool-cases (greater best best)) [ inl g ↦ asymm best best g | inr g ↦ g ]),
      tt,
    )
    max_from-max best (x ∷ xs) {m} e = elim (Bool-cases (greater best x)) [
      | inl g ↦
          let (top, rest) = max_from-max best xs {m = m} (rw (g, max_from) at e) in
          (top, (trans _ _ _ top (asymm best x g), rest))
      | inr g ↦
          let (top, rest) = max_from-max x xs {m = m} (rw (g, max_from) at e) in
          (trans _ _ _ top g, (top, rest))
    ]

    -- No element compares greater than the chosen one.
    pub max_by-max : (xs : List A) {m : A} → max_by xs ≡ some m → All (λ x. greater x m ≡ false) xs
    unfolding max_by
    max_by-max [] e = tt
    max_by-max (x ∷ xs) e = max_from-max x xs (some-injective _ _ e)

-- `Iterator::max_by_key` with a number as the key.
module _ {ℓ} {A : Type ℓ} (key : A → ℕ) where
  abbrev pub by_key : A → A → Bool
  by_key x y = ltb (key y) (key x)

  pub by_key-IsPreorder : IsPreorder by_key
  by_key-IsPreorder = record { asymm = λ x y h. ground arith; trans = λ x y z h k. ground arith }
