-- ===== src/Executor/Budget/Kept.antt =====
-- Reservations dropped from a budget.
use arbitrage_runtime.Base.{
  All, Bool, Bool-cases, List, [], false, if◌then◌else◌, inl, inr, ltb, retain, true, ℕ, ◌∷◌,
}
use arbitrage_runtime.Base.Float.{Float}
use arbitrage_runtime.Base.Time.{as_secs, since}
use arbitrage_runtime.Executor.Budget.{CapitalBudget, prune}

-- The first list is what is left of the second when elements are dropped.
pub data Kept {ℓ} {A : Type ℓ} : List A → List A → Type ℓ where
  nil : Kept [] []
  keep : (x : A) {xs ys : List A} → Kept xs ys → Kept (x ∷ xs) (x ∷ ys)
  skip : (x : A) {xs ys : List A} → Kept xs ys → Kept xs (x ∷ ys)

pub Kept-refl {ℓ} : {A : Type ℓ} (xs : List A) → Kept xs xs
Kept-refl [] = nil
Kept-refl (x ∷ xs) = keep x (Kept-refl xs)

pub Kept-cond {ℓ} :
    {A : Type ℓ} (b : Bool) (x : A) (xs ys : List A)
    → Kept xs ys
    → Kept (if b then x ∷ xs else xs) (x ∷ ys)
Kept-cond true x xs ys k = keep x k
Kept-cond false x xs ys k = skip x k

pub retain-Kept {ℓ} : {A : Type ℓ} (p : A → Bool) (xs : List A) → Kept (retain p xs) xs
retain-Kept p [] = nil
retain-Kept p (x ∷ xs) = Kept-cond (p x) x (retain p xs) xs (retain-Kept p xs)

pub Kept-All {ℓ κ} :
    {A : Type ℓ} (P : A → Type κ) {xs ys : List A} → Kept xs ys → All P ys → All P xs
Kept-All P nil h = h
Kept-All P (keep x k) (h, hs) = (h, Kept-All P k hs)
Kept-All P (skip x k) (h, hs) = Kept-All P k hs

module _ (f : Float) where
  pub prune-Kept : (now w : ℕ) (rs : CapitalBudget f) → Kept (prune f now w rs) rs
  unfolding prune
  prune-Kept now w [] = nil
  prune-Kept now w (r ∷ rs) = elim (Bool-cases (ltb w (as_secs (since now r.reserved_at)))) [
    | inl e ↦ rw e (skip r (prune-Kept now w rs))
    | inr e ↦ rw e (Kept-refl (r ∷ rs))
  ]
