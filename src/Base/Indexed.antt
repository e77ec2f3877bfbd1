-- ===== src/Base/Indexed.antt =====
-- Lists by index: `Vec::swap_remove` and `Iterator::enumerate`.
use arbitrage_runtime.Base.{
  All, All-map, List, Option, [], arith, get_elem?, none, refl, some, suc, zero, ℕ, ◌+◌, ◌-◌, ◌>>=◌,
  ◌∷◌, ◌≡◌, ◌≤◌,
}
use mathlib.Core.List.{Perm}
use mathlib.Core.List.Perm

-- `Vec::swap_remove`: the last element takes the place of the removed one.
module _ {A : Type 0} where
  unfoldable pub last_of : A → List A → A
  last_of x [] = x
  last_of x (y ∷ ys) = last_of y ys

  unfoldable pub all_but_last : A → List A → List A
  all_but_last x [] = []
  all_but_last x (y ∷ ys) = x ∷ all_but_last y ys

  unfoldable pub last_to_front : List A → List A
  unfolding last_of all_but_last
  last_to_front [] = []
  last_to_front (x ∷ xs) = last_of x xs ∷ all_but_last x xs

  unfoldable pub swap_remove : ℕ → List A → Option (A × List A)
  unfolding last_to_front
  swap_remove i [] = none
  swap_remove zero (x ∷ xs) = some (x, last_to_front xs)
  swap_remove (suc i) (x ∷ xs) = do (removed, rest) ← swap_remove i xs; some (removed, x ∷ rest)

  unfoldable pub enumerate : ℕ → List A → List (ℕ × A)
  enumerate i [] = []
  enumerate i (x ∷ xs) = (i, x) ∷ enumerate (i + 1) xs

  last_to_front-Perm : (x : A) (xs : List A) → Perm (last_of x xs ∷ all_but_last x xs) (x ∷ xs)
  unfolding last_of all_but_last
  last_to_front-Perm x [] = Perm.refl (x ∷ [])
  last_to_front-Perm x (y ∷ ys) =
      Perm.trans (Perm.swap x (last_of y ys) (all_but_last y ys))
        (Perm.cons x (last_to_front-Perm y ys))

  -- What a removal gives: the removed element is the one at the index, and with the rest it makes up the
  -- list.
  abbrev pub Removed : ℕ → List A → Option (A × List A) → Type 0
  Removed i xs none = get_elem? xs i ≡ none
  Removed i xs (some (x, rest)) = (get_elem? xs i ≡ some x) × Perm (x ∷ rest) xs

  Removed-suc :
      (i : ℕ) (x : A) (xs : List A) (o : Option (A × List A))
      → Removed i xs o
      → Removed (suc i) (x ∷ xs) (o >>= λ r. some (r.0, x ∷ r.1))
  Removed-suc i x xs none h = h
  Removed-suc i x xs (some (y, rest)) (e, p) = (e, Perm.trans (Perm.swap x y rest) (Perm.cons x p))

  pub swap_remove-Removed : (i : ℕ) (xs : List A) → Removed i xs (swap_remove i xs)
  unfolding swap_remove
  swap_remove-Removed i [] = refl
  swap_remove-Removed zero (x ∷ []) = (refl, Perm.refl (x ∷ []))
  swap_remove-Removed zero (x ∷ y ∷ ys) = (refl, Perm.cons x (last_to_front-Perm y ys))
  swap_remove-Removed (suc i) (x ∷ xs) =
      Removed-suc i x xs (swap_remove i xs) (swap_remove-Removed i xs)

  pub enumerate-elements :
      (k : ℕ) (xs : List A)
      → All (λ e. (k ≤ e.0) × (get_elem? xs (e.0 - k) ≡ some e.1)) (enumerate k xs)
  unfolding enumerate
  enumerate-elements k [] = tt
  enumerate-elements k (x ∷ xs) =
      let none_before : k - k ≡ 0 = omega arith in
      (
        (omega arith, rw none_before refl),
        All-map (λ e. (k + 1 ≤ e.0) × (get_elem? xs (e.0 - (k + 1)) ≡ some e.1))
            (λ e. (k ≤ e.0) × (get_elem? (x ∷ xs) (e.0 - k) ≡ some e.1)) (enumerate (k + 1) xs)
            (λ e (h, at).
              let one_later : e.0 - k ≡ suc (e.0 - (k + 1)) = omega arith in
              (omega arith, rw one_later at))
            (enumerate-elements (k + 1) xs),
      )

  pub All-enumerate :
      (P : A → Type 0) (k : ℕ) (xs : List A) → All (λ e. P e.1) (enumerate k xs) → All P xs
  unfolding enumerate
  All-enumerate P k [] h = tt
  All-enumerate P k (x ∷ xs) (h, hs) = (h, All-enumerate P (k + 1) xs hs)
