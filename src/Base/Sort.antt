-- ===== src/Base/Sort.antt =====
-- `sort_by_key` on lists: a stable sort by insertion, with a number as the key.
use arbitrage_runtime.Base.{
  All, All-map, Bool-cases, List, [], arith, if◌then◌else◌, inl, inr, leb, leb→le, ℕ, ◌∷◌, ◌≤◌,
}

module _ {ℓ} {A : Type ℓ} (key : A → ℕ) where
  -- The element stands before all of the list, so it goes before the equals of its key.
  unfoldable pub insert_sorted : A → List A → List A
  insert_sorted x [] = x ∷ []
  insert_sorted x (y ∷ ys) = if leb (key x) (key y) then x ∷ y ∷ ys else y ∷ insert_sorted x ys

  unfoldable pub sort_by_key : List A → List A
  unfolding insert_sorted
  sort_by_key [] = []
  sort_by_key (x ∷ xs) = insert_sorted x (sort_by_key xs)

  -- Each key is at most the next.
  abbrev pub Sorted : List A → Type 0
  Sorted [] = Unit
  Sorted (x ∷ xs) = All (λ y. key x ≤ key y) xs × Sorted xs

  insert_sorted-All {κ} :
      (P : A → Type κ) (x : A) (xs : List A) → P x → All P xs → All P (insert_sorted x xs)
  unfolding insert_sorted
  insert_sorted-All P x [] h hs = (h, tt)
  insert_sorted-All P x (y ∷ ys) h (hy, hs) = elim (Bool-cases (leb (key x) (key y))) [
    | inl e ↦ rw e (h, (hy, hs))
    | inr e ↦ rw e (hy, insert_sorted-All P x ys h hs)
  ]

  insert_sorted-Sorted : (x : A) (xs : List A) → Sorted xs → Sorted (insert_sorted x xs)
  unfolding insert_sorted
  insert_sorted-Sorted x [] s = (tt, tt)
  insert_sorted-Sorted x (y ∷ ys) (least, s) = elim (Bool-cases (leb (key x) (key y))) [
    | inl e ↦
        let below = leb→le (key x) (key y) e in
        rw e (
          (below, All-map (λ z. key y ≤ key z) (λ z. key x ≤ key z) ys (λ z h. omega arith) least),
          (least, s),
        )
    | inr e ↦ rw e (
      insert_sorted-All (λ z. key y ≤ key z) x ys (ground arith) least,
      insert_sorted-Sorted x ys s,
    )
  ]

  pub sort_by_key-Sorted : (xs : List A) → Sorted (sort_by_key xs)
  unfolding sort_by_key
  sort_by_key-Sorted [] = tt
  sort_by_key-Sorted (x ∷ xs) = insert_sorted-Sorted x (sort_by_key xs) (sort_by_key-Sorted xs)

  pub sort_by_key-All {κ} : (P : A → Type κ) (xs : List A) → All P xs → All P (sort_by_key xs)
  unfolding sort_by_key
  sort_by_key-All P [] h = tt
  sort_by_key-All P (x ∷ xs) (h, hs) =
      insert_sorted-All P x (sort_by_key xs) h (sort_by_key-All P xs hs)
