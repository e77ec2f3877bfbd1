-- ===== src/Base/Assoc.antt =====
-- A hash map as an association list with one entry for a key, over the key's equality test.
use arbitrage_runtime.Base.{
  All, Bool, Bool-cases, Distinct, List, Option, [], arith, false, if◌then◌else◌, inl, inr, none,
  not, refl, retain, some, sym, true, ◌↔◌, ◌∙◌, ◌∷◌, ◌≡◌, ◌≢◌,
}
use mathlib.Core.Path.{subst}

module _ {ℓ} {K V : Type ℓ} (eq : K → K → Bool) where
  unfoldable pub get : K → List (K × V) → Option V
  get k [] = none
  get k ((j, v) ∷ m) = if eq j k then some v else get k m

  -- `insert` replaces the entry of the key, or adds one.
  unfoldable pub insert : K → V → List (K × V) → List (K × V)
  insert k v [] = (k, v) ∷ []
  insert k v ((j, w) ∷ m) = if eq j k then (j, v) ∷ m else (j, w) ∷ insert k v m

  unfoldable pub remove : K → List (K × V) → List (K × V)
  remove k = retain (λ e. not (eq e.0 k))

  -- `HashMap::retain` with a test of the value.
  unfoldable pub retain_values : (V → Bool) → List (K × V) → List (K × V)
  retain_values p = retain (λ e. p e.1)

  abbrev pub keys : List (K × V) → List K
  keys [] = []
  keys ((k, v) ∷ m) = k ∷ keys m

  module _ (eq_iff : (a b : K) → (eq a b ≡ true) ↔ (a ≡ b)) where
    pub get-insert :
        (k j : K) (v : V) (m : List (K × V))
        → get j (insert k v m) ≡ (if eq k j then some v else get j m)
    unfolding get insert
    get-insert k j v [] = refl
    get-insert k j v ((i, w) ∷ m) =
        ground (arith, eq_iff k j, eq_iff i k, eq_iff i j, get-insert k j v m)

    pub get-remove :
        (k j : K) (m : List (K × V)) → get j (remove k m) ≡ (if eq k j then none else get j m)
    unfolding get remove
    get-remove k j [] = ground arith
    get-remove k j ((i, w) ∷ m) =
        ground (arith, eq_iff k j, eq_iff i k, eq_iff i j, get-remove k j m)

    pub get-insert_same : (k : K) (v : V) (m : List (K × V)) → get k (insert k v m) ≡ some v
    get-insert_same k v m = get-insert k k v m ∙ rw ((eq_iff k k).1 refl) refl

    pub get-insert_other :
        (k j : K) (v : V) (m : List (K × V)) → eq k j ≡ false → get j (insert k v m) ≡ get j m
    get-insert_other k j v m e = get-insert k j v m ∙ rw e refl

    pub get-remove_same : (k : K) (m : List (K × V)) → get k (remove k m) ≡ none
    get-remove_same k m = get-remove k k m ∙ rw ((eq_iff k k).1 refl) refl

    pub get-remove_other :
        (k j : K) (m : List (K × V)) → eq k j ≡ false → get j (remove k m) ≡ get j m
    get-remove_other k j m e = get-remove k j m ∙ rw e refl

    absent : (k : K) (m : List (K × V)) → All (λ x. k ≢ x) (keys m) → get k m ≡ none
    unfolding get
    absent k [] h = refl
    absent k ((i, w) ∷ m) (h, hs) =
        ground (arith, eq_iff i k, absent k m hs, λ (e : i ≡ k). h (sym e))

    get-none-retain_values :
        (k : K) (p : V → Bool) (m : List (K × V))
        → get k m ≡ none
        → get k (retain_values p m) ≡ none
    unfolding get retain_values
    get-none-retain_values k p [] h = refl
    get-none-retain_values k p ((i, w) ∷ m) h = ground (arith, get-none-retain_values k p m)

    -- What `retain` leaves at a key, where no key has two entries.
    abbrev pub kept_value : (V → Bool) → Option V → Option V
    kept_value p none = none
    kept_value p (some v) = if p v then some v else none

    pub get-retain_values :
        (k : K) (p : V → Bool) (m : List (K × V))
        → Distinct (keys m)
        → get k (retain_values p m) ≡ kept_value p (get k m)
    unfolding get retain_values
    get-retain_values k p [] d = refl
    get-retain_values k p ((i, w) ∷ m) (n, d) = elim (Bool-cases (eq i k)) [
      | inl e ↦
          let gone = subst (λ x. get x m ≡ none) ((eq_iff i k).0 e) (absent i m n) in
          ground (arith, get-none-retain_values k p m gone)
      | inr e ↦ ground (arith, get-retain_values k p m d)
    ]

    All-keys-insert :
        (P : K → Type ℓ) (k : K) (v : V) (m : List (K × V))
        → P k
        → All P (keys m)
        → All P (keys (insert k v m))
    unfolding insert
    All-keys-insert P k v [] h hs = (h, tt)
    All-keys-insert P k v ((i, w) ∷ m) h (hi, hs) = elim (Bool-cases (eq i k)) [
      | inl e ↦ rw e (hi, hs)
      | inr e ↦ rw e (hi, All-keys-insert P k v m h hs)
    ]

    pub Distinct-insert :
        (k : K) (v : V) (m : List (K × V)) → Distinct (keys m) → Distinct (keys (insert k v m))
    unfolding insert
    Distinct-insert k v [] d = (tt, tt)
    Distinct-insert k v ((i, w) ∷ m) (n, d) = elim (Bool-cases (eq i k)) [
      | inl e ↦ rw e (n, d)
      | inr e ↦ rw e (
        All-keys-insert (λ x. i ≢ x) k v m (λ same. cc ((eq_iff i k).1 same)) n,
        Distinct-insert k v m d,
      )
    ]

    All-keys-retain :
        (P : K → Type ℓ) (p : K × V → Bool) (m : List (K × V))
        → All P (keys m)
        → All P (keys (retain p m))
    All-keys-retain P p [] h = h
    All-keys-retain P p ((i, w) ∷ m) (h, hs) = elim (Bool-cases (p (i, w))) [
      | inl e ↦ rw e (h, All-keys-retain P p m hs)
      | inr e ↦ rw e (All-keys-retain P p m hs)
    ]

    pub Distinct-retain :
        (p : K × V → Bool) (m : List (K × V)) → Distinct (keys m) → Distinct (keys (retain p m))
    Distinct-retain p [] d = d
    Distinct-retain p ((i, w) ∷ m) (n, d) = elim (Bool-cases (p (i, w))) [
      | inl e ↦ rw e (All-keys-retain (λ x. i ≢ x) p m n, Distinct-retain p m d)
      | inr e ↦ rw e (Distinct-retain p m d)
    ]
