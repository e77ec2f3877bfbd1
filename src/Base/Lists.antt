-- ===== src/Base/Lists.antt =====
-- Lists measured and indexed by native numbers, under the library's names.
use Prim.Native.Nat.{ℕ, zero, suc, ◌+◌, ◌≤◌}
use mathlib.Core.Path.{◌≡◌, refl}
use mathlib.Core.Logic.{◌⊎◌, ◌↔◌, ◌≢◌, inl, inr}
use mathlib.Core.Bool.{Bool, true, false, ◌||◌}
use mathlib.Core.List.{List, [], ◌∷◌, ◌++◌}
use mathlib.Core.Option.{Option, none, some}
use native.Mathlib.Omega.{arith}
use arbitrage_runtime.Base.Tests.{if◌then◌else◌, ◌==◌}

module _ {ℓ} {A : Type ℓ} where
  abbrev pub length : List A → ℕ
  length [] = 0
  length (x ∷ xs) = suc (length xs)

  abbrev pub get_elem? : List A → ℕ → Option A
  get_elem? [] i = none
  get_elem? (x ∷ xs) zero = some x
  get_elem? (x ∷ xs) (suc i) = get_elem? xs i

  abbrev pub take : ℕ → List A → List A
  take zero xs = []
  take (suc n) [] = []
  take (suc n) (x ∷ xs) = x ∷ take n xs

  abbrev pub drop : ℕ → List A → List A
  drop zero xs = xs
  drop (suc n) [] = []
  drop (suc n) (x ∷ xs) = drop n xs

  pub length-append : (xs ys : List A) → length (xs ++ ys) ≡ length xs + length ys
  length-append [] ys = omega arith
  length-append (x ∷ xs) ys = omega (arith, length-append xs ys)

  pub length-take-le : (n : ℕ) (xs : List A) → length (take n xs) ≤ n
  length-take-le zero xs = omega arith
  length-take-le (suc n) [] = omega arith
  length-take-le (suc n) (x ∷ xs) = omega (arith, length-take-le n xs)

  -- `Vec::retain` and `Iterator::filter`.
  abbrev pub retain : (A → Bool) → List A → List A
  retain p [] = []
  retain p (x ∷ xs) = if p x then x ∷ retain p xs else retain p xs

  pub length-retain-le : (p : A → Bool) (xs : List A) → length (retain p xs) ≤ length xs
  length-retain-le p [] = omega arith
  length-retain-le p (x ∷ xs) = ground (arith, length-retain-le p xs)

  -- `Iterator::any`.
  abbrev pub any_of : (A → Bool) → List A → Bool
  any_of p [] = false
  any_of p (x ∷ xs) = p x || any_of p xs

  abbrev pub All {κ} : (A → Type κ) → List A → Type κ
  All P [] = Unit
  All P (x ∷ xs) = P x × All P xs

  pub All-map {κ μ} :
      (P : A → Type κ) (Q : A → Type μ) (xs : List A) → ((x : A) → P x → Q x) → All P xs → All Q xs
  All-map P Q [] g h = tt
  All-map P Q (x ∷ xs) g (h, hs) = (g x h, All-map P Q xs g hs)

  pub All-append {κ} : (P : A → Type κ) (xs ys : List A) → All P xs → All P ys → All P (xs ++ ys)
  All-append P [] ys _ q = q
  All-append P (x ∷ xs) ys (p, ps) q = (p, All-append P xs ys ps q)

  pub All-unappend {κ} : (P : A → Type κ) (xs ys : List A) → All P (xs ++ ys) → All P xs × All P ys
  All-unappend P [] ys q = (tt, q)
  All-unappend P (x ∷ xs) ys (p, pq) = let (ps, q) = All-unappend P xs ys pq in ((p, ps), q)

  -- Some element has the property.
  abbrev pub Any : (A → Type 0) → List A → Type 0
  Any P [] = ⊥
  Any P (x ∷ xs) = P x ⊎ Any P xs

  pub All-cond {κ} :
      (P : A → Type κ) (b : Bool) (x : A) (xs : List A)
      → P x
      → All P xs
      → All P (if b then x ∷ xs else xs)
  All-cond P true x xs h hs = (h, hs)
  All-cond P false x xs h hs = hs

  pub All-retain {κ} :
      (P : A → Type κ) (p : A → Bool) (xs : List A) → All P xs → All P (retain p xs)
  All-retain P p [] h = h
  All-retain P p (x ∷ xs) (h, hs) = All-cond P (p x) x (retain p xs) h (All-retain P p xs hs)

module _ {ℓ} {A : Type ℓ} (p : A → Bool) where
  retain-holds_cond :
      (x : A) (xs : List A) (b : Bool)
      → p x ≡ b
      → All (λ y. p y ≡ true) xs
      → All (λ y. p y ≡ true) (if b then x ∷ xs else xs)
  retain-holds_cond x xs true e h = (e, h)
  retain-holds_cond x xs false e h = h

  -- What is kept passes the test.
  pub retain-holds : (xs : List A) → All (λ y. p y ≡ true) (retain p xs)
  retain-holds [] = tt
  retain-holds (x ∷ xs) = retain-holds_cond x (retain p xs) (p x) refl (retain-holds xs)

  Any-cond :
      (P : A → Type 0) (x : A) (xs : List A) (b : Bool)
      → p x ≡ b
      → ((y : A) → P y → p y ≡ true)
      → P x ⊎ Any P xs
      → Any P (if b then x ∷ xs else xs)
  Any-cond P x xs true e h m = m
  Any-cond P x xs false e h (inl m) = absurd (cc (h x m))
  Any-cond P x xs false e h (inr m) = m

  -- What passes the test is kept.
  pub Any-retain :
      (P : A → Type 0) (xs : List A) → ((y : A) → P y → p y ≡ true) → Any P xs → Any P (retain p xs)
  Any-retain P [] h m = m
  Any-retain P (x ∷ xs) h (inl m) = Any-cond P x (retain p xs) (p x) refl h (inl m)
  Any-retain P (x ∷ xs) h (inr m) =
      Any-cond P x (retain p xs) (p x) refl h (inr (Any-retain P xs h m))

-- `contains` on a list of numbers: hashes, addresses, tokens.
abbrev pub contains : List ℕ → ℕ → Bool
contains [] a = false
contains (x ∷ xs) a = x == a || contains xs a

pub contains_iff : (xs : List ℕ) (a : ℕ) → (contains xs a ≡ true) ↔ Any (λ x. x ≡ a) xs
contains_iff [] a = ground arith
contains_iff (x ∷ xs) a = ground (arith, contains_iff xs a)

module _ {ℓ} {A : Type ℓ} where
  pub Any-append_left : (P : A → Type 0) (xs ys : List A) → Any P xs → Any P (xs ++ ys)
  Any-append_left P [] ys h = elim h [ ]
  Any-append_left P (x ∷ xs) ys (inl h) = inl h
  Any-append_left P (x ∷ xs) ys (inr h) = inr (Any-append_left P xs ys h)

  pub Any-append_right : (P : A → Type 0) (xs ys : List A) → Any P ys → Any P (xs ++ ys)
  Any-append_right P [] ys h = h
  Any-append_right P (x ∷ xs) ys h = inr (Any-append_right P xs ys h)

  pub Any-append : (P : A → Type 0) (xs ys : List A) → Any P (xs ++ ys) → Any P xs ⊎ Any P ys
  Any-append P [] ys h = inr h
  Any-append P (x ∷ xs) ys (inl h) = inl (inl h)
  Any-append P (x ∷ xs) ys (inr h) = elim (Any-append P xs ys h) [
    | inl l ↦ inl (inr l)
    | inr r ↦ inr r
  ]

  -- No element of the list equals a later one.
  abbrev pub Distinct : List A → Type ℓ
  Distinct [] = Unit
  Distinct (x ∷ xs) = All (λ y. x ≢ y) xs × Distinct xs

  pub Distinct-snoc :
      (xs : List A) (y : A) → Distinct xs → All (λ x. x ≢ y) xs → Distinct (xs ++ (y ∷ []))
  Distinct-snoc [] y d h = (tt, tt)
  Distinct-snoc (x ∷ xs) y (n, d) (h, hs) =
      (All-append (λ z. x ≢ z) xs (y ∷ []) n (h, tt), Distinct-snoc xs y d hs)
