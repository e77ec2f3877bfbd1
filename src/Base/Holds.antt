-- ===== src/Base/Holds.antt =====
-- What holds of the value of an `Option`, if there is one, and the rule for a chain of steps.
use arbitrage_runtime.Base.{
  All, Bool, List, Option, [], false, get_elem?, if◌then◌else◌, none, some, suc, true, zero, ℕ,
  ◌>>=◌, ◌∷◌,
}

abbrev pub AllSome {ℓ} : {A : Type ℓ} → (A → Type 0) → Option A → Type 0
AllSome P none = Unit
AllSome P (some a) = P a

abbrev pub Anything {ℓ} : {A : Type ℓ} → A → Type 0
Anything a = Unit

pub AllSome-Anything {ℓ} : {A : Type ℓ} (o : Option A) → AllSome Anything o
AllSome-Anything none = tt
AllSome-Anything (some a) = tt

pub >>=-AllSome {ℓ κ} :
    {A : Type ℓ} {B : Type κ} (P : A → Type 0) (Q : B → Type 0) (m : Option A) (g : A → Option B)
    → AllSome P m
    → ((a : A) → P a → AllSome Q (g a))
    → AllSome Q (m >>= g)
>>=-AllSome P Q none g h k = tt
>>=-AllSome P Q (some a) g h k = k a h

-- A step of which nothing is known.
pub >>=-any {ℓ κ} :
    {A : Type ℓ} {B : Type κ} (Q : B → Type 0) (m : Option A) (g : A → Option B)
    → ((a : A) → AllSome Q (g a))
    → AllSome Q (m >>= g)
>>=-any Q none g k = tt
>>=-any Q (some a) g k = k a

pub none_or-AllSome {ℓ} :
    {A : Type ℓ} (P : A → Type 0) (b : Bool) (o : Option A)
    → AllSome P o
    → AllSome P (if b then none else o)
none_or-AllSome P true o h = tt
none_or-AllSome P false o h = h

pub get_elem?-AllSome {ℓ} :
    {A : Type ℓ} (P : A → Type 0) (xs : List A) (i : ℕ) → All P xs → AllSome P (get_elem? xs i)
get_elem?-AllSome P [] i h = tt
get_elem?-AllSome P (x ∷ xs) zero (h, hs) = h
get_elem?-AllSome P (x ∷ xs) (suc i) (h, hs) = get_elem?-AllSome P xs i hs

pub AllSome-weaken {ℓ} :
    {A : Type ℓ} (P Q : A → Type 0) (o : Option A)
    → AllSome P o
    → ((a : A) → P a → Q a)
    → AllSome Q o
AllSome-weaken P Q none h k = tt
AllSome-weaken P Q (some a) h k = k a h

pub AllSome-both {ℓ} :
    {A : Type ℓ} (P Q : A → Type 0) (o : Option A)
    → AllSome P o
    → AllSome Q o
    → AllSome (λ a. P a × Q a) o
AllSome-both P Q none h k = tt
AllSome-both P Q (some a) h k = (h, k)
