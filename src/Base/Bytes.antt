-- ===== src/Base/Bytes.antt =====
-- Byte strings as lists of numbers: big-endian words (`to_be_bytes`, `from_be_bytes`, the twenty bytes
-- of an address) and slices.
use arbitrage_runtime.Base.{
  List, [], ap, arith, drop, length, length-append, refl, suc, sym, take, zero, ℕ, ◌%◌, ◌*◌, ◌++◌,
  ◌+◌, ◌-◌, ◌/◌, ◌<◌, ◌^◌, ◌∙◌, ◌∷◌, ◌≡◌,
}
use native.Mathlib.Nat.{pow-suc, suc-add, zero-add}

-- `from_be_bytes`, `from_big_endian` and `from_slice`.
unfoldable pub be_from : ℕ → List ℕ → ℕ
be_from acc [] = acc
be_from acc (b ∷ bs) = be_from (acc * 256 + b) bs

unfoldable pub be_value : List ℕ → ℕ
unfolding be_from
be_value bs = be_from 0 bs

-- `to_be_bytes` at a width of so many bytes.
unfoldable pub be_bytes : ℕ → ℕ → List ℕ
be_bytes zero v = []
be_bytes (suc n) v = be_bytes n (v / 256) ++ (v % 256 ∷ [])

-- `bytes[lo..hi]`.
unfoldable pub slice : List ℕ → ℕ → ℕ → List ℕ
slice bytes lo hi = take (hi - lo) (drop lo bytes)

be_from-append :
    (acc : ℕ) (xs : List ℕ) (y : ℕ) → be_from acc (xs ++ (y ∷ [])) ≡ be_from acc xs * 256 + y
unfolding be_from
be_from-append acc [] y = refl
be_from-append acc (x ∷ xs) y = be_from-append (acc * 256 + x) xs y

pub length-be_bytes : (n v : ℕ) → length (be_bytes n v) ≡ n
unfolding be_bytes
length-be_bytes zero v = refl
length-be_bytes (suc n) v =
    omega
      (arith, length-append {0} (be_bytes n (v / 256)) (v % 256 ∷ []), length-be_bytes n (v / 256))

pub be_value-be_bytes : (n v : ℕ) → v < 256 ^ n → be_value (be_bytes n v) ≡ v
unfolding be_value be_bytes
be_value-be_bytes zero v h = omega arith
be_value-be_bytes (suc n) v h = omega (
  arith,
  pow-suc 256 n,
  be_from-append 0 (be_bytes n (v / 256)) (v % 256),
  be_value-be_bytes n (v / 256) (omega (arith, pow-suc 256 n)),
)

pub take-append {ℓ} : {A : Type ℓ} (n : ℕ) (xs ys : List A) → length xs ≡ n → take n (xs ++ ys) ≡ xs
take-append zero [] ys h = refl
take-append zero (x ∷ xs) ys h = absurd (omega arith)
take-append (suc n) [] ys h = absurd (omega arith)
take-append (suc n) (x ∷ xs) ys h = ap (λ l. x ∷ l) (take-append n xs ys (omega arith))

pub drop-append {ℓ} : {A : Type ℓ} (n : ℕ) (xs ys : List A) → length xs ≡ n → drop n (xs ++ ys) ≡ ys
drop-append zero [] ys h = refl
drop-append zero (x ∷ xs) ys h = absurd (omega arith)
drop-append (suc n) [] ys h = absurd (omega arith)
drop-append (suc n) (x ∷ xs) ys h = drop-append n xs ys (omega arith)

drop-nil {ℓ} : {A : Type ℓ} (n : ℕ) → drop {ℓ} {A = A} n [] ≡ []
drop-nil zero = refl
drop-nil (suc n) = refl

pub drop-drop {ℓ} : {A : Type ℓ} (n m : ℕ) (xs : List A) → drop m (drop n xs) ≡ drop (n + m) xs
drop-drop zero m xs = rw (zero-add m) refl
drop-drop (suc n) m [] = drop-nil m ∙ sym (drop-nil (suc n + m))
drop-drop (suc n) m (x ∷ xs) = drop-drop n m xs ∙ rw (suc-add n m) refl

pub length-drop {ℓ} : {A : Type ℓ} (n : ℕ) (xs : List A) → length (drop n xs) ≡ length xs - n
length-drop zero xs = omega arith
length-drop (suc n) [] = omega arith
length-drop (suc n) (x ∷ xs) = omega (arith, length-drop n xs)
