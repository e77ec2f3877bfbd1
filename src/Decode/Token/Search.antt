-- ===== src/Decode/Token/Search.antt =====
-- What the searches of a token tree find.
use arbitrage_runtime.Base.{
  Bool, Bool-cases, List, Option, [], if◌then◌else◌, inl, inr, leb, leb→le, length, none, refl,
  some, true, ℕ, ◌++◌, ◌∷◌, ◌≡◌, ◌≤◌,
}
use arbitrage_runtime.Decode.Token.{
  Token, Tokens, address_token, array_token, bytes_token, collect_addresses, fixed_array_token,
  fixed_bytes_token, long_monitored, more_tokens, no_tokens, or_else, other_token, parses,
  path_contains_monitored_token, token_find_address_path, token_find_v3_path_bytes,
  token_tree_find_address_path, token_tree_find_v3_path_bytes, tuple_token, uint_token,
}

-- The byte strings of a tree, from left to right.
unfoldable mutual
  pub leaves : Tokens → List (List ℕ)
  leaves no_tokens = []
  leaves (more_tokens t ts) = token_leaves t ++ leaves ts

  pub token_leaves : Token → List (List ℕ)
  token_leaves (bytes_token value) = value ∷ []
  token_leaves (fixed_bytes_token value) = value ∷ []
  token_leaves (array_token values) = leaves values
  token_leaves (fixed_array_token values) = leaves values
  token_leaves (tuple_token values) = leaves values
  token_leaves (address_token a) = []
  token_leaves (uint_token n) = []
  token_leaves other_token = []

-- The first element that passes a test.
abbrev pub first_that {ℓ} : {A : Type ℓ} → (A → Bool) → List A → Option A
first_that p [] = none
first_that p (x ∷ xs) = if p x then some x else first_that p xs

first_that-append {ℓ} :
    {A : Type ℓ} (p : A → Bool) (xs ys : List A)
    → first_that p (xs ++ ys) ≡ or_else (first_that p xs) (first_that p ys)
first_that-append p [] ys = refl
first_that-append p (x ∷ xs) ys = elim (Bool-cases (p x)) [
  | inl e ↦ rw e refl
  | inr e ↦ rw e (first_that-append p xs ys)
]

mutual
  unfolding token_tree_find_v3_path_bytes token_find_v3_path_bytes leaves token_leaves

  find_v3_path-leaves :
      (ts : Tokens) → token_tree_find_v3_path_bytes ts ≡ first_that parses (leaves ts)
  find_v3_path-leaves no_tokens = refl
  find_v3_path-leaves (more_tokens t ts) =
      rw
        (
          first_that-append parses (token_leaves t) (leaves ts),
          find_v3_path-token_leaves t,
          find_v3_path-leaves ts,
        )
        refl

  find_v3_path-token_leaves :
      (t : Token) → token_find_v3_path_bytes t ≡ first_that parses (token_leaves t)
  find_v3_path-token_leaves (bytes_token value) = refl
  find_v3_path-token_leaves (fixed_bytes_token value) = refl
  find_v3_path-token_leaves (array_token values) = find_v3_path-leaves values
  find_v3_path-token_leaves (fixed_array_token values) = find_v3_path-leaves values
  find_v3_path-token_leaves (tuple_token values) = find_v3_path-leaves values
  find_v3_path-token_leaves (address_token a) = refl
  find_v3_path-token_leaves (uint_token n) = refl
  find_v3_path-token_leaves other_token = refl

-- The search of a token tree for the bytes of a V3 path finds the first byte string of the tree, from
-- left to right and at any depth, that parses as a path, and nothing when none does.
pub token_tree_find_v3_path_bytes-leaves :
    (ts : Tokens) → token_tree_find_v3_path_bytes ts ≡ first_that parses (leaves ts)
token_tree_find_v3_path_bytes-leaves ts = find_v3_path-leaves ts

-- What a search may answer: nothing, or a path of at least two tokens with a monitored one.
abbrev pub Usable : List ℕ → Option (List ℕ) → Type 0
Usable monitored none = Unit
Usable monitored (some path) =
    (2 ≤ length path) × (path_contains_monitored_token path monitored ≡ true)

or_else-Usable :
    (monitored : List ℕ) (x y : Option (List ℕ))
    → Usable monitored x
    → Usable monitored y
    → Usable monitored (or_else x y)
or_else-Usable monitored none y hx hy = hy
or_else-Usable monitored (some path) y hx hy = hx

long_monitored-Usable :
    (monitored : List ℕ) (x : Option (List ℕ)) → Usable monitored (long_monitored monitored x)
unfolding long_monitored
long_monitored-Usable monitored none = tt
long_monitored-Usable monitored (some path) = elim (Bool-cases (leb 2 (length path))) [
  | inl e ↦ elim (Bool-cases (path_contains_monitored_token path monitored)) [
    | inl k ↦ rw (e, k) (leb→le 2 (length path) e, k)
    | inr k ↦ rw (e, k) tt
  ]
  | inr e ↦ rw e tt
]

mutual
  unfolding token_tree_find_address_path token_find_address_path

  tree-Usable :
      (monitored : List ℕ) (ts : Tokens)
      → Usable monitored (token_tree_find_address_path monitored ts)
  tree-Usable monitored no_tokens = tt
  tree-Usable monitored (more_tokens t ts) =
      or_else-Usable monitored (token_find_address_path monitored t)
        (token_tree_find_address_path monitored ts) (token-Usable monitored t)
        (tree-Usable monitored ts)

  token-Usable :
      (monitored : List ℕ) (t : Token) → Usable monitored (token_find_address_path monitored t)
  token-Usable monitored (array_token values) =
      or_else-Usable monitored (long_monitored monitored (collect_addresses values))
        (token_tree_find_address_path monitored values)
        (long_monitored-Usable monitored (collect_addresses values)) (tree-Usable monitored values)
  token-Usable monitored (fixed_array_token values) =
      or_else-Usable monitored (long_monitored monitored (collect_addresses values))
        (token_tree_find_address_path monitored values)
        (long_monitored-Usable monitored (collect_addresses values)) (tree-Usable monitored values)
  token-Usable monitored (tuple_token values) = tree-Usable monitored values
  token-Usable monitored (bytes_token value) = tt
  token-Usable monitored (fixed_bytes_token value) = tt
  token-Usable monitored (address_token a) = tt
  token-Usable monitored (uint_token n) = tt
  token-Usable monitored other_token = tt

-- A path of addresses that the search of a token tree finds has at least two tokens, and one of them is
-- monitored.
pub token_tree_find_address_path-Usable :
    (monitored : List ℕ) (ts : Tokens)
    → Usable monitored (token_tree_find_address_path monitored ts)
token_tree_find_address_path-Usable monitored ts = tree-Usable monitored ts
