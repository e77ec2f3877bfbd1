-- ===== src/Route/Dedup.antt =====
-- Lists without repetition, in the order of first occurrence: `dedup_routes`, `push_unique_address`
-- and `dedup_address_path` of src/mev/runtime.rs.
use arbitrage_runtime.Base.{
  Bool, List, [], any_of, arith, contains, false, if◌then◌else◌, not, true, ℕ, ◌&&◌, ◌++◌, ◌==◌,
  ◌↔◌, ◌∷◌, ◌≡◌,
}

unfoldable pub route_eq : List ℕ → List ℕ → Bool
route_eq [] [] = true
route_eq [] (b ∷ bs) = false
route_eq (a ∷ as') [] = false
route_eq (a ∷ as') (b ∷ bs) = a == b && route_eq as' bs

unfoldable pub push_route : List (List ℕ) → List ℕ → List (List ℕ)
unfolding route_eq
push_route out route =
    if any_of (λ existing. route_eq existing route) out then out else out ++ (route ∷ [])

unfoldable pub dedup_from : List (List ℕ) → List (List ℕ) → List (List ℕ)
unfolding push_route
dedup_from out [] = out
dedup_from out (route ∷ routes) = dedup_from (push_route out route) routes

unfoldable pub dedup_routes : List (List ℕ) → List (List ℕ)
unfolding dedup_from
dedup_routes routes = dedup_from [] routes

unfoldable pub push_unique_address : List ℕ → ℕ → List ℕ
push_unique_address addresses address =
    if not (address == 0) && not (contains addresses address)
    then addresses ++ (address ∷ [])
    else addresses

-- `path.retain(|address| seen.insert(*address))`; `seen` is the hash set.
unfoldable pub retain_unseen : List ℕ → List ℕ → List ℕ
retain_unseen seen [] = []
retain_unseen seen (address ∷ path) = elim (contains seen address) [
  | true ↦ retain_unseen seen path
  | false ↦ address ∷ retain_unseen (address ∷ seen) path
]

unfoldable pub dedup_address_path : List ℕ → List ℕ
unfolding retain_unseen
dedup_address_path path = retain_unseen [] path

pub route_eq_iff : (as' bs : List ℕ) → (route_eq as' bs ≡ true) ↔ (as' ≡ bs)
unfolding route_eq
route_eq_iff [] [] = ground arith
route_eq_iff [] (b ∷ bs) = ground arith
route_eq_iff (a ∷ as') [] = ground arith
route_eq_iff (a ∷ as') (b ∷ bs) = ground (arith, route_eq_iff as' bs)
