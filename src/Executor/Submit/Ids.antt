-- ===== src/Executor/Submit/Ids.antt =====
-- The endpoints that are ranked by health and by path have different ids
-- (`direct_rpc_submit_endpoints` of src/mev/execution/executor.rs).
use Prim.Native.String.{String}
use arbitrage_runtime.Base.{
  All, Bool-cases, Distinct, Distinct-snoc, List, Option, [], arith, false, if◌then◌else◌, inl, inr,
  length, length-append, map, max, none, some, suc, sym, take, true, zero, ℕ, ◌+◌, ◌∷◌, ◌≡◌, ◌≢◌,
  ◌≤◌,
}
use arbitrage_runtime.Executor.Submit.{
  RpcHandle, direct_rpc_submit_endpoints, find_path, has_id, label, push_endpoint, push_endpoints,
  push_found, push_paths,
}
use mathlib.Core.List.{map-append}
use mathlib.Core.Path.{subst}

abbrev ids : List RpcHandle → List ℕ
ids = map (λ e. e.id)

no_id : (i : ℕ) (es : List RpcHandle) → has_id i es ≡ false → All (λ j. j ≢ i) (ids es)
no_id i [] h = tt
no_id i (e ∷ es) h = (ground arith, no_id i es (ground arith))

known_id : (i : ℕ) (es : List RpcHandle) → has_id i es ≡ true → 1 ≤ length es
known_id i [] h = absurd (cc)
known_id i (e ∷ es) h = omega arith

push_endpoint-Distinct :
    (ordered : List RpcHandle) (e : RpcHandle)
    → Distinct (ids ordered)
    → Distinct (ids (push_endpoint ordered e)) × (1 ≤ length (push_endpoint ordered e))
unfolding push_endpoint
push_endpoint-Distinct ordered e d = elim (Bool-cases (has_id e.id ordered)) [
  | inl known ↦ rw known (d, known_id e.id ordered known)
  | inr new ↦ rw new (
    subst Distinct (sym (map-append _ ordered (e ∷ [])))
        (Distinct-snoc (ids ordered) e.id d (no_id e.id ordered new)),
    omega (arith, length-append ordered (e ∷ [])),
  )
]

push_paths-Distinct :
    (endpoints : List RpcHandle) (paths : List String) (ordered : List RpcHandle)
    → Distinct (ids ordered)
    → Distinct (ids (push_paths endpoints paths ordered))
unfolding push_paths
push_paths-Distinct endpoints [] ordered d = d
push_paths-Distinct endpoints (path ∷ paths) ordered d =
    push_paths-Distinct endpoints paths _ (found (find_path path endpoints))
  where
    found : (o : Option RpcHandle) → Distinct (ids (push_found ordered o))
    found none = d
    found (some e) = (push_endpoint-Distinct ordered e d).0

push_endpoints-Distinct :
    (es ordered : List RpcHandle)
    → Distinct (ids ordered)
    → 1 ≤ length es + length ordered
    → Distinct (ids (push_endpoints es ordered)) × (1 ≤ length (push_endpoints es ordered))
unfolding push_endpoints
push_endpoints-Distinct [] ordered d one = (d, omega arith)
push_endpoints-Distinct (e ∷ es) ordered d one =
    let (d', one') = push_endpoint-Distinct ordered e d in
    push_endpoints-Distinct es (push_endpoint ordered e) d' (omega arith)

All-take : (P : ℕ → Type 0) (n : ℕ) (es : List RpcHandle) → All P (ids es) → All P (ids (take n es))
All-take P zero es h = tt
All-take P (suc n) [] h = tt
All-take P (suc n) (e ∷ es) (h, hs) = (h, All-take P n es hs)

Distinct-take : (n : ℕ) (es : List RpcHandle) → Distinct (ids es) → Distinct (ids (take n es))
Distinct-take zero es d = tt
Distinct-take (suc n) [] d = tt
Distinct-take (suc n) (e ∷ es) (h, d) = (All-take (λ j. e.id ≢ j) n es h, Distinct-take n es d)

take_some : (n : ℕ) (es : List RpcHandle) → 1 ≤ n → 1 ≤ length es → 1 ≤ length (take n es)
take_some zero es h k = absurd (omega arith)
take_some (suc n) [] h k = absurd (omega arith)
take_some (suc n) (e ∷ es) h k = omega arith

with_preferred :
    (preferred : RpcHandle) (candidates : List RpcHandle)
    → 1 ≤ length (if has_id preferred.id candidates then candidates else preferred ∷ candidates)
with_preferred preferred [] = omega arith
with_preferred preferred (e ∷ es) = ground arith

-- The endpoints that the ranking of the direct paths is made from have different ids, and there is at
-- least one.
pub direct_rpc_submit_endpoints-Distinct :
    (fanout : ℕ)
    → (rank : List String → List String) → (candidates : List RpcHandle) → (preferred : RpcHandle)
    → let endpoints = direct_rpc_submit_endpoints fanout rank candidates preferred in
      Distinct (map (λ e. e.id) endpoints) × (1 ≤ length endpoints)
unfolding direct_rpc_submit_endpoints
direct_rpc_submit_endpoints-Distinct fanout rank candidates preferred =
    let health = if has_id preferred.id candidates then candidates else preferred ∷ candidates in
    let paths = rank (map label health) in
    let by_path = push_paths-Distinct health paths [] tt in
    let some_health : 1 ≤ length health = with_preferred preferred candidates in
    let (d, one) =
      push_endpoints-Distinct health (push_paths health paths []) by_path (omega arith) in
    (
      Distinct-take (max fanout 1) (push_endpoints health (push_paths health paths [])) d,
      take_some (max fanout 1) _ (omega arith) one,
    )
