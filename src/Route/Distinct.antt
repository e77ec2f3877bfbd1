-- ===== src/Route/Distinct.antt =====
-- The lists that `Dedup` builds hold each element once, and the same elements as their input.
use arbitrage_runtime.Base.{
  All, Any, Any-append, Any-append_left, Any-append_right, Bool-cases, Distinct, Distinct-snoc,
  List, [], any_of, ap, arith, contains, false, inl, inr, not, refl, true, ℕ, ◌&&◌, ◌↔◌, ◌∷◌, ◌≡◌,
  ◌≢◌, ◌⊎◌,
}
use arbitrage_runtime.Route.Dedup.{
  dedup_address_path, dedup_from, dedup_routes, push_route, retain_unseen, route_eq, route_eq_iff,
}
use mathlib.Core.Path.{subst}

abbrev Known : List ℕ → List (List ℕ) → Type 0
Known r routes = Any (λ x. x ≡ r) routes

absent_of_any_of :
    (out : List (List ℕ)) (route : List ℕ)
    → any_of (λ existing. route_eq existing route) out ≡ false
    → All (λ x. x ≢ route) out
absent_of_any_of [] route h = tt
absent_of_any_of (x ∷ out) route h =
    (λ e. ground (arith, (route_eq_iff x route).1 e), absent_of_any_of out route (ground arith))

Known-of_any_of :
    (out : List (List ℕ)) (route : List ℕ)
    → any_of (λ existing. route_eq existing route) out ≡ true
    → Known route out
Known-of_any_of [] route h = cc
Known-of_any_of (x ∷ out) route h = elim (Bool-cases (route_eq x route)) [
  | inl e ↦ inl ((route_eq_iff x route).0 e)
  | inr e ↦ inr (Known-of_any_of out route (ground arith))
]

push_route-Distinct :
    (out : List (List ℕ)) (route : List ℕ) → Distinct out → Distinct (push_route out route)
unfolding push_route
push_route-Distinct out route d =
    elim (Bool-cases (any_of (λ existing. route_eq existing route) out)) [
      | inl e ↦ rw e d
      | inr e ↦ rw e (Distinct-snoc out route d (absent_of_any_of out route e))
    ]

Known-push_route :
    (r : List ℕ) (out : List (List ℕ)) (route : List ℕ)
    → Known r (push_route out route) ↔ (Known r out ⊎ (route ≡ r))
unfolding push_route
Known-push_route r out route =
    elim (Bool-cases (any_of (λ existing. route_eq existing route) out)) [
      | inl e ↦ rw e (
        λ k. inl k,
        λ k. elim k [
          | inl l ↦ l
          | inr same ↦ subst (λ x. Known x out) same (Known-of_any_of out route e)
        ],
      )
      | inr e ↦ rw e (
        λ k. elim (Any-append (λ x. x ≡ r) out (route ∷ []) k) [
          | inl l ↦ inl l
          | inr (inl same) ↦ inr same
          | inr (inr no_more) ↦ absurd no_more
        ],
        λ k. elim k [
          | inl l ↦ Any-append_left (λ x. x ≡ r) out (route ∷ []) l
          | inr same ↦ Any-append_right (λ x. x ≡ r) out (route ∷ []) (inl same)
        ],
      )
    ]

dedup_from-Distinct : (out routes : List (List ℕ)) → Distinct out → Distinct (dedup_from out routes)
unfolding dedup_from
dedup_from-Distinct out [] d = d
dedup_from-Distinct out (route ∷ routes) d =
    dedup_from-Distinct (push_route out route) routes (push_route-Distinct out route d)

Known-dedup_from :
    (r : List ℕ) (out routes : List (List ℕ))
    → Known r (dedup_from out routes) ↔ (Known r out ⊎ Known r routes)
unfolding dedup_from
Known-dedup_from r out [] = (λ k. inl k, λ k. elim k [ inl l ↦ l | inr no_more ↦ absurd no_more ])
Known-dedup_from r out (route ∷ routes) =
    let (down, up) = Known-dedup_from r (push_route out route) routes in
    let (split, join) = Known-push_route r out route in
    (
      λ k. elim (down k) [
        | inl l ↦ elim (split l) [ inl o ↦ inl o | inr same ↦ inr (inl same) ]
        | inr m ↦ inr (inr m)
      ],
      λ k. elim k [
        | inl o ↦ up (inl (join (inl o)))
        | inr (inl same) ↦ up (inl (join (inr same)))
        | inr (inr m) ↦ up (inr m)
      ],
    )

-- `dedup_routes` keeps each route once and loses none.
pub dedup_routes-Distinct :
    (routes : List (List ℕ))
    → Distinct (dedup_routes routes)
      × ((r : List ℕ) → Any (λ x. x ≡ r) (dedup_routes routes) ↔ Any (λ x. x ≡ r) routes)
unfolding dedup_routes
dedup_routes-Distinct routes = (
  dedup_from-Distinct [] routes tt,
  λ r.
      let (down, up) = Known-dedup_from r [] routes in
      (λ k. elim (down k) [ inl no_more ↦ absurd no_more | inr m ↦ m ], λ k. up (inr k)),
)

unseen_ne : (seen : List ℕ) (a x : ℕ) → a ≡ x → contains seen a ≡ true → contains seen x ≡ false → ⊥
unseen_ne seen a x same h e = cc (ap (contains seen) same)

unseen_absent :
    (seen path : List ℕ) (a : ℕ)
    → contains seen a ≡ true
    → All (λ x. a ≢ x) (retain_unseen seen path)
unfolding retain_unseen
unseen_absent seen [] a h = tt
unseen_absent seen (x ∷ path) a h = elim (Bool-cases (contains seen x)) [
  | inl e ↦ rw (e, retain_unseen) (unseen_absent seen path a h)
  | inr e ↦
      rw (e, retain_unseen)
        (λ same. unseen_ne seen a x same h e, unseen_absent (x ∷ seen) path a (ground arith))
]

retain_unseen-Distinct : (seen path : List ℕ) → Distinct (retain_unseen seen path)
unfolding retain_unseen
retain_unseen-Distinct seen [] = tt
retain_unseen-Distinct seen (x ∷ path) = elim (Bool-cases (contains seen x)) [
  | inl e ↦ rw (e, retain_unseen) (retain_unseen-Distinct seen path)
  | inr e ↦
      rw (e, retain_unseen)
        (unseen_absent (x ∷ seen) path x (ground arith), retain_unseen-Distinct (x ∷ seen) path)
]

contains-retain_unseen :
    (seen path : List ℕ) (a : ℕ)
    → contains (retain_unseen seen path) a ≡ (contains path a && not (contains seen a))
unfolding retain_unseen
contains-retain_unseen seen [] a = refl
contains-retain_unseen seen (x ∷ path) a =
    ground (arith, contains-retain_unseen seen path a, contains-retain_unseen (x ∷ seen) path a)

-- `dedup_address_path` keeps each address once, loses none and adds none.
pub dedup_address_path-Distinct :
    (path : List ℕ)
    → Distinct (dedup_address_path path)
      × ((a : ℕ) → contains (dedup_address_path path) a ≡ contains path a)
unfolding dedup_address_path
dedup_address_path-Distinct path =
    (retain_unseen-Distinct [] path, λ a. ground (arith, contains-retain_unseen [] path a))
