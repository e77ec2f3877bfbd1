-- ===== src/Lookup/Seen.antt =====
-- The window of transactions already seen (`mark_seen_tx` of src/mev/runtime.rs). A set of hashes is a
-- list, to which `insert` adds at the front and from which `remove` takes every entry.
use arbitrage_runtime.Base.{
  ==_iff, ==_refl, All, Bool, Bool-cases, Distinct, Distinct-snoc, List, [], arith, contains, false,
  if◌then◌else◌, inl, inr, length, ltb, not, refl, retain, sym, true, ℕ, ◌&&◌, ◌++◌, ◌==◌, ◌||◌,
  ◌∙◌, ◌∷◌, ◌≡◌, ◌≢◌, ◌≤◌,
}

pub record Seen : Type 0 where
  pub seen_hashes : List ℕ
  pub seen_order : List ℕ

abbrev pub window : ℕ
window = 8_192

unfoldable pub remove_hash : ℕ → List ℕ → List ℕ
remove_hash old = retain (λ h. not (h == old))

-- The loop that drops the oldest hashes while the order is longer than the window.
unfoldable pub evict : List ℕ → List ℕ → Seen
unfolding remove_hash
evict hashes [] = record { seen_hashes = hashes; seen_order = [] }
evict hashes (old ∷ order) =
    if ltb window (length (old ∷ order))
    then evict (remove_hash old hashes) order
    else record { seen_hashes = hashes; seen_order = old ∷ order }

-- The new state, and whether the transaction is new.
unfoldable pub mark_seen_tx : ℕ → Seen → Seen × Bool
unfolding evict
mark_seen_tx hash seen =
    if contains seen.seen_hashes hash
    then (seen, false)
    else (evict (hash ∷ seen.seen_hashes) (seen.seen_order ++ (hash ∷ [])), true)

-- The order has no repetition and no more entries than so many, and the set has the same hashes.
pub record IsWindow (size : ℕ) (seen : Seen) : Type 0 where
  pub bounded : length seen.seen_order ≤ size
  pub distinct : Distinct seen.seen_order
  pub agree : (h : ℕ) → contains seen.seen_hashes h ≡ contains seen.seen_order h

contains-snoc : (xs : List ℕ) (a h : ℕ) → contains (xs ++ (a ∷ [])) h ≡ (contains xs h || a == h)
contains-snoc [] a h = ground arith
contains-snoc (x ∷ xs) a h = ground (arith, contains-snoc xs a h)

contains-remove_hash :
    (old : ℕ) (xs : List ℕ) (h : ℕ)
    → contains (remove_hash old xs) h ≡ (contains xs h && not (h == old))
unfolding remove_hash
contains-remove_hash old [] h = refl
contains-remove_hash old (x ∷ xs) h = ground (arith, contains-remove_hash old xs h)

All-ne-contains : (xs : List ℕ) (a : ℕ) → All (λ x. a ≢ x) xs → contains xs a ≡ false
All-ne-contains [] a h = refl
All-ne-contains (x ∷ xs) a (h, hs) =
    ground (arith, All-ne-contains xs a hs, λ (e : x ≡ a). h (sym e))

contains-All-ne : (xs : List ℕ) (a : ℕ) → contains xs a ≡ false → All (λ x. x ≢ a) xs
contains-All-ne [] a h = tt
contains-All-ne (x ∷ xs) a h = ((λ e. ground (arith, e)), contains-All-ne xs a (ground arith))

-- Dropping the oldest leaves the rest a window, whatever its size.
evict-IsWindow :
    (hashes order : List ℕ)
    → Distinct order
    → ((h : ℕ) → contains hashes h ≡ contains order h)
    → IsWindow window (evict hashes order)
unfolding evict
evict-IsWindow hashes [] d agree = record { bounded = omega arith; distinct = tt; agree = agree }
evict-IsWindow hashes (old ∷ order) (fresh, d) agree =
    elim (Bool-cases (ltb window (length (old ∷ order)))) [
      | inl e ↦ rw e (
          evict-IsWindow (remove_hash old hashes) order d (λ h. ground (
            arith,
            contains-remove_hash old hashes h,
            agree h,
            All-ne-contains order old fresh,
            ==_iff old h,
          )))
      | inr e ↦ rw e (record { bounded = ground arith; distinct = (fresh, d); agree = agree })
    ]

-- Marking keeps the window: the order stays without repetition and at most 8192 long, and the set keeps
-- the same hashes as the order. A transaction counts as new exactly when it is not in the window.
pub mark_seen_tx-IsWindow :
    (hash : ℕ) (seen : Seen)
    → IsWindow window seen
    → IsWindow window (mark_seen_tx hash seen).0
      × ((mark_seen_tx hash seen).1 ≡ not (contains seen.seen_order hash))
unfolding mark_seen_tx
mark_seen_tx-IsWindow hash seen w = elim (Bool-cases (contains seen.seen_hashes hash)) [
  | inl e ↦ rw e (w, ground (arith, w.agree hash))
  | inr e ↦
      let absent : contains seen.seen_order hash ≡ false = sym (w.agree hash) ∙ e in
      rw (e, absent)
        (
          evict-IsWindow (hash ∷ seen.seen_hashes) (seen.seen_order ++ (hash ∷ []))
              (Distinct-snoc seen.seen_order hash w.distinct
                (contains-All-ne seen.seen_order hash absent))
              (λ h. ground (arith, contains-snoc seen.seen_order hash h, w.agree h)),
          refl,
        )
]

-- What is marked is in the window afterwards, so a repeated call says that it is not new.
evict-snoc :
    (hashes order : List ℕ) (hash : ℕ)
    → contains (evict hashes (order ++ (hash ∷ []))).seen_order hash ≡ true
unfolding evict
evict-snoc hashes [] hash = ground (arith, ==_refl hash)
evict-snoc hashes (old ∷ order) hash =
    elim (Bool-cases (ltb window (length (old ∷ (order ++ (hash ∷ [])))))) [
      | inl e ↦ rw e (evict-snoc (remove_hash old hashes) order hash)
      | inr e ↦ rw e (ground (arith, contains-snoc order hash hash, ==_refl hash))
    ]

mark_seen_tx-kept :
    (hash : ℕ) (seen : Seen)
    → IsWindow window seen
    → contains (mark_seen_tx hash seen).0.seen_hashes hash ≡ true
unfolding mark_seen_tx
mark_seen_tx-kept hash seen w =
    (mark_seen_tx-IsWindow hash seen w).0.agree hash
    ∙ elim (Bool-cases (contains seen.seen_hashes hash)) [
      | inl e ↦ rw e (sym (w.agree hash) ∙ e)
      | inr e ↦ rw e (evict-snoc (hash ∷ seen.seen_hashes) seen.seen_order hash)
    ]

mark_seen_tx-known :
    (hash : ℕ) (seen : Seen)
    → contains seen.seen_hashes hash ≡ true
    → mark_seen_tx hash seen ≡ (seen, false)
unfolding mark_seen_tx
mark_seen_tx-known hash seen e = rw e refl

-- A transaction that has just been marked is in the window: marking it again at once changes nothing and
-- says that it is not new.
pub mark_seen_tx-twice :
    (hash : ℕ) (seen : Seen)
    → IsWindow window seen
    → mark_seen_tx hash (mark_seen_tx hash seen).0 ≡ ((mark_seen_tx hash seen).0, false)
mark_seen_tx-twice hash seen w =
    mark_seen_tx-known hash (mark_seen_tx hash seen).0 (mark_seen_tx-kept hash seen w)
