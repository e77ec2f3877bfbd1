-- ===== src/Rpc/Burst.antt =====
-- The window of burst reservations.
use arbitrage_runtime.Base.{
  All, Bool-cases, List, [], ap, arith, inl, inr, refl, retain, sym, true, ℕ, ◌∷◌, ◌≡◌, ◌≤◌,
}
use arbitrage_runtime.Rpc.{BurstReservation, in_window, pop_expired}

-- Later in the list is not earlier in time.
abbrev pub IsOrdered : List BurstReservation → Type 0
IsOrdered [] = Unit
IsOrdered (r ∷ rs) = All (λ s. r.reserved_at ≤ s.reserved_at) rs × IsOrdered rs

retain-All :
    (now : ℕ) (r : BurstReservation) (rs : List BurstReservation)
    → in_window now r ≡ true
    → All (λ s. r.reserved_at ≤ s.reserved_at) rs
    → retain (in_window now) rs ≡ rs
retain-All now r [] h all = refl
retain-All now r (s ∷ rs) h (le, all) =
    let here : in_window now s ≡ true = ground arith in
    rw here (ap (λ xs. s ∷ xs) (retain-All now r rs h all))

-- When the reservations stand in order of time, pruning from the front leaves exactly those of the last
-- 1.2 seconds.
pub pop_expired-eq-retain :
    (now : ℕ) (rs : List BurstReservation)
    → IsOrdered rs
    → pop_expired now rs ≡ retain (in_window now) rs
unfolding pop_expired
pop_expired-eq-retain now [] h = refl
pop_expired-eq-retain now (r ∷ rs) (all, h) = elim (Bool-cases (in_window now r)) [
  | inl e ↦ rw e (ap (λ xs. r ∷ xs) (sym (retain-All now r rs e all)))
  | inr e ↦ rw e (pop_expired-eq-retain now rs h)
]
