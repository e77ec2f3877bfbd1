-- ===== src/Lookup/Batch.antt =====
-- Micro-batches of candidates (`MicroBatcher` of src/mev/runtime.rs).
use arbitrage_runtime.Base.{
  All, Bool, List, Option, Option-cases, [], arith, false, get_elem?, if◌then◌else◌, inl, inr, leb,
  length, none, not, refl, some, sym, ℕ, ◌++◌, ◌-◌, ◌==◌, ◌>>=◌, ◌||◌, ◌↔◌, ◌∙◌, ◌∷◌, ◌≡◌, ◌≤◌,
}
use arbitrage_runtime.Base.Float.{Float, clamp}
use arbitrage_runtime.Base.Indexed.{
  All-enumerate, Removed, enumerate, enumerate-elements, swap_remove, swap_remove-Removed,
}
use arbitrage_runtime.Base.Select.{IsPreorder, max_by, max_by-All, max_by-max}
use arbitrage_runtime.Base.Time.{from_millis, since}
use mathlib.Core.List.{Perm}
use mathlib.Core.Option.{some-injective}
use mathlib.Core.Path.{subst}

pub record MicroBatcher (C : Type 0) : Type 0 where
  pub opened_at : Option ℕ
  pub candidates : List C

abbrev pub microbatch_window_ms : ℕ
microbatch_window_ms = 45

abbrev pub microbatch_max_candidates : ℕ
microbatch_max_candidates = 4

abbrev opened : ℕ → Option ℕ → Option ℕ
opened now none = some now
opened now (some at) = some at

abbrev waited : ℕ → Option ℕ → Bool
waited now none = false
waited now (some at) = leb (from_millis microbatch_window_ms) (since now at)

pub record PendingExecutionCandidate (f : Float) (O : Type 0) : Type 0 where
  pub opportunity : O
  pub ev_real_usd : f.F
  pub p_positive : f.F
  pub capital_efficiency : f.F
  pub relay_score : f.F
  pub context_priority_score : f.F

module _ (f : Float) (O : Type 0) where
  open f use {F, lit, add, sub, mul, max_f64, total_greater}

  abbrev Candidate : Type 0
  Candidate = PendingExecutionCandidate f O

  abbrev unit_clamp : F → F
  unit_clamp x = clamp f (lit 0 0) (lit 1 0) x

  unfoldable pub ranking_score : Candidate → F
  ranking_score c =
      mul
        (mul
          (mul
            (mul (max_f64 c.ev_real_usd (lit 0 0))
              (add (lit 65 2) (mul (unit_clamp c.p_positive) (lit 35 2))))
            (add (lit 70 2) (mul (unit_clamp c.context_priority_score) (lit 30 2))))
          (add (lit 72 2) (mul (unit_clamp c.capital_efficiency) (lit 28 2))))
        (sub (lit 1 0) (mul (unit_clamp c.relay_score) (lit 20 2)))

  abbrev pub ranks_above : Candidate → Candidate → Bool
  ranks_above a b = total_greater (ranking_score a) (ranking_score b)

  abbrev indexed_above : ℕ × Candidate → ℕ × Candidate → Bool
  indexed_above a b = ranks_above a.1 b.1

  unfoldable pub push : ℕ → Candidate → MicroBatcher Candidate → MicroBatcher Candidate
  push now candidate b = record {
    opened_at = opened now b.opened_at;
    candidates = b.candidates ++ (candidate ∷ []);
  }

  unfoldable pub should_flush : ℕ → MicroBatcher Candidate → Bool
  should_flush now b = leb microbatch_max_candidates (length b.candidates) || waited now b.opened_at

  unfoldable pub has_pending : MicroBatcher Candidate → Bool
  has_pending b = not (length b.candidates == 0)

  -- The best candidate with the number of the others, and the batcher that keeps those.
  unfoldable pub drain_best :
      ℕ → MicroBatcher Candidate → Option (Candidate × ℕ × MicroBatcher Candidate)
  drain_best now b = do
    (best_index, _best) ← max_by indexed_above (enumerate 0 b.candidates)
    (best, rest) ← swap_remove best_index b.candidates
    some (
      best,
      length rest,
      record { opened_at = if length rest == 0 then none else some now; candidates = rest },
    )

  -- What a drain of a list of candidates promises.
  abbrev pub Drained : List Candidate → Option (Candidate × ℕ × MicroBatcher Candidate) → Type 0
  Drained candidates none = candidates ≡ []
  Drained candidates (some (best, left, after)) =
      Perm (best ∷ after.candidates) candidates
      × All (λ c. ranks_above c best ≡ false) candidates
      × (left ≡ length after.candidates)
      × ((after.opened_at ≡ none) ↔ (after.candidates ≡ []))

  opened_iff :
      (now : ℕ) (rest : List Candidate)
      → ((if length rest == 0 then none else some now) ≡ none) ↔ (rest ≡ [])
  opened_iff now [] = ground arith
  opened_iff now (c ∷ rest) = ground arith

  removal-Drained :
      (now i : ℕ) (c : Candidate) (candidates : List Candidate)
      (o : Option (Candidate × List Candidate))
      → get_elem? candidates i ≡ some c
      → All (λ d. ranks_above d c ≡ false) candidates
      → Removed i candidates o
      → Drained candidates (
          o >>= λ r. some (
            r.0,
            length r.1,
            record { opened_at = if length r.1 == 0 then none else some now; candidates = r.1 },
          ))
  removal-Drained now i c candidates none e top h = absurd (cc)
  removal-Drained now i c candidates (some (best, rest)) e top (at, p) =
      let same : c ≡ best = some-injective _ _ (sym e ∙ at) in
      (
        p,
        subst (λ b. All (λ d. ranks_above d b ≡ false) candidates) same top,
        refl,
        opened_iff now rest,
      )

  empty_of-none :
      (candidates : List Candidate)
      → max_by indexed_above (enumerate 0 candidates) ≡ none
      → candidates ≡ []
  unfolding max_by enumerate
  empty_of-none [] h = refl
  empty_of-none (c ∷ cs) h = absurd (cc)

  -- Where the comparison of scores is a total preorder, draining a batch of one candidate or more always
  -- gives a candidate, above which no candidate of the batch ranks; it and the candidates that stay make
  -- up the batch, their number is reported, and the batch stays open exactly when some stay. An empty
  -- batch gives none.
  pub drain_best-Drained :
      IsPreorder indexed_above
      → (now : ℕ) (b : MicroBatcher Candidate) → Drained b.candidates (drain_best now b)
  unfolding drain_best
  drain_best-Drained order now b =
      elim (Option-cases (max_by indexed_above (enumerate 0 b.candidates))) [
        | inl e ↦ rw e (empty_of-none b.candidates e)
        | inr ((i, c), e) ↦
            let element =
              max_by-All indexed_above
                (λ x. (0 ≤ x.0) × (get_elem? b.candidates (x.0 - 0) ≡ some x.1))
                (enumerate 0 b.candidates) (enumerate-elements 0 b.candidates) e in
            let top =
              All-enumerate (λ d. ranks_above d c ≡ false) 0 b.candidates
                (max_by-max indexed_above order (enumerate 0 b.candidates) e) in
            let index : i - 0 ≡ i = omega arith in
            rw e (
              removal-Drained now i c b.candidates (swap_remove i b.candidates)
                (rw index at element.1) top (swap_remove-Removed i b.candidates))
      ]
