-- ===== src/Executor/Observe/Receipts.antt =====
-- What an observed execution counts as.
use arbitrage_runtime.Base.{
  All, Bool-cases, List, Option, Option-cases, [], arith, false, inl, inr, leb, min, none, refl,
  saturating_add, some, suc, sym, true, u64_max, zero, ℕ, ◌+◌, ◌==◌, ◌↔◌, ◌∷◌, ◌≡◌, ◌≤◌, ◌⊎◌,
}
use arbitrage_runtime.Base.Float.{Float}
use arbitrage_runtime.Executor.Guard.{ExecutionResult}
use arbitrage_runtime.Executor.Observe.{
  Balances, Probe, Receipt, TokenMeta, no_receipt, observe_realized_pnl, observe_rounds,
  probe_error, probe_result, receipt_found, receipt_has_required_confirmations, result_of,
  round_result, timeout_result,
}
use mathlib.Core.Path.{subst}

-- The confirmations that an observation requires, over the block of the receipt and the current one.
abbrev pub Confirmed : ℕ → Receipt → Option ℕ → Type 0
Confirmed required receipt current =
    (required ≡ 0)
    ⊎ ((mined : ℕ) × (now : ℕ) × (receipt.block_number ≡ some mined)
        × (current ≡ some now)
        × (min (mined + required) u64_max ≤ now))

-- A probe that answers with a receipt that has them.
abbrev pub HasReceipt : ℕ → Probe → Type 0
HasReceipt required probe_error = ⊥
HasReceipt required no_receipt = ⊥
HasReceipt required (receipt_found receipt current balances) = Confirmed required receipt current

-- No probe of `n` rounds does, and the first probe of `n` rounds that does, with a property of it.
abbrev pub NoneOf : ℕ → ℕ → (ℕ → List Probe) → Type 0
NoneOf required zero probes = Unit
NoneOf required (suc n) probes =
    All (λ p. ¬ HasReceipt required p) (probes 0) × NoneOf required n (λ i. probes (suc i))

abbrev pub FirstIn : ℕ → (Probe → Type 0) → List Probe → Type 0
FirstIn required P [] = ⊥
FirstIn required P (p ∷ ps) =
    (HasReceipt required p × P p) ⊎ ((¬ HasReceipt required p) × FirstIn required P ps)

abbrev pub FirstOf : ℕ → (Probe → Type 0) → ℕ → (ℕ → List Probe) → Type 0
FirstOf required P zero probes = ⊥
FirstOf required P (suc n) probes =
    FirstIn required P (probes 0)
    ⊎ (All (λ p. ¬ HasReceipt required p) (probes 0) × FirstOf required P n (λ i. probes (suc i)))

-- The test decides whether a receipt has its confirmations.
confirmations_decide :
    (required : ℕ) (receipt : Receipt) (current : Option ℕ)
    → ((receipt_has_required_confirmations required receipt current ≡ true)
        × Confirmed required receipt current)
      ⊎ ((receipt_has_required_confirmations required receipt current ≡ false)
          × (¬ Confirmed required receipt current))
unfolding receipt_has_required_confirmations saturating_add
confirmations_decide required receipt current = elim (Bool-cases (required == 0)) [
  | inl zero_required ↦ inl (rw zero_required (refl, inl (ground arith)))
  | inr some_required ↦ elim (Option-cases receipt.block_number) [
    | inl unmined ↦ inr (rw (some_required, unmined) (refl, λ c. ground arith))
    | inr (mined, at_block) ↦ elim (Option-cases current) [
      | inl unknown ↦ inr (rw (some_required, at_block, unknown) (refl, λ c. ground arith))
      | inr (now, known) ↦ elim (Bool-cases (leb (min (mined + required) u64_max) now)) [
        | inl enough ↦ inl (
          rw (some_required, at_block, known, enough) refl,
          inr (mined, now, at_block, known, ground arith),
        )
        | inr few ↦ inr (rw (some_required, at_block, known, few) refl, λ c. ground arith)
      ]
    ]
  ]
]

module _ (f : Float) (required : ℕ) (token : Option (TokenMeta f)) (expected : ℕ) where
  -- What a result says of the receipt that it comes from.
  abbrev pub Answers : ExecutionResult f → Probe → Type 0
  Answers result probe_error = ⊥
  Answers result no_receipt = ⊥
  Answers result (receipt_found receipt current balances) =
      ((result.success ≡ true) ↔ (receipt.status ≡ some 1))
      × (result ≡ result_of f token expected receipt balances)

  -- A timeout, after rounds without a confirmed receipt, or what the first confirmed receipt says.
  abbrev pub Observed : ℕ → (ℕ → List Probe) → ExecutionResult f → Type 0
  Observed n probes result =
      (NoneOf required n probes
        × (result.success ≡ false)
        × (result.gas_used ≡ 0)
        × (result.realized_profit ≡ f.lit 0 0))
      ⊎ FirstOf required (Answers result) n probes

  success_iff :
      (receipt : Receipt) (balances : Option Balances)
      → ((result_of f token expected receipt balances).success ≡ true) ↔ (receipt.status ≡ some 1)
  unfolding result_of
  success_iff receipt balances = ground arith

  probe_cases :
      (p : Probe)
      → ((probe_result f required token expected p ≡ none) × (¬ HasReceipt required p))
        ⊎ ((result : ExecutionResult f) × (probe_result f required token expected p ≡ some result)
            × HasReceipt required p
            × Answers result p)
  unfolding probe_result
  probe_cases probe_error = inl (refl, λ c. c)
  probe_cases no_receipt = inl (refl, λ c. c)
  probe_cases (receipt_found receipt current balances) =
      elim (confirmations_decide required receipt current) [
        | inl (enough, c) ↦ inr (
          result_of f token expected receipt balances,
          rw enough refl,
          c,
          (success_iff receipt balances, refl),
        )
        | inr (few, c) ↦ inl (rw few refl, c)
      ]

  round_cases :
      (ps : List Probe)
      → ((round_result f required token expected ps ≡ none) × All (λ p. ¬ HasReceipt required p) ps)
        ⊎ ((result : ExecutionResult f) × (round_result f required token expected ps ≡ some result)
            × FirstIn required (Answers result) ps)
  unfolding round_result
  round_cases [] = inl (refl, tt)
  round_cases (p ∷ ps) = elim (probe_cases p) [
    | inr (result, here, c, a) ↦ inr (result, rw (here, round_result) refl, inl (c, a))
    | inl (none_here, n) ↦ elim (round_cases ps) [
      | inl (none_later, ns) ↦ inl (rw (none_here, round_result) none_later, (n, ns))
      | inr (result, later, first) ↦
          inr (result, rw (none_here, round_result) later, inr (n, first))
    ]
  ]

  observe_rounds-Observed :
      (n : ℕ) (probes : ℕ → List Probe)
      → Observed n probes (observe_rounds f n required token expected probes)
  unfolding observe_rounds timeout_result
  observe_rounds-Observed zero probes = inl (tt, refl, refl, refl)
  observe_rounds-Observed (suc n) probes = elim (round_cases (probes 0)) [
    | inr (result, here, first) ↦ rw (here, observe_rounds) (inr (inl first))
    | inl (none_here, ns) ↦
        let step : observe_rounds f (suc n) required token expected probes
            ≡ observe_rounds f n required token expected (λ i. probes (suc i)) =
          rw (none_here, observe_rounds) refl in
        subst (Observed (suc n) probes) (sym step)
          (elim (observe_rounds-Observed n (λ i. probes (suc i))) [
            | inl (late, lost, no_gas, no_profit) ↦ inl ((ns, late), lost, no_gas, no_profit)
            | inr first ↦ inr (inr (ns, first))
          ])
  ]

  -- In the order of the ten rounds and of the probes of each, the first probe that answers with a receipt
  -- with the confirmations required, of which none are when none are required, decides the result: it
  -- is what that receipt says, and a success exactly when the receipt's status is one. Where no probe
  -- has such a receipt the result is no success, without gas or profit.
  pub observe_realized_pnl-Observed :
      (probes : ℕ → List Probe)
      → Observed 10 probes (observe_realized_pnl f required token expected probes)
  unfolding observe_realized_pnl
  observe_realized_pnl-Observed probes = observe_rounds-Observed 10 probes
