-- ===== src/Gate/Reasons.antt =====
-- What the diagnostics of the gates say agrees with what they decide.
use Prim.Native.String.{String}
use arbitrage_runtime.Base.{
  Bool, Bool-cases, Option, arith, false, if◌then◌else◌, inl, inr, leb, ltb, not, refl, true, ℕ,
  ◌&&◌, ◌==◌, ◌≡◌, ◌≤◌,
}
use arbitrage_runtime.Base.Float.{Float}
use arbitrage_runtime.Decode.Signal.{SwapSignal}
use arbitrage_runtime.Gate.{
  ExecutionPayload, GateDiagnostic, MevConfig, is_scavenger, roi_of,
  scavenger_quality_price_impact_cap_bps, value_usd,
}
use arbitrage_runtime.Gate.Economic.{
  EdgeSettings, raw_gas_cost, required_edge, scavenger_economic_edge_diagnostic,
  scavenger_payload_has_economic_edge,
}
use arbitrage_runtime.Gate.Ev.{
  EvTests, all_tests, ev_gate_diagnostic, ev_gate_diagnostic_with, gas_budget_ok, lookup_is_fresh,
  scavenger_ev_gate_result, standard_ev_gate_result, standard_tests,
}
use arbitrage_runtime.Gate.Quality.{
  impact_score, quality_gate_diagnostic, scavenger_quality, standard_quality,
}
use text.Mathlib.Text.{◌==◌ as str_eq}

abbrev pub Says : {f : Float} → String → GateDiagnostic f → Type 0
Says text d = d.pass ≡ str_eq d.reason text

leb-not-ltb : (a b : ℕ) → leb a b ≡ not (ltb b a)
leb-not-ltb a b = ground arith

gas_reason :
    (g : Bool)
    → g ≡ str_eq (if not g then "ev_gas_limit_above_cap" else "ev_gate_pass") "ev_gate_pass"
gas_reason true = refl
gas_reason false = refl

module _ (f : Float) where
  open f use {F, lit, lt, le}

  scavenger_quality-Says :
      (config : MevConfig f) (payload : ExecutionPayload) (cost : ℕ)
      → Says "quality_gate_pass" (scavenger_quality f config payload cost)
  unfolding scavenger_quality
  scavenger_quality-Says config payload cost =
      let cap = scavenger_quality_price_impact_cap_bps f config in
      rw (leb-not-ltb payload.price_impact_bps cap)
        (elim (Bool-cases (payload.expected_profit_wei == 0)) [
          | inl a ↦ rw a refl
          | inr a ↦ elim (Bool-cases (ltb cap payload.price_impact_bps)) [
            | inl b ↦ rw (a, b) refl
            | inr b ↦ rw (a, b) refl
          ]
        ])

  standard_quality-Says :
      (config : MevConfig f) (payload : ExecutionPayload) (cost : ℕ)
      → Says "quality_gate_pass" (standard_quality f config payload cost)
  unfolding standard_quality
  standard_quality-Says config payload cost =
      let roi = roi_of f payload.expected_profit_wei cost in
      let score = impact_score f config payload in
      rw (leb-not-ltb config.effective_min_roi_bps roi, leb-not-ltb score 100)
        (elim (Bool-cases (ltb roi config.effective_min_roi_bps)) [
          | inl a ↦ rw a refl
          | inr a ↦ elim (Bool-cases (ltb 100 score)) [
            | inl b ↦ rw (a, b) refl
            | inr b ↦ rw (a, b) refl
          ]
        ])

  -- The quality gate lets a payload pass exactly when the reason that it reports is the one of passing, in
  -- every mode.
  pub quality_gate_diagnostic-Says :
      (config : MevConfig f) (payload : ExecutionPayload) (cost : ℕ)
      → Says "quality_gate_pass" (quality_gate_diagnostic f config payload cost)
  unfolding quality_gate_diagnostic
  quality_gate_diagnostic-Says config payload cost =
      elim (Bool-cases (is_scavenger config.opportunity_mode)) [
        | inl e ↦ rw e (scavenger_quality-Says config payload cost)
        | inr e ↦ rw e (standard_quality-Says config payload cost)
      ]

  -- What a cast promises: no whole number that the argument does not exceed is exceeded.
  pub record TruncLaws : Type 0 where
    pub trunc_le : (n : ℕ) (x : F) → lt (lit n 0) x ≡ false → f.trunc_to_nat x ≤ n
    pub lt_lit : (m n : ℕ) → n ≤ m → lt (lit m 0) (lit n 0) ≡ false

  -- The test of the economic edge and its diagnostic agree: there is an edge exactly when the diagnostic's
  -- reason is the one of passing.
  pub economic_edge-Says :
      (config : MevConfig f) (settings : EdgeSettings f) (payload : ExecutionPayload)
      (gas_price : ℕ)
      → scavenger_payload_has_economic_edge f config settings payload gas_price
        ≡ str_eq
            (scavenger_economic_edge_diagnostic f config settings payload gas_price).reason
            "ev_gate_pass"
  unfolding scavenger_payload_has_economic_edge scavenger_economic_edge_diagnostic
  economic_edge-Says config settings payload gas_price =
      let required = required_edge f config settings (raw_gas_cost f payload gas_price) in
      elim (Bool-cases (payload.expected_profit_wei == 0)) [
        | inl a ↦ rw a refl
        | inr a ↦ elim (Bool-cases (leb required payload.expected_profit_wei)) [
          | inl b ↦ rw (a, b) refl
          | inr b ↦ rw (a, b) refl
        ]
      ]

  scavenger_ev-Says :
      (config : MevConfig f) (payload : ExecutionPayload) (latency : ℕ)
      → Says "ev_gate_pass" (
          scavenger_ev_gate_result f config payload latency (
            lookup_is_fresh f config latency
            && not (payload.expected_profit_wei == 0)
            && gas_budget_ok f config payload))
  unfolding scavenger_ev_gate_result
  scavenger_ev-Says config payload latency = elim (Bool-cases (lookup_is_fresh f config latency)) [
    | inr a ↦ rw a refl
    | inl a ↦ elim (Bool-cases (payload.expected_profit_wei == 0)) [
      | inl b ↦ rw (a, b) refl
      | inr b ↦ elim (Bool-cases (gas_budget_ok f config payload)) [
        | inl c ↦ rw (a, b, c) refl
        | inr c ↦ rw (a, b, c) refl
      ]
    ]
  ]

  -- The reason of the standard gate, by the six tests.
  standard_ev-Says :
      (config : MevConfig f) (payload : ExecutionPayload) (least : ℕ) (a b c d : Bool) (ev : F)
      (g : Bool)
      → le config.effective_min_profit_usd ev ≡ not (lt ev config.effective_min_profit_usd)
      → let tests : EvTests f = record {
        fresh = a;
        large_enough = b;
        inevitable_impact = c;
        profit_above_threshold = d;
        net_ev_usd = ev;
        gas_ok = g;
      } in
        Says "ev_gate_pass"
          (standard_ev_gate_result f config payload least (all_tests f config tests) tests)
  unfolding standard_ev_gate_result all_tests
  standard_ev-Says config payload least false b c d ev g h = refl
  standard_ev-Says config payload least true false c d ev g h = refl
  standard_ev-Says config payload least true true false d ev g h = refl
  standard_ev-Says config payload least true true true false ev g h = refl
  standard_ev-Says config payload least true true true true ev g h =
      elim (Bool-cases (lt ev config.effective_min_profit_usd)) [
        | inl e ↦ rw (h, e) refl
        | inr e ↦ rw (h, e) (gas_reason g)
      ]

  -- Where the least profit and the value of the payload compare as numbers do, the expected-value gate lets
  -- a payload pass exactly when the reason that it reports is the one of passing, in every mode and for
  -- both kinds of pool.
  pub ev_gate_diagnostic-Says :
      (config : MevConfig f) (parse_ether : F → Option ℕ) (payload : ExecutionPayload)
      (signal : SwapSignal f) (latency least : ℕ)
      → le config.effective_min_profit_usd (value_usd f config payload.expected_profit_wei)
        ≡ not (lt (value_usd f config payload.expected_profit_wei) config.effective_min_profit_usd)
      → Says "ev_gate_pass" (ev_gate_diagnostic f config parse_ether payload signal latency least)
  unfolding ev_gate_diagnostic ev_gate_diagnostic_with standard_tests
  ev_gate_diagnostic-Says config parse_ether payload signal latency least h =
      elim (Bool-cases (is_scavenger config.opportunity_mode)) [
        | inl e ↦ rw e (scavenger_ev-Says config payload latency)
        | inr e ↦ rw e (standard_ev-Says config payload least _ _ _ _ _ _ h)
      ]
