-- ===== src/Lookup/Gate.antt =====
-- The test of a transaction before it is decoded (`pre_decode_tx_gate_with_cap` of src/mev/runtime.rs), and
-- the selector of a transaction (src/mev/decoder/simd.rs).
use Prim.Native.String.{String}
use arbitrage_runtime.Base.{
  ==_iff, Bool, Bool-cases, List, Option, [], ap, arith, contains, false, get_elem?, if◌then◌else◌,
  inl, inr, none, refl, some, suc, ℕ, ◌&&◌, ◌+◌, ◌==◌, ◌>>=◌, ◌^◌, ◌||◌, ◌∷◌, ◌≡◌,
}
use arbitrage_runtime.Base.Bytes.{be_value}
use arbitrage_runtime.Base.Float.{Float}
use arbitrage_runtime.Executor.Submit.{label}
use text.Mathlib.Text.{starts_with as str_starts_with}

-- What the test reads of a transaction.
pub record Transaction : Type 0 where
  pub to : Option ℕ
  pub input : List ℕ
  pub max_fee_per_gas : Option ℕ
  pub gas_price : Option ℕ

abbrev pub simd_selectors : List ℕ
simd_selectors =
    0x38ed1739 ∷ 0x7ff36ab5 ∷ 0x18cbafe5 ∷ 0x5c11d795 ∷ 0xb6f9de95 ∷ 0x791ac947 ∷ 0x414bf389
    ∷ 0xc04b8d59 ∷ []

abbrev next_position : Option ℕ → Option ℕ
next_position none = none
next_position (some i) = some (i + 1)

-- `position`.
unfoldable pub position_of : ℕ → List ℕ → Option ℕ
position_of a [] = none
position_of a (x ∷ xs) =
    let later = next_position (position_of a xs) in if x == a then some 0 else later

-- The index of the selector in the table, by the scalar search.
unfoldable pub find_selector : List ℕ → Option ℕ
unfolding position_of
find_selector (a ∷ b ∷ c ∷ d ∷ rest) = position_of (be_value (a ∷ b ∷ c ∷ d ∷ [])) simd_selectors
find_selector _ = none

unfoldable pub first_four : List ℕ → Option ℕ
first_four (a ∷ b ∷ c ∷ d ∷ rest) = some (be_value (a ∷ b ∷ c ∷ d ∷ []))
first_four _ = none

abbrev table_or : Option ℕ → Option ℕ → Option ℕ
table_or none other = other
table_or (some i) other = get_elem? simd_selectors i

unfoldable pub selector_of : Transaction → Option ℕ
unfolding find_selector first_four
selector_of tx = table_or (find_selector tx.input) (first_four tx.input)

unfoldable pub known_target_label : ℕ → Option String
known_target_label address =
    if address == 0x07964f135f276412b3182a3b2407b8dd45000000
    then some "transit_swap_router_v5"
    else if address == 0x4337084d9e255ff0702461cf8895ce9e3b5ff108
    then some "entrypoint_v0_8"
    else if address == 0x0000000071727de22e5e9d8baf0edac6f37da032
    then some "entrypoint_v0_7"
    else if address == 0x00000000000fb5c9adea0298d729a0cb3823cc07
    then some "aggregator_or_permit_router"
    else if address == 0xd216153c06e857cd7f72665e0af1d7d82172f494
    then some "unknown_high_frequency_polygon_target"
    else if address == 0x278d858f05b94576c1e6f73285886876ff6ef8d2
    then some "private_mev_executor_polygon_a"
    else if address == 0xc37184b6ab8d18be826af019cfa6bb71c6a0ab39
    then some "private_mev_executor_polygon_b"
    else if address == 0xab45c5a4b0c941a2f231c04c3f49182e1a254052
    then some "private_mev_executor_polygon_c"
    else if address == 0xada100db00ca00073811820692005400218fce1f
    then some "safe_inner_target"
    else none

abbrev labelled : Option String → String → Bool
labelled none prefix = false
labelled (some label) prefix = str_starts_with label prefix

unfoldable pub is_account_abstraction_target : Option ℕ → Bool
is_account_abstraction_target address = labelled (address >>= known_target_label) "entrypoint_"

unfoldable pub is_private_mev_executor_noise : Option ℕ → ℕ → Bool
is_private_mev_executor_noise address selector =
    labelled (address >>= known_target_label) "private_mev_executor_"
    && contains (0xa00597a0 ∷ 0xeaa79076 ∷ 0x34ee9791 ∷ 0x669dc5b6 ∷ []) selector

unfoldable pub is_context_only_or_helper_selector : ℕ → Bool
is_context_only_or_helper_selector =
    contains (0x01b7037c ∷ 0x0a3c4405 ∷ 0x405cec67 ∷ 0xcdd1b25d ∷ 0xf2881e21 ∷ 0x62355638 ∷ [])

unfoldable pub is_observed_unsupported_selector_noise : ℕ → Bool
is_observed_unsupported_selector_noise =
    contains (
      0x00000000 ∷ 0x5f052516 ∷ 0x3d6684a8 ∷ 0x3a66e301 ∷ 0x4a502f39 ∷ 0xe3ead59e ∷ 0x3c02f856 ∷ [])

abbrev first_price : Option ℕ → Option ℕ → ℕ
first_price (some fee) other = fee
first_price none (some price) = price
first_price none none = 0

module _ (f : Float) where
  open f use {F, lit, of_nat, mul, div, lt}

  unfoldable pub wei_to_gwei_f64 : ℕ → F
  wei_to_gwei_f64 value = div (of_nat value) (lit (10 ^ 9) 0)

  -- `multiplier` is the configured multiplier of the cap, or 2.
  unfoldable pub above_cap : F → ℕ → Option ℕ → Bool
  above_cap multiplier gas_price none = false
  above_cap multiplier gas_price (some max_gas_price_gwei) =
      lt (mul (of_nat max_gas_price_gwei) multiplier) (wei_to_gwei_f64 gas_price)

  -- The reason for which a transaction is dropped, if there is one; a transaction with no selector passes.
  unfoldable pub pre_decode_tx_gate_with_cap : F → Transaction → Option ℕ → Option String
  pre_decode_tx_gate_with_cap multiplier tx max_gas_price_gwei = do
    selector ← selector_of tx
    let gas_price = first_price tx.max_fee_per_gas tx.gas_price
    if is_account_abstraction_target tx.to || selector == 0x765e827f
        then some "account_abstraction_noise"
        else if is_private_mev_executor_noise tx.to selector
        then some "private_mev_executor_noise"
        else if selector == 0x62355638
        then some "context_command_not_swap"
        else if is_context_only_or_helper_selector selector
        then some "router_helper_or_context_only"
        else if selector == 0x00000008
        then some "selector_noise_or_mev_trap"
        else if is_observed_unsupported_selector_noise selector
        then some "observed_unsupported_selector_noise"
        else if gas_price == 0
        then some "zero_gas_price"
        else if above_cap multiplier gas_price max_gas_price_gwei
        then some "victim_gas_price_above_pre_decode_cap"
        else none

abbrev At : List ℕ → ℕ → Option ℕ → Type 0
At xs a none = Unit
At xs a (some i) = get_elem? xs i ≡ some a

next_position-At :
    (x a : ℕ) (xs : List ℕ) (o : Option ℕ) → At xs a o → At (x ∷ xs) a (next_position o)
next_position-At x a xs none h = tt
next_position-At x a xs (some i) h = let later : i + 1 ≡ suc i = omega arith in rw later h

position_of-At : (a : ℕ) (xs : List ℕ) → At xs a (position_of a xs)
unfolding position_of
position_of-At a [] = tt
position_of-At a (x ∷ xs) = elim (Bool-cases (x == a)) [
  | inl e ↦ rw e (ap some ((==_iff x a).0 e))
  | inr e ↦ rw e (next_position-At x a xs (position_of a xs) (position_of-At a xs))
]

table_or-At : (a : ℕ) (o : Option ℕ) → At simd_selectors a o → table_or o (some a) ≡ some a
table_or-At a none h = refl
table_or-At a (some i) h = h

select : (input : List ℕ) → table_or (find_selector input) (first_four input) ≡ first_four input
unfolding find_selector first_four
select (a ∷ b ∷ c ∷ d ∷ rest) =
    let word = be_value (a ∷ b ∷ c ∷ d ∷ []) in
    table_or-At word (position_of word simd_selectors) (position_of-At word simd_selectors)
select [] = refl
select (a ∷ []) = refl
select (a ∷ b ∷ []) = refl
select (a ∷ b ∷ c ∷ []) = refl

-- The table of selectors never changes what is read: the selector of a transaction is what its first four
-- bytes spell, whether the search finds it in the table or not, and there is none below four bytes.
pub selector_of-first_four : (tx : Transaction) → selector_of tx ≡ first_four tx.input
unfolding selector_of
selector_of-first_four tx = select tx.input
