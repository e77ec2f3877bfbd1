-- ===== src/Executor/Observe.antt =====
-- What became of a submitted transaction: `observe_realized_pnl`, `receipt_has_required_confirmations`
-- and `realized_profit_eth` of src/mev/execution/executor.rs, and `PnlTracker` of
-- src/mev/pnl/tracker.rs. The answers of the providers are arguments; reports to the dashboard and to
-- the adaptive policy are left out.
use arbitrage_runtime.Base.{
  Bool, List, Option, [], false, if◌then◌else◌, leb, none, saturating_add, saturating_mul,
  saturating_sub, some, suc, true, u256_max, u64_max, zero, ℕ, ◌==◌, ◌>>=◌, ◌^◌, ◌∷◌,
}
use arbitrage_runtime.Base.Float.{Float}
use arbitrage_runtime.Executor.Guard.{ExecutionResult}
pub mod Receipts
pub mod Ledger

-- `TransactionReceipt`, with the fields that are read.
pub record Receipt : Type 0 where
  pub block_number : Option ℕ
  pub status : Option ℕ
  pub gas_used : Option ℕ
  pub effective_gas_price : Option ℕ

-- The profit token's balance of the recipient before the receipt's block and at it, where the two
-- calls succeed.
pub record Balances : Type 0 where
  pub pre_balance : ℕ
  pub post_balance : ℕ

-- The answer of one probed endpoint: an error, no receipt yet, or the receipt, with the answers to the
-- calls that follow: the current block number and the balances.
pub data Probe : Type 0 where
  probe_error : Probe
  no_receipt : Probe
  receipt_found : Receipt → Option ℕ → Option Balances → Probe

abbrev pub or_zero : Option ℕ → ℕ
or_zero none = 0
or_zero (some n) = n

abbrev reached : Option ℕ → ℕ → Bool
reached none wanted = false
reached (some current) wanted = leb wanted current

unfoldable pub receipt_has_required_confirmations : ℕ → Receipt → Option ℕ → Bool
receipt_has_required_confirmations required receipt current_block =
    if required == 0 then true else elim receipt.block_number [
      | none ↦ false
      | some receipt_block ↦ reached current_block (saturating_add u64_max receipt_block required)
    ]

abbrev pub is_success : Receipt → Bool
is_success receipt = elim receipt.status [ none ↦ false | some status ↦ status == 1 ]

module _ (f : Float) where
  open f use {F, lit, of_nat, add, sub, mul, div, neg, powi, max_f64, min_f64, abs}

  -- `wei_to_eth_f64` of src/mev/opportunity.rs.
  unfoldable pub wei_to_eth_f64 : ℕ → F
  wei_to_eth_f64 wei = div (of_nat wei) (lit (10 ^ 18) 0)

  -- A monitored token's decimals and price.
  pub record TokenMeta : Type 0 where
    pub decimals : ℕ
    pub price_eth : F

  -- `token` is the configuration's entry for the profit token, if there is one.
  unfoldable pub realized_profit_eth : Option TokenMeta → Receipt → Option Balances → ℕ → Option F
  realized_profit_eth token receipt balances gas_paid_wei = do
    block_number ← receipt.block_number
    read ← balances
    token_meta ← token
    let balance_delta = saturating_sub read.post_balance read.pre_balance
    let delta_tokens = div (of_nat balance_delta) (powi (lit 10 0) token_meta.decimals)
    some (sub (mul delta_tokens token_meta.price_eth) (wei_to_eth_f64 gas_paid_wei))

  -- The profit where it can be read, else the expected one.
  abbrev or_expected : Option F → ℕ → ℕ → F
  or_expected none expected_profit_wei gas_paid_wei =
      sub (wei_to_eth_f64 expected_profit_wei) (wei_to_eth_f64 gas_paid_wei)
  or_expected (some profit) expected_profit_wei gas_paid_wei = profit

  unfoldable pub result_of : Option TokenMeta → ℕ → Receipt → Option Balances → ExecutionResult f
  result_of token expected_profit_wei receipt balances =
      let gas_paid_wei =
        saturating_mul u256_max (or_zero receipt.gas_used) (or_zero receipt.effective_gas_price) in
      record {
        realized_profit =
            if is_success receipt
            then or_expected (realized_profit_eth token receipt balances gas_paid_wei)
                expected_profit_wei gas_paid_wei
            else neg (wei_to_eth_f64 gas_paid_wei);
        gas_used = or_zero receipt.gas_used;
        success = is_success receipt;
      }

  unfoldable pub probe_result : ℕ → Option TokenMeta → ℕ → Probe → Option (ExecutionResult f)
  probe_result required token expected_profit_wei probe_error = none
  probe_result required token expected_profit_wei no_receipt = none
  probe_result required token expected_profit_wei (receipt_found receipt current balances) =
      if receipt_has_required_confirmations required receipt current
      then some (result_of token expected_profit_wei receipt balances)
      else none

  -- The probes of one round, in the order of `read_probe_handles`.
  unfoldable pub round_result : ℕ → Option TokenMeta → ℕ → List Probe → Option (ExecutionResult f)
  round_result required token expected [] = none
  round_result required token expected (p ∷ ps) = elim (probe_result required token expected p) [
    | none ↦ round_result required token expected ps
    | some result ↦ some result
  ]

  unfoldable pub timeout_result : ExecutionResult f
  timeout_result = record { realized_profit = lit 0 0; gas_used = 0; success = false }

  -- `n` rounds; the probes of a round are asked for by its number.
  unfoldable pub observe_rounds :
      ℕ → ℕ → Option TokenMeta → ℕ → (ℕ → List Probe) → ExecutionResult f
  observe_rounds zero required token expected probes = timeout_result
  observe_rounds (suc n) required token expected probes =
      elim (round_result required token expected (probes 0)) [
        | none ↦ observe_rounds n required token expected (λ i. probes (suc i))
        | some result ↦ result
      ]

  unfoldable pub observe_realized_pnl :
      ℕ → Option TokenMeta → ℕ → (ℕ → List Probe) → ExecutionResult f
  observe_realized_pnl required token expected_profit_wei probes =
      observe_rounds 10 required token expected_profit_wei probes

  pub record PnlTracker : Type 0 where
    pub daily_pnl_eth : F
    pub realized_profit : F
    pub realized_loss : F
    pub executions : ℕ
    pub failures : ℕ

  unfoldable pub record_pnl : ExecutionResult f → PnlTracker → PnlTracker
  record_pnl result pnl =
      let counted = record pnl {
        executions = saturating_add u64_max pnl.executions 1;
        daily_pnl_eth = add pnl.daily_pnl_eth result.realized_profit;
      } in
      if result.success
      then record counted {
        realized_profit = add counted.realized_profit (max_f64 result.realized_profit (lit 0 0));
      }
      else record counted {
        failures = saturating_add u64_max counted.failures 1;
        realized_loss = add counted.realized_loss (abs (min_f64 result.realized_profit (lit 0 0)));
      }
