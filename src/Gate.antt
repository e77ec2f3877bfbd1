-- ===== src/Gate.antt =====
-- The gates on a payload (src/mev/runtime.rs). Of the configuration and of the payload the records keep
-- what the gates read; of a diagnostic they leave out the text of its detail.
use Prim.Native.String.{String}
use arbitrage_runtime.Amm.V2.{V2PoolState, price_impact_bps}
use arbitrage_runtime.Amm.V3.{V3PoolState}
use arbitrage_runtime.Base.{
  Bool, List, false, if◌then◌else◌, ltb, not, saturating_mul, true, u64_max, ℕ, ◌==◌, ◌||◌,
}
use arbitrage_runtime.Base.Float.{Float}
use arbitrage_runtime.Executor.Observe.{wei_to_eth_f64}
use arbitrage_runtime.Lookup.Budget.{OpportunityMode, aggressive, conservative, scavenger}
pub mod Quality
pub mod Economic
pub mod Ev
pub mod TryScore
pub mod Preflight
pub mod GasCap
pub mod Reasons
pub mod Quote
mod Tests

-- The values of `config.mev` and of the environment, after the defaults and the methods of src/config.rs.
pub record MevConfig (f : Float) : Type 0 where
  pub opportunity_mode : OpportunityMode
  pub effective_max_price_impact_bps : ℕ
  pub effective_min_roi_bps : ℕ
  pub effective_max_pending_age_ms : ℕ
  pub effective_min_profit_usd : f.F
  pub effective_min_large_swap_eth : f.F
  pub eth_usd_price : f.F
  pub gas_safety_margin_bps : ℕ
  pub max_gas_per_tx : ℕ
  pub estimated_exec_gas : ℕ
  pub estimated_bundle_overhead_gas : ℕ

pub data AmmState : Type 0 where
  uniswap_v2 : V2PoolState → AmmState
  uniswap_v3 : V3PoolState → AmmState

pub record ExecutionPayload : Type 0 where
  pub tx : List ℕ
  pub calldata : List ℕ
  pub target_contract : ℕ
  pub capital_committed_wei : ℕ
  pub expected_profit_wei : ℕ
  pub gas_limit : ℕ
  pub price_impact_bps : ℕ
  pub pool_state_before : AmmState

pub record GateDiagnostic (f : Float) : Type 0 where
  pub pass : Bool
  pub reason : String
  pub expected_profit_wei : ℕ
  pub execution_cost_wei : ℕ
  pub min_profit_wei : ℕ
  pub net_ev_usd : f.F
  pub roi_bps : ℕ

unfoldable pub is_scavenger : OpportunityMode → Bool
is_scavenger scavenger = true
is_scavenger aggressive = false
is_scavenger conservative = false

-- `clamp` on numbers.
unfoldable pub clamp_nat : ℕ → ℕ → ℕ → ℕ
clamp_nat lo hi x = if ltb x lo then lo else if ltb hi x then hi else x

module _ (f : Float) where
  open f use {F, lit, of_nat, mul, div, le, min_f64, is_finite, trunc_to_nat}

  -- `roi_bps` of src/mev/opportunity.rs.
  unfoldable pub roi_of : ℕ → ℕ → ℕ
  roi_of profit_wei cost_wei =
      if cost_wei == 0
      then 0
      else if not (is_finite (of_nat profit_wei))
          || not (is_finite (of_nat cost_wei))
          || le (of_nat cost_wei) (lit 0 0)
      then 0
      else trunc_to_nat (
          min_f64 (mul (div (of_nat profit_wei) (of_nat cost_wei)) (lit 10_000 0)) (of_nat u64_max))

  unfoldable pub value_usd : MevConfig f → ℕ → F
  value_usd config wei = mul (wei_to_eth_f64 f wei) config.eth_usd_price

  unfoldable pub scavenger_quality_price_impact_cap_bps : MevConfig f → ℕ
  scavenger_quality_price_impact_cap_bps config =
      clamp_nat 600 4_000 (saturating_mul u64_max config.effective_max_price_impact_bps 15)
