-- ===== src/Amm/V2.antt =====
-- src/mev/amm/uniswap_v2.rs: the constant-product pool. Addresses are numbers, and a `U256` is a
-- number below 2^256.
use arbitrage_runtime.Base.{
  List, Option, [], if◌then◌else◌, leb, min, none, saturating_add, saturating_mul, saturating_sub,
  some, u256_max, u64_max, ℕ, ◌&&◌, ◌-◌, ◌/◌, ◌==◌, ◌>>=◌, ◌||◌, ◌∷◌,
}
pub mod Bounds
pub mod Swap
pub mod Sizing
pub mod Scoring
pub mod Tests

pub record V2PoolState : Type 0 where
  pub pair : ℕ
  pub token0 : ℕ
  pub token1 : ℕ
  pub reserve0 : ℕ
  pub reserve1 : ℕ
  pub fee_bps : ℕ

pub record V2SwapResult : Type 0 where
  pub amount_in : ℕ
  pub amount_out : ℕ
  pub new_reserve_in : ℕ
  pub new_reserve_out : ℕ
  pub price_impact_bps : ℕ

pub record SizeCandidate : Type 0 where
  pub capital_fraction_bps : ℕ
  pub amount_in : ℕ
  pub amount_out : ℕ
  pub gross_profit_wei : ℕ
  pub net_profit_wei : ℕ
  pub roi_bps : ℕ
  pub self_slippage_bps : ℕ

abbrev pub mul256 : ℕ → ℕ → ℕ
mul256 = saturating_mul u256_max

abbrev pub add256 : ℕ → ℕ → ℕ
add256 = saturating_add u256_max

unfoldable pub reserves_for : V2PoolState → ℕ → ℕ → Option (ℕ × ℕ)
reserves_for pool token_in token_out =
    if token_in == pool.token0 && token_out == pool.token1
    then some (pool.reserve0, pool.reserve1)
    else if token_in == pool.token1 && token_out == pool.token0
    then some (pool.reserve1, pool.reserve0)
    else none

-- `10_000u64 - fee_bps` does not wrap: the guard has refused a fee of 10000 or more.
unfoldable pub amount_out_exact_in : ℕ → ℕ → ℕ → ℕ → Option ℕ
amount_out_exact_in amount_in reserve_in reserve_out fee_bps =
    if amount_in == 0 || reserve_in == 0 || reserve_out == 0 || leb 10_000 fee_bps
    then none
    else (let amount_in_with_fee = mul256 amount_in (10_000 - fee_bps) in
        let numerator = mul256 amount_in_with_fee reserve_out in
        let denominator = add256 (mul256 reserve_in 10_000) amount_in_with_fee in
        if denominator == 0 then none else some (numerator / denominator))

unfoldable pub price_impact_bps : ℕ → ℕ → ℕ → ℕ → ℕ
price_impact_bps amount_in amount_out reserve_in reserve_out =
    if amount_in == 0 || amount_out == 0 || reserve_in == 0 || reserve_out == 0
    then 10_000
    else (let ideal_out = mul256 amount_in reserve_out / reserve_in in
        if ideal_out == 0 || leb ideal_out amount_out
        then 0
        else (let impact = saturating_sub ideal_out amount_out in
            min (mul256 impact 10_000 / ideal_out) 10_000))

-- The reserves of `next`: the side that `token_in` stands on receives the input.
unfoldable pub with_reserves : V2PoolState → ℕ → ℕ → ℕ → V2PoolState
with_reserves pool token_in new_reserve_in new_reserve_out =
    if token_in == pool.token0
    then record pool { reserve0 = new_reserve_in; reserve1 = new_reserve_out }
    else record pool { reserve1 = new_reserve_in; reserve0 = new_reserve_out }

unfoldable pub finish_swap : V2PoolState → ℕ → ℕ → ℕ → ℕ → ℕ → Option (V2PoolState × V2SwapResult)
finish_swap pool token_in amount_in reserve_in reserve_out amount_out =
    if amount_out == 0 || leb reserve_out amount_out
    then none
    else (let new_reserve_in = add256 reserve_in amount_in in
        let new_reserve_out = saturating_sub reserve_out amount_out in
        some (
          with_reserves pool token_in new_reserve_in new_reserve_out,
          record {
            amount_in = amount_in;
            amount_out = amount_out;
            new_reserve_in = new_reserve_in;
            new_reserve_out = new_reserve_out;
            price_impact_bps = price_impact_bps amount_in amount_out reserve_in reserve_out;
          },
        ))

unfoldable pub apply_swap_exact_in : V2PoolState → ℕ → ℕ → ℕ → Option (V2PoolState × V2SwapResult)
apply_swap_exact_in pool token_in token_out amount_in = do
  (reserve_in, reserve_out) ← reserves_for pool token_in token_out
  (if amount_in == 0 || reserve_in == 0 || reserve_out == 0
      then none
      else amount_out_exact_in amount_in reserve_in reserve_out pool.fee_bps
        >>= finish_swap pool token_in amount_in reserve_in reserve_out)

-- One round of the loop of `size_candidates`: the candidate it pushes, if it pushes one.
unfoldable pub size_candidate : ℕ → ℕ → ℕ → ℕ → ℕ → ℕ → Option SizeCandidate
size_candidate reserve_in reserve_out capital_cap gas_cost_wei fee_bps bps =
    let amount_in = mul256 capital_cap bps / 10_000 in
    if amount_in == 0 then none else (do
      amount_out ← amount_out_exact_in amount_in reserve_in reserve_out fee_bps
      let gross = saturating_sub amount_out amount_in
      let net = saturating_sub gross gas_cost_wei
      (if net == 0
          then none
          else some (record {
            capital_fraction_bps = bps;
            amount_in = amount_in;
            amount_out = amount_out;
            gross_profit_wei = gross;
            net_profit_wei = net;
            roi_bps = if amount_in == 0 then 0 else min (mul256 net 10_000 / amount_in) u64_max;
            self_slippage_bps = price_impact_bps amount_in amount_out reserve_in reserve_out;
          })))

-- `continue` on `none`, `push` on `some`.
unfoldable pub push_some {ℓ} : {A : Type ℓ} → Option A → List A → List A
push_some none xs = xs
push_some (some x) xs = x ∷ xs

unfoldable pub candidates_from : ℕ → ℕ → ℕ → ℕ → ℕ → List ℕ → List SizeCandidate
candidates_from reserve_in reserve_out capital_cap gas_cost_wei fee_bps [] = []
candidates_from reserve_in reserve_out capital_cap gas_cost_wei fee_bps (bps ∷ rest) =
    push_some (size_candidate reserve_in reserve_out capital_cap gas_cost_wei fee_bps bps)
      (candidates_from reserve_in reserve_out capital_cap gas_cost_wei fee_bps rest)

unfoldable pub size_candidates : ℕ → ℕ → ℕ → ℕ → ℕ → List ℕ → List SizeCandidate
size_candidates reserve_in reserve_out capital_cap gas_cost_wei fee_bps fractions_bps =
    if capital_cap == 0 || reserve_in == 0 || reserve_out == 0
    then []
    else candidates_from reserve_in reserve_out capital_cap gas_cost_wei fee_bps fractions_bps
