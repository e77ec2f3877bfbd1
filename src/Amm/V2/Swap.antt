-- ===== src/Amm/V2/Swap.antt =====
-- What `apply_swap_exact_in` does to the pool: the reserves move by the amounts of the result, nothing
-- else changes, and the product of the reserves does not fall.
use arbitrage_runtime.Amm.V2.{
  V2PoolState, V2SwapResult, add256, amount_out_exact_in, apply_swap_exact_in, finish_swap,
  reserves_for, with_reserves,
}
use arbitrage_runtime.Amm.V2.Bounds.{
  amount_out-eq-exact_out, amount_out_guard, div_bounds, exact_out, reserve_limit,
}
use arbitrage_runtime.Base.{
  >>=-eq-some, arith, else-eq-some, mul_mono, saturating_add_fits, some, suc, u256_max, ℕ, ◌*◌, ◌+◌,
  ◌-◌, ◌<◌, ◌==◌, ◌||◌, ◌≡◌, ◌≤◌, ◌⊎◌,
}
use native.Mathlib.Decide.{dec_lt}
use native.Mathlib.Nat.{mul_comm}

-- What a quotient of the swap's form satisfies, with `g` for `10_000 - fee_bps`.
quotient-lt : (q a r s g : ℕ) → 0 < r → 0 < s → q * (r * 10_000 + a * g) ≤ a * g * s → q < s
quotient-lt q a r s g hr hs low = elim (dec_lt q s) [
  | yes h ↦ h
  | no h ↦
      let wide : s * (r * 10_000 + a * g) ≤ q * (r * 10_000 + a * g) =
        mul_mono s (r * 10_000 + a * g) q (r * 10_000 + a * g) (omega arith) (omega arith) in
      let positive : 1 * 1 ≤ r * s = mul_mono 1 1 r s hr hs in absurd (omega arith)
]

-- Scaled by `g` the product rule is linear in the quotient's bound.
quotient-scaled :
    (q a r s g : ℕ)
    → g ≤ 10_000
    → q * (r * 10_000 + a * g) ≤ a * g * s
    → (q * (r + a)) * g ≤ (a * s) * g
quotient-scaled q a r s g hg low =
    let k : q * r * g ≤ q * r * 10_000 = mul_mono (q * r) g (q * r) 10_000 (omega arith) hg in
    omega arith

cancel_right : (x y g : ℕ) → 0 < g → x * g ≤ y * g → x ≤ y
cancel_right x y g hg h = elim (dec_lt y x) [
  | yes lt ↦
      let k : suc y * g ≤ x * g = mul_mono (suc y) g x g lt (omega arith) in absurd (omega arith)
  | no ge ↦ omega arith
]

quotient-product : (q a r s : ℕ) → q ≤ s → q * (r + a) ≤ a * s → r * s ≤ (r + a) * (s - q)
quotient-product q a r s hq h = go (s - q) (omega arith)
  where
    go : (t : ℕ) → s ≡ q + t → r * s ≤ (r + a) * t
    go t e = rw e (let h' : q * (r + a) ≤ a * (q + t) = rw e at h in omega arith)

module _ (a r s fee : ℕ) (hr : 0 < r) (hs : 0 < s) where
  out-low : exact_out a r s fee * (r * 10_000 + a * (10_000 - fee)) ≤ a * (10_000 - fee) * s
  out-low = (div_bounds (a * (10_000 - fee) * s) (r * 10_000 + a * (10_000 - fee)) (omega arith)).0

  -- The exact output is below the reserve that it is paid from.
  pub exact_out-lt : exact_out a r s fee < s
  exact_out-lt = quotient-lt (exact_out a r s fee) a r s (10_000 - fee) hr hs out-low

  -- The product rule for the exact output.
  pub exact_out-product : fee < 10_000 → r * s ≤ (r + a) * (s - exact_out a r s fee)
  exact_out-product hf =
      let q = exact_out a r s fee in
      let g = 10_000 - fee in
      let lt = exact_out-lt in
      quotient-product q a r s (omega arith) (
        cancel_right (q * (r + a)) (a * s) g (omega arith)
          (quotient-scaled q a r s g (omega arith) out-low))

pub record Swapped (pool : V2PoolState) (i o a : ℕ) (next : V2PoolState) (res : V2SwapResult)
    : Type 0 where
  pub reserve_in : ℕ
  pub reserve_out : ℕ
  pub before : reserves_for pool i o ≡ some (reserve_in, reserve_out)
  pub after : reserves_for next i o ≡ some (add256 reserve_in a, reserve_out - res.amount_out)
  pub quoted : amount_out_exact_in a reserve_in reserve_out pool.fee_bps ≡ some res.amount_out
  pub positive : 0 < res.amount_out
  pub covered : res.amount_out < reserve_out
  pub spent : res.amount_in ≡ a
  pub result_in : res.new_reserve_in ≡ add256 reserve_in a
  pub result_out : res.new_reserve_out ≡ reserve_out - res.amount_out
  pub kept :
      (next.pair ≡ pool.pair)
      × (next.token0 ≡ pool.token0)
      × (next.token1 ≡ pool.token1)
      × (next.fee_bps ≡ pool.fee_bps)

reserves_for-with_reserves :
    (pool : V2PoolState) (i o r s r' s' : ℕ)
    → reserves_for pool i o ≡ some (r, s)
    → reserves_for (with_reserves pool i r' s') i o ≡ some (r', s')
unfolding reserves_for with_reserves
reserves_for-with_reserves pool i o r s r' s' h = ground arith

with_reserves_kept :
    (pool : V2PoolState) (i r' s' : ℕ)
    → let next = with_reserves pool i r' s' in
      (next.pair ≡ pool.pair)
      × (next.token0 ≡ pool.token0)
      × (next.token1 ≡ pool.token1)
      × (next.fee_bps ≡ pool.fee_bps)
unfolding with_reserves
with_reserves_kept pool i r' s' = ground arith

finish_swap-Swapped :
    (pool : V2PoolState) (i o a r s out : ℕ) (next : V2PoolState) (res : V2SwapResult)
    → reserves_for pool i o ≡ some (r, s)
    → amount_out_exact_in a r s pool.fee_bps ≡ some out
    → finish_swap pool i a r s out ≡ some (next, res)
    → Swapped pool i o a next res
unfolding finish_swap
finish_swap-Swapped pool i o a r s out next res hr hq h = record {
  reserve_in = r;
  reserve_out = s;
  before = hr;
  after = ground (arith, reserves_for-with_reserves pool i o r s (add256 r a) (s - out) hr);
  quoted = ground arith;
  positive = ground arith;
  covered = ground arith;
  spent = ground arith;
  result_in = ground arith;
  result_out = ground arith;
  kept = ground (arith, with_reserves_kept pool i (add256 r a) (s - out));
}

-- Whenever a swap succeeds, its result and the next pool are related to the pool as `Swapped` says.
pub apply_swap_exact_in-Swapped :
    (pool : V2PoolState) (i o a : ℕ) (next : V2PoolState) (res : V2SwapResult)
    → apply_swap_exact_in pool i o a ≡ some (next, res)
    → Swapped pool i o a next res
unfolding apply_swap_exact_in
apply_swap_exact_in-Swapped pool i o a next res h =
    let ((r, s), hr, rest) = >>=-eq-some (reserves_for pool i o) _ h in
    let (guard, body) = else-eq-some (a == 0 || r == 0 || s == 0) _ rest in
    let (out, hq, done) = >>=-eq-some (amount_out_exact_in a r s pool.fee_bps) _ body in
    finish_swap-Swapped pool i o a r s out next res hr hq done

pub reserves_for_facts :
    (pool : V2PoolState) (i o r s : ℕ)
    → reserves_for pool i o ≡ some (r, s)
    → (r * s ≡ pool.reserve0 * pool.reserve1)
      × ((r ≡ pool.reserve0) × (s ≡ pool.reserve1) ⊎ (r ≡ pool.reserve1) × (s ≡ pool.reserve0))
unfolding reserves_for
reserves_for_facts pool i o r s h = ground (arith, mul_comm pool.reserve0 pool.reserve1)

-- With reserves and input below 2^112 the product of the reserves does not fall in a swap.
pub apply_swap_exact_in-product :
    (pool : V2PoolState) (i o a : ℕ) (next : V2PoolState) (res : V2SwapResult)
    → pool.reserve0 < reserve_limit
    → pool.reserve1 < reserve_limit
    → a < reserve_limit
    → apply_swap_exact_in pool i o a ≡ some (next, res)
    → pool.reserve0 * pool.reserve1 ≤ next.reserve0 * next.reserve1
apply_swap_exact_in-product pool i o a next res l0 l1 la h =
    let w = apply_swap_exact_in-Swapped pool i o a next res h in
    let (before, sides) = reserves_for_facts pool i o w.reserve_in w.reserve_out w.before in
    let (after, _) =
      reserves_for_facts next i o (add256 w.reserve_in a) (w.reserve_out - res.amount_out)
        w.after in
    let lr : w.reserve_in < reserve_limit = omega arith in
    let ls : w.reserve_out < reserve_limit = omega arith in
    let exact =
      amount_out-eq-exact_out a w.reserve_in w.reserve_out pool.fee_bps la lr ls w.quoted in
    let (_, hr, hs, hf) = amount_out_guard a w.reserve_in w.reserve_out pool.fee_bps w.quoted in
    let fits = saturating_add_fits u256_max w.reserve_in a (omega arith) in
    rw (← before, ← after, fits, exact)
      (exact_out-product a w.reserve_in w.reserve_out pool.fee_bps hr hs hf)
