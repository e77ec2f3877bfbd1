-- ===== src/Route/Quotes.antt =====
-- A quote is what the hops' swaps would pay out, one after the other.
use arbitrage_runtime.Amm.V2.{
  V2PoolState, V2SwapResult, add256, amount_out_exact_in, apply_swap_exact_in, finish_swap,
  price_impact_bps, reserves_for, with_reserves,
}
use arbitrage_runtime.Amm.V2.Bounds.{amount_out-eq-exact_out, amount_out_guard, reserve_limit}
use arbitrage_runtime.Amm.V2.Swap.{apply_swap_exact_in-Swapped, exact_out-lt, reserves_for_facts}
use arbitrage_runtime.Base.{
  >>=-congr, >>=-eq-some, All, List, Option, [], arith, else-eq-some, false, if◌then◌else◌, leb,
  length, map, none, refl, some, suc, zero, ℕ, ◌+◌, ◌-◌, ◌<◌, ◌==◌, ◌>>=◌, ◌||◌, ◌∙◌, ◌∷◌, ◌≡◌, ◌≤◌,
}
use arbitrage_runtime.Route.{
  effective_fee, misfit, quote_fallback_hops, quote_hops, quote_v2_route_exact_in,
  quote_v2_runtime_route_exact_in,
}

-- The swaps of a route: hop by hop `apply_swap_exact_in`, each on the output of the one before. The
-- pools after the swaps are kept. Each hop has the state of its own pool, so this is a route that repeats no
-- pool, as all routes that the program looks for are.
unfoldable pub swap_route : ℕ → List ℕ → List V2PoolState → Option (ℕ × List V2PoolState)
swap_route amount route [] = some (amount, [])
swap_route amount [] (pool ∷ pools) = none
swap_route amount (token_in ∷ []) (pool ∷ pools) = none
swap_route amount (token_in ∷ token_out ∷ route) (pool ∷ pools) = do
  (next, result) ← apply_swap_exact_in pool token_in token_out amount
  (amount_out, nexts) ← swap_route result.amount_out (token_out ∷ route) pools
  some (amount_out, next ∷ nexts)

swap_route-quote_hops :
    (amount : ℕ) (route : List ℕ) (pools : List V2PoolState) {out : ℕ} {nexts : List V2PoolState}
    → swap_route amount route pools ≡ some (out, nexts)
    → quote_hops amount route pools ≡ some out
unfolding swap_route quote_hops
swap_route-quote_hops amount route [] h = ground arith
swap_route-quote_hops amount [] (pool ∷ pools) h = cc
swap_route-quote_hops amount (i ∷ []) (pool ∷ pools) h = cc
swap_route-quote_hops amount (i ∷ o ∷ route) (pool ∷ pools) h =
    let ((next, res), swapped, rest) = >>=-eq-some (apply_swap_exact_in pool i o amount) _ h in
    let ((out, nexts), ran, e) = >>=-eq-some (swap_route res.amount_out (o ∷ route) pools) _ rest in
    let w = apply_swap_exact_in-Swapped pool i o amount next res swapped in
    let ih = swap_route-quote_hops res.amount_out (o ∷ route) pools ran in
    rw (w.before, w.quoted) (ih ∙ ground arith)

-- For a route of at least two tokens with one pool for each hop: where the swaps of the route all
-- succeed, the quote is the amount that they pay out.
pub swap_route-quote :
    (amount : ℕ) (route : List ℕ) (pools : List V2PoolState) {out : ℕ} {nexts : List V2PoolState}
    → 2 ≤ length route
    → length pools + 1 ≡ length route
    → swap_route amount route pools ≡ some (out, nexts)
    → quote_v2_runtime_route_exact_in amount route pools ≡ some out
unfolding quote_v2_runtime_route_exact_in
swap_route-quote amount route pools two same h =
    let fits : misfit route pools ≡ false = ground arith in
    rw fits (swap_route-quote_hops amount route pools h)

-- A pool that carries the fallback fee where it has none of its own.
abbrev pub with_fee : ℕ → V2PoolState → V2PoolState
with_fee fallback pool = record pool {
  fee_bps = if pool.fee_bps == 0 then fallback else pool.fee_bps;
}

quote_hops-with_fee :
    (fallback amount : ℕ) (route : List ℕ) (pools : List V2PoolState)
    → quote_fallback_hops fallback amount route pools
      ≡ quote_hops amount route (map (with_fee fallback) pools)
unfolding quote_hops quote_fallback_hops effective_fee reserves_for
quote_hops-with_fee fallback amount route [] = refl
quote_hops-with_fee fallback amount [] (pool ∷ pools) = refl
quote_hops-with_fee fallback amount (i ∷ []) (pool ∷ pools) = refl
quote_hops-with_fee fallback amount (i ∷ o ∷ route) (pool ∷ pools) =
    >>=-congr (reserves_for pool i o) _ _ (λ (rs : ℕ × ℕ).
      >>=-congr (amount_out_exact_in amount rs.0 rs.1 (with_fee fallback pool).fee_bps) _ _
        (λ (out : ℕ). quote_hops-with_fee fallback out (o ∷ route) pools))

length-map :
    (g : V2PoolState → V2PoolState) (pools : List V2PoolState) → length (map g pools) ≡ length pools
length-map g [] = refl
length-map g (pool ∷ pools) = omega (arith, length-map g pools)

misfit-with_fee :
    (fallback : ℕ) (route : List ℕ) (pools : List V2PoolState)
    → misfit route (map (with_fee fallback) pools) ≡ misfit route pools
misfit-with_fee fallback route pools = rw (length-map (with_fee fallback) pools) refl

-- The payload builder's quote is the runtime's quote on the same pools with the fallback fee written into
-- those that carry no fee, for every amount, route and list of pools, also where there is no quote.
pub quotes-agree :
    (fallback amount : ℕ) (route : List ℕ) (pools : List V2PoolState)
    → quote_v2_route_exact_in amount route pools fallback
      ≡ quote_v2_runtime_route_exact_in amount route (map (with_fee fallback) pools)
unfolding quote_v2_route_exact_in quote_v2_runtime_route_exact_in
quotes-agree fallback amount route pools =
    rw (misfit-with_fee fallback route pools, quote_hops-with_fee fallback amount route pools)

-- A pool whose reserves a swap cannot overflow.
abbrev pub IsBounded : V2PoolState → Type 0
IsBounded pool = (pool.reserve0 < reserve_limit) × (pool.reserve1 < reserve_limit)

apply_of_quote :
    (pool : V2PoolState) (i o a r s out : ℕ)
    → IsBounded pool
    → a < reserve_limit
    → 0 < out
    → reserves_for pool i o ≡ some (r, s)
    → amount_out_exact_in a r s pool.fee_bps ≡ some out
    → (next : V2PoolState) × (res : V2SwapResult) × (apply_swap_exact_in pool i o a
        ≡ some (next, res))
      × (res.amount_out ≡ out)
      × (out < reserve_limit)
unfolding apply_swap_exact_in finish_swap
apply_of_quote pool i o a r s out b la pos hr hq =
    let (_, sides) = reserves_for_facts pool i o r s hr in
    let (b0, b1) = b in
    let lr : r < reserve_limit = omega arith in
    let ls : s < reserve_limit = omega arith in
    let (ha, hr', hs, hf) = amount_out_guard a r s pool.fee_bps hq in
    let exact = amount_out-eq-exact_out a r s pool.fee_bps la lr ls hq in
    let below : out < s = rw exact (exact_out-lt a r s pool.fee_bps hr' hs) in
    let guard : (a == 0 || r == 0 || s == 0) ≡ false = ground arith in
    let paid : (out == 0 || leb s out) ≡ false = ground arith in
    let next = with_reserves pool i (add256 r a) (s - out) in
    let res : V2SwapResult = record {
      amount_in = a;
      amount_out = out;
      new_reserve_in = add256 r a;
      new_reserve_out = s - out;
      price_impact_bps = price_impact_bps a out r s;
    } in
    (next, res, rw (hr, guard, hq, paid), refl, omega arith)

quote_hops-zero :
    (route : List ℕ) (pools : List V2PoolState) {out : ℕ}
    → quote_hops 0 route pools ≡ some out
    → out ≡ 0
unfolding quote_hops amount_out_exact_in
quote_hops-zero route [] h = ground arith
quote_hops-zero [] (pool ∷ pools) h = cc
quote_hops-zero (i ∷ []) (pool ∷ pools) h = cc
quote_hops-zero (i ∷ o ∷ route) (pool ∷ pools) h =
    let (rs, _, rest) = >>=-eq-some (reserves_for pool i o) _ h in absurd (cc rest)

quote_hops_positive :
    (route : List ℕ) (pools : List V2PoolState) (amount : ℕ) {out : ℕ}
    → 0 < out
    → quote_hops amount route pools ≡ some out
    → 0 < amount
quote_hops_positive route pools zero pos h =
    let none_left = quote_hops-zero route pools h in absurd (omega arith)
quote_hops_positive route pools (suc amount) pos h = omega arith

quote_hops-swap_route :
    (amount : ℕ) (route : List ℕ) (pools : List V2PoolState) {out : ℕ}
    → All IsBounded pools
    → amount < reserve_limit
    → 0 < out
    → quote_hops amount route pools ≡ some out
    → (nexts : List V2PoolState) × (swap_route amount route pools ≡ some (out, nexts))
unfolding swap_route quote_hops
quote_hops-swap_route amount route [] b la pos h = ([], ground arith)
quote_hops-swap_route amount [] (pool ∷ pools) b la pos h = absurd (cc)
quote_hops-swap_route amount (i ∷ []) (pool ∷ pools) b la pos h = absurd (cc)
quote_hops-swap_route amount (i ∷ o ∷ route) (pool ∷ pools) {out} (b, bs) la pos h =
    let (rs, hr, rest) = >>=-eq-some (reserves_for pool i o) _ h in
    let (mid, hq, tail) = >>=-eq-some (amount_out_exact_in amount rs.0 rs.1 pool.fee_bps) _ rest in
    let (next, res, swapped, same, small) =
      apply_of_quote pool i o amount rs.0 rs.1 mid b la
        (quote_hops_positive (o ∷ route) pools mid pos tail) hr hq in
    let (nexts, ran) = quote_hops-swap_route mid (o ∷ route) pools bs small pos tail in
    (next ∷ nexts, rw (swapped, same, ran))

-- On pools and an amount below 2^112 a quote above zero is honoured: the swaps of the route all
-- succeed and pay out the quoted amount.
pub quote-swap_route :
    (amount : ℕ) (route : List ℕ) (pools : List V2PoolState) {out : ℕ}
    → All IsBounded pools
    → amount < reserve_limit
    → 0 < out
    → quote_v2_runtime_route_exact_in amount route pools ≡ some out
    → (nexts : List V2PoolState) × (swap_route amount route pools ≡ some (out, nexts))
unfolding quote_v2_runtime_route_exact_in
quote-swap_route amount route pools b la pos h =
    let (_, hops) = else-eq-some (misfit route pools) _ h in
    quote_hops-swap_route amount route pools b la pos hops
