-- ===== src/PoolCache/Reuse.antt =====
-- When the cache answers with a pool that it has.
use arbitrage_runtime.Base.{
  ==_iff, Option, Option-cases, arith, inl, inr, none, refl, some, true, ℕ, ◌%◌, ◌+◌, ◌<◌, ◌==◌,
  ◌^◌, ◌≡◌, ◌≤◌,
}
use arbitrage_runtime.Base.Assoc.{get, get-insert_same}
use arbitrage_runtime.Base.Time.{as_millis, since}
use arbitrage_runtime.PoolCache.{
  CachedV2Pool, Moments, PoolCache, PoolCacheEntry, age_ms, answer_v2, count_hit, count_miss,
  current_entry, enter_v2, get_or_fetch_v2, is_current,
}

-- Without an answer of the provider, the pool that the cache gives is the one that it has for the pair,
-- entered less than the time to live ago and at a block at most five before the current one.
pub get_or_fetch_v2_offline :
    (pair current_block : ℕ) (at : Moments) (cache : PoolCache) (found_pool : CachedV2Pool)
    → (get_or_fetch_v2 pair none current_block at cache).0 ≡ some found_pool
    → (entry : PoolCacheEntry CachedV2Pool) × (get ◌==◌ pair cache.v2_pools ≡ some entry)
      × (found_pool ≡ entry.content)
      × (age_ms at.looked entry < cache.ttl_ms)
      × (current_block ≤ entry.block_number + 5)
unfolding get_or_fetch_v2 answer_v2 enter_v2 current_entry is_current
get_or_fetch_v2_offline pair current_block at cache found_pool h =
    elim (Option-cases (get ◌==◌ pair cache.v2_pools)) [
      | inl missing ↦ absurd (ground arith)
      | inr (entry, present) ↦ (entry, present, ground arith, ground arith, ground arith)
    ]

-- A pool entered just now is the one that the cache has for the pair.
entered_v2 :
    (pair block token0 token1 reserve0 reserve1 : ℕ) (at : Moments) (cache : PoolCache)
    → get ◌==◌ pair
        (enter_v2 pair (some (token0, token1, reserve0, reserve1)) block at cache).1.v2_pools
      ≡ some (record {
        content = record {
          pair = pair;
          token0 = token0;
          token1 = token1;
          reserve0 = reserve0;
          reserve1 = reserve1;
          block_number = block;
          cached_at = at.answered;
        };
        cached_at = at.entered;
        block_number = block;
      })
unfolding enter_v2
entered_v2 pair block token0 token1 reserve0 reserve1 at cache =
    get-insert_same ◌==◌ ==_iff pair _ cache.v2_pools

missed_v2 :
    (pair block : ℕ) (fetched : Option (ℕ × ℕ × ℕ × ℕ)) (at : Moments) (cache : PoolCache)
    → current_entry cache.ttl_ms at.looked block (get ◌==◌ pair cache.v2_pools) ≡ none
    → get_or_fetch_v2 pair fetched block at cache
      ≡ enter_v2 pair fetched block at (count_miss pair at.looked cache)
unfolding get_or_fetch_v2 answer_v2
missed_v2 pair block fetched at cache missed = rw missed refl

hit_v2 :
    (pair block : ℕ) (fetched : Option (ℕ × ℕ × ℕ × ℕ)) (at : Moments) (cache : PoolCache)
    (entry : PoolCacheEntry CachedV2Pool)
    → get ◌==◌ pair cache.v2_pools ≡ some entry
    → is_current cache.ttl_ms at.looked block entry ≡ true
    → get_or_fetch_v2 pair fetched block at cache ≡ (some entry.content, count_hit cache)
unfolding get_or_fetch_v2 answer_v2 current_entry
hit_v2 pair block fetched at cache entry present current = rw present (rw current refl)

-- A pool that a call has read from the provider is answered again by the next call for the pair, without
-- the provider, when that call looks less than the time to live after the entry and at a block at most
-- five after the one of the entry. The next call changes nothing but the count of hits.
pub get_or_fetch_v2_again :
    (pair block later token0 token1 reserve0 reserve1 : ℕ) (other : Option (ℕ × ℕ × ℕ × ℕ))
    (at next : Moments) (cache : PoolCache)
    → current_entry cache.ttl_ms at.looked block (get ◌==◌ pair cache.v2_pools) ≡ none
    → as_millis (since next.looked at.entered) % 2 ^ 64 < cache.ttl_ms
    → later ≤ block + 5
    → get_or_fetch_v2 pair other later next
        (get_or_fetch_v2 pair (some (token0, token1, reserve0, reserve1)) block at cache).1
      ≡ (
        (get_or_fetch_v2 pair (some (token0, token1, reserve0, reserve1)) block at cache).0,
        count_hit
            (get_or_fetch_v2 pair (some (token0, token1, reserve0, reserve1)) block at cache).1,
      )
unfolding enter_v2 is_current
get_or_fetch_v2_again pair block later token0 token1 reserve0 reserve1 other at next cache missed
      young near =
    let answer : Option (ℕ × ℕ × ℕ × ℕ) = some (token0, token1, reserve0, reserve1) in
    let counted = count_miss pair at.looked cache in
    rw (missed_v2 pair block answer at cache missed) (
      hit_v2 pair later other next (enter_v2 pair answer block at counted).1 _
        (entered_v2 pair block token0 token1 reserve0 reserve1 at counted) (ground arith))
