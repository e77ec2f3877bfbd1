-- ===== src/PoolCache.antt =====
-- src/mev/cache/pool_cache.rs: pools with the moment and the block at which they were read. The answer of
-- the provider and the moments at which the code reads the clock are arguments of a call. A call is taken
-- as a whole, without others between its locks.
use arbitrage_runtime.Base.{
  Bool, List, Option, [], if◌then◌else◌, leb, ltb, none, saturating_sub, some, ℕ, ◌%◌, ◌&&◌, ◌+◌,
  ◌==◌, ◌^◌,
}
use arbitrage_runtime.Base.Assoc.{get, insert}
use arbitrage_runtime.Base.Int.{ℤ}
use arbitrage_runtime.Base.Time.{as_millis, since}
pub mod Reuse
mod Tests

pub record CachedV2Pool : Type 0 where
  pub pair : ℕ
  pub token0 : ℕ
  pub token1 : ℕ
  pub reserve0 : ℕ
  pub reserve1 : ℕ
  pub block_number : ℕ
  pub cached_at : ℕ

pub record CachedV3Pool : Type 0 where
  pub pool : ℕ
  pub token0 : ℕ
  pub token1 : ℕ
  pub sqrt_price_x96 : ℕ
  pub liquidity : ℕ
  pub current_tick : ℤ
  pub block_number : ℕ
  pub cached_at : ℕ

-- `content` is the field `data`.
pub record PoolCacheEntry (T : Type 0) : Type 0 where
  pub content : T
  pub cached_at : ℕ
  pub block_number : ℕ

pub record CacheStats : Type 0 where
  pub v2_hits : ℕ
  pub v2_misses : ℕ
  pub v3_hits : ℕ
  pub v3_misses : ℕ
  pub stale_reads : ℕ
  pub refresh_count : ℕ

pub record PoolCache : Type 0 where
  pub v2_pools : List (ℕ × PoolCacheEntry CachedV2Pool)
  pub v3_pools : List (ℕ × PoolCacheEntry CachedV3Pool)
  pub ttl_ms : ℕ
  pub stats : CacheStats

abbrev pub empty_stats : CacheStats
empty_stats = record {
  v2_hits = 0;
  v2_misses = 0;
  v3_hits = 0;
  v3_misses = 0;
  stale_reads = 0;
  refresh_count = 0;
}

abbrev pub new_cache : ℕ → PoolCache
new_cache ttl_ms = record { v2_pools = []; v3_pools = []; ttl_ms = ttl_ms; stats = empty_stats }

-- The moments of a call: of the look into the cache, of the pool made of the answer, of its entry.
pub record Moments : Type 0 where
  pub looked : ℕ
  pub answered : ℕ
  pub entered : ℕ

-- The cast of the milliseconds to `u64` drops the bits above.
abbrev pub age_ms : {T : Type 0} → ℕ → PoolCacheEntry T → ℕ
age_ms now entry = as_millis (since now entry.cached_at) % 2 ^ 64

-- `+= 1` on a `u64`, which wraps in a release build.
abbrev pub bump : ℕ → ℕ
bump n = (n + 1) % 2 ^ 64

unfoldable pub is_current : {T : Type 0} → ℕ → ℕ → ℕ → PoolCacheEntry T → Bool
is_current ttl_ms now current_block entry =
    ltb (age_ms now entry) ttl_ms && leb (saturating_sub current_block 5) entry.block_number

unfoldable pub current_entry :
    {T : Type 0} → ℕ → ℕ → ℕ → Option (PoolCacheEntry T) → Option (PoolCacheEntry T)
current_entry ttl_ms now current_block none = none
current_entry ttl_ms now current_block (some entry) =
    if is_current ttl_ms now current_block entry then some entry else none

unfoldable pub count_stale : ℕ → ℕ → Option (PoolCacheEntry CachedV2Pool) → CacheStats → CacheStats
count_stale ttl_ms now none stats = stats
count_stale ttl_ms now (some entry) stats =
    if leb ttl_ms (age_ms now entry)
    then record stats { stale_reads = bump stats.stale_reads }
    else stats

-- What follows a miss: the answer of the provider is tokens and reserves.
unfoldable pub enter_v2 :
    ℕ → Option (ℕ × ℕ × ℕ × ℕ) → ℕ → Moments → PoolCache → Option CachedV2Pool × PoolCache
enter_v2 pair none current_block at cache = (none, cache)
enter_v2 pair (some (token0, token1, reserve0, reserve1)) current_block at cache =
    let cached : CachedV2Pool = record {
      pair = pair;
      token0 = token0;
      token1 = token1;
      reserve0 = reserve0;
      reserve1 = reserve1;
      block_number = current_block;
      cached_at = at.answered;
    } in
    (
      some cached,
      record cache {
        v2_pools =
            insert ◌==◌ pair
              (record { content = cached; cached_at = at.entered; block_number = current_block })
              cache.v2_pools;
        stats = record cache.stats { refresh_count = bump cache.stats.refresh_count };
      },
    )

abbrev pub count_hit : PoolCache → PoolCache
count_hit cache = record cache { stats = record cache.stats { v2_hits = bump cache.stats.v2_hits } }

abbrev pub count_miss : ℕ → ℕ → PoolCache → PoolCache
count_miss pair now cache =
    let counted = count_stale cache.ttl_ms now (get ◌==◌ pair cache.v2_pools) cache.stats in
    record cache { stats = record counted { v2_misses = bump counted.v2_misses } }

unfoldable pub answer_v2 :
    Option (PoolCacheEntry CachedV2Pool)
    → ℕ
    → Option (ℕ × ℕ × ℕ × ℕ)
    → ℕ
    → Moments
    → PoolCache
    → Option CachedV2Pool × PoolCache
answer_v2 (some entry) pair fetched current_block at cache = (some entry.content, count_hit cache)
answer_v2 none pair fetched current_block at cache =
    enter_v2 pair fetched current_block at (count_miss pair at.looked cache)

unfoldable pub get_or_fetch_v2 :
    ℕ → Option (ℕ × ℕ × ℕ × ℕ) → ℕ → Moments → PoolCache → Option CachedV2Pool × PoolCache
get_or_fetch_v2 pair fetched current_block at cache =
    answer_v2 (current_entry cache.ttl_ms at.looked current_block (get ◌==◌ pair cache.v2_pools))
      pair fetched current_block at cache

-- The answer of the provider is tokens, liquidity, the square root of the price and the tick.
unfoldable pub enter_v3 :
    ℕ → Option (ℕ × ℕ × ℕ × ℕ × ℤ) → ℕ → Moments → PoolCache → Option CachedV3Pool × PoolCache
enter_v3 pool none current_block at cache = (none, cache)
enter_v3 pool (some (token0, token1, liquidity, sqrt_price_x96, current_tick)) current_block at
      cache =
    let cached : CachedV3Pool = record {
      pool = pool;
      token0 = token0;
      token1 = token1;
      sqrt_price_x96 = sqrt_price_x96;
      liquidity = liquidity;
      current_tick = current_tick;
      block_number = current_block;
      cached_at = at.answered;
    } in
    (
      some cached,
      record cache {
        v3_pools =
            insert ◌==◌ pool
              (record { content = cached; cached_at = at.entered; block_number = current_block })
              cache.v3_pools;
      },
    )

unfoldable pub answer_v3 :
    Option (PoolCacheEntry CachedV3Pool)
    → ℕ
    → Option (ℕ × ℕ × ℕ × ℕ × ℤ)
    → ℕ
    → Moments
    → PoolCache
    → Option CachedV3Pool × PoolCache
answer_v3 (some entry) pool fetched current_block at cache = (
  some entry.content,
  record cache { stats = record cache.stats { v3_hits = bump cache.stats.v3_hits } },
)
answer_v3 none pool fetched current_block at cache =
    enter_v3 pool fetched current_block at
      (record cache { stats = record cache.stats { v3_misses = bump cache.stats.v3_misses } })

unfoldable pub get_or_fetch_v3 :
    ℕ → Option (ℕ × ℕ × ℕ × ℕ × ℤ) → ℕ → Moments → PoolCache → Option CachedV3Pool × PoolCache
get_or_fetch_v3 pool fetched current_block at cache =
    answer_v3 (current_entry cache.ttl_ms at.looked current_block (get ◌==◌ pool cache.v3_pools))
      pool fetched current_block at cache
