-- ===== src/PoolCache/Tests.antt =====
-- Runs of the cache, and the theorems at them.
use arbitrage_runtime.Base.{[], arith, none, refl, some, ◌*◌, ◌+◌, ◌<◌, ◌==◌, ◌^◌, ◌∷◌, ◌≡◌, ◌≤◌}
use arbitrage_runtime.Base.Assoc.{get}
use arbitrage_runtime.PoolCache.{
  CachedV2Pool, Moments, PoolCache, PoolCacheEntry, age_ms, answer_v2, count_hit, count_stale,
  current_entry, enter_v2, get_or_fetch_v2, is_current, new_cache,
}
use arbitrage_runtime.PoolCache.Reuse.{get_or_fetch_v2_again, get_or_fetch_v2_offline}

abbrev at_start : Moments
at_start = record { looked = 0; answered = 10 ^ 6; entered = 2 * 10 ^ 6 }

abbrev at_later : Moments
at_later = record { looked = 300 * 10 ^ 6; answered = 301 * 10 ^ 6; entered = 302 * 10 ^ 6 }

abbrev pool_seven : CachedV2Pool
pool_seven = record {
  pair = 7;
  token0 = 1;
  token1 = 2;
  reserve0 = 1_000;
  reserve1 = 2_000;
  block_number = 100;
  cached_at = 10 ^ 6;
}

abbrev entry_seven : PoolCacheEntry CachedV2Pool
entry_seven = record { content = pool_seven; cached_at = 2 * 10 ^ 6; block_number = 100 }

abbrev loaded : PoolCache
loaded = record (new_cache 400) { v2_pools = (7, entry_seven) ∷ [] }

nothing_cached : current_entry 400 0 100 (get ◌==◌ 7 (new_cache 400).v2_pools) ≡ none
unfolding current_entry get
nothing_cached = refl

get_or_fetch_v2_again_example :
    get_or_fetch_v2 7 none 105 at_later
      (get_or_fetch_v2 7 (some (1, 2, 1_000, 2_000)) 100 at_start (new_cache 400)).1
    ≡ (
      (get_or_fetch_v2 7 (some (1, 2, 1_000, 2_000)) 100 at_start (new_cache 400)).0,
      count_hit (get_or_fetch_v2 7 (some (1, 2, 1_000, 2_000)) 100 at_start (new_cache 400)).1,
    )
get_or_fetch_v2_again_example =
    get_or_fetch_v2_again 7 100 105 1 2 1_000 2_000 none at_start at_later (new_cache 400)
      nothing_cached (omega arith) (omega arith)

-- Six blocks later the cache does not answer without the provider.
six_blocks : (get_or_fetch_v2 7 none 106 at_later loaded).0 ≡ none
unfolding get_or_fetch_v2 answer_v2 enter_v2 current_entry is_current get count_stale
six_blocks = refl

five_blocks : (get_or_fetch_v2 7 none 105 at_later loaded).0 ≡ some pool_seven
unfolding get_or_fetch_v2 answer_v2 enter_v2 current_entry is_current get count_stale
five_blocks = refl

get_or_fetch_v2_offline_example :
    (entry : PoolCacheEntry CachedV2Pool) × (get ◌==◌ 7 loaded.v2_pools ≡ some entry)
    × (pool_seven ≡ entry.content)
    × (age_ms at_later.looked entry < loaded.ttl_ms)
    × (105 ≤ entry.block_number + 5)
get_or_fetch_v2_offline_example =
    get_or_fetch_v2_offline 7 105 at_later loaded pool_seven five_blocks
