-- ===== src/Tests/Caches.antt =====
-- The page cache at concrete states.
use agent_aware.Prelude.{
  ℕ, ◌+◌, ◌*◌, ◌≡◌, refl, Bool, true, false, Option, none, some, List, [], ◌∷◌, arith, inl, inr,
}
use agent_aware.Prelude.Assoc.{find}
use agent_aware.Graph.{DecodedPage}
use agent_aware.Graph.Cache.{
  DoubleOps, CacheEntry, PageCache, CacheStats, two_queue, find_victim, cache_enabled,
}
use agent_aware.Graph.Cache.Calls.{
  load_page, lookup_cached_page, new_guard, PagePinGuard, is_pinned, release,
}
use agent_aware.Graph.Cache.Victim.{IsFirstOut, find_victim-IsVictim, find_victim_order}
use agent_aware.Graph.Cache.Sound.{IsSound, IsStep, load_page-read}
use agent_aware.Graph.Cache.Pins.{unused, then_load, guard-release, load-lookup}

-- Whole numbers in place of doubles.
abbrev whole : DoubleOps
whole = record {
  from_u64 = λ n. n;
  add = λ a b. a + b;
  mul = λ a b. a * b;
  log1p = λ a. a;
  one_hundredth = 0;
  rank = λ a. a;
}

abbrev page_of : ℕ → DecodedPage
page_of k = record { page_id = k; bytes = []; nodes = [] }

-- A file of every page.
abbrev file : ℕ → Option DecodedPage
file k = some (page_of k)

abbrev entry_of : ℕ → ℕ → Bool → CacheEntry
entry_of k last_access protected_queue = record {
  page = page_of k;
  last_access = last_access;
  frequency = 1;
  protected_queue = protected_queue;
  hot_score = 0;
  pin_count = 0;
}

abbrev entries : List (ℕ × CacheEntry)
entries = (3, entry_of 3 1 true) ∷ (5, entry_of 5 2 false) ∷ []

abbrev turned : List (ℕ × CacheEntry)
turned = (5, entry_of 5 2 false) ∷ (3, entry_of 3 1 true) ∷ []

abbrev full_cache : PageCache
full_cache = record {
  cache_policy = two_queue;
  cache_capacity_pages = 2;
  cache_protect_hot_pages = false;
  cache_hot_degree_threshold = 0;
  cache_clock = 2;
  page_cache = entries;
  node_in_degrees = [];
  node_in_degrees_ready = false;
}

abbrev no_stats : CacheStats
no_stats = record {
  page_requests = 0;
  page_requests_before_dedup = 0;
  page_requests_after_dedup = 0;
  page_cache_hits = 0;
  cache_hits = 0;
  page_cache_misses = 0;
  demand_reads = 0;
  node_reads = 0;
  page_cache_hub_requests = 0;
  page_cache_hub_hits = 0;
  page_cache_promotions = 0;
  page_cache_evictions = 0;
  page_cache_pinned_eviction_skips = 0;
}

faithful : (k : ℕ) (e : CacheEntry) → find k entries ≡ some e → file k ≡ some e.page
unfolding find
faithful k e found = ground arith

full_cache-IsSound : IsSound file full_cache
full_cache-IsSound = record {
  bounded = omega arith;
  distinct = unfold find in (refl, (refl, tt));
  faithful = faithful;
}

find_victim-IsVictim_example :
    IsFirstOut whole two_queue entries (find_victim whole two_queue entries none)
find_victim-IsVictim_example = find_victim-IsVictim whole two_queue entries

find_victim_order_example :
    find_victim whole two_queue entries none ≡ find_victim whole two_queue turned none
unfolding find
find_victim_order_example =
    find_victim_order whole two_queue entries turned (refl, (refl, tt)) (refl, (refl, tt))
      (λ k. ground arith)

load_page-read_example :
    IsStep file full_cache (load_page whole file full_cache 7 no_stats).0
    × ((load_page whole file full_cache 7 no_stats).2 ≡ file 7)
load_page-read_example = load_page-read file whole full_cache 7 no_stats full_cache-IsSound

load-lookup_example :
    (lookup_cached_page (load_page whole file full_cache 7 no_stats).0 7 no_stats).2
    ≡ some (page_of 7)
load-lookup_example =
    load-lookup file whole full_cache 7 (page_of 7) no_stats no_stats full_cache-IsSound
      (inr ((5, entry_of 5 2 false), inr (inl refl), refl)) (unfold cache_enabled in refl) refl

abbrev after_loads : PageCache
after_loads = (load_page whole file (new_guard full_cache 5).0 7 no_stats).0

guard-release_example :
    ((new_guard full_cache 5).1.owns_pin ≡ true)
    × (is_pinned after_loads 5 ≡ true)
    × ((r : PageCache) × (g : PagePinGuard) × (f : CacheEntry) × (release after_loads
            (new_guard full_cache 5).1
          ≡ some (r, g))
        × (find 5 r.page_cache ≡ some f)
        × (file 5 ≡ some f.page)
        × (f.pin_count ≡ 0))
guard-release_example =
    guard-release file whole full_cache 5 (entry_of 5 2 false) after_loads full_cache-IsSound
      (unfold find in refl) (omega arith) (then_load unused 7 no_stats)
