-- ===== src/Graph/Cache.antt =====
-- The page cache of `PackedDiskGraphIndex`, src/graph/disk_graph_index.cpp: its state, the scores and
-- the choice of a victim. The reads of the file and the arithmetic of doubles are parameters.
pub mod Calls
pub mod Victim
pub mod Entries
pub mod Sound
pub mod Pins
pub mod Configured
use agent_aware.Prelude.{
  ℕ, zero, suc, ◌+◌, ◌%◌, ◌^◌, Bool, true, false, not, ◌&&◌, ◌||◌, Option, none, some, List, [],
  ◌∷◌, length, ltb, leb, ◌==◌, if◌then◌else◌, min,
}
use agent_aware.Prelude.Assoc.{erase}
use agent_aware.Records.Checksum.{is_empty}
use agent_aware.Graph.{DiskNode, DecodedPage}

-- The names that the cache knows, and any other.
pub data CachePolicy : Type 0 where
  no_cache : CachePolicy
  lru : CachePolicy
  two_queue : CachePolicy
  graph_aware_two_queue : CachePolicy
  agent : CachePolicy
  unknown_policy : CachePolicy

-- The operations of a `double`, on bit patterns. Of the doubles that are not NaN, `rank` gives the place
-- in their order. `one_hundredth` is 0.01.
pub record DoubleOps : Type 0 where
  pub from_u64 : ℕ → ℕ
  pub add : ℕ → ℕ → ℕ
  pub mul : ℕ → ℕ → ℕ
  pub log1p : ℕ → ℕ
  pub one_hundredth : ℕ
  pub rank : ℕ → ℕ

pub record CacheEntry : Type 0 where
  pub page : DecodedPage
  pub last_access : ℕ
  pub frequency : ℕ
  pub protected_queue : Bool
  pub hot_score : ℕ
  pub pin_count : ℕ

pub record PageCache : Type 0 where
  pub cache_policy : CachePolicy
  pub cache_capacity_pages : ℕ
  pub cache_protect_hot_pages : Bool
  pub cache_hot_degree_threshold : ℕ
  pub cache_clock : ℕ
  pub page_cache : List (ℕ × CacheEntry)
  pub node_in_degrees : List ℕ
  pub node_in_degrees_ready : Bool

-- The counters of `DiskGraphSearchStats` that the cache counts.
pub record CacheStats : Type 0 where
  pub page_requests : ℕ
  pub page_requests_before_dedup : ℕ
  pub page_requests_after_dedup : ℕ
  pub page_cache_hits : ℕ
  pub cache_hits : ℕ
  pub page_cache_misses : ℕ
  pub demand_reads : ℕ
  pub node_reads : ℕ
  pub page_cache_hub_requests : ℕ
  pub page_cache_hub_hits : ℕ
  pub page_cache_promotions : ℕ
  pub page_cache_evictions : ℕ
  pub page_cache_pinned_eviction_skips : ℕ

abbrev pub u64_limit : ℕ
u64_limit = 2 ^ 64

-- `++counter` of a 64-bit counter.
abbrev pub next64 : ℕ → ℕ
next64 n = (n + 1) % u64_limit

abbrev pub is_no_cache : CachePolicy → Bool
is_no_cache no_cache = true
is_no_cache lru = false
is_no_cache two_queue = false
is_no_cache graph_aware_two_queue = false
is_no_cache agent = false
is_no_cache unknown_policy = false

unfoldable pub is_two_queue_policy : CachePolicy → Bool
is_two_queue_policy no_cache = false
is_two_queue_policy lru = false
is_two_queue_policy two_queue = true
is_two_queue_policy graph_aware_two_queue = true
is_two_queue_policy agent = true
is_two_queue_policy unknown_policy = false

unfoldable pub is_graph_aware_cache_policy : CachePolicy → Bool
is_graph_aware_cache_policy no_cache = false
is_graph_aware_cache_policy lru = false
is_graph_aware_cache_policy two_queue = false
is_graph_aware_cache_policy graph_aware_two_queue = true
is_graph_aware_cache_policy agent = true
is_graph_aware_cache_policy unknown_policy = false

unfoldable pub cache_enabled : PageCache → Bool
cache_enabled c = not (is_no_cache c.cache_policy) && ltb 0 c.cache_capacity_pages

-- `node_in_degrees_[id]`, and `other` behind the end.
unfoldable pub in_degree : List ℕ → ℕ → ℕ → ℕ
in_degree [] id other = other
in_degree (d ∷ ds) zero other = d
in_degree (d ∷ ds) (suc id) other = in_degree ds id other

-- The loop of `page_hot_score`.
unfoldable pub hot_score_loop : PageCache → List DiskNode → ℕ → ℕ
hot_score_loop c [] score = score
hot_score_loop c (node ∷ nodes) score =
    let importance = in_degree c.node_in_degrees node.id (length node.neighbors) in
    hot_score_loop c nodes (
      if c.cache_hot_degree_threshold == 0
      then (score + importance) % u64_limit
      else if leb c.cache_hot_degree_threshold importance
      then next64 score
      else score)

unfoldable pub page_hot_score : PageCache → DecodedPage → ℕ
page_hot_score c page =
    if not c.cache_protect_hot_pages && not (is_graph_aware_cache_policy c.cache_policy)
    then 0
    else hot_score_loop c page.nodes 0

unfoldable pub page_is_hub : PageCache → DecodedPage → Bool
page_is_hub c page = ltb 0 (page_hot_score c page)

unfoldable pub cache_entry_is_hub : CacheEntry → Bool
cache_entry_is_hub entry = ltb 0 entry.hot_score

unfoldable pub record_hub_cache_access : Bool → Bool → CacheStats → CacheStats
record_hub_cache_access hub_page hit stats = if not hub_page then stats else record stats {
  page_cache_hub_requests = next64 stats.page_cache_hub_requests;
  page_cache_hub_hits = if hit then next64 stats.page_cache_hub_hits else stats.page_cache_hub_hits;
}

module _ (ops : DoubleOps) where
  abbrev queue_bonus : CacheEntry → ℕ
  queue_bonus e = if e.protected_queue then ops.from_u64 1000000000 else ops.from_u64 0

  abbrev graph_aware_score : CacheEntry → ℕ
  graph_aware_score e =
      ops.add
        (ops.add (ops.add (queue_bonus e) (ops.from_u64 e.last_access))
          (ops.mul (ops.log1p (ops.from_u64 e.hot_score)) (ops.from_u64 64)))
        (ops.mul (ops.from_u64 (min e.frequency 16)) (ops.from_u64 4))

  abbrev frequency_score : CacheEntry → ℕ
  frequency_score e =
      ops.add
        (ops.add (ops.mul (ops.from_u64 e.frequency) (ops.from_u64 1000))
          (ops.from_u64 e.last_access))
        (ops.mul (ops.from_u64 (length e.page.nodes)) ops.one_hundredth)

  unfoldable pub cache_score : CachePolicy → CacheEntry → ℕ
  cache_score lru e = ops.from_u64 e.last_access
  cache_score two_queue e = ops.add (queue_bonus e) (ops.from_u64 e.last_access)
  cache_score graph_aware_two_queue e = graph_aware_score e
  cache_score agent e = graph_aware_score e
  cache_score no_cache e = frequency_score e
  cache_score unknown_policy e = frequency_score e

  -- Whether the loop of `evict_one_page_locked` takes the entry in the place of its victim.
  unfoldable pub evicted_before : CachePolicy → ℕ × CacheEntry → ℕ × CacheEntry → Bool
  evicted_before policy (k, e) (v, f) =
      let score = ops.rank (cache_score policy e) in
      let victim_score = ops.rank (cache_score policy f) in
      if is_two_queue_policy policy
        && (if f.protected_queue then not e.protected_queue else e.protected_queue)
      then not e.protected_queue
      else ltb score victim_score || ((score == victim_score) && ltb k v)

  -- The loop: the victim so far, `none` for `page_cache_.end()`.
  unfoldable pub find_victim :
      CachePolicy → List (ℕ × CacheEntry) → Option (ℕ × CacheEntry) → Option (ℕ × CacheEntry)
  find_victim policy [] victim = victim
  find_victim policy ((k, e) ∷ entries) victim = find_victim policy entries (
      if ltb 0 e.pin_count then victim else elim victim [
        | none ↦ some (k, e)
        | some v ↦ if evicted_before policy (k, e) v then some (k, e) else some v
      ])

  unfoldable pub evict_one_page : PageCache → CacheStats → PageCache × CacheStats × Bool
  evict_one_page c stats =
      if is_empty c.page_cache
      then (c, stats, false)
      else elim (find_victim c.cache_policy c.page_cache none) [
        | none ↦ (
          c,
          record stats {
            page_cache_pinned_eviction_skips = next64 stats.page_cache_pinned_eviction_skips;
          },
          false,
        )
        | some v ↦ (
          record c { page_cache = erase v.0 c.page_cache },
          record stats { page_cache_evictions = next64 stats.page_cache_evictions },
          true,
        )
      ]
