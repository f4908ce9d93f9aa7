-- ===== src/Graph/Cache/Calls.antt =====
-- The calls of the page cache of src/graph/disk_graph_index.cpp.
use agent_aware.Prelude.{
  ℕ, zero, suc, ◌+◌, ◌-◌, ◌%◌, ◌^◌, Bool, true, false, not, ◌&&◌, ◌||◌, Option, none, some, List,
  [], ◌∷◌, length, ltb, leb, ◌==◌, if◌then◌else◌,
}
use agent_aware.Prelude.Assoc.{find, put}
use agent_aware.Graph.{DiskNode, DecodedPage}
use agent_aware.Graph.Cache.{
  DoubleOps, CachePolicy, CacheEntry, PageCache, CacheStats, next64, is_two_queue_policy,
  cache_enabled, page_hot_score, page_is_hub, cache_entry_is_hub, record_hub_cache_access,
  evict_one_page, no_cache, lru, two_queue, graph_aware_two_queue, agent, unknown_policy,
  is_graph_aware_cache_policy,
}

-- The access of an entry that is found: `last_access` and `frequency`.
abbrev pub accessed : PageCache → CacheEntry → CacheEntry
accessed c e = record e { last_access = next64 c.cache_clock; frequency = next64 e.frequency }

-- `if (is_two_queue_policy() && !entry.protected_queue) { entry.protected_queue = true; ... }`
abbrev pub promoted : PageCache → CacheEntry → CacheEntry
promoted c e = record e {
  protected_queue = e.protected_queue || is_two_queue_policy c.cache_policy;
}

abbrev pub count_promotion : PageCache → CacheEntry → CacheStats → CacheStats
count_promotion c e stats =
    if is_two_queue_policy c.cache_policy && not e.protected_queue
    then record stats { page_cache_promotions = next64 stats.page_cache_promotions }
    else stats

abbrev pub with_entry : PageCache → ℕ → CacheEntry → PageCache
with_entry c page_id e = record c {
  cache_clock = next64 c.cache_clock;
  page_cache = put page_id e c.page_cache;
}

abbrev pub count_hit : CacheStats → CacheStats
count_hit stats = record stats {
  page_cache_hits = next64 stats.page_cache_hits;
  cache_hits = next64 stats.cache_hits;
}

unfoldable pub lookup_cached_page :
    PageCache → ℕ → CacheStats → PageCache × CacheStats × Option DecodedPage
lookup_cached_page c page_id stats =
    if not (cache_enabled c) then (c, stats, none) else elim (find page_id c.page_cache) [
      | none ↦ (c, stats, none)
      | some e ↦ (
        with_entry c page_id (promoted c (accessed c e)),
        count_promotion c e (record_hub_cache_access (cache_entry_is_hub e) true (count_hit stats)),
        some e.page,
      )
    ]

-- The entry of a page that comes into the cache.
abbrev pub new_entry : PageCache → DecodedPage → CacheEntry
new_entry c page = record {
  page = page;
  last_access = next64 c.cache_clock;
  frequency = 1;
  protected_queue = false;
  hot_score = page_hot_score c page;
  pin_count = 0;
}

module _ (ops : DoubleOps) where
  -- The ends of `store_cached_page` and `load_page`, for a page that is not in the cache.
  unfoldable pub add_page : PageCache → ℕ → DecodedPage → CacheStats → PageCache × CacheStats
  add_page c page_id page stats =
      let (c', stats', evicted) = evict_one_page ops c stats in
      if leb c.cache_capacity_pages (length c.page_cache)
      then if not evicted then (c', stats') else (with_entry c' page_id (new_entry c' page), stats')
      else (with_entry c page_id (new_entry c page), stats)

  -- The page that is returned is the argument in each case.
  unfoldable pub store_cached_page : PageCache → DecodedPage → CacheStats → PageCache × CacheStats
  store_cached_page c page stats =
      if not (cache_enabled c) then (c, stats) else elim (find page.page_id c.page_cache) [
        | none ↦ add_page c page.page_id page stats
        | some e ↦ (
          with_entry c page.page_id (
              promoted c
                (record (accessed c e) { page = page; hot_score = page_hot_score c page })),
          count_promotion c e stats,
        )
      ]

  abbrev pub count_request : CacheStats → CacheStats
  count_request stats = record stats {
    page_requests = next64 stats.page_requests;
    page_requests_before_dedup = next64 stats.page_requests_before_dedup;
  }

  abbrev pub count_miss : CacheStats → CacheStats
  count_miss stats = record stats {
    page_cache_misses = next64 stats.page_cache_misses;
    demand_reads = next64 stats.demand_reads;
    node_reads = next64 stats.node_reads;
    page_requests_after_dedup = next64 stats.page_requests_after_dedup;
  }

  -- `load_page` behind a look-up that found nothing. The second look-up, under the lock, is for another
  -- thread's page: of one thread it finds nothing. A read that throws is `none`.
  unfoldable pub load_missing :
      (ℕ → Option DecodedPage)
      → PageCache
      → ℕ
      → CacheStats
      → PageCache × CacheStats × Option DecodedPage
  load_missing read_page c page_id stats = elim (read_page page_id) [
    | none ↦ (c, count_miss stats, none)
    | some page ↦
        let counted = record_hub_cache_access (page_is_hub c page) false (count_miss stats) in
        let (c', stats') = add_page c page_id page counted in
        if not (cache_enabled c) then (c, counted, some page) else (c', stats', some page)
  ]

  unfoldable pub load_page :
      (ℕ → Option DecodedPage)
      → PageCache
      → ℕ
      → CacheStats
      → PageCache × CacheStats × Option DecodedPage
  load_page read_page c page_id stats =
      let (c1, stats1, cached) = lookup_cached_page c page_id (count_request stats) in
      let missing = load_missing read_page c1 page_id stats1 in
      elim cached [
        | some page ↦ (c1, stats1, some page)
        | none ↦ elim (if cache_enabled c1 then find page_id c1.page_cache else none) [
          | none ↦ missing
          | some e ↦ (with_entry c1 page_id (accessed c1 e), count_hit stats1, some e.page)
        ]
      ]

-- `pin_if_cached`, and whether the page is there.
unfoldable pub pin_if_cached : PageCache → ℕ → PageCache × Bool
pin_if_cached c page_id = elim (find page_id c.page_cache) [
  | none ↦ (c, false)
  | some e ↦ (
    record c {
      page_cache = put page_id (record e { pin_count = next64 e.pin_count }) c.page_cache;
    },
    true,
  )
]

-- `unpin_if_cached`; `none` is the exception of a pin underflow.
unfoldable pub unpin_if_cached : PageCache → ℕ → Option PageCache
unpin_if_cached c page_id = elim (find page_id c.page_cache) [
  | none ↦ some c
  | some e ↦
      if e.pin_count == 0
      then none
      else some (record c {
        page_cache = put page_id (record e { pin_count = e.pin_count - 1 }) c.page_cache;
      })
]

unfoldable pub is_pinned : PageCache → ℕ → Bool
is_pinned c page_id = elim (find page_id c.page_cache) [ none ↦ false | some e ↦ ltb 0 e.pin_count ]

-- `PagePinGuard`: the guard of a page, whether it still has its index, and whether it owns a pin.
pub record PagePinGuard : Type 0 where
  pub page_id : ℕ
  pub has_index : Bool
  pub owns_pin : Bool

unfoldable pub new_guard : PageCache → ℕ → PageCache × PagePinGuard
new_guard c page_id =
    let (c', owns) = pin_if_cached c page_id in
    (c', record { page_id = page_id; has_index = true; owns_pin = owns })

-- `release`, and so the destructor; `none` is the exception of a pin underflow.
unfoldable pub release : PageCache → PagePinGuard → Option (PageCache × PagePinGuard)
release c g =
    let released : PagePinGuard = record g { has_index = false; owns_pin = false } in
    elim (if g.has_index && g.owns_pin then unpin_if_cached c g.page_id else some c) [
      | none ↦ none
      | some c' ↦ some (c', released)
    ]

-- `this` takes the pin of another guard: the cache, `this` and the other guard after it.
unfoldable pub move_assign :
    PageCache → PagePinGuard → PagePinGuard → Option (PageCache × PagePinGuard × PagePinGuard)
move_assign c this other = elim (release c this) [
  | none ↦ none
  | some (c', g) ↦ some (c', other, record other { has_index = false; owns_pin = false })
]

-- `++node_in_degrees_[neighbor]` of 32-bit counters, if there is one.
unfoldable pub count_neighbor : ℕ → List ℕ → List ℕ
count_neighbor neighbor [] = []
count_neighbor zero (d ∷ ds) = (d + 1) % 2 ^ 32 ∷ ds
count_neighbor (suc neighbor) (d ∷ ds) = d ∷ count_neighbor neighbor ds

unfoldable pub count_neighbors : List ℕ → List ℕ → List ℕ
count_neighbors [] degrees = degrees
count_neighbors (n ∷ ns) degrees = count_neighbors ns (count_neighbor n degrees)

unfoldable pub count_nodes : List DiskNode → List ℕ → List ℕ
count_nodes [] degrees = degrees
count_nodes (node ∷ nodes) degrees = count_nodes nodes (count_neighbors node.neighbors degrees)

-- The loop over `count` pages from `page_id` on, and whether each read went well.
unfoldable pub count_pages : (ℕ → Option DecodedPage) → ℕ → ℕ → List ℕ → List ℕ × Bool
count_pages read_page zero page_id degrees = (degrees, true)
count_pages read_page (suc count) page_id degrees = elim (read_page page_id) [
  | none ↦ (degrees, false)
  | some page ↦ count_pages read_page count (suc page_id) (count_nodes page.nodes degrees)
]

abbrev zeros : ℕ → List ℕ
zeros zero = []
zeros (suc n) = 0 ∷ zeros n

-- For an index of `vector_count` nodes and `page_count` pages; `false` is an exception of a read.
unfoldable pub ensure_node_in_degrees :
    (ℕ → Option DecodedPage) → ℕ → ℕ → PageCache → PageCache × Bool
ensure_node_in_degrees read_page vector_count page_count c =
    let (degrees, ok) = count_pages read_page page_count 0 (zeros vector_count) in
    if c.node_in_degrees_ready
    then (c, true)
    else (record c { node_in_degrees = degrees; node_in_degrees_ready = ok }, ok)

-- A number for each name.
abbrev pub policy_number : CachePolicy → ℕ
policy_number no_cache = 0
policy_number lru = 1
policy_number two_queue = 2
policy_number graph_aware_two_queue = 3
policy_number agent = 4
policy_number unknown_policy = 5

unfoldable pub same_policy : CachePolicy → CachePolicy → Bool
same_policy p q = policy_number p == policy_number q

unfoldable pub is_unknown : CachePolicy → Bool
is_unknown policy = same_policy unknown_policy policy

abbrev pub same_flag : Bool → Bool → Bool
same_flag a b = if a then b else not b

-- The part of `configure_cache` under the lock.
unfoldable pub reconfigure : PageCache → CachePolicy → ℕ → Bool → ℕ → PageCache
reconfigure c policy capacity_pages protect_hot_pages hot_degree_threshold =
    let kept =
      same_policy policy c.cache_policy
      && (capacity_pages == c.cache_capacity_pages)
      && same_flag protect_hot_pages c.cache_protect_hot_pages
      && (hot_degree_threshold == c.cache_hot_degree_threshold) in
    record c {
      cache_policy = policy;
      cache_capacity_pages = capacity_pages;
      cache_protect_hot_pages = protect_hot_pages;
      cache_hot_degree_threshold = hot_degree_threshold;
      page_cache = if kept then c.page_cache else [];
      cache_clock = if kept then c.cache_clock else 0;
    }

-- `configure_cache`; `false` is an exception.
unfoldable pub configure_cache :
    (ℕ → Option DecodedPage) → ℕ → ℕ → PageCache → CachePolicy → ℕ → Bool → ℕ → PageCache × Bool
configure_cache read_page vector_count page_count c policy capacity_pages protect_hot_pages
      hot_degree_threshold =
    let wanted = is_graph_aware_cache_policy policy || protect_hot_pages in
    let (counted, ok) = ensure_node_in_degrees read_page vector_count page_count c in
    if is_unknown policy
    then (c, false)
    else if wanted
    then if not ok
      then (counted, false)
      else (reconfigure counted policy capacity_pages protect_hot_pages hot_degree_threshold, true)
    else (reconfigure c policy capacity_pages protect_hot_pages hot_degree_threshold, true)
