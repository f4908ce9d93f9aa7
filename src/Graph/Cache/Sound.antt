-- ===== src/Graph/Cache/Sound.antt =====
-- The page cache is transparent: a page that is loaded is the page of the file, whatever the cache keeps.
use agent_aware.Prelude.{
  ℕ, ◌<◌, ◌≤◌, ◌≡◌, refl, sym, ap, ◌∙◌, true, Option, none, some, length, leb, if◌then◌else◌, arith,
  Bool-cases, Option-cases, inl, inr, ◌⊎◌,
}
use agent_aware.Prelude.Assoc.{
  find, erase, find-erase, HasDistinctKeys, put-HasDistinctKeys, erase-HasDistinctKeys,
  length-put_old, length-put_le, length-erase_lt,
}
use agent_aware.Graph.{DecodedPage}
use agent_aware.Graph.Cache.{DoubleOps, CacheEntry, PageCache, CacheStats, cache_enabled}
use agent_aware.Graph.Cache.Calls.{
  lookup_cached_page, with_entry, new_entry, accessed, promoted, add_page, store_cached_page,
  load_missing, load_page, count_request,
}
use agent_aware.Graph.Cache.Entries.{
  IsFaithful, Survives, Survives-refl, Survives-trans, put-IsFaithful, erase-IsFaithful,
  put-Survives, erase-Survives, evict_cases,
}

module _ (read_page : ℕ → Option DecodedPage) where
  -- The cache has not more pages than its capacity, none twice, and each as the file has it.
  pub record IsSound (c : PageCache) : Type 0 where
    pub bounded : length c.page_cache ≤ c.cache_capacity_pages
    pub distinct : HasDistinctKeys c.page_cache
    pub faithful : IsFaithful read_page c.page_cache

  -- A call leads from `c` to `d`: pinned pages stay, and so do the settings.
  pub record IsStep (c d : PageCache) : Type 0 where
    pub sound : IsSound d
    pub survives : Survives c.page_cache d.page_cache
    pub capacity : d.cache_capacity_pages ≡ c.cache_capacity_pages
    pub policy : d.cache_policy ≡ c.cache_policy
    pub protects : d.cache_protect_hot_pages ≡ c.cache_protect_hot_pages
    pub threshold : d.cache_hot_degree_threshold ≡ c.cache_hot_degree_threshold

  pub IsStep-refl : (c : PageCache) → IsSound c → IsStep c c
  IsStep-refl c s = record {
    sound = s;
    survives = Survives-refl c.page_cache;
    capacity = refl;
    policy = refl;
    protects = refl;
    threshold = refl;
  }

  pub IsStep-trans : (c d e : PageCache) → IsStep c d → IsStep d e → IsStep c e
  IsStep-trans c d e h g = record {
    sound = g.sound;
    survives = Survives-trans c.page_cache d.page_cache e.page_cache h.survives g.survives;
    capacity = g.capacity ∙ h.capacity;
    policy = g.policy ∙ h.policy;
    protects = g.protects ∙ h.protects;
    threshold = g.threshold ∙ h.threshold;
  }

  old_entry :
      (c : PageCache) (k : ℕ) (d e : CacheEntry)
      → IsSound c
      → find k c.page_cache ≡ some d
      → e.pin_count ≡ d.pin_count
      → read_page k ≡ some e.page
      → IsStep c (with_entry c k e)
  old_entry c k d e s found pins r = record {
    sound = record {
      bounded = omega (arith, s.bounded, length-put_old k e d c.page_cache found);
      distinct = put-HasDistinctKeys k e c.page_cache s.distinct;
      faithful = put-IsFaithful read_page k e c.page_cache r s.faithful;
    };
    survives = put-Survives k e c.page_cache (rw found pins);
    capacity = refl;
    policy = refl;
    protects = refl;
    threshold = refl;
  }

  fresh_entry :
      (c : PageCache) (k : ℕ) (e : CacheEntry)
      → IsSound c
      → find k c.page_cache ≡ none
      → length c.page_cache < c.cache_capacity_pages
      → read_page k ≡ some e.page
      → IsStep c (with_entry c k e)
  fresh_entry c k e s missing room r = record {
    sound = record {
      bounded = omega (arith, room, length-put_le k e c.page_cache);
      distinct = put-HasDistinctKeys k e c.page_cache s.distinct;
      faithful = put-IsFaithful read_page k e c.page_cache r s.faithful;
    };
    survives = put-Survives k e c.page_cache (rw missing tt);
    capacity = refl;
    policy = refl;
    protects = refl;
    threshold = refl;
  }

  evicted-IsStep :
      (c : PageCache) (v : ℕ × CacheEntry)
      → IsSound c
      → find v.0 c.page_cache ≡ some v.1
      → v.1.pin_count ≡ 0
      → IsStep c (record c { page_cache = erase v.0 c.page_cache })
  evicted-IsStep c v s found free = record {
    sound = record {
      bounded = omega (arith, s.bounded, length-erase_lt v.0 v.1 c.page_cache found);
      distinct = erase-HasDistinctKeys v.0 c.page_cache s.distinct;
      faithful = erase-IsFaithful read_page v.0 c.page_cache s.faithful;
    };
    survives = erase-Survives v.0 v.1 c.page_cache found free;
    capacity = refl;
    policy = refl;
    protects = refl;
    threshold = refl;
  }

  module _ (ops : DoubleOps) where
    pub add_page-IsStep :
        (c : PageCache) (k : ℕ) (page : DecodedPage) (stats : CacheStats)
        → IsSound c
        → find k c.page_cache ≡ none
        → read_page k ≡ some page
        → IsStep c (add_page ops c k page stats).0
    unfolding add_page
    add_page-IsStep c k page stats s missing r =
        elim (Bool-cases (leb c.cache_capacity_pages (length c.page_cache))) [
          | inr roomy ↦ rw roomy (fresh_entry c k (new_entry c page) s missing (ground arith) r)
          | inl full ↦ elim (evict_cases ops c stats s.distinct) [
            | inl (stuck, same, pinned) ↦ rw (full, stuck, same) (IsStep-refl c s)
            | inr (v, found, free, evicted, same) ↦
                let smaller : IsStep c (record c { page_cache = erase v.0 c.page_cache }) =
                  evicted-IsStep c v s found free in
                rw (full, evicted, same)
                  (IsStep-trans c _ _ smaller (
                    fresh_entry _ k (new_entry _ page) smaller.sound
                      (ground (arith, missing, find-erase v.0 k c.page_cache))
                      (omega (arith, s.bounded, length-erase_lt v.0 v.1 c.page_cache found)) r))
          ]
        ]

    -- What a look-up returns.
    abbrev pub cached_page : PageCache → ℕ → Option DecodedPage
    cached_page c k =
        if cache_enabled c
        then elim (find k c.page_cache) [ none ↦ none | some e ↦ some e.page ]
        else none

    lookup_answer :
        (c : PageCache) (k : ℕ) (stats : CacheStats)
        → (lookup_cached_page c k stats).2 ≡ cached_page c k
    unfolding lookup_cached_page
    lookup_answer c k stats = elim (Bool-cases (cache_enabled c)) [
      | inr off ↦ rw off refl
      | inl on ↦ elim (Option-cases (find k c.page_cache)) [
        | inl missing ↦ rw (on, missing) refl
        | inr (e, found) ↦ rw (on, found) refl
      ]
    ]

    lookup-IsStep :
        (c : PageCache) (k : ℕ) (stats : CacheStats)
        → IsSound c
        → IsStep c (lookup_cached_page c k stats).0
    unfolding lookup_cached_page
    lookup-IsStep c k stats s = elim (Bool-cases (cache_enabled c)) [
      | inr off ↦ rw off (IsStep-refl c s)
      | inl on ↦ elim (Option-cases (find k c.page_cache)) [
        | inl missing ↦ rw (on, missing) (IsStep-refl c s)
        | inr (e, found) ↦
            rw (on, found)
              (old_entry c k e (promoted c (accessed c e)) s found refl (s.faithful k e found))
      ]
    ]

    -- From a sound cache, a store of the file's page leaves it sound, and keeps the pinned pages.
    pub store-IsStep :
        (c : PageCache) (page : DecodedPage) (stats : CacheStats)
        → IsSound c
        → read_page page.page_id ≡ some page
        → IsStep c (store_cached_page ops c page stats).0
    unfolding store_cached_page
    store-IsStep c page stats s r = elim (Bool-cases (cache_enabled c)) [
      | inr off ↦ rw off (IsStep-refl c s)
      | inl on ↦ elim (Option-cases (find page.page_id c.page_cache)) [
        | inl missing ↦ rw (on, missing) (add_page-IsStep c page.page_id page stats s missing r)
        | inr (e, found) ↦ rw (on, found) (old_entry c page.page_id e _ s found refl r)
      ]
    ]

    missing-IsStep :
        (c : PageCache) (k : ℕ) (stats : CacheStats)
        → IsSound c
        → (cache_enabled c ≡ true → find k c.page_cache ≡ none)
        → IsStep c (load_missing ops read_page c k stats).0
          × ((load_missing ops read_page c k stats).2 ≡ read_page k)
    unfolding load_missing
    missing-IsStep c k stats s absent = elim (Option-cases (read_page k)) [
      | inl failed ↦ rw (failed, load_missing) (IsStep-refl c s, refl)
      | inr (page, r) ↦ elim (Bool-cases (cache_enabled c)) [
        | inr off ↦ rw (r, load_missing, off) (IsStep-refl c s, refl)
        | inl on ↦ rw (r, load_missing, on) (add_page-IsStep c k page _ s (absent on) r, refl)
      ]
    ]

    lookup_missed :
        (c : PageCache) (k : ℕ) (stats : CacheStats)
        → (lookup_cached_page c k stats).2 ≡ none
        → ((lookup_cached_page c k stats).0 ≡ c)
          × (cache_enabled c ≡ true → find k c.page_cache ≡ none)
    unfolding lookup_cached_page
    lookup_missed c k stats h = elim (Bool-cases (cache_enabled c)) [
      | inr off ↦ (ground (arith, off), λ on. cc)
      | inl on ↦ elim (Option-cases (find k c.page_cache)) [
        | inl missing ↦ (ground (arith, on, missing), λ e. missing)
        | inr (e, found) ↦ absurd (ground (arith, on, found, h))
      ]
    ]

    lookup_hit :
        (c : PageCache) (k : ℕ) (page : DecodedPage)
        → IsSound c
        → cached_page c k ≡ some page
        → read_page k ≡ some page
    lookup_hit c k page s h = elim (Option-cases (find k c.page_cache)) [
      | inl missing ↦ absurd (ground (arith, missing, h))
      | inr (e, found) ↦
          let same : e.page ≡ page = ground (arith, found, h) in s.faithful k e found ∙ ap some same
    ]

    -- A load ends with the look-up, or goes on to a miss.
    pub load_cases :
        (c : PageCache) (k : ℕ) (stats : CacheStats)
        → ((page : DecodedPage) × (cached_page c k ≡ some page)
            × (load_page ops read_page c k stats ≡ (
              (lookup_cached_page c k (count_request ops stats)).0,
              (lookup_cached_page c k (count_request ops stats)).1,
              some page,
            )))
          ⊎ (cache_enabled c ≡ true → find k c.page_cache ≡ none)
            × (load_page ops read_page c k stats
                ≡ load_missing ops read_page c k
                    (lookup_cached_page c k (count_request ops stats)).1)
    unfolding load_page
    load_cases c k stats =
        let asked : CacheStats = count_request ops stats in
        elim (Option-cases (lookup_cached_page c k asked).2) [
          | inr (page, hit) ↦
              inl (page, sym (lookup_answer c k asked) ∙ hit, rw (hit, load_page) refl)
          | inl missed ↦
              let (same, absent) = lookup_missed c k asked missed in
              let second : (if cache_enabled c then find k c.page_cache else none) ≡ none =
                elim (Bool-cases (cache_enabled c)) [
                  | inl on ↦ rw on (absent on)
                  | inr off ↦ rw off refl
                ] in
              inr (absent, rw (missed, load_page, same, second, same) refl)
        ]

    -- For a sound cache of any policy and capacity, the page that `load_page` returns is the page that a read of
    -- the file gives, and it throws only where that read throws. The cache after it is sound, its
    -- settings are as before, and each pinned page is still in it, with as many pins.
    pub load_page-read :
        (c : PageCache) (k : ℕ) (stats : CacheStats)
        → IsSound c
        → IsStep c (load_page ops read_page c k stats).0
          × ((load_page ops read_page c k stats).2 ≡ read_page k)
    load_page-read c k stats s = elim (load_cases c k stats) [
      | inl (page, hit, same) ↦
          rw same ((lookup-IsStep c k (count_request ops stats) s), sym (lookup_hit c k page s hit))
      | inr (absent, same) ↦ rw same (missing-IsStep c k _ s absent)
    ]
