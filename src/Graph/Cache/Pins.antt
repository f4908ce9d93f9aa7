-- ===== src/Graph/Cache/Pins.antt =====
-- A page under a guard, and a page that was loaded.
use agent_aware.Prelude.{
  ℕ, ◌+◌, ◌-◌, ◌<◌, ◌≡◌, sym, ap, ◌∙◌, true, false, Option, some, List, length, leb, arith, All,
  Bool-cases, Option-cases, inl, inr, ◌⊎◌,
}
use mathlib.Core.Path.{subst}
use agent_aware.Prelude.Assoc.{
  find, put, erase, find-put, HasEntry, put-HasDistinctKeys, length-put_old,
}
use agent_aware.Graph.{DecodedPage}
use agent_aware.Graph.Cache.{
  DoubleOps, CacheEntry, PageCache, CacheStats, cache_enabled, u64_limit, next64,
}
use agent_aware.Graph.Cache.Calls.{
  add_page, lookup_cached_page, load_missing, new_entry, accessed, promoted, store_cached_page,
  load_page, pin_if_cached, unpin_if_cached, is_pinned, PagePinGuard, new_guard, release,
}
use agent_aware.Graph.Cache.Entries.{put-IsFaithful, evict_cases}
use agent_aware.Graph.Cache.Victim.{All-HasEntry}
use agent_aware.Graph.Cache.Sound.{
  cached_page, load_cases, IsSound, IsStep, IsStep-refl, IsStep-trans, store-IsStep, load_page-read,
}

module _ (read_page : ℕ → Option DecodedPage) where
  more_pins-IsSound :
      (c : PageCache) (k pins : ℕ) (e : CacheEntry)
      → IsSound read_page c
      → find k c.page_cache ≡ some e
      → IsSound read_page
          (record c { page_cache = put k (record e { pin_count = pins }) c.page_cache })
  more_pins-IsSound c k pins e s found = record {
    bounded =
        omega
          (arith, s.bounded, length-put_old k (record e { pin_count = pins }) e c.page_cache found);
    distinct = put-HasDistinctKeys k _ c.page_cache s.distinct;
    faithful = put-IsFaithful read_page k _ c.page_cache (s.faithful k e found) s.faithful;
  }

  module _ (ops : DoubleOps) where
    -- Any number of loads, and of stores of the file's pages.
    pub data CacheRun (c : PageCache) : PageCache → Type 0 where
      unused : CacheRun c c
      then_load :
          {d : PageCache}
          → CacheRun c d
          → (k : ℕ) (stats : CacheStats) → CacheRun c (load_page ops read_page d k stats).0
      then_store :
          {d : PageCache}
          → CacheRun c d
          → (page : DecodedPage) (stats : CacheStats) → read_page page.page_id ≡ some page
          → CacheRun c (store_cached_page ops d page stats).0

    -- From a sound cache, any run of loads and stores ends in a sound cache, with the settings as before and
    -- each page that was pinned before the run, with as many pins.
    pub CacheRun-IsStep :
        (c d : PageCache) → IsSound read_page c → CacheRun c d → IsStep read_page c d
    CacheRun-IsStep c _ s unused = IsStep-refl read_page c s
    CacheRun-IsStep c _ s (then_load earlier k stats) =
        let before : IsStep read_page c _ = CacheRun-IsStep c _ s earlier in
        IsStep-trans read_page c _ _ before (load_page-read read_page ops _ k stats before.sound).0
    CacheRun-IsStep c _ s (then_store earlier page stats r) =
        let before : IsStep read_page c _ = CacheRun-IsStep c _ s earlier in
        IsStep-trans read_page c _ _ before (store-IsStep read_page ops _ page stats before.sound r)

    abbrev pinned_entry : CacheEntry → CacheEntry
    pinned_entry e = record e { pin_count = next64 e.pin_count }

    abbrev guarded : PageCache → ℕ → CacheEntry → PageCache
    guarded c k e = record c { page_cache = put k (pinned_entry e) c.page_cache }

    guard_of : ℕ → PagePinGuard
    guard_of k = record { page_id = k; has_index = true; owns_pin = true }

    new_guard_found :
        (c : PageCache) (k : ℕ) (e : CacheEntry)
        → find k c.page_cache ≡ some e
        → new_guard c k ≡ (guarded c k e, guard_of k)
    unfolding new_guard pin_if_cached guard_of
    new_guard_found c k e found = ground (arith, found)

    release_found :
        (d : PageCache) (k : ℕ) (f : CacheEntry)
        → find k d.page_cache ≡ some f
        → 0 < f.pin_count
        → release d (guard_of k)
          ≡ some (
            record d { page_cache = put k (record f { pin_count = f.pin_count - 1 }) d.page_cache },
            record { page_id = k; has_index = false; owns_pin = false },
          )
    unfolding release unpin_if_cached guard_of
    release_found d k f found pins = ground (arith, found, pins)

    found_pinned :
        (d : PageCache) (k : ℕ) (f : CacheEntry)
        → find k d.page_cache ≡ some f
        → 0 < f.pin_count
        → is_pinned d k ≡ true
    unfolding is_pinned
    found_pinned d k f found pins = ground (arith, found, pins)

    put_found : (k : ℕ) (e : CacheEntry) (m : List (ℕ × CacheEntry)) → find k (put k e m) ≡ some e
    put_found k e m = ground (arith, find-put k k e m)

    -- Take a sound cache with the page under `k`, its pins and one more below 2 ^ 64. A guard of the
    -- page owns a pin; after any run of loads and stores the page is still pinned, the guard's release does not
    -- throw, and the page is then in the cache, as the file has it, with as many pins as before the guard.
    pub guard-release :
        (c : PageCache) (k : ℕ) (e : CacheEntry) (d : PageCache)
        → IsSound read_page c
        → find k c.page_cache ≡ some e
        → e.pin_count + 1 < u64_limit
        → CacheRun (new_guard c k).0 d
        → ((new_guard c k).1.owns_pin ≡ true)
          × (is_pinned d k ≡ true)
          × ((r : PageCache) × (g : PagePinGuard) × (f : CacheEntry) × (release d (new_guard c k).1
                ≡ some (r, g))
              × (find k r.page_cache ≡ some f)
              × (read_page k ≡ some f.page)
              × (f.pin_count ≡ e.pin_count))
    unfolding guard_of
    guard-release c k e d s found small calls =
        let made = new_guard_found c k e found in
        let s1 : IsSound read_page (guarded c k e) =
          more_pins-IsSound c k (next64 e.pin_count) e s found in
        let step : IsStep read_page (guarded c k e) d =
          CacheRun-IsStep (guarded c k e) d s1
            (subst (λ (x : PageCache × PagePinGuard). CacheRun x.0 d) made calls) in
        let (f, there, pins) =
          step.survives k (pinned_entry e) (put_found k _ c.page_cache) (omega arith) in
        let some_pins : 0 < f.pin_count = omega arith in
        (
          ap (λ (x : PageCache × PagePinGuard). x.1.owns_pin) made,
          found_pinned d k f there some_pins,
          (
            record d { page_cache = put k (record f { pin_count = f.pin_count - 1 }) d.page_cache },
            record { page_id = k; has_index = false; owns_pin = false },
            record f { pin_count = f.pin_count - 1 },
            ap (λ (x : PageCache × PagePinGuard). release d x.1) made
                ∙ release_found d k f there some_pins,
            put_found k _ d.page_cache,
            step.sound.faithful k f there,
            omega arith,
          ),
        )

    -- Room for one more page, or a page that is not pinned.
    abbrev pub HasRoom : PageCache → Type 0
    HasRoom c =
        (length c.page_cache < c.cache_capacity_pages)
        ⊎ ((v : ℕ × CacheEntry) × HasEntry v c.page_cache × (v.1.pin_count ≡ 0))

    not_stuck :
        (c : PageCache)
        → leb c.cache_capacity_pages (length c.page_cache) ≡ true
        → All (λ (x : ℕ × CacheEntry). 0 < x.1.pin_count) c.page_cache
        → HasRoom c
        → ⊥
    not_stuck c full pinned (inl room) = ground arith
    not_stuck c full pinned (inr (v, has, free)) =
        let some_pins : 0 < v.1.pin_count =
          All-HasEntry ops c.cache_policy _ v c.page_cache pinned has in
        omega arith

    -- A page that comes into a cache with room, or with a page that is not pinned, is in it.
    add_page-find :
        (c : PageCache) (k : ℕ) (page : DecodedPage) (stats : CacheStats)
        → IsSound read_page c
        → HasRoom c
        → (e : CacheEntry) × (find k (add_page ops c k page stats).0.page_cache ≡ some e)
    unfolding add_page
    add_page-find c k page stats s room =
        elim (Bool-cases (leb c.cache_capacity_pages (length c.page_cache))) [
          | inr roomy ↦ rw roomy (new_entry c page, put_found k _ c.page_cache)
          | inl full ↦ elim (evict_cases ops c stats s.distinct) [
            | inl (stuck, same, pinned) ↦ absurd (not_stuck c full pinned room)
            | inr (v, found, free, evicted, same) ↦
                rw (full, evicted, same)
                  (
                    new_entry (record c { page_cache = erase v.0 c.page_cache }) page,
                    put_found k _ _,
                  )
          ]
        ]

    missing-find :
        (c : PageCache) (k : ℕ) (page : DecodedPage) (stats : CacheStats)
        → IsSound read_page c
        → HasRoom c
        → cache_enabled c ≡ true
        → read_page k ≡ some page
        → (e : CacheEntry) × (find k (load_missing ops read_page c k stats).0.page_cache ≡ some e)
    unfolding load_missing
    missing-find c k page stats s room on r =
        rw (r, load_missing, on) (add_page-find c k page _ s room)

    lookup-find :
        (c : PageCache) (k : ℕ) (page : DecodedPage) (stats : CacheStats)
        → cached_page read_page ops c k ≡ some page
        → (e : CacheEntry) × (find k (lookup_cached_page c k stats).0.page_cache ≡ some e)
    unfolding lookup_cached_page
    lookup-find c k page stats hit = elim (Bool-cases (cache_enabled c)) [
      | inr off ↦ absurd (ground (arith, off, hit))
      | inl on ↦ elim (Option-cases (find k c.page_cache)) [
        | inl missing ↦ absurd (ground (arith, on, missing, hit))
        | inr (e, found) ↦ rw (on, found) (promoted c (accessed c e), put_found k _ c.page_cache)
      ]
    ]

    look_again :
        (c : PageCache) (k : ℕ) (e : CacheEntry) (stats : CacheStats)
        → cache_enabled c ≡ true
        → find k c.page_cache ≡ some e
        → (lookup_cached_page c k stats).2 ≡ some e.page
    unfolding lookup_cached_page
    look_again c k e stats on found = ground (arith, on, found)

    load-find :
        (c : PageCache) (k : ℕ) (page : DecodedPage) (stats : CacheStats)
        → IsSound read_page c
        → HasRoom c
        → cache_enabled c ≡ true
        → read_page k ≡ some page
        → (e : CacheEntry) × (find k (load_page ops read_page c k stats).0.page_cache ≡ some e)
    load-find c k page stats s room on r = elim (load_cases read_page ops c k stats) [
      | inl (hit_page, hit, same) ↦ rw same (lookup-find c k hit_page _ hit)
      | inr (absent, same) ↦ rw same (missing-find c k page _ s room on r)
    ]

    enabled_step :
        (c d : PageCache) → IsStep read_page c d → cache_enabled c ≡ true → cache_enabled d ≡ true
    unfolding cache_enabled
    enabled_step c d step on = ground (arith, step.capacity, step.policy, on)

    -- Let the cache be sound and enabled, and have room for one more page or a page that is not pinned. After a
    -- load of a page that the file has, the next look-up of that page returns it.
    pub load-lookup :
        (c : PageCache) (k : ℕ) (page : DecodedPage) (stats stats' : CacheStats)
        → IsSound read_page c
        → HasRoom c
        → cache_enabled c ≡ true
        → read_page k ≡ some page
        → (lookup_cached_page (load_page ops read_page c k stats).0 k stats').2 ≡ some page
    load-lookup c k page stats stats' s room on r =
        let step : IsStep read_page c _ = (load_page-read read_page ops c k stats s).0 in
        let (e, found) = load-find c k page stats s room on r in
        look_again _ k e stats' (enabled_step c _ step on) found
        ∙ sym (step.sound.faithful k e found)
        ∙ r
