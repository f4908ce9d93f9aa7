-- ===== src/Graph/Cache/Configured.antt =====
-- A change of the page cache's settings, `configure_cache` of src/graph/disk_graph_index.cpp.
use agent_aware.Prelude.{if◌then◌else◌, true, false, ◌≡◌, ◌⊎◌, [], ℕ, Bool, Option, ◌==◌}
use agent_aware.Graph.{DecodedPage}
use agent_aware.Graph.Cache.{
  no_cache, lru, two_queue, graph_aware_two_queue, agent, unknown_policy, CachePolicy, PageCache,
}
use agent_aware.Graph.Cache.Calls.{policy_number}

-- The policy of a number, and `no_cache` for any other.
abbrev policy_of : ℕ → CachePolicy
policy_of n =
    if n == policy_number lru
    then lru
    else if n == policy_number two_queue
    then two_queue
    else if n == policy_number graph_aware_two_queue
    then graph_aware_two_queue
    else if n == policy_number agent
    then agent
    else if n == policy_number unknown_policy
    then unknown_policy
    else no_cache

module _ (read_page : ℕ → Option DecodedPage) where
  -- The cache's settings.
  abbrev pub HasSettings : PageCache → CachePolicy → ℕ → Bool → ℕ → Type 0
  HasSettings c policy capacity protect threshold =
      (c.cache_policy ≡ policy)
      × (c.cache_capacity_pages ≡ capacity)
      × (c.cache_protect_hot_pages ≡ protect)
      × (c.cache_hot_degree_threshold ≡ threshold)

  -- A call that throws changes neither settings nor pages. Else the settings are those given, and the pages are
  -- gone, or they are as before and so are all settings.
  abbrev pub IsConfigured : PageCache → PageCache × Bool → CachePolicy → ℕ → Bool → ℕ → Type 0
  IsConfigured c (d, ok) policy capacity protect threshold =
      (ok ≡ false)
        × (d.page_cache ≡ c.page_cache)
        × HasSettings d c.cache_policy c.cache_capacity_pages c.cache_protect_hot_pages
            c.cache_hot_degree_threshold
      ⊎ (ok ≡ true)
        × HasSettings d policy capacity protect threshold
        × ((d.page_cache ≡ [])
            ⊎ (d.page_cache ≡ c.page_cache) × HasSettings c policy capacity protect threshold)
