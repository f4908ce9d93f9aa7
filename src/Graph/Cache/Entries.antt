-- ===== src/Graph/Cache/Entries.antt =====
-- The entries of the page cache through a write and an eviction: whether they hold what the file has,
-- and whether the pinned ones stay.
use agent_aware.Prelude.{
  ℕ, ◌<◌, ◌≡◌, refl, sym, ap, ◌∙◌, true, false, Option, none, some, List, [], ◌∷◌, All, ◌==◌, arith,
  Bool-cases, Option-cases, inl, inr, ◌⊎◌,
}
use agent_aware.Prelude.Assoc.{
  find, put, erase, find-put, find-erase, HasDistinctKeys, find-HasEntry,
}
use mathlib.Core.Path.{subst}
use agent_aware.Records.Checksum.{is_empty}
use agent_aware.Graph.{DecodedPage}
use agent_aware.Graph.Cache.{
  DoubleOps, CacheEntry, PageCache, CacheStats, find_victim, evict_one_page,
}
use agent_aware.Graph.Cache.Victim.{find_victim-ends, IsVictim}

abbrev pub IsFaithful : (ℕ → Option DecodedPage) → List (ℕ × CacheEntry) → Type 0
IsFaithful read_page m = (k : ℕ) (e : CacheEntry) → find k m ≡ some e → read_page k ≡ some e.page

-- A pinned entry of `m` is in `n` with as many pins.
abbrev pub Survives : List (ℕ × CacheEntry) → List (ℕ × CacheEntry) → Type 0
Survives m n =
    (k : ℕ) (e : CacheEntry)
    → find k m ≡ some e
    → 0 < e.pin_count
    → (f : CacheEntry) × (find k n ≡ some f) × (f.pin_count ≡ e.pin_count)

pub Survives-refl : (m : List (ℕ × CacheEntry)) → Survives m m
Survives-refl m k e found pinned = (e, found, refl)

pub Survives-trans : (l m n : List (ℕ × CacheEntry)) → Survives l m → Survives m n → Survives l n
Survives-trans l m n h g k e found pinned =
    let (f, there, same) = h k e found pinned in
    let (d, last, same') = g k f there (omega arith) in (d, last, same' ∙ same)

pub put-IsFaithful :
    (read_page : ℕ → Option DecodedPage) (k : ℕ) (e : CacheEntry) (m : List (ℕ × CacheEntry))
    → read_page k ≡ some e.page
    → IsFaithful read_page m
    → IsFaithful read_page (put k e m)
put-IsFaithful read_page k e m r h j f found = elim (Bool-cases (k == j)) [
  | inl same ↦
      let key : k ≡ j = ground arith in
      let here : find j (put k e m) ≡ some e = ground (arith, find-put k j e m) in
      let value : some e ≡ some f = sym here ∙ found in
      let page : e ≡ f = ground arith in
      ap read_page (sym key) ∙ r ∙ ap (λ (x : CacheEntry). some x.page) page
  | inr other ↦ h j f (ground (arith, find-put k j e m))
]

pub erase-IsFaithful :
    (read_page : ℕ → Option DecodedPage) (k : ℕ) (m : List (ℕ × CacheEntry))
    → IsFaithful read_page m
    → IsFaithful read_page (erase k m)
erase-IsFaithful read_page k m h j f found = h j f (ground (arith, find-erase k j m))

-- A write under a key that is new, or over an entry with as many pins.
abbrev pub SamePins : Option CacheEntry → CacheEntry → Type 0
SamePins none e = Unit
SamePins (some d) e = e.pin_count ≡ d.pin_count

same_pins :
    (o : Option CacheEntry) (d e : CacheEntry)
    → o ≡ some d
    → SamePins o e
    → e.pin_count ≡ d.pin_count
same_pins none d e found h = cc
same_pins (some c) d e found h =
    let same : c ≡ d = ground arith in h ∙ ap (λ (x : CacheEntry). x.pin_count) same

pub put-Survives :
    (k : ℕ) (e : CacheEntry) (m : List (ℕ × CacheEntry))
    → SamePins (find k m) e
    → Survives m (put k e m)
put-Survives k e m pins j d found pinned = elim (Bool-cases (k == j)) [
  | inl same ↦
      let key : k ≡ j = ground arith in
      (
        e,
        ground (arith, find-put k j e m),
        same_pins (find k m) d e (ap (λ i. find i m) key ∙ found) pins,
      )
  | inr other ↦ (d, ground (arith, find-put k j e m), refl)
]

pub erase-Survives :
    (k : ℕ) (v : CacheEntry) (m : List (ℕ × CacheEntry))
    → find k m ≡ some v
    → v.pin_count ≡ 0
    → Survives m (erase k m)
erase-Survives k v m here free j d found pinned = elim (Bool-cases (k == j)) [
  | inl same ↦
      let key : k ≡ j = ground arith in
      let value : some v ≡ some d = sym here ∙ ap (λ i. find i m) key ∙ found in
      let same : v ≡ d = ground arith in
      let pins : v.pin_count ≡ d.pin_count = ap (λ (x : CacheEntry). x.pin_count) same in
      absurd (omega arith)
  | inr other ↦ (d, ground (arith, find-erase k j m), refl)
]

All-empty : (P : ℕ × CacheEntry → Type 0) (m : List (ℕ × CacheEntry)) → is_empty m ≡ true → All P m
All-empty P [] h = tt
All-empty P (x ∷ m) h = cc

module _ (ops : DoubleOps) where
  pub evict_cases :
      (c : PageCache) (stats : CacheStats)
      → HasDistinctKeys c.page_cache
      → ((evict_one_page ops c stats).2 ≡ false)
          × ((evict_one_page ops c stats).0 ≡ c)
          × All (λ (x : ℕ × CacheEntry). 0 < x.1.pin_count) c.page_cache
        ⊎ ((v : ℕ × CacheEntry) × (find v.0 c.page_cache ≡ some v.1)
            × (v.1.pin_count ≡ 0)
            × ((evict_one_page ops c stats).2 ≡ true)
            × ((evict_one_page ops c stats).0 ≡ record c { page_cache = erase v.0 c.page_cache }))
  unfolding evict_one_page
  evict_cases c stats d = elim (Bool-cases (is_empty c.page_cache)) [
    | inl empty ↦ inl (ground (arith, empty), ground (arith, empty), All-empty _ c.page_cache empty)
    | inr full ↦ elim (Option-cases (find_victim ops c.cache_policy c.page_cache none)) [
      | inl pinned ↦ inl (
        ground (arith, full, pinned),
        ground (arith, full, pinned),
        subst (IsVictim ops c.cache_policy c.page_cache) pinned
            (find_victim-ends ops c.cache_policy c.page_cache),
      )
      | inr (v, chosen) ↦
          let (has, free, best) =
            subst (IsVictim ops c.cache_policy c.page_cache) chosen
              (find_victim-ends ops c.cache_policy c.page_cache) in
          inr (
            v,
            find-HasEntry v c.page_cache d has,
            free,
            ground (arith, full, chosen),
            ground (arith, full, chosen),
          )
    ]
  ]
