-- ===== src/Graph/Cache/Victim.antt =====
-- Which page `evict_one_page_locked` of src/graph/disk_graph_index.cpp takes out of the cache.
use agent_aware.Prelude.{
  All-imp, ℕ, ◌<◌, ◌≡◌, refl, sym, ap, ◌∙◌, true, false, Option, none, some, List, [], ◌∷◌, All,
  ltb, arith, Bool-cases, inl, inr, ◌⊎◌,
}
use mathlib.Core.Path.{subst}
use agent_aware.Prelude.Assoc.{find, HasEntry, HasDistinctKeys, find-HasEntry, HasEntry-find}
use agent_aware.Prelude.Sort.{IsStrictWeak}
use agent_aware.Graph.Cache.{
  is_two_queue_policy, cache_score, DoubleOps, CachePolicy, CacheEntry, evicted_before, find_victim,
}

module _ (ops : DoubleOps) (policy : CachePolicy) where
  before_asym :
      (a b : ℕ × CacheEntry)
      → evicted_before ops policy a b ≡ true
      → evicted_before ops policy b a ≡ false
  unfolding evicted_before
  before_asym (k, e) (v, f) h = ground arith

  before_not_trans :
      (a b c : ℕ × CacheEntry)
      → evicted_before ops policy b a ≡ false
      → evicted_before ops policy c b ≡ false
      → evicted_before ops policy c a ≡ false
  unfolding evicted_before
  before_not_trans (k, e) (v, f) (w, g) h1 h2 = ground arith

  before_total :
      (a b : ℕ × CacheEntry)
      → evicted_before ops policy a b ≡ false
      → evicted_before ops policy b a ≡ false
      → a.0 ≡ b.0
  unfolding evicted_before
  before_total (k, e) (v, f) h1 h2 = ground arith

  IsStrictWeak-before : IsStrictWeak (evicted_before ops policy)
  IsStrictWeak-before = record { asym = before_asym; not_trans = before_not_trans }

  -- No unpinned entry comes before `v`.
  abbrev NoneBefore : ℕ × CacheEntry → List (ℕ × CacheEntry) → Type 0
  NoneBefore v entries =
      All (λ (x : ℕ × CacheEntry). x.1.pin_count ≡ 0 → evicted_before ops policy x v ≡ false)
        entries

  -- `v` is an unpinned entry, and no other one comes before it; `none` where all are pinned.
  abbrev pub IsVictim : List (ℕ × CacheEntry) → Option (ℕ × CacheEntry) → Type 0
  IsVictim entries none = All (λ (x : ℕ × CacheEntry). 0 < x.1.pin_count) entries
  IsVictim entries (some v) = HasEntry v entries × (v.1.pin_count ≡ 0) × NoneBefore v entries

  -- The loop from a victim so far.
  abbrev Ends : Option (ℕ × CacheEntry) → List (ℕ × CacheEntry) → Option (ℕ × CacheEntry) → Type 0
  Ends none entries o = IsVictim entries o
  Ends (some u) entries none = ⊥
  Ends (some u) entries (some v) =
      ((v ≡ u) ⊎ HasEntry v entries)
      × (v.1.pin_count ≡ 0)
      × NoneBefore v entries
      × (evicted_before ops policy u v ≡ false)

  before_irrefl : (a : ℕ × CacheEntry) → evicted_before ops policy a a ≡ false
  unfolding evicted_before
  before_irrefl (k, e) = ground arith

  pinned_skip :
      (x : ℕ × CacheEntry) (entries : List (ℕ × CacheEntry)) (u o : Option (ℕ × CacheEntry))
      → 0 < x.1.pin_count
      → Ends u entries o
      → Ends u (x ∷ entries) o
  pinned_skip x entries none none p h = (p, h)
  pinned_skip x entries none (some v) p (has, free, best) =
      (inr has, free, (λ e. absurd (omega arith), best))
  pinned_skip x entries (some u) none p h = h
  pinned_skip x entries (some u) (some v) p (inl e, free, best, low) =
      (inl e, free, (λ z. absurd (omega arith), best), low)
  pinned_skip x entries (some u) (some v) p (inr has, free, best, low) =
      (inr (inr has), free, (λ z. absurd (omega arith), best), low)

  first_step :
      (x : ℕ × CacheEntry) (entries : List (ℕ × CacheEntry)) (o : Option (ℕ × CacheEntry))
      → Ends (some x) entries o
      → Ends none (x ∷ entries) o
  first_step x entries none h = elim h [ ]
  first_step x entries (some v) (inl e, free, best, low) = (inl e, free, (λ z. low, best))
  first_step x entries (some v) (inr has, free, best, low) = (inr has, free, (λ z. low, best))

  -- The entry takes the place of the victim so far.
  taken_step :
      (x u : ℕ × CacheEntry) (entries : List (ℕ × CacheEntry)) (o : Option (ℕ × CacheEntry))
      → evicted_before ops policy x u ≡ true
      → Ends (some x) entries o
      → Ends (some u) (x ∷ entries) o
  taken_step x u entries none b h = h
  taken_step x u entries (some v) b (where_is, free, best, low) =
      (inr where_is, free, (λ z. low, best), before_not_trans v x u low (before_asym x u b))

  kept_step :
      (x u : ℕ × CacheEntry) (entries : List (ℕ × CacheEntry)) (o : Option (ℕ × CacheEntry))
      → evicted_before ops policy x u ≡ false
      → Ends (some u) entries o
      → Ends (some u) (x ∷ entries) o
  kept_step x u entries none b h = h
  kept_step x u entries (some v) b (inl e, free, best, low) =
      (inl e, free, (λ z. before_not_trans v u x low b, best), low)
  kept_step x u entries (some v) b (inr has, free, best, low) =
      (inr (inr has), free, (λ z. before_not_trans v u x low b, best), low)

  abbrev IsFree : Option (ℕ × CacheEntry) → Type 0
  IsFree none = Unit
  IsFree (some u) = u.1.pin_count ≡ 0

  find_victim-Ends :
      (entries : List (ℕ × CacheEntry)) (u : Option (ℕ × CacheEntry))
      → IsFree u
      → Ends u entries (find_victim ops policy entries u)
  unfolding find_victim
  find_victim-Ends [] none free = tt
  find_victim-Ends [] (some u) free = (inl refl, free, tt, before_irrefl u)
  find_victim-Ends ((k, e) ∷ entries) none free = elim (Bool-cases (ltb 0 e.pin_count)) [
    | inl pinned ↦
        rw pinned
          (pinned_skip (k, e) entries none _ (ground arith) (find_victim-Ends entries none free))
    | inr unpinned ↦
        rw unpinned
          (first_step (k, e) entries _ (find_victim-Ends entries (some (k, e)) (ground arith)))
  ]
  find_victim-Ends ((k, e) ∷ entries) (some v) free = elim (Bool-cases (ltb 0 e.pin_count)) [
    | inl pinned ↦ rw pinned (
        pinned_skip (k, e) entries (some v) _ (ground arith)
          (find_victim-Ends entries (some v) free))
    | inr unpinned ↦ elim (Bool-cases (evicted_before ops policy (k, e) v)) [
      | inl before ↦
          rw (unpinned, before)
            (taken_step (k, e) v entries _ before
              (find_victim-Ends entries (some (k, e)) (ground arith)))
      | inr after ↦
          rw (unpinned, after)
            (kept_step (k, e) v entries _ after (find_victim-Ends entries (some v) free))
    ]
  ]

  -- What decides between two entries: under a two-queue policy one outside the protected queue goes before one in it;
  -- else, or within a queue, the lower score goes first, and at one score the lower page id.
  abbrev pub GoesFirst : ℕ × CacheEntry → ℕ × CacheEntry → Type 0
  GoesFirst (k, e) (v, f) =
      (is_two_queue_policy policy ≡ true) × (e.protected_queue ≡ false) × (f.protected_queue ≡ true)
      ⊎ ((is_two_queue_policy policy ≡ false) ⊎ (e.protected_queue ≡ f.protected_queue))
        × (ops.rank (cache_score ops policy e) < ops.rank (cache_score ops policy f)
            ⊎ (ops.rank (cache_score ops policy e) ≡ ops.rank (cache_score ops policy f)) × (k < v))

  evicted_before-GoesFirst :
      (a b : ℕ × CacheEntry) → GoesFirst a b → evicted_before ops policy a b ≡ true
  unfolding evicted_before
  evicted_before-GoesFirst (k, e) (v, f) (inl (two, out, in_it)) = ground (arith, two, out, in_it)
  evicted_before-GoesFirst (k, e) (v, f) (inr (inl one, inl lower)) = ground (arith, one, lower)
  evicted_before-GoesFirst (k, e) (v, f) (inr (inl one, inr (same, less))) =
      ground (arith, one, same, less)
  evicted_before-GoesFirst (k, e) (v, f) (inr (inr alike, inl lower)) =
      elim (Bool-cases e.protected_queue) [
        | inl p ↦ let q : f.protected_queue ≡ true = sym alike ∙ p in ground (arith, p, q, lower)
        | inr p ↦ let q : f.protected_queue ≡ false = sym alike ∙ p in ground (arith, p, q, lower)
      ]
  evicted_before-GoesFirst (k, e) (v, f) (inr (inr alike, inr (same, less))) =
      elim (Bool-cases e.protected_queue) [
        | inl p ↦
            let q : f.protected_queue ≡ true = sym alike ∙ p in ground (arith, p, q, same, less)
        | inr p ↦
            let q : f.protected_queue ≡ false = sym alike ∙ p in ground (arith, p, q, same, less)
      ]

  -- An unpinned entry of the list before which no unpinned one goes; `none` where all are pinned.
  abbrev pub IsFirstOut : List (ℕ × CacheEntry) → Option (ℕ × CacheEntry) → Type 0
  IsFirstOut entries none = All (λ (x : ℕ × CacheEntry). 0 < x.1.pin_count) entries
  IsFirstOut entries (some v) =
      HasEntry v entries
      × (v.1.pin_count ≡ 0)
      × All (λ (x : ℕ × CacheEntry). x.1.pin_count ≡ 0 → GoesFirst x v → ⊥) entries

  victim-IsFirstOut :
      (entries : List (ℕ × CacheEntry)) (o : Option (ℕ × CacheEntry))
      → IsVictim entries o
      → IsFirstOut entries o
  victim-IsFirstOut entries none h = h
  victim-IsFirstOut entries (some v) (has, free, best) = (
    has,
    free,
    All-imp _ _ entries
        (λ x low unpinned first.
          let no = low unpinned in
          let yes = evicted_before-GoesFirst x v first in absurd (ground (arith, no, yes)))
        best,
  )

  pub find_victim-ends :
      (entries : List (ℕ × CacheEntry)) → IsVictim entries (find_victim ops policy entries none)
  find_victim-ends entries = find_victim-Ends entries none tt

  -- For any policy, scores and list of entries: where some entry is not pinned, the loop of the eviction finds an
  -- unpinned entry of the list before which no unpinned one goes (under a two-queue policy those outside the
  -- protected queue go before those in it; within a queue and under the other policies the lower score goes
  -- first, then the lower page id), and it finds none only if all entries are pinned.
  pub find_victim-IsVictim :
      (entries : List (ℕ × CacheEntry)) → IsFirstOut entries (find_victim ops policy entries none)
  find_victim-IsVictim entries = victim-IsFirstOut entries _ (find_victim-ends entries)

  pub All-HasEntry :
      (P : ℕ × CacheEntry → Type 0) (x : ℕ × CacheEntry) (entries : List (ℕ × CacheEntry))
      → All P entries
      → HasEntry x entries
      → P x
  All-HasEntry P x [] h here = elim here [ ]
  All-HasEntry P x (y ∷ entries) (p, h) (inl e) = subst P (sym e) p
  All-HasEntry P x (y ∷ entries) (p, h) (inr there) = All-HasEntry P x entries h there

  victim_unique :
      (es fs : List (ℕ × CacheEntry)) (o q : Option (ℕ × CacheEntry))
      → HasDistinctKeys es
      → HasDistinctKeys fs
      → ((k : ℕ) → find k es ≡ find k fs)
      → IsVictim es o
      → IsVictim fs q
      → o ≡ q
  victim_unique es fs none none d d' same h g = refl
  victim_unique es fs none (some v) d d' same h (has, free, best) =
      let here : HasEntry v es = HasEntry-find v.0 v.1 es (same v.0 ∙ find-HasEntry v fs d' has) in
      let pinned : 0 < v.1.pin_count = All-HasEntry _ v es h here in absurd (omega arith)
  victim_unique es fs (some v) none d d' same (has, free, best) g =
      let here : HasEntry v fs =
        HasEntry-find v.0 v.1 fs (sym (same v.0) ∙ find-HasEntry v es d has) in
      let pinned : 0 < v.1.pin_count = All-HasEntry _ v fs g here in absurd (omega arith)
  victim_unique es fs (some v) (some w) d d' same (has, free, best) (has', free', best') =
      let there : HasEntry v fs =
        HasEntry-find v.0 v.1 fs (sym (same v.0) ∙ find-HasEntry v es d has) in
      let here : HasEntry w es = HasEntry-find w.0 w.1 es (same w.0 ∙ find-HasEntry w fs d' has') in
      let key : v.0 ≡ w.0 =
        before_total v w (All-HasEntry _ v fs best' there free)
          (All-HasEntry _ w es best here free') in
      let found : find v.0 fs ≡ some v.1 = find-HasEntry v fs d' there in
      let found' : find w.0 fs ≡ some w.1 = find-HasEntry w fs d' has' in
      let value : some v.1 ≡ some w.1 = sym found ∙ ap (λ k. find k fs) key ∙ found' in cc

  -- The victim does not depend on the order in which the map is walked: for two lists of entries without
  -- repeated keys that find the same entry under each key, the loop ends with the same victim.
  pub find_victim_order :
      (es fs : List (ℕ × CacheEntry))
      → HasDistinctKeys es
      → HasDistinctKeys fs
      → ((k : ℕ) → find k es ≡ find k fs)
      → find_victim ops policy es none ≡ find_victim ops policy fs none
  find_victim_order es fs d d' same =
      victim_unique es fs _ _ d d' same (find_victim-ends es) (find_victim-ends fs)
