-- ===== src/History/Order.antt =====
-- The sort by node id, and the map of newest versions behind it.
use agent_aware.Prelude.{
  ℕ, ◌<◌, ◌≡◌, ◌≢◌, refl, sym, ap, ◌∙◌, true, false, Option, none, some, List, [], ◌∷◌, All,
  All-imp, leb, ltb, ◌==◌, if◌then◌else◌, arith, Bool-cases, inl, inr,
}
use agent_aware.Prelude.Assoc.{find, put, values, find-put}
use agent_aware.Records.{DynamicRecord}
use agent_aware.History.{
  insert_by_id, sort_by_id, RecordMap, keep_newest, newest_map, deduplicate_newest, visible,
  deduplicate_newest_at, latest_scan, find_id,
}
use agent_aware.History.Newest.{newer, candidate, latest_scan_step}

-- Sorting keeps the record that `find_if` finds.
find_id-insert_by_id :
    (id : ℕ) (r : DynamicRecord) (qs : List DynamicRecord)
    → find_id id (insert_by_id r qs) ≡ (if r.node_id == id then some r else find_id id qs)
unfolding find_id insert_by_id
find_id-insert_by_id id r [] = refl
find_id-insert_by_id id r (q ∷ qs) = ground (arith, find_id-insert_by_id id r qs)

find_id_cons :
    (id : ℕ) (r : DynamicRecord) (rs : List DynamicRecord)
    → find_id id (r ∷ rs) ≡ (if r.node_id == id then some r else find_id id rs)
unfolding find_id
find_id_cons id r rs = refl

pub find_id-sort_by_id :
    (id : ℕ) (rs : List DynamicRecord) → find_id id (sort_by_id rs) ≡ find_id id rs
unfolding sort_by_id
find_id-sort_by_id id [] = refl
find_id-sort_by_id id (r ∷ rs) =
    find_id-insert_by_id id r (sort_by_id rs)
    ∙ ap (λ o. if r.node_id == id then some r else o) (find_id-sort_by_id id rs)
    ∙ sym (find_id_cons id r rs)

-- Strictly ascending node ids.
abbrev pub IsAscending : List DynamicRecord → Type 0
IsAscending [] = Unit
IsAscending (r ∷ rs) = All (λ (q : DynamicRecord). r.node_id < q.node_id) rs × IsAscending rs

-- Each entry stands under its record's node id.
abbrev pub IsKeyed : RecordMap → Type 0
IsKeyed = All (λ (e : ℕ × DynamicRecord). e.0 ≡ e.1.node_id)

IsKeyed-put : (r : DynamicRecord) (m : RecordMap) → IsKeyed m → IsKeyed (put r.node_id r m)
unfolding put
IsKeyed-put r [] h = (refl, tt)
IsKeyed-put r ((k, q) ∷ m) (e, h) = elim (Bool-cases (k == r.node_id)) [
  | inl same ↦ rw same (refl, h)
  | inr other ↦ rw other (e, IsKeyed-put r m h)
]

pub IsKeyed-keep_newest :
    (m : RecordMap) (r : DynamicRecord) → IsKeyed m → IsKeyed (keep_newest m r)
unfolding keep_newest
IsKeyed-keep_newest m r h = ground (arith, IsKeyed-put r m h)

pub IsKeyed-newest_map :
    (rs : List DynamicRecord) (m : RecordMap) → IsKeyed m → IsKeyed (newest_map rs m)
unfolding newest_map
IsKeyed-newest_map [] m h = h
IsKeyed-newest_map (r ∷ rs) m h =
    IsKeyed-newest_map rs (keep_newest m r) (IsKeyed-keep_newest m r h)

pub find_id-values : (id : ℕ) (m : RecordMap) → IsKeyed m → find_id id (values m) ≡ find id m
unfolding find_id find
find_id-values id [] h = refl
find_id-values id ((k, r) ∷ m) (e, h) = ground (arith, find_id-values id m h)

-- One write to the map is one step of the scan.
pub find-keep_newest :
    (id : ℕ) (m : RecordMap) (r : DynamicRecord)
    → find id (keep_newest m r) ≡ newer (find id m) (if r.node_id == id then some r else none)
unfolding keep_newest newer
find-keep_newest id m r = ground (arith, find-put r.node_id id r m)

-- A record at or below `s` is a candidate for its own node alone.
pub candidate_visible :
    (id s : ℕ) (r : DynamicRecord)
    → leb r.sequence_id s ≡ true
    → candidate id s r ≡ (if r.node_id == id then some r else none)
unfolding candidate
candidate_visible id s r h = ground arith

pub candidate_invisible :
    (id s : ℕ) (r : DynamicRecord) → leb r.sequence_id s ≡ false → candidate id s r ≡ none
unfolding candidate
candidate_invisible id s r h = ground arith

pub newer-none_right : (o : Option DynamicRecord) → newer o none ≡ o
unfolding newer
newer-none_right none = refl
newer-none_right (some q) = refl

-- The map of the visible records finds what the scan finds.
find-newest_map :
    (rs : List DynamicRecord) (id s : ℕ) (m : RecordMap)
    → find id (newest_map (visible rs s) m) ≡ latest_scan rs id s (find id m)
unfolding visible newest_map
find-newest_map [] id s m = unfold latest_scan in refl
find-newest_map (r ∷ rs) id s m = elim (Bool-cases (leb r.sequence_id s)) [
  | inl low ↦ rw low (
      find-newest_map rs id s (keep_newest m r)
      ∙ ap (latest_scan rs id s)
          (find-keep_newest id m r ∙ ap (newer (find id m)) (sym (candidate_visible id s r low)))
      ∙ sym (latest_scan_step r rs id s (find id m)))
  | inr high ↦ rw high (
      find-newest_map rs id s m
      ∙ ap (latest_scan rs id s) (
          sym (newer-none_right (find id m))
          ∙ ap (newer (find id m)) (sym (candidate_invisible id s r high)))
      ∙ sym (latest_scan_step r rs id s (find id m)))
]

pub find_nil : (id : ℕ) → find {V = DynamicRecord} id [] ≡ none
unfolding find
find_nil id = refl

pub find_id-deduplicate_newest_at :
    (rs : List DynamicRecord) (id s : ℕ)
    → find_id id (deduplicate_newest_at rs s) ≡ latest_scan rs id s none
unfolding deduplicate_newest_at deduplicate_newest
find_id-deduplicate_newest_at rs id s =
    find_id-sort_by_id id _
    ∙ find_id-values id _ (IsKeyed-newest_map (visible rs s) [] tt)
    ∙ find-newest_map rs id s []
    ∙ ap (latest_scan rs id s) (find_nil id)

-- No key stands twice in a map that was built by writes.
abbrev pub DistinctKeys : RecordMap → Type 0
DistinctKeys [] = Unit
DistinctKeys ((k, r) ∷ m) = (find k m ≡ none) × DistinctKeys m

DistinctKeys-put :
    (k : ℕ) (r : DynamicRecord) (m : RecordMap) → DistinctKeys m → DistinctKeys (put k r m)
unfolding put
DistinctKeys-put k r [] h = (find_nil k, tt)
DistinctKeys-put k r ((j, q) ∷ m) (fresh, h) = elim (Bool-cases (j == k)) [
  | inl same ↦ rw same (ground (arith), h)
  | inr other ↦ rw other (ground (arith, find-put k j r m), DistinctKeys-put k r m h)
]

pub DistinctKeys-keep_newest :
    (m : RecordMap) (r : DynamicRecord) → DistinctKeys m → DistinctKeys (keep_newest m r)
unfolding keep_newest
DistinctKeys-keep_newest m r h = ground (arith, DistinctKeys-put r.node_id r m h)

pub DistinctKeys-newest_map :
    (rs : List DynamicRecord) (m : RecordMap) → DistinctKeys m → DistinctKeys (newest_map rs m)
unfolding newest_map
DistinctKeys-newest_map [] m h = h
DistinctKeys-newest_map (r ∷ rs) m h =
    DistinctKeys-newest_map rs (keep_newest m r) (DistinctKeys-keep_newest m r h)

All-insert_by_id :
    (P : DynamicRecord → Type 0) (r : DynamicRecord) (qs : List DynamicRecord)
    → P r
    → All P qs
    → All P (insert_by_id r qs)
unfolding insert_by_id
All-insert_by_id P r [] p h = (p, tt)
All-insert_by_id P r (q ∷ qs) p (hq, hqs) = elim (Bool-cases (ltb q.node_id r.node_id)) [
  | inl lt ↦ rw lt (hq, All-insert_by_id P r qs p hqs)
  | inr ge ↦ rw ge (p, (hq, hqs))
]

insert_by_id-IsAscending :
    (r : DynamicRecord) (qs : List DynamicRecord)
    → All (λ (q : DynamicRecord). q.node_id ≢ r.node_id) qs
    → IsAscending qs
    → IsAscending (insert_by_id r qs)
unfolding insert_by_id
insert_by_id-IsAscending r [] n h = (tt, tt)
insert_by_id-IsAscending r (q ∷ qs) (ne, n) (low, h) = elim (Bool-cases (ltb q.node_id r.node_id)) [
  | inl lt ↦ rw lt (
    All-insert_by_id (λ (p : DynamicRecord). q.node_id < p.node_id) r qs (ground arith) low,
    insert_by_id-IsAscending r qs n h,
  )
  | inr ge ↦
      let first : r.node_id < q.node_id = ground (arith, ne) in
      rw ge (
        (
          first,
          All-imp (λ (p : DynamicRecord). q.node_id < p.node_id) _ qs (λ p lt. omega arith) low,
        ),
        (low, h),
      )
]

pub All-sort_by_id :
    (P : DynamicRecord → Type 0) (rs : List DynamicRecord) → All P rs → All P (sort_by_id rs)
unfolding sort_by_id
All-sort_by_id P [] h = tt
All-sort_by_id P (r ∷ rs) (p, h) = All-insert_by_id P r (sort_by_id rs) p (All-sort_by_id P rs h)

values_without :
    (k : ℕ) (m : RecordMap)
    → IsKeyed m
    → find k m ≡ none
    → All (λ (q : DynamicRecord). q.node_id ≢ k) (values m)
unfolding find
values_without k [] h e = tt
values_without k ((j, r) ∷ m) (same, h) e =
    ((λ p. ground arith), values_without k m h (ground arith))

sort_by_id-values-IsAscending :
    (m : RecordMap) → IsKeyed m → DistinctKeys m → IsAscending (sort_by_id (values m))
unfolding sort_by_id
sort_by_id-values-IsAscending [] k d = tt
sort_by_id-values-IsAscending ((j, r) ∷ m) (same, k) (fresh, d) =
    insert_by_id-IsAscending r (sort_by_id (values m))
      (All-sort_by_id (λ (q : DynamicRecord). q.node_id ≢ r.node_id) (values m)
        (values_without r.node_id m k (rw (← same) fresh)))
      (sort_by_id-values-IsAscending m k d)

-- The output of `deduplicate_newest` is in strictly ascending order of node ids.
pub deduplicate_newest-IsAscending : (rs : List DynamicRecord) → IsAscending (deduplicate_newest rs)
unfolding deduplicate_newest
deduplicate_newest-IsAscending rs =
    sort_by_id-values-IsAscending (newest_map rs []) (IsKeyed-newest_map rs [] tt)
      (DistinctKeys-newest_map rs [] tt)

insert_by_id_least :
    (r : DynamicRecord) (qs : List DynamicRecord)
    → All (λ (q : DynamicRecord). r.node_id < q.node_id) qs
    → insert_by_id r qs ≡ r ∷ qs
unfolding insert_by_id
insert_by_id_least r [] h = refl
insert_by_id_least r (q ∷ qs) (lt, h) = ground arith

-- A sort of what is sorted changes nothing.
pub sort_by_id-IsAscending : (rs : List DynamicRecord) → IsAscending rs → sort_by_id rs ≡ rs
unfolding sort_by_id
sort_by_id-IsAscending [] h = refl
sort_by_id-IsAscending (r ∷ rs) (low, h) =
    ap (insert_by_id r) (sort_by_id-IsAscending rs h) ∙ insert_by_id_least r rs low
