-- ===== src/SsTable/Scans.antt =====
-- Reading back a table that was written: look-ups and the full scan.
use mathlib.Core.Path.{subst}
use agent_aware.Prelude.{
  ℕ, ◌+◌, ◌<◌, ◌≡◌, refl, sym, ap, ◌∙◌, none, some, List, [], ◌∷◌, ◌++◌, append_assoc, length, All,
  ltb, ◌==◌, arith, length-append, Bool-cases, Option-cases, inl, inr,
}
use agent_aware.Prelude.Assoc.{find, put, values}
use agent_aware.Records.{DynamicRecord, IsStorable}
use agent_aware.History.{
  deduplicate_newest, find_id, sort_by_id, RecordMap, keep_newest, newest_map,
}
use agent_aware.History.Order.{IsAscending, sort_by_id-IsAscending, All-sort_by_id}
use agent_aware.SsTable.{IndexEntry, SsTableReader, get, scan_entries, scan_all, read_record_at}
use agent_aware.SsTable.Records.{table_bytes, read_record_at-table_bytes}
use agent_aware.SsTable.Writes.{data_file}
use agent_aware.SsTable.Opens.{entries_of}

-- A reader over the files of ascending records.
pub record IsReaderOf (t : SsTableReader) (rs : List DynamicRecord) : Type 0 where
  pub bytes_are : t.bytes ≡ data_file rs
  pub index_is : t.index ≡ entries_of 0 rs
  pub ascending : IsAscending rs
  pub storable : All IsStorable rs

data_file-append :
    (front : List DynamicRecord) (r : DynamicRecord) (back : List DynamicRecord)
    → data_file (front ++ r ∷ back) ≡ data_file front ++ (table_bytes r ++ data_file back)
data_file-append [] r back = refl
data_file-append (q ∷ front) r back =
    ap (λ t. table_bytes q ++ t) (data_file-append front r back)
    ∙ sym (append_assoc (table_bytes q) (data_file front) _)

-- The look-up of an entry among those of ascending records.
find-entries_of-none :
    (id offset : ℕ) (rs : List DynamicRecord)
    → find_id id rs ≡ none
    → find id (entries_of offset rs) ≡ none
unfolding find find_id
find-entries_of-none id offset [] h = refl
find-entries_of-none id offset (r ∷ rs) h =
    ground (arith, find-entries_of-none id (offset + length (table_bytes r)) rs)

All-middle {κ} :
    {A : Type 0} (P : A → Type κ) (front : List A) (x : A) (back : List A)
    → All P (front ++ x ∷ back)
    → P x
All-middle P [] x back h = h.0
All-middle P (y ∷ front) x back h = All-middle P front x back h.1

find-entries_of :
    (front : List DynamicRecord) (r : DynamicRecord) (back : List DynamicRecord) (offset : ℕ)
    → IsAscending (front ++ r ∷ back)
    → find r.node_id (entries_of offset (front ++ r ∷ back))
      ≡ some (record { sequence_id = r.sequence_id; offset = offset + length (data_file front) })
unfolding find
find-entries_of [] r back offset h = ground arith
find-entries_of (q ∷ front) r back offset (low, h) =
    let below : q.node_id < r.node_id =
      All-middle (λ (p : DynamicRecord). q.node_id < p.node_id) front r back low in
    ground (
      arith,
      below,
      length-append (table_bytes q) (data_file front),
      find-entries_of front r back (offset + length (table_bytes q)) h,
    )

get-middle :
    (t : SsTableReader) (front : List DynamicRecord) (r : DynamicRecord) (back : List DynamicRecord)
    → IsReaderOf t (front ++ r ∷ back)
    → get t r.node_id ≡ some r
unfolding get
get-middle t front r back h =
    let e : IndexEntry = record {
      sequence_id = r.sequence_id;
      offset = 0 + length (data_file front);
    } in
    let found : find r.node_id t.index ≡ some e =
      ap (find r.node_id) h.index_is ∙ find-entries_of front r back 0 h.ascending in
    let read : read_record_at t.bytes (length (data_file front)) ≡ some r =
      ap (λ b. read_record_at b (length (data_file front)))
        (h.bytes_are ∙ data_file-append front r back)
      ∙ read_record_at-table_bytes (data_file front) r (data_file back)
          (All-middle IsStorable front r back h.storable) in
    ground (arith, found, read)

snoc-append :
    (front : List DynamicRecord) (r : DynamicRecord) (rs : List DynamicRecord)
    → (front ++ r ∷ []) ++ rs ≡ front ++ r ∷ rs
snoc-append front r rs = append_assoc front (r ∷ []) rs

scan_entries_loop :
    (t : SsTableReader) (front rs : List DynamicRecord)
    → IsReaderOf t (front ++ rs)
    → scan_entries t (entries_of (length (data_file front)) rs) ≡ rs
scan_entries_loop t front [] h = unfold scan_entries in refl
scan_entries_loop t front (r ∷ rs) h =
    scan_entries_hit t r _ _ (get-middle t front r rs h)
    ∙ ap (λ o. r ∷ scan_entries t (entries_of o rs)) next_offset
    ∙ ap (λ l. r ∷ l)
        (scan_entries_loop t (front ++ r ∷ []) rs
          (subst (IsReaderOf t) (sym (snoc-append front r rs)) h))
  where
    scan_entries_hit :
        (t : SsTableReader) (r : DynamicRecord) (e : IndexEntry) (rest : List (ℕ × IndexEntry))
        → get t r.node_id ≡ some r
        → scan_entries t ((r.node_id, e) ∷ rest) ≡ r ∷ scan_entries t rest
    scan_entries_hit t r e rest g = unfold scan_entries in ground arith

    next_offset :
        length (data_file front) + length (table_bytes r) ≡ length (data_file (front ++ r ∷ []))
    next_offset = omega (
      arith,
      ap (length {A = ℕ}) (data_file-append front r []),
      length-append (data_file front) (table_bytes r ++ []),
      length-append (table_bytes r) [],
    )

-- A full scan returns the records of the table.
pub scan_all-IsReaderOf :
    (t : SsTableReader) (rs : List DynamicRecord) → IsReaderOf t rs → scan_all t ≡ rs
unfolding scan_all
scan_all-IsReaderOf t rs h =
    ap (λ (i : List (ℕ × IndexEntry)). sort_by_id (scan_entries t i)) h.index_is
    ∙ ap sort_by_id (scan_entries_loop t [] rs h)
    ∙ sort_by_id-IsAscending rs h.ascending

-- Where `find_if` finds a record, it splits the list.
find_id_split :
    (id : ℕ) (rs : List DynamicRecord) (r : DynamicRecord)
    → find_id id rs ≡ some r
    → (r.node_id ≡ id)
      × ((front : List DynamicRecord) × (back : List DynamicRecord) × (rs ≡ front ++ r ∷ back))
unfolding find_id
find_id_split id [] r e = cc
find_id_split id (q ∷ rs) r e = elim (Bool-cases (q.node_id == id)) [
  | inl hit ↦ (ground arith, ([], rs, ground arith))
  | inr miss ↦
      let (same, (front, back, split)) = find_id_split id rs r (ground arith) in
      (same, (q ∷ front, back, ap (λ l. q ∷ l) split))
]

-- A look-up in the table finds the record of the node, if the table has one.
pub get-find_id :
    (t : SsTableReader) (rs : List DynamicRecord) (id : ℕ)
    → IsReaderOf t rs
    → get t id ≡ find_id id rs
get-find_id t rs id h = elim (Option-cases (find_id id rs)) [
  | inl e ↦ absent e ∙ sym e
  | inr (r, e) ↦
      let (same, (front, back, split)) = find_id_split id rs r e in
      ap (get t) (sym same) ∙ get-middle t front r back (subst (IsReaderOf t) split h) ∙ sym e
]
  where
    absent : find_id id rs ≡ none → get t id ≡ none
    absent e =
        let no_entry : find id t.index ≡ none =
          ap (find id) h.index_is ∙ find-entries_of-none id 0 rs e in
        unfold get in ground arith

All-values-put {κ} :
    (P : DynamicRecord → Type κ) (k : ℕ) (r : DynamicRecord) (m : RecordMap)
    → P r
    → All P (values m)
    → All P (values (put k r m))
unfolding put
All-values-put P k r [] p h = (p, tt)
All-values-put P k r ((j, q) ∷ m) p (hq, h) = elim (Bool-cases (j == k)) [
  | inl same ↦ rw same (p, h)
  | inr other ↦ rw other (hq, All-values-put P k r m p h)
]

pub All-keep_newest :
    (P : DynamicRecord → Type 0) (m : RecordMap) (r : DynamicRecord)
    → P r
    → All P (values m)
    → All P (values (keep_newest m r))
unfolding keep_newest
All-keep_newest P m r p h = elim (Option-cases (find r.node_id m)) [
  | inl e ↦ rw (e, keep_newest) (All-values-put P r.node_id r m p h)
  | inr (q, e) ↦ elim (Bool-cases (ltb q.sequence_id r.sequence_id)) [
    | inl newer ↦ rw (e, newer, keep_newest) (All-values-put P r.node_id r m p h)
    | inr older ↦ rw (e, older, keep_newest) h
  ]
]

All-newest_map :
    (P : DynamicRecord → Type 0) (rs : List DynamicRecord) (m : RecordMap)
    → All P rs
    → All P (values m)
    → All P (values (newest_map rs m))
unfolding newest_map
All-newest_map P [] m h hm = hm
All-newest_map P (r ∷ rs) m (p, h) hm =
    All-newest_map P rs (keep_newest m r) h (All-keep_newest P m r p hm)

-- A property of all records is one of the newest versions.
pub All-deduplicate_newest :
    (P : DynamicRecord → Type 0) (rs : List DynamicRecord)
    → All P rs
    → All P (deduplicate_newest rs)
unfolding deduplicate_newest
All-deduplicate_newest P rs h = All-sort_by_id P _ (All-newest_map P rs [] h tt)
