-- ===== src/History.antt =====
-- The free functions of src/dynamic/dynamic_write_manager.cpp over lists of record versions: which
-- version of a node is the newest at a sequence number.
pub mod Newest
pub mod Order
pub mod Views
use agent_aware.Prelude.{
  ℕ, zero, suc, ◌+◌, ◌-◌, ◌*◌, ◌/◌, ◌%◌, ◌^◌, ◌<◌, ◌≤◌, ◌≡◌, ◌≢◌, refl, sym, ap, ◌∙◌, Bool, true,
  false, not, ◌&&◌, ◌||◌, Option, none, some, List, [], ◌∷◌, ◌++◌, append_assoc, append-nil, length,
  All, leb, ltb, ◌==◌, if◌then◌else◌, arith, length-append, take, drop, length-take,
  take-append-drop, length-drop, Bool-cases, Option-cases, inl, inr, min, max, ◌⊎◌, ◌↔◌,
}
use agent_aware.Prelude.Assoc.{find, put, values}
use agent_aware.Records.{DynamicRecord}

-- `std::sort` by node id. The lists that the source sorts so hold each node once.
unfoldable pub insert_by_id : DynamicRecord → List DynamicRecord → List DynamicRecord
insert_by_id r [] = r ∷ []
insert_by_id r (q ∷ qs) = if ltb q.node_id r.node_id then q ∷ insert_by_id r qs else r ∷ q ∷ qs

unfoldable pub sort_by_id : List DynamicRecord → List DynamicRecord
sort_by_id [] = []
sort_by_id (r ∷ rs) = insert_by_id r (sort_by_id rs)

abbrev pub RecordMap : Type 0
RecordMap = List (ℕ × DynamicRecord)

-- The body of the loop of `deduplicate_newest`.
unfoldable pub keep_newest : RecordMap → DynamicRecord → RecordMap
keep_newest latest r = elim (find r.node_id latest) [
  | none ↦ put r.node_id r latest
  | some q ↦ if ltb q.sequence_id r.sequence_id then put r.node_id r latest else latest
]

unfoldable pub newest_map : List DynamicRecord → RecordMap → RecordMap
newest_map [] latest = latest
newest_map (r ∷ rs) latest = newest_map rs (keep_newest latest r)

unfoldable pub deduplicate_newest : List DynamicRecord → List DynamicRecord
deduplicate_newest rs = sort_by_id (values (newest_map rs []))

-- The records up to a sequence number.
unfoldable pub visible : List DynamicRecord → ℕ → List DynamicRecord
visible [] s = []
visible (r ∷ rs) s = if leb r.sequence_id s then r ∷ visible rs s else visible rs s

unfoldable pub deduplicate_newest_at : List DynamicRecord → ℕ → List DynamicRecord
deduplicate_newest_at rs s = deduplicate_newest (visible rs s)

-- `seen.insert(key).second` of `unique_record_versions`: is the version new?
unfoldable pub unseen : ℕ → ℕ → List (ℕ × ℕ) → Bool
unseen id s [] = true
unseen id s ((j, t) ∷ seen) = not ((j == id) && (t == s)) && unseen id s seen

unfoldable pub unique_from : List (ℕ × ℕ) → List DynamicRecord → List DynamicRecord
unique_from seen [] = []
unique_from seen (r ∷ rs) =
    let rest = unique_from ((r.node_id, r.sequence_id) ∷ seen) rs in
    let skipped = unique_from seen rs in
    if unseen r.node_id r.sequence_id seen then r ∷ rest else skipped

unfoldable pub unique_record_versions : List DynamicRecord → List DynamicRecord
unfolding unique_from
unique_record_versions = unique_from []

-- The loop of `latest_record_from_history`; `none` stands for `found == false`.
unfoldable pub latest_scan :
    List DynamicRecord → ℕ → ℕ → Option DynamicRecord → Option DynamicRecord
latest_scan [] id s latest = latest
latest_scan (r ∷ rs) id s latest = latest_scan rs id s (
    if not (r.node_id == id) || ltb s r.sequence_id then latest else elim latest [
      | none ↦ some r
      | some q ↦ if ltb q.sequence_id r.sequence_id then some r else some q
    ])

-- `if (!found || (latest.deleted && !include_deleted)) return std::nullopt;`
unfoldable pub unless_deleted : Bool → Option DynamicRecord → Option DynamicRecord
unless_deleted include_deleted none = none
unless_deleted include_deleted (some r) = if r.deleted && not include_deleted then none else some r

unfoldable pub latest_record_from_history : List DynamicRecord → ℕ → ℕ → Bool → Option DynamicRecord
latest_record_from_history rs id s include_deleted =
    unless_deleted include_deleted (latest_scan rs id s none)

-- `wanted.find(id) != wanted.end()`
unfoldable pub contains : List ℕ → ℕ → Bool
contains [] id = false
contains (i ∷ ids) id = (i == id) || contains ids id

unfoldable pub wanted_map : List DynamicRecord → List ℕ → ℕ → RecordMap → RecordMap
wanted_map [] ids s latest = latest
wanted_map (r ∷ rs) ids s latest =
    wanted_map rs ids s
      (if ltb s r.sequence_id || not (contains ids r.node_id) then latest else keep_newest latest r)

unfoldable pub erase_deleted : RecordMap → RecordMap
erase_deleted [] = []
erase_deleted ((k, r) ∷ m) = if r.deleted then erase_deleted m else (k, r) ∷ erase_deleted m

unfoldable pub latest_records_for_from_history : List DynamicRecord → List ℕ → ℕ → Bool → RecordMap
latest_records_for_from_history rs ids s include_deleted =
    let latest = wanted_map rs ids s [] in if include_deleted then latest else erase_deleted latest

-- `std::find_if` by node id.
unfoldable pub find_id : ℕ → List DynamicRecord → Option DynamicRecord
find_id id [] = none
find_id id (r ∷ rs) = if r.node_id == id then some r else find_id id rs
