-- ===== src/Manager/Reads.antt =====
-- The read methods, over the published view.
use agent_aware.Prelude.{ℕ, ◌+◌, Bool, false, Option, none, some, List, [], ◌∷◌, if◌then◌else◌}
use agent_aware.Records.{DynamicRecord}
use agent_aware.History.{
  RecordMap, deduplicate_newest_at, latest_record_from_history, latest_records_for_from_history,
}
use agent_aware.Distance.{FloatOps}
use agent_aware.Search.{search_delta}
use agent_aware.Manager.State.{Manager}

-- The history that a reader sees: none before the first `open`, and none after a `close`.
unfoldable pub view_records : Manager → Option (List DynamicRecord)
view_records m = elim m.read_view [
  | none ↦ none
  | some v ↦ if v.opened then some v.history_records else none
]

unfoldable pub latest_record : Manager → ℕ → ℕ → Bool → Option DynamicRecord
latest_record m node_id read_sequence include_deleted = elim (view_records m) [
  | none ↦ none
  | some history ↦ latest_record_from_history history node_id read_sequence include_deleted
]

unfoldable pub current_sequence : Manager → ℕ
current_sequence m = m.latest_sequence

unfoldable pub get : Manager → ℕ → Option DynamicRecord
get m node_id = latest_record m node_id (current_sequence m) false

unfoldable pub latest_records_for : Manager → List ℕ → ℕ → Bool → RecordMap
latest_records_for m node_ids read_sequence include_deleted = elim (view_records m) [
  | none ↦ []
  | some history ↦ latest_records_for_from_history history node_ids read_sequence include_deleted
]

unfoldable pub collect_all_delta_records_at : Manager → ℕ → List DynamicRecord
collect_all_delta_records_at m read_sequence = elim (view_records m) [
  | none ↦ []
  | some history ↦ deduplicate_newest_at history read_sequence
]

unfoldable pub count_deleted : List DynamicRecord → ℕ
count_deleted [] = 0
count_deleted (r ∷ rs) = (if r.deleted then 1 else 0) + count_deleted rs

pub record DynamicSnapshot : Type 0 where
  pub read_sequence : ℕ
  pub records : List DynamicRecord
  pub deleted_count : ℕ

unfoldable pub snapshot : Manager → ℕ → DynamicSnapshot
snapshot m read_sequence =
    let records = collect_all_delta_records_at m read_sequence in
    record {
      read_sequence = read_sequence;
      records = records;
      deleted_count = count_deleted records;
    }

unfoldable pub search_delta_l2_at :
    FloatOps → Manager → Option (List ℕ) → ℕ → ℕ → ℕ → List DynamicRecord
search_delta_l2_at ops m query dim topk read_sequence =
    search_delta ops query dim topk (collect_all_delta_records_at m read_sequence)
