-- ===== src/Manager/Snapshots.antt =====
-- The records that a snapshot at a sequence number holds, across writes.
use agent_aware.Prelude.{ℕ, ◌<◌, ◌≡◌, sym, ap, ◌∙◌, List, [], ◌∷◌, ◌++◌, if◌then◌else◌, arith}
use agent_aware.Records.{DynamicRecord}
use agent_aware.History.{
  deduplicate_newest, deduplicate_newest_at, unique_record_versions, unique_from, visible,
}
use agent_aware.Manager.State.{Manager, publish_read_view}
use agent_aware.Manager.Reads.{view_records, collect_all_delta_records_at}
use agent_aware.Manager.Visible.{IsConsistent, SameReads}
use agent_aware.Manager.Answers.{IsTaken}

-- A version above `s` at the end of a history is not among those visible at `s`.
visible-unique_from :
    (seen : List (ℕ × ℕ)) (rs : List DynamicRecord) (r : DynamicRecord) (s : ℕ)
    → s < r.sequence_id
    → visible (unique_from seen (rs ++ r ∷ [])) s ≡ visible (unique_from seen rs) s
unfolding visible unique_from
visible-unique_from seen [] r s above = ground arith
visible-unique_from seen (q ∷ rs) r s above = ground (
  arith,
  visible-unique_from seen rs r s above,
  visible-unique_from ((q.node_id, q.sequence_id) ∷ seen) rs r s above,
)

pub collect-recent :
    (m : Manager) (s : ℕ)
    → IsConsistent m
    → collect_all_delta_records_at m s
      ≡ (if m.opened then deduplicate_newest_at (unique_record_versions m.recent_records) s else [])
unfolding collect_all_delta_records_at view_records publish_read_view
collect-recent m s c = ground (arith, c.published)

pub SameReads-collect :
    (m n : Manager) (s : ℕ)
    → SameReads m n
    → collect_all_delta_records_at n s ≡ collect_all_delta_records_at m s
unfolding collect_all_delta_records_at view_records
SameReads-collect m n s h = ground (arith, h.view)

deduplicate-snoc :
    (rs : List DynamicRecord) (r : DynamicRecord) (s : ℕ)
    → s < r.sequence_id
    → deduplicate_newest_at (unique_record_versions (rs ++ r ∷ [])) s
      ≡ deduplicate_newest_at (unique_record_versions rs) s
unfolding deduplicate_newest_at unique_record_versions
deduplicate-snoc rs r s above = ap deduplicate_newest (visible-unique_from [] rs r s above)

pub IsTaken-collect :
    (m n : Manager) (r : DynamicRecord) (s : ℕ)
    → IsConsistent m
    → IsTaken m r n
    → s < r.sequence_id
    → collect_all_delta_records_at n s ≡ collect_all_delta_records_at m s
IsTaken-collect m n r s c t above =
    collect-recent n s t.consistent ∙ same ∙ sym (collect-recent m s c)
  where
    same :
        (if n.opened then deduplicate_newest_at (unique_record_versions n.recent_records) s else [])
        ≡ (if m.opened
            then deduplicate_newest_at (unique_record_versions m.recent_records) s
            else [])
    same =
        rw (t.still, t.recent)
          (ap (λ (l : List DynamicRecord). if m.opened then l else [])
            (deduplicate-snoc m.recent_records r s above))
