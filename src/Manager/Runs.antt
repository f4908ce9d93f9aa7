-- ===== src/Manager/Runs.antt =====
-- The methods that change the manager, one by one and in any order: what each leaves true for the
-- readers, and what a reader at a fixed sequence number sees through all of them.
use agent_aware.Prelude.{
  ℕ, ◌+◌, ◌<◌, ◌≤◌, ◌≡◌, refl, ◌∙◌, Bool, not, ◌||◌, Option, none, some, List, ◌==◌, arith,
  Bool-cases, inl, inr,
}
use agent_aware.Records.{DynamicRecord}
use agent_aware.Distance.{FloatOps}
use agent_aware.Manager.State.{Manager, u64_mod}
use agent_aware.Manager.Flush.{FlushDevice, flush}
use agent_aware.Manager.Writes.{append_record, insert, erase}
use agent_aware.Manager.Reads.{latest_record}
use agent_aware.Manager.Lifecycle.{CompactDevice, compact_once, install_compacted}
use agent_aware.Manager.Visible.{
  IsConsistent, SameReads, SameReads-refl, flush_locked-SameReads, SameReads-IsConsistent,
}
use agent_aware.Manager.Answers.{
  append_record-IsTaken, append_record_isolated, SameReads-latest_record,
}
use agent_aware.Manager.Snapshots.{SameReads-collect, IsTaken-collect}
use agent_aware.Manager.Reads.{collect_all_delta_records_at, snapshot, search_delta_l2_at}

pub flush-SameReads : (device : FlushDevice) (m : Manager) → SameReads m (flush device m).0
unfolding flush
flush-SameReads device m = elim (Bool-cases (not m.opened)) [
  | inl closed ↦ rw closed (SameReads-refl m)
  | inr ready ↦ rw ready (flush_locked-SameReads device m)
]

pub compact_once-SameReads :
    (device : CompactDevice) (m : Manager) → SameReads m (compact_once device m).0
unfolding compact_once install_compacted
compact_once-SameReads device m = ground arith

-- A call of a method that changes the manager, with what the file system grants to it.
pub data Call : Type 0 where
  inserting : FlushDevice → ℕ → Option (List ℕ) → ℕ → Call
  erasing : FlushDevice → ℕ → Call
  flushing : FlushDevice → Call
  compacting : CompactDevice → Call

module _ (ops : FloatOps) where
  unfoldable pub perform : Call → Manager → Manager × Bool
  perform (inserting device node_id vector dim) m = insert ops device m node_id vector dim
  perform (erasing device node_id) m = erase device m node_id
  perform (flushing device) m = flush device m
  perform (compacting device) m = ((compact_once device m).0, (compact_once device m).1)

  -- Any number of calls, the failed ones among them, before the sequence numbers run out.
  pub data Run (m : Manager) : Manager → Type 0 where
    start : Run m m
    then_call :
        {n : Manager}
        → Run m n
        → (call : Call) → n.manifest.next_sequence_id + 1 < u64_mod
        → Run m (perform call n).0

  -- The manager goes on from `m` to `n`: it stays consistent, its sequence numbers only grow, and
  -- the numbers below the next one of `m` are answered as before.
  record IsKept (m n : Manager) : Type 0 where
    pub consistent : IsConsistent n
    pub grows : m.manifest.next_sequence_id ≤ n.manifest.next_sequence_id
    pub answers :
        (id s : ℕ) (include_deleted : Bool)
        → s < m.manifest.next_sequence_id
        → latest_record n id s include_deleted ≡ latest_record m id s include_deleted
    pub records :
        (s : ℕ)
        → s < m.manifest.next_sequence_id
        → collect_all_delta_records_at n s ≡ collect_all_delta_records_at m s

  SameReads-IsKept : (m n : Manager) → IsConsistent m → SameReads m n → IsKept m n
  SameReads-IsKept m n c h = record {
    consistent = SameReads-IsConsistent m n h c;
    grows = omega (arith, h.next);
    answers = λ id s b below. SameReads-latest_record m n id s b h;
    records = λ s below. SameReads-collect m n s h;
  }

  append_record-IsKept :
      (device : FlushDevice) (m : Manager) (r : DynamicRecord)
      → IsConsistent m
      → r.sequence_id ≡ m.manifest.next_sequence_id
      → m.manifest.next_sequence_id + 1 < u64_mod
      → IsKept m (append_record device m r).0
  append_record-IsKept device m r c e small = elim (append_record-IsTaken device m r c e small) [
    | inl (same, failed) ↦ SameReads-IsKept m _ c same
    | inr t ↦ record {
      consistent = t.consistent;
      grows = omega (arith, t.next);
      answers = λ id s b below. append_record_isolated device m r id s b c e small below;
      records = λ s below. IsTaken-collect m _ r s c t (omega arith);
    }
  ]

  insert-IsKept :
      (device : FlushDevice) (m : Manager) (node_id : ℕ) (vector : Option (List ℕ)) (dim : ℕ)
      → IsConsistent m
      → m.manifest.next_sequence_id + 1 < u64_mod
      → IsKept m (insert ops device m node_id vector dim).0
  unfolding insert
  insert-IsKept device m node_id none dim c small = SameReads-IsKept m m c (SameReads-refl m)
  insert-IsKept device m node_id (some vector) dim c small =
      elim (Bool-cases ((dim == 0) || not m.opened)) [
        | inl guarded ↦ rw guarded (SameReads-IsKept m m c (SameReads-refl m))
        | inr passed ↦ rw passed (append_record-IsKept device m _ c refl small)
      ]

  erase-IsKept :
      (device : FlushDevice) (m : Manager) (node_id : ℕ)
      → IsConsistent m
      → m.manifest.next_sequence_id + 1 < u64_mod
      → IsKept m (erase device m node_id).0
  unfolding erase
  erase-IsKept device m node_id c small = elim (Bool-cases (not m.opened)) [
    | inl closed ↦ rw closed (SameReads-IsKept m m c (SameReads-refl m))
    | inr ready ↦ rw ready (append_record-IsKept device m _ c refl small)
  ]

  perform-IsKept :
      (call : Call) (m : Manager)
      → IsConsistent m
      → m.manifest.next_sequence_id + 1 < u64_mod
      → IsKept m (perform call m).0
  unfolding perform
  perform-IsKept (inserting device node_id vector dim) m c small =
      insert-IsKept device m node_id vector dim c small
  perform-IsKept (erasing device node_id) m c small = erase-IsKept device m node_id c small
  perform-IsKept (flushing device) m c small = SameReads-IsKept m _ c (flush-SameReads device m)
  perform-IsKept (compacting device) m c small =
      SameReads-IsKept m _ c (compact_once-SameReads device m)

  run-IsKept : (m n : Manager) → IsConsistent m → Run m n → IsKept m n
  run-IsKept m _ c start = SameReads-IsKept m m c (SameReads-refl m)
  run-IsKept m _ c (then_call before_run call small) =
      let before : IsKept m _ = run-IsKept m _ c before_run in
      let after : IsKept _ _ = perform-IsKept call _ before.consistent small in
      record {
        consistent = after.consistent;
        grows = omega (arith, before.grows, after.grows);
        answers = λ id s b below.
            after.answers id s b (omega (arith, before.grows)) ∙ before.answers id s b below;
        records = λ s below. after.records s (omega (arith, before.grows)) ∙ before.records s below;
      }

  -- From a manager whose view is consistent, take any run of inserts (an update is one), erases,
  -- flushes and compactions, failed calls among them, that begins each call with the successor of
  -- the next sequence number below 2 ^ 64. A reader at a sequence number below the next one of before
  -- the run gets, for every node, with or without deleted records, the answer that it got before
  -- the run.
  pub run-latest_record :
      (m n : Manager) (id s : ℕ) (include_deleted : Bool)
      → IsConsistent m
      → Run m n
      → s < m.manifest.next_sequence_id
      → latest_record n id s include_deleted ≡ latest_record m id s include_deleted
  run-latest_record m n id s include_deleted c calls below =
      (run-IsKept m n c calls).answers id s include_deleted below

  -- From a manager whose view is consistent, take any run of inserts (an update is one), erases,
  -- flushes and compactions, failed calls among them, that begins each call with the successor of
  -- the next sequence number below 2 ^ 64. The view stays consistent: the published view is the one
  -- of the present records, every record's sequence number is below the next one; and the next
  -- sequence number is not below that of before the run.
  pub run-IsConsistent :
      (m n : Manager)
      → IsConsistent m
      → Run m n
      → IsConsistent n × (m.manifest.next_sequence_id ≤ n.manifest.next_sequence_id)
  run-IsConsistent m n c calls =
      let h : IsKept m n = run-IsKept m n c calls in (h.consistent, h.grows)

  -- From a manager whose view is consistent, take any run of inserts (an update is one), erases,
  -- flushes and compactions, failed calls among them, that begins each call with the successor of
  -- the next sequence number below 2 ^ 64. At a sequence number below the next one of before the run,
  -- a snapshot has the same records and the same count of deletions as before the run, and a delta
  -- search has the same results in the same order.
  pub run-snapshot :
      (m n : Manager) (query : Option (List ℕ)) (dim topk s : ℕ)
      → IsConsistent m
      → Run m n
      → s < m.manifest.next_sequence_id
      → (snapshot n s ≡ snapshot m s)
        × (search_delta_l2_at ops n query dim topk s ≡ search_delta_l2_at ops m query dim topk s)
  unfolding snapshot search_delta_l2_at
  run-snapshot m n query dim topk s c calls below =
      let same : collect_all_delta_records_at n s ≡ collect_all_delta_records_at m s =
        (run-IsKept m n c calls).records s below in
      rw same (refl, refl)
