-- ===== src/Manager/Answers.antt =====
-- The answers of readers across writes, flushes and compactions.
use agent_aware.Prelude.{
  ℕ, ◌+◌, ◌<◌, ◌≤◌, ◌≡◌, ◌≢◌, refl, sym, ap, ◌∙◌, Bool, true, false, Option, none, some, List, [],
  ◌∷◌, ◌++◌, All, ltb, if◌then◌else◌, arith, inl, inr, ◌⊎◌,
}
use mathlib.Core.Path.{subst}
use agent_aware.Records.{DynamicRecord}
use agent_aware.History.{latest_scan, unless_deleted, latest_record_from_history}
use agent_aware.History.Newest.{newer, candidate, latest_scan-append, latest_scan-cons}
use agent_aware.History.Order.{newer-none_right}
use agent_aware.Manager.State.{Manager, u64_mod, publish_read_view}
use agent_aware.Manager.Flush.{FlushDevice}
use agent_aware.Manager.Writes.{log_record, take_record, append_record}
use agent_aware.Manager.Reads.{view_records, latest_record, current_sequence, get}
use agent_aware.History.Newest.{IsNewest, Has, latest_scan-IsNewest}
use agent_aware.Manager.Visible.{
  IsConsistent, SameReads, log_record-SameReads, append_record_cases, latest_record-recent,
  take_record-IsConsistent, SameReads-IsConsistent,
}

candidate_above : (id s : ℕ) (r : DynamicRecord) → s < r.sequence_id → candidate id s r ≡ none
unfolding candidate
candidate_above id s r h = ground arith

candidate_ne : (id s : ℕ) (r : DynamicRecord) → r.node_id ≢ id → candidate id s r ≡ none
unfolding candidate
candidate_ne id s r h = ground arith

candidate_eq : (s : ℕ) (r : DynamicRecord) → r.sequence_id ≤ s → candidate r.node_id s r ≡ some r
unfolding candidate
candidate_eq s r h = ground arith

scan_nil : (id s : ℕ) → latest_scan [] id s none ≡ none
unfolding latest_scan
scan_nil id s = refl

-- One more record at the end of a history.
pub scan-snoc :
    (rs : List DynamicRecord) (r : DynamicRecord) (id s : ℕ)
    → latest_scan (rs ++ r ∷ []) id s none ≡ newer (latest_scan rs id s none) (candidate id s r)
scan-snoc rs r id s =
    latest_scan-append rs (r ∷ []) id s
    ∙ ap (newer (latest_scan rs id s none)) (
        latest_scan-cons r [] id s
        ∙ ap (newer (candidate id s r)) (scan_nil id s)
        ∙ newer-none_right (candidate id s r))

-- A record above `s`, or of another node, at the end of a history is not seen.
scan-snoc_unseen :
    (rs : List DynamicRecord) (r : DynamicRecord) (id s : ℕ)
    → candidate id s r ≡ none
    → latest_scan (rs ++ r ∷ []) id s none ≡ latest_scan rs id s none
scan-snoc_unseen rs r id s e =
    scan-snoc rs r id s
    ∙ ap (newer (latest_scan rs id s none)) e
    ∙ newer-none_right (latest_scan rs id s none)

-- Numbers at or above every version of a history see the same.
pub scan_bound :
    (rs : List DynamicRecord) (id b s t : ℕ) (latest : Option DynamicRecord)
    → All (λ (r : DynamicRecord). r.sequence_id < b) rs
    → b ≤ s + 1
    → b ≤ t + 1
    → latest_scan rs id s latest ≡ latest_scan rs id t latest
unfolding latest_scan
scan_bound [] id b s t latest h hs ht = refl
scan_bound (r ∷ rs) id b s t latest (hr, h) hs ht =
    rw (below s hs, below t ht) (scan_bound rs id b s t _ h hs ht)
  where
    below : (s : ℕ) → b ≤ s + 1 → ltb s r.sequence_id ≡ false
    below s hs = ground arith

All-Has :
    (P : DynamicRecord → Type 0) (rs : List DynamicRecord) (q : DynamicRecord)
    → All P rs
    → Has q rs
    → P q
All-Has P [] q h m = elim m [ ]
All-Has P (r ∷ rs) q (p, h) (inl e) = subst P (sym e) p
All-Has P (r ∷ rs) q (p, h) (inr m) = All-Has P rs q h m

newer_last :
    (b s : ℕ) (r : DynamicRecord) (id : ℕ) (rs : List DynamicRecord) (o : Option DynamicRecord)
    → IsNewest rs id s o
    → All (λ (q : DynamicRecord). q.sequence_id < b) rs
    → b ≤ r.sequence_id
    → newer o (some r) ≡ some r
unfolding newer
newer_last b s r id rs none n h le = refl
newer_last b s r id rs (some q) (has, node, low, best) h le =
    let lt : q.sequence_id < b = All-Has (λ (p : DynamicRecord). p.sequence_id < b) rs q h has in
    ground arith

-- What readers depend on after an append was taken.
pub record IsTaken (m : Manager) (r : DynamicRecord) (n : Manager) : Type 0 where
  pub recent : n.recent_records ≡ m.recent_records ++ r ∷ []
  pub still : n.opened ≡ m.opened
  pub next : n.manifest.next_sequence_id ≡ m.manifest.next_sequence_id + 1
  pub consistent : IsConsistent n

take_record-IsTaken :
    (m m1 n : Manager) (r : DynamicRecord)
    → IsConsistent m
    → r.sequence_id ≡ m.manifest.next_sequence_id
    → m.manifest.next_sequence_id + 1 < u64_mod
    → SameReads m m1
    → SameReads (take_record m1 r) n
    → IsTaken m r n
unfolding take_record publish_read_view
take_record-IsTaken m m1 n r c e small s1 s2 =
    let c1 : IsConsistent m1 = SameReads-IsConsistent m m1 s1 c in
    let c2 : IsConsistent (take_record m1 r) =
      take_record-IsConsistent m1 r (e ∙ sym s1.next) (omega (arith, s1.next)) c1.sequenced in
    record {
      recent = s2.recent ∙ ap (λ l. l ++ r ∷ []) s1.recent;
      still = s2.still ∙ s1.still;
      next = omega (arith, s2.next, s1.next);
      consistent = SameReads-IsConsistent (take_record m1 r) n s2 c2;
    }

pub append_record-IsTaken :
    (device : FlushDevice) (m : Manager) (r : DynamicRecord)
    → IsConsistent m
    → r.sequence_id ≡ m.manifest.next_sequence_id
    → m.manifest.next_sequence_id + 1 < u64_mod
    → (SameReads m (append_record device m r).0 × ((append_record device m r).1 ≡ false))
      ⊎ IsTaken m r (append_record device m r).0
append_record-IsTaken device m r c e small = elim (append_record_cases device m r) [
  | inl refused ↦ inl refused
  | inr taken ↦
      inr (take_record-IsTaken m (log_record m r).0 _ r c e small (log_record-SameReads m r) taken)
]

pub SameReads-latest_record :
    (m n : Manager) (id s : ℕ) (include_deleted : Bool)
    → SameReads m n
    → latest_record n id s include_deleted ≡ latest_record m id s include_deleted
unfolding latest_record view_records
SameReads-latest_record m n id s include_deleted h = ground (arith, h.view)

-- A taken record changes no answer that does not count it.
IsTaken-latest_record :
    (m n : Manager) (r : DynamicRecord) (id s : ℕ) (include_deleted : Bool)
    → IsConsistent m
    → IsTaken m r n
    → candidate id s r ≡ none
    → latest_record n id s include_deleted ≡ latest_record m id s include_deleted
IsTaken-latest_record m n r id s include_deleted c t e =
    latest_record-recent n id s include_deleted t.consistent
    ∙ same
    ∙ sym (latest_record-recent m id s include_deleted c)
  where
    same :
        (if n.opened
          then latest_record_from_history n.recent_records id s include_deleted
          else none)
        ≡ (if m.opened
            then latest_record_from_history m.recent_records id s include_deleted
            else none)
    same =
        rw (t.still, t.recent)
          (unfold latest_record_from_history in
            ap
              (λ (o : Option DynamicRecord).
                if m.opened then unless_deleted include_deleted o else none)
              (scan-snoc_unseen m.recent_records r id s e))

pub append_record_isolated :
    (device : FlushDevice) (m : Manager) (r : DynamicRecord) (id s : ℕ) (include_deleted : Bool)
    → IsConsistent m
    → r.sequence_id ≡ m.manifest.next_sequence_id
    → m.manifest.next_sequence_id + 1 < u64_mod
    → s < m.manifest.next_sequence_id
    → latest_record (append_record device m r).0 id s include_deleted
      ≡ latest_record m id s include_deleted
append_record_isolated device m r id s include_deleted c e small below =
    elim (append_record-IsTaken device m r c e small) [
      | inl (same, failed) ↦ SameReads-latest_record m _ id s include_deleted same
      | inr taken ↦
          IsTaken-latest_record m _ r id s include_deleted c taken
            (candidate_above id s r (omega arith))
    ]

pub append_record-get :
    (device : FlushDevice) (m : Manager) (r : DynamicRecord)
    → IsConsistent m
    → m.opened ≡ true
    → r.sequence_id ≡ m.manifest.next_sequence_id
    → m.manifest.next_sequence_id + 1 < u64_mod
    → (append_record device m r).1 ≡ true
    → get (append_record device m r).0 r.node_id ≡ unless_deleted false (some r)
unfolding get current_sequence latest_record_from_history
append_record-get device m r c o e small done = elim (append_record-IsTaken device m r c e small) [
  | inl (same, failed) ↦ cc
  | inr t ↦ taken (append_record device m r).0 t
]
  where
    taken : (n : Manager) → IsTaken m r n → get n r.node_id ≡ unless_deleted false (some r)
    taken n t =
        let now : current_sequence n ≡ r.sequence_id =
          omega (arith, t.consistent.latest_is, t.next) in
        let scan : latest_scan n.recent_records r.node_id (current_sequence n) none ≡ some r =
          ap (λ l. latest_scan l r.node_id (current_sequence n) none) t.recent
          ∙ scan-snoc m.recent_records r r.node_id (current_sequence n)
          ∙ ap (newer (latest_scan m.recent_records r.node_id (current_sequence n) none))
              (candidate_eq (current_sequence n) r (omega arith))
          ∙ newer_last m.manifest.next_sequence_id (current_sequence n) r r.node_id m.recent_records
              _ (latest_scan-IsNewest m.recent_records r.node_id (current_sequence n)) c.sequenced
              (omega arith) in
        latest_record-recent n r.node_id (current_sequence n) false t.consistent
        ∙ ap
            (λ b.
              if b
              then unless_deleted false
                  (latest_scan n.recent_records r.node_id (current_sequence n) none)
              else none)
            (t.still ∙ o)
        ∙ ap (unless_deleted false) scan
