-- ===== src/History/Views.antt =====
-- The readers of a history agree: a snapshot, a look-up of one node, and a look-up of many.
use mathlib.Core.Path.{subst}
use agent_aware.Prelude.{
  ℕ, ◌≤◌, ◌≡◌, ◌≢◌, refl, sym, ap, ◌∙◌, Bool, true, false, not, ◌&&◌, ◌||◌, Option, none, some,
  List, [], ◌∷◌, All, All-imp, leb, ltb, ◌==◌, if◌then◌else◌, arith, Bool-cases, inl, inr,
}
use agent_aware.Prelude.Assoc.{find}
use agent_aware.Records.{DynamicRecord}
use agent_aware.History.{
  RecordMap, keep_newest, deduplicate_newest_at, unseen, unique_from, unique_record_versions,
  latest_scan, unless_deleted, latest_record_from_history, contains, wanted_map, erase_deleted,
  latest_records_for_from_history, find_id,
}
use agent_aware.History.Newest.{newer, candidate, latest_scan_step}
use agent_aware.History.Order.{
  find-keep_newest, candidate_visible, candidate_invisible, newer-none_right,
  find_id-deduplicate_newest_at, IsKeyed, IsKeyed-keep_newest, DistinctKeys,
  DistinctKeys-keep_newest, find_nil,
}

unless_deleted_if :
    (wanted b : Bool) (o : Option DynamicRecord)
    → unless_deleted b (if wanted then o else none) ≡ (if wanted then unless_deleted b o else none)
unless_deleted_if true b o = refl
unless_deleted_if false b o = unfold unless_deleted in refl

unless_deleted-true : (o : Option DynamicRecord) → unless_deleted true o ≡ o
unfolding unless_deleted
unless_deleted-true none = refl
unless_deleted-true (some r) = ground arith

-- The record of a node in a snapshot at a sequence number is the one that the look-up of the node
-- at that number finds.
pub find_id-snapshot :
    (rs : List DynamicRecord) (id s : ℕ)
    → find_id id (deduplicate_newest_at rs s) ≡ latest_record_from_history rs id s true
unfolding latest_record_from_history
find_id-snapshot rs id s =
    find_id-deduplicate_newest_at rs id s ∙ sym (unless_deleted-true (latest_scan rs id s none))

-- One round of the loop over the history, seen at a wanted node.
abbrev wanted_round : List ℕ → ℕ → RecordMap → DynamicRecord → RecordMap
wanted_round ids s m r =
    if ltb s r.sequence_id || not (contains ids r.node_id) then m else keep_newest m r

candidate_other : (id s : ℕ) (r : DynamicRecord) → r.node_id ≢ id → candidate id s r ≡ none
unfolding candidate
candidate_other id s r h = ground arith

find-wanted_round :
    (ids : List ℕ) (id s : ℕ) (m : RecordMap) (r : DynamicRecord)
    → contains ids id ≡ true
    → find id (wanted_round ids s m r) ≡ newer (find id m) (candidate id s r)
find-wanted_round ids id s m r w = ground (
  arith,
  find-keep_newest id m r,
  candidate_visible id s r,
  candidate_invisible id s r,
  candidate_other id s r,
  newer-none_right (find id m),
)

find-wanted_round_other :
    (ids : List ℕ) (id s : ℕ) (m : RecordMap) (r : DynamicRecord)
    → contains ids id ≡ false
    → find id (wanted_round ids s m r) ≡ find id m
find-wanted_round_other ids id s m r w =
    ground (arith, find-keep_newest id m r, newer-none_right (find id m))

-- The map of the wanted nodes, for one that is wanted and one that is not.
find-wanted_map :
    (rs : List DynamicRecord) (ids : List ℕ) (id s : ℕ) (m : RecordMap)
    → contains ids id ≡ true
    → find id (wanted_map rs ids s m) ≡ latest_scan rs id s (find id m)
unfolding wanted_map
find-wanted_map [] ids id s m w = unfold latest_scan in refl
find-wanted_map (r ∷ rs) ids id s m w =
    find-wanted_map rs ids id s (wanted_round ids s m r) w
    ∙ ap (latest_scan rs id s) (find-wanted_round ids id s m r w)
    ∙ sym (latest_scan_step r rs id s (find id m))

find-wanted_map_other :
    (rs : List DynamicRecord) (ids : List ℕ) (id s : ℕ) (m : RecordMap)
    → contains ids id ≡ false
    → find id (wanted_map rs ids s m) ≡ find id m
unfolding wanted_map
find-wanted_map_other [] ids id s m w = refl
find-wanted_map_other (r ∷ rs) ids id s m w =
    find-wanted_map_other rs ids id s (wanted_round ids s m r) w
    ∙ find-wanted_round_other ids id s m r w

find-erase_deleted :
    (id : ℕ) (m : RecordMap)
    → DistinctKeys m
    → find id (erase_deleted m) ≡ unless_deleted false (find id m)
unfolding find erase_deleted unless_deleted
find-erase_deleted id [] d = refl
find-erase_deleted id ((k, r) ∷ m) (fresh, d) = ground (arith, find-erase_deleted id m d)

pub DistinctKeys-wanted_map :
    (rs : List DynamicRecord) (ids : List ℕ) (s : ℕ) (m : RecordMap)
    → DistinctKeys m
    → DistinctKeys (wanted_map rs ids s m)
unfolding wanted_map
DistinctKeys-wanted_map [] ids s m d = d
DistinctKeys-wanted_map (r ∷ rs) ids s m d =
    DistinctKeys-wanted_map rs ids s _ (ground (arith, DistinctKeys-keep_newest m r d))

pub IsKeyed-wanted_map :
    (rs : List DynamicRecord) (ids : List ℕ) (s : ℕ) (m : RecordMap)
    → IsKeyed m
    → IsKeyed (wanted_map rs ids s m)
unfolding wanted_map
IsKeyed-wanted_map [] ids s m k = k
IsKeyed-wanted_map (r ∷ rs) ids s m k =
    IsKeyed-wanted_map rs ids s _ (ground (arith, IsKeyed-keep_newest m r k))

-- The look-up of many nodes holds, for each wanted node, what the look-up of that node alone
-- answers, and for every other node nothing; with or without the deleted records.
pub find-latest_records_for :
    (rs : List DynamicRecord) (ids : List ℕ) (id s : ℕ) (include_deleted : Bool)
    → find id (latest_records_for_from_history rs ids s include_deleted)
      ≡ (if contains ids id then latest_record_from_history rs id s include_deleted else none)
unfolding latest_records_for_from_history latest_record_from_history
find-latest_records_for rs ids id s include_deleted =
    kept include_deleted
    ∙ ap (unless_deleted include_deleted) wanted
    ∙ unless_deleted_if (contains ids id) include_deleted (latest_scan rs id s none)
  where
    wanted :
        find id (wanted_map rs ids s [])
        ≡ (if contains ids id then latest_scan rs id s none else none)
    wanted = elim (Bool-cases (contains ids id)) [
      | inl w ↦ rw w (find-wanted_map rs ids id s [] w ∙ ap (latest_scan rs id s) (find_nil id))
      | inr w ↦ rw w (find-wanted_map_other rs ids id s [] w ∙ find_nil id)
    ]

    kept :
        (b : Bool)
        → find id (if b then wanted_map rs ids s [] else erase_deleted (wanted_map rs ids s []))
          ≡ unless_deleted b (find id (wanted_map rs ids s []))
    kept true = sym (unless_deleted-true (find id (wanted_map rs ids s [])))
    kept false =
        find-erase_deleted id (wanted_map rs ids s []) (DistinctKeys-wanted_map rs ids s [] tt)

-- A version that an earlier record of the list has too never counts.
abbrev CoveredAt : Option DynamicRecord → ℕ → Type 0
CoveredAt none t = ⊥
CoveredAt (some q) t = t ≤ q.sequence_id

abbrev Covers : List (ℕ × ℕ) → ℕ → ℕ → Option DynamicRecord → Type 0
Covers seen id s latest = All (λ (v : ℕ × ℕ). v.0 ≡ id → v.1 ≤ s → CoveredAt latest v.1) seen

CoveredAt-newer : (o c : Option DynamicRecord) (t : ℕ) → CoveredAt o t → CoveredAt (newer o c) t
unfolding newer
CoveredAt-newer none c t h = elim h [ ]
CoveredAt-newer (some q) none t h = h
CoveredAt-newer (some q) (some r) t h = elim (Bool-cases (ltb q.sequence_id r.sequence_id)) [
  | inl lt ↦ rw lt (ground arith)
  | inr ge ↦ rw ge h
]

candidate_counts :
    (id s : ℕ) (r : DynamicRecord) → r.node_id ≡ id → r.sequence_id ≤ s → candidate id s r ≡ some r
unfolding candidate
candidate_counts id s r e l = ground arith

CoveredAt-self :
    (o : Option DynamicRecord) (r : DynamicRecord) → CoveredAt (newer o (some r)) r.sequence_id
unfolding newer
CoveredAt-self none r = omega arith
CoveredAt-self (some q) r = elim (Bool-cases (ltb q.sequence_id r.sequence_id)) [
  | inl lt ↦ rw lt (omega arith)
  | inr ge ↦ rw ge (ground arith)
]

CoveredAt-candidate :
    (id s : ℕ) (r : DynamicRecord) (o : Option DynamicRecord)
    → r.node_id ≡ id
    → r.sequence_id ≤ s
    → CoveredAt (newer o (candidate id s r)) r.sequence_id
CoveredAt-candidate id s r o e l = rw (candidate_counts id s r e l) (CoveredAt-self o r)

newer_covered :
    (o : Option DynamicRecord) (r : DynamicRecord)
    → CoveredAt o r.sequence_id
    → newer o (some r) ≡ o
unfolding newer
newer_covered none r h = elim h [ ]
newer_covered (some q) r h = ground arith

candidate_covered :
    (id s : ℕ) (r : DynamicRecord) (o : Option DynamicRecord)
    → (r.node_id ≡ id → r.sequence_id ≤ s → CoveredAt o r.sequence_id)
    → newer o (candidate id s r) ≡ o
candidate_covered id s r o h = elim (Bool-cases (r.node_id == id)) [
  | inr other ↦ rw (candidate_other id s r (λ e. ground arith)) (newer-none_right o)
  | inl same ↦ elim (Bool-cases (leb r.sequence_id s)) [
    | inl low ↦
        rw (candidate_counts id s r (ground arith) (ground arith))
          (newer_covered o r (h (ground arith) (ground arith)))
    | inr high ↦ rw (candidate_invisible id s r high) (newer-none_right o)
  ]
]

Covers-newer :
    (seen : List (ℕ × ℕ)) (id s : ℕ) (o c : Option DynamicRecord)
    → Covers seen id s o
    → Covers seen id s (newer o c)
Covers-newer seen id s o c h = All-imp _ _ seen (λ v k e l. CoveredAt-newer o c v.1 (k e l)) h

unseen_covered :
    (seen : List (ℕ × ℕ)) (id s : ℕ) (r : DynamicRecord) (o : Option DynamicRecord)
    → unseen r.node_id r.sequence_id seen ≡ false
    → Covers seen id s o
    → r.node_id ≡ id
    → r.sequence_id ≤ s
    → CoveredAt o r.sequence_id
unfolding unseen
unseen_covered [] id s r o e h same low = cc
unseen_covered ((j, t) ∷ seen) id s r o e (first, h) same low =
    elim (Bool-cases ((j == r.node_id) && (t == r.sequence_id))) [
      | inl hit ↦ subst (CoveredAt o) (ground arith) (first (ground arith) (ground arith))
      | inr miss ↦ unseen_covered seen id s r o (ground arith) h same low
    ]

latest_scan-unique_from :
    (rs : List DynamicRecord) (seen : List (ℕ × ℕ)) (id s : ℕ) (o : Option DynamicRecord)
    → Covers seen id s o
    → latest_scan (unique_from seen rs) id s o ≡ latest_scan rs id s o
unfolding unique_from
latest_scan-unique_from [] seen id s o h = refl
latest_scan-unique_from (r ∷ rs) seen id s o h =
    elim (Bool-cases (unseen r.node_id r.sequence_id seen)) [
      | inl fresh ↦ rw fresh (
          latest_scan_step r (unique_from ((r.node_id, r.sequence_id) ∷ seen) rs) id s o
          ∙ latest_scan-unique_from rs ((r.node_id, r.sequence_id) ∷ seen) id s
              (newer o (candidate id s r))
              (CoveredAt-candidate id s r o, Covers-newer seen id s o (candidate id s r) h)
          ∙ sym (latest_scan_step r rs id s o))
      | inr old ↦ rw old (
          latest_scan-unique_from rs seen id s o h
          ∙ ap (latest_scan rs id s)
              (sym (candidate_covered id s r o (unseen_covered seen id s r o old h)))
          ∙ sym (latest_scan_step r rs id s o))
    ]

-- Dropping repeated versions from a history changes no answer about any node at any sequence
-- number.
pub latest_record-unique_record_versions :
    (rs : List DynamicRecord) (id s : ℕ) (include_deleted : Bool)
    → latest_record_from_history (unique_record_versions rs) id s include_deleted
      ≡ latest_record_from_history rs id s include_deleted
unfolding latest_record_from_history unique_record_versions
latest_record-unique_record_versions rs id s include_deleted =
    ap (unless_deleted include_deleted) (latest_scan-unique_from rs [] id s none tt)
