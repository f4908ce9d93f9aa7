-- ===== src/Engine/Deletions.antt =====
-- What a deletion leaves of a node's results in the engine's merge: nothing.
use agent_aware.Prelude.{
  ℕ, ◌<◌, ◌≡◌, ◌≢◌, refl, ap, ◌∙◌, true, false, ◌||◌, Option, none, some, List, [], ◌∷◌, ◌++◌, All,
  All-take, if◌then◌else◌, ◌==◌, arith, Bool-cases, inl, inr,
}
use agent_aware.Prelude.Assoc.{find, values}
use agent_aware.Prelude.Sort.{All-sort_by}
use agent_aware.Records.{DynamicRecord}
use agent_aware.History.{
  RecordMap, deduplicate_newest_at, latest_record_from_history, latest_records_for_from_history,
  find_id, contains, visible,
}
use agent_aware.History.Order.{IsAscending, IsKeyed, DistinctKeys, deduplicate_newest-IsAscending}
use agent_aware.History.Views.{
  find_id-snapshot, find-latest_records_for, DistinctKeys-wanted_map, IsKeyed-wanted_map,
}
use agent_aware.Distance.{FloatOps}
use agent_aware.Search.{
  ScoredRecord, SearchResult, scored_less, wrong_size, score_all, items_of, search_delta,
}
use agent_aware.Search.Merged.{base_last, verdict, overlaid}
use agent_aware.Engine.{ids_of_results}

-- No record of `rs` is of the node.
abbrev NotOf : ℕ → List DynamicRecord → Type 0
NotOf id rs = All (λ (q : DynamicRecord). q.node_id ≢ id) rs

base_last-other :
    (id : ℕ) (base : List SearchResult) (o : Option SearchResult)
    → contains (ids_of_results base) id ≡ false
    → base_last id base o ≡ o
unfolding base_last contains ids_of_results
base_last-other id [] o h = refl
base_last-other id (b ∷ bs) o h =
    let e : b.id == id ≡ false = ground arith in rw e (base_last-other id bs o (ground arith))

module _ (ops : FloatOps) (query : List ℕ) (dim id : ℕ) where
  verdict-append :
      (xs ys : List DynamicRecord) (o : Option SearchResult)
      → verdict ops query dim id (xs ++ ys) o
        ≡ verdict ops query dim id ys (verdict ops query dim id xs o)
  unfolding verdict
  verdict-append [] ys o = refl
  verdict-append (x ∷ xs) ys o = verdict-append xs ys _

  verdict-NotOf :
      (rs : List DynamicRecord) (o : Option SearchResult)
      → NotOf id rs
      → verdict ops query dim id rs o ≡ o
  unfolding verdict
  verdict-NotOf [] o h = refl
  verdict-NotOf (r ∷ rs) o (ne, h) =
      let e : r.node_id == id ≡ false = ground arith in rw e (verdict-NotOf rs o h)

  values-NotOf : (m : RecordMap) → IsKeyed m → find id m ≡ none → NotOf id (values m)
  unfolding find
  values-NotOf [] k h = tt
  values-NotOf ((j, r) ∷ m) (e, k) h = (ground (arith, e), values-NotOf m k (ground arith))

  removed :
      (q : DynamicRecord) (rs : List DynamicRecord) (o : Option SearchResult)
      → q.node_id == id ≡ true
      → q.deleted ≡ true
      → verdict ops query dim id (q ∷ rs) o ≡ verdict ops query dim id rs none
  unfolding overlaid verdict
  removed q rs o here dead = rw (here, dead) refl

  -- A deletion in the map removes the node's result.
  verdict-values_deleted :
      (m : RecordMap) (r : DynamicRecord) (o : Option SearchResult)
      → IsKeyed m
      → DistinctKeys m
      → find id m ≡ some r
      → r.deleted ≡ true
      → verdict ops query dim id (values m) o ≡ none
  unfolding find verdict overlaid
  verdict-values_deleted [] r o k d found gone = cc
  verdict-values_deleted ((j, q) ∷ m) r o (e, k) (fresh, d) found gone =
      elim (Bool-cases (j == id)) [
        | inl same ↦
            let here : q.node_id == id ≡ true = ground (arith, e) in
            let dead : q.deleted ≡ true = ground arith in
            removed q (values m) o here dead
            ∙ verdict-NotOf (values m) none (values-NotOf m k (ground arith))
        | inr other ↦ verdict-values_deleted m r _ k d (ground arith) gone
      ]

  -- Where the newest version is a deletion, no record of the node is scored.
  above-NotOf :
      (rs : List DynamicRecord) (b : ℕ)
      → All (λ (q : DynamicRecord). b < q.node_id) rs
      → b ≡ id
      → NotOf id rs
  above-NotOf [] b h e = tt
  above-NotOf (r ∷ rs) b (lt, h) e = (ground arith, above-NotOf rs b h e)

  scored-NotOf :
      (rs : List DynamicRecord)
      → NotOf id rs
      → All (λ (c : ScoredRecord). c.item.node_id ≢ id) (score_all ops query dim rs)
  unfolding score_all
  scored-NotOf [] h = tt
  scored-NotOf (r ∷ rs) (ne, h) = elim (Bool-cases (r.deleted || wrong_size ops r dim)) [
    | inl skipped ↦ rw skipped (scored-NotOf rs h)
    | inr taken ↦ rw taken (ne, scored-NotOf rs h)
  ]

  scored_deleted :
      (rs : List DynamicRecord) (r : DynamicRecord)
      → IsAscending rs
      → find_id id rs ≡ some r
      → r.deleted ≡ true
      → All (λ (c : ScoredRecord). c.item.node_id ≢ id) (score_all ops query dim rs)
  unfolding score_all find_id
  scored_deleted [] r a found gone = tt
  scored_deleted (q ∷ rs) r (low, a) found gone = elim (Bool-cases (q.node_id == id)) [
    | inl same ↦
        let skipped : q.deleted || wrong_size ops q dim ≡ true = ground arith in
        rw skipped (scored-NotOf rs (above-NotOf rs q.node_id low (ground arith)))
    | inr other ↦ elim (Bool-cases (q.deleted || wrong_size ops q dim)) [
      | inl skipped ↦ rw skipped (scored_deleted rs r a (ground arith) gone)
      | inr taken ↦ rw taken (ground arith, scored_deleted rs r a (ground arith) gone)
    ]
  ]

  items-NotOf :
      (cs : List ScoredRecord)
      → All (λ (c : ScoredRecord). c.item.node_id ≢ id) cs
      → NotOf id (items_of ops cs)
  items-NotOf [] h = tt
  items-NotOf (c ∷ cs) (ne, h) = (ne, items-NotOf cs h)

  delta-NotOf :
      (topk : ℕ) (rs : List DynamicRecord) (r : DynamicRecord)
      → IsAscending rs
      → find_id id rs ≡ some r
      → r.deleted ≡ true
      → NotOf id (search_delta ops (some query) dim topk rs)
  unfolding search_delta
  delta-NotOf topk rs r a found gone = elim (Bool-cases ((dim == 0) || (topk == 0))) [
    | inl guarded ↦ rw guarded tt
    | inr passed ↦ rw passed (
        items-NotOf _ (
          All-take _ topk _ (
            All-sort_by (scored_less ops) _ (score_all ops query dim rs)
              (scored_deleted rs r a found gone))))
  ]

  -- Where the newest version of a node is a deletion, the delta and the latest records leave no
  -- result of it.
  pub verdict-deleted :
      (base : List SearchResult) (history : List DynamicRecord) (topk s : ℕ) (r : DynamicRecord)
      → latest_record_from_history history id s true ≡ some r
      → r.deleted ≡ true
      → verdict ops query dim id
          (search_delta ops (some query) dim topk (deduplicate_newest_at history s)
            ++ values (latest_records_for_from_history history (ids_of_results base) s true))
          (base_last id base none)
        ≡ none
  verdict-deleted base history topk s r newest gone =
      verdict-append near (values found) (base_last id base none)
      ∙ ap (verdict ops query dim id (values found))
          (verdict-NotOf near (base_last id base none) absent)
      ∙ elim (Bool-cases (contains (ids_of_results base) id)) [
        | inl wanted ↦
            verdict-values_deleted found r (base_last id base none) keyed distinct
              (look_up
                ∙ ap (λ b. if b then latest_record_from_history history id s true else none) wanted
                ∙ newest)
              gone
        | inr other ↦
            verdict-NotOf (values found) (base_last id base none) (
              values-NotOf found keyed (
                look_up
                ∙ ap (λ b. if b then latest_record_from_history history id s true else none) other))
            ∙ base_last-other id base none other
      ]
    where
      near : List DynamicRecord
      near = search_delta ops (some query) dim topk (deduplicate_newest_at history s)

      found : RecordMap
      found = latest_records_for_from_history history (ids_of_results base) s true

      absent : NotOf id near
      absent =
          delta-NotOf topk (deduplicate_newest_at history s) r
            (unfold deduplicate_newest_at in deduplicate_newest-IsAscending (visible history s))
            (find_id-snapshot history id s ∙ newest) gone

      keyed : IsKeyed found
      keyed =
          unfold latest_records_for_from_history in
          IsKeyed-wanted_map history (ids_of_results base) s [] tt

      distinct : DistinctKeys found
      distinct =
          unfold latest_records_for_from_history in
          DistinctKeys-wanted_map history (ids_of_results base) s [] tt

      look_up : find id found ≡ (
          if contains (ids_of_results base) id
          then latest_record_from_history history id s true
          else none)
      look_up = find-latest_records_for history (ids_of_results base) id s true
