-- ===== src/Manager/Opening.antt =====
-- What a successful `open` leaves, and what a `close` leaves.
use agent_aware.Prelude.{
  if◌then◌else◌, sym, append-nil, [], ◌++◌, All-imp, ℕ, ◌+◌, ◌-◌, ◌%◌, ◌<◌, ◌≤◌, ◌≡◌, refl, Bool,
  true, false, not, none, some, List, [], ◌∷◌, ◌++◌, All, arith, Bool-cases, Option-cases, inl, inr,
  max,
}
use agent_aware.Prelude.Assoc.{find}
use agent_aware.Records.{DynamicRecord}
use agent_aware.Wal.{replay}
use agent_aware.SsTable.{TableFiles, no_files, open_table, scan_all}
use agent_aware.Manifest.{ManifestData, ManifestSsTableEntry, SaveDevice, load}
use agent_aware.Manager.State.{Manager, u64_mod, publish_read_view}
use agent_aware.Manager.Flush.{open_wal}
use agent_aware.Manager.Reads.{view_records, latest_record, get, collect_all_delta_records_at}
use agent_aware.Manager.Lifecycle.{
  OpenDevice, Loaded, load_table, load_tables, max_sequence, finish_open, open_log, open_tables,
  open_manager, close,
}
use agent_aware.Manager.Visible.{IsConsistent}

-- Whether every version in `rs` is below `b`.
abbrev Below : ℕ → List DynamicRecord → Type 0
Below b rs = All (λ (r : DynamicRecord). r.sequence_id < b) rs

Below-append : (b : ℕ) (rs qs : List DynamicRecord) → Below b rs → Below b qs → Below b (rs ++ qs)
Below-append b [] qs h g = g
Below-append b (r ∷ rs) qs (hr, h) g = (hr, Below-append b rs qs h g)

Below-weaken : (a b : ℕ) (rs : List DynamicRecord) → a ≤ b → Below a rs → Below b rs
Below-weaken a b rs le h = All-imp _ _ rs (λ q lt. omega arith) h

max_sequence_start : (s : ℕ) (rs : List DynamicRecord) → s ≤ max_sequence s rs
unfolding max_sequence
max_sequence_start s [] = omega arith
max_sequence_start s (r ∷ rs) = ground (arith, max_sequence_start (max s r.sequence_id) rs)

max_sequence-Below : (s : ℕ) (rs : List DynamicRecord) → Below (max_sequence s rs + 1) rs
unfolding max_sequence
max_sequence-Below s [] = tt
max_sequence-Below s (r ∷ rs) = (
  ground (arith, max_sequence_start (max s r.sequence_id) rs),
  max_sequence-Below (max s r.sequence_id) rs,
)

max_sequence_bound :
    (s b : ℕ) (rs : List DynamicRecord) → s < b → Below b rs → max_sequence s rs < b
unfolding max_sequence
max_sequence_bound s b [] h g = h
max_sequence_bound s b (r ∷ rs) h (hr, g) =
    max_sequence_bound (max s r.sequence_id) b rs (ground arith) g

load_tables-Below :
    (files : List (ℕ × TableFiles)) (es : List ManifestSsTableEntry) (l : Loaded)
    → Below (l.max_loaded + 1) l.recent
    → Below ((load_tables files es l).0.max_loaded + 1) (load_tables files es l).0.recent
unfolding load_tables
load_tables-Below files [] l h = h
load_tables-Below files (e ∷ es) l h =
    elim (Option-cases
      (open_table (elim (find e.base_path files) [ none ↦ no_files | some f ↦ f ]))) [
        | inl closed ↦ rw (closed, load_tables) h
        | inr (t, found) ↦
            rw (found, load_tables)
              (load_tables-Below files es (load_table l t) (
                unfold load_table in
                Below-append _ l.recent (scan_all t)
                  (Below-weaken _ _ l.recent
                    (ground
                      (arith, max_sequence_start (max l.max_loaded t.max_sequence_id) (scan_all t)))
                    h)
                  (max_sequence-Below (max l.max_loaded t.max_sequence_id) (scan_all t))))
      ]

-- The next number that `open` computes is above both greatest ones.
next_covers :
    (next a b : ℕ)
    → a + 1 < u64_mod
    → b + 1 < u64_mod
    → (a + 1 ≤ max next ((max a b + 1) % u64_mod)) × (b + 1 ≤ max next ((max a b + 1) % u64_mod))
next_covers next a b ha hb =
    let e : (max a b + 1) % u64_mod ≡ max a b + 1 = ground arith in
    rw e (ground arith, ground arith)

-- The records that `open` takes from the log.
abbrev pub recovered : Manager → List DynamicRecord
recovered m = if not m.options.enable_wal then [] else replay m.disk.wal_file

open_log-IsConsistent :
    (device : OpenDevice) (m : Manager) (max_loaded : ℕ)
    → max_loaded + 1 < u64_mod
    → Below (max_loaded + 1) m.recent_records
    → Below (u64_mod - 1) (replay m.disk.wal_file)
    → (open_log device m max_loaded).1 ≡ true
    → IsConsistent (open_log device m max_loaded).0
      × ((open_log device m max_loaded).0.opened ≡ true)
      × ((open_log device m max_loaded).0.recent_records ≡ m.recent_records ++ recovered m)
unfolding open_log finish_open publish_read_view
open_log-IsConsistent device m max_loaded small h w = elim (Bool-cases (not m.options.enable_wal)) [
  | inl off ↦ rw off (λ done. (
    record {
      published = refl;
      latest_is = refl;
      sequenced = Below-weaken (max_loaded + 1) _ m.recent_records (ground arith) h;
    },
    refl,
    sym (append-nil m.recent_records),
  ))
  | inr on ↦ elim (Bool-cases (open_wal device.wal m.disk.wal_file).1) [
    | inr failed ↦ rw (on, failed) (λ done. cc)
    | inl synced ↦
        let b : max_sequence 0 (replay m.disk.wal_file) + 1 < u64_mod =
          omega
            (arith, max_sequence_bound 0 (u64_mod - 1) (replay m.disk.wal_file) (omega arith) w) in
        rw (on, synced)
          (λ done. (
            record {
              published = refl;
              latest_is = refl;
              sequenced =
                  Below-append _ m.recent_records (replay m.disk.wal_file)
                    (Below-weaken (max_loaded + 1) _ m.recent_records (next_covers _ _ _ small b).0
                      h)
                    (Below-weaken _ _ (replay m.disk.wal_file) (next_covers _ _ _ small b).1
                      (max_sequence-Below 0 (replay m.disk.wal_file)));
            },
            refl,
            refl,
          ))
  ]
]

open_tables-IsConsistent :
    (device : OpenDevice) (m : Manager) (r : Loaded × Bool)
    → r.0.max_loaded + 1 < u64_mod
    → Below (r.0.max_loaded + 1) r.0.recent
    → Below (u64_mod - 1) (replay m.disk.wal_file)
    → (open_tables device m r).1 ≡ true
    → IsConsistent (open_tables device m r).0
      × ((open_tables device m r).0.opened ≡ true)
      × ((open_tables device m r).0.recent_records ≡ r.0.recent ++ recovered m)
unfolding open_tables
open_tables-IsConsistent device m (l, false) small h w = λ done. cc
open_tables-IsConsistent device m (l, true) small h w =
    λ done. open_log-IsConsistent device _ l.max_loaded small h w done

-- Take a manager that is not open, whose disk has the manifest `d`, and where the greatest
-- sequence number of the loaded tables and every one in the replayed log are below 2 ^ 64 - 1.
-- An `open` that reports success leaves an open manager whose records are those that the loop over the tables has
-- loaded and behind them, where the log is enabled, those replayed; and whose view is consistent: it is of all these
-- records, and each of their sequence numbers is below the next one.
pub open_manager-IsConsistent :
    (device : OpenDevice) (m : Manager) (d : ManifestData)
    → m.opened ≡ false
    → load m.disk.manifest_file ≡ some d
    → (load_tables m.disk.table_files d.sstables
          (record { tables = []; recent = []; max_loaded = 0 })).0.max_loaded
        + 1
      < u64_mod
    → Below (u64_mod - 1) (replay m.disk.wal_file)
    → (open_manager device m).1 ≡ true
    → IsConsistent (open_manager device m).0
      × ((open_manager device m).0.opened ≡ true)
      × ((open_manager device m).0.recent_records
          ≡ (load_tables m.disk.table_files d.sstables
              (record { tables = []; recent = []; max_loaded = 0 })).0.recent
            ++ recovered m)
unfolding open_manager
open_manager-IsConsistent device m d o found small w = elim (Bool-cases (not device.dirs_made)) [
  | inl refused ↦ rw (o, refused) (λ done. cc)
  | inr made ↦
      rw (o, made, found)
        (open_tables-IsConsistent device (record m { manifest = d }) _ small
          (load_tables-Below m.disk.table_files d.sstables _ tt) w)
]

-- After `close`, successful or not, `get`, `latest_record` and the collection of the records
-- return nothing, whatever was written before.
pub close-answers :
    (device : SaveDevice) (m : Manager) (id s : ℕ) (include_deleted : Bool)
    → (latest_record (close device m).0 id s include_deleted ≡ none)
      × (get (close device m).0 id ≡ none)
      × (collect_all_delta_records_at (close device m).0 s ≡ [])
unfolding latest_record get collect_all_delta_records_at view_records close publish_read_view
close-answers device m id s include_deleted = (refl, refl, refl)
