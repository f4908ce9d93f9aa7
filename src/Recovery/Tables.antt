-- ===== src/Recovery/Tables.antt =====
-- The tables that a manifest names, as the files on the disk give them.
use agent_aware.Prelude.{
  ℕ, ◌<◌, ◌≤◌, ◌≡◌, refl, sym, ap, ◌∙◌, true, none, some, List, [], ◌∷◌, ◌++◌, All, arith,
  append-nil, append_assoc, max,
}
use agent_aware.Prelude.Assoc.{find, put, find-put}
use agent_aware.Records.{DynamicRecord}
use agent_aware.SsTable.{SsTableReader, TableFiles, no_files, open_table, scan_all}
use agent_aware.Manifest.{ManifestSsTableEntry}
use agent_aware.Manager.Lifecycle.{Loaded, load_tables, load_table, max_sequence}

-- The files of an entry.
abbrev pub files_of_entry : List (ℕ × TableFiles) → ManifestSsTableEntry → TableFiles
files_of_entry files e = elim (find e.base_path files) [ none ↦ no_files | some f ↦ f ]

-- Each entry's files open, to the reader at its place.
abbrev pub Opens : List (ℕ × TableFiles) → List ManifestSsTableEntry → List SsTableReader → Type 0
Opens files [] [] = Unit
Opens files [] (t ∷ ts) = ⊥
Opens files (e ∷ es) [] = ⊥
Opens files (e ∷ es) (t ∷ ts) = (open_table (files_of_entry files e) ≡ some t) × Opens files es ts

-- All the records of the tables.
abbrev pub scans : List SsTableReader → List DynamicRecord
scans [] = []
scans (t ∷ ts) = scan_all t ++ scans ts

pub scans-snoc :
    (ts : List SsTableReader) (t : SsTableReader) → scans (ts ++ t ∷ []) ≡ scans ts ++ scan_all t
scans-snoc [] t = append-nil (scan_all t)
scans-snoc (u ∷ ts) t =
    ap (λ l. scan_all u ++ l) (scans-snoc ts t)
    ∙ sym (append_assoc (scan_all u) (scans ts) (scan_all t))

-- New files under a number that no entry has disturb none.
pub Opens-put :
    (files : List (ℕ × TableFiles)) (id : ℕ) (f : TableFiles) (es : List ManifestSsTableEntry)
    (ts : List SsTableReader)
    → All (λ (e : ManifestSsTableEntry). e.base_path < id) es
    → Opens files es ts
    → Opens (put id f files) es ts
Opens-put files id f [] [] h o = tt
Opens-put files id f [] (t ∷ ts) h o = elim o [ ]
Opens-put files id f (e ∷ es) [] h o = elim o [ ]
Opens-put files id f (e ∷ es) (t ∷ ts) (lt, h) (here, o) =
    (ap open_table same ∙ here, Opens-put files id f es ts h o)
  where
    other : find e.base_path (put id f files) ≡ find e.base_path files
    other = ground (arith, find-put id e.base_path f files)

    same : files_of_entry (put id f files) e ≡ files_of_entry files e
    same = rw (files_of_entry, other) refl

pub Opens-snoc :
    (files : List (ℕ × TableFiles)) (e : ManifestSsTableEntry) (t : SsTableReader)
    (es : List ManifestSsTableEntry) (ts : List SsTableReader)
    → Opens files es ts
    → open_table (files_of_entry files e) ≡ some t
    → Opens files (es ++ e ∷ []) (ts ++ t ∷ [])
Opens-snoc files e t [] [] o here = (here, tt)
Opens-snoc files e t [] (u ∷ ts) o here = elim o [ ]
Opens-snoc files e t (d ∷ es) [] o here = elim o [ ]
Opens-snoc files e t (d ∷ es) (u ∷ ts) (first, o) here = (first, Opens-snoc files e t es ts o here)

-- The loop of `open` over the manifest's entries loads the tables and all their records.
pub load_tables-Opens :
    (files : List (ℕ × TableFiles)) (es : List ManifestSsTableEntry) (ts : List SsTableReader)
    (l : Loaded)
    → Opens files es ts
    → ((load_tables files es l).1 ≡ true)
      × ((load_tables files es l).0.recent ≡ l.recent ++ scans ts)
      × ((load_tables files es l).0.tables ≡ l.tables ++ ts)
unfolding load_tables
load_tables-Opens files [] [] l o = (refl, sym (append-nil l.recent), sym (append-nil l.tables))
load_tables-Opens files [] (t ∷ ts) l o = elim o [ ]
load_tables-Opens files (e ∷ es) [] l o = elim o [ ]
load_tables-Opens files (e ∷ es) (t ∷ ts) l (here, o) =
    let (done, recent, tables) = load_tables-Opens files es ts (load_table l t) o in
    rw (here, load_tables)
      (
        done,
        recent ∙ (unfold load_table in append_assoc l.recent (scan_all t) (scans ts)),
        tables ∙ (unfold load_table in append_assoc l.tables (t ∷ []) ts),
      )

-- No version and no table's greatest number is above `b`.
abbrev pub Bounded : ℕ → List SsTableReader → Type 0
Bounded b = All (λ (t : SsTableReader).
    (t.max_sequence_id ≤ b) × All (λ (r : DynamicRecord). r.sequence_id ≤ b) (scan_all t))

max_sequence-le :
    (s b : ℕ) (rs : List DynamicRecord)
    → s ≤ b
    → All (λ (r : DynamicRecord). r.sequence_id ≤ b) rs
    → max_sequence s rs ≤ b
unfolding max_sequence
max_sequence-le s b [] h a = h
max_sequence-le s b (r ∷ rs) h (hr, a) = max_sequence-le (max s r.sequence_id) b rs (omega arith) a

pub load_tables-Bounded :
    (b : ℕ) (files : List (ℕ × TableFiles)) (es : List ManifestSsTableEntry)
    (ts : List SsTableReader) (l : Loaded)
    → Opens files es ts
    → Bounded b ts
    → l.max_loaded ≤ b
    → (load_tables files es l).0.max_loaded ≤ b
unfolding load_tables
load_tables-Bounded b files [] [] l o h le = le
load_tables-Bounded b files [] (t ∷ ts) l o h le = elim o [ ]
load_tables-Bounded b files (e ∷ es) [] l o h le = elim o [ ]
load_tables-Bounded b files (e ∷ es) (t ∷ ts) l (here, o) ((top, all), h) le =
    rw (here, load_tables)
      (load_tables-Bounded b files es ts (load_table l t) o h (
        unfold load_table in
        max_sequence-le (max l.max_loaded t.max_sequence_id) b (scan_all t) (omega arith) all))
