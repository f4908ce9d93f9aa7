-- ===== src/Manifest.antt =====
-- src/dynamic/manifest.cpp: the list of live tables and the counters, saved by writing a new file
-- and renaming it. The fields are modelled; the JSON text and the pattern that reads the table
-- entries from it are not. The path of a table, `sstable/sst_NNNNNN`, is its number.
use agent_aware.Prelude.{
  ℕ, ◌-◌, ◌^◌, Bool, true, false, not, ◌&&◌, Option, none, some, List, [], leb, ltb, ◌==◌,
  if◌then◌else◌,
}

pub record ManifestSsTableEntry : Type 0 where
  pub id : ℕ
  pub level : ℕ
  pub base_path : ℕ

pub record ManifestData : Type 0 where
  pub version : ℕ
  pub next_sequence_id : ℕ
  pub next_sstable_id : ℕ
  pub sstables : List ManifestSsTableEntry
  pub wal_checkpoint : ℕ

abbrev pub empty_manifest : ManifestData
empty_manifest = record {
  version = 1;
  next_sequence_id = 1;
  next_sstable_id = 1;
  sstables = [];
  wal_checkpoint = 0;
}

-- A missing file loads as the empty manifest. Each counter is parsed as an `int64_t`.
unfoldable pub load : Option ManifestData → Option ManifestData
load none = some empty_manifest
load (some m) =
    if (m.version == 1)
      && ltb 0 m.next_sequence_id
      && leb m.next_sequence_id (2 ^ 63 - 1)
      && ltb 0 m.next_sstable_id
      && leb m.next_sstable_id (2 ^ 63 - 1)
      && leb m.wal_checkpoint (2 ^ 63 - 1)
    then some m
    else none

-- What the file system grants to one call of `save`.
pub record SaveDevice : Type 0 where
  pub dir_made : Bool
  pub written : Bool
  pub renamed : Bool
  pub renamed_again : Bool

-- `save` over the file as it was: a rename that fails removes the old file and is tried again.
unfoldable pub save : SaveDevice → Option ManifestData → ManifestData → Option ManifestData × Bool
save device file m =
    if not (device.dir_made && device.written)
    then (file, false)
    else if device.renamed
    then (some (record m { version = 1 }), true)
    else if device.renamed_again
    then (some (record m { version = 1 }), true)
    else (none, false)
