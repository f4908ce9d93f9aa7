-- ===== src/SsTable/LostMeta.antt =====
-- A meta file that does not reach the disk.
use agent_aware.Prelude.{ℕ, ◌≡◌, true, false, none, List, arith}
use agent_aware.Records.{DynamicRecord}
use agent_aware.SsTable.{Device, TableFiles, write, write_meta, open_table, load_meta}

-- Where the meta file does not reach the disk, whatever `write` reports: if it reports success, the files do not open.
pub write_lost :
    (device : Device) (id level : ℕ) (files : TableFiles) (rs : List DynamicRecord)
    → device.meta_stored ≡ false
    → (write device id level files rs).1 ≡ true
    → open_table (write device id level files rs).0 ≡ none
unfolding write write_meta open_table load_meta
write_lost device id level files rs lost = ground (arith, lost)
