-- ===== src/Tests/Logs.antt =====
-- The write-ahead log at concrete records.
use agent_aware.Prelude.{
  ℕ, leb, ◌<◌, ◌≤◌, ◌≡◌, refl, true, false, [], ◌∷◌, ◌++◌, length, take, All, ◌⊎◌, arith,
}
use agent_aware.Records.{DynamicRecord}
use agent_aware.Bytes.{le_bytes, le_words}
use agent_aware.Bytes.Stream.{flush_stream, in_file}
use agent_aware.Wal.{
  sync, write_header, write_payload, record_writes, encode, replay, append, WalWriter,
}
use agent_aware.Wal.Replay.{encode_all, replay-encode_all, replay_torn}
use agent_aware.Wal.Unsynced.{append_each, replay-unsynced}
use agent_aware.Wal.Appends.{Holds, append_outcome}
use agent_aware.Wal.Corrupt.{IsShaped, replay-IsShaped, replay_behind_torn_magic}
use agent_aware.Tests.{
  first_version, deletion, other_node, two_records, first_version-IsStorable, deletion-IsStorable,
  other_node-IsStorable,
}

replay-encode_all_example : replay (encode_all two_records) ≡ two_records
replay-encode_all_example =
    replay-encode_all two_records (first_version-IsStorable, (deletion-IsStorable, tt))

other_node_size : length (encode other_node) ≡ 49
unfolding write_header write_payload record_writes le_bytes le_words
other_node_size = refl

replay_torn_example : replay (encode_all two_records ++ take 3 (encode other_node)) ≡ two_records
replay_torn_example =
    replay_torn two_records other_node 3 (first_version-IsStorable, (deletion-IsStorable, tt))
      other_node-IsStorable (omega (arith, other_node_size))

replay_behind_torn_magic_example :
    replay (encode_all two_records ++ (take 2 (encode other_node) ++ (encode first_version ++ [])))
    ≡ two_records
replay_behind_torn_magic_example =
    replay_behind_torn_magic two_records other_node first_version 2 []
      (first_version-IsStorable, (deletion-IsStorable, tt)) (omega arith) (omega arith)

replay-IsShaped_example : All IsShaped (replay (encode_all two_records))
replay-IsShaped_example = replay-IsShaped (encode_all two_records)

abbrev empty_log : WalWriter
empty_log = record {
  output = record {
    written = [];
    flushed = 0;
    room = 200;
    capacity = 60;
    passes = λ n. 0;
    good = true;
  };
  closed = false;
}

empty_log-Holds : Holds empty_log []
empty_log-Holds = record { is_open = refl; is_good = refl; written_is = refl; storable = tt }

append_outcome_example :
    (length (encode deletion) ≤ 200)
      × ((append empty_log deletion).1 ≡ true)
      × Holds (append empty_log deletion).0 (deletion ∷ [])
      × ((sync (append empty_log deletion).0).1 ≡ leb (length (encode_all (deletion ∷ []))) 60)
      × ((sync (append empty_log deletion).0).1 ≡ false
          ⊎ replay (in_file (sync (append empty_log deletion).0).0.output) ≡ deletion ∷ [])
    ⊎ (200 < length (encode deletion))
      × ((append empty_log deletion).1 ≡ false)
      × (replay (append empty_log deletion).0.output.written ≡ [])
      × ((q : DynamicRecord)
          → append (append empty_log deletion).0 q ≡ ((append empty_log deletion).0, false))
      × (sync (append empty_log deletion).0 ≡ ((append empty_log deletion).0, false))
append_outcome_example = append_outcome empty_log [] deletion empty_log-Holds deletion-IsStorable

replay-unsynced_example :
    (k : ℕ) × (replay
        (in_file (append_each (sync empty_log).0 (deletion ∷ first_version ∷ [])).output)
      ≡ [] ++ take k (deletion ∷ first_version ∷ []))
replay-unsynced_example =
    replay-unsynced empty_log [] (deletion ∷ first_version ∷ []) empty_log-Holds
      (unfold sync in unfold flush_stream in refl)
      (deletion-IsStorable, (first_version-IsStorable, tt))
