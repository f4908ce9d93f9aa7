-- ===== src/Lib.antt =====
-- Verification of agent-aware: the dynamic write path (log, memtable, tables, manifest, compaction,
-- write manager) and the opening of what it leaves on disk, the exact search and the merge of search results, and
-- the packed pages of the graph with their cache.
--
-- The program keeps a static graph index and, beside it, a dynamic layer of newer versions. A write
-- gets the next sequence number, is appended to the write-ahead log, put into the memtable and the
-- history in memory, and published in an immutable read view. A full memtable is written as a table
-- (a data, an index and a meta file), the manifest is saved with the new table, and the log starts
-- anew. A compaction writes the newest versions of all tables as one. `open` loads the tables that
-- the manifest names and replays the log. Readers use the published view only, at a sequence number.
-- A search takes the base results of the graph, the newest versions of their nodes and the nearest
-- delta records, and merges them.
--
-- Files and what they model:
--   Prelude, Prelude/*: the names that all modules share, association lists for unordered_map,
--     sorting by a comparison, the best k of a list, and a bounded priority queue.
--   Bytes, Bytes/*: values as little-endian bytes, readers over a file's bytes, and std::ofstream as
--     a stream that buffers: the bytes that it has taken, and which of them are in the file.
--   Records, Records/Checksum: include/dynamic/dynamic_record.h, and checksum_bytes and
--     checksum_payload of src/dynamic/wal.cpp and src/dynamic/sstable.cpp.
--   Wal, Wal/*: src/dynamic/wal.cpp. WalWriter::append is `append`, WalReader::replay is `replay`.
--     Unsynced is what a crash leaves of appends behind a sync.
--   MemTable, MemTable/Accounting: src/dynamic/memtable.cpp.
--   History, History/*: the free functions of src/dynamic/dynamic_write_manager.cpp that compute the
--     views of a history of versions (deduplicate_newest_at, unique_record_versions,
--     latest_record_from_history, latest_records_for_from_history).
--   SsTable, SsTable/*: src/dynamic/sstable.cpp. SSTableWriter::write is `write`, SSTableReader::open is
--     `open_table`.
--   Manifest: src/dynamic/manifest.cpp. Compaction: src/dynamic/compaction.cpp.
--   Distance, BruteForce, BruteForce/*: src/core/brute_force.cpp, VectorSet of include/core/types.h.
--   Search, Search/*: the scored searches and merge_base_and_delta_l2 of
--     src/dynamic/dynamic_write_manager.cpp.
--   Manager/*: DynamicWriteManager of src/dynamic/dynamic_write_manager.cpp: State (fields, disk,
--     publish_read_view_locked), Flush, Writes, Reads, Lifecycle (open, close, compact_once); and what
--     holds of them: Visible, Answers, Snapshots, Runs, OwnWrites, Opening, and LostMeta for a meta file that is lost.
--   Recovery, Recovery/*: `open` on a disk that holds all that a manager answers from. Durable relates
--     a manager to its disk, Tables reads the tables of a manifest, Reopened is the `open`.
--   Engine, Engine/*: PackedGraphEngine of src/engine/storage_engine.cpp, with the graph's search as a
--     field.
--   Graph, Graph/Cache, Graph/Cache/*: the page cache of PackedDiskGraphIndex, src/graph/disk_graph_index.cpp
--     (lookup_cached_page, store_cached_page, load_page, evict_one_page_locked, configure_cache, PagePinGuard),
--     with the reads of pages and the arithmetic of doubles (DoubleOps) as parameters.
--   Graph/PageCodec, Graph/PageCodec/*: DiskPageCodec of src/graph/disk_page_codec.cpp, with put_bytes and
--     get_bytes of include/graph/disk_page_codec.h: encode_packed_page and the size of a page, and in Decode
--     decode_packed_page, find_node and vector_data. Buffer is a page that is written and read at a cursor;
--     Regions, Vectors and Codes are the regions of a page; Body and Encoded are the page that is written,
--     RoundTrip and Inverse what is read from it.
--   Tests, Tests/*: runs on concrete inputs.
--
-- Numbers are natural numbers; a field's width is written out where the code wraps or casts. Float
-- arithmetic is a parameter (FloatOps): a float is its 32-bit pattern, the order of floats that are
-- not NaN is that of their ranks, and a NaN is neither equal to nor less than anything. (A sort by such an order is
-- undefined in C++ where there is a NaN, so the theorems on sorted results exclude it.) What the file system grants to a call is an argument of it
-- (Device, SaveDevice, WalDevice, FlushDevice, OpenDevice, CompactDevice). What a stream passes on before it is flushed is
-- a parameter (`passes`), so a write that is reported as taken may be in no file: `append` of the log is not
-- followed by a `sync`, and `write_meta` reports a file that is not flushed. The only fuel is that of `replay`, one
-- more than the number of bytes of the file.
--
-- Not modelled: the text of the manifest and of a table's meta file (their parsed fields are), file
-- names (a table's files stand under its number), mutexes and atomics (a method is one step), the
-- page reader, page session and prefetch planner of src/core, product quantization, the disk index and
-- the older delta layer of src/storage, and the building and the search of the graph of src/graph.
pub mod Prelude
pub mod Bytes
pub mod Records
pub mod Wal
pub mod History
pub mod MemTable
pub mod SsTable
pub mod Distance
pub mod Search
pub mod BruteForce
pub mod Manifest
pub mod Compaction
pub mod Manager
pub mod Recovery
pub mod Graph
pub mod Engine
pub mod Tests
