-- ===== src/Wal/Corrupt.antt =====
-- What `replay` promises on any bytes at all, and what it cannot see.
use agent_aware.Prelude.{
  ℕ, zero, suc, ◌^◌, ◌<◌, ◌≤◌, ◌≡◌, ◌≢◌, refl, sym, ap, ◌∙◌, true, false, ◌&&◌, none, some, List,
  ◌++◌, append-nil, length, All, arith, take, Option-cases, inl, inr,
}
use agent_aware.Bytes.{from_le, le_bytes, read_value, read_bytes, Reader, fail, ◌>>=◌}
use agent_aware.Bytes.Laws.{read_bytes_front}
use agent_aware.Bytes.Readers.{
  Returns, Returns-pure, Returns-fail, Returns-if, Returns-bind, Returns-any, Returns-read_words,
  bind_result,
}
use agent_aware.Records.{DynamicRecord, IsStorable}
use agent_aware.Wal.{
  wal_record_magic, WalRecordHeader, header_of, write_header, header_shape_is_valid, node_id_fits,
  read_header, read_payload, record_of, record_writes, encode, read_record, replay,
}
use agent_aware.Wal.Reads.{Reads-read_record}
use agent_aware.Wal.Replay.{encode_all, replay-none, replay-some, replay-encode_all_append}

-- The shape that the writers ask of a record.
pub record IsShaped (r : DynamicRecord) : Type 0 where
  pub dim_is_size : r.dim ≡ length r.vector
  pub node_fits : r.node_id < 2 ^ 32
  pub neighbors_short : length r.neighbors ≤ 2 ^ 27

Returns-read_payload :
    (h : WalRecordHeader) → h.neighbor_count ≤ 2 ^ 27 → Returns IsShaped (read_payload h)
unfolding read_payload record_of
Returns-read_payload h small =
    Returns-bind (λ vs. length vs ≡ h.dim) IsShaped _ _ (Returns-read_words h.dim)
      λ vs hv.
        Returns-bind (λ ns. length ns ≡ h.neighbor_count) IsShaped _ _
          (Returns-read_words h.neighbor_count)
          λ ns hn.
            Returns-if IsShaped _ _ _
              (λ _. Returns-pure IsShaped (record_of h vs ns) (record {
                dim_is_size = sym hv;
                node_fits = omega arith;
                neighbors_short = omega arith;
              }))
              (λ _. Returns-fail IsShaped)

valid_header_neighbors :
    (h : WalRecordHeader)
    → header_shape_is_valid h && node_id_fits h.node_id ≡ true
    → h.neighbor_count ≤ 2 ^ 27
unfolding header_shape_is_valid
valid_header_neighbors h e = ground arith

Returns-read_record : Returns IsShaped read_record
unfolding read_record
Returns-read_record =
    Returns-bind (λ _. Unit {0}) IsShaped _ _ (Returns-any _)
      λ h _.
        Returns-if IsShaped _ _ _ (λ e. Returns-read_payload h (valid_header_neighbors h e))
          (λ _. Returns-fail IsShaped)

All-replay : (n : ℕ) (input : List ℕ) → length input ≤ n → All IsShaped (replay input)
All-replay zero input h = elim (Option-cases (read_record input)) [
  | inl e ↦ rw (replay-none input e) tt
  | inr ((r, rest), e) ↦ absurd (omega (arith, Reads-read_record.shrinks input r rest e))
]
All-replay (suc n) input h = elim (Option-cases (read_record input)) [
  | inl e ↦ rw (replay-none input e) tt
  | inr ((r, rest), e) ↦ rw (replay-some input r rest e) (
    Returns-read_record.result input r rest e,
    All-replay n rest (omega (arith, Reads-read_record.shrinks input r rest e)),
  )
]

-- Whatever bytes the log holds, each record that `replay` returns has as many components as its
-- dimension says, a node id of 32 bits, and at most 2 ^ 27 neighbours.
pub replay-IsShaped : (input : List ℕ) → All IsShaped (replay input)
replay-IsShaped input = All-replay (length input) input (omega arith)

read_value_front :
    (w : ℕ) (input : List ℕ) (n : ℕ) (rest : List ℕ)
    → read_value w input ≡ some (n, rest)
    → n ≡ from_le (take w input)
unfolding read_value
read_value_front w input n rest e =
    let (bytes, mid, read, same) =
      bind_result (λ bytes n. n ≡ from_le bytes) (read_bytes w) _ input n rest
        (λ bytes. Returns-pure _ (from_le bytes) refl) e in
    same ∙ ap from_le (read_bytes_front w input bytes mid read)

-- A header that is read carries the first four bytes as its magic.
header_magic :
    (input : List ℕ) (h : WalRecordHeader) (rest : List ℕ)
    → read_header input ≡ some (h, rest)
    → h.magic ≡ from_le (take 4 input)
unfolding read_header
header_magic input h rest e =
    let (m, mid, read, same) =
      bind_result (λ m h. h.magic ≡ m) (read_value 4) _ input h rest
        (λ m. step 2 m λ _. step 2 m λ _. step 8 m λ _. step 8 m λ _.
          step 4 m
            λ _. step 4 m λ _. step 4 m λ _. step 1 m λ _. step 4 m λ _. Returns-pure _ _ refl)
        e in
    same ∙ read_value_front 4 input m mid read
  where
    step :
        (w m : ℕ) {f : ℕ → Reader WalRecordHeader}
        → ((a : ℕ) → Returns (λ h. h.magic ≡ m) (f a))
        → Returns (λ h. h.magic ≡ m) (read_value w >>= f)
    step w m k = Returns-bind (λ _. Unit {0}) _ _ _ (Returns-any _) (λ a _. k a)

-- No record is read where the first four bytes are not the magic.
read_record_magic :
    (input : List ℕ) → from_le (take 4 input) ≢ wal_record_magic → read_record input ≡ none
unfolding read_record ◌>>=◌
read_record_magic input ne = elim (Option-cases (read_header input)) [
  | inl e ↦ rw (e, ◌>>=◌)
  | inr ((h, rest), e) ↦
      rw (e, ◌>>=◌)
        (rw (bad_header h (λ m. ne (sym (header_magic input h rest e) ∙ m))) (unfold fail in refl))
]
  where
    bad_header :
        (h : WalRecordHeader)
        → h.magic ≢ wal_record_magic
        → (header_shape_is_valid h && node_id_fits h.node_id) ≡ false
    bad_header h m = unfold header_shape_is_valid in ground arith

-- One to three bytes of a magic, and a record behind them: the first four bytes are no magic.
torn_magic :
    (n : ℕ) (r q : DynamicRecord) (later : List ℕ)
    → 0 < n
    → n < 4
    → from_le (take 4 (take n (encode r) ++ (encode q ++ later))) ≢ wal_record_magic
unfolding record_writes write_header header_of le_bytes from_le
torn_magic zero r q later lo hi = absurd (omega arith)
torn_magic (suc zero) r q later lo hi = omega arith
torn_magic (suc (suc zero)) r q later lo hi = omega arith
torn_magic (suc (suc (suc zero))) r q later lo hi = omega arith
torn_magic (suc (suc (suc (suc n)))) r q later lo hi = absurd (omega arith)

-- A log of storable records, then the first one to three bytes of a further record, then a whole
-- record and any bytes: the replay returns the records in front of the torn bytes only. What was
-- appended behind a tail that was cut inside a record's magic is not replayed.
pub replay_behind_torn_magic :
    (rs : List DynamicRecord) (r q : DynamicRecord) (n : ℕ) (later : List ℕ)
    → All IsStorable rs
    → 0 < n
    → n < 4
    → replay (encode_all rs ++ (take n (encode r) ++ (encode q ++ later))) ≡ rs
replay_behind_torn_magic rs r q n later hrs lo hi =
    replay-encode_all_append rs _ hrs
    ∙ ap (λ t. rs ++ t) (replay-none _ (read_record_magic _ (torn_magic n r q later lo hi)))
    ∙ append-nil rs
