-- ===== src/Wal/Appends.antt =====
-- `append` on a stream with enough room, and on one that fills up on the way.
use agent_aware.Prelude.{
  leb, Bool-cases, ◌-◌, ◌<◌, ◌≤◌, ◌≡◌, refl, sym, ap, ◌∙◌, true, false, List, [], ◌∷◌, ◌++◌,
  append_assoc, append-nil, length, All, arith, take, inl, inr, ◌⊎◌,
}
use native.Mathlib.Decide.{dec_le}
use agent_aware.Bytes.Stream.{
  in_file, flush_stream, in_file-flush_stream, write_all_fits, write_all_torn,
}
use agent_aware.Records.{DynamicRecord, IsStorable}
use agent_aware.Wal.{WalWriter, appendable, record_writes, encode, append, sync, replay}
use agent_aware.Wal.Replay.{encode_all, replay-encode_all, replay_torn}

storable-appendable : (r : DynamicRecord) → IsStorable r → appendable r ≡ true
unfolding appendable
storable-appendable r s = ground (arith, s.dim_is_size, s.vector_short, s.neighbors_short)

pub encode_all-append :
    (rs : List DynamicRecord) (r : DynamicRecord)
    → encode_all (rs ++ r ∷ []) ≡ encode_all rs ++ encode r
encode_all-append [] r = append-nil (encode r)
encode_all-append (q ∷ rs) r =
    ap (λ t. encode q ++ t) (encode_all-append rs r) ∙ sym (append_assoc (encode q) _ _)

pub All-snoc {ℓ κ} :
    {A : Type ℓ} (P : A → Type κ) (xs : List A) (x : A) → All P xs → P x → All P (xs ++ x ∷ [])
All-snoc P [] x h p = (p, tt)
All-snoc P (y ∷ ys) x h p = (h.0, All-snoc P ys x h.1 p)

-- The writer of an open log that holds the records `rs`.
pub record Holds (w : WalWriter) (rs : List DynamicRecord) : Type 0 where
  pub is_open : w.closed ≡ false
  pub is_good : w.output.good ≡ true
  pub written_is : w.output.written ≡ encode_all rs
  pub storable : All IsStorable rs

-- The writer whose stream has taken the record's bytes.
abbrev pub given : WalWriter → DynamicRecord → WalWriter
given w r = record w {
  output = record w.output {
    written = w.output.written ++ encode r;
    room = w.output.room - length (encode r);
  };
}

sync_outcome :
    (w : WalWriter) (rs : List DynamicRecord)
    → Holds w rs
    → ((sync w).1 ≡ leb (length (encode_all rs)) w.output.capacity)
      × ((sync w).1 ≡ false ⊎ replay (in_file (sync w).0.output) ≡ rs)
sync_outcome w rs h =
    let step : sync w
        ≡ (record w { output = flush_stream w.output }, (flush_stream w.output).good) =
      unfold sync in ground (arith, h.is_open, h.is_good) in
    elim (Bool-cases (leb (length w.output.written) w.output.capacity)) [
      | inl fits ↦
          let (all, good) = in_file-flush_stream w.output h.is_good (ground (arith, fits)) in
          rw step (
            good ∙ sym fits ∙ ap (λ t. leb (length t) w.output.capacity) h.written_is,
            inr (ap replay (all ∙ h.written_is) ∙ replay-encode_all rs h.storable),
          )
      | inr full ↦
          let bad : (flush_stream w.output).good ≡ false =
            unfold flush_stream in ground (arith, h.is_good, full) in
          rw step
            (bad ∙ sym full ∙ ap (λ t. leb (length t) w.output.capacity) h.written_is, inl bad)
    ]

module _ (w : WalWriter) (rs : List DynamicRecord) (r : DynamicRecord) (h : Holds w rs)
    (s : IsStorable r) where
  pub append_fits : length (encode r) ≤ w.output.room → append w r ≡ (given w r, true)
  unfolding append
  append_fits fits = ground (
    arith,
    h.is_open,
    h.is_good,
    storable-appendable r s,
    write_all_fits (record_writes r) w.output h.is_good fits,
  )

  pub append_torn :
      w.output.room < length (encode r)
      → append w r ≡ (
        record w {
          output = record w.output {
            written = w.output.written ++ take w.output.room (encode r);
            room = 0;
            good = false;
          };
        },
        false,
      )
  unfolding append
  append_torn full = ground (
    arith,
    h.is_open,
    h.is_good,
    storable-appendable r s,
    write_all_torn (record_writes r) w.output h.is_good full,
  )

  -- An append of a storable record to an open writer that was given the log of `rs` succeeds exactly when the stream
  -- takes the record's bytes. If it does, the writer was given the log of `rs` and the record, and a `sync` behind
  -- the append succeeds exactly when the file holds this log, and then the file replays to `rs` and the record. If
  -- the stream does not take them, what it was given replays to `rs`, and every later append or `sync` fails
  -- and changes nothing.
  pub append_outcome :
      (length (encode r) ≤ w.output.room)
        × ((append w r).1 ≡ true)
        × Holds (append w r).0 (rs ++ r ∷ [])
        × ((sync (append w r).0).1 ≡ leb (length (encode_all (rs ++ r ∷ []))) w.output.capacity)
        × ((sync (append w r).0).1 ≡ false
            ⊎ replay (in_file (sync (append w r).0).0.output) ≡ rs ++ r ∷ [])
      ⊎ (w.output.room < length (encode r))
        × ((append w r).1 ≡ false)
        × (replay (append w r).0.output.written ≡ rs)
        × ((q : DynamicRecord) → append (append w r).0 q ≡ ((append w r).0, false))
        × (sync (append w r).0 ≡ ((append w r).0, false))
  append_outcome = elim (dec_le (length (encode r)) w.output.room) [
    | yes fits ↦ rw (append_fits fits) (
        let more : Holds (given w r) (rs ++ r ∷ []) = record {
          is_open = h.is_open;
          is_good = h.is_good;
          written_is = ap (λ t. t ++ encode r) h.written_is ∙ sym (encode_all-append rs r);
          storable = All-snoc IsStorable rs r h.storable s;
        } in
        let (kept, read) = sync_outcome (given w r) (rs ++ r ∷ []) more in
        inl (fits, refl, more, kept, read))
    | no full ↦ rw (append_torn (omega arith)) (
        inr (
          omega arith,
          refl,
          ap (λ t. replay (t ++ take w.output.room (encode r))) h.written_is
              ∙ replay_torn rs r w.output.room h.storable s (omega arith),
          λ q. unfold append in ground (arith, h.is_open),
          unfold sync in ground (arith, h.is_open),
        ))
  ]

-- What a writer holds is what a reader of its file replays.
pub replay-Holds :
    (w : WalWriter) (rs : List DynamicRecord) → Holds w rs → replay w.output.written ≡ rs
replay-Holds w rs h = ap replay h.written_is ∙ replay-encode_all rs h.storable
