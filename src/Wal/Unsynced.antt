-- ===== src/Wal/Unsynced.antt =====
-- What a crash leaves of the records that are appended behind a `sync`.
use agent_aware.Prelude.{
  ℕ, zero, suc, leb, ◌+◌, ◌-◌, ◌≤◌, ◌≡◌, refl, sym, ap, ◌∙◌, true, false, List, [], ◌∷◌, ◌++◌,
  append_assoc, append-nil, length, All, arith, take, min, max, take-append_ge, take-append_le,
  take_all,
}
use native.Mathlib.Decide.{dec_le}
use agent_aware.Bytes.Stream.{Stream, in_file, flush_stream}
use agent_aware.Records.{DynamicRecord, IsStorable}
use agent_aware.Wal.{WalWriter, encode, append, sync, replay}
use agent_aware.Wal.Replay.{encode_all, replay-encode_all, replay-encode_all_append, replay_torn}
use agent_aware.Wal.Appends.{Holds, encode_all-append, All-snoc, given, append_fits, append_torn}

-- A row of appends, those that fail among them.
abbrev pub append_each : WalWriter → List DynamicRecord → WalWriter
append_each w [] = w
append_each w (r ∷ rs) = append_each (append w r).0 rs

-- The bytes of a log, cut at any place, replay to some first records of it.
replay-take :
    (rs : List DynamicRecord) (n : ℕ)
    → All IsStorable rs
    → (k : ℕ) × (replay (take n (encode_all rs)) ≡ take k rs)
replay-take [] n h = (0, ap replay (take_all n [] (omega arith)) ∙ replay-encode_all [] tt)
replay-take (r ∷ rs) n (hr, h) = elim (dec_le (length (encode r)) n) [
  | yes whole ↦
      let (k, e) = replay-take rs (n - length (encode r)) h in
      (
        suc k,
        ap replay (take-append_ge n (encode r) (encode_all rs) whole)
            ∙ ap (λ t. replay (t ++ take (n - length (encode r)) (encode_all rs)))
                (sym (append-nil (encode r)))
            ∙ replay-encode_all_append (r ∷ []) (take (n - length (encode r)) (encode_all rs))
                (hr, tt)
            ∙ ap (λ t. r ∷ t) e,
      )
  | no cut ↦ (
    0,
    ap replay (take-append_le n (encode r) (encode_all rs) (omega arith))
        ∙ replay_torn [] r n tt hr (omega arith),
  )
]

-- The stream after a row of appends: what it was given, and of the records behind it some first bytes.
record IsBehind (w v : WalWriter) (rs more : List DynamicRecord) : Type 0 where
  cut : ℕ
  taken : v.output.written ≡ encode_all rs ++ take cut (encode_all more)
  flushed : v.output.flushed ≡ w.output.flushed
  capacity : v.output.capacity ≡ w.output.capacity

stuck :
    (w : WalWriter) (more : List DynamicRecord)
    → ((q : DynamicRecord) → append w q ≡ (w, false))
    → append_each w more ≡ w
stuck w [] h = refl
stuck w (r ∷ more) h = ap (λ v. append_each v.0 more) (h r) ∙ stuck w more h

abbrev torn_of : WalWriter → DynamicRecord → WalWriter
torn_of w r = record w {
  output = record w.output {
    written = w.output.written ++ take w.output.room (encode r);
    room = 0;
    good = false;
  };
}

take_more : (xs ys : List ℕ) (n : ℕ) → take (length xs + n) (xs ++ ys) ≡ xs ++ take n ys
take_more xs ys n =
    let e : length xs + n - length xs ≡ n = omega arith in
    take-append_ge (length xs + n) xs ys (omega arith) ∙ ap (λ j. xs ++ take j ys) e

appended-IsBehind :
    (w : WalWriter) (rs more : List DynamicRecord)
    → Holds w rs
    → All IsStorable more
    → IsBehind w (append_each w more) rs more
appended-IsBehind w rs [] h s = record {
  cut = 0;
  taken = h.written_is ∙ sym (append-nil (encode_all rs));
  flushed = refl;
  capacity = refl;
}
appended-IsBehind w rs (r ∷ more) h (hr, hs) = elim (dec_le (length (encode r)) w.output.room) [
  | yes fits ↦
      let step : append w r ≡ (given w r, true) = append_fits w rs r h hr fits in
      let held : Holds (given w r) (rs ++ r ∷ []) = record {
        is_open = h.is_open;
        is_good = h.is_good;
        written_is = ap (λ t. t ++ encode r) h.written_is ∙ sym (encode_all-append rs r);
        storable = All-snoc IsStorable rs r h.storable hr;
      } in
      let b = appended-IsBehind (given w r) (rs ++ r ∷ []) more held hs in
      rw step (record {
        cut = length (encode r) + b.cut;
        taken =
            b.taken
            ∙ ap (λ t. t ++ take b.cut (encode_all more)) (encode_all-append rs r)
            ∙ append_assoc (encode_all rs) (encode r) (take b.cut (encode_all more))
            ∙ ap (λ t. encode_all rs ++ t) (sym (take_more (encode r) (encode_all more) b.cut));
        flushed = b.flushed;
        capacity = b.capacity;
      })
  | no full ↦
      let torn : append w r ≡ (torn_of w r, false) = append_torn w rs r h hr (omega arith) in
      let bad : (q : DynamicRecord) → append (torn_of w r) q ≡ (torn_of w r, false) =
        λ q. unfold append in ground (arith, h.is_open) in
      rw (torn, stuck (torn_of w r) more bad)
        (record {
          cut = w.output.room;
          taken =
              ap (λ t. t ++ take w.output.room (encode r)) h.written_is
              ∙ ap (λ t. encode_all rs ++ t)
                  (sym (take-append_le w.output.room (encode r) (encode_all more) (omega arith)));
          flushed = refl;
          capacity = refl;
        })
]

take-take : (j m : ℕ) (xs : List ℕ) → take j (take m xs) ≡ take (min j m) xs
take-take zero m xs = let e : 0 ≡ min 0 m = omega arith in ap (λ i. take i xs) e
take-take (suc j) zero xs = let e : 0 ≡ min (suc j) 0 = omega arith in ap (λ i. take i xs) e
take-take (suc j) (suc m) [] =
    let e : suc (min j m) ≡ min (suc j) (suc m) = omega arith in ap (λ i. take i []) e
take-take (suc j) (suc m) (x ∷ xs) =
    let e : suc (min j m) ≡ min (suc j) (suc m) = omega arith in
    ap (λ t. x ∷ t) (take-take j m xs) ∙ ap (λ i. take i (x ∷ xs)) e

flush_stream-fields :
    (s : Stream)
    → s.good ≡ true
    → ((flush_stream s).written ≡ s.written)
      × ((flush_stream s).flushed ≡ length s.written)
      × ((flush_stream s).capacity ≡ s.capacity)
      × ((flush_stream s).good ≡ leb (length s.written) s.capacity)
unfolding flush_stream
flush_stream-fields s g = rw g (refl, refl, refl, refl)

-- Sync an open writer that was given the log of `synced`. If that succeeds, then after any row of appends of storable
-- records, failed ones among them, what a crash leaves of the file replays to all of `synced` and some first ones
-- of the records behind them: an end of these may be lost, nothing else.
pub replay-unsynced :
    (w : WalWriter) (synced more : List DynamicRecord)
    → Holds w synced
    → (sync w).1 ≡ true
    → All IsStorable more
    → (k : ℕ) × (replay (in_file (append_each (sync w).0 more).output) ≡ synced ++ take k more)
unfolding in_file
replay-unsynced w synced more h ok s =
    let w1 : WalWriter = record w { output = flush_stream w.output } in
    let step : sync w ≡ (w1, (flush_stream w.output).good) =
      unfold sync in ground (arith, h.is_open, h.is_good) in
    let (written, flushed, capacity, good) = flush_stream-fields w.output h.is_good in
    let still : (flush_stream w.output).good ≡ true = sym (ap (λ p. p.1) step) ∙ ok in
    let fits : length w.output.written ≤ w.output.capacity = ground (arith, good, still) in
    let held : Holds w1 synced = record {
      is_open = h.is_open;
      is_good = still;
      written_is = written ∙ h.written_is;
      storable = h.storable;
    } in
    let b : IsBehind w1 (append_each w1 more) synced more =
      appended-IsBehind w1 synced more held s in
    let o : Stream = (append_each w1 more).output in
    let n : ℕ = min o.capacity (max o.flushed (o.passes (length o.written))) in
    let size : length (encode_all synced) ≡ length w.output.written =
      ap length (sym h.written_is) in
    let all : length (encode_all synced) ≤ n =
      omega (arith, b.flushed, b.capacity, flushed, capacity, size, fits) in
    let j : ℕ = n - length (encode_all synced) in
    let (k, e) = replay-take more (min j b.cut) s in
    (
      k,
      ap (λ p. replay (in_file (append_each p.0 more).output)) step
          ∙ ap (λ t. replay (take n t)) b.taken
          ∙ ap replay (take-append_ge n (encode_all synced) (take b.cut (encode_all more)) all)
          ∙ ap (λ t. replay (encode_all synced ++ t)) (take-take j b.cut (encode_all more))
          ∙ replay-encode_all_append synced (take (min j b.cut) (encode_all more)) h.storable
          ∙ ap (λ t. synced ++ t) e,
    )
