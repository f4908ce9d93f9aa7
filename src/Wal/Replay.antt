-- ===== src/Wal/Replay.antt =====
-- The loop of `replay` on a log that appends wrote, whole or torn.
use agent_aware.Prelude.{
  ℕ, zero, suc, ◌+◌, ◌<◌, ◌≤◌, ◌≡◌, refl, sym, ap, ◌∙◌, none, some, List, [], ◌∷◌, ◌++◌,
  append_assoc, append-nil, length, All, arith, length-append, take, drop, take-append-drop,
  length-drop, Option-cases, inl, inr,
}
use agent_aware.Bytes.{read_value, read_bytes}
use agent_aware.Records.{DynamicRecord, IsStorable}
use agent_aware.Wal.{read_header, encode, read_record, replay_loop, replay}
use agent_aware.Wal.Reads.{read_record-encode, Reads-read_record}

-- A log: the bytes of its records, one after the other.
abbrev pub encode_all : List DynamicRecord → List ℕ
encode_all [] = []
encode_all (r ∷ rs) = encode r ++ encode_all rs

replay_loop-none :
    (fuel : ℕ) (input : List ℕ) → read_record input ≡ none → replay_loop fuel input ≡ []
unfolding replay_loop
replay_loop-none zero input e = refl
replay_loop-none (suc fuel) input e = ground arith

replay_loop_nil : (fuel : ℕ) → replay_loop fuel [] ≡ []
unfolding replay_loop read_record read_header read_value read_bytes
replay_loop_nil zero = refl
replay_loop_nil (suc fuel) = refl

replay_loop-some :
    (fuel : ℕ) (input : List ℕ) (r : DynamicRecord) (rest : List ℕ)
    → read_record input ≡ some (r, rest)
    → replay_loop (suc fuel) input ≡ r ∷ replay_loop fuel rest
unfolding replay_loop
replay_loop-some fuel input r rest e = ground arith

-- From the length of the input on, more fuel changes nothing.
replay_loop_fuel :
    (f g : ℕ) (input : List ℕ)
    → length input ≤ f
    → length input ≤ g
    → replay_loop f input ≡ replay_loop g input
replay_loop_fuel zero zero input hf hg = refl
replay_loop_fuel zero (suc g) [] hf hg = replay_loop_nil zero ∙ sym (replay_loop_nil (suc g))
replay_loop_fuel zero (suc g) (b ∷ bs) hf hg = absurd (omega arith)
replay_loop_fuel (suc f) zero [] hf hg = replay_loop_nil (suc f) ∙ sym (replay_loop_nil zero)
replay_loop_fuel (suc f) zero (b ∷ bs) hf hg = absurd (omega arith)
replay_loop_fuel (suc f) (suc g) input hf hg = elim (Option-cases (read_record input)) [
  | inl e ↦ replay_loop-none (suc f) input e ∙ sym (replay_loop-none (suc g) input e)
  | inr ((r, rest), e) ↦
      let shorter : 41 + length rest ≤ length input = Reads-read_record.shrinks input r rest e in
      replay_loop-some f input r rest e
      ∙ ap (λ t. r ∷ t) (replay_loop_fuel f g rest (omega arith) (omega arith))
      ∙ sym (replay_loop-some g input r rest e)
]

-- The loop with at least as much fuel as there are bytes computes what `replay` does: the fuel
-- that `replay` gives never runs out.
replay_fuel :
    (fuel : ℕ) (input : List ℕ) → length input ≤ fuel → replay_loop fuel input ≡ replay input
unfolding replay
replay_fuel fuel input h = replay_loop_fuel fuel (length input) input h (omega arith)

pub replay-none : (input : List ℕ) → read_record input ≡ none → replay input ≡ []
unfolding replay
replay-none input e = replay_loop-none (length input) input e

pub replay-some :
    (input : List ℕ) (r : DynamicRecord) (rest : List ℕ)
    → read_record input ≡ some (r, rest)
    → replay input ≡ r ∷ replay rest
replay-some input r rest e =
    let shorter : 41 + length rest ≤ length input = Reads-read_record.shrinks input r rest e in
    sym (replay_fuel (suc (length input)) input (omega arith))
    ∙ replay_loop-some (length input) input r rest e
    ∙ ap (λ t. r ∷ t) (replay_fuel (length input) rest (omega arith))

-- What stands behind whole records is replayed as if it were a log of its own.
pub replay-encode_all_append :
    (rs : List DynamicRecord) (tail : List ℕ)
    → All IsStorable rs
    → replay (encode_all rs ++ tail) ≡ rs ++ replay tail
replay-encode_all_append [] tail h = refl
replay-encode_all_append (r ∷ rs) tail (hr, hrs) =
    ap replay (append_assoc (encode r) (encode_all rs) tail)
    ∙ replay-some _ r (encode_all rs ++ tail) (read_record-encode r (encode_all rs ++ tail) hr)
    ∙ ap (λ t. r ∷ t) (replay-encode_all_append rs tail hrs)

replay-nil : replay [] ≡ []
unfolding replay replay_loop
replay-nil = refl

-- Replaying a log of storable records returns those records.
pub replay-encode_all : (rs : List DynamicRecord) → All IsStorable rs → replay (encode_all rs) ≡ rs
replay-encode_all rs h =
    ap replay (sym (append-nil (encode_all rs)))
    ∙ replay-encode_all_append rs [] h
    ∙ ap (λ t. rs ++ t) replay-nil
    ∙ append-nil rs

-- No record is read from a proper prefix of the bytes of one.
read_record-take :
    (n : ℕ) (r : DynamicRecord)
    → IsStorable r
    → n < length (encode r)
    → read_record (take n (encode r)) ≡ none
read_record-take n r h lt = elim (Option-cases (read_record (take n (encode r)))) [
  | inl e ↦ e
  | inr ((q, rest), e) ↦
      let whole : read_record (encode r) ≡ some (q, rest ++ drop n (encode r)) =
        rw take-append-drop at (Reads-read_record.extend _ (drop n (encode r)) q rest e) in
      let exact : read_record (encode r) ≡ some (r, []) =
        rw append-nil at (read_record-encode r [] h) in
      ground (arith, whole, exact, length-drop n (encode r), length-append rest (drop n (encode r)))
]

-- A log of storable records, of which the last is cut short at any byte, replays to the records
-- before it.
pub replay_torn :
    (rs : List DynamicRecord) (r : DynamicRecord) (n : ℕ)
    → All IsStorable rs
    → IsStorable r
    → n < length (encode r)
    → replay (encode_all rs ++ take n (encode r)) ≡ rs
replay_torn rs r n hrs hr lt =
    replay-encode_all_append rs (take n (encode r)) hrs
    ∙ ap (λ t. rs ++ t) (replay-none _ (read_record-take n r hr lt))
    ∙ append-nil rs
