-- ===== src/Bytes/Stream.antt =====
-- `std::ofstream` as src/dynamic/wal.cpp and src/dynamic/sstable.cpp use it. A stream buffers: it takes bytes and
-- passes them on to the file when it likes to, at a `flush` or when it is closed. A write that is taken says
-- nothing of the file. How many of `n` bytes that it has taken it has passed on without being told to is the
-- library's choice (`passes`), as is how many more it takes before it notices that its file is full (`room`).
-- The file itself holds `capacity` bytes at most.
use agent_aware.Prelude.{
  ℕ, ◌-◌, min, max, ◌≤◌, ◌<◌, ◌≡◌, Bool, true, false, List, [], ◌∷◌, ◌++◌, append_assoc, append-nil,
  refl, length, length-append, take, take-append_ge, take-append_le, take_all, leb, if◌then◌else◌,
  arith,
}

pub record Stream : Type 0 where
  pub written : List ℕ
  pub flushed : ℕ
  pub room : ℕ
  pub capacity : ℕ
  pub passes : ℕ → ℕ
  pub good : Bool

-- What stands in the file: of the bytes taken, those that were passed on and fit.
unfoldable pub in_file : Stream → List ℕ
in_file s = take (min s.capacity (max s.flushed (s.passes (length s.written)))) s.written

-- `flush()`: all that was taken is passed on, and the stream goes bad if the file does not hold it.
unfoldable pub flush_stream : Stream → Stream
flush_stream s =
    if s.good
    then record s { flushed = length s.written; good = leb (length s.written) s.capacity }
    else s

unfoldable pub write : List ℕ → Stream → Stream
write bytes s =
    if s.good
    then if leb (length bytes) s.room
      then record s { written = s.written ++ bytes; room = s.room - length bytes }
      else record s { written = s.written ++ take s.room bytes; room = 0; good = false }
    else s

-- `output.write(...)` and the test of the stream after it.
unfoldable pub write_ok : List ℕ → Stream → Stream × Bool
unfolding write
write_ok bytes s = let s' = write bytes s in (s', s'.good)

-- `a && b && …` over writes: the first failure ends the row.
unfoldable pub write_all : List (List ℕ) → Stream → Stream × Bool
unfolding write_ok
write_all [] s = (s, true)
write_all (c ∷ cs) s =
    let (s', fits) = write_ok c s in
    let rest = write_all cs s' in if fits then rest else (s', false)

abbrev pub concat : List (List ℕ) → List ℕ
concat [] = []
concat (c ∷ cs) = c ++ concat cs

pub concat-append : (a b : List (List ℕ)) → concat (a ++ b) ≡ concat a ++ concat b
concat-append [] b = refl
concat-append (c ∷ cs) b = rw (concat-append cs b, append_assoc)

-- A row of writes that fits a good stream appends all the bytes.
pub write_all_fits :
    (cs : List (List ℕ)) (s : Stream)
    → s.good ≡ true
    → length (concat cs) ≤ s.room
    → write_all cs s
      ≡ (record s { written = s.written ++ concat cs; room = s.room - length (concat cs) }, true)
unfolding write_all
write_all_fits [] s g h = ground (arith, append-nil s.written)
write_all_fits (c ∷ cs) s g h = ground (
  arith,
  length-append c (concat cs),
  append_assoc s.written c (concat cs),
  write_all_fits cs (record s { written = s.written ++ c; room = s.room - length c }),
)

-- One that does not fit appends a proper prefix of the bytes, fails, and leaves the stream bad.
pub write_all_torn :
    (cs : List (List ℕ)) (s : Stream)
    → s.good ≡ true
    → s.room < length (concat cs)
    → write_all cs s
      ≡ (record s { written = s.written ++ take s.room (concat cs); room = 0; good = false }, false)
unfolding write_all
write_all_torn [] s g h = absurd (omega arith)
write_all_torn (c ∷ cs) s g h = ground (
  arith,
  length-append c (concat cs),
  append_assoc s.written c (take (s.room - length c) (concat cs)),
  take-append_ge s.room c (concat cs),
  take-append_le s.room c (concat cs),
  write_all_torn cs (record s { written = s.written ++ c; room = s.room - length c }),
)

-- A good stream whose file holds all that it took leaves all of it, and its flush goes well.
pub in_file-flush_stream :
    (s : Stream)
    → s.good ≡ true
    → length s.written ≤ s.capacity
    → (in_file (flush_stream s) ≡ s.written) × ((flush_stream s).good ≡ true)
unfolding flush_stream in_file
in_file-flush_stream s g h = rw g (take_all _ s.written (omega (arith, h)), ground (arith, h))
