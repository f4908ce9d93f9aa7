-- ===== src/Tests.antt =====
-- Runs of the code on concrete inputs, and the theorems at concrete inputs.
pub mod Pages
pub mod Logs
pub mod Histories
pub mod Searches
pub mod Losses
pub mod Managers
pub mod Crashes
pub mod Caches
use agent_aware.Prelude.{
  ℕ, refl, Option, none, some, List, [], ◌∷◌, ◌+◌, ◌-◌, ◌*◌, true, false, arith,
}
use agent_aware.Records.{DynamicRecord, IsStorable}
use agent_aware.Distance.{FloatOps}

-- Three versions of two nodes, the second a deletion.
abbrev pub first_version : DynamicRecord
first_version = record {
  sequence_id = 1;
  node_id = 7;
  dim = 2;
  vector = 3 ∷ 4 ∷ [];
  neighbors = 2 ∷ [];
  deleted = false;
}

abbrev pub deletion : DynamicRecord
deletion = record {
  sequence_id = 2;
  node_id = 7;
  dim = 0;
  vector = [];
  neighbors = [];
  deleted = true;
}

abbrev pub other_node : DynamicRecord
other_node = record {
  sequence_id = 3;
  node_id = 5;
  dim = 2;
  vector = 1 ∷ 1 ∷ [];
  neighbors = [];
  deleted = false;
}

abbrev pub two_records : List DynamicRecord
two_records = first_version ∷ deletion ∷ []

abbrev pub three_records : List DynamicRecord
three_records = first_version ∷ deletion ∷ other_node ∷ []

pub first_version-IsStorable : IsStorable first_version
first_version-IsStorable = record {
  sequence_fits = omega arith;
  node_fits = omega arith;
  dim_is_size = refl;
  vector_fits = (omega arith, (omega arith, tt));
  neighbors_fit = (omega arith, tt);
  vector_short = omega arith;
  neighbors_short = omega arith;
}

pub deletion-IsStorable : IsStorable deletion
deletion-IsStorable = record {
  sequence_fits = omega arith;
  node_fits = omega arith;
  dim_is_size = refl;
  vector_fits = tt;
  neighbors_fit = tt;
  vector_short = omega arith;
  neighbors_short = omega arith;
}

pub other_node-IsStorable : IsStorable other_node
other_node-IsStorable = record {
  sequence_fits = omega arith;
  node_fits = omega arith;
  dim_is_size = refl;
  vector_fits = (omega arith, (omega arith, tt));
  neighbors_fit = tt;
  vector_short = omega arith;
  neighbors_short = omega arith;
}

-- Whole numbers in place of floats: a difference is the distance of two numbers.
abbrev pub whole : FloatOps
whole = record {
  add = λ a b. a + b;
  sub = λ a b. a - b + (b - a);
  mul = λ a b. a * b;
  rank = λ a. a;
  lanes = 2;
}
