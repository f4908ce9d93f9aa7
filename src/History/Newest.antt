-- ===== src/History/Newest.antt =====
-- The linear scan finds the newest version, by a description that is not a scan.
use mathlib.Core.Path.{subst}
use agent_aware.Prelude.{
  ℕ, ◌<◌, ◌≤◌, ◌≡◌, refl, sym, ap, ◌∙◌, true, not, ◌||◌, Option, none, some, List, [], ◌∷◌, ◌++◌,
  All, ltb, ◌==◌, if◌then◌else◌, arith, Bool-cases, inl, inr, ◌⊎◌,
}
use agent_aware.Records.{DynamicRecord}
use agent_aware.History.{latest_scan, unless_deleted, latest_record_from_history}

-- `r` is a member.
abbrev pub Has : DynamicRecord → List DynamicRecord → Type 0
Has r [] = ⊥
Has r (q ∷ qs) = (r ≡ q) ⊎ Has r qs

-- No version of `id` in `rs` at or below `s` is newer than `bound`.
abbrev pub NoneNewer : List DynamicRecord → ℕ → ℕ → ℕ → Type 0
NoneNewer rs id s bound =
    All (λ (q : DynamicRecord). q.node_id ≡ id → q.sequence_id ≤ s → q.sequence_id ≤ bound) rs

-- `o` is the newest version of `id` in `rs` at or below the sequence number `s`.
abbrev pub IsNewest : List DynamicRecord → ℕ → ℕ → Option DynamicRecord → Type 0
IsNewest rs id s none = All (λ (q : DynamicRecord). q.node_id ≡ id → s < q.sequence_id) rs
IsNewest rs id s (some r) =
    Has r rs × (r.node_id ≡ id) × (r.sequence_id ≤ s) × NoneNewer rs id s r.sequence_id

-- The newer of two versions; the first where they are equally new.
unfoldable pub newer : Option DynamicRecord → Option DynamicRecord → Option DynamicRecord
newer none o = o
newer (some q) none = some q
newer (some q) (some r) = if ltb q.sequence_id r.sequence_id then some r else some q

-- A record that counts for `id` at `s`.
unfoldable pub candidate : ℕ → ℕ → DynamicRecord → Option DynamicRecord
candidate id s r = if not (r.node_id == id) || ltb s r.sequence_id then none else some r

pub newer-none : (o : Option DynamicRecord) → newer none o ≡ o
unfolding newer
newer-none o = refl

pub newer_assoc : (a b c : Option DynamicRecord) → newer (newer a b) c ≡ newer a (newer b c)
unfolding newer
newer_assoc none b c = refl
newer_assoc (some a) none c = refl
newer_assoc (some a) (some b) none = ground arith
newer_assoc (some a) (some b) (some c) = ground arith

pub latest_scan_step :
    (r : DynamicRecord) (rs : List DynamicRecord) (id s : ℕ) (latest : Option DynamicRecord)
    → latest_scan (r ∷ rs) id s latest ≡ latest_scan rs id s (newer latest (candidate id s r))
unfolding latest_scan newer candidate
latest_scan_step r rs id s none = ground arith
latest_scan_step r rs id s (some q) = ground arith

pub latest_scan-newer :
    (rs : List DynamicRecord) (id s : ℕ) (latest : Option DynamicRecord)
    → latest_scan rs id s latest ≡ newer latest (latest_scan rs id s none)
latest_scan-newer [] id s none = unfold newer latest_scan in refl
latest_scan-newer [] id s (some q) = unfold newer latest_scan in refl
latest_scan-newer (r ∷ rs) id s latest =
    latest_scan_step r rs id s latest
    ∙ latest_scan-newer rs id s (newer latest (candidate id s r))
    ∙ newer_assoc latest (candidate id s r) (latest_scan rs id s none)
    ∙ ap (newer latest) (
        sym (latest_scan-newer rs id s (candidate id s r))
        ∙ ap (latest_scan rs id s) (sym (newer-none (candidate id s r)))
        ∙ sym (latest_scan_step r rs id s none))

-- The scan of a list, from the scan of its tail.
pub latest_scan-cons :
    (r : DynamicRecord) (rs : List DynamicRecord) (id s : ℕ)
    → latest_scan (r ∷ rs) id s none ≡ newer (candidate id s r) (latest_scan rs id s none)
latest_scan-cons r rs id s =
    latest_scan_step r rs id s none
    ∙ ap (latest_scan rs id s) (newer-none (candidate id s r))
    ∙ latest_scan-newer rs id s (candidate id s r)

pub latest_scan-append :
    (rs qs : List DynamicRecord) (id s : ℕ)
    → latest_scan (rs ++ qs) id s none ≡ newer (latest_scan rs id s none) (latest_scan qs id s none)
latest_scan-append [] qs id s = unfold newer latest_scan in refl
latest_scan-append (r ∷ rs) qs id s =
    latest_scan-cons r (rs ++ qs) id s
    ∙ ap (newer (candidate id s r)) (latest_scan-append rs qs id s)
    ∙ sym (newer_assoc (candidate id s r) (latest_scan rs id s none) (latest_scan qs id s none))
    ∙ ap (λ o. newer o (latest_scan qs id s none)) (sym (latest_scan-cons r rs id s))

NoneNewer-weaken :
    (rs : List DynamicRecord) (id s a b : ℕ) → a ≤ b → NoneNewer rs id s a → NoneNewer rs id s b
NoneNewer-weaken [] id s a b h n = tt
NoneNewer-weaken (r ∷ rs) id s a b h (n, ns) =
    (λ e l. omega (arith, n e l), NoneNewer-weaken rs id s a b h ns)

-- Where every version of `id` is above `s`, none is newer than anything.
NoneNewer-above :
    (rs : List DynamicRecord) (id s b : ℕ) → IsNewest rs id s none → NoneNewer rs id s b
NoneNewer-above [] id s b n = tt
NoneNewer-above (r ∷ rs) id s b (n, ns) =
    (λ e l. absurd (omega (arith, n e)), NoneNewer-above rs id s b ns)

IsNewest-skip :
    (r : DynamicRecord) (rs : List DynamicRecord) (id s : ℕ) (o : Option DynamicRecord)
    → (r.node_id ≡ id → s < r.sequence_id)
    → IsNewest rs id s o
    → IsNewest (r ∷ rs) id s o
IsNewest-skip r rs id s none skip h = (skip, h)
IsNewest-skip r rs id s (some q) skip (has, node, low, best) =
    (inr has, node, low, (λ e l. absurd (omega (arith, skip e)), best))

IsNewest-take :
    (r : DynamicRecord) (rs : List DynamicRecord) (id s : ℕ) (o : Option DynamicRecord)
    → r.node_id ≡ id
    → r.sequence_id ≤ s
    → IsNewest rs id s o
    → IsNewest (r ∷ rs) id s (newer (some r) o)
unfolding newer
IsNewest-take r rs id s none node low h =
    (inl refl, node, low, (λ e l. omega arith, NoneNewer-above rs id s r.sequence_id h))
IsNewest-take r rs id s (some q) node low (has, node', low', best) =
    elim (Bool-cases (ltb r.sequence_id q.sequence_id)) [
      | inl lt ↦ rw lt (inr has, node', low', (λ e l. ground arith, best))
      | inr ge ↦ rw ge (
        inl refl,
        node,
        low,
        (
          λ e l. omega arith,
          NoneNewer-weaken rs id s q.sequence_id r.sequence_id (ground arith) best,
        ),
      )
    ]

IsNewest-step :
    (r : DynamicRecord) (rs : List DynamicRecord) (id s : ℕ) (o : Option DynamicRecord)
    → IsNewest rs id s o
    → IsNewest (r ∷ rs) id s (newer (candidate id s r) o)
unfolding candidate
IsNewest-step r rs id s o rest = elim (Bool-cases (not (r.node_id == id) || ltb s r.sequence_id)) [
  | inl out ↦ rw (out, newer-none o) (IsNewest-skip r rs id s o (λ e. ground arith) rest)
  | inr kept ↦ rw kept (IsNewest-take r rs id s o (ground arith) (ground arith) rest)
]

pub latest_scan-IsNewest :
    (rs : List DynamicRecord) (id s : ℕ) → IsNewest rs id s (latest_scan rs id s none)
latest_scan-IsNewest [] id s = unfold latest_scan in tt
latest_scan-IsNewest (r ∷ rs) id s =
    rw (latest_scan-cons r rs id s)
      (IsNewest-step r rs id s (latest_scan rs id s none) (latest_scan-IsNewest rs id s))

-- `latest_record_from_history` with deleted records included answers with a member of the history
-- that is the newest version of the node at or below the sequence number, and with none only if
-- every version of the node is above it.
pub latest_record-IsNewest :
    (rs : List DynamicRecord) (id s : ℕ)
    → IsNewest rs id s (latest_record_from_history rs id s true)
unfolding latest_record_from_history unless_deleted
latest_record-IsNewest rs id s =
    subst (IsNewest rs id s) (same (latest_scan rs id s none)) (latest_scan-IsNewest rs id s)
  where
    same : (o : Option DynamicRecord) → o ≡ unless_deleted true o
    same none = refl
    same (some r) = ground arith
