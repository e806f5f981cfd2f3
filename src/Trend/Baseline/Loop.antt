-- ===== src/Trend/Baseline/Loop.antt =====
-- The series that Report makes, told without the maps that its loop keeps.
use tortureu.Base.{
  String, Bool, true, List, [], ◌∷◌, ◌++◌, ◌==◌, not, ◌||◌, ◌&&◌, ◌≡◌, ℕ, suc, ◌+◌, arith, eq_iff,
  lookup, lookup-insert, Option, none, some, if◌then◌else◌, ◌∙◌, sym, ℤ, pos, negsuc, zero, ◌≤◌,
  length, contains, ◌⊎◌,
}
use mathlib.Core.List.{append-nil, append_assoc}
use tortureu.Float64
use tortureu.Float64.{Float64}
use tortureu.Trend.{
  Record, Row, Filter, Series, comparable, compared, bare_row, add_record, add_records,
}

abbrev pub has_commit : Record → Bool
has_commit r = not (r.commit == "")

abbrev pub was_evaluated : Record → Bool
was_evaluated r = (r.status == "pass") || (r.status == "fail")

abbrev pub selected : Filter → String → Bool
selected f scenario = (f.scenario == "") || (scenario == f.scenario)

-- the last run of a scenario that can be compared, where the latest run comes first
abbrev pub last_comparable : String → List Record → Option Record
last_comparable scenario [] = none
last_comparable scenario (r ∷ before) =
    if has_commit r && (was_evaluated r && (r.scenario == scenario))
    then some r
    else last_comparable scenario before

abbrev pub keys_of : Option Record → Option (List String)
keys_of none = none
keys_of (some r) = some r.findings

abbrev pub row_after : List Record → Record → Row
row_after before r =
    let base = last_comparable r.scenario before in
    if comparable r then compared r base (keys_of base) else bare_row r

abbrev pub rows_after : Filter → List Record → List Record → List Row
rows_after f before [] = []
rows_after f before (r ∷ rest) =
    let others = rows_after f (r ∷ before) rest in
    if selected f r.scenario && has_commit r then row_after before r ∷ others else others

abbrev pub anchorless : Filter → List Record → ℕ
anchorless f [] = 0
anchorless f (r ∷ rest) =
    let others = anchorless f rest in
    if selected f r.scenario && not (has_commit r) then suc others else others

pub record IsCurrent (f : Filter) (before : List Record) (s : Series) : Type 0 where
  pub runs : (c : String) → selected f c ≡ true → lookup c s.prev ≡ last_comparable c before
  pub keys :
      (c : String) → selected f c ≡ true → lookup c s.prev_find ≡ keys_of (last_comparable c before)

add_record-IsCurrent :
    (f : Filter) (before : List Record) (r : Record) (s : Series)
    → IsCurrent f before s
    → IsCurrent f (r ∷ before) (add_record f r s)
unfolding add_record
add_record-IsCurrent f before r s cur = record {
  runs = λ c sel. ground (
    arith,
    eq_iff r.scenario c,
    eq_iff r.scenario f.scenario,
    eq_iff c f.scenario,
    lookup-insert r.scenario c r s.prev,
    cur.runs c sel,
  );
  keys = λ c sel. ground (
    arith,
    eq_iff r.scenario c,
    eq_iff r.scenario f.scenario,
    eq_iff c f.scenario,
    lookup-insert r.scenario c r.findings s.prev_find,
    cur.keys c sel,
  );
}

-- what one record adds to the rows
add_record-row :
    (f : Filter) (before recs : List Record) (r : Record) (s : Series)
    → IsCurrent f before s
    → (add_record f r s).rows ++ rows_after f (r ∷ before) recs
      ≡ s.rows ++ rows_after f before (r ∷ recs)
unfolding add_record
add_record-row f before recs r s cur = ground (
  arith,
  cur.runs r.scenario,
  cur.keys r.scenario,
  append_assoc s.rows (row_after before r ∷ []) (rows_after f (r ∷ before) recs),
)

-- and to the count
add_record-count :
    (f : Filter) (recs : List Record) (r : Record) (s : Series)
    → (add_record f r s).unanchored + anchorless f recs ≡ s.unanchored + anchorless f (r ∷ recs)
unfolding add_record
add_record-count f recs r s = ground arith

-- the rows and the count when the loop is over
pub add_records-rows :
    (f : Filter) (before recs : List Record) (s : Series)
    → IsCurrent f before s
    → ((add_records f recs s).rows ≡ s.rows ++ rows_after f before recs)
      × ((add_records f recs s).unanchored ≡ s.unanchored + anchorless f recs)
unfolding add_records
add_records-rows f before [] s cur = (sym (append-nil s.rows), omega arith)
add_records-rows f before (r ∷ recs) s cur =
    let (rows, count) =
      add_records-rows f (r ∷ before) recs (add_record f r s)
        (add_record-IsCurrent f before r s cur) in
    (rows ∙ add_record-row f before recs r s cur, count ∙ add_record-count f recs r s)

-- how much a metric has changed, where both runs have it
abbrev pub change : Option Float64 → Option Float64 → Option Float64
change (some before) (some now) = some (Float64.sub now before)
change _ _ = none

-- what a row says of a run, by the run that it is compared with, if there is one
abbrev pub IsRowOf : Record → Option Record → Row → Type 0
IsRowOf r none row =
    (row.run ≡ r)
    × (row.is_comparable ≡ was_evaluated r)
    × (row.deltas ≡ [])
    × (row.new_findings ≡ [])
    × (row.gone_findings ≡ [])
IsRowOf r (some base) row =
    (row.run ≡ r)
    × (row.is_comparable ≡ was_evaluated r)
    × ((k : String) → lookup k row.deltas ≡ change (lookup k base.metrics) (lookup k r.metrics))
    × ((k : String)
        → contains row.new_findings k ≡ (contains r.findings k && not (contains base.findings k)))
    × ((k : String)
        → contains row.gone_findings k ≡ (contains base.findings k && not (contains r.findings k)))

-- the run that a run is compared with: none, when it has not been evaluated itself
abbrev pub baseline : List Record → Record → Option Record
baseline before r = if was_evaluated r then last_comparable r.scenario before else none

-- the rows of the runs that the filter chooses and that have a commit, in order
abbrev pub AreRows : Filter → List Record → List Record → List Row → Type 0
AreRows f before [] rows = rows ≡ []
AreRows f before (r ∷ rest) rows =
    if selected f r.scenario && has_commit r
    then ((row : Row) × (others : List Row) × (rows ≡ row ∷ others)
        × IsRowOf r (baseline before r) row
        × AreRows f (r ∷ before) rest others)
    else AreRows f (r ∷ before) rest rows

-- what is left of some rows: the last ones, as many as the filter says, or all where it says none or
-- more than there are
abbrev pub AreLast : ℤ → List Row → List Row → Type 0
AreLast (negsuc n) rows kept = kept ≡ rows
AreLast (pos zero) rows kept = kept ≡ rows
AreLast (pos (suc m)) rows kept =
    ((length rows ≤ suc m) × (kept ≡ rows))
    ⊎ ((length kept ≡ suc m) × ((dropped : List Row) × (rows ≡ dropped ++ kept)))
