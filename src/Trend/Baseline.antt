-- ===== src/Trend/Baseline.antt =====
-- The report on a series of runs: its rows, and which of them are kept.
pub mod Loop
use tortureu.Base.{
  String, Bool, true, List, [], ◌∷◌, ◌++◌, ◌==◌, not, ◌||◌, ◌&&◌, ◌≡◌, refl, ℕ, suc, ◌+◌, arith,
  eq_iff, lookup, lookup-insert, Option, none, some, if◌then◌else◌, ◌∙◌, ap, sym, Dict, ℤ, pos,
  negsuc, zero, ◌≤◌, ◌-◌, length, drop, leb, contains, ◌⊎◌, inl, inr, Bool-cases, Option-cases,
  false,
}
use mathlib.Core.Path.{subst}
use mathlib.Core.List.{append-nil, append_assoc}
use tortureu.Float64
use tortureu.Float64.{Float64}
use tortureu.Trend.Difference.{contains-diff_findings}
use tortureu.Trend.{
  deltas_from, Record, Row, Filter, Series, Store, comparable, compared, bare_row, add_record,
  add_records, no_series, keep_last, report,
}
use tortureu.Trend.Baseline.Loop.{
  AreLast, AreRows, IsRowOf, add_records-rows, anchorless, baseline, change, has_commit, keys_of,
  last_comparable, row_after, rows_after, selected, was_evaluated,
}

append-drop : (n : ℕ) (rows : List Row) → (dropped : List Row) × (rows ≡ dropped ++ drop n rows)
append-drop zero rows = ([], refl)
append-drop (suc n) [] = ([], refl)
append-drop (suc n) (row ∷ rows) =
    let (dropped, e) = append-drop n rows in (row ∷ dropped, ap (λ l. row ∷ l) e)

length-drop : (n : ℕ) (rows : List Row) → length (drop n rows) ≡ length rows - n
length-drop zero rows = omega arith
length-drop (suc n) [] = omega arith
length-drop (suc n) (row ∷ rows) = omega (arith, length-drop n rows)

drop-zero : (n : ℕ) (rows : List Row) → n ≡ 0 → drop n rows ≡ rows
drop-zero zero rows e = refl
drop-zero (suc n) rows e = absurd (omega arith)

keep_last-AreLast : (n : ℤ) (rows : List Row) → AreLast n rows (keep_last n rows)
unfolding keep_last
keep_last-AreLast (negsuc n) rows = refl
keep_last-AreLast (pos zero) rows = refl
keep_last-AreLast (pos (suc m)) rows = elim (Bool-cases (leb (length rows) (suc m))) [
  | inl few ↦ inl (ground arith, drop-zero (length rows - suc m) rows (ground arith))
  | inr many ↦
      let (dropped, e) = append-drop (length rows - suc m) rows in
      let left = length-drop (length rows - suc m) rows in inr (ground (arith, left), (dropped, e))
]

lookup-deltas_from :
    (base metrics : Dict Float64) (k : String)
    → lookup k (deltas_from base metrics) ≡ change (lookup k base) (lookup k metrics)
unfolding deltas_from
lookup-deltas_from base [] k = elim (Option-cases (lookup k base)) [
  | inl n ↦ rw n refl
  | inr (b, n) ↦ rw n refl
]
lookup-deltas_from base ((j, now) ∷ rest) k = elim (Option-cases (lookup j base)) [
  | inl n ↦ elim (Bool-cases (j == k)) [
    | inl same ↦
        let e : lookup k base ≡ none = subst (λ c. lookup c base ≡ none) ((eq_iff j k).0 same) n in
        let ih = lookup-deltas_from base rest k in rw (deltas_from, n, same, e) (rw e at ih)
    | inr other ↦ rw (deltas_from, n, other) (lookup-deltas_from base rest k)
  ]
  | inr (b, n) ↦ elim (Bool-cases (j == k)) [
    | inl same ↦
        let e : lookup k base ≡ some b =
          subst (λ c. lookup c base ≡ some b) ((eq_iff j k).0 same) n in
        rw (deltas_from, n, same, e) refl
    | inr other ↦ rw (deltas_from, n, other) (lookup-deltas_from base rest k)
  ]
]

compared-IsRowOf :
    (r : Record) (base : Option Record) → IsRowOf r base (compared r base (keys_of base))
unfolding compared
compared-IsRowOf r none = (refl, refl, refl, refl, refl)
compared-IsRowOf r (some base) = (
  refl,
  refl,
  lookup-deltas_from base.metrics r.metrics,
  (λ k. (contains-diff_findings base.findings r.findings k).0),
  (λ k. (contains-diff_findings base.findings r.findings k).1),
)

row_after-IsRowOf :
    (before : List Record) (r : Record) → IsRowOf r (baseline before r) (row_after before r)
row_after-IsRowOf before r = by_status (was_evaluated r)
  where
    by_status :
        (b : Bool)
        → IsRowOf r (if b then last_comparable r.scenario before else none) (
            if b
            then compared r
                (last_comparable r.scenario before)
                (keys_of (last_comparable r.scenario before))
            else bare_row r)
    by_status true = compared-IsRowOf r (last_comparable r.scenario before)
    by_status false = (refl, refl, refl, refl, refl)

rows_after-AreRows :
    (f : Filter) (before recs : List Record) → AreRows f before recs (rows_after f before recs)
rows_after-AreRows f before [] = refl
rows_after-AreRows f before (r ∷ rest) =
    by_choice (selected f r.scenario && has_commit r) (rows_after-AreRows f (r ∷ before) rest)
  where
    by_choice :
        (b : Bool)
        → AreRows f (r ∷ before) rest (rows_after f (r ∷ before) rest)
        → let rows : List Row =
            (if b
              then row_after before r ∷ rows_after f (r ∷ before) rest
              else rows_after f (r ∷ before) rest) in
          if b
          then ((row : Row) × (later : List Row) × (rows ≡ row ∷ later)
              × IsRowOf r (baseline before r) row
              × AreRows f (r ∷ before) rest later)
          else AreRows f (r ∷ before) rest rows
    by_choice true later = (
      row_after before r,
      rows_after f (r ∷ before) rest,
      refl,
      row_after-IsRowOf before r,
      later,
    )
    by_choice false later = later

-- Report lists the runs of the chosen scenario that have a commit, in the order of the store, and counts
-- those that have none; of these rows it keeps the last ones, as many as the filter says. A run that
-- passed or failed is compared with the last such run before it of its own scenario that has a commit,
-- whatever the filter chooses: its deltas are the differences of the metrics that both have, and its new
-- and gone findings are those that only the one has and that only the other has. Any other run is compared
-- with nothing, and changes nothing for the runs behind it.
pub report-rows :
    (store : Store) (f : Filter)
    → (rows : List Row) × AreRows f [] store.records rows
      × AreLast f.last rows (report store f).rows
      × ((report store f).unanchored ≡ anchorless f store.records)
unfolding report
report-rows store f =
    let (rows, count) =
      add_records-rows f [] store.records no_series
        (record { runs = λ c sel. refl; keys = λ c sel. refl }) in
    (
      rows_after f [] store.records,
      rows_after-AreRows f [] store.records,
      subst (λ rs. AreLast f.last (rows_after f [] store.records) rs)
          (ap (keep_last f.last) (sym rows))
          (keep_last-AreLast f.last (rows_after f [] store.records)),
      omega (arith, count),
    )
