-- ===== src/Trend.antt =====
-- internal/trend/trend.go: the store of past runs, and the series that `trend show` makes of it.
pub mod Difference
pub mod Baseline
pub mod Project
pub mod Lines
use tortureu.Base.{
  String, Bool, true, false, List, [], ◌∷◌, ◌++◌, contains, if◌then◌else◌, ◌==◌, not, ◌||◌, ◌&&◌, ℤ,
  pos, negsuc, ℕ, zero, suc, ◌+◌, ◌-◌, Dict, lookup, insert, Option, none, some, drop, length,
}
use tortureu.Base.Text.{has_substring}
use tortureu.Float64
use tortureu.Float64.{Float64}
use tortureu.Base.Sort.{sort_strings}

-- the elements of the second list whose key is not set in the map made of the first
unfoldable pub not_among : List String → List String → List String
not_among known [] = []
not_among known (k ∷ ks) =
    let rest = not_among known ks in if contains known k then rest else k ∷ rest

-- the keys that appeared, then those that went away
unfoldable pub diff_findings : List String → List String → List String × List String
diff_findings before after =
    (sort_strings (not_among before after), sort_strings (not_among after before))

pub record Record : Type 0 where
  pub v : ℤ
  pub run_id : String
  pub scenario : String
  pub commit : String
  pub status : String
  pub exit_code : ℤ
  pub started_at : String
  pub duration_s : ℤ
  pub metrics : Dict Float64
  pub findings : List String

abbrev pub anchored : Record → Bool
anchored r = not (r.commit == "")

abbrev pub comparable : Record → Bool
comparable r = (r.status == "pass") || (r.status == "fail")

pub record Skip : Type 0 where
  pub line : ℕ
  pub reason : String

pub record Store : Type 0 where
  pub path : String
  pub records : List Record
  pub skipped : List Skip

pub record Filter : Type 0 where
  pub scenario : String
  pub metric : String
  pub last : ℤ

-- a nil map of deltas is an empty one
pub record Row : Type 0 where
  pub run : Record
  pub is_comparable : Bool
  pub deltas : Dict Float64
  pub new_findings : List String
  pub gone_findings : List String

pub record Report : Type 0 where
  pub path : String
  pub rows : List Row
  pub unanchored : ℕ
  pub skipped : List Skip
  pub metrics : List String
  pub filter : Filter

-- the local variables of the loop, with the rows and the count of the report
pub record Series : Type 0 where
  pub prev : Dict Record
  pub prev_find : Dict (List String)
  pub seen_metric : List String
  pub rows : List Row
  pub unanchored : ℕ

-- for k, now := range rec.Metrics
unfoldable pub deltas_from : Dict Float64 → Dict Float64 → Dict Float64
deltas_from base [] = []
deltas_from base ((k, now) ∷ rest) =
    let others = deltas_from base rest in
    elim (lookup k base) [ none ↦ others | some before ↦ (k, Float64.sub now before) ∷ others ]

-- prevFind[rec.Scenario] of a scenario that has no entry is nil
abbrev pub found : Option (List String) → List String
found none = []
found (some keys) = keys

abbrev pub bare_row : Record → Row
bare_row rec = record {
  run = rec;
  is_comparable = comparable rec;
  deltas = [];
  new_findings = [];
  gone_findings = [];
}

-- the row of a run, from what the two maps have for its scenario
unfoldable pub compared : Record → Option Record → Option (List String) → Row
compared rec none keys = bare_row rec
compared rec (some base) keys = record (bare_row rec) {
  deltas = deltas_from base.metrics rec.metrics;
  new_findings = (diff_findings (found keys) rec.findings).0;
  gone_findings = (diff_findings (found keys) rec.findings).1;
}

-- seenMetric[k] = true, where the key passes the filter
unfoldable pub note_metrics : String → Dict Float64 → List String → List String
note_metrics metric [] seen = seen
note_metrics metric ((k, x) ∷ rest) seen =
    note_metrics metric rest (
      if ((metric == "") || has_substring k metric) && not (contains seen k)
      then k ∷ seen
      else seen)

abbrev pub with_row : Filter → Record → Row → Series → Series
with_row f rec row s = record s {
  rows = s.rows ++ (row ∷ []);
  seen_metric = note_metrics f.metric rec.metrics s.seen_metric;
}

abbrev pub remember : Record → Series → Series
remember rec s = record s {
  prev = insert rec.scenario rec s.prev;
  prev_find = insert rec.scenario rec.findings s.prev_find;
}

-- the body of the loop
unfoldable pub add_record : Filter → Record → Series → Series
add_record f rec s =
    if not (f.scenario == "") && not (rec.scenario == f.scenario)
    then s
    else if not (anchored rec)
    then record s { unanchored = suc s.unanchored }
    else if comparable rec
    then with_row f rec
        (compared rec (lookup rec.scenario s.prev) (lookup rec.scenario s.prev_find))
        (remember rec s)
    else with_row f rec (bare_row rec) s

unfoldable pub add_records : Filter → List Record → Series → Series
add_records f [] s = s
add_records f (rec ∷ rest) s = add_records f rest (add_record f rec s)

abbrev pub no_series : Series
no_series = record { prev = []; prev_find = []; seen_metric = []; rows = []; unanchored = 0 }

-- a slice's last `n` elements, where `n` is positive and there are more of them
unfoldable pub keep_last {ℓ} : {A : Type ℓ} → ℤ → List A → List A
keep_last (pos n) xs = elim n [ zero ↦ xs | suc m ↦ drop (length xs - suc m) xs ]
keep_last (negsuc n) xs = xs

unfoldable pub report : Store → Filter → Report
report store f =
    let s = add_records f store.records no_series in
    record {
      path = store.path;
      rows = keep_last f.last s.rows;
      unanchored = s.unanchored;
      skipped = store.skipped;
      metrics = sort_strings s.seen_metric;
      filter = f;
    }
