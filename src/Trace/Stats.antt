-- ===== src/Trace/Stats.antt =====
-- The latency statistics of one service and operation, and how a chain shows them.
use tortureu.Base.{
  ℕ, suc, ◌-◌, ◌*◌, ◌/◌, ◌%◌, String, Bool, List, [], ◌∷◌, ◌++◌, Option, none, some, ◌==◌, ◌&&◌,
  not, if◌then◌else◌, ℤ, pos, negsuc, pos_part, ltb_ℤ, ltb, eqb, scale, ◌-ℤ◌, length, get_elem?,
}
use tortureu.Base.Text.{concat}
use tortureu.Base.Decimal.{append_text, show}
use tortureu.Float64
use tortureu.Float64.{Float64}
use tortureu.Trace.{Span, Trace}

pub record Stat : Type 0 where
  pub baseline : ℤ
  pub degraded : ℤ
  pub n : ℕ

-- statKey joins the two names with a NUL character: two spans share a key when both names agree, for
-- names without that character
abbrev same_key : Span → Span → Bool
same_key s t = (s.service == t.service) && (s.operation == t.operation)

unfoldable pub durations_in : Span → List Span → List ℤ
durations_in s [] = []
durations_in s (t ∷ ts) = if same_key s t then t.duration ∷ durations_in s ts else durations_in s ts

unfoldable pub durations_of : Span → List Trace → List ℤ
unfolding durations_in
durations_of s [] = []
durations_of s (t ∷ ts) = durations_in s t.spans ++ durations_of s ts

unfoldable pub insert_sorted : ℤ → List ℤ → List ℤ
insert_sorted x [] = x ∷ []
insert_sorted x (y ∷ ys) = if ltb_ℤ y x then y ∷ insert_sorted x ys else x ∷ y ∷ ys

-- sort.Slice
unfoldable pub sort_durations : List ℤ → List ℤ
unfolding insert_sorted
sort_durations [] = []
sort_durations (x ∷ xs) = insert_sorted x (sort_durations xs)

-- ds[i], where an index out of range panics: `none`
unfoldable pub fast_quartile_median : List ℤ → Option ℤ
fast_quartile_median ds =
    let n = if ltb (length ds / 4) 1 then 1 else length ds / 4 in get_elem? ds (n / 2)

-- the index of percentile(ds, 0.95), for a list that is not empty
unfoldable pub percentile_index : ℕ → ℕ
percentile_index n =
    pos_part (Float64.to_int (Float64.mul (Float64.of_ratio 95 100) (Float64.of_int (pos (n - 1)))))

unfoldable pub percentile : List ℤ → Option ℤ
unfolding percentile_index
percentile [] = some (pos 0)
percentile (d ∷ ds) = get_elem? (d ∷ ds) (percentile_index (length (d ∷ ds)))

-- stats[statKey(s)]
unfoldable pub stat_of : List ℤ → Option Stat
unfolding fast_quartile_median percentile
stat_of [] = none
stat_of (d ∷ ds) = elim (fast_quartile_median (d ∷ ds)) [
  | none ↦ none
  | some b ↦ elim (percentile (d ∷ ds)) [
    | none ↦ none
    | some p ↦ some (record { baseline = b; degraded = p; n = length (d ∷ ds) })
  ]
]

unfoldable pub stat_for : List Trace → Span → Option Stat
unfolding stat_of sort_durations durations_of
stat_for traces s = stat_of (sort_durations (durations_of s traces))

unfoldable pub degraded_enough : Stat → Bool
unfolding ◌-ℤ◌
degraded_enough s =
    not (ltb_ℤ s.degraded (scale s.baseline 2))
    && not (ltb_ℤ (s.degraded -ℤ s.baseline) (pos 10000000))

-- %d
abbrev pub show_int : ℤ → String
show_int (pos n) = show n
show_int (negsuc n) = append_text "-" (show (suc n))

abbrev tenths_text : ℕ → String
tenths_text t =
    if eqb (t % 10) 0 then show (t / 10) else concat (show (t / 10) ∷ "." ∷ show (t % 10) ∷ [])

-- the tenths of a finite double, rounded as FormatFloat(x, 'f', 1, 64) does
abbrev tenths : Float64 → ℕ
tenths (Float64.finite z) = Float64.round_half_even (pos_part z * 10) Float64.one
tenths _ = 0

-- below a millisecond a count of microseconds, truncated; else milliseconds with at most one decimal
unfoldable pub format_dur : ℤ → String
format_dur (negsuc n) =
    append_text (if ltb (suc n) 1000 then "" else "-") (append_text (show (suc n / 1000)) "µs")
format_dur (pos n) =
    if ltb n 1000000
    then append_text (show (n / 1000)) "µs"
    else append_text (tenths_text (tenths (Float64.div_nat (Float64.of_int (pos n)) 1000000))) "ms"

unfoldable pub observed : Stat → String
unfolding format_dur
observed s = concat (
    "latency "
    ∷ format_dur s.baseline
    ∷ " -> "
    ∷ format_dur s.degraded
    ∷ " (n="
    ∷ show s.n
    ∷ " spans)"
    ∷ [])
