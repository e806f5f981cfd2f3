-- ===== src/Fault/Values.antt =====
-- The number formats of an inject: value: milliseconds, rates, percentages, workers.
use tortureu.Base.{
  ℕ, Bool, true, List, [], ◌∷◌, Option, none, some, ◌||◌, ℤ, pos, ltb_ℤ, if◌then◌else◌,
}
use tortureu.Base.Text.{codes, decimal, skip_space, fold_case, to_lower, matches}
use tortureu.Float64
use tortureu.Float64.{Float64}
use tortureu.Float64.Parse.{in_range}
use tortureu.Value.{Value, int, int64, float, str}

unfoldable pub as_int : Value → Option ℤ
as_int (int n) = some n
as_int (int64 n) = some n
as_int (float x) = if Float64.eq x (Float64.trunc x) then some (Float64.to_int x) else none
as_int _ = none

-- `true` is the error: workers must be a whole number of at least 1
unfoldable pub validate_workers : Value → Bool
unfolding as_int
validate_workers v = elim (as_int v) [ none ↦ true | some n ↦ ltb_ℤ n (pos 1) ]

-- int(math.Round(x))
unfoldable pub rounded : Float64 → ℤ
rounded x = Float64.to_int (Float64.round x)

pub data Suffix : Type 0 where
  plain milliseconds seconds : Suffix

-- `\s*(ms|s)?$`, case-insensitive
unfoldable pub duration_suffix : List ℕ → Option Suffix
duration_suffix cs =
    if matches fold_case cs []
    then some plain
    else if matches fold_case cs (codes "ms")
    then some milliseconds
    else if matches fold_case cs (codes "s")
    then some seconds
    else none

unfoldable pub scaled : Suffix → Float64 → Float64
scaled seconds x = Float64.mul x (Float64.of_int (pos 1000))
scaled _ x = x

-- durationPattern, strconv.ParseFloat with its ErrRange, and the arithmetic behind them, for a text
unfoldable pub parse_duration_text : List ℕ → Option ℤ
parse_duration_text cs = elim (decimal cs) [
  | none ↦ none
  | some (a, b, rest) ↦ elim (duration_suffix (skip_space rest)) [
    | none ↦ none
    | some unit ↦ elim (in_range (Float64.of_ratio a b)) [
      | none ↦ none
      | some x ↦ some (rounded (scaled unit x))
    ]
  ]
]

unfoldable pub parse_text_millis : Value → Option ℤ
parse_text_millis (str s) = parse_duration_text (codes s)
parse_text_millis _ = none

unfoldable pub parse_float_millis : Value → Option ℤ
parse_float_millis (float x) = some (rounded x)
parse_float_millis v = parse_text_millis v

-- `none` is the error that names the fault, the field and the value
unfoldable pub parse_millis : Value → Option ℤ
parse_millis v = elim (as_int v) [ some n ↦ some n | none ↦ parse_float_millis v ]

pub data RateSuffix : Type 0 where
  mbps kbps other : RateSuffix

-- `\s*(mbps|kbps)$`, case-insensitive; the switch behind it reads the suffix by strings.ToLower,
-- which has no `mbps` for a match that was written with a long s
unfoldable pub rate_suffix : List ℕ → Option RateSuffix
rate_suffix cs =
    if matches fold_case cs (codes "mbps") || matches fold_case cs (codes "kbps")
    then (if matches to_lower cs (codes "mbps")
        then some mbps
        else if matches to_lower cs (codes "kbps")
        then some kbps
        else some other)
    else none

-- bits/s to KB/s
unfoldable pub to_kbytes : RateSuffix → Float64 → Float64
to_kbytes mbps x =
    Float64.div_nat (Float64.div_nat (Float64.mul x (Float64.of_int (pos 1000000))) 8) 1000
to_kbytes kbps x =
    Float64.div_nat (Float64.div_nat (Float64.mul x (Float64.of_int (pos 1000))) 8) 1000
to_kbytes other x = x

unfoldable pub parse_rate_text : List ℕ → Option ℤ
parse_rate_text cs = elim (decimal cs) [
  | none ↦ none
  | some (a, b, rest) ↦ elim (rate_suffix (skip_space rest)) [
    | none ↦ none
    | some suffix ↦ elim (in_range (Float64.of_ratio a b)) [
      | none ↦ none
      | some x ↦ some (rounded (to_kbytes suffix x))
    ]
  ]
]

unfoldable pub parse_float_rate : Value → Option ℤ
parse_float_rate (float x) = some (rounded x)
parse_float_rate (str s) = parse_rate_text (codes s)
parse_float_rate _ = none

unfoldable pub parse_rate_kbps : Value → Option ℤ
parse_rate_kbps v = elim (as_int v) [ some n ↦ some n | none ↦ parse_float_rate v ]

-- `\s*%?$`
unfoldable pub percent_suffix : List ℕ → Bool
percent_suffix cs = matches (λ c. c) cs [] || matches (λ c. c) cs (b'%' ∷ [])

unfoldable pub percent_number : Value → Option Float64
percent_number (int n) = some (Float64.of_int n)
percent_number (int64 n) = some (Float64.of_int n)
percent_number (float x) = some x
percent_number (str s) = elim (decimal (codes s)) [
  | none ↦ none
  | some (a, b, rest) ↦
      if percent_suffix (skip_space rest) then some (Float64.of_ratio a b) else none
]
percent_number _ = none

unfoldable pub parse_percent : Value → Option ℤ
parse_percent v = elim (percent_number v) [
  | none ↦ none
  | some n ↦
      if Float64.lt n (Float64.of_int (pos 0)) || Float64.lt (Float64.of_int (pos 100)) n
      then none
      else some (rounded n)
]
