-- ===== src/Fault/Translate/Faulty.antt =====
-- Which values of an inject: are at fault, told by their forms.
use tortureu.Base.{
  ℕ, String, Bool, true, false, List, [], none, some, ◌||◌, ◌&&◌, ◌≡◌, refl, arith, ℤ, pos, negsuc,
  leb, Option-cases, Bool-cases, inl, inr, ◌⊎◌, if◌then◌else◌, Dict, lookup,
}
use tortureu.Base.Text.{codes, decimal, skip_space, fold_case, matches}
use tortureu.Float64
use tortureu.Float64.{Float64}
use tortureu.Float64.Parse.{in_range}
use tortureu.Value.{Value, int, int64, float, str}
use tortureu.Fault.{Error, bad_workers, bad_value}
use tortureu.Fault.Values.{
  rounded, as_int, validate_workers, duration_suffix, parse_duration_text, parse_text_millis,
  parse_float_millis, parse_millis, rate_suffix, parse_rate_text, parse_float_rate, parse_rate_kbps,
  percent_suffix, percent_number, parse_percent,
}

abbrev not_below : ℤ → Bool
not_below (pos n) = leb 1 n
not_below (negsuc n) = false

-- a whole number of at least 1
abbrev pub at_least_one : Value → Bool
at_least_one (int n) = not_below n
at_least_one (int64 n) = not_below n
at_least_one (float x) = Float64.eq x (Float64.trunc x) && not_below (Float64.to_int x)
at_least_one _ = false

abbrev pub is_number : Value → Bool
is_number (int n) = true
is_number (int64 n) = true
is_number (float x) = true
is_number _ = false

-- A text that is no number with one of some suffixes behind it, or whose number no float64 holds.
abbrev pub IsBadText : (List ℕ → Bool) → Value → Type 0
IsBadText suffix (str s) =
    (decimal (codes s) ≡ none)
    ⊎ ((a : ℕ) × (b : ℕ) × (rest : List ℕ) × (decimal (codes s) ≡ some (a, b, rest))
        × ((suffix (skip_space rest) ≡ false) ⊎ (in_range (Float64.of_ratio a b) ≡ none)))
IsBadText suffix _ = Unit

abbrev pub ends_duration : List ℕ → Bool
ends_duration cs =
    matches fold_case cs []
    || (matches fold_case cs (codes "ms") || matches fold_case cs (codes "s"))

abbrev pub ends_rate : List ℕ → Bool
ends_rate cs = matches fold_case cs (codes "mbps") || matches fold_case cs (codes "kbps")

-- A percentage that is none, or one that is not between 0 and 100.
abbrev pub IsOutside : Float64 → Type 0
IsOutside x =
    (Float64.lt x (Float64.of_int (pos 0)) ≡ true)
    ⊎ (Float64.lt (Float64.of_int (pos 100)) x ≡ true)

abbrev pub IsBadPercent : Value → Type 0
IsBadPercent (int n) = IsOutside (Float64.of_int n)
IsBadPercent (int64 n) = IsOutside (Float64.of_int n)
IsBadPercent (float x) = IsOutside x
IsBadPercent (str s) =
    (decimal (codes s) ≡ none)
    ⊎ ((a : ℕ) × (b : ℕ) × (rest : List ℕ) × (decimal (codes s) ≡ some (a, b, rest))
        × ((percent_suffix (skip_space rest) ≡ false) ⊎ IsOutside (Float64.of_ratio a b)))
IsBadPercent _ = Unit

-- the value of a parameter that is a number with a unit
abbrev pub IsBadValue : String → Value → Type 0
IsBadValue field v =
    (((field ≡ "latency") ⊎ (field ≡ "jitter")) × (is_number v ≡ false) × IsBadText ends_duration v)
    ⊎ ((field ≡ "bandwidth") × (is_number v ≡ false) × IsBadText ends_rate v)
    ⊎ ((field ≡ "cpu") × IsBadPercent v)

-- what an error about a value says of the parameters
abbrev pub IsFaulty : Dict Value → Error → Type 0
IsFaulty inject (bad_workers w) = (lookup "workers" inject ≡ some w) × (at_least_one w ≡ false)
IsFaulty inject (bad_value field v) = IsBadValue field v
IsFaulty inject _ = ⊥

-- an error about the value of a parameter
abbrev pub is_value_error : Error → Bool
is_value_error (bad_workers v) = true
is_value_error (bad_value field v) = true
is_value_error _ = false

pub IsFaulty-is_value_error :
    (inject : Dict Value) (e : Error) → IsFaulty inject e → is_value_error e ≡ true
IsFaulty-is_value_error inject (bad_workers v) f = refl
IsFaulty-is_value_error inject (bad_value field v) f = refl
IsFaulty-is_value_error inject _ f = absurd f

pub validate_workers-at_least_one : (w : Value) → validate_workers w ≡ true → at_least_one w ≡ false
unfolding validate_workers as_int
validate_workers-at_least_one (int n) h = ground arith
validate_workers-at_least_one (int64 n) h = ground arith
validate_workers-at_least_one (float x) h = elim (Bool-cases (Float64.eq x (Float64.trunc x))) [
  | inl e ↦ rw e (ground arith)
  | inr e ↦ rw e refl
]
validate_workers-at_least_one _ h = refl

duration_suffix-none : (cs : List ℕ) → duration_suffix cs ≡ none → ends_duration cs ≡ false
unfolding duration_suffix
duration_suffix-none cs h = ground arith

duration_text-IsBadText :
    (s : String) → parse_duration_text (codes s) ≡ none → IsBadText ends_duration (str s)
unfolding parse_duration_text
duration_text-IsBadText s h = elim (Option-cases (decimal (codes s))) [
  | inl n ↦ inl n
  | inr ((a, b, rest), e) ↦ inr (
    a,
    b,
    rest,
    e,
    (elim (Option-cases (duration_suffix (skip_space rest))) [
      | inl n ↦ inl (duration_suffix-none (skip_space rest) n)
      | inr (unit, u) ↦ elim (Option-cases (in_range (Float64.of_ratio a b))) [
        | inl n ↦ inr n
        | inr (x, r) ↦ absurd (let h' = rw (parse_duration_text, e, u, r) at h in cc)
      ]
    ]),
  )
]

pub millis-IsBadText :
    (v : Value) → parse_millis v ≡ none → (is_number v ≡ false) × IsBadText ends_duration v
unfolding parse_millis parse_float_millis parse_text_millis as_int
millis-IsBadText (int n) h = cc
millis-IsBadText (int64 n) h = cc
millis-IsBadText (float x) h = ground arith
millis-IsBadText (str s) h = (refl, duration_text-IsBadText s h)
millis-IsBadText _ h = (refl, tt)

rate_suffix-none : (cs : List ℕ) → rate_suffix cs ≡ none → ends_rate cs ≡ false
unfolding rate_suffix
rate_suffix-none cs h = ground arith

rate_text-IsBadText : (s : String) → parse_rate_text (codes s) ≡ none → IsBadText ends_rate (str s)
unfolding parse_rate_text
rate_text-IsBadText s h = elim (Option-cases (decimal (codes s))) [
  | inl n ↦ inl n
  | inr ((a, b, rest), e) ↦ inr (
    a,
    b,
    rest,
    e,
    (elim (Option-cases (rate_suffix (skip_space rest))) [
      | inl n ↦ inl (rate_suffix-none (skip_space rest) n)
      | inr (unit, u) ↦ elim (Option-cases (in_range (Float64.of_ratio a b))) [
        | inl n ↦ inr n
        | inr (x, r) ↦ absurd (let h' = rw (parse_rate_text, e, u, r) at h in cc)
      ]
    ]),
  )
]

pub rate-IsBadText :
    (v : Value) → parse_rate_kbps v ≡ none → (is_number v ≡ false) × IsBadText ends_rate v
unfolding parse_rate_kbps parse_float_rate as_int
rate-IsBadText (int n) h = cc
rate-IsBadText (int64 n) h = cc
rate-IsBadText (float x) h = ground arith
rate-IsBadText (str s) h = (refl, rate_text-IsBadText s h)
rate-IsBadText _ h = (refl, tt)

outside :
    (x : Float64)
    → (if Float64.lt x (Float64.of_int (pos 0)) || Float64.lt (Float64.of_int (pos 100)) x
        then none
        else some (rounded x))
      ≡ none
    → IsOutside x
outside x h = elim (Bool-cases (Float64.lt x (Float64.of_int (pos 0)))) [
  | inl t ↦ inl t
  | inr f ↦ elim (Bool-cases (Float64.lt (Float64.of_int (pos 100)) x)) [
    | inl t ↦ inr t
    | inr g ↦ absurd (let h' = rw (f, g) at h in cc)
  ]
]

pub percent-IsBadPercent : (v : Value) → parse_percent v ≡ none → IsBadPercent v
unfolding parse_percent percent_number
percent-IsBadPercent (int n) h = outside (Float64.of_int n) h
percent-IsBadPercent (int64 n) h = outside (Float64.of_int n) h
percent-IsBadPercent (float x) h = outside x h
percent-IsBadPercent (str s) h = elim (Option-cases (decimal (codes s))) [
  | inl n ↦ inl n
  | inr ((a, b, rest), e) ↦ inr (
    a,
    b,
    rest,
    e,
    (elim (Bool-cases (percent_suffix (skip_space rest))) [
      | inr f ↦ inl f
      | inl t ↦ inr (outside (Float64.of_ratio a b) (rw (parse_percent, percent_number, e, t) at h))
    ]),
  )
]
percent-IsBadPercent _ h = tt
