-- ===== src/Duration.antt =====
-- time.ParseDuration of Go's standard library, in nanoseconds; `none` is its error.
pub mod Fuel
use tortureu.Base.{
  ℕ, zero, suc, ◌+◌, ◌*◌, ◌-◌, ◌/◌, ◌%◌, ◌^◌, String, Bool, true, false, List, [], ◌∷◌, Option,
  none, some, ltb, leb, eqb, not, ◌&&◌, ◌||◌, if◌then◌else◌, ℤ, pos, pos_part, sub_ℕ, length,
}
use tortureu.Base.Text.{codes, is_digit, digits, matches}
use tortureu.Float64

-- unitMap: the two ways to write a micro sign are two keys
unfoldable pub unit_of : List ℕ → Option ℕ
unit_of u =
    if matches (λ c. c) u (codes "ns")
    then some 1
    else if matches (λ c. c) u (codes "us")
        || matches (λ c. c) u (0xb5 ∷ b's' ∷ [])
        || matches (λ c. c) u (0x3bc ∷ b's' ∷ [])
    then some 1000
    else if matches (λ c. c) u (codes "ms")
    then some 1000000
    else if matches (λ c. c) u (codes "s")
    then some 1000000000
    else if matches (λ c. c) u (codes "m")
    then some 60000000000
    else if matches (λ c. c) u (codes "h")
    then some 3600000000000
    else none

-- leadingFraction: the value, the number of digits in its scale, whether a digit was read, the rest
unfoldable pub leading_fraction : Bool → ℕ → ℕ → Bool → List ℕ → ℕ × ℕ × Bool × List ℕ
unfolding is_digit
leading_fraction full x n seen [] = (x, n, seen, [])
leading_fraction full x n seen (c ∷ cs) =
    let y = x * 10 + (c - 48) in
    let stop = full || ltb ((2 ^ 63 - 1) / 10) x || ltb (2 ^ 63) y in
    let skipped = leading_fraction true x n true cs in
    let taken = leading_fraction false y (suc n) true cs in
    if is_digit c then (if stop then skipped else taken) else (x, n, seen, c ∷ cs)

-- the characters of a unit, up to a dot or a digit
unfoldable pub take_unit : List ℕ → List ℕ × List ℕ
unfolding is_digit
take_unit [] = ([], [])
take_unit (c ∷ cs) =
    let (u, rest) = take_unit cs in if eqb c b'.' || is_digit c then ([], c ∷ cs) else (c ∷ u, rest)

-- the optional `.` with its digits
unfoldable pub fraction_part : List ℕ → ℕ × ℕ × Bool × List ℕ
unfolding leading_fraction
fraction_part [] = (0, 0, false, [])
fraction_part (c ∷ cs) =
    if eqb c b'.' then leading_fraction false 0 0 false cs else (0, 0, false, c ∷ cs)

-- the nanoseconds of one number with its unit
unfoldable pub term_value : ℕ → ℕ → ℕ → ℕ → Option ℕ
term_value v f n unit =
    let part =
      if eqb f 0
      then 0
      else pos_part (
          Float64.to_int (
            Float64.mul (Float64.of_int (pos f))
              (Float64.div_nat (Float64.of_int (pos unit)) (10 ^ n)))) in
    if ltb (2 ^ 63 / unit) v || ltb (2 ^ 63) (v * unit + part) then none else some (v * unit + part)

-- one round of the loop
unfoldable pub term : List ℕ → Option (ℕ × List ℕ)
unfolding digits fraction_part take_unit term_value unit_of
term cs =
    let (v, before, rest) = digits 0 0 cs in
    let (f, n, after, rest2) = fraction_part rest in
    let (u, rest3) = take_unit rest2 in
    if ltb (2 ^ 63) v || (eqb before 0 && not after) then none else elim (unit_of u) [
      | none ↦ none
      | some unit ↦ elim (term_value v f n unit) [ none ↦ none | some t ↦ some (t, rest3) ]
    ]

-- the loop; the sum is a uint64
unfoldable pub terms : ℕ → ℕ → List ℕ → Option ℕ
terms fuel d [] = some d
terms zero d (c ∷ cs) = none
terms (suc fuel) d (c ∷ cs) = elim (term (c ∷ cs)) [
  | none ↦ none
  | some (t, rest) ↦
      let d' = (d + t) % 2 ^ 64 in
      let more = terms fuel d' rest in if ltb (2 ^ 63) d' then none else more
]

unfoldable pub signed_duration : Bool → Option ℕ → Option ℤ
signed_duration negative none = none
signed_duration negative (some d) =
    if negative then some (sub_ℕ 0 d) else if ltb (2 ^ 63 - 1) d then none else some (pos d)

-- behind the sign
unfoldable pub unsigned_codes : Bool → List ℕ → Option ℤ
unfolding terms signed_duration
unsigned_codes negative [] = none
unsigned_codes negative (c ∷ cs) =
    if matches (λ d. d) (c ∷ cs) (b'0' ∷ [])
    then some (pos 0)
    else signed_duration negative (terms (length (c ∷ cs)) 0 (c ∷ cs))

unfoldable pub duration_codes : List ℕ → Option ℤ
unfolding unsigned_codes
duration_codes [] = none
duration_codes (c ∷ cs) =
    if eqb c b'-'
    then unsigned_codes true cs
    else if eqb c b'+'
    then unsigned_codes false cs
    else unsigned_codes false (c ∷ cs)

unfoldable pub parse_duration : String → Option ℤ
unfolding duration_codes
parse_duration s = duration_codes (codes s)
