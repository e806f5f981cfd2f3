-- ===== src/Float64/Parse.antt =====
-- strconv.ParseFloat(s, 64); `none` is its error, out of range included.
use tortureu.Base.{
  ℕ, suc, ◌+◌, ◌-◌, ◌*◌, ◌^◌, String, Bool, true, false, List, [], ◌∷◌, Option, none, some, leb,
  ltb, eqb, not, ◌&&◌, ◌||◌, if◌then◌else◌, pos_part, neg_part, sub_ℕ,
}
use tortureu.Base.Text.{codes, is_digit, matches}
use tortureu.Float64.{Float64, finite, infinite, nan, of_ratio}

-- lower(c), of a letter
abbrev lower : ℕ → ℕ
lower c = if leb b'A' c && leb c b'Z' then c + 32 else c

-- what readFloat's loop over the mantissa has found, and the characters it leaves
pub record Mantissa : Type 0 where
  pub value : ℕ
  pub behind_point : ℕ
  pub saw_digits : Bool
  pub rest : List ℕ

abbrev digit_of : Bool → ℕ → Option ℕ
digit_of hex c =
    if is_digit c
    then some (c - 48)
    else if hex && (leb b'a' (lower c) && leb (lower c) b'f')
    then some (lower c - 87)
    else none

abbrev base_of : Bool → ℕ
base_of hex = if hex then 16 else 10

unfoldable pub mantissa : Bool → Bool → Mantissa → List ℕ → Mantissa
unfolding is_digit
mantissa hex saw_dot m [] = record m { rest = [] }
mantissa hex saw_dot m (c ∷ cs) =
    let skipped = mantissa hex saw_dot m cs in
    let dotted = mantissa hex true m cs in
    let taken = λ (d : ℕ).
      mantissa hex saw_dot
        (record {
          value = m.value * base_of hex + d;
          behind_point = if saw_dot then suc m.behind_point else m.behind_point;
          saw_digits = true;
          rest = [];
        })
        cs in
    let stopped = record m { rest = c ∷ cs } in
    if eqb c b'_'
    then skipped
    else if eqb c b'.'
    then (if saw_dot then stopped else dotted)
    else elim (digit_of hex c) [ some d ↦ taken d | none ↦ stopped ]

-- the digits of the exponent, where it stops growing from 10000 on
unfoldable pub exponent_digits : ℕ → List ℕ → ℕ × List ℕ
unfolding is_digit
exponent_digits e [] = (e, [])
exponent_digits e (c ∷ cs) =
    let skipped = exponent_digits e cs in
    let taken = exponent_digits (if ltb e 10000 then e * 10 + (c - 48) else e) cs in
    if eqb c b'_' then skipped else if is_digit c then taken else (e, c ∷ cs)

abbrev starts_with_digit : List ℕ → Bool
starts_with_digit [] = false
starts_with_digit (c ∷ cs) = is_digit c

-- whether it is negative, and its magnitude
abbrev signed_exponent : List ℕ → Option (Bool × ℕ × List ℕ)
signed_exponent [] = none
signed_exponent (c ∷ cs) =
    let minus = eqb c b'-' in
    let behind = if minus || eqb c b'+' then cs else c ∷ cs in
    if starts_with_digit behind
    then (let (e, rest) = exponent_digits 0 behind in some (minus, e, rest))
    else none

unfoldable pub exponent : Bool → List ℕ → Option (Bool × ℕ × List ℕ)
unfolding exponent_digits is_digit
exponent hex [] = if hex then none else some (false, 0, [])
exponent hex (c ∷ cs) =
    if eqb (lower c) (if hex then b'p' else b'e')
    then signed_exponent cs
    else if hex
    then none
    else some (false, 0, c ∷ cs)

-- underscoreOK behind the sign and the prefix; the flags: a digit came last, an underscore did
unfoldable pub underscores_ok : Bool → Bool → Bool → List ℕ → Bool
unfolding is_digit
underscores_ok hex digit_last underscore_last [] = not underscore_last
underscores_ok hex digit_last underscore_last (c ∷ cs) =
    let digit = is_digit c || hex && (leb b'a' (lower c) && leb (lower c) b'f') in
    let after_digit = underscores_ok hex true false cs in
    let after_underscore = underscores_ok hex false true cs in
    let after_other = underscores_ok hex false false cs in
    if digit
    then after_digit
    else if eqb c b'_'
    then digit_last && after_underscore
    else not underscore_last && after_other

-- m · b^e / b^f
abbrev scaled : ℕ → ℕ → Bool × ℕ → ℕ → Float64
scaled m b (negative, e) f =
    if negative then of_ratio m (b ^ (e + f)) else of_ratio (m * b ^ e) (b ^ f)

abbrev value_of : Bool → ℕ → ℕ → Bool × ℕ → Float64
value_of hex m f e = if hex then scaled m 2 e (4 * f) else scaled m 10 e f

abbrev negated : Bool → Float64 → Float64
negated false x = x
negated true (finite z) = finite (sub_ℕ (neg_part z) (pos_part z))
negated true (infinite sign) = infinite (not sign)
negated true nan = nan

-- ErrRange
abbrev pub in_range : Float64 → Option Float64
in_range (finite z) = some (finite z)
in_range _ = none

abbrev no_digits : Mantissa
no_digits = record { value = 0; behind_point = 0; saw_digits = false; rest = [] }

-- a number behind its sign and its prefix
unfoldable pub unsigned_float : Bool → Bool → List ℕ → Option Float64
unfolding mantissa exponent underscores_ok of_ratio
unsigned_float negative hex cs =
    let m = mantissa hex false no_digits cs in
    if not m.saw_digits then none else elim (exponent hex m.rest) [
      | none ↦ none
      | some (minus, e, []) ↦
          if underscores_ok hex hex false cs
          then in_range (negated negative (value_of hex m.value m.behind_point (minus, e)))
          else none
      | some (minus, e, c ∷ rest) ↦ none
    ]

-- 0x or 0X, with a character behind it
unfoldable pub is_hex : List ℕ → Bool
is_hex (z ∷ x ∷ c ∷ cs) = eqb z b'0' && eqb (lower x) b'x'
is_hex _ = false

abbrev drop_prefix : List ℕ → List ℕ
drop_prefix (z ∷ x ∷ cs) = cs
drop_prefix cs = cs

unfoldable pub number : Bool → List ℕ → Option Float64
unfolding unsigned_float is_hex
number negative cs =
    if is_hex cs
    then unsigned_float negative true (drop_prefix cs)
    else unsigned_float negative false cs

abbrev is_infinity : List ℕ → Bool
is_infinity cs = matches lower cs (codes "inf") || matches lower cs (codes "infinity")

unfoldable pub float_codes : List ℕ → Option Float64
unfolding number matches
float_codes [] = none
float_codes (c ∷ cs) =
    if eqb c b'-' || eqb c b'+'
    then (if is_infinity cs then some (infinite (eqb c b'-')) else number (eqb c b'-') cs)
    else if is_infinity (c ∷ cs)
    then some (infinite false)
    else if matches lower (c ∷ cs) (codes "nan")
    then some nan
    else number false (c ∷ cs)

unfoldable pub parse_float : String → Option Float64
unfolding float_codes
parse_float s = float_codes (codes s)
