-- ===== src/Float64/Show.antt =====
-- strconv.FormatFloat(x, 'g', 6, 64): six significant digits, rounded half to even on the exact value.
use tortureu.Base.{
  ℕ, zero, suc, ◌+◌, ◌-◌, ◌*◌, ◌/◌, ◌%◌, ◌^◌, String, ltb, leb, eqb, if◌then◌else◌, ℤ, pos, negsuc,
  sub_ℕ, [], ◌∷◌,
}
use tortureu.Base.Text.{concat}
use tortureu.Base.Decimal.{append_text, show, digit}
use tortureu.Float64.{Float64, finite, infinite, nan, one, round_half_even}

-- the exponent of the leading digit of a magnitude of at least 1.0, which is below 10^309
unfoldable pub exponent_up : ℕ → ℕ → ℕ
unfolding one
exponent_up zero m = 0
exponent_up (suc fuel) m =
    let more = exponent_up fuel (m / 10) in if ltb m (10 * one) then 0 else suc more

-- how often a magnitude that is not zero is multiplied by ten to reach 1.0, at most 324 times
unfoldable pub exponent_down : ℕ → ℕ → ℕ
unfolding one
exponent_down zero m = 0
exponent_down (suc fuel) m =
    let more = exponent_down fuel (m * 10) in if leb one m then 0 else suc more

-- the six digits as a number and the place of the decimal point, before the carry
abbrev six_digits : ℕ → ℕ × ℤ
six_digits m =
    if leb one m
    then (let x = exponent_up 310 m in
        (
          if leb 5 x
              then round_half_even m (one * 10 ^ (x - 5))
              else round_half_even (m * 10 ^ (5 - x)) one,
          pos (x + 1),
        ))
    else (let k = exponent_down 330 m in (round_half_even (m * 10 ^ (5 + k)) one, sub_ℕ 1 k))

abbrev carried : ℕ × ℤ → ℕ × ℤ
carried (d, pos n) = if eqb d 1000000 then (100000, pos (n + 1)) else (d, pos n)
carried (d, negsuc n) = if eqb d 1000000 then (100000, sub_ℕ 0 n) else (d, negsuc n)

-- without the zeros at the end: what is left and how many digits it has
abbrev stripped : ℕ → ℕ → ℕ × ℕ
stripped zero d = (d, zero)
stripped (suc n) d = let more = stripped n (d / 10) in if eqb (d % 10) 0 then more else (d, suc n)

-- `n` with `w` digits
abbrev padded : ℕ → ℕ → String
padded zero n = ""
padded (suc w) n = append_text (padded w (n / 10)) (digit (n % 10))

abbrev plain : ℕ → ℕ → ℤ → String
plain d nd (pos zero) = append_text "0." (show d)
plain d nd (negsuc n) = concat ("0." ∷ padded (suc n) 0 ∷ show d ∷ [])
plain d nd (pos (suc n)) =
    if leb nd (suc n)
    then show (d * 10 ^ (suc n - nd))
    else concat
        (show (d / 10 ^ (nd - suc n)) ∷ "." ∷ padded (nd - suc n) (d % 10 ^ (nd - suc n)) ∷ [])

abbrev exponent_text : ℤ → String
exponent_text (pos n) = append_text "e+" (if ltb n 10 then padded 2 n else show n)
exponent_text (negsuc n) =
    append_text "e-" (if ltb (suc n) 10 then padded 2 (suc n) else show (suc n))

abbrev scientific : ℕ → ℕ → ℤ → String
scientific d nd e = concat (
    show (d / 10 ^ (nd - 1))
    ∷ (if ltb 1 nd then append_text "." (padded (nd - 1) (d % 10 ^ (nd - 1))) else "")
    ∷ exponent_text e
    ∷ [])

-- the switch between the two forms; the exponent is one less than the place of the point
abbrev shown : ℕ × ℕ → ℤ → String
shown (d, nd) (pos zero) = plain d nd (pos zero)
shown (d, nd) (pos (suc n)) = if leb 6 n then scientific d nd (pos n) else plain d nd (pos (suc n))
shown (d, nd) (negsuc n) =
    if ltb 3 (suc n) then scientific d nd (negsuc (suc n)) else plain d nd (negsuc n)

unfoldable pub show_magnitude : ℕ → String
unfolding exponent_up exponent_down round_half_even show
show_magnitude m =
    let (d, point) = carried (six_digits m) in if eqb m 0 then "0" else shown (stripped 6 d) point

unfoldable pub format_float : Float64 → String
unfolding show_magnitude
format_float (finite (pos n)) = show_magnitude n
format_float (finite (negsuc n)) = append_text "-" (show_magnitude (suc n))
format_float (infinite negative) = if negative then "-Inf" else "+Inf"
format_float nan = "NaN"
