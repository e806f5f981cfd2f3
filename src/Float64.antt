-- ===== src/Float64.antt =====
-- Go's float64, exactly. A finite double is a whole multiple of 2^-1074, and `finite z` is the
-- double z / 2^1074; the sign of a zero is not kept. Operations round to nearest, ties to even.
pub mod Parse
pub mod Show
use tortureu.Base.{
  ℕ, zero, suc, ◌+◌, ◌-◌, ◌*◌, ◌/◌, ◌%◌, ◌^◌, Bool, true, false, ltb, leb, eqb, if◌then◌else◌, ℤ,
  pos, negsuc, pos_part, neg_part, sub_ℕ, ltb_ℤ, eqb_ℤ, ◌-ℤ◌, ◌+ℤ◌,
}

pub data Float64 : Type 0 where
  finite : ℤ → Float64
  infinite : Bool → Float64  -- the flag is the sign
  nan : Float64

-- 1.0, counted in units of 2^-1074
unfoldable pub one : ℕ
one = 2 ^ 1074

-- the first magnitude that is no longer a finite double, 2^1024
unfoldable pub too_large : ℕ
too_large = 2 ^ 2098

-- the number of binary digits; the fuel bounds the answer, and the quotients below have fewer than
-- 4300 digits
bits : ℕ → ℕ → ℕ
bits zero n = 0
bits (suc f) n = let rest = bits f (n / 2) in if eqb n 0 then 0 else suc rest

unfoldable pub round_half_even : ℕ → ℕ → ℕ
round_half_even n d =
    let q = n / d in
    let r = n % d in if ltb (r + r) d then q else if ltb d (r + r) then q + 1 else q + q % 2

-- the magnitude of the double nearest to a / b units of 2^-1074, with 53 significant digits
nearest : ℕ → ℕ → ℕ
unfolding bits round_half_even
nearest a b = let ulp = 2 ^ (bits 4300 (a / b) - 53) in round_half_even a (b * ulp) * ulp

signed : Bool → ℕ → Float64
unfolding too_large
signed negative m =
    if leb too_large m then infinite negative else finite (if negative then sub_ℕ 0 m else pos m)

abbrev is_negative : ℤ → Bool
is_negative (pos n) = false
is_negative (negsuc n) = true

abbrev magnitude : ℤ → ℕ
magnitude z = pos_part z + neg_part z

-- float64(n) of an int
unfoldable pub of_int : ℤ → Float64
unfolding nearest signed one
of_int z = signed (is_negative z) (nearest (magnitude z * one) 1)

-- a / b as a constant or as `strconv.ParseFloat` reads a decimal
unfoldable pub of_ratio : ℕ → ℕ → Float64
unfolding nearest signed one
of_ratio a b = signed false (nearest (a * one) b)

-- x < y: false whenever one of them is NaN
unfoldable pub lt : Float64 → Float64 → Bool
lt (finite a) (finite b) = ltb_ℤ a b
lt (finite a) (infinite negative) = if negative then false else true
lt (infinite negative) (finite b) = negative
lt (infinite true) (infinite false) = true
lt _ _ = false

-- x == y
unfoldable pub eq : Float64 → Float64 → Bool
eq (finite a) (finite b) = eqb_ℤ a b
eq (infinite true) (infinite true) = true
eq (infinite false) (infinite false) = true
eq _ _ = false

abbrev pub le : Float64 → Float64 → Bool
unfolding lt eq
le a b = if lt a b then true else eq a b

-- math.Trunc
unfoldable pub trunc : Float64 → Float64
unfolding one
trunc (finite (pos n)) = finite (pos (n / one * one))
trunc (finite (negsuc n)) = finite (sub_ℕ 0 (suc n / one * one))
trunc x = x

-- math.Round: half away from zero
unfoldable pub round : Float64 → Float64
unfolding one
round (finite (pos n)) = finite (pos ((n + n + one) / (one + one) * one))
round (finite (negsuc n)) = finite (sub_ℕ 0 ((suc n + suc n + one) / (one + one) * one))
round x = x

abbrev pub min_int : ℤ
min_int = sub_ℕ 0 (2 ^ 63)

-- a value that does not fit int64 becomes the smallest one, as the amd64 instruction answers
abbrev fit_int : ℤ → ℤ
fit_int (pos n) = if ltb n (2 ^ 63) then pos n else min_int
fit_int (negsuc n) = if ltb n (2 ^ 63) then negsuc n else min_int

-- int(x)
unfoldable pub to_int : Float64 → ℤ
unfolding one
to_int (finite (pos n)) = fit_int (pos (n / one))
to_int (finite (negsuc n)) = fit_int (sub_ℕ 0 (suc n / one))
to_int _ = min_int

-- x * y of finite doubles; NaN stands for the cases with an infinite factor, which the code never
-- meets
unfoldable pub mul : Float64 → Float64 → Float64
unfolding nearest signed one
mul (finite a) (finite b) =
    signed (if is_negative a then (if is_negative b then false else true) else is_negative b)
      (nearest (magnitude a * magnitude b) one)
mul _ _ = nan

-- x / n for a positive number n
unfoldable pub div_nat : Float64 → ℕ → Float64
unfolding nearest signed
div_nat (finite a) n = signed (is_negative a) (nearest (magnitude a) n)
div_nat x n = x

-- x - y, again of finite doubles
unfoldable pub sub : Float64 → Float64 → Float64
unfolding nearest signed ◌-ℤ◌
sub (finite a) (finite b) = signed (is_negative (a -ℤ b)) (nearest (magnitude (a -ℤ b)) 1)
sub _ _ = nan

-- x + y, again of finite doubles
unfoldable pub add : Float64 → Float64 → Float64
unfolding nearest signed ◌+ℤ◌
add (finite a) (finite b) = signed (is_negative (a +ℤ b)) (nearest (magnitude (a +ℤ b)) 1)
add _ _ = nan

-- math.Abs
unfoldable pub abs : Float64 → Float64
abs (finite z) = finite (pos (magnitude z))
abs (infinite negative) = infinite false
abs nan = nan
