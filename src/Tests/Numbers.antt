-- ===== src/Tests/Numbers.antt =====
-- Doubles as FormatFloat shows them, and durations as ParseDuration reads them.
use tortureu.Base.{Option, some, none, ◌≡◌, refl, pos, negsuc, ℤ}
use tortureu.Float64.{of_ratio, of_int, Float64}
use tortureu.Float64.Show.{format_float}
use tortureu.Duration.{parse_duration}

shows_duration : format_float (of_ratio 30032139021 10000000) ≡ "3003.21"
unfolding format_float of_ratio
shows_duration = refl

shows_rate : format_float (of_ratio 3 1000) ≡ "0.003"
unfolding format_float of_ratio
shows_rate = refl

shows_small : format_float (of_ratio 1 100000) ≡ "1e-05"
unfolding format_float of_ratio
shows_small = refl

shows_large : format_float (of_int (pos 12345678)) ≡ "1.23457e+07"
unfolding format_float of_int
shows_large = refl

shows_carry : format_float (of_ratio 9999999 10) ≡ "1e+06"
unfolding format_float of_ratio
shows_carry = refl

reads_duration : parse_duration "1m2.5s" ≡ some (pos 62500000000)
unfolding parse_duration tortureu.Base.Text.matches tortureu.Duration.term tortureu.Float64.to_int
    tortureu.Float64.mul of_int tortureu.Float64.div_nat
reads_duration = refl
