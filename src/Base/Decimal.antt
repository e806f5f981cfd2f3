-- ===== src/Base/Decimal.antt =====
-- Go's %d of a number that is not negative.
use Prim.Native.Char
use tortureu.Base.Tests.{ltb, if◌then◌else◌, Bool-cases}
use tortureu.Base.Text.{codes}
use Prim.Native.Nat.{ℕ, zero, suc, ◌+◌, ◌-◌, ◌*◌, ◌/◌, ◌%◌, ◌<◌}
use Prim.Native.String.{String}
use mathlib.Core.Path.{◌≡◌, refl, ap, ◌∙◌, sym}
use mathlib.Core.Logic.{inl, inr}
use mathlib.Core.List.{List, [], ◌∷◌, ◌++◌}
use native.Mathlib.Omega.{arith}

abbrev pub append_text : String → String → String
append_text String.[] t = t
append_text (String.◌∷◌ c s) t = String.◌∷◌ c (append_text s t)

abbrev pub digit : ℕ → String
digit zero = "0"
digit (suc zero) = "1"
digit (suc (suc zero)) = "2"
digit (suc (suc (suc zero))) = "3"
digit (suc (suc (suc (suc zero)))) = "4"
digit (suc (suc (suc (suc (suc zero))))) = "5"
digit (suc (suc (suc (suc (suc (suc zero)))))) = "6"
digit (suc (suc (suc (suc (suc (suc (suc zero))))))) = "7"
digit (suc (suc (suc (suc (suc (suc (suc (suc zero)))))))) = "8"
digit _ = "9"

-- the digits of `n`, the first one first; a number has at most as many digits as it counts, plus one
unfoldable pub show_digits : ℕ → ℕ → String
show_digits zero n = ""
show_digits (suc fuel) n =
    let first = show_digits fuel (n / 10) in
    if ltb n 10 then digit n else append_text first (digit (n % 10))

unfoldable pub show : ℕ → String
unfolding show_digits
show n = show_digits (suc n) n

read_from : ℕ → List ℕ → ℕ
read_from v [] = v
read_from v (c ∷ cs) = read_from (v * 10 + (c - 48)) cs

codes-append_text : (s t : String) → codes (append_text s t) ≡ codes s ++ codes t
codes-append_text String.[] t = refl
codes-append_text (String.◌∷◌ c s) t = ap (λ l. Char.code c ∷ l) (codes-append_text s t)

read_from-append :
    (v c : ℕ) (cs : List ℕ) → read_from v (cs ++ (c ∷ [])) ≡ read_from v cs * 10 + (c - 48)
unfolding read_from
read_from-append v c [] = refl
read_from-append v c (d ∷ cs) = read_from-append (v * 10 + (d - 48)) c cs

codes-digit : (d : ℕ) → d < 10 → codes (digit d) ≡ (48 + d) ∷ []
codes-digit zero h = refl
codes-digit (suc zero) h = refl
codes-digit (suc (suc zero)) h = refl
codes-digit (suc (suc (suc zero))) h = refl
codes-digit (suc (suc (suc (suc zero)))) h = refl
codes-digit (suc (suc (suc (suc (suc zero))))) h = refl
codes-digit (suc (suc (suc (suc (suc (suc zero)))))) h = refl
codes-digit (suc (suc (suc (suc (suc (suc (suc zero))))))) h = refl
codes-digit (suc (suc (suc (suc (suc (suc (suc (suc zero)))))))) h = refl
codes-digit (suc (suc (suc (suc (suc (suc (suc (suc (suc zero))))))))) h = refl
codes-digit (suc (suc (suc (suc (suc (suc (suc (suc (suc (suc d)))))))))) h = absurd (omega arith)

read-show_digits : (fuel n : ℕ) → n < fuel → read_from 0 (codes (show_digits fuel n)) ≡ n
unfolding show_digits read_from
read-show_digits zero n h = absurd (omega arith)
read-show_digits (suc fuel) n h = elim (Bool-cases (ltb n 10)) [
  | inl e ↦ rw (e, codes-digit n (ground arith)) (omega arith)
  | inr e ↦
      rw
        (
          e,
          codes-append_text (show_digits fuel (n / 10)) (digit (n % 10)),
          codes-digit (n % 10) (omega arith),
          read_from-append 0 (48 + n % 10) (codes (show_digits fuel (n / 10))),
          read-show_digits fuel (n / 10) (ground arith),
        )
        (omega arith)
]

-- two numbers with one text are one number
pub show-injective : (m n : ℕ) → show m ≡ show n → m ≡ n
unfolding show
show-injective m n e =
    sym (read-show_digits (suc m) m (omega arith))
    ∙ ap (λ s. read_from 0 (codes s)) e
    ∙ read-show_digits (suc n) n (omega arith)
