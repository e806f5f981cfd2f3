-- ===== src/Duration/Fuel.antt =====
-- The fuel of the loop of ParseDuration.
use tortureu.Base.{
  ◌/◌, ℕ, zero, suc, ◌+◌, ◌*◌, ◌-◌, ◌%◌, ◌^◌, ◌≤◌, ◌<◌, List, [], ◌∷◌, Option, none, some, arith,
  ◌≡◌, refl, Option-cases, length, ltb, if◌then◌else◌, inl, inr, eqb, Bool-cases, Bool, ◌||◌, ◌&&◌,
  not, ◌∙◌, sym, ap, true, false,
}
use tortureu.Base.Text.{digits, is_digit}
use tortureu.Duration.{terms, term, take_unit, fraction_part, leading_fraction, unit_of, term_value}

digits-length : (value n : ℕ) (cs : List ℕ) → length (digits value n cs).2 ≤ length cs
unfolding digits
digits-length value n [] = omega arith
digits-length value n (c ∷ cs) = elim (Bool-cases (is_digit c)) [
  | inl d ↦ rw d (omega (arith, digits-length (value * 10 + (c - 48)) (suc n) cs))
  | inr d ↦ rw d (omega arith)
]

leading_fraction-length :
    (full : Bool) (x n : ℕ) (seen : Bool) (cs : List ℕ)
    → length (leading_fraction full x n seen cs).3 ≤ length cs
unfolding leading_fraction
leading_fraction-length full x n seen [] = omega arith
leading_fraction-length full x n seen (c ∷ cs) = elim (Bool-cases (is_digit c)) [
  | inr d ↦ rw d (omega arith)
  | inl d ↦
      elim (Bool-cases (full || ltb ((2 ^ 63 - 1) / 10) x || ltb (2 ^ 63) (x * 10 + (c - 48)))) [
        | inl s ↦ rw (d, s) (omega (arith, leading_fraction-length true x n true cs))
        | inr s ↦
            rw (d, s)
              (omega (arith, leading_fraction-length false (x * 10 + (c - 48)) (suc n) true cs))
      ]
]

fraction_part-length : (cs : List ℕ) → length (fraction_part cs).3 ≤ length cs
unfolding fraction_part
fraction_part-length [] = omega arith
fraction_part-length (c ∷ cs) = elim (Bool-cases (eqb c b'.')) [
  | inl d ↦ rw d (omega (arith, leading_fraction-length false 0 0 false cs))
  | inr d ↦ rw d (omega arith)
]

take_unit-length : (cs : List ℕ) → length (take_unit cs).0 + length (take_unit cs).1 ≡ length cs
unfolding take_unit
take_unit-length [] = refl
take_unit-length (c ∷ cs) = elim (Bool-cases (eqb c b'.' || is_digit c)) [
  | inl d ↦ rw d (omega arith)
  | inr d ↦ rw d (omega (arith, take_unit-length cs))
]

unit_of-nonempty : (u : List ℕ) (unit : ℕ) → unit_of u ≡ some unit → 1 ≤ length u
unfolding unit_of tortureu.Base.Text.matches
unit_of-nonempty [] unit h = absurd (cc)
unit_of-nonempty (c ∷ u) unit h = omega arith

abbrev after_digits : List ℕ → List ℕ
after_digits cs = (digits 0 0 cs).2

abbrev after_fraction : List ℕ → List ℕ
after_fraction cs = (fraction_part (after_digits cs)).3

abbrev value_of : List ℕ → ℕ → Option ℕ
value_of cs unit =
    term_value (digits 0 0 cs).0 (fraction_part (after_digits cs)).0
      (fraction_part (after_digits cs)).1 unit

-- a round takes at least one character
term-length :
    (cs : List ℕ) (t : ℕ) (rest : List ℕ) → term cs ≡ some (t, rest) → length rest < length cs
unfolding term
term-length cs t rest h =
    elim (Bool-cases (
      ltb (2 ^ 63) (digits 0 0 cs).0
      || (eqb (digits 0 0 cs).1 0 && not (fraction_part (after_digits cs)).2))) [
        | inl bad ↦ absurd (let h' = rw bad at h in cc)
        | inr good ↦ elim (Option-cases (unit_of (take_unit (after_fraction cs)).0)) [
          | inl n ↦ absurd (let h' = rw (good, n) at h in cc)
          | inr (unit, u) ↦ elim (Option-cases (value_of cs unit)) [
            | inl n ↦ absurd (let h' = rw (good, u, n) at h in cc)
            | inr (v, e) ↦
                let h' : ◌≡◌ {A = Option (ℕ × List ℕ)} (some (v, (take_unit (after_fraction cs)).1))
                    (some (t, rest)) =
                  rw (good, u, e) at h in
                let same : (take_unit (after_fraction cs)).1 ≡ rest = cc in
                rw (sym same) (
                  omega (
                    arith,
                    digits-length 0 0 cs,
                    fraction_part-length (after_digits cs),
                    take_unit-length (after_fraction cs),
                    unit_of-nonempty (take_unit (after_fraction cs)).0 unit u,
                  ))
          ]
        ]
      ]

terms-more : (m n d : ℕ) (cs : List ℕ) → length cs ≤ m → length cs ≤ n → terms m d cs ≡ terms n d cs
unfolding terms
terms-more m n d [] hm hn = refl
terms-more zero n d (c ∷ cs) hm hn = elim hm [ ]
terms-more (suc m) zero d (c ∷ cs) hm hn = elim hn [ ]
terms-more (suc m) (suc n) d (c ∷ cs) hm hn = elim (Option-cases (term (c ∷ cs))) [
  | inl e ↦ rw (e, terms)
  | inr ((t, rest), e) ↦ rw (
    e,
    terms,
    terms-more m n ((d + t) % 2 ^ 64) rest (omega (arith, term-length (c ∷ cs) t rest e))
        (omega (arith, term-length (c ∷ cs) t rest e)),
  )
]

-- The loop of ParseDuration takes at least one character in every round: fuel beyond the number of
-- characters changes no answer, so the fuel that the model gives is enough.
pub terms-enough :
    (fuel d : ℕ) (cs : List ℕ) → length cs ≤ fuel → terms fuel d cs ≡ terms (length cs) d cs
terms-enough fuel d cs h = terms-more fuel (length cs) d cs h (omega arith)
