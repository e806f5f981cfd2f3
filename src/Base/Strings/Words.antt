-- ===== src/Base/Strings/Words.antt =====
-- Splitting a text into words and at its separators.
use Prim.Native.Nat.{ℕ}
use Prim.Native.Char.{Char, code}
use Prim.Native.String.{String}
use mathlib.Core.Path.{◌≡◌, refl, ap, sym, ◌∙◌}
use mathlib.Core.Logic.{◌≢◌, inl, inr}
use mathlib.Core.Bool.{Bool, true, false, ◌&&◌, not}
use mathlib.Core.List.{[], ◌∷◌}
use mathlib.Core.Option.{none, some}
use native.Mathlib.Omega.{arith}
use text.Mathlib.Text.{◌==◌}
use text.Mathlib.TextEquality.{eq_iff}
use tortureu.Base.Tests.{if◌then◌else◌, eqb, Bool-cases}
use tortureu.Base.Text.{strip_prefix}
use tortureu.Base.Decimal.{append_text}
use tortureu.Base.Strings.{
  is_white, fields_from, fields, trim_left, trim_right, trim_space, cut_last, cut_text,
}

-- every character passes a test on its code
abbrev pub all_codes : (ℕ → Bool) → String → Bool
all_codes p String.[] = true
all_codes p (String.◌∷◌ c s) = p (code c) && all_codes p s

abbrev pub no_white : ℕ → Bool
no_white c = not (is_white c)

pub append_text_assoc :
    (r s t : String) → append_text (append_text r s) t ≡ append_text r (append_text s t)
append_text_assoc String.[] s t = refl
append_text_assoc (String.◌∷◌ c r) s t = ap (String.◌∷◌ c) (append_text_assoc r s t)

pub append_text-nil : (s : String) → append_text s "" ≡ s
append_text-nil String.[] = refl
append_text-nil (String.◌∷◌ c s) = ap (String.◌∷◌ c) (append_text-nil s)

module _ (word : String) (c : Char) (s : String) where
  fields_from-white :
      is_white (code c) ≡ true
      → fields_from word (String.◌∷◌ c s)
        ≡ (if word == "" then fields_from "" s else word ∷ fields_from "" s)
  unfolding fields_from
  fields_from-white w = rw w

  fields_from-char :
      is_white (code c) ≡ false
      → fields_from word (String.◌∷◌ c s) ≡ fields_from (append_text word (String.◌∷◌ c "")) s
  unfolding fields_from
  fields_from-char b = rw b

module _ (c : Char) (s : String) where
  trim_left-white : is_white (code c) ≡ true → trim_left (String.◌∷◌ c s) ≡ trim_left s
  unfolding trim_left
  trim_left-white w = rw w

  trim_left-char : is_white (code c) ≡ false → trim_left (String.◌∷◌ c s) ≡ String.◌∷◌ c s
  unfolding trim_left
  trim_left-char b = rw b

  trim_right-white : is_white (code c) ≡ true → trim_right s ≡ "" → trim_right (String.◌∷◌ c s) ≡ ""
  unfolding trim_right
  trim_right-white w e = ground (arith, eq_iff (trim_right s) "")

  trim_right-kept :
      (is_white (code c) && (trim_right s == "")) ≡ false
      → trim_right (String.◌∷◌ c s) ≡ String.◌∷◌ c (trim_right s)
  unfolding trim_right
  trim_right-kept h = rw h

trim_left-empty : trim_left "" ≡ ""
unfolding trim_left
trim_left-empty = refl

trim_right-empty : trim_right "" ≡ ""
unfolding trim_right
trim_right-empty = refl

fields-trim_left : (s : String) → fields_from "" (trim_left s) ≡ fields_from "" s
fields-trim_left String.[] = ap (fields_from "") trim_left-empty
fields-trim_left (String.◌∷◌ c s) = elim (Bool-cases (is_white (code c))) [
  | inl w ↦ rw (trim_left-white c s w, fields_from-white "" c s w) (fields-trim_left s)
  | inr b ↦ ap (fields_from "") (trim_left-char c s b)
]

fields_from-empty : (word : String) → fields_from word "" ≡ (if word == "" then [] else word ∷ [])
unfolding fields_from
fields_from-empty word = refl

fields_from-trim_right : (word s : String) → fields_from word (trim_right s) ≡ fields_from word s
fields_from-trim_right word String.[] = ap (fields_from word) trim_right-empty
fields_from-trim_right word (String.◌∷◌ c s) = elim (Bool-cases (is_white (code c))) [
  | inl w ↦ elim (Bool-cases (trim_right s == "")) [
    | inl e ↦
        let rest : trim_right s ≡ "" = (eq_iff (trim_right s) "").0 e in
        let later : fields_from "" s ≡ [] =
          sym (fields_from-trim_right "" s) ∙ ap (fields_from "") rest ∙ fields_from-empty "" in
        rw (trim_right-white c s w rest, fields_from-white word c s w, later)
          (fields_from-empty word)
    | inr n ↦ rw (
      trim_right-kept c s (rw (w, n)),
      fields_from-white word c (trim_right s) w,
      fields_from-white word c s w,
      fields_from-trim_right "" s,
    )
  ]
  | inr b ↦
      rw
        (
          trim_right-kept c s (rw b),
          fields_from-char word c (trim_right s) b,
          fields_from-char word c s b,
        )
        (fields_from-trim_right (append_text word (String.◌∷◌ c "")) s)
]

-- white space around a text makes no difference to its words
pub fields-trim_space : (s : String) → fields (trim_space s) ≡ fields s
unfolding fields trim_space
fields-trim_space s = fields_from-trim_right "" (trim_left s) ∙ fields-trim_left s

-- a word, the space behind it, and the other words
pub fields_from-word :
    (before word : String) (c : Char) (s : String)
    → all_codes no_white word ≡ true
    → is_white (code c) ≡ true
    → append_text before word ≢ ""
    → fields_from before (append_text word (String.◌∷◌ c s))
      ≡ append_text before word ∷ fields_from "" s
fields_from-word before String.[] c s h w n =
    let full : append_text before "" ≡ before = append_text-nil before in
    rw (fields_from-white before c s w, full) (ground (arith, eq_iff before ""))
fields_from-word before (String.◌∷◌ d word) c s h w n =
    let joined : append_text (append_text before (String.◌∷◌ d "")) word
        ≡ append_text before (String.◌∷◌ d word) =
      append_text_assoc before (String.◌∷◌ d "") word in
    rw (fields_from-char before d (append_text word (String.◌∷◌ c s)) (ground arith)) (
      rw (← joined) (
        fields_from-word (append_text before (String.◌∷◌ d "")) word c s (ground arith) w
          (rw joined n)))

-- the last character that is a separator is where the text is cut
pub cut_last-append :
    (c : Char) (s t : String)
    → cut_last (code c) t ≡ none
    → cut_last (code c) (append_text s (String.◌∷◌ c t)) ≡ some (s, t)
unfolding cut_last
cut_last-append c String.[] t h = rw h (ground arith)
cut_last-append c (String.◌∷◌ d s) t h = rw (cut_last-append c s t h)

-- a character at which the separator text does not stand is passed over
pub cut_text-skip :
    (sub : String) (c : Char) (s before after : String)
    → strip_prefix sub (String.◌∷◌ c s) ≡ none
    → cut_text sub s ≡ some (before, after)
    → cut_text sub (String.◌∷◌ c s) ≡ some (String.◌∷◌ c before, after)
unfolding cut_text
cut_text-skip sub c s before after n h = ground arith

-- so is a text without the separator's first character
pub cut_text-skip_text :
    (d : Char) (sub t s before after : String)
    → all_codes (λ c. not (eqb (code d) c)) t ≡ true
    → cut_text (String.◌∷◌ d sub) s ≡ some (before, after)
    → cut_text (String.◌∷◌ d sub) (append_text t s) ≡ some (append_text t before, after)
cut_text-skip_text d sub String.[] s before after a h = h
cut_text-skip_text d sub (String.◌∷◌ c t) s before after a h =
    cut_text-skip (String.◌∷◌ d sub) c (append_text t s) (append_text t before) after
      (unfold strip_prefix in ground arith)
      (cut_text-skip_text d sub t s before after (ground arith) h)
