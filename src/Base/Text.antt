-- ===== src/Base/Text.antt =====
-- What the program uses of `strings`, `strconv` and `regexp`. Texts are walked by code points; the
-- separators are ASCII, so this agrees with Go's walk by bytes.
use Prim.Native.Nat.{ℕ, suc, ◌+◌, ◌-◌, ◌*◌, ◌^◌}
use Prim.Native.Char.{code}
use Prim.Native.String
use Prim.Native.String.{String}
use mathlib.Core.Bool.{Bool, true, false, ◌&&◌, ◌||◌}
use mathlib.Core.List.{List, [], ◌∷◌, reverse}
use mathlib.Core.Option.{Option, none, some}
use text.Mathlib.Text.{◌==◌}
use tortureu.Base.Tests.{leb, eqb, if◌then◌else◌, is_some}

abbrev pub codes : String → List ℕ
codes String.[] = []
codes (String.◌∷◌ c s) = code c ∷ codes s

-- a + b + …
abbrev pub concat : List String → String
concat [] = ""
concat (s ∷ ss) = String.◌++◌ s (concat ss)

-- the text behind a prefix
unfoldable pub strip_prefix : String → String → Option String
strip_prefix String.[] s = some s
strip_prefix (String.◌∷◌ p ps) String.[] = none
strip_prefix (String.◌∷◌ p ps) (String.◌∷◌ c s) =
    if eqb (code p) (code c) then strip_prefix ps s else none

unfoldable pub has_prefix : String → String → Bool
unfolding strip_prefix
has_prefix s prefix = is_some (strip_prefix prefix s)

-- strings.TrimPrefix
unfoldable pub trim_prefix : String → String → String
unfolding strip_prefix
trim_prefix s prefix = elim (strip_prefix prefix s) [ none ↦ s | some rest ↦ rest ]

-- strings.Contains
unfoldable pub has_substring : String → String → Bool
unfolding strip_prefix
has_substring String.[] sub = is_some (strip_prefix sub "")
has_substring (String.◌∷◌ c s) sub =
    is_some (strip_prefix sub (String.◌∷◌ c s)) || has_substring s sub

-- strings.Cut at a separator of one character: before, after, found
unfoldable pub cut : ℕ → String → String × String × Bool
cut sep String.[] = ("", "", false)
cut sep (String.◌∷◌ c s) =
    let (before, after, found) = cut sep s in
    if eqb (code c) sep then ("", s, true) else (String.◌∷◌ c before, after, found)

unfoldable pub is_digit : ℕ → Bool
is_digit c = leb 48 c && leb c 57

-- the class \s
unfoldable pub is_space : ℕ → Bool
is_space c = eqb c 32 || eqb c 9 || eqb c 10 || eqb c 12 || eqb c 13

-- the digits at the front: their value, how many they are, and what follows
unfoldable pub digits : ℕ → ℕ → List ℕ → ℕ × ℕ × List ℕ
unfolding is_digit
digits value n [] = (value, n, [])
digits value n (c ∷ cs) =
    let more = digits (value * 10 + (c - 48)) (suc n) cs in
    if is_digit c then more else (value, n, c ∷ cs)

unfoldable pub skip_space : List ℕ → List ℕ
unfolding is_space
skip_space [] = []
skip_space (c ∷ cs) = if is_space c then skip_space cs else c ∷ cs

-- the fraction behind the point of `\d+(?:\.\d+)?`
unfoldable pub fraction : ℕ → List ℕ → ℕ × ℕ × List ℕ
unfolding digits
fraction whole [] = (whole, 1, [])
fraction whole (c ∷ cs) =
    if eqb c b'.'
    then (let (value, n, rest) = digits whole 0 cs in
        if eqb n 0 then (whole, 1, c ∷ cs) else (value, 10 ^ n, rest))
    else (whole, 1, c ∷ cs)

-- `\d+(?:\.\d+)?` at the front: the number as a quotient, and what follows
unfoldable pub decimal : List ℕ → Option (ℕ × ℕ × List ℕ)
unfolding digits fraction
decimal cs =
    let (whole, n, rest) = digits 0 0 cs in if eqb n 0 then none else some (fraction whole rest)

-- Unicode's simple case folding, as far as it reaches an ASCII letter: capitals, and the long s and
-- the Kelvin sign
unfoldable pub fold_case : ℕ → ℕ
fold_case c =
    if leb b'A' c && leb c b'Z'
    then c + 32
    else if eqb c 0x17f
    then b's'
    else if eqb c 0x212a
    then b'k'
    else c

-- strings.ToLower, likewise: it leaves the long s alone
unfoldable pub to_lower : ℕ → ℕ
to_lower c = if leb b'A' c && leb c b'Z' then c + 32 else if eqb c 0x212a then b'k' else c

-- the whole list is the text, under a map of its codes
unfoldable pub matches : (ℕ → ℕ) → List ℕ → List ℕ → Bool
matches f [] [] = true
matches f [] (d ∷ ds) = false
matches f (c ∷ cs) [] = false
matches f (c ∷ cs) (d ∷ ds) = eqb (f c) d && matches f cs ds

-- strings.TrimSpace, for ASCII space
unfoldable pub trim_codes : List ℕ → List ℕ
unfolding skip_space
trim_codes cs = reverse (skip_space (reverse (skip_space cs)))

-- strings.HasSuffix
unfoldable pub has_suffix : String → String → Bool
has_suffix String.[] suffix = suffix == ""
has_suffix (String.◌∷◌ c s) suffix = (String.◌∷◌ c s == suffix) || has_suffix s suffix
