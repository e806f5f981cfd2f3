-- ===== src/Base/Strings.antt =====
-- The parts of Go's `strings` and `strconv` that need texts again as a result.
pub mod Words
use Prim.Native.Nat.{ℕ, zero, suc, ◌+◌, ◌-◌, ◌^◌}
use Prim.Native.Char.{Char, code, len_utf8}
use Prim.Native.String.{String}
use mathlib.Core.Bool.{Bool, false, ◌&&◌, ◌||◌, not}
use mathlib.Core.List.{List, [], ◌∷◌}
use mathlib.Core.Option.{Option, none, some}
use text.Mathlib.Text.{◌==◌}
use tortureu.Base.Tests.{leb, ltb, eqb, if◌then◌else◌}
use tortureu.Base.Text.{digits, codes, cut, strip_prefix}
use tortureu.Base.Decimal.{append_text}

-- unicode.IsSpace
unfoldable pub is_white : ℕ → Bool
is_white c =
    leb 9 c && leb c 13
    || eqb c 32
    || eqb c 0x85
    || eqb c 0xa0
    || eqb c 0x1680
    || leb 0x2000 c && leb c 0x200a
    || eqb c 0x2028
    || eqb c 0x2029
    || eqb c 0x202f
    || eqb c 0x205f
    || eqb c 0x3000

unfoldable pub trim_left : String → String
unfolding is_white
trim_left String.[] = ""
trim_left (String.◌∷◌ c s) = if is_white (code c) then trim_left s else String.◌∷◌ c s

unfoldable pub trim_right : String → String
unfolding is_white
trim_right String.[] = ""
trim_right (String.◌∷◌ c s) =
    let rest = trim_right s in if is_white (code c) && (rest == "") then "" else String.◌∷◌ c rest

-- strings.TrimSpace
unfoldable pub trim_space : String → String
unfolding trim_left trim_right
trim_space s = trim_right (trim_left s)

-- around the last character with this code, as strings.LastIndex finds it
unfoldable pub cut_last : ℕ → String → Option (String × String)
cut_last sep String.[] = none
cut_last sep (String.◌∷◌ c s) = elim (cut_last sep s) [
  | some parts ↦ let (before, after) = parts in some (String.◌∷◌ c before, after)
  | none ↦ if eqb (code c) sep then some ("", s) else none
]

abbrev all_digits : ℕ → ℕ × ℕ × List ℕ → Bool
all_digits limit (value, n, []) = ltb 0 n && leb value limit
all_digits limit (value, n, c ∷ cs) = false

-- whether strconv.Atoi accepts the text
unfoldable pub is_int : List ℕ → Bool
unfolding digits
is_int [] = false
is_int (c ∷ cs) =
    if eqb c b'-'
    then all_digits (2 ^ 63) (digits 0 0 cs)
    else if eqb c b'+'
    then all_digits (2 ^ 63 - 1) (digits 0 0 cs)
    else all_digits (2 ^ 63 - 1) (digits 0 0 (c ∷ cs))

abbrev has_code : ℕ → List ℕ → Bool
has_code c [] = false
has_code c (d ∷ ds) = eqb d c || has_code c ds

abbrev has_bracket : String → Bool
has_bracket s = has_code b'[' (codes s) || has_code b']' (codes s)

-- the host in brackets: its closing bracket ends the part before the port
abbrev bracketed : String → String × String × Bool → Option (String × String)
bracketed port (host, after, found) =
    if not found || not (after == "") || has_bracket host || has_bracket port
    then none
    else some (host, port)

abbrev host_and_port : String → String → Option (String × String)
host_and_port String.[] port = if has_bracket port then none else some ("", port)
host_and_port (String.◌∷◌ c s) port =
    if eqb (code c) b'['
    then bracketed port (cut b']' s)
    else if has_code b':' (codes (String.◌∷◌ c s))
        || has_bracket (String.◌∷◌ c s)
        || has_bracket port
    then none
    else some (String.◌∷◌ c s, port)

-- net.SplitHostPort; `none` is its error
unfoldable pub split_host_port : String → Option (String × String)
unfolding cut_last cut
split_host_port s = elim (cut_last b':' s) [
  | none ↦ none
  | some parts ↦ let (before, port) = parts in host_and_port before port
]

-- strings.Fields, with the word that is being read
unfoldable pub fields_from : String → String → List String
unfolding is_white
fields_from word String.[] = if word == "" then [] else word ∷ []
fields_from word (String.◌∷◌ c s) =
    let next = fields_from "" s in
    let longer = fields_from (append_text word (String.◌∷◌ c "")) s in
    if is_white (code c) then (if word == "" then next else word ∷ next) else longer

unfoldable pub fields : String → List String
unfolding fields_from
fields s = fields_from "" s

-- len of a string
abbrev pub byte_length : String → ℕ
byte_length String.[] = 0
byte_length (String.◌∷◌ c s) = len_utf8 c + byte_length s

-- around the first place where the second text stands, as strings.Index finds it
unfoldable pub cut_text : String → String → Option (String × String)
unfolding strip_prefix
cut_text sub String.[] = elim (strip_prefix sub "") [ none ↦ none | some rest ↦ some ("", rest) ]
cut_text sub (String.◌∷◌ c s) =
    let later = cut_text sub s in
    elim (strip_prefix sub (String.◌∷◌ c s)) [
      | some rest ↦ some ("", rest)
      | none ↦ elim later [
        | none ↦ none
        | some parts ↦ let (before, after) = parts in some (String.◌∷◌ c before, after)
      ]
    ]

-- the k-th letter of a text, as a text
abbrev letter_at : ℕ → String → String
letter_at k String.[] = ""
letter_at zero (String.◌∷◌ c s) = String.◌∷◌ c ""
letter_at (suc k) (String.◌∷◌ c s) = letter_at k s

unfoldable pub upper_char : Char → String
upper_char c =
    if leb b'a' (code c) && leb (code c) b'z'
    then letter_at (code c - b'a') "ABCDEFGHIJKLMNOPQRSTUVWXYZ"
    else String.◌∷◌ c ""

unfoldable pub lower_char : Char → String
lower_char c =
    if leb b'A' (code c) && leb (code c) b'Z'
    then letter_at (code c - b'A') "abcdefghijklmnopqrstuvwxyz"
    else String.◌∷◌ c ""

-- strings.ToLower, of ASCII letters
unfoldable pub lower_ascii : String → String
unfolding lower_char
lower_ascii String.[] = ""
lower_ascii (String.◌∷◌ c s) = append_text (lower_char c) (lower_ascii s)

-- strings.ToUpper, of ASCII letters
unfoldable pub to_upper : String → String
unfolding upper_char
to_upper String.[] = ""
to_upper (String.◌∷◌ c s) = append_text (upper_char c) (to_upper s)
