-- ===== src/Trend/Lines/RoundTrip.antt =====
-- What Append wrote, Load reads.
use tortureu.Base.{
  ℕ, suc, ◌+◌, String, Bool, true, false, List, [], ◌∷◌, ◌++◌, ◌==◌, ◌≡◌, ◌≢◌, refl, arith, eq_iff,
  if◌then◌else◌, eqb, eqb_ℤ, not, Bool-cases, inl, inr, ap, sym, ◌∙◌, length,
}
use mathlib.Core.List.{append-nil}
use tortureu.Base.Decimal.{append_text}
use tortureu.Base.Result.{Result, Result-cases, ok, err}
use tortureu.Base.Strings.{trim_space}
use tortureu.Base.Strings.Words.{all_codes, append_text_assoc, append_text-nil}
use Prim.Native.Char.{Char, code}
use tortureu.Trend.{Record, Skip, Store}
use tortureu.Trend.Lines.{
  lines_from, load_line, load_lines, decoded, load, append, content, is_too_long, Loaded, Error,
  schema_version,
}

-- whether the last character is a newline, or there is none and the flag is set
abbrev pub ended : Bool → String → Bool
ended b String.[] = b
ended b (String.◌∷◌ c s) = ended (eqb (code c) b'\n') s

abbrev pub one_line : String → Bool
one_line s = all_codes (λ c. not (eqb c b'\n')) s

cons-ne-nil : (c : Char) (s : String) → String.◌∷◌ c s ≢ ""
cons-ne-nil c s h = cc

cons_not_empty : (c : Char) (s : String) → (String.◌∷◌ c s == "") ≡ false
cons_not_empty c s = elim (Bool-cases (String.◌∷◌ c s == "")) [
  | inl t ↦ absurd (cons-ne-nil c s ((eq_iff (String.◌∷◌ c s) "").0 t))
  | inr f ↦ f
]

not_empty : (w : String) (c : Char) → (append_text w (String.◌∷◌ c "") == "") ≡ false
not_empty String.[] c = cons_not_empty c ""
not_empty (String.◌∷◌ d w) c = cons_not_empty d (append_text w (String.◌∷◌ c ""))

is_kept : (s : String) → s ≢ "" → (s == "") ≡ false
is_kept s n = ground (arith, eq_iff s "")

lines_from-append :
    (w s t : String)
    → ended (w == "") s ≡ true
    → lines_from w (append_text s t) ≡ lines_from w s ++ lines_from "" t
unfolding lines_from
lines_from-append w String.[] t h = ground (arith, eq_iff w "")
lines_from-append w (String.◌∷◌ c s) t h = elim (Bool-cases (eqb (code c) b'\n')) [
  | inl n ↦ rw (n) (ap (λ l. w ∷ l) (lines_from-append "" s t (ground arith)))
  | inr o ↦
      rw (o)
        (lines_from-append (append_text w (String.◌∷◌ c "")) s t (ground (arith, not_empty w c)))
]

lines_from-line :
    (w e : String) → one_line e ≡ true → lines_from w (append_text e "\n") ≡ append_text w e ∷ []
unfolding lines_from
lines_from-line w String.[] h = ap (λ l. l ∷ []) (sym (append_text-nil w))
lines_from-line w (String.◌∷◌ c e) h =
    let plain : eqb (code c) b'\n' ≡ false = ground arith in
    rw plain (
      lines_from-line (append_text w (String.◌∷◌ c "")) e (ground arith)
      ∙ ap (λ l. l ∷ []) (append_text_assoc w (String.◌∷◌ c "") e))

-- both parts of what the later lines give grow at their ends
abbrev longer : List Record → List Skip → Loaded → Loaded
longer rs' ks' (records, skipped) = (records ++ rs', skipped ++ ks')

module _ (decode : String → Result String Record) where
  module _ (n : ℕ) (rs rs' : List Record) (ks ks' : List Skip) where
    decoded-append :
        (blank : Bool) (d : Result String Record)
        → (if blank then (rs ++ rs', ks ++ ks') else decoded decode n d (rs ++ rs', ks ++ ks'))
          ≡ longer rs' ks' (if blank then (rs, ks) else decoded decode n d (rs, ks))
    decoded-append true d = refl
    decoded-append false (err e) = refl
    decoded-append false (ok rec) = elim (Bool-cases (eqb_ℤ rec.v schema_version)) [
      | inl e ↦ rw e refl
      | inr f ↦ rw f refl
    ]

    load_line-append :
        (line : String)
        → load_line decode n line (rs ++ rs', ks ++ ks')
          ≡ longer rs' ks' (load_line decode n line (rs, ks))
    unfolding load_line
    load_line-append line = decoded-append (trim_space line == "") (decode (trim_space line))

  load_lines-cons :
      (n : ℕ) (x : String) (xs : List String) (later : Loaded)
      → is_too_long x ≡ false
      → load_lines decode (suc n) xs ≡ ok later
      → load_lines decode n (x ∷ xs) ≡ ok (load_line decode n x later)
  unfolding load_lines
  load_lines-cons n x xs later fits h = rw (fits, h)

  load_lines-eq-ok :
      (n : ℕ) (x : String) (xs : List String) (all : Loaded)
      → load_lines decode n (x ∷ xs) ≡ ok all
      → (is_too_long x ≡ false)
        × ((later : Loaded) × (load_lines decode (suc n) xs ≡ ok later)
            × (load_line decode n x later ≡ all))
  unfolding load_lines
  load_lines-eq-ok n x xs all h = elim (Bool-cases (is_too_long x)) [
    | inl e ↦ let h' = rw e at h in cc
    | inr f ↦ elim (Result-cases (load_lines decode (suc n) xs)) [
      | inr (e, g) ↦ let h' = rw (f, g) at h in cc
      | inl (later, g) ↦ let h' = rw (f, g) at h in (f, (later, g, ground arith))
    ]
  ]

  load_lines-empty : (n : ℕ) → load_lines decode n [] ≡ ok ([], [])
  unfolding load_lines
  load_lines-empty n = refl

  load_lines-append :
      (n : ℕ) (xs ys : List String) (rs rs' : List Record) (ks ks' : List Skip)
      → load_lines decode n xs ≡ ok (rs, ks)
      → load_lines decode (n + length xs) ys ≡ ok (rs', ks')
      → load_lines decode n (xs ++ ys) ≡ ok (rs ++ rs', ks ++ ks')
  load_lines-append n [] ys rs rs' ks ks' h g =
      let start : n + 0 ≡ n = omega arith in
      let none_yet : ◌≡◌ {A = Result Error Loaded} (ok ([], [])) (ok (rs, ks)) =
        sym (load_lines-empty n) ∙ h in
      let no_records : [] ≡ rs = ground arith in
      let no_skips : [] ≡ ks = ground arith in rw (← no_records, ← no_skips) (rw start at g)
  load_lines-append n (x ∷ xs) ys rs rs' ks ks' h g =
      let (fits, ((r, k), later, whole)) = load_lines-eq-ok n x xs (rs, ks) h in
      let place : n + suc (length xs) ≡ suc n + length xs = omega arith in
      let rest = load_lines-append (suc n) xs ys r rs' k ks' later (rw place at g) in
      load_lines-cons n x (xs ++ ys) (r ++ rs', k ++ ks') fits rest
      ∙ ap ok (load_line-append n r rs' k ks' x ∙ ap (longer rs' ks') whole)

  decoded-one :
      (n : ℕ) (rec : Record) (blank : Bool) (d : Result String Record)
      → blank ≡ false
      → d ≡ ok rec
      → eqb_ℤ rec.v schema_version ≡ true
      → (if blank then ([], []) else decoded decode n d ([], [])) ≡ (rec ∷ [], [])
  decoded-one n rec true d b e v = cc
  decoded-one n rec false (err x) b e v = cc
  decoded-one n rec false (ok r) b e v = let same : rec ≡ r = ground arith in rw (← same, v) refl

  -- a line that holds one record
  load_lines-line :
      (n : ℕ) (line : String) (rec : Record)
      → is_too_long line ≡ false
      → trim_space line ≢ ""
      → decode (trim_space line) ≡ ok rec
      → eqb_ℤ rec.v schema_version ≡ true
      → load_lines decode n (line ∷ []) ≡ ok (rec ∷ [], [])
  unfolding load_line
  load_lines-line n line rec fits full d v =
      let blank : (trim_space line == "") ≡ false = is_kept (trim_space line) full in
      load_lines-cons n line [] ([], []) fits (load_lines-empty (suc n))
      ∙ ap ok (decoded-one n rec (trim_space line == "") (decode (trim_space line)) blank d v)

  module _ (encode : Record → String) (path : String) (rec : Record) where
    loaded-append :
        (s : String) (all : Loaded)
        → ended true s ≡ true
        → one_line (encode rec) ≡ true
        → is_too_long (encode rec) ≡ false
        → trim_space (encode rec) ≢ ""
        → decode (trim_space (encode rec)) ≡ ok rec
        → eqb_ℤ rec.v schema_version ≡ true
        → load_lines decode 1 (lines_from "" s) ≡ ok all
        → load_lines decode 1 (lines_from "" (append_text s (append_text (encode rec) "\n")))
          ≡ ok (all.0 ++ (rec ∷ []), all.1 ++ [])
    loaded-append s all e l fits full d v h =
        let split =
          lines_from-append "" s (append_text (encode rec) "\n") e
          ∙ ap (λ ls. lines_from "" s ++ ls) (lines_from-line "" (encode rec) l) in
        rw split (
          load_lines-append 1 (lines_from "" s) (encode rec ∷ []) all.0 (rec ∷ []) all.1 [] h
            (load_lines-line (1 + length (lines_from "" s)) (encode rec) rec fits full d v))

    -- Append then Load gives what Load gave before and the new record behind it, the same skipped lines
    -- included. The conditions: the file ends in a newline or is empty, as Append leaves it; the encoding
    -- of the record is one line that the scanner's buffer holds, is not blank and decodes to the record;
    -- and the record has the schema version of this build.
    pub load-append :
        (s : String) (store : Store)
        → ended true s ≡ true
        → one_line (encode rec) ≡ true
        → is_too_long (encode rec) ≡ false
        → trim_space (encode rec) ≢ ""
        → decode (trim_space (encode rec)) ≡ ok rec
        → eqb_ℤ rec.v schema_version ≡ true
        → load decode path (content s) ≡ ok store
        → load decode path (append encode (content s) rec)
          ≡ ok (record store { records = store.records ++ (rec ∷ []) })
    unfolding load append
    load-append s store e l fits full d v h =
        elim (Result-cases (load_lines decode 1 (lines_from "" s))) [
          | inr (x, g) ↦ let h' = rw g at h in cc
          | inl (all, g) ↦
              rw (loaded-append s all e l fits full d v g, append-nil all.1)
                (let h' = rw g at h in ground arith)
        ]
