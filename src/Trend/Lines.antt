-- ===== src/Trend/Lines.antt =====
-- Append and Load: the store as a text file with one JSON object to a line.
pub mod RoundTrip
use tortureu.Base.{
  ℕ, zero, suc, ◌+◌, ◌-◌, String, Bool, true, false, List, [], ◌∷◌, ◌++◌, Option, none, some, ◌==◌,
  ◌≡◌, ◌≢◌, refl, arith, eq_iff, if◌then◌else◌, pos, ltb, leb, eqb, eqb_ℤ, ℤ, negsuc, Bool-cases,
  inl, inr, ap, ◌∙◌,
}
use tortureu.Base.Decimal.{append_text, show}
use tortureu.Base.Result.{Result, ok, err}
use tortureu.Base.Strings.{trim_space, byte_length}
use tortureu.Base.Text.{concat}
use Prim.Native.Char.{Char, code, len_utf8}
use Prim.Native.String
use tortureu.Trend.{Record, Skip, Store}

unfoldable pub schema_version : ℤ
schema_version = pos 1

unfoldable pub default_store : String
default_store = ".tortureu/trend.jsonl"

-- bufio.ScanLines, with the line that is being read. A carriage return at a line's end goes with the
-- white space that is trimmed from it.
unfoldable pub lines_from : String → String → List String
lines_from line String.[] = if line == "" then [] else line ∷ []
lines_from line (String.◌∷◌ c s) =
    let next = lines_from "" s in
    let longer = lines_from (append_text line (String.◌∷◌ c "")) s in
    if eqb (code c) b'\n' then line ∷ next else longer

-- the scanner's buffer holds a line with its newline
unfoldable pub max_line : ℕ
max_line = 8388608

abbrev pub is_too_long : String → Bool
is_too_long line = leb max_line (byte_length line)

-- what os.Open and the reads answer
pub data File : Type 0 where
  missing : File
  unreadable : String → File
  content : String → File

pub data Error : Type 0 where
  cannot_open : String → Error
  line_too_long : Error

abbrev int_text : ℤ → String
int_text (pos n) = show n
int_text (negsuc n) = append_text "-" (show (suc n))

abbrev bad_version : ℕ → ℤ → Skip
bad_version n v = record {
  line = n;
  reason = concat ("schema version " ∷ int_text v ∷ ", this build understands 1" ∷ []);
}

abbrev bad_json : ℕ → String → Skip
bad_json n e = record { line = n; reason = append_text "not valid JSON: " e }

abbrev pub Loaded : Type 0
Loaded = List Record × List Skip

-- json.Unmarshal of one line
module _ (decode : String → Result String Record) where
  abbrev pub decoded : ℕ → Result String Record → Loaded → Loaded
  decoded n (err e) (records, skipped) = (records, bad_json n e ∷ skipped)
  decoded n (ok rec) (records, skipped) =
      if eqb_ℤ rec.v schema_version
      then (rec ∷ records, skipped)
      else (records, bad_version n rec.v ∷ skipped)

  -- one line, with what the later lines give
  unfoldable pub load_line : ℕ → String → Loaded → Loaded
  unfolding trim_space schema_version show
  load_line n line later =
      if trim_space line == "" then later else decoded n (decode (trim_space line)) later

  unfoldable pub load_lines : ℕ → List String → Result Error Loaded
  unfolding load_line max_line
  load_lines n [] = ok ([], [])
  load_lines n (line ∷ lines) =
      let rest = load_lines (suc n) lines in
      if is_too_long line
      then err line_too_long
      else elim rest [ err e ↦ err e | ok later ↦ ok (load_line n line later) ]

  abbrev pub store_of : String → Result Error Loaded → Result Error Store
  store_of path (err e) = err e
  store_of path (ok (records, skipped)) =
      ok (record { path = path; records = records; skipped = skipped })

  unfoldable pub load : String → File → Result Error Store
  unfolding load_lines lines_from default_store
  load path file =
      let place = if path == "" then default_store else path in
      elim file [
        | missing ↦ ok (record { path = place; records = []; skipped = [] })
        | unreadable e ↦ err (cannot_open e)
        | content s ↦ store_of place (load_lines 1 (lines_from "" s))
      ]

-- what the file holds after the write of one line; a file that is missing is created
module _ (encode : Record → String) where
  unfoldable pub append : File → Record → File
  append missing rec = content (append_text (encode rec) "\n")
  append (unreadable e) rec = unreadable e
  append (content s) rec = content (append_text s (append_text (encode rec) "\n"))
