-- ===== src/Load/Markers.antt =====
-- The marker that a generated script logs, through k6's logger and back.
use tortureu.Base.{
  String, Bool, true, false, List, [], ◌∷◌, none, some, ◌≡◌, ◌≢◌, refl, arith, not, ap, ◌∙◌, eq_iff,
  eqb, All, map,
}
use tortureu.Base.Decimal.{append_text}
use tortureu.Base.Strings.{fields, cut_text, cut_last, is_white, fields_from}
use tortureu.Base.Strings.Words.{
  all_codes, no_white, fields-trim_space, fields_from-word, cut_last-append, cut_text-skip_text,
}
use tortureu.Base.Text.{strip_prefix}
use Prim.Native.Char.{code}
use tortureu.K6.{parse_phase_marker, phase_in, phase_marker_prefix}
use tortureu.Load.{extract_marker_candidate, scan, is_too_long}

-- what markPhase passes to console.log
abbrev pub marker_text : String → String → String
marker_text phase stamp =
    append_text phase_marker_prefix (append_text " " (append_text phase (append_text " " stamp)))

-- a line of k6's logger: time="…" level=info msg="…" source=console
abbrev pub log_line : String → String → String
log_line time message = append_text "time=\"" (
    append_text time (append_text "\" level=info msg=\"" (append_text message "\" source=console")))

abbrev pub no_m : String → Bool
no_m s = all_codes (λ c. not (eqb b'm' c)) s

words-marker_text :
    (phase stamp : String)
    → all_codes no_white phase ≡ true
    → phase ≢ ""
    → fields (marker_text phase stamp) ≡ phase_marker_prefix ∷ phase ∷ fields_from "" stamp
unfolding fields phase_marker_prefix
words-marker_text phase stamp p n =
    fields_from-word "" phase_marker_prefix " " (append_text phase (append_text " " stamp))
      prefix_black space_white prefix_not_empty
    ∙ ap (λ l. phase_marker_prefix ∷ l) (fields_from-word "" phase " " stamp p space_white n)
  where
    space_white : is_white (code " ") ≡ true
    space_white = refl

    prefix_black : all_codes no_white phase_marker_prefix ≡ true
    prefix_black = refl

    prefix_not_empty : phase_marker_prefix ≢ ""
    prefix_not_empty = ground (arith, eq_iff phase_marker_prefix "")

parse-marker_text :
    (phase stamp : String)
    → all_codes no_white phase ≡ true
    → phase ≢ ""
    → parse_phase_marker (marker_text phase stamp) ≡ some phase
unfolding parse_phase_marker phase_in
parse-marker_text phase stamp p n =
    rw (fields-trim_space (marker_text phase stamp), words-marker_text phase stamp p n) refl

cut-time :
    (s before after : String)
    → cut_text "msg=\"" s ≡ some (before, after)
    → cut_text "msg=\"" (append_text "time=\"" s) ≡ some (append_text "time=\"" before, after)
unfolding cut_text
cut-time s before after h = rw h refl

cut-level :
    (s : String)
    → cut_text "msg=\"" (append_text "\" level=info msg=\"" s) ≡ some ("\" level=info ", s)
unfolding cut_text strip_prefix
cut-level s = refl

cut-log_line :
    (time message : String)
    → no_m time ≡ true
    → cut_text "msg=\"" (log_line time message)
      ≡ some (
        append_text "time=\"" (append_text time "\" level=info "),
        append_text message "\" source=console",
      )
cut-log_line time message h =
    let rest : String = append_text message "\" source=console" in
    cut-time (append_text time (append_text "\" level=info msg=\"" rest))
      (append_text time "\" level=info ") rest
      (cut_text-skip_text "m" "sg=\"" time (append_text "\" level=info msg=\"" rest)
        "\" level=info " rest h (cut-level rest))

no_quote : cut_last b'"' " source=console" ≡ none
unfolding cut_last
no_quote = refl

candidate-log_line :
    (time message : String)
    → no_m time ≡ true
    → extract_marker_candidate (log_line time message) ≡ message
unfolding extract_marker_candidate
candidate-log_line time message h =
    rw
      (
        extract_marker_candidate,
        cut-log_line time message h,
        cut_last-append "\"" message " source=console" no_quote,
      )
      refl

scan-empty : scan [] ≡ []
unfolding scan
scan-empty = refl

scan-some :
    (line phase : String) (lines : List String)
    → is_too_long line ≡ false
    → parse_phase_marker (extract_marker_candidate line) ≡ some phase
    → scan (line ∷ lines) ≡ phase ∷ scan lines
unfolding scan
scan-some line phase lines short h = rw (short, h) refl

-- One marker as it is logged: the time of the line, the phase, and the number behind it.
pub record Logged : Type 0 where
  pub time : String
  pub phase : String
  pub stamp : String

abbrev pub line_of : Logged → String
line_of l = log_line l.time (marker_text l.phase l.stamp)

abbrev pub IsPlain : Logged → Type 0
IsPlain l =
    (no_m l.time ≡ true)
    × (all_codes no_white l.phase ≡ true)
    × (l.phase ≢ "")
    × (is_too_long (line_of l) ≡ false)

-- The markers that a generated script logs survive k6's logger: from the lines that k6 writes the phases
-- are read back, all of them and in order. The conditions are that a phase is not empty and has no white
-- space, that the time of a line has no m in it, as no timestamp has, and that every line is shorter than
-- the 65536 bytes of the scanner's buffer, since a longer one ends the reading.
pub scan-map_line :
    (ls : List Logged) → All IsPlain ls → scan (map line_of ls) ≡ map (λ l. l.phase) ls
scan-map_line [] h = scan-empty
scan-map_line (l ∷ ls) ((t, p, n, short), h) =
    scan-some (line_of l) l.phase (map line_of ls) short (
      rw (candidate-log_line l.time (marker_text l.phase l.stamp) t)
        (parse-marker_text l.phase l.stamp p n))
    ∙ ap (λ phases. l.phase ∷ phases) (scan-map_line ls h)
