-- ===== src/Tests/Captures.antt =====
-- A body and a store file.
use tortureu.Base.{
  String, Bool, true, false, List, [], ◌∷◌, ◌++◌, ◌≡◌, ◌≢◌, refl, arith, eq_iff, pos, contains, not,
  ◌&&◌, ◌==◌, if◌then◌else◌,
}
use tortureu.Base.Result.{Result, ok, err}
use tortureu.Value.{Value, str, obj, end, field}
use tortureu.Capture.{scrub_value}
use tortureu.Capture.Scrubbed.{
  SamePublic, same_obj, same_str, shown, hidden, same_end, scrub_value-SamePublic,
}
use tortureu.Trend.{Record, Store, diff_findings}
use tortureu.Trend.Lines.{load, append, content}
use tortureu.Trend.Lines.RoundTrip.{load-append}
use tortureu.Verdict.{Finding, Verdict}
use tortureu.Findings.Thresholds.{no_finding}
use tortureu.Tests.Verdicts.{v}

abbrev login : String → Value
login password = obj (field "user" (str "ann") (field "Password" (str password) end))

logins_same : SamePublic (login "hunter2") (login "letmein")
unfolding tortureu.Capture.normalize_key tortureu.Capture.sensitive_fields
logins_same = same_obj (shown (same_str "ann") (hidden {k = "Password"} refl same_end))

scrub_value-SamePublic_example :
    (scrub_value (login "hunter2") ≡ scrub_value (login "letmein"))
    × SamePublic (login "letmein") (scrub_value (login "hunter2"))
scrub_value-SamePublic_example =
    scrub_value-SamePublic (login "hunter2") (login "letmein") logins_same

abbrev last_run : Record
last_run = record {
  v = pos 1;
  run_id = "r2";
  scenario = "checkout";
  commit = "c3";
  status = "pass";
  exit_code = pos 0;
  started_at = "";
  duration_s = pos 60;
  metrics = [];
  findings = [];
}

abbrev encode_id : Record → String
encode_id r = r.run_id

-- reads the records of one scenario by their ids
abbrev decode_id : String → Result String Record
decode_id line = if line == "" then err "empty" else ok (record last_run { run_id = line })

abbrev one_run : Store
one_run = record {
  path = "runs.jsonl";
  records = record last_run { run_id = "r1" } ∷ [];
  skipped = [];
}

loads_one : load decode_id "runs.jsonl" (content "r1\n") ≡ ok one_run
unfolding load
loads_one = refl

r2_trimmed : tortureu.Base.Strings.trim_space "r2" ≡ "r2"
unfolding tortureu.Base.Strings.trim_space
r2_trimmed = refl

r2_short : tortureu.Trend.Lines.is_too_long "r2" ≡ false
unfolding tortureu.Trend.Lines.max_line
r2_short = refl

load-append_example :
    load decode_id "runs.jsonl" (append encode_id (content "r1\n") last_run)
    ≡ ok (record one_run { records = record last_run { run_id = "r1" } ∷ last_run ∷ [] })
unfolding tortureu.Trend.Lines.schema_version
load-append_example =
    load-append decode_id encode_id "runs.jsonl" last_run "r1\n" one_run refl refl r2_short
      (rw r2_trimmed (ground (arith, eq_iff "r2" ""))) (rw r2_trimmed refl) refl loads_one

abbrev slow : Finding
slow = record no_finding {
  id = "f1";
  broke = record {
    assertion = "http_req_duration: p(95)<5";
    observed = "9ms";
    at = "";
    sustained_s = pos 0;
  };
}

abbrev first_verdict : Verdict
first_verdict = record v { findings = [] }

abbrev second_verdict : Verdict
second_verdict = record v { findings = slow ∷ [] }
