-- ===== src/Trend/Project.antt =====
-- Project: the row that the store keeps of a verdict.
use tortureu.Base.{
  String, Bool, false, List, [], ◌∷◌, Option, none, some, ◌==◌, ◌≡◌, refl, ◌&&◌, ◌||◌, not, Dict,
  insert, contains, if◌then◌else◌, map, pos, arith, ◌∙◌,
}
use tortureu.Base.Sort.{sort_strings}
use tortureu.Base.Sort.Members.{contains-sort_strings}
use tortureu.Base.Strings.{trim_space}
use tortureu.Base.Text.{concat}
use tortureu.Float64
use tortureu.Float64.{Float64}
use tortureu.Value.{Value, Fields, int, int64, float, obj, end, field}
use tortureu.Verdict.{Verdict, Finding, Cause, exit_code}
use tortureu.Trend.{Record, diff_findings}
use tortureu.Trend.Difference.{contains-diff_findings}

abbrev assertion_key : String → String
assertion_key key = if key == "" then "(no assertion)" else key

abbrev fault_part : Option Cause → String
fault_part none = ""
fault_part (some c) = if c.fault == "" then "" else concat ("  [fault: " ∷ c.fault ∷ "]" ∷ [])

unfoldable pub finding_key : Finding → String
unfolding trim_space
finding_key f = concat (
    assertion_key (trim_space f.broke.assertion)
    ∷ fault_part f.cause
    ∷ (if f.unevaluated then "  (unevaluated)" else "")
    ∷ [])

abbrev dotted : String → String → String
dotted prefix k = if prefix == "" then k else concat (prefix ∷ "." ∷ k ∷ [])

-- every numeric leaf under its dotted path
unfoldable mutual
  unfolding Float64.of_int

  pub flatten : String → Fields → Dict Float64 → Dict Float64
  flatten prefix end out = out
  flatten prefix (field k v fs) out = flatten prefix fs (flatten_value (dotted prefix k) v out)

  pub flatten_value : String → Value → Dict Float64 → Dict Float64
  flatten_value key (obj fs) out = flatten key fs out
  flatten_value key (float x) out = insert key x out
  flatten_value key (int n) out = insert key (Float64.of_int n) out
  flatten_value key (int64 n) out = insert key (Float64.of_int n) out
  flatten_value key _ out = out

abbrev fields_of : Dict Value → Fields
fields_of [] = end
fields_of ((k, v) ∷ m) = field k v (fields_of m)

unfoldable pub project : Verdict → Record
unfolding exit_code flatten finding_key sort_strings
project v = record {
  v = pos 1;
  run_id = v.run_id;
  scenario = v.scenario;
  commit = v.commit;
  status = v.status;
  exit_code = pos (exit_code v);
  started_at = v.started_at;
  duration_s = pos v.duration_s;
  metrics = flatten "" (fields_of v.metrics) [];
  findings = sort_strings (map finding_key v.findings);
}

-- whether a verdict has a finding with this identity
abbrev pub has_finding : List Finding → String → Bool
has_finding [] key = false
has_finding (f ∷ fs) key = (finding_key f == key) || has_finding fs key

contains-map_key :
    (fs : List Finding) (key : String) → contains (map finding_key fs) key ≡ has_finding fs key
contains-map_key [] key = refl
contains-map_key (f ∷ fs) key = ground (arith, contains-map_key fs key)

contains-project :
    (v : Verdict) (key : String) → contains (project v).findings key ≡ has_finding v.findings key
unfolding project sort_strings
contains-project v key =
    contains-sort_strings (map finding_key v.findings) key ∙ contains-map_key v.findings key

-- Between the recorded rows of two runs, a finding is reported as new when the later verdict has a
-- finding of that identity and the earlier one has none, and as gone when it is the other way round,
-- whatever the order and the ids of the findings in the two documents.
pub diff-project :
    (before after : Verdict) (key : String)
    → let diff = diff_findings (project before).findings (project after).findings in
      (contains diff.0 key
        ≡ (has_finding after.findings key && not (has_finding before.findings key)))
      × (contains diff.1 key
          ≡ (has_finding before.findings key && not (has_finding after.findings key)))
diff-project before after key =
    let (new, gone) =
      contains-diff_findings (project before).findings (project after).findings key in
    let a = contains-project after key in
    let b = contains-project before key in (ground arith, ground arith)
