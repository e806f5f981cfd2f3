-- ===== src/Drive/Results.antt =====
-- internal/run/drive.go: what the co-driven tools add to a verdict.
use tortureu.Base.{
  ℕ, String, Bool, true, false, List, [], ◌∷◌, ◌++◌, Option, none, some, not, pos, if◌then◌else◌,
  map, length, ltb,
}
use tortureu.Base.Decimal.{append_text}
use tortureu.Base.Result.{Result, ok, err, ◌>>=◌}
use tortureu.Config
use tortureu.Config.{Stage}
use tortureu.Verdict.{Finding, Confidence, correlated, ambiguous, Candidate}
use tortureu.Findings.{System, AuditFinding, build_candidates_from_detected_deps}
use tortureu.Findings.Thresholds.{no_finding}
use tortureu.Drive.{CoDrivers, DbLoadResult, FuzzFailure, FuzzResult}

pub data Warning : Type 0 where
  never_started db_cut_short fuzz_cut_short : Warning
  unexecuted : ℕ → Warning

-- what the co-driven tools add to the verdict
pub record Added : Type 0 where
  pub db_load : Option DbLoadResult
  pub warnings : List Warning
  pub findings : List Finding

abbrev nothing_added : Added
nothing_added = record { db_load = none; warnings = []; findings = [] }

pub data ToolError : Type 0 where
  db_tool fuzz_tool : String → ToolError

abbrev pub warn_if : Bool → Warning → List Warning
warn_if true w = w ∷ []
warn_if false w = []

abbrev from_db : DbLoadResult → Result ToolError Added
from_db r = elim r.error [
  | some e ↦ err (db_tool e)
  | none ↦
      ok (record { db_load = some r; warnings = warn_if r.cut_short db_cut_short; findings = [] })
]

-- the part on the database load
unfoldable pub add_db : Option String → Option DbLoadResult → Result ToolError Added
add_db (some e) res = err (db_tool e)
add_db none none = ok nothing_added
add_db none (some r) = from_db r

abbrev pub fuzz_confidence : List Config.Fault → Confidence
fuzz_confidence faults = if ltb 0 (length faults) then ambiguous else correlated

unfoldable pub fuzz_finding : Confidence → List Candidate → FuzzFailure → Finding
fuzz_finding conf candidates f = record no_finding {
  confidence = conf;
  broke = record {
    assertion = append_text "schemathesis: " f.operation;
    observed = f.detail;
    at = "";
    sustained_s = pos 0;
  };
  candidates = candidates;
}

abbrev pub fuzz_warnings : FuzzResult → List Warning
fuzz_warnings r =
    warn_if r.cut_short fuzz_cut_short ++ warn_if (ltb 0 r.unexecuted) (unexecuted r.unexecuted)

-- the part on the fuzzer
unfoldable pub add_fuzz :
    Config.Config
    → System
    → List AuditFinding
    → Option String
    → Option FuzzResult
    → Added
    → Result ToolError Added
unfolding fuzz_finding build_candidates_from_detected_deps
add_fuzz cfg sys audit (some e) res a = err (fuzz_tool e)
add_fuzz cfg sys audit none none a = ok a
add_fuzz cfg sys audit none (some r) a = elim r.error [
  | some e ↦ err (fuzz_tool e)
  | none ↦ ok (record a {
    warnings = a.warnings ++ fuzz_warnings r;
    findings =
        map
          (fuzz_finding (fuzz_confidence cfg.faults)
            (build_candidates_from_detected_deps sys.deps audit sys.lang))
          r.failures;
  })
]

unfoldable pub apply_drive_results :
    Config.Config → System → List AuditFinding → CoDrivers → Result ToolError Added
unfolding add_db add_fuzz
apply_drive_results cfg sys audit c =
    if not c.started
    then ok (record nothing_added { warnings = never_started ∷ [] })
    else (do a ← add_db c.db_error c.db_result; add_fuzz cfg sys audit c.fuzz_error c.fuzz_result a)
