-- ===== src/Tests/Verdicts.antt =====
-- A verdict whose one finding is ambiguous.
use tortureu.Base.{[], ◌∷◌, none, ◌≡◌, ◌≢◌, ◌↔◌, pos, false, All}
use tortureu.Verdict.{
  Verdict, Finding, exit_code, status_pass, status_aborted, status_fail, ambiguous, correlated,
}
use tortureu.Verdict.ExitCode.{exit_code_iff, IsAmbiguous}

abbrev pub vague : Finding
vague = record {
  id = "f1";
  confidence = ambiguous;
  broke = record {
    assertion = "http_req_duration: p(95)<500";
    observed = "3003.21ms";
    at = "";
    sustained_s = pos 0;
  };
  unevaluated = false;
  reason = "";
  cause = none;
  chain = [];
  candidates = [];
  amplification = "";
}

abbrev pub v : Verdict
v = record {
  run_id = "run";
  scenario = "api";
  status = status_fail;
  started_at = "";
  duration_s = 90;
  commit = "";
  reset = "clean";
  error = "";
  findings = vague ∷ [];
  passed = [];
  egress_audit = record { mocked = []; blocked = []; real = []; unclassified = [] };
  observability = record {
    traces = false;
    metrics = false;
    logs = false;
    max_confidence = correlated;
  };
  metrics = [];
  warnings = [];
}

exit_code_iff_example :
    ((exit_code v ≡ 0) ↔ (v.status ≡ status_pass))
    × ((exit_code v ≡ 3) ↔ (v.status ≡ status_aborted))
    × ((exit_code v ≡ 4)
        ↔ ((v.status ≡ status_fail) × (v.findings ≢ []) × All IsAmbiguous v.findings))
    × ((exit_code v ≡ 1)
        ↔ ((v.status ≡ status_fail) × ¬ ((v.findings ≢ []) × All IsAmbiguous v.findings)))
exit_code_iff_example = exit_code_iff v
