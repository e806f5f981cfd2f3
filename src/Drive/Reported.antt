-- ===== src/Drive/Reported.antt =====
-- What the co-driven tools add to a verdict.
use tortureu.Base.{
  String, true, false, List, [], ◌∷◌, ◌++◌, Option, none, some, ◌≡◌, refl, arith, inl, inr, ◌⊎◌,
  Option-cases, Bool-cases, map, ap, sym, All, ◌∙◌, if◌then◌else◌, eqb,
}
use tortureu.Base.Decimal.{append_text}
use tortureu.Base.Result.{ok, >>=-eq-ok}
use tortureu.Config
use tortureu.Verdict.{Candidate, Confidence}
use tortureu.Findings.{System, AuditFinding, build_candidates_from_detected_deps}
use mathlib.Core.List.{append-nil}
use tortureu.Drive.{CoDrivers, DbLoadResult, FuzzResult, FuzzFailure}
use tortureu.Drive.Results.{
  Added, Warning, never_started, db_cut_short, apply_drive_results, add_db, add_fuzz, fuzz_finding,
  fuzz_cut_short, unexecuted, fuzz_confidence, warn_if, fuzz_warnings,
}

-- the failures that the fuzzer found
abbrev pub failures_of : Option FuzzResult → List FuzzFailure
failures_of none = []
failures_of (some r) = r.failures

-- what is said of a load: that it was cut short
abbrev pub warned_db : Option DbLoadResult → List Warning
warned_db none = []
warned_db (some r) = if r.cut_short then db_cut_short ∷ [] else []

-- what is said of the fuzzer's pass: that it was cut short, and how many operations it left out
abbrev pub warned_fuzz : Option FuzzResult → List Warning
warned_fuzz none = []
warned_fuzz (some r) = if r.cut_short then fuzz_cut_short ∷ left_out r else left_out r
  where
    left_out : FuzzResult → List Warning
    left_out r = if eqb r.unexecuted 0 then [] else unexecuted r.unexecuted ∷ []

-- the confidence of a failure by the faults of the run
abbrev pub blamed : List Config.Fault → Confidence
blamed [] = "correlated"
blamed (f ∷ fs) = "ambiguous"

blamed-fuzz_confidence : (fs : List Config.Fault) → fuzz_confidence fs ≡ blamed fs
blamed-fuzz_confidence [] = refl
blamed-fuzz_confidence (f ∷ fs) = ground arith

warned-warn_if : (r : DbLoadResult) → warn_if r.cut_short db_cut_short ≡ warned_db (some r)
warned-warn_if r = ground arith

warned-fuzz_warnings : (r : FuzzResult) → fuzz_warnings r ≡ warned_fuzz (some r)
warned-fuzz_warnings r = ground arith

-- What is added, when a phase was announced: the load's numbers, one finding for each failure, and the
-- warnings that their flags ask for. No launch and no tool has failed.
pub record IsReported (cfg : Config.Config) (c : CoDrivers) (a : Added) : Type 0 where
  pub launched : (c.db_error ≡ none) × (c.fuzz_error ≡ none)
  pub db_ran : (r : DbLoadResult) → c.db_result ≡ some r → r.error ≡ none
  pub fuzz_ran : (r : FuzzResult) → c.fuzz_result ≡ some r → r.error ≡ none
  pub db_load : a.db_load ≡ c.db_result
  pub operations :
      map (λ f. f.broke.assertion) a.findings
      ≡ map (λ x. append_text "schemathesis: " x.operation) (failures_of c.fuzz_result)
  pub observed :
      map (λ f. f.broke.observed) a.findings ≡ map (λ x. x.detail) (failures_of c.fuzz_result)
  pub confidence : All (λ f. f.confidence ≡ blamed cfg.faults) a.findings
  pub warnings : a.warnings ≡ warned_db c.db_result ++ warned_fuzz c.fuzz_result

add_db-eq-ok :
    (e : Option String) (res : Option DbLoadResult) (a : Added)
    → add_db e res ≡ ok a
    → (e ≡ none)
      × ((r : DbLoadResult) → res ≡ some r → r.error ≡ none)
      × (a.db_load ≡ res)
      × (a.warnings ≡ warned_db res)
      × (a.findings ≡ [])
unfolding add_db
add_db-eq-ok (some x) res a h = cc
add_db-eq-ok none none a h = ground arith
add_db-eq-ok none (some r) a h = elim (Option-cases r.error) [
  | inr (x, e) ↦ let h' = rw e at h in cc
  | inl n ↦
      let h' = rw n at h in
      (
        refl,
        λ q e. (let same : r ≡ q = ground arith in rw same at n),
        ground arith,
        ground (arith, warned-warn_if r),
        ground arith,
      )
]

assertions-map :
    (conf : String) (cs : List Candidate) (xs : List FuzzFailure)
    → map (λ f. f.broke.assertion) (map (fuzz_finding conf cs) xs)
      ≡ map (λ x. append_text "schemathesis: " x.operation) xs
unfolding fuzz_finding
assertions-map conf cs [] = refl
assertions-map conf cs (x ∷ xs) =
    ap (λ l. append_text "schemathesis: " x.operation ∷ l) (assertions-map conf cs xs)

observed-map :
    (conf : String) (cs : List Candidate) (xs : List FuzzFailure)
    → map (λ f. f.broke.observed) (map (fuzz_finding conf cs) xs) ≡ map (λ x. x.detail) xs
unfolding fuzz_finding
observed-map conf cs [] = refl
observed-map conf cs (x ∷ xs) = ap (λ l. x.detail ∷ l) (observed-map conf cs xs)

confidence-map :
    (conf : String) (cs : List Candidate) (xs : List FuzzFailure)
    → All (λ f. f.confidence ≡ conf) (map (fuzz_finding conf cs) xs)
unfolding fuzz_finding
confidence-map conf cs [] = tt
confidence-map conf cs (x ∷ xs) = (refl, confidence-map conf cs xs)

-- what the fuzzer's part does to what the load's part has added
record AddsFuzz (cfg : Config.Config) (e : Option String) (res : Option FuzzResult) (a b : Added)
    : Type 0 where
  launched : e ≡ none
  ran : (r : FuzzResult) → res ≡ some r → r.error ≡ none
  db_load : b.db_load ≡ a.db_load
  warnings : b.warnings ≡ a.warnings ++ warned_fuzz res
  operations :
      map (λ f. f.broke.assertion) b.findings
      ≡ map (λ x. append_text "schemathesis: " x.operation) (failures_of res)
  observed : map (λ f. f.broke.observed) b.findings ≡ map (λ x. x.detail) (failures_of res)
  confidence : All (λ f. f.confidence ≡ blamed cfg.faults) b.findings

add_fuzz-eq-ok :
    (cfg : Config.Config) (sys : System) (audit : List AuditFinding) (e : Option String)
    (res : Option FuzzResult) (a b : Added)
    → a.findings ≡ []
    → add_fuzz cfg sys audit e res a ≡ ok b
    → AddsFuzz cfg e res a b
unfolding add_fuzz
add_fuzz-eq-ok cfg sys audit (some x) res a b f h = cc
add_fuzz-eq-ok cfg sys audit none none a b f h =
    let same : a ≡ b = ground arith in
    rw (← same) (record {
      launched = refl;
      ran = λ r n. cc;
      db_load = refl;
      warnings = sym (append-nil a.warnings);
      operations = rw f refl;
      observed = rw f refl;
      confidence = rw f tt;
    })
add_fuzz-eq-ok cfg sys audit none (some r) a b f h = elim (Option-cases r.error) [
  | inr (x, n) ↦ let h' = rw n at h in cc
  | inl n ↦
      let conf = fuzz_confidence cfg.faults in
      let cs = build_candidates_from_detected_deps sys.deps audit sys.lang in
      let whole : record a {
        warnings = a.warnings ++ fuzz_warnings r;
        findings = map (fuzz_finding conf cs) r.failures;
      }
          ≡ b =
        (let h' = rw n at h in ground arith) in
      rw (← whole) (record {
        launched = refl;
        ran = λ q e. (let same : r ≡ q = ground arith in rw same at n);
        db_load = refl;
        warnings = ap (λ l. a.warnings ++ l) (warned-fuzz_warnings r);
        observed = observed-map conf cs r.failures;
        operations = assertions-map conf cs r.failures;
        confidence = rw (← blamed-fuzz_confidence cfg.faults) (confidence-map conf cs r.failures);
      })
]

-- What the co-driven tools add to a verdict, when it is no error. If no phase was announced: one warning,
-- and nothing else. If one was: no launch has returned an error and neither tool has reported one, the
-- database load's numbers are those it reported, the fuzzer's failures are the findings, one for each and
-- in order, with its operation and what was observed, each `correlated` when the run declares no fault and
-- `ambiguous` when it declares one, and there is a warning for a cut load, for a cut pass, and for
-- operations that were left out.
pub apply_drive_results-IsReported :
    (cfg : Config.Config) (sys : System) (audit : List AuditFinding) (c : CoDrivers) (a : Added)
    → apply_drive_results cfg sys audit c ≡ ok a
    → ((c.started ≡ false)
        × (a.warnings ≡ never_started ∷ [])
        × (a.findings ≡ [])
        × (a.db_load ≡ none))
      ⊎ ((c.started ≡ true) × IsReported cfg c a)
unfolding apply_drive_results
apply_drive_results-IsReported cfg sys audit c a h = elim (Bool-cases c.started) [
  | inr f ↦ let h' = rw f at h in inl (f, ground arith, ground arith, ground arith)
  | inl t ↦
      let h' = rw t at h in
      let (first, d, h1) = >>=-eq-ok (add_db c.db_error c.db_result) _ h' in
      let (none_failed, ran, same, warned, no_findings) =
        add_db-eq-ok c.db_error c.db_result first d in
      let z = add_fuzz-eq-ok cfg sys audit c.fuzz_error c.fuzz_result first a no_findings h1 in
      inr (
        t,
        record {
          launched = (none_failed, z.launched);
          db_ran = ran;
          fuzz_ran = z.ran;
          db_load = z.db_load ∙ same;
          operations = z.operations;
          observed = z.observed;
          confidence = z.confidence;
          warnings = z.warnings ∙ ap (λ l. l ++ warned_fuzz c.fuzz_result) warned;
        },
      )
]
