-- ===== src/Verdict.antt =====
-- internal/verdict: the verdict document, the confidence ceiling and the exit code. `nil` and an
-- empty slice are one list here, as the JSON document writes them alike.
pub mod ExitCode
pub mod Confidence
use tortureu.Base.{
  ℕ, String, Bool, true, false, List, [], ◌∷◌, Option, none, some, ◌==◌, Dict, if◌then◌else◌, ltb,
  lookup, ℤ, is_some,
}
use tortureu.Value.{Value}

abbrev pub Status : Type 0
Status = String

abbrev pub status_pass : Status
status_pass = "pass"

abbrev pub status_fail : Status
status_fail = "fail"

abbrev pub status_error : Status
status_error = "error"

abbrev pub status_aborted : Status
status_aborted = "aborted"

abbrev pub Confidence : Type 0
Confidence = String

abbrev pub caused : Confidence
caused = "caused"

abbrev pub correlated : Confidence
correlated = "correlated"

abbrev pub ambiguous : Confidence
ambiguous = "ambiguous"

pub record Broke : Type 0 where
  pub assertion : String
  pub observed : String
  pub at : String
  pub sustained_s : ℤ

pub record Cause : Type 0 where
  pub fault : String
  pub target : String
  pub inject : Dict Value
  pub window : List String

pub record ChainHop : Type 0 where
  pub at : String
  pub observed : String

pub record Candidate : Type 0 where
  pub library : String
  pub source : String
  pub knobs : List String

pub record Finding : Type 0 where
  pub id : String
  pub confidence : Confidence
  pub broke : Broke
  pub unevaluated : Bool
  pub reason : String
  pub cause : Option Cause
  pub chain : List ChainHop
  pub candidates : List Candidate
  pub amplification : String

pub record Passed : Type 0 where
  pub assertion : String
  pub observed : String

pub record EgressAudit : Type 0 where
  pub mocked : List String
  pub blocked : List String
  pub real : List String
  pub unclassified : List String

pub record Observability : Type 0 where
  pub traces : Bool
  pub metrics : Bool
  pub logs : Bool
  pub max_confidence : Confidence

pub record Verdict : Type 0 where
  pub run_id : String
  pub scenario : String
  pub status : Status
  pub started_at : String
  pub duration_s : ℕ
  pub commit : String
  pub reset : String
  pub error : String
  pub findings : List Finding
  pub passed : List Passed
  pub egress_audit : EgressAudit
  pub observability : Observability
  pub metrics : Dict Value
  pub warnings : List String  -- Artifacts["warnings"], the one artifact that a run writes

-- the loop of allAmbiguous
unfoldable pub every_ambiguous : List Finding → Bool
every_ambiguous [] = true
every_ambiguous (f ∷ fs) = if f.confidence == ambiguous then every_ambiguous fs else false

unfoldable pub all_ambiguous : List Finding → Bool
unfolding every_ambiguous
all_ambiguous [] = false
all_ambiguous (f ∷ fs) = every_ambiguous (f ∷ fs)

unfoldable pub exit_code : Verdict → ℕ
unfolding all_ambiguous
exit_code v =
    if v.status == status_pass
    then 0
    else if v.status == status_error
    then 2
    else if v.status == status_aborted
    then 3
    else if v.status == status_fail
    then (if all_ambiguous v.findings then 4 else 1)
    else 2

abbrev pub confidence_rank : Dict ℕ
confidence_rank = (ambiguous, 0) ∷ (correlated, 1) ∷ (caused, 2) ∷ []

-- an unknown confidence indexes the map to its zero value
abbrev pub rank_of : Confidence → ℕ
rank_of c = elim (lookup c confidence_rank) [ none ↦ 0 | some r ↦ r ]

unfoldable pub at_most : Confidence → Confidence → Confidence
at_most c ceiling =
    if is_some (lookup ceiling confidence_rank)
    then (if ltb (rank_of ceiling) (rank_of c) then ceiling else c)
    else c
