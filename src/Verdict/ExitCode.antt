-- ===== src/Verdict/ExitCode.antt =====
-- What the process exit code says about a verdict.
use mathlib.Core.Bool.{false≢true}
use tortureu.Base.{
  sym, ◌∙◌, inl, inr, Bool-cases, false, ◌≡◌, ◌≢◌, ◌↔◌, List, [], ◌∷◌, arith, eq_iff, All, refl,
  true,
}
use tortureu.Verdict.{
  Verdict, Finding, status_pass, status_fail, status_error, status_aborted, ambiguous,
  every_ambiguous, all_ambiguous, exit_code,
}

abbrev pub IsAmbiguous : Finding → Type 0
IsAmbiguous f = f.confidence ≡ ambiguous

every_ambiguous-All : (fs : List Finding) → every_ambiguous fs ≡ true → All IsAmbiguous fs
unfolding every_ambiguous
every_ambiguous-All [] h = tt
every_ambiguous-All (f ∷ fs) h = (
  ground (arith, eq_iff f.confidence ambiguous),
  every_ambiguous-All fs (ground (arith, eq_iff f.confidence ambiguous)),
)

All-every_ambiguous : (fs : List Finding) → All IsAmbiguous fs → every_ambiguous fs ≡ true
unfolding every_ambiguous
All-every_ambiguous [] h = refl
All-every_ambiguous (f ∷ fs) h =
    ground (arith, eq_iff f.confidence ambiguous, All-every_ambiguous fs h.1)

all_ambiguous_iff :
    (fs : List Finding) → (all_ambiguous fs ≡ true) ↔ ((fs ≢ []) × All IsAmbiguous fs)
unfolding all_ambiguous
all_ambiguous_iff [] = (λ h. cc, λ h. absurd (h.0 refl))
all_ambiguous_iff (f ∷ fs) =
    (λ h. ((λ e. cc), every_ambiguous-All (f ∷ fs) h), λ h. All-every_ambiguous (f ∷ fs) h.1)

module _ (v : Verdict) where
  code_of_status :
      (v.status ≡ status_pass → exit_code v ≡ 0)
      × (v.status ≡ status_aborted → exit_code v ≡ 3)
      × (v.status ≡ status_fail → all_ambiguous v.findings ≡ true → exit_code v ≡ 4)
      × (v.status ≡ status_fail → all_ambiguous v.findings ≡ false → exit_code v ≡ 1)
  unfolding exit_code
  code_of_status = ((λ e. rw e), (λ e. rw e), (λ e h. rw (e, h)), (λ e h. rw (e, h)))

  status_of_code :
      (exit_code v ≡ 0 → v.status ≡ status_pass)
      × (exit_code v ≡ 3 → v.status ≡ status_aborted)
      × (exit_code v ≡ 4 → (v.status ≡ status_fail) × (all_ambiguous v.findings ≡ true))
      × (exit_code v ≡ 1 → (v.status ≡ status_fail) × (all_ambiguous v.findings ≡ false))
  unfolding exit_code
  status_of_code = ground (
    arith,
    eq_iff v.status status_pass,
    eq_iff v.status status_error,
    eq_iff v.status status_aborted,
    eq_iff v.status status_fail,
  )

  -- The exit code is 0 exactly for the status pass, 3 exactly for aborted, 4 exactly for a fail with
  -- at least one finding all of whose findings are ambiguous, and 1 exactly for every other fail.
  pub exit_code_iff :
      ((exit_code v ≡ 0) ↔ (v.status ≡ status_pass))
      × ((exit_code v ≡ 3) ↔ (v.status ≡ status_aborted))
      × ((exit_code v ≡ 4)
          ↔ ((v.status ≡ status_fail) × (v.findings ≢ []) × All IsAmbiguous v.findings))
      × ((exit_code v ≡ 1)
          ↔ ((v.status ≡ status_fail) × ¬ ((v.findings ≢ []) × All IsAmbiguous v.findings)))
  exit_code_iff =
      let (to0, to3, to4, to1) = code_of_status in
      let (from0, from3, from4, from1) = status_of_code in
      let (sound, complete) = all_ambiguous_iff v.findings in
      (
        (from0, to0),
        (from3, to3),
        (
          λ e. let (s, a) = from4 e in (s, (sound a).0, (sound a).1),
          λ h. to4 h.0 (complete (h.1, h.2)),
        ),
        (
          λ e. let (s, a) = from1 e in (s, λ h. false≢true (sym a ∙ complete h)),
          λ h. elim (Bool-cases (all_ambiguous v.findings)) [
            | inl a ↦ absurd (h.1 (sound a))
            | inr a ↦ to1 h.0 a
          ],
        ),
      )
