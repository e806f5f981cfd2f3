-- ===== src/Drive/Bound.antt =====
-- A co-driven tool may run for longer than the load profile.
use tortureu.Base.{
  ℕ, ◌+◌, ◌^◌, ◌<◌, false, List, [], ◌∷◌, none, some, ◌==◌, ◌≡◌, ◌≢◌, refl, arith, eq_iff, ℤ, pos,
  ◌+ℤ◌, Bool-cases, inl, inr, ap, ◌∙◌, sym,
}
use tortureu.Duration.{parse_duration}
use tortureu.Config
use tortureu.Config.{Stage}
use tortureu.K6.{wrap, duration_text}
use tortureu.K6.Stages.{Fits, wrap_small}
use tortureu.Drive.{drive_text, total_from, drive_duration}

-- Where a stage holds a rate, it has no `over:`.
abbrev pub HoldsFor : List Stage → Type 0
HoldsFor [] = Unit
HoldsFor (s ∷ ss) = (s.to ≡ "" → s.over ≡ "") × HoldsFor ss

-- when the last stage of a load profile ends, in nanoseconds
abbrev pub profile_end : (cursor : ℕ) (ss : List Stage) → Fits cursor ss → ℕ
profile_end cursor [] f = cursor
profile_end cursor (s ∷ ss) (d, p, small, f) = profile_end (cursor + d) ss f

no_duration : parse_duration "" ≡ none
unfolding parse_duration
no_duration = refl

-- a stage that ramps has a duration, so it has an `over:`
unparsed :
    (s : Stage) (d : ℤ)
    → (s.to == "") ≡ false
    → s.over ≡ ""
    → parse_duration (duration_text s) ≢ some d
unparsed s d f e p =
    let text : duration_text s ≡ "" = ground arith in
    let nothing : none ≡ some d = sym no_duration ∙ ap parse_duration (sym text) ∙ p in cc

same_text :
    (s : Stage) (d : ℤ)
    → (s.to ≡ "" → s.over ≡ "")
    → parse_duration (duration_text s) ≡ some d
    → drive_text s ≡ duration_text s
same_text s d h p = elim (Bool-cases (s.to == "")) [
  | inl e ↦ ground (arith, h ((eq_iff s.to "").0 e), eq_iff s.over "")
  | inr f ↦ elim (Bool-cases (s.over == "")) [
    | inl e ↦ absurd (ground (arith, eq_iff s.over "", unparsed s d f ((eq_iff s.over "").0 e)))
    | inr g ↦ ground arith
  ]
]

total_from-cons :
    (total d : ℤ) (s : Stage) (ss : List Stage)
    → parse_duration (drive_text s) ≡ some d
    → total_from total (s ∷ ss) ≡ total_from (wrap (total +ℤ d)) ss
unfolding total_from
total_from-cons total d s ss p = rw (total_from, p)

total_from-profile_end :
    (cursor : ℕ) (ss : List Stage) (f : Fits cursor ss)
    → HoldsFor ss
    → total_from (pos cursor) ss ≡ pos (profile_end cursor ss f)
total_from-profile_end cursor [] f h = unfold total_from in refl
total_from-profile_end cursor (s ∷ ss) (d, p, small, f) (only, h) =
    let text = same_text s (pos d) only p in
    total_from-cons (pos cursor) (pos d) s ss (rw text p)
    ∙ ap (λ t. total_from t ss) (wrap_small cursor d small)
    ∙ total_from-profile_end (cursor + d) ss f h

-- The bound on a co-driven tool is the end of the load profile and 30 seconds more, so the tool is not
-- bounded below the load that it runs under. The conditions: the durations are not negative, their sum
-- with the 30 seconds stays below 2^63 nanoseconds, and a stage that holds a rate has no `over:`.
pub drive_duration-profile_end :
    (cfg : Config.Config) (f : Fits 0 cfg.load.stages)
    → HoldsFor cfg.load.stages
    → profile_end 0 cfg.load.stages f + 30000000000 < 2 ^ 63
    → drive_duration cfg ≡ pos (profile_end 0 cfg.load.stages f + 30000000000)
unfolding drive_duration
drive_duration-profile_end cfg f h small =
    let e = profile_end 0 cfg.load.stages f in
    let t = total_from-profile_end 0 cfg.load.stages f h in
    let w = wrap_small e 30000000000 small in rw (t, w) (ground arith)
