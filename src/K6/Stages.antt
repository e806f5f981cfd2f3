-- ===== src/K6/Stages.antt =====
-- The stages of a script: their phases, and when each one's marker fires.
use tortureu.Base.{
  ℕ, ◌+◌, ◌^◌, ◌<◌, List, [], ◌∷◌, some, ◌==◌, ◌≡◌, refl, arith, ℤ, pos, ◌+ℤ◌, map, if◌then◌else◌,
  not, Option-cases, inl, inr, ◌⊎◌, ◌≢◌, String, Bool-cases, eq_iff,
}
use tortureu.Base.Result.{Result, ok, >>=-eq-ok, reject_if-eq-ok}
use tortureu.Duration.{parse_duration}
use tortureu.Float64
use tortureu.Float64.{Float64}
use tortureu.Config
use tortureu.Config.{Stage}
use tortureu.K6.{
  Error, CompiledStage, Script, resolve_stage, resolve_from, resolve_stages, wrap, duration_text,
  target_text, compile, parse_rps, is_empty, bad_model, empty_stages,
}

-- how long a stage lasts: `over` where it ramps to a rate, `for` where it holds one
abbrev pub Lasts : Stage → String → Type 0
Lasts s text = ((s.to ≢ "") × (text ≡ s.over)) ⊎ ((s.to ≡ "") × (text ≡ s.for))

duration_text-Lasts : (s : Stage) → Lasts s (duration_text s)
duration_text-Lasts s = elim (Bool-cases (s.to == "")) [
  | inl e ↦ inr ((eq_iff s.to "").0 e, rw e refl)
  | inr n ↦ inl (ground (arith, eq_iff s.to ""), rw n refl)
]

-- What the stages of a script are, when the first one starts at `cursor` nanoseconds: one for each
-- stage of the configuration, in order, with its phase, target and duration, each starting when the
-- one before it has ended.
abbrev pub Starts : ℕ → List Stage → List CompiledStage → Type 0
Starts cursor [] [] = Unit
Starts cursor [] (c ∷ cs) = ⊥
Starts cursor (s ∷ ss) [] = ⊥
Starts cursor (s ∷ ss) (c ∷ cs) =
    (c.phase ≡ s.phase)
    × (parse_rps (target_text s) ≡ some c.target)
    × (c.start_at ≡ pos cursor)
    × Lasts s c.duration
    × ((d : ℕ) × (parse_duration c.duration ≡ some (pos d)) × Starts (cursor + d) ss cs)

-- no duration is negative, and from `cursor` on they stay below 2^63 nanoseconds, which is 292 years
abbrev pub Fits : ℕ → List Stage → Type 0
Fits cursor [] = Unit
Fits cursor (s ∷ ss) =
    (d : ℕ) × (parse_duration (duration_text s) ≡ some (pos d))
    × (cursor + d < 2 ^ 63)
    × Fits (cursor + d) ss

pub wrap_small : (a b : ℕ) → a + b < 2 ^ 63 → wrap (pos a +ℤ pos b) ≡ pos (a + b)
unfolding wrap ◌+ℤ◌
wrap_small a b h = ground arith

resolve_stage-eq-ok :
    (s : Stage) (target : Float64) (dur : ℤ)
    → resolve_stage s ≡ ok (target, dur)
    → (parse_rps (target_text s) ≡ some target) × (parse_duration (duration_text s) ≡ some dur)
unfolding resolve_stage
resolve_stage-eq-ok s target dur h = elim (Option-cases (parse_rps (target_text s))) [
  | inl n ↦ let h' = rw n at h in cc
  | inr (t, e) ↦ elim (Option-cases (parse_duration (duration_text s))) [
    | inl n ↦ let h' = rw (e, n) at h in cc
    | inr (d, f) ↦ let h' = rw (e, f) at h in ground arith
  ]
]

-- one round of the loop
Starts-cons :
    (cursor d : ℕ) (dur : ℤ) (s : Stage) (ss : List Stage) (target top last last' : Float64)
    (stages cs : List CompiledStage)
    → parse_duration (duration_text s) ≡ some (pos d)
    → cursor + d < 2 ^ 63
    → (parse_rps (target_text s) ≡ some target) × (parse_duration (duration_text s) ≡ some dur)
    → resolve_from (wrap (pos cursor +ℤ dur)) top ss ≡ ok (stages, last)
    → (resolve_from (pos (cursor + d)) top ss ≡ ok (stages, last) → Starts (cursor + d) ss stages)
    → ◌≡◌ {A = Result Error (List CompiledStage × Float64)}
        (ok (
          record {
            phase = s.phase;
            target = target;
            duration = duration_text s;
            start_at = pos cursor;
          }
              ∷ stages,
          last,
        ))
        (ok (cs, last'))
    → Starts cursor (s ∷ ss) cs
Starts-cons cursor d dur s ss target top last last' stages cs p small (t, e) r ih h =
    let same : pos d ≡ dur = ground arith in
    let r' : resolve_from (wrap (pos cursor +ℤ pos d)) top ss ≡ ok (stages, last) = rw same r in
    let next = ih (rw (wrap_small cursor d small) at r') in
    let whole : record {
      phase = s.phase;
      target = target;
      duration = duration_text s;
      start_at = pos cursor;
    }
          ∷ stages
        ≡ cs =
      ground arith in
    rw (← whole) (refl, t, refl, duration_text-Lasts s, (d, p, next))

resolve_from-Starts :
    (cursor : ℕ) (top : Float64) (ss : List Stage) (cs : List CompiledStage) (last : Float64)
    → Fits cursor ss
    → resolve_from (pos cursor) top ss ≡ ok (cs, last)
    → Starts cursor ss cs
unfolding resolve_from
resolve_from-Starts cursor top [] [] last f h = tt
resolve_from-Starts cursor top [] (c ∷ cs) last f h = cc
resolve_from-Starts cursor top (s ∷ ss) cs last (d, p, small, f) h =
    let ((target, dur), r, h1) = >>=-eq-ok (resolve_stage s) _ h in
    let (t, e) = resolve_stage-eq-ok s target dur r in
    let ((stages, last'), rs, h2) =
      >>=-eq-ok
        (resolve_from (wrap (pos cursor +ℤ dur)) (if Float64.lt top target then target else top) ss)
        _ h1 in
    Starts-cons cursor d dur s ss target (if Float64.lt top target then target else top) last' last
      stages cs p small (t, e) rs
      (λ q.
        resolve_from-Starts (cursor + d) (if Float64.lt top target then target else top) ss stages
          last' f q)
      h2

-- A script that Compile makes has one load stage and one marker for each stage of the configuration, in
-- order: the load stage has the stage's target and, as its duration, the text of the stage's `over` where
-- it ramps and of its `for` where it holds, the marker has the stage's phase, and the marker starts at the sum of the durations before it, so the markers fire where the load profile changes. The
-- condition is that the durations are not negative and their sum stays below 2^63 nanoseconds.
pub compile-Starts :
    (cfg : Config.Config) (script : Script)
    → Fits 0 cfg.load.stages
    → compile cfg ≡ ok script
    → (cs : List CompiledStage) × Starts 0 cfg.load.stages cs
      × (script.stages ≡ map (λ c. (c.target, c.duration)) cs)
      × (script.markers ≡ map (λ c. record { phase = c.phase; start_time = c.start_at }) cs)
unfolding compile resolve_stages
compile-Starts cfg script f h =
    let (m, h1) =
      reject_if-eq-ok (not (cfg.load.model == "arrival_rate")) (bad_model cfg.load.model) _ h in
    let (n, h2) = reject_if-eq-ok (is_empty cfg.load.stages) empty_stages _ h1 in
    let ((cs, top), r, h3) = >>=-eq-ok (resolve_stages cfg.load.stages) _ h2 in
    (
      cs,
      resolve_from-Starts 0 (Float64.of_int (pos 0)) cfg.load.stages cs top f r,
      ground arith,
      ground arith,
    )
