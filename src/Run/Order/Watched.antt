-- ===== src/Run/Order/Watched.antt =====
-- The steps behind the classification, and the signal watcher between them.
use tortureu.Base.{
  String, Bool, true, false, List, [], ◌∷◌, Option, none, some, ◌≡◌, refl, inl, inr, ◌⊎◌,
  if◌then◌else◌, not, ap, ◌&&◌, if_elim,
}
use tortureu.Base.Result.{ok, err, ◌>>=◌}
use tortureu.Verdict.{status_aborted}
use tortureu.Run.{
  Effect, load_started, torn_down, LoadEnd, finished, load_failed, Moment, in_topology, in_prepare,
  in_start, in_load, in_faults, Env, Progress, Step, finish, add_warning, effect, tear_down_all,
  watch, unless_aborted,
}
use tortureu.Run.Steps.{
  or_fail, prepare_step, load_ended, select_end, load_step, unless_failed, faults_step, settled,
  real_errors, note_warnings,
}

-- the last effect is a teardown
abbrev pub IsTorn : List Effect → Type 0
IsTorn effects = (before : List Effect) × (effects ≡ torn_down ∷ before)

-- A signal came while Topology.Apply or Load.Start was under way: the watcher's teardown is in the log,
-- and behind it stands what was applied or started then.
abbrev pub IsOvertaken : Env → List Effect → Type 0
IsOvertaken env effects =
    ((env.signal in_topology ≡ true) ⊎ (env.signal in_start ≡ true))
    × ((e : Effect) × (before : List Effect) × (effects ≡ e ∷ torn_down ∷ before))

-- how a run ends that has got as far as the topology
abbrev pub IsEnded : Env → Progress → Type 0
IsEnded env p = IsTorn p.effects ⊎ (IsOvertaken env p.effects × (p.verdict.status ≡ status_aborted))

-- what holds between two steps: no signal has come, or its teardown is in its place
abbrev pub IsWatched : Env → Progress → Type 0
IsWatched env p = (p.aborted ≡ false) ⊎ (IsTorn p.effects ⊎ IsOvertaken env p.effects)

-- a step that no check follows, and one that ends with a check
abbrev Watched : Env → Step → Type 0
Watched env (err p) = IsEnded env p
Watched env (ok p) = IsWatched env p

abbrev Checked : Env → Step → Type 0
Checked env (err p) = IsEnded env p
Checked env (ok p) = p.aborted ≡ false

bind-Checked :
    (env : Env) (m : Step) (f : Progress → Step)
    → Watched env m
    → ((p : Progress) → IsWatched env p → Checked env (f p))
    → Checked env (m >>= f)
bind-Checked env (ok p) f hm hf = hf p hm
bind-Checked env (err p) f hm hf = hm

pub bind-IsEnded :
    (env : Env) (m : Step) (f : Progress → Step)
    → Checked env m
    → ((p : Progress) → p.aborted ≡ false → IsEnded env (settled (f p)))
    → IsEnded env (settled (m >>= f))
bind-IsEnded env (ok p) f hm hf = hf p hm
bind-IsEnded env (err p) f hm hf = hm

module _ (env : Env) where
  watch-IsWatched :
      (m : Moment) (down : Progress → Progress) (p : Progress)
      → IsTorn (down p).effects
      → IsWatched env p
      → IsWatched env (watch env m down p)
  watch-IsWatched m down p t w =
      if_elim (IsWatched env) (env.signal m && not p.aborted) (inr (inl t)) w

  -- the effect during which a signal may come
  pub overtaken :
      (m : Moment) (x : Effect) (down : Progress → Progress) (p : Progress)
      → (env.signal m ≡ true → (env.signal in_topology ≡ true) ⊎ (env.signal in_start ≡ true))
      → IsTorn (down p).effects
      → p.aborted ≡ false
      → IsWatched env (effect x (watch env m down p))
  overtaken m x down p late (before, e) clear = by_signal (env.signal m) refl
    where
      by_flag :
          env.signal m ≡ true
          → (c : Bool) → p.aborted ≡ c
          → IsWatched env (effect x (if not c then record (down p) { aborted = true } else p))
      by_flag s true t = cc
      by_flag s false f = inr (inr (late s, (x, before, ap (λ es. x ∷ es) e)))

      by_signal :
          (b : Bool)
          → env.signal m ≡ b
          → IsWatched env
              (effect x (if b && not p.aborted then record (down p) { aborted = true } else p))
      by_signal false s = inl clear
      by_signal true s = by_flag s p.aborted refl

  aborted-IsEnded :
      (p : Progress)
      → p.aborted ≡ true
      → IsWatched env p
      → IsEnded env (finish env status_aborted p)
  aborted-IsEnded p t (inl clear) = cc
  aborted-IsEnded p t (inr (inl torn)) = inl torn
  aborted-IsEnded p t (inr (inr late)) = inr (late, refl)

  unless_aborted-Checked : (p : Progress) → IsWatched env p → Checked env (unless_aborted env p)
  unless_aborted-Checked p w = by_flag p.aborted refl
    where
      by_flag :
          (b : Bool)
          → p.aborted ≡ b
          → Checked env (if b then err (finish env status_aborted p) else ok p)
      by_flag true t = aborted-IsEnded p t w
      by_flag false f = f

  or_fail-Watched :
      (o : Option String) (reason : String) (p : Progress)
      → IsWatched env p
      → Watched env (or_fail env o reason p)
  or_fail-Watched none reason p w = w
  or_fail-Watched (some e) reason p w = inl (_, refl)

  pub prepare_step-Checked : (p : Progress) → IsWatched env p → Checked env (prepare_step env p)
  unfolding prepare_step
  prepare_step-Checked p w =
      bind-Checked env _ _
        (or_fail-Watched env.proxies_error "configure egress proxy" _
          (watch-IsWatched in_prepare (tear_down_all env) p (_, refl) w))
        λ p1 w1.
          bind-Checked env _ _
            (or_fail-Watched env.container_error
              "locate SUT container for the load generator's network attachment" p1 w1)
            λ p2 w2.
              bind-Checked env _ _ (or_fail-Watched env.compile_error "compile k6 script" p2 w2)
                unless_aborted-Checked

  load_ended-Checked :
      (e : LoadEnd) (p : Progress) → IsWatched env p → Checked env (load_ended env e p)
  load_ended-Checked finished p w = unless_aborted-Checked p w
  load_ended-Checked (load_failed e) p w = inl (_, refl)

  select_end-Checked : (p : Progress) → IsWatched env p → Checked env (select_end env p)
  select_end-Checked p w = by_flag p.aborted refl
    where
      by_flag :
          (b : Bool)
          → p.aborted ≡ b
          → Checked env (
              if b && env.caught_first
              then err (finish env status_aborted p)
              else load_ended env env.load_end p)
      by_flag false f = load_ended-Checked env.load_end p w
      by_flag true t =
          if_elim (Checked env) env.caught_first (aborted-IsEnded p t w)
            (load_ended-Checked env.load_end p w)

  pub load_step-Checked : (p : Progress) → p.aborted ≡ false → Checked env (load_step env p)
  unfolding load_step
  load_step-Checked p clear = by_error env.start_error
    where
      by_error :
          (o : Option String)
          → Checked env (
              or_fail env o "start load generator" (watch env in_start (tear_down_all env) p)
              >>= λ p1.
                  select_end env (watch env in_load (tear_down_all env) (effect load_started p1)))
      by_error (some e) = inl (_, refl)
      by_error none = select_end-Checked _ (
          watch-IsWatched in_load (tear_down_all env) _ (_, refl)
            (overtaken in_start load_started (tear_down_all env) p (λ s. inr s) (_, refl) clear))

  note_warnings-IsWatched :
      (es : List (String × tortureu.Scheduler.Apply.Failure String)) (p : Progress)
      → IsWatched env p
      → IsWatched env (note_warnings env es p)
  unfolding note_warnings
  note_warnings-IsWatched [] p w = w
  note_warnings-IsWatched ((name, e) ∷ es) p w =
      if_elim (IsWatched env) (tortureu.Scheduler.Apply.is_note e)
        (note_warnings-IsWatched es (add_warning (env.text_of name e) p) w)
        (note_warnings-IsWatched es p w)

  pub faults_step-Checked : (p : Progress) → p.aborted ≡ false → Checked env (faults_step env p)
  unfolding faults_step
  faults_step-Checked p clear = by_errors (real_errors env.schedule_errors) _ (
      note_warnings-IsWatched env.schedule_errors _
        (watch-IsWatched in_faults (tear_down_all env) p (_, refl) (inl clear)))
    where
      by_errors :
          (es : List (String × tortureu.Scheduler.Apply.Failure String)) (q : Progress)
          → IsWatched env q
          → Checked env (unless_failed env es q)
      by_errors [] q w = unless_aborted-Checked q w
      by_errors (e ∷ es) q w = inl (_, refl)
