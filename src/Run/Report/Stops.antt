-- ===== src/Run/Report/Stops.antt =====
-- What every step does to the verdict, and why it returns.
use tortureu.Base.{
  String, Bool, true, false, List, [], ◌∷◌, Option, none, some, ◌≡◌, refl, Bool-cases, Option-cases,
  inl, inr, arith, if◌then◌else◌, eq_iff, ◌==◌, ◌&&◌, not,
}
use tortureu.Base.Result.{ok, err, ◌>>=◌}
use tortureu.Verdict.{status_aborted}
use tortureu.Egress.{check_unclassified, check_multiplier}
use tortureu.Scheduler.Apply.{Failure, is_note}
use tortureu.Base.Strings.{trim_space}
use tortureu.Run.{
  Effect, reset_run, load_started, torn_down, LoadEnd, finished, load_failed, Moment, in_reset,
  in_classes, in_topology, in_prepare, in_start, in_load, in_faults, Env, Progress, Step, finish,
  fail, warn, add_warning, effect, tear_down, tear_down_all, watch, unless_aborted,
}
use tortureu.Run.Steps.{
  check_base_url, reset_step, with_reset, classes_of, effective_multiplier, classify_step,
  with_audit, or_fail, with_topology, topology_step, prepare_step, load_ended, select_end,
  load_step, unless_failed, faults_step, real_errors, note_warnings,
}
use tortureu.Run.{disabled_text}
use tortureu.Run.Report.{Cause, IsOpen, IsStopped}

abbrev pub Stops : Env → Step → Type 0
Stops env (err p) = IsStopped env p
Stops env (ok p) = IsOpen env p

-- a conditional, with its test's value in each branch
if_cases {ℓ} :
    {A : Type 0} (P : A → Type ℓ) (b : Bool) (x y : A)
    → (b ≡ true → P x)
    → (b ≡ false → P y)
    → P (if b then x else y)
if_cases P true x y f g = f refl
if_cases P false x y f g = g refl

module _ (env : Env) where
  bind-Stops :
      (m : Step) (f : Progress → Step)
      → Stops env m
      → ((p : Progress) → IsOpen env p → Stops env (f p))
      → Stops env (m >>= f)
  bind-Stops (ok p) f hm hf = hf p hm
  bind-Stops (err p) f hm hf = hm

  warn-IsOpen : (o : Option String) (p : Progress) → IsOpen env p → IsOpen env (warn o p)
  warn-IsOpen none p h = h
  warn-IsOpen (some msg) p h = record { none_yet = h.none_yet; seen = h.seen }

  effect-IsOpen : (e : Effect) (p : Progress) → IsOpen env p → IsOpen env (effect e p)
  effect-IsOpen e p h = record { none_yet = h.none_yet; seen = h.seen }

  pub tear_down_all-IsOpen : (p : Progress) → IsOpen env p → IsOpen env (tear_down_all env p)
  tear_down_all-IsOpen p h =
      effect-IsOpen torn_down (warn (disabled_text env.disabled_error) p)
        (warn-IsOpen (disabled_text env.disabled_error) p h)

  pub fail-IsStopped :
      (reason e : String) (p : Progress)
      → Cause env
      → IsOpen env p
      → IsStopped env (fail env reason e (tear_down_all env p))
  fail-IsStopped reason e p c h = record {
    cause = c;
    why = inl refl;
    none_yet = (tear_down_all-IsOpen p h).none_yet;
  }

  aborted-IsStopped :
      (p : Progress) → Cause env → IsOpen env p → IsStopped env (finish env status_aborted p)
  aborted-IsStopped p c h = record { cause = c; why = inr refl; none_yet = h.none_yet }

  or_fail-Stops :
      (o : Option String) (reason : String) (p : Progress)
      → ((e : String) → o ≡ some e → Cause env)
      → IsOpen env p
      → Stops env (or_fail env o reason p)
  or_fail-Stops none reason p c h = h
  or_fail-Stops (some e) reason p c h = fail-IsStopped reason e p (c e refl) h

  unless_aborted-Stops : (p : Progress) → IsOpen env p → Stops env (unless_aborted env p)
  unless_aborted-Stops p h =
      if_cases (Stops env) p.aborted _ _ (λ t. aborted-IsStopped p (h.seen t) h) (λ f. h)

  watch-IsOpen :
      (m : Moment) (down : Progress → Progress) (p : Progress)
      → IsOpen env p
      → IsOpen env (down p)
      → IsOpen env (watch env m down p)
  watch-IsOpen m down p h hd =
      if_cases (IsOpen env) (env.signal m && not p.aborted) _ _
        (λ t. record { none_yet = hd.none_yet; seen = (λ a. Cause.signalled m (ground arith)) })
        (λ f. h)

  pub watch_all-IsOpen :
      (m : Moment) (p : Progress) → IsOpen env p → IsOpen env (watch env m (tear_down_all env) p)
  watch_all-IsOpen m p h = watch-IsOpen m (tear_down_all env) p h (tear_down_all-IsOpen p h)

  pub check_base_url-Stops : (p : Progress) → IsOpen env p → Stops env (check_base_url env p)
  unfolding check_base_url
  check_base_url-Stops p h =
      if_cases (Stops env) (trim_space env.config.target.base_url == "") _ _
        (λ t. record {
          cause = Cause.no_base_url ((eq_iff (trim_space env.config.target.base_url) "").0 t);
          why = inl refl;
          none_yet = h.none_yet;
        })
        (λ f. h)

  with_reset-Stops :
      (o : Option String) (p : Progress)
      → ((e : String) → o ≡ some e → Cause env)
      → IsOpen env p
      → Stops env (with_reset env o p)
  with_reset-Stops none p c h =
      unless_aborted-Stops (effect reset_run p) (effect-IsOpen reset_run p h)
  with_reset-Stops (some e) p c h = record {
    cause = c e refl;
    why = inr refl;
    none_yet = h.none_yet;
  }

  pub reset_step-Stops : (p : Progress) → IsOpen env p → Stops env (reset_step env p)
  unfolding reset_step
  reset_step-Stops p h =
      let w = watch env in_reset tear_down p in
      let k = watch-IsOpen in_reset tear_down p h (effect-IsOpen torn_down p h) in
      if_cases (Stops env) env.no_reset _ _
        (λ t.
          unless_aborted-Stops (record w { verdict = record w.verdict { reset = "skipped" } })
            (record { none_yet = k.none_yet; seen = k.seen }))
        (λ f. with_reset-Stops env.reset_error w (λ e n. Cause.reset_failed e f n) k)

  pub classify_step-Stops : (p : Progress) → IsOpen env p → Stops env (classify_step env p)
  unfolding classify_step
  classify_step-Stops p h =
      let w = watch env in_classes tear_down p in
      let k = watch-IsOpen in_classes tear_down p h (effect-IsOpen torn_down p h) in
      elim (Option-cases (check_unclassified (classes_of env))) [
        | inr (hosts, e) ↦
            rw (e, classify_step)
              (record { cause = Cause.unclassified hosts e; why = inr refl; none_yet = k.none_yet })
        | inl c ↦
            rw (c, classify_step)
              (if_cases (Stops env)
                (check_multiplier (classes_of env) (effective_multiplier env)
                  env.allow_real_traffic)
                _ _
                (λ t. record { cause = Cause.too_much t; why = inr refl; none_yet = k.none_yet })
                (λ f.
                  unless_aborted-Stops (with_audit env w)
                    (record { none_yet = k.none_yet; seen = k.seen })))
      ]

  pub topology_step-Stops : (p : Progress) → IsOpen env p → Stops env (topology_step env p)
  unfolding topology_step
  topology_step-Stops p h =
      by_answer env.topology_error (watch env in_topology tear_down p)
        (λ e n. Cause.not_applied e n)
        (watch-IsOpen in_topology tear_down p h (effect-IsOpen torn_down p h))
    where
      by_answer :
          (o : Option String) (q : Progress)
          → ((e : String) → o ≡ some e → Cause env)
          → IsOpen env q
          → Stops env (with_topology env o q)
      by_answer none q c k = record { none_yet = k.none_yet; seen = k.seen }
      by_answer (some e) q c k = record { cause = c e refl; why = inl refl; none_yet = k.none_yet }

  pub prepare_step-Stops : (p : Progress) → IsOpen env p → Stops env (prepare_step env p)
  unfolding prepare_step
  prepare_step-Stops p h =
      bind-Stops _ _
        (or_fail-Stops env.proxies_error "configure egress proxy" _
          (λ e n. Cause.not_configured e n) (watch_all-IsOpen in_prepare p h))
        λ p1 h1.
          bind-Stops _ _
            (or_fail-Stops env.container_error
              "locate SUT container for the load generator's network attachment" p1
              (λ e n. Cause.not_located e n) h1)
            λ p2 h2.
              bind-Stops _ _
                (or_fail-Stops env.compile_error "compile k6 script" p2
                  (λ e n. Cause.not_compiled e n) h2)
                unless_aborted-Stops

  load_ended-Stops :
      (e : LoadEnd) (p : Progress)
      → ((x : String) → e ≡ load_failed x → Cause env)
      → IsOpen env p
      → Stops env (load_ended env e p)
  load_ended-Stops finished p c h = unless_aborted-Stops p h
  load_ended-Stops (load_failed e) p c h = fail-IsStopped "load generator failed" e p (c e refl) h

  select_end-Stops : (p : Progress) → IsOpen env p → Stops env (select_end env p)
  select_end-Stops p h =
      if_cases (Stops env) (p.aborted && env.caught_first) _ _
        (λ t. aborted-IsStopped p (h.seen (ground arith)) h)
        (λ f. load_ended-Stops env.load_end p (λ e n. Cause.broke_off e n) h)

  pub load_step-Stops : (p : Progress) → IsOpen env p → Stops env (load_step env p)
  unfolding load_step
  load_step-Stops p h =
      bind-Stops _ _
        (or_fail-Stops env.start_error "start load generator" _ (λ e n. Cause.not_started e n)
          (watch_all-IsOpen in_start p h))
        λ p1 h1.
          select_end-Stops _
            (watch_all-IsOpen in_load (effect load_started p1) (effect-IsOpen load_started p1 h1))

  note_warnings-IsOpen :
      (es : List (String × Failure String)) (p : Progress)
      → IsOpen env p
      → IsOpen env (note_warnings env es p)
  unfolding note_warnings
  note_warnings-IsOpen [] p h = h
  note_warnings-IsOpen ((name, e) ∷ es) p h = elim (Bool-cases (is_note e)) [
    | inl n ↦ rw n (
        note_warnings-IsOpen es (add_warning (env.text_of name e) p)
          (record { none_yet = h.none_yet; seen = h.seen }))
    | inr n ↦ rw n (note_warnings-IsOpen es p h)
  ]

  pub faults_step-Stops : (p : Progress) → IsOpen env p → Stops env (faults_step env p)
  unfolding faults_step
  faults_step-Stops p h =
      by_errors (real_errors env.schedule_errors) _ refl
        (note_warnings-IsOpen env.schedule_errors _ (watch_all-IsOpen in_faults p h))
    where
      by_errors :
          (es : List (String × Failure String)) (q : Progress)
          → real_errors env.schedule_errors ≡ es
          → IsOpen env q
          → Stops env (unless_failed env es q)
      by_errors [] q n k = unless_aborted-Stops q k
      by_errors (e ∷ es) q n k =
          fail-IsStopped "fault scheduling failed" _ q (Cause.unscheduled (λ z. ground arith)) k
