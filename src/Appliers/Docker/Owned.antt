-- ===== src/Appliers/Docker/Owned.antt =====
-- What internal/fault translates, the applier can do, and does to the fault's target alone.
use tortureu.Base.{
  String, Bool, true, false, List, [], ◌∷◌, ◌≡◌, refl, sym, arith, eq_iff, eq_refl, contains, All,
  ◌==◌, ◌||◌, some, Dict, insert, inl, inr, Bool-cases, if_cases,
}
use tortureu.Base.Result.{
  Result, ok, err, ◌>>=◌, Result-cases, >>=-eq-ok, reject_some-eq-ok, reject_if-eq-ok,
}
use tortureu.Base.Strings.{trim_space}
use tortureu.Value.{Value, str}
use tortureu.Config
use tortureu.Fault.{Action, DockerAction, service_verbs, network_verbs, no_target, index}
use tortureu.Fault.Translate.Laws.{translate-eq-ok}
use tortureu.Fault.Translate.{
  translate, translate_own, dispatch, workers_error, toxic_of, translate_toxic, translate_docker,
  docker_of, action_of, copy_key, parsed,
}
use tortureu.Fault.Values.{parse_percent}
use tortureu.Appliers.Docker.{
  Error, command_failed, unsupported_kind, command, limit, apply_docker, docker_signal, stress_args,
  cpus_from_nano_cpus,
}

abbrev pub is_supported : String → Bool
is_supported k =
    (k == "pause")
    || (k == "kill")
    || (k == "graceful")
    || (k == "cpu_limit")
    || (k == "mem_limit")
    || (k == "stress")

-- an action that the applier knows, on the target
abbrev IsOwned : {E : Type 0} → String → Result E DockerAction → Type 0
IsOwned target (err e) = Unit
IsOwned target (ok d) = (is_supported d.kind ≡ true) × (d.container ≡ target)

bind-IsOwned :
    {E A : Type 0} (target : String) (m : Result E A) (next : A → Result E DockerAction)
    → ((a : A) → IsOwned target (next a))
    → IsOwned target (m >>= next)
bind-IsOwned target (err e) next f = tt
bind-IsOwned target (ok a) next f = f a

eq_swap : (a b : String) → a == b ≡ false → b == a ≡ false
eq_swap a b n = ground (arith, eq_iff a b, eq_iff b a)

none_of_three :
    (a b c k : String)
    → contains (a ∷ b ∷ c ∷ []) k ≡ false
    → (a == k ≡ false) × (b == k ≡ false) × (c == k ≡ false)
none_of_three a b c k n = ground arith

-- the verbs are all handled
no_verb :
    (verb : String)
    → contains service_verbs verb ≡ true
    → verb == "cpu" ≡ false
    → contains ("mem" ∷ "io" ∷ "fd" ∷ []) verb ≡ false
    → verb == "cpu_limit" ≡ false
    → verb == "mem_limit" ≡ false
    → verb == "pause" ≡ false
    → verb == "kill" ≡ false
    → verb == "graceful" ≡ false
    → ⊥
unfolding service_verbs
no_verb verb s n1 n2 n3 n4 n5 n6 n7 =
    let (m, i, d) = none_of_three "mem" "io" "fd" verb n2 in
    let none_left : contains service_verbs verb ≡ false = rw (
      eq_swap verb "cpu" n1,
      m,
      i,
      d,
      eq_swap verb "cpu_limit" n3,
      eq_swap verb "mem_limit" n4,
      eq_swap verb "pause" n5,
      eq_swap verb "kill" n6,
      eq_swap verb "graceful" n7,
    ) in
    cc

docker_of-IsOwned :
    (verb target : String) (inject : Dict Value)
    → contains service_verbs verb ≡ true
    → IsOwned target (docker_of verb target inject)
unfolding docker_of service_verbs
docker_of-IsOwned verb target inject s =
    let P = IsOwned target in
    if_cases P (verb == "cpu")
      (λ e.
        bind-IsOwned target (parsed "cpu" (index inject "cpu") (parse_percent (index inject "cpu")))
          (λ pct. ok (
            action_of "stress" target (
              copy_key "workers" inject
                (insert "cpu_percent" pct (insert "resource" (str "cpu") [])))))
          (λ pct. (refl, refl)))
      (λ n1.
        if_cases P (contains ("mem" ∷ "io" ∷ "fd" ∷ []) verb) (λ e. (refl, refl))
          (λ n2.
            if_cases P (verb == "cpu_limit") (λ e. (refl, refl))
              (λ n3.
                if_cases P (verb == "mem_limit") (λ e. (refl, refl))
                  (λ n4.
                    if_cases P (verb == "pause") (λ e. (refl, refl))
                      (λ n5.
                        if_cases P (verb == "kill") (λ e. (refl, refl))
                          (λ n6.
                            if_cases P (verb == "graceful") (λ e. (refl, refl))
                              (λ n7. absurd (no_verb verb s n1 n2 n3 n4 n5 n6 n7))))))))

-- every command names the container, the undo included
abbrev pub Names : String → List String → Type 0
Names c args = contains args c ≡ true

abbrev pub IsOn : String → List (List String) × Result Error (List String) → Type 0
IsOn c (log, ok undo) = All (Names c) log × Names c undo
IsOn c (log, err (command_failed args e)) = All (Names c) log
IsOn c (log, err (unsupported_kind k)) = ⊥

owned-of_ok :
    {E : Type 0} (target : String) (m : Result E DockerAction) (d : DockerAction)
    → IsOwned target m
    → m ≡ ok d
    → (is_supported d.kind ≡ true) × (d.container ≡ target)
owned-of_ok target (ok x) d o e = let same : d ≡ x = cc in rw same o
owned-of_ok target (err x) d o e = cc

dispatch-docker_of :
    (f : Config.Fault) (a : Action) (d : DockerAction)
    → dispatch f ≡ ok a
    → a.docker ≡ some d
    → (contains service_verbs f.verb ≡ true) × (docker_of f.verb f.target f.inject ≡ ok d)
unfolding dispatch translate_toxic translate_docker
dispatch-docker_of f a d h p = elim (Bool-cases (contains network_verbs f.verb)) [
  | inl n ↦
      let made : translate_toxic f ≡ ok a = ground arith in
      let (t, e, q) = >>=-eq-ok (toxic_of f.verb f.inject) _ made in absurd (ground arith)
  | inr n ↦ elim (Bool-cases (contains service_verbs f.verb)) [
    | inl s ↦
        let made : translate_docker f ≡ ok a = ground arith in
        let (x, e, q) = >>=-eq-ok (docker_of f.verb f.target f.inject) _ made in (s, ground arith)
    | inr s ↦ absurd (ground arith)
  ]
]

translate-docker_of :
    (f : Config.Fault) (a : Action) (d : DockerAction)
    → translate f ≡ ok a
    → a.docker ≡ some d
    → (contains service_verbs f.verb ≡ true) × (docker_of f.verb f.target f.inject ≡ ok d)
unfolding translate_own
translate-docker_of f a d t p =
    let (allowed, l, k, c) = translate-eq-ok f a t in
    elim c [
      | inl (owner, o, q) ↦ absurd (ground arith)
      | inr (o, own) ↦
          let (w, h1) = reject_some-eq-ok (workers_error f.inject) _ own in
          let (g, h2) = reject_if-eq-ok (f.target == "") no_target (dispatch f) h1 in
          dispatch-docker_of f a d h2 p
    ]

module _ (run : List String → Result String String) (sprint : Value → String) where
  command-succeeds :
      (args undo : List String) (out : String)
      → run args ≡ ok out
      → command run sprint args undo ≡ (args ∷ [], ok undo)
  command-succeeds args undo out r = rw (r, command)

  command-fails :
      (args undo : List String) (e : String)
      → run args ≡ err e
      → command run sprint args undo ≡ (args ∷ [], err (command_failed args e))
  command-fails args undo e r = rw (r, command)

  limit-fails :
      (c flag format : String) (back : String → String) (v : Value) (e : String)
      → let args = "inspect" ∷ "-f" ∷ format ∷ c ∷ [] in
        run args ≡ err e
        → limit run sprint flag format c back v ≡ (args ∷ [], err (command_failed args e))
  limit-fails c flag format back v e r = rw (r, limit)

  limit-goes :
      (c flag format : String) (back : String → String) (v : Value) (out : String)
      → let args = "inspect" ∷ "-f" ∷ format ∷ c ∷ [] in
        let p =
          command run sprint
            ("update" ∷ flag ∷ sprint v ∷ c ∷ [])
            ("update" ∷ flag ∷ back (trim_space out) ∷ c ∷ []) in
        run args ≡ ok out → limit run sprint flag format c back v ≡ (args ∷ p.0, p.1)
  limit-goes c flag format back v out r = rw (r, limit)

  command-IsOn :
      (c : String) (args undo : List String)
      → Names c args
      → Names c undo
      → IsOn c (command run sprint args undo)
  command-IsOn c args undo a u = elim (Result-cases (run args)) [
    | inl (out, r) ↦ rw (command-succeeds args undo out r) ((a, tt), u)
    | inr (e, r) ↦ rw (command-fails args undo e r) (a, tt)
  ]

  cons-IsOn :
      (c : String) (args : List String) (p : List (List String) × Result Error (List String))
      → Names c args
      → IsOn c p
      → IsOn c (args ∷ p.0, p.1)
  cons-IsOn c args (log, ok undo) a (l, u) = ((a, l), u)
  cons-IsOn c args (log, err (command_failed x e)) a l = (a, l)
  cons-IsOn c args (log, err (unsupported_kind k)) a l = absurd l

  limit-IsOn :
      (c flag format : String) (back : String → String) (v : Value)
      → IsOn c (limit run sprint flag format c back v)
  limit-IsOn c flag format back v = elim (Result-cases (run ("inspect" ∷ "-f" ∷ format ∷ c ∷ []))) [
    | inr (e, r) ↦ rw (limit-fails c flag format back v e r) (ground (arith, eq_refl c), tt)
    | inl (out, r) ↦
        let args = "update" ∷ flag ∷ sprint v ∷ c ∷ [] in
        let undo = "update" ∷ flag ∷ back (trim_space out) ∷ c ∷ [] in
        rw (limit-goes c flag format back v out r) (
          cons-IsOn c ("inspect" ∷ "-f" ∷ format ∷ c ∷ []) (command run sprint args undo)
            (ground (arith, eq_refl c))
            (command-IsOn c args undo (ground (arith, eq_refl c)) (ground (arith, eq_refl c))))
  ]

  signal-IsOn :
      (d : DockerAction) (fallback : String)
      → IsOn d.container (
          command run sprint
            ("kill" ∷ "--signal" ∷ docker_signal d.args fallback ∷ d.container ∷ [])
            ("start" ∷ d.container ∷ []))
  signal-IsOn d fallback =
      command-IsOn d.container
        ("kill" ∷ "--signal" ∷ docker_signal d.args fallback ∷ d.container ∷ [])
        ("start" ∷ d.container ∷ []) (ground (arith, eq_refl d.container))
        (ground (arith, eq_refl d.container))

  apply_docker-IsOn :
      (d : DockerAction) → is_supported d.kind ≡ true → IsOn d.container (apply_docker run sprint d)
  unfolding apply_docker stress_args
  apply_docker-IsOn d s =
      let c = d.container in
      let P = IsOn c in
      if_cases P (d.kind == "pause")
        (λ e.
          command-IsOn c ("pause" ∷ c ∷ []) ("unpause" ∷ c ∷ []) (ground (arith, eq_refl c))
            (ground (arith, eq_refl c)))
        (λ n1.
          if_cases P (d.kind == "kill") (λ e. signal-IsOn d "SIGKILL")
            (λ n2.
              if_cases P (d.kind == "graceful") (λ e. signal-IsOn d "SIGTERM")
                (λ n3.
                  if_cases P (d.kind == "cpu_limit")
                    (λ e.
                      limit-IsOn c "--cpus" "{{.HostConfig.NanoCpus}}" cpus_from_nano_cpus
                        (index d.args "limit"))
                    (λ n4.
                      if_cases P (d.kind == "mem_limit")
                        (λ e.
                          limit-IsOn c "--memory" "{{.HostConfig.Memory}}" (λ prev. prev)
                            (index d.args "limit"))
                        (λ n5.
                          if_cases P (d.kind == "stress")
                            (λ e.
                              command-IsOn c (stress_args run sprint c d.args)
                                ("exec" ∷ c ∷ "pkill" ∷ "stress-ng" ∷ [])
                                (ground (arith, eq_refl c)) (ground (arith, eq_refl c)))
                            (λ n6. absurd (ground arith)))))))

  -- A fault that internal/fault translates to a container action is one that the applier can do: it never
  -- ends as an unsupported kind. Every docker command that it runs names the fault's target, the one
  -- that reads a limit included, and so does the command that undoes it.
  pub translate-apply_docker :
      (f : Config.Fault) (a : Action) (d : DockerAction)
      → translate f ≡ ok a
      → a.docker ≡ some d
      → IsOn f.target (apply_docker run sprint d)
  translate-apply_docker f a d t p =
      let (s, e) = translate-docker_of f a d t p in
      let (k, c) =
        owned-of_ok f.target (docker_of f.verb f.target f.inject) d
          (docker_of-IsOwned f.verb f.target f.inject s) e in
      rw (sym c) (apply_docker-IsOn d k)
