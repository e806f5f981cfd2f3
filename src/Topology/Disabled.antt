-- ===== src/Topology/Disabled.antt =====
-- The services that the overlay disables: what depends on them, and what removes them.
use tortureu.Base.{
  String, true, false, List, [], ◌∷◌, Option, none, some, ◌≡◌, refl, arith, contains,
  contains-all_in, if_elim, if◌then◌else◌, Dict, has_key, Bool-cases, inl, inr, not, sym, all_in,
  ◌++◌,
}
use tortureu.Base.Result.{ok}
use tortureu.Base.Sort.{sort_strings}
use tortureu.Compose.{Service}
use tortureu.Findings.{host_name_of}
use tortureu.Topology.{
  Applier, bin_of, add_name, rewrite_depends_on, rewritten, backend_service_name, collect_hosts,
  if_changed,
}
use tortureu.Topology.Commands.{
  Answers, exec, overlay_path_of, teardown_args, run_error, disabled_names, teardown_disabled,
}

-- the dependencies of a service in the merged project: the override's, if there is one
abbrev pub in_effect : List String → Option (List String) → List String
in_effect deps none = deps
in_effect deps (some entries) = entries

abbrev pub renamed : List String → List String → List String
renamed hosts [] = []
renamed hosts (d ∷ ds) = (if contains hosts d then backend_service_name d else d) ∷ renamed hosts ds

rewritten-renamed : (hosts names : List String) → (rewritten hosts names).0 ≡ renamed hosts names
unfolding rewritten
rewritten-renamed hosts [] = refl
rewritten-renamed hosts (n ∷ ns) = elim (Bool-cases (contains hosts n)) [
  | inl c ↦ rw (c, rewritten-renamed hosts ns)
  | inr c ↦ rw (c, rewritten-renamed hosts ns)
]

-- nothing has changed: no name is a host's
rewritten-unchanged :
    (hosts names : List String) → (rewritten hosts names).1 ≡ false → renamed hosts names ≡ names
unfolding rewritten
rewritten-unchanged hosts [] h = refl
rewritten-unchanged hosts (n ∷ ns) h = elim (Bool-cases (contains hosts n)) [
  | inl c ↦ absurd (ground arith)
  | inr c ↦ rw (c, rewritten-unchanged hosts ns (ground arith))
]

in_effect-if_changed :
    (hosts names : List String)
    → in_effect names (if_changed (rewritten hosts names)) ≡ renamed hosts names
in_effect-if_changed hosts names = elim (Bool-cases (rewritten hosts names).1) [
  | inl c ↦ ground (arith, rewritten-renamed hosts names)
  | inr c ↦ ground (arith, rewritten-unchanged hosts names c)
]

renamed-kept :
    (hosts names : List String)
    → all_in (λ h. not (contains hosts (backend_service_name h))) hosts ≡ true
    → all_in (λ d. not (contains hosts d)) (renamed hosts names) ≡ true
renamed-kept hosts [] h = refl
renamed-kept hosts (n ∷ ns) h = elim (Bool-cases (contains hosts n)) [
  | inl c ↦
      let apart =
        contains-all_in (λ x. not (contains hosts (backend_service_name x))) n hosts h c in
      rw (c, apart) (renamed-kept hosts ns h)
  | inr c ↦ rw (c, c) (renamed-kept hosts ns h)
]

-- Whether or not a service's list of dependencies is overridden, the dependencies in effect are its own
-- with each intercepted one under the name of its clone. Where no clone has the name of an intercepted
-- service, none of them is disabled, so that docker compose finds every one.
pub in_effect-rewrite_depends_on :
    (hosts deps : List String)
    → all_in (λ h. not (contains hosts (backend_service_name h))) hosts ≡ true
    → let names = sort_strings deps in
      (in_effect names (rewrite_depends_on hosts deps) ≡ renamed hosts names)
      × (all_in (λ d. not (contains hosts d)) (in_effect names (rewrite_depends_on hosts deps))
          ≡ true)
unfolding rewrite_depends_on
in_effect-rewrite_depends_on hosts deps h =
    let e = in_effect-if_changed hosts (sort_strings deps) in
    (e, rw e (renamed-kept hosts (sort_strings deps) h))

collect-disabled :
    (services : Dict Service) (seen hs hosts : List String)
    → collect_hosts services seen hs ≡ ok hosts
    → disabled_names seen hs ≡ hosts
unfolding collect_hosts disabled_names
collect-disabled services seen [] hosts c = cc
collect-disabled services seen (h ∷ hs) hosts c =
    elim (Bool-cases (has_key (host_name_of h) services)) [
      | inl k ↦ collect-disabled services (add_name (host_name_of h) seen) hs hosts (ground arith)
      | inr k ↦ absurd (ground arith)
    ]

all_in-snoc :
    (services : Dict Service) (x : String) (xs : List String)
    → has_key x services ≡ true
    → all_in (λ n. has_key n services) xs ≡ true
    → all_in (λ n. has_key n services) (xs ++ (x ∷ [])) ≡ true
all_in-snoc services x [] k a = rw k
all_in-snoc services x (y ∷ ys) k a = elim (Bool-cases (has_key y services)) [
  | inl h ↦ rw h (all_in-snoc services x ys k (ground arith))
  | inr h ↦ absurd (ground arith)
]

all_in-add_name :
    (services : Dict Service) (x : String) (xs : List String)
    → has_key x services ≡ true
    → all_in (λ n. has_key n services) xs ≡ true
    → all_in (λ n. has_key n services) (add_name x xs) ≡ true
all_in-add_name services x xs k a =
    if_elim (λ ys. all_in (λ n. has_key n services) ys ≡ true) (contains xs x) a
      (all_in-snoc services x xs k a)

collect-services :
    (services : Dict Service) (seen hs hosts : List String)
    → collect_hosts services seen hs ≡ ok hosts
    → all_in (λ n. has_key n services) seen ≡ true
    → all_in (λ n. has_key n services) hosts ≡ true
unfolding collect_hosts
collect-services services seen [] hosts c a = let same : seen ≡ hosts = cc in rw (sym same) a
collect-services services seen (h ∷ hs) hosts c a =
    elim (Bool-cases (has_key (host_name_of h) services)) [
      | inl k ↦
          collect-services services (add_name (host_name_of h) seen) hs hosts (ground arith)
            (all_in-add_name services (host_name_of h) seen k a)
      | inr k ↦ absurd (ground arith)
    ]

-- Where the internal hosts of a run could be intercepted, each one names a service of the project, and
-- the teardown, if there is an overlay, removes the services of exactly those names, in one command and
-- under the profile that disables them.
pub teardown_disabled-collect_hosts :
    (a : Applier) (w : Answers) (services : Dict Service) (h : String) (hs hosts : List String)
    (path : String)
    → collect_hosts services [] (h ∷ hs) ≡ ok hosts
    → w.abs_path ≡ ok path
    → w.overlay_exists ≡ true
    → (all_in (λ n. has_key n services) hosts ≡ true)
      × (teardown_disabled a (h ∷ hs) w ≡ (
        exec (bin_of a) (teardown_args (overlay_path_of a w) path (sort_strings hosts)) ∷ [],
        run_error w.run,
      ))
unfolding teardown_disabled
teardown_disabled-collect_hosts a w services h hs hosts path c p o = (
  collect-services services [] (h ∷ hs) hosts c refl,
  rw (o, p, collect-disabled services [] (h ∷ hs) hosts c),
)
