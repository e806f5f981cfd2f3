-- ===== src/Config/Parse/Sound/Whole.antt =====
-- A configuration that Parse returns, as a whole.
use mathlib.Core.Bool.{false≢true}
use tortureu.Base.{
  String, true, false, List, [], ◌∷◌, none, some, Dict, lookup, contains, ◌==◌, not, ◌≡◌, ◌≢◌, ◌⊎◌,
  inl, inr, arith, eq_iff, pos, ◌≤ℤ◌, All, refl, Option-cases, map, AreDistinct, Bool-cases, ap,
}
use tortureu.Base.Result.{
  ok, reject_if, reject_some, ◌>>=◌, ◌>>◌, >>=-eq-ok, reject_if-eq-ok, reject_some-eq-ok,
}
use tortureu.Config
use tortureu.Config.{EgressHost, Fault, Stage, Load}
use tortureu.Config.Checks.{missing_compose, missing_service, no_assert, closed_model}
use tortureu.Config.Parse.{
  Document, document, bad_yaml, no_content, RawConfig, RawFault, RawLoad, check_host, check_hosts,
  check_egress, check_stages, parse_load, parse_fault, parse_faults, parse_reset, parse_config,
  parse, check_keys, phases_of, targets_of, parse_scenarios, load_with, load_of, faults_of,
  egress_error, assemble, parse_blocks, decoded_config, is_empty, default_reset_command,
}
use tortureu.Config.Parse.Sound.Fault.{
  IsValidFault, parse_fault-IsValidFault, IsDeclared, parse_fault-IsDeclared,
}

-- What a host's class asks of its other fields.
pub data IsClassified (eh : EgressHost) : Type 0 where
  a_mock : eh.class ≡ "mock" → (eh.from ≡ "capture") ⊎ (eh.from ≡ "spec") → IsClassified eh
  a_real : eh.class ≡ "real" → pos 1 ≤ℤ eh.max_rps → IsClassified eh
  an_internal : eh.class ≡ "internal" → IsClassified eh
  a_block : eh.class ≡ "block" → IsClassified eh

check_host-none : (h : String) (eh : EgressHost) → check_host h eh ≡ none → IsClassified eh
unfolding check_host
check_host-none h eh n = elim (Bool-cases (eh.class == "mock")) [
  | inl m ↦
      IsClassified.a_mock ((eq_iff eh.class "mock").0 m)
        (let n' = rw m at n in ground (arith, eq_iff eh.from "capture", eq_iff eh.from "spec"))
  | inr m ↦ elim (Bool-cases (eh.class == "real")) [
    | inl r ↦
        IsClassified.a_real ((eq_iff eh.class "real").0 r) (let n' = rw (m, r) at n in ground arith)
    | inr r ↦ elim (Bool-cases (eh.class == "internal")) [
      | inl i ↦ IsClassified.an_internal ((eq_iff eh.class "internal").0 i)
      | inr i ↦ elim (Bool-cases (eh.class == "block")) [
        | inl b ↦ IsClassified.a_block ((eq_iff eh.class "block").0 b)
        | inr b ↦ absurd (let n' = rw (m, r, i, b) at n in cc)
      ]
    ]
  ]
]

check_hosts-none :
    (hosts : Dict EgressHost) (h : String) (eh : EgressHost)
    → check_hosts hosts ≡ none
    → lookup h hosts ≡ some eh
    → IsClassified eh
unfolding check_hosts
check_hosts-none [] h eh n e = absurd (cc)
check_hosts-none ((k, x) ∷ rest) h eh n e = elim (Option-cases (check_host k x)) [
  | inr (x', bad) ↦ absurd (ground arith)
  | inl fine ↦ elim (Bool-cases (k == h)) [
    | inl same ↦ check_host-none k eh (ground arith)
    | inr other ↦ check_hosts-none rest h eh (ground arith) (rw other at e)
  ]
]

abbrev phase_names : List Stage → List String
phase_names stages = map (λ s. s.phase) stages

check_stages-none :
    (seen : List String) (stages : List Stage) (p : String)
    → check_stages seen stages ≡ none
    → contains seen p ≡ true
    → contains (phase_names stages) p ≡ false
unfolding check_stages
check_stages-none seen [] p n h = refl
check_stages-none seen (s ∷ rest) p n h =
    ground (arith, eq_iff s.phase p, check_stages-none (s.phase ∷ seen) rest p)

check_stages-AreDistinct :
    (seen : List String) (stages : List Stage)
    → check_stages seen stages ≡ none
    → AreDistinct (phase_names stages)
unfolding check_stages
check_stages-AreDistinct seen [] n = tt
check_stages-AreDistinct seen (s ∷ rest) n =
    let n' : check_stages (s.phase ∷ seen) rest ≡ none = ground arith in
    (
      check_stages-none (s.phase ∷ seen) rest s.phase n' (rw ((eq_iff s.phase s.phase).1 refl)),
      check_stages-AreDistinct (s.phase ∷ seen) rest n',
    )

parse_load-eq-ok :
    (l : RawLoad) (load : Load)
    → parse_load l ≡ ok load
    → (load.stages ≡ l.stages) × AreDistinct (phase_names l.stages)
unfolding parse_load load_with
parse_load-eq-ok l load h =
    let (m, h1) =
      reject_if-eq-ok (not (l.model == "arrival_rate")) (closed_model l.model)
        (reject_some (check_stages [] l.stages) >> load_with l) h in
    let (c, h2) = reject_some-eq-ok (check_stages [] l.stages) (load_with l) h1 in
    let (s, p, e) = >>=-eq-ok (parse_scenarios l.scenarios) _ h2 in
    (ground arith, check_stages-AreDistinct [] l.stages c)

-- as many faults as were declared, each with what was declared for it
abbrev pub AreDeclared : List RawFault → List Fault → Type 0
AreDeclared [] [] = Unit
AreDeclared [] (f ∷ fs) = ⊥
AreDeclared (rf ∷ rfs) [] = ⊥
AreDeclared (rf ∷ rfs) (f ∷ fs) = IsDeclared rf f × AreDeclared rfs fs

parse_faults-eq-ok :
    (phases targets : List String) (rfs : List RawFault) (fs : List Fault)
    → parse_faults phases targets rfs ≡ ok fs
    → All (IsValidFault phases targets) fs × AreDeclared rfs fs
unfolding parse_faults
parse_faults-eq-ok phases targets [] [] h = (tt, tt)
parse_faults-eq-ok phases targets [] (f ∷ fs) h = absurd (ground arith)
parse_faults-eq-ok phases targets (rf ∷ rfs) fs h =
    let (f, p, h1) = >>=-eq-ok (parse_fault phases targets rf) _ h in
    let (rest, q, e) = >>=-eq-ok (parse_faults phases targets rfs) _ h1 in
    let (valid, names) = parse_faults-eq-ok phases targets rfs rest q in
    let e' : fs ≡ f ∷ rest = ground arith in
    rw e' (
      (parse_fault-IsValidFault phases targets rf f p, valid),
      (parse_fault-IsDeclared phases targets rf f p, names),
    )

-- What Parse promises of its result, beside the decoded document.
pub record IsSound (present : List String) (rc : RawConfig) (cfg : Config.Config) : Type 0 where
  pub compose : cfg.target.compose ≢ ""
  pub service : cfg.target.service ≢ ""
  pub asserts : cfg.assert ≢ []
  pub resets : cfg.reset.command ≢ ""
  pub hosts :
      (h : String) (eh : EgressHost)
      → contains present "egress" ≡ true
      → lookup h cfg.egress.hosts ≡ some eh
      → IsClassified eh
  pub stages :
      contains present "load" ≡ true
      → (cfg.load.stages ≡ rc.load.stages) × AreDistinct (phase_names cfg.load.stages)
  pub faults : All (IsValidFault (phases_of rc) (targets_of rc)) cfg.faults
  pub declared :
      (contains present "faults" ≡ true → AreDeclared rc.faults cfg.faults)
      × (contains present "faults" ≡ false → cfg.faults ≡ [])
  pub kept :
      (cfg.version ≡ rc.version)
      × (cfg.target ≡ rc.target)
      × (cfg.egress ≡ rc.egress)
      × (cfg.assert ≡ rc.assert)

egress_error-none :
    (present : List String) (rc : RawConfig) (h : String) (eh : EgressHost)
    → egress_error present rc ≡ none
    → contains present "egress" ≡ true
    → lookup h rc.egress.hosts ≡ some eh
    → IsClassified eh
unfolding egress_error check_egress
egress_error-none present rc h eh n p e = check_hosts-none rc.egress.hosts h eh (ground arith) e

load_of-eq-ok :
    (present : List String) (rc : RawConfig) (load : Load)
    → load_of present rc ≡ ok load
    → contains present "load" ≡ true
    → (load.stages ≡ rc.load.stages) × AreDistinct (phase_names rc.load.stages)
unfolding load_of
load_of-eq-ok present rc load h p = parse_load-eq-ok rc.load load (rw p at h)

faults_of-eq-ok :
    (present : List String) (rc : RawConfig) (fs : List Fault)
    → faults_of present rc ≡ ok fs
    → All (IsValidFault (phases_of rc) (targets_of rc)) fs
      × (contains present "faults" ≡ true → AreDeclared rc.faults fs)
      × (contains present "faults" ≡ false → fs ≡ [])
unfolding faults_of
faults_of-eq-ok present rc fs h = elim (Bool-cases (contains present "faults")) [
  | inl p ↦
      let (valid, names) =
        parse_faults-eq-ok (phases_of rc) (targets_of rc) rc.faults fs (rw p at h) in
      (valid, (λ _. names), λ q. absurd (ground arith))
  | inr p ↦ let e : fs ≡ [] = ground arith in (rw e tt, (λ q. absurd (ground arith)), λ _. e)
]

command-parse_reset : (r : Config.Reset) → (parse_reset r).command ≢ ""
unfolding parse_reset
command-parse_reset r = elim (Bool-cases (r.command == "")) [
  | inl e ↦ rw e (λ p. false≢true ((eq_iff default_reset_command "").1 p))
  | inr e ↦ rw e (λ p. ground (arith, eq_iff r.command ""))
]

abbrev assembled : RawConfig → Load → List Fault → Config.Config
assembled rc load fs = record {
  version = rc.version;
  target = rc.target;
  egress = rc.egress;
  load = load;
  faults = fs;
  assert = rc.assert;
  reset = parse_reset rc.reset;
}

assemble-IsSound :
    (present : List String) (rc : RawConfig) (load : Load) (fs : List Fault) (cfg : Config.Config)
    → rc.target.compose ≢ ""
    → rc.target.service ≢ ""
    → egress_error present rc ≡ none
    → load_of present rc ≡ ok load
    → faults_of present rc ≡ ok fs
    → assemble rc load fs ≡ ok cfg
    → IsSound present rc cfg
unfolding assemble
assemble-IsSound present rc load fs cfg c s e l f h =
    let (some_assert, q) =
      reject_if-eq-ok (is_empty rc.assert) no_assert (ok (assembled rc load fs)) h in
    let same : cfg ≡ assembled rc load fs = cc in
    let (valid, names, none_there) = faults_of-eq-ok present rc fs f in
    rw same (record {
      compose = c;
      service = s;
      asserts = (λ p. absurd (ground (arith, ap is_empty p)));
      resets = command-parse_reset rc.reset;
      hosts = (λ host eh p q. egress_error-none present rc host eh e p q);
      stages = (λ p.
          let (same_stages, differ) = load_of-eq-ok present rc load l p in
          (same_stages, rw same_stages differ));
      faults = valid;
      declared = (names, none_there);
      kept = (refl, refl, refl, refl);
    })

parse_config-IsSound :
    (present : List String) (rc : RawConfig) (cfg : Config.Config)
    → parse_config present rc ≡ ok cfg
    → IsSound present rc cfg
unfolding parse_config parse_blocks
parse_config-IsSound present rc cfg h =
    let (c, h1) =
      reject_if-eq-ok (rc.target.compose == "") missing_compose
        (reject_if (rc.target.service == "") missing_service
          >> (reject_some (egress_error present rc) >> parse_blocks present rc))
        h in
    let (s, h2) =
      reject_if-eq-ok (rc.target.service == "") missing_service
        (reject_some (egress_error present rc) >> parse_blocks present rc) h1 in
    let (e, h3) = reject_some-eq-ok (egress_error present rc) (parse_blocks present rc) h2 in
    let (load, l, h4) =
      >>=-eq-ok (load_of present rc) (λ load. faults_of present rc >>= assemble rc load) h3 in
    let (fs, f, h5) = >>=-eq-ok (faults_of present rc) (assemble rc load) h4 in
    assemble-IsSound present rc load fs cfg (λ p. ground (arith, eq_iff rc.target.compose ""))
      (λ p. ground (arith, eq_iff rc.target.service "")) e l f h5

-- Parse accepts a document only if it decodes, and then its result is sound: a compose file, a service,
-- an assertion and a reset command are there; version, target, egress and assertions are the document's;
-- each declared host has one of the four classes with what that class asks for; the phases of the load are
-- the document's and differ; and the faults are the declared ones, in order and each with its name, at,
-- for, target and inject, and valid for the declared phases and targets.
pub parse-IsSound :
    (doc : Document) (cfg : Config.Config)
    → parse doc ≡ ok cfg
    → (present : List String) × (rc : RawConfig) × (doc ≡ document present (some rc))
      × IsSound present rc cfg
unfolding parse decoded_config
parse-IsSound bad_yaml cfg h = absurd (cc)
parse-IsSound no_content cfg h = absurd (cc)
parse-IsSound (document present none) cfg h =
    let (k, h1) =
      reject_some-eq-ok (check_keys present) (decoded_config none >>= parse_config present) h in
    absurd (cc)
parse-IsSound (document present (some rc)) cfg h =
    let (k, h1) =
      reject_some-eq-ok (check_keys present) (decoded_config (some rc) >>= parse_config present)
        h in
    (present, rc, refl, parse_config-IsSound present rc cfg h1)
