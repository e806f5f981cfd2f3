-- ===== src/Findings/Candidates.antt =====
-- The candidates of a finding are distinct libraries, and each comes from what was detected.
use tortureu.Base.{
  String, false, List, [], ◌∷◌, ◌++◌, Option, none, some, ◌==◌, contains, ◌≡◌, refl, arith, eq_iff,
  AreDistinct, map, Bool-cases, inl, inr, ◌⊎◌, ap,
}
use tortureu.Base.Decimal.{append_text}
use tortureu.Base.Sort.{sort_strings}
use tortureu.Config
use tortureu.Verdict.{Candidate, Finding}
use tortureu.Findings.{
  Dep, AuditFinding, System, Listed, list_candidate, list_candidates, list_clients, candidate,
  list_dep, list_addresses, list_faults, candidates_from_audit, build_candidates,
  build_candidates_from_detected_deps, attribute, cause_of, dep_at, manifest_for,
  no_fault_candidate_source, addresses,
}

abbrev pub libraries : List Candidate → List String
libraries cs = map (λ c. c.library) cs

contains-append :
    (xs ys : List String) (k : String)
    → contains xs k ≡ false
    → contains ys k ≡ false
    → contains (xs ++ ys) k ≡ false
contains-append [] ys k hx hy = hy
contains-append (x ∷ xs) ys k hx hy = ground (arith, contains-append xs ys k)

-- what the loops keep true: the libraries listed are distinct, and all of them have been seen
record IsListed (l : Listed) : Type 0 where
  distinct : AreDistinct (libraries l.1)
  recorded : (k : String) → contains l.0 k ≡ false → contains (libraries l.1) k ≡ false

libraries-append : (xs ys : List Candidate) → libraries (xs ++ ys) ≡ libraries xs ++ libraries ys
libraries-append [] ys = refl
libraries-append (x ∷ xs) ys = ap (λ l. x.library ∷ l) (libraries-append xs ys)

AreDistinct-append_one :
    (xs : List String) (k : String)
    → AreDistinct xs
    → contains xs k ≡ false
    → AreDistinct (xs ++ (k ∷ []))
AreDistinct-append_one [] k d n = (refl, tt)
AreDistinct-append_one (x ∷ xs) k d n =
    let (h, t) = d in
    let other : (k == x) ≡ false = ground (arith, eq_iff k x, eq_iff x k) in
    let last : contains (k ∷ []) x ≡ false = rw other in
    (contains-append xs (k ∷ []) x h last, AreDistinct-append_one xs k t (ground arith))

list_candidate-IsListed : (l : Listed) (c : Candidate) → IsListed l → IsListed (list_candidate l c)
list_candidate-IsListed (seen, cs) c h = elim (Bool-cases (contains seen c.library)) [
  | inl old ↦ rw old h
  | inr new ↦ rw new (record {
    distinct =
        rw (libraries-append cs (c ∷ []))
          (AreDistinct-append_one (libraries cs) c.library h.distinct (h.recorded c.library new));
    recorded = (λ k n. rw (libraries-append cs (c ∷ [])) (
        contains-append (libraries cs) (c.library ∷ []) k (h.recorded k (ground arith))
          (ground arith)));
  })
]

list_candidates-IsListed :
    (l : Listed) (cs : List Candidate) → IsListed l → IsListed (list_candidates l cs)
unfolding list_candidates
list_candidates-IsListed l [] h = h
list_candidates-IsListed l (c ∷ cs) h =
    list_candidates-IsListed (list_candidate l c) cs (list_candidate-IsListed l c h)

list_clients-IsListed :
    (source : String) (l : Listed) (clients : List String)
    → IsListed l
    → IsListed (list_clients source l clients)
unfolding list_clients
list_clients-IsListed source l [] h = h
list_clients-IsListed source l (client ∷ rest) h =
    list_clients-IsListed source (list_candidate l (candidate source client)) rest
      (list_candidate-IsListed l (candidate source client) h)

list_faults-IsListed :
    (sys : System) (audit : List AuditFinding) (fs : List Config.Fault) (l : Listed)
    → IsListed l
    → IsListed (list_faults sys audit fs l)
unfolding list_faults
list_faults-IsListed sys audit [] l h = h
list_faults-IsListed sys audit (f ∷ fs) l h =
    list_faults-IsListed sys audit fs
      (list_candidates l (build_candidates f sys.deps audit sys.lang sys.sut))
      (list_candidates-IsListed l (build_candidates f sys.deps audit sys.lang sys.sut) h)

list_addresses-IsListed :
    (source : String) (audit : List AuditFinding) (deps : List Dep) (addresses : List String)
    (l : Listed)
    → IsListed l
    → IsListed (list_addresses source audit deps addresses l)
unfolding list_addresses
list_addresses-IsListed source audit deps [] l h = h
list_addresses-IsListed source audit deps (a ∷ rest) l h =
    list_addresses-IsListed source audit deps rest (list_dep source audit (dep_at deps a) l)
      (list_dep-IsListed (dep_at deps a) h)
  where
    list_dep-IsListed : (d : Option Dep) → IsListed l → IsListed (list_dep source audit d l)
    list_dep-IsListed none h = h
    list_dep-IsListed (some d) h =
        list_candidates-IsListed (list_clients source l (sort_strings d.clients))
          (candidates_from_audit d.name audit source)
          (list_clients-IsListed source l (sort_strings d.clients) h)

none-IsListed : IsListed ([], [])
none-IsListed = record { distinct = tt; recorded = (λ k n. refl) }

-- For a finding that has no candidates yet, attribute names each library at most once, whatever faults
-- are active and whatever the detection and the audit report; and it names a cause exactly when one
-- fault is active, and that fault.
pub attribute-AreDistinct :
    (finding : Finding) (faults : List Config.Fault) (sys : System) (audit : List AuditFinding)
    → finding.candidates ≡ []
    → finding.cause ≡ none
    → AreDistinct (libraries (attribute finding faults sys audit).candidates)
      × (((attribute finding faults sys audit).cause ≡ none)
          ⊎ ((f : Config.Fault) × (faults ≡ f ∷ [])
              × ((attribute finding faults sys audit).cause ≡ some (cause_of f))))
unfolding attribute build_candidates_from_detected_deps
attribute-AreDistinct finding [] sys audit n c = (
  (list_addresses-IsListed (append_text (manifest_for sys.lang) no_fault_candidate_source) audit
      sys.deps (sort_strings (addresses sys.deps)) ([], []) none-IsListed).distinct,
  inl c,
)
attribute-AreDistinct finding (f ∷ []) sys audit n c = (
  rw n (list_faults-IsListed sys audit (f ∷ []) ([], []) none-IsListed).distinct,
  inr (f, refl, refl),
)
attribute-AreDistinct finding (f ∷ g ∷ fs) sys audit n c =
    (rw n (list_faults-IsListed sys audit (f ∷ g ∷ fs) ([], []) none-IsListed).distinct, inl c)
