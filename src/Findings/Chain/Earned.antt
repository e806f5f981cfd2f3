-- ===== src/Findings/Chain/Earned.antt =====
-- When a finding may say `caused`.
use tortureu.Base.{
  String, Bool, true, false, List, [], ◌∷◌, Option, none, some, if◌then◌else◌, ◌≡◌, refl, In,
  Bool-cases, Option-cases, List-cases, inl, inr, ◌⊎◌, ap, ◌∙◌,
}
use tortureu.Config
use tortureu.Trace.{Trace, Hop, is_address}
use tortureu.Trace.Walk.{build_chain}
use tortureu.Trace.Walk.Gate.{IsMeasured, build_chain-IsMeasured}
use tortureu.Verdict.{Finding, Cause, caused, at_most}
use tortureu.Findings.{System, cause_of}
use tortureu.Findings.Chain.{
  hops_of, Sole, sole_from, sole_degraded_fault, with_chain, from_spans, is_hopeless,
  apply_trace_chain, chain_hops,
}

if_same : (b : Bool) (f : Finding) → (if b then f else f) ≡ f
if_same true f = refl
if_same false f = refl

hops_of-IsMeasured :
    (traces : List Trace) (target : String) (h : Hop) (hs : List Hop)
    → hops_of traces target ≡ h ∷ hs
    → IsMeasured traces target h
hops_of-IsMeasured traces target h hs e = elim (Option-cases (build_chain traces target)) [
  | inl n ↦ absurd (let e' = rw (n, hops_of) at e in cc)
  | inr (hops, b) ↦
      let e' : hops ≡ h ∷ hs = rw (b, hops_of) at e in
      build_chain-IsMeasured traces target h hs (rw e' at b)
]

-- A finding with a chain: its cause is the one that it had, or a declared fault; the chain starts with
-- a measured degradation of the cause's target; the confidence is `caused` under the ceiling.
pub record IsChained (sys : System) (traces : List Trace) (faults : List Config.Fault)
    (f g : Finding) : Type 0 where
  pub cause : Cause
  pub first : Hop
  pub later : List Hop
  pub chain : g ≡ record f {
    cause = some cause;
    chain = chain_hops (first ∷ later);
    confidence = at_most caused sys.max_confidence;
  }
  pub origin : (f.cause ≡ some cause) ⊎ ((x : Config.Fault) × In x faults × (cause ≡ cause_of x))
  pub measured : IsMeasured traces cause.target first

-- what the loop over the faults has found
abbrev IsFound : List Trace → List Config.Fault → Sole → Type 0
IsFound traces faults none = Unit
IsFound traces faults (some (f, hops)) =
    In f faults × (hops_of traces f.target ≡ hops) × ((h : Hop) × (hs : List Hop) × (hops ≡ h ∷ hs))

IsFound-second :
    (traces : List Trace) (all fs : List Config.Fault) (f : Config.Fault) (x : Hop) (xs : List Hop)
    (found : Sole)
    → IsFound traces all (sole_from traces fs (some (f, x ∷ xs)))
    → IsFound traces all
        (elim found [ some two ↦ none | none ↦ sole_from traces fs (some (f, x ∷ xs)) ])
IsFound-second traces all fs f x xs (some two) h = tt
IsFound-second traces all fs f x xs none h = h

sole_from-IsFound :
    (traces : List Trace) (all fs : List Config.Fault) (found : Sole)
    → ((f : Config.Fault) → In f fs → In f all)
    → IsFound traces all found
    → IsFound traces all (sole_from traces fs found)
unfolding sole_from
sole_from-IsFound traces all [] found within h = h
sole_from-IsFound traces all (f ∷ fs) found within h = elim (Bool-cases (is_address f.target)) [
  | inr bare ↦ rw bare (sole_from-IsFound traces all fs found (λ g i. within g (inr i)) h)
  | inl shaped ↦ elim (List-cases (hops_of traces f.target)) [
    | inl e ↦ rw (shaped, e) (sole_from-IsFound traces all fs found (λ g i. within g (inr i)) h)
    | inr (x, xs, e) ↦
        rw (shaped, e)
          (IsFound-second traces all fs f x xs found (
            sole_from-IsFound traces all fs (some (f, x ∷ xs)) (λ g i. within g (inr i))
              (within f (inl refl), e, (x, xs, refl))))
  ]
]

with_chain-IsChained :
    (sys : System) (traces : List Trace) (faults : List Config.Fault) (f : Finding) (c : Cause)
    (hops : List Hop)
    → (f.cause ≡ some c) ⊎ ((x : Config.Fault) × In x faults × (c ≡ cause_of x))
    → hops_of traces c.target ≡ hops
    → (h : Hop) (hs : List Hop) → hops ≡ h ∷ hs
    → IsChained sys traces faults f (with_chain sys (record f { cause = some c }) hops)
unfolding with_chain
with_chain-IsChained sys traces faults f c hops origin e h hs q = rw q (record {
  cause = c;
  first = h;
  later = hs;
  chain = refl;
  origin = origin;
  measured = hops_of-IsMeasured traces c.target h hs (e ∙ q);
})

from_spans-IsChained :
    (sys : System) (traces : List Trace) (faults : List Config.Fault) (f : Finding)
    (o : Option Cause)
    → f.cause ≡ o
    → (from_spans sys traces faults o f ≡ f)
      ⊎ IsChained sys traces faults f (from_spans sys traces faults o f)
unfolding from_spans with_chain sole_degraded_fault
from_spans-IsChained sys traces faults f (some c) o = elim (List-cases (hops_of traces c.target)) [
  | inl e ↦ inl (rw e)
  | inr (h, hs, e) ↦ inr (
      rw e (record {
        cause = c;
        first = h;
        later = hs;
        chain =
            ap
              (λ x. record f {
                cause = x;
                chain = chain_hops (h ∷ hs);
                confidence = at_most caused sys.max_confidence;
              })
              o;
        origin = inl o;
        measured = hops_of-IsMeasured traces c.target h hs e;
      }))
]
from_spans-IsChained sys traces faults f none o =
    elim (Option-cases (sole_from traces faults none)) [
      | inl n ↦ inl (rw (n, from_spans, sole_degraded_fault))
      | inr ((x, hops), e) ↦
          let (member, built, (h, hs, q)) =
            rw e at (sole_from-IsFound traces faults faults none (λ g i. i) tt) in
          inr (
            rw (e, from_spans, sole_degraded_fault)
              (with_chain-IsChained sys traces faults f (cause_of x) hops (inr (x, member, refl))
                built h hs q))
    ]

-- applyTraceChain leaves a finding as it is, or gives it a chain: then its cause is the one that it had
-- or a declared fault, the chain starts with a measured degradation of the cause's target, the
-- confidence is `caused` under the ceiling, and nothing else of the finding changes.
pub apply_trace_chain-IsChained :
    (f : Finding) (sys : System) (traces : List Trace) (faults : List Config.Fault)
    → (apply_trace_chain f sys traces faults ≡ f)
      ⊎ IsChained sys traces faults f (apply_trace_chain f sys traces faults)
unfolding apply_trace_chain
apply_trace_chain-IsChained f sys [] faults = inl (if_same (is_hopeless f.cause faults) f)
apply_trace_chain-IsChained f sys (t ∷ ts) faults = elim (Bool-cases (is_hopeless f.cause faults)) [
  | inl n ↦ inl (rw n)
  | inr n ↦ rw n (from_spans-IsChained sys (t ∷ ts) faults f f.cause refl)
]
