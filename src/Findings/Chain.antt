-- ===== src/Findings/Chain.antt =====
-- internal/run/trace.go: the chain and the confidence that ingested spans earn a finding. The spans are
-- those that ingestTraces reads, an empty list where there is no backend.
pub mod Earned
use tortureu.Base.{
  String, Bool, true, false, List, [], ◌∷◌, Option, none, some, ◌==◌, not, if◌then◌else◌,
}
use tortureu.Config
use tortureu.Trace.{Trace, Hop, is_address}
use tortureu.Trace.Walk.{build_chain}
use tortureu.Verdict.{Finding, Cause, ChainHop, Confidence, caused, at_most}
use tortureu.Findings.{System, cause_of}

-- BuildChain always returns; nil is the empty list
abbrev pub hops_of : List Trace → String → List Hop
hops_of traces target = elim (build_chain traces target) [ none ↦ [] | some hops ↦ hops ]

unfoldable pub has_address_target : List Config.Fault → Bool
has_address_target [] = false
has_address_target (f ∷ fs) = if is_address f.target then true else has_address_target fs

abbrev pub Sole : Type 0
Sole = Option (Config.Fault × List Hop)

-- the loop; the cache of chains does not change what it finds
unfoldable pub sole_from : List Trace → List Config.Fault → Sole → Sole
sole_from traces [] found = found
sole_from traces (f ∷ fs) found =
    if is_address f.target
    then (elim (hops_of traces f.target) [
      | [] ↦ sole_from traces fs found
      | hop ∷ hops ↦ elim found [
        | some two ↦ none
        | none ↦ sole_from traces fs (some (f, hop ∷ hops))
      ]
    ])
    else sole_from traces fs found

unfoldable pub sole_degraded_fault : List Trace → List Config.Fault → Sole
unfolding sole_from
sole_degraded_fault traces faults = sole_from traces faults none

abbrev chain_hop : Hop → ChainHop
chain_hop h = record { at = h.at; observed = h.observed }

abbrev chain_hops : List Hop → List ChainHop
chain_hops [] = []
chain_hops (h ∷ hs) = chain_hop h ∷ chain_hops hs

-- the end of applyTraceChain
unfoldable pub with_chain : System → Finding → List Hop → Finding
with_chain sys f [] = f
with_chain sys f (h ∷ hs) = record f {
  chain = chain_hops (h ∷ hs);
  confidence = at_most caused sys.max_confidence;
}

-- what follows once there are spans
unfoldable pub from_spans :
    System → List Trace → List Config.Fault → Option Cause → Finding → Finding
unfolding with_chain sole_degraded_fault
from_spans sys traces faults (some c) f = with_chain sys f (hops_of traces c.target)
from_spans sys traces faults none f = elim (sole_degraded_fault traces faults) [
  | none ↦ f
  | some found ↦
      let (cause, hops) = found in with_chain sys (record f { cause = some (cause_of cause) }) hops
]

-- whether there is nothing to ask the backend about
abbrev is_hopeless : Option Cause → List Config.Fault → Bool
is_hopeless (some c) faults = c.target == ""
is_hopeless none faults = not (has_address_target faults)

abbrev chained : System → List Trace → List Config.Fault → Finding → Finding
chained sys [] faults f = f
chained sys (t ∷ ts) faults f = from_spans sys (t ∷ ts) faults f.cause f

unfoldable pub apply_trace_chain : Finding → System → List Trace → List Config.Fault → Finding
unfolding from_spans has_address_target
apply_trace_chain f sys traces faults =
    if is_hopeless f.cause faults then f else chained sys traces faults f
