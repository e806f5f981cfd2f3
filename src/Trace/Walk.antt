-- ===== src/Trace/Walk.antt =====
-- internal/trace/chain.go: BuildChain, and its walk along the parent links.
pub mod Ends
pub mod Gate
use tortureu.Base.{
  ℕ, zero, suc, String, Bool, true, false, List, [], ◌∷◌, Option, none, some, ◌==◌, ◌||◌, not,
  contains, if◌then◌else◌, length,
}
use tortureu.Base.Strings.{trim_space}
use tortureu.Base.Text.{concat}
use tortureu.Trace.{Span, Trace, Hop, Located, split_target, best_match}
use tortureu.Trace.Stats.{Stat, stat_for, degraded_enough, observed}

-- byID, where a later span with the same id replaces an earlier one
unfoldable pub by_id : String → List Span → Option Span
by_id id [] = none
by_id id (s ∷ ss) = elim (by_id id ss) [
  | some later ↦ some later
  | none ↦ if s.span_id == id then some s else none
]

abbrev parent_hop : Span → Stat → Hop
parent_hop parent st = record {
  at = trim_space (concat (parent.service ∷ " " ∷ parent.operation ∷ []));
  observed = observed st;
}

abbrev cons_hop : Hop → Option (List Hop) → Option (List Hop)
cons_hop h none = none
cons_hop h (some hs) = some (h ∷ hs)

-- The loop from `cur` on; `none` means that the fuel is used up.
unfoldable pub walk : ℕ → List Trace → List Span → List String → Span → Option (List Hop)
unfolding by_id
walk zero traces spans seen cur = none
walk (suc fuel) traces spans seen cur =
    if cur.parent_id == "" then some [] else elim (by_id cur.parent_id spans) [
      | none ↦ some []
      | some parent ↦
          if contains seen parent.span_id then some [] else elim (stat_for traces parent) [
            | none ↦ some []
            | some st ↦
                cons_hop (parent_hop parent st)
                  (walk fuel traces spans (parent.span_id ∷ seen) parent)
          ]
    ]

-- behind the gate
unfoldable pub chain_from : List Trace → String → Located → Stat → Option (List Hop)
unfolding walk observed
chain_from traces target (best, trace) st =
    cons_hop (record { at = target; observed = observed st })
      (walk (suc (length trace.spans)) traces trace.spans (best.span_id ∷ []) best)

-- R-VER-13's gate: no chain without a measured degradation
unfoldable pub gated : List Trace → String → Located → Option (List Hop)
unfolding chain_from degraded_enough stat_for
gated traces target found = elim (stat_for traces found.0) [
  | none ↦ some []
  | some st ↦ if degraded_enough st then chain_from traces target found st else some []
]

unfoldable pub build_chain : List Trace → String → Option (List Hop)
unfolding split_target best_match gated
build_chain traces target =
    let (host, port) = split_target target in
    if host == "" then some [] else elim (best_match host port traces none) [
      | none ↦ some []
      | some found ↦ gated traces target found
    ]
