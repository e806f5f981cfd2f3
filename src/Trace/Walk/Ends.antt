-- ===== src/Trace/Walk/Ends.antt =====
-- The walk along the parent links ends, whatever the links are.
use tortureu.Base.{
  ℕ, zero, suc, ◌≤◌, ◌<◌, String, true, false, List, [], ◌∷◌, Option, none, some, ◌==◌, contains,
  if◌then◌else◌, length, ◌≡◌, refl, arith, eq_iff, Bool-cases, Option-cases, inl, inr, is_some,
}
use mathlib.Core.Path.{subst}
use tortureu.Trace.{Span, Trace, Hop, Located, split_target, best_match}
use tortureu.Trace.Stats.{Stat, stat_for, degraded_enough, observed}
use tortureu.Trace.Walk.{by_id, walk, chain_from, gated, build_chain, cons_hop, parent_hop}

-- the spans whose ids have not been seen
unseen : List String → List Span → ℕ
unseen seen [] = 0
unseen seen (s ∷ ss) = if contains seen s.span_id then unseen seen ss else suc (unseen seen ss)

unseen-length : (seen : List String) (ss : List Span) → unseen seen ss ≤ length ss
unfolding unseen
unseen-length seen [] = omega arith
unseen-length seen (s ∷ ss) = ground (arith, unseen-length seen ss)

unseen-shrinks :
    (id : String) (seen : List String) (ss : List Span) → unseen (id ∷ seen) ss ≤ unseen seen ss
unfolding unseen
unseen-shrinks id seen [] = omega arith
unseen-shrinks id seen (s ∷ ss) = ground (arith, unseen-shrinks id seen ss)

unseen-head :
    (s : Span) (seen : List String) (ss : List Span)
    → contains seen s.span_id ≡ false
    → unseen (s.span_id ∷ seen) (s ∷ ss) < unseen seen (s ∷ ss)
unfolding unseen
unseen-head s seen ss new =
    rw ((eq_iff s.span_id s.span_id).1 refl, new) (omega (arith, unseen-shrinks s.span_id seen ss))

-- seeing the id of one of the spans takes one away
unseen-by_id :
    (id : String) (seen : List String) (ss : List Span) (p : Span)
    → by_id id ss ≡ some p
    → contains seen p.span_id ≡ false
    → unseen (p.span_id ∷ seen) ss < unseen seen ss
unfolding unseen by_id
unseen-by_id id seen [] p found new = absurd (cc)
unseen-by_id id seen (s ∷ ss) p found new = elim (Option-cases (by_id id ss)) [
  | inr (later, e) ↦
      let same : by_id id ss ≡ some p = ground arith in
      ground (arith, unseen-by_id id seen ss p same new)
  | inl n ↦
      let same : s ≡ p = ground arith in
      let here : contains seen s.span_id ≡ false = rw same new in
      subst (λ q. unseen (q.span_id ∷ seen) (s ∷ ss) < unseen seen (s ∷ ss)) same
        (unseen-head s seen ss here)
]

cons_hop-is_some :
    (h : Hop) (r : Option (List Hop)) → is_some r ≡ true → is_some (cons_hop h r) ≡ true
cons_hop-is_some h none e = e
cons_hop-is_some h (some hs) e = refl

walk-is_some :
    (fuel : ℕ) (traces : List Trace) (spans : List Span) (seen : List String) (cur : Span)
    → unseen seen spans < fuel
    → is_some (walk fuel traces spans seen cur) ≡ true
unfolding walk
walk-is_some zero traces spans seen cur h = absurd (omega arith)
walk-is_some (suc fuel) traces spans seen cur h = elim (Bool-cases (cur.parent_id == "")) [
  | inl root ↦ rw root
  | inr child ↦ elim (Option-cases (by_id cur.parent_id spans)) [
    | inl n ↦ rw (child, n)
    | inr (p, e) ↦ elim (Bool-cases (contains seen p.span_id)) [
      | inl old ↦ rw (child, e, old)
      | inr new ↦ elim (Option-cases (stat_for traces p)) [
        | inl n ↦ rw (child, e, new, n)
        | inr (st, q) ↦
            rw (child, e, new, q)
              (cons_hop-is_some (parent_hop p st) (walk fuel traces spans (p.span_id ∷ seen) p) (
                walk-is_some fuel traces spans (p.span_id ∷ seen) p
                  (omega (arith, unseen-by_id cur.parent_id seen spans p e new))))
      ]
    ]
  ]
]

chain_from-is_some :
    (traces : List Trace) (target : String) (found : Located) (st : Stat)
    → is_some (chain_from traces target found st) ≡ true
unfolding chain_from
chain_from-is_some traces target (best, t) st =
    cons_hop-is_some (record { at = target; observed = observed st })
      (walk (suc (length t.spans)) traces t.spans (best.span_id ∷ []) best)
      (walk-is_some (suc (length t.spans)) traces t.spans (best.span_id ∷ []) best
        (omega (arith, unseen-length (best.span_id ∷ []) t.spans)))

gated-is_some :
    (traces : List Trace) (target : String) (found : Located)
    → is_some (gated traces target found) ≡ true
unfolding gated
gated-is_some traces target found = elim (Option-cases (stat_for traces found.0)) [
  | inl n ↦ rw (n, gated)
  | inr (st, q) ↦ elim (Bool-cases (degraded_enough st)) [
    | inl d ↦ rw (q, gated, d) (chain_from-is_some traces target found st)
    | inr d ↦ rw (q, gated, d)
  ]
]

-- BuildChain always returns: whatever the parent links of the spans are, cyclic ones included, the walk
-- to the root ends after at most as many steps as the trace has spans.
pub build_chain-is_some :
    (traces : List Trace) (target : String) → is_some (build_chain traces target) ≡ true
unfolding build_chain
build_chain-is_some traces target =
    let (host, port) = split_target target in
    elim (Bool-cases ((split_target target).0 == "")) [
      | inl e ↦ rw e
      | inr e ↦ elim (Option-cases (best_match host port traces none)) [
        | inl n ↦ rw (e, n)
        | inr (found, b) ↦ rw (e, b) (gated-is_some traces target found)
      ]
    ]
