-- ===== src/Trace/Walk/Gate.antt =====
-- A chain is evidence: what has been measured when there is one.
use tortureu.Base.{
  String, true, List, [], ◌∷◌, Option, none, some, ◌==◌, ltb_ℤ, ◌≡◌, arith, Bool-cases,
  Option-cases, inl, inr, false, pos, scale, ◌-ℤ◌,
}
use tortureu.Trace.{Span, Trace, Hop, Located, split_target, matches_target, best_span, best_match}
use tortureu.Trace.Stats.{Stat, stat_for, degraded_enough, observed}
use tortureu.Trace.Walk.{chain_from, gated, build_chain}

-- what the search for the slowest span keeps true of what it holds
abbrev AllMatch : String → String → Option Located → Type 0
AllMatch host port none = Unit
AllMatch host port (some found) = matches_target found.0 host port ≡ true

best_span-AllMatch :
    (host port : String) (t : Trace) (ss : List Span) (best : Option Located)
    → AllMatch host port best
    → AllMatch host port (best_span host port t ss best)
unfolding best_span
best_span-AllMatch host port t [] best h = h
best_span-AllMatch host port t (s ∷ ss) none h = elim (Bool-cases (matches_target s host port)) [
  | inl m ↦ rw m (best_span-AllMatch host port t ss (some (s, t)) m)
  | inr m ↦ rw m (best_span-AllMatch host port t ss none h)
]
best_span-AllMatch host port t (s ∷ ss) (some (b, bt)) h =
    elim (Bool-cases (matches_target s host port)) [
      | inr m ↦ rw m (best_span-AllMatch host port t ss (some (b, bt)) h)
      | inl m ↦ elim (Bool-cases (ltb_ℤ b.duration s.duration)) [
        | inl l ↦ rw (m, l) (best_span-AllMatch host port t ss (some (s, t)) m)
        | inr l ↦ rw (m, l) (best_span-AllMatch host port t ss (some (b, bt)) h)
      ]
    ]

best_match-AllMatch :
    (host port : String) (ts : List Trace) (best : Option Located)
    → AllMatch host port best
    → AllMatch host port (best_match host port ts best)
unfolding best_match
best_match-AllMatch host port [] best h = h
best_match-AllMatch host port (t ∷ ts) best h =
    best_match-AllMatch host port ts (best_span host port t t.spans best)
      (best_span-AllMatch host port t t.spans best h)

-- What stands behind a chain whose first hop is `h`.
pub record IsMeasured (traces : List Trace) (target : String) (h : Hop) : Type 0 where
  pub span : Span
  pub stat : Stat
  pub matching : matches_target span (split_target target).0 (split_target target).1 ≡ true
  pub measured : stat_for traces span ≡ some stat
  pub doubled : ltb_ℤ stat.degraded (scale stat.baseline 2) ≡ false
  pub stepped : ltb_ℤ (stat.degraded -ℤ stat.baseline) (pos 10000000) ≡ false
  pub hop : h ≡ record { at = target; observed = observed stat }

degraded_enough-steps :
    (st : Stat)
    → degraded_enough st ≡ true
    → (ltb_ℤ st.degraded (scale st.baseline 2) ≡ false)
      × (ltb_ℤ (st.degraded -ℤ st.baseline) (pos 10000000) ≡ false)
unfolding degraded_enough
degraded_enough-steps st d = ground arith

chain_from-first :
    (traces : List Trace) (target : String) (found : Located) (st : Stat) (h : Hop) (hs : List Hop)
    → chain_from traces target found st ≡ some (h ∷ hs)
    → h ≡ record { at = target; observed = observed st }
unfolding chain_from
chain_from-first traces target (best, t) st h hs e = ground arith

gated-IsMeasured :
    (traces : List Trace) (target : String) (found : Located) (h : Hop) (hs : List Hop)
    → matches_target found.0 (split_target target).0 (split_target target).1 ≡ true
    → gated traces target found ≡ some (h ∷ hs)
    → IsMeasured traces target h
unfolding gated
gated-IsMeasured traces target found h hs m e = elim (Option-cases (stat_for traces found.0)) [
  | inl n ↦ absurd (let e' = rw (n, gated) at e in cc)
  | inr (st, q) ↦ elim (Bool-cases (degraded_enough st)) [
    | inr d ↦ absurd (let e' = rw (q, gated, d) at e in cc)
    | inl d ↦ record {
      span = found.0;
      stat = st;
      matching = m;
      measured = q;
      doubled = (degraded_enough-steps st d).0;
      stepped = (degraded_enough-steps st d).1;
      hop = chain_from-first traces target found st h hs (rw (q, gated, d) at e);
    }
  ]
]

-- A chain that is not empty starts at the fault's target, and shows the measured latency of a span that
-- matches this target, where the degraded latency of its service and operation is at least twice their
-- baseline and at least 10 ms above it.
pub build_chain-IsMeasured :
    (traces : List Trace) (target : String) (h : Hop) (hs : List Hop)
    → build_chain traces target ≡ some (h ∷ hs)
    → IsMeasured traces target h
unfolding build_chain
build_chain-IsMeasured traces target h hs e =
    let (host, port) = split_target target in
    elim (Bool-cases (host == "")) [
      | inl n ↦ absurd (let e' = rw n at e in cc)
      | inr n ↦ elim (Option-cases (best_match host port traces none)) [
        | inl b ↦ absurd (let e' = rw (n, b) at e in cc)
        | inr (found, b) ↦
            gated-IsMeasured traces target found h hs
              (rw b at (best_match-AllMatch host port traces none tt)) (rw (n, b) at e)
      ]
    ]
