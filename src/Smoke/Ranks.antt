-- ===== src/Smoke/Ranks.antt =====
-- A percentile is one of the latencies, by its rank.
pub mod Sorted
use tortureu.Base.{
  ℕ, zero, suc, ◌+◌, ◌≤◌, ◌<◌, true, false, List, [], ◌∷◌, some, length, leb, leb→le, eqb,
  get_elem?, ltb, Option, none, Option-cases, if◌then◌else◌, ◌≡◌, refl, arith, ap, All, In, inl,
  inr, ◌⊎◌, Bool-cases, ℤ, pos, negsuc, sym, ◌∙◌,
}
use mathlib.Core.Path.{subst}
use tortureu.Float64
use tortureu.Float64.{Float64}
use tortureu.Smoke.{
  Probe, Result, insert_duration, sort_durations, rank_index, percentile, clamp, result_of,
  latencies, ceiling, is_success, success_rate, successes, exit_code, or_zero,
}
use tortureu.Smoke.Ranks.Sorted.{
  In-sort, count_le, count_le-get_elem?, count_le-sort, count_lt, count_lt-get_elem?, count_lt-sort,
  count_ok, get_elem?-In, get_elem?-some, length-sort, nearest_rank, sort-IsSorted, within,
}

suc-clamp : (n : ℕ) (c : ℤ) → suc (clamp (suc n) c) ≡ within (suc n) c
suc-clamp n (negsuc k) = refl
suc-clamp n (pos c) = ground arith

suc-rank_index : (q : Float64) (n : ℕ) → suc (rank_index q (suc n)) ≡ nearest_rank q (suc n)
unfolding rank_index
suc-rank_index q n = suc-clamp n (ceiling (Float64.mul q (Float64.of_int (pos (suc n)))))

successes-count_ok : (ps : List Probe) → successes ps ≡ count_ok ps
unfolding successes is_success
successes-count_ok [] = refl
successes-count_ok (p ∷ ps) = elim (Option-cases p.status) [
  | inl n ↦ ground (arith, successes-count_ok ps)
  | inr (code, e) ↦ ground (arith, successes-count_ok ps)
]

clamp-below : (n : ℕ) (i : ℤ) → clamp (suc n) i < suc n
clamp-below n (negsuc k) = omega arith
clamp-below n (pos i) = ground arith

rank_index-below : (p : Float64) (n : ℕ) → rank_index p (suc n) < suc n
unfolding rank_index
rank_index-below p n = clamp-below n _

successes-le : (probes : List Probe) → successes probes ≤ length probes
unfolding successes
successes-le [] = omega arith
successes-le (p ∷ ps) = ground (arith, successes-le ps)

at-rank :
    (d : ℕ) (ds : List ℕ) (q : Float64)
    → let all = d ∷ ds in
      (v : ℕ) × (percentile all q ≡ v)
      × In v all
      × (suc (rank_index q (length all)) ≤ count_le v all)
      × (count_lt v all ≤ rank_index q (length all))
unfolding percentile
at-rank d ds q =
    let all = d ∷ ds in
    let i = rank_index q (length all) in
    let below : i < length (sort_durations all) =
      subst (λ n. i < n) (sym (length-sort all)) (rank_index-below q (length ds)) in
    let (v, e) = get_elem?-some (sort_durations all) i below in
    (
      v,
      ap or_zero e,
      In-sort v all (get_elem?-In (sort_durations all) i v e),
      subst (λ n. suc i ≤ n) (count_le-sort v all)
          (count_le-get_elem? (sort_durations all) i v (sort-IsSorted all) e),
      subst (λ n. n ≤ i) (count_lt-sort v all)
          (count_lt-get_elem? (sort_durations all) i v (sort-IsSorted all) e),
    )

-- the exit code where some requests were sent
abbrev pub Exits : Result → Float64 → Type 0
Exits r m =
    let enough = Float64.le m (Float64.div_nat (Float64.of_int (pos r.succeeded)) r.sent) in
    ((enough ≡ true) × (exit_code r m ≡ pos 0)) ⊎ ((enough ≡ false) × (exit_code r m ≡ pos 1))

sent-exit_code : (r : Result) (n : ℕ) (m : Float64) → r.sent ≡ suc n → Exits r m
unfolding exit_code success_rate
sent-exit_code r n m e =
    let some_sent : eqb r.sent 0 ≡ false = ground arith in
    let rate = Float64.div_nat (Float64.of_int (pos r.succeeded)) r.sent in
    elim (Bool-cases (Float64.le m rate)) [
      | inl t ↦ inl (t, rw (exit_code, success_rate, some_sent, t) refl)
      | inr t ↦ inr (t, rw (exit_code, success_rate, some_sent, t) refl)
    ]

-- Where some requests were sent: a percentile is their latency of the nearest rank, so as many of them
-- as this rank are not greater, and fewer are smaller; the requests that succeeded are those that were
-- answered with a status from 200 to 399, and they and those that failed add up to those sent; and the
-- exit code is 0 when the share that succeeded is not below the rate asked for, and 1 when it is.
pub percentile-IsRank :
    (p : Probe) (ps : List Probe) (q min_success_rate : Float64)
    → let all = latencies (p ∷ ps) in
      let r = result_of (p ∷ ps) in
      In (percentile all q) all
      × (nearest_rank q (length all) ≤ count_le (percentile all q) all)
      × (count_lt (percentile all q) all < nearest_rank q (length all))
      × (r.sent ≡ length (p ∷ ps))
      × (r.succeeded ≡ count_ok (p ∷ ps))
      × (r.succeeded + r.failed ≡ r.sent)
      × Exits r min_success_rate
unfolding result_of
percentile-IsRank p ps q min_success_rate =
    let all = latencies (p ∷ ps) in
    let (v, f, m, c, b) = at-rank p.elapsed (latencies ps) q in
    let k = suc-rank_index q (length (latencies ps)) in
    (
      subst (λ w. In w all) (sym f) m,
      subst (λ w. nearest_rank q (length all) ≤ count_le w all) (sym f) (rw (← k) c),
      subst (λ w. count_lt w all < nearest_rank q (length all)) (sym f)
          (rw (← k) (omega (arith, b))),
      refl,
      successes-count_ok (p ∷ ps),
      omega (arith, successes-le (p ∷ ps)),
      sent-exit_code (result_of (p ∷ ps)) (length ps) min_success_rate refl,
    )
