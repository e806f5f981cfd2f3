-- ===== src/Smoke.antt =====
-- internal/smoke/smoke.go: what a constant-rate check reports. The probes themselves are answers.
pub mod Ranks
use tortureu.Base.{
  ℕ, suc, ◌+◌, ◌-◌, ◌*◌, ◌/◌, Bool, true, false, List, [], ◌∷◌, Option, none, some, length, eqb,
  ltb, leb, if◌then◌else◌, ℤ, pos, negsuc, get_elem?, ◌&&◌,
}
use tortureu.Float64
use tortureu.Float64.{Float64}

-- one request: its latency in nanoseconds, and the status where a response came
pub record Probe : Type 0 where
  pub elapsed : ℕ
  pub status : Option ℕ

pub record Result : Type 0 where
  pub sent : ℕ
  pub succeeded : ℕ
  pub failed : ℕ
  pub p50 : ℕ
  pub p95 : ℕ
  pub p99 : ℕ

unfoldable pub success_rate : Result → Float64
success_rate r =
    if eqb r.sent 0
    then Float64.of_int (pos 0)
    else Float64.div_nat (Float64.of_int (pos r.succeeded)) r.sent

unfoldable pub is_success : Probe → Bool
is_success p = elim p.status [ none ↦ false | some code ↦ leb 200 code && ltb code 400 ]

unfoldable pub successes : List Probe → ℕ
unfolding is_success
successes [] = 0
successes (p ∷ ps) = let rest = successes ps in if is_success p then suc rest else rest

abbrev pub latencies : List Probe → List ℕ
latencies [] = []
latencies (p ∷ ps) = p.elapsed ∷ latencies ps

-- sort.Slice: durations that are equal cannot be told apart
unfoldable pub insert_duration : ℕ → List ℕ → List ℕ
insert_duration x [] = x ∷ []
insert_duration x (y ∷ ys) =
    let later = y ∷ insert_duration x ys in if leb x y then x ∷ y ∷ ys else later

unfoldable pub sort_durations : List ℕ → List ℕ
unfolding insert_duration
sort_durations [] = []
sort_durations (x ∷ xs) = insert_duration x (sort_durations xs)

-- int(math.Ceil(x)), for an x that is not negative
abbrev pub ceiling : Float64 → ℤ
ceiling x =
    let t = Float64.trunc x in
    Float64.to_int (if Float64.lt t x then Float64.add t (Float64.of_int (pos 1)) else t)

-- one below the rank, between the first place and the last
abbrev pub clamp : ℕ → ℤ → ℕ
clamp n (negsuc k) = 0
clamp n (pos i) = if leb n (i - 1) then n - 1 else i - 1

unfoldable pub rank_index : Float64 → ℕ → ℕ
rank_index p n = clamp n (ceiling (Float64.mul p (Float64.of_int (pos n))))

abbrev pub or_zero : Option ℕ → ℕ
or_zero none = 0
or_zero (some d) = d

-- sorted[idx] is in range wherever the input is not empty
unfoldable pub percentile : List ℕ → Float64 → ℕ
unfolding sort_durations rank_index
percentile [] p = 0
percentile (d ∷ ds) p =
    or_zero (get_elem? (sort_durations (d ∷ ds)) (rank_index p (length (d ∷ ds))))

-- Run's result, once every request has ended
unfoldable pub result_of : List Probe → Result
unfolding successes percentile
result_of probes = record {
  sent = length probes;
  succeeded = successes probes;
  failed = length probes - successes probes;
  p50 = percentile (latencies probes) (Float64.of_ratio 50 100);
  p95 = percentile (latencies probes) (Float64.of_ratio 95 100);
  p99 = percentile (latencies probes) (Float64.of_ratio 99 100);
}

unfoldable pub exit_code : Result → Float64 → ℤ
unfolding success_rate Float64.lt Float64.eq
exit_code r min_success_rate =
    if eqb r.sent 0
    then pos 2
    else if Float64.le min_success_rate (success_rate r)
    then pos 0
    else pos 1
