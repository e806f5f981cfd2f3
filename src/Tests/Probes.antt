-- ===== src/Tests/Probes.antt =====
-- Three requests, of which one fails.
use tortureu.Base.{List, [], ◌∷◌, none, some, ◌≡◌, refl, In, ◌≤◌, ◌+◌, length}
use tortureu.Float64
use tortureu.Smoke.{Probe, percentile, result_of, latencies}
use tortureu.Base.{◌<◌}
use tortureu.Smoke.Ranks.{percentile-IsRank, Exits}
use tortureu.Smoke.Ranks.Sorted.{count_le, count_lt, nearest_rank}

abbrev first : Probe
first = record { elapsed = 30; status = some 200 }

abbrev others : List Probe
others = record { elapsed = 10; status = none } ∷ record { elapsed = 20; status = some 302 } ∷ []

percentile-IsRank_example :
    let all = latencies (first ∷ others) in
    let r = result_of (first ∷ others) in
    let half = Float64.of_ratio 1 2 in
    In (percentile all half) all
    × (nearest_rank half (length all) ≤ count_le (percentile all half) all)
    × (count_lt (percentile all half) all < nearest_rank half (length all))
    × (r.sent ≡ 3)
    × (r.succeeded ≡ 2)
    × (r.succeeded + r.failed ≡ r.sent)
    × Exits r half
percentile-IsRank_example =
    percentile-IsRank first others (Float64.of_ratio 1 2) (Float64.of_ratio 1 2)

median : percentile (30 ∷ 10 ∷ 20 ∷ []) (Float64.of_ratio 1 2) ≡ 20
unfolding percentile Float64.of_ratio Float64.mul Float64.of_int Float64.to_int Float64.lt
    Float64.trunc Float64.add
median = refl
