-- ===== src/Verdict/Confidence.antt =====
-- The observability ceiling on a finding's confidence.
use tortureu.Base.{◌≤◌, ◌≡◌, ◌⊎◌, arith, eq_iff, is_some, true, lookup}
use tortureu.Verdict.{Confidence, confidence_rank, rank_of, at_most}

-- Under a known ceiling the clamped confidence never ranks above the ceiling or above the
-- confidence that was given, and it is one of the two.
pub at_most_bounds :
    (c ceiling : Confidence)
    → is_some (lookup ceiling confidence_rank) ≡ true
    → (rank_of (at_most c ceiling) ≤ rank_of ceiling)
      × (rank_of (at_most c ceiling) ≤ rank_of c)
      × ((at_most c ceiling ≡ c) ⊎ (at_most c ceiling ≡ ceiling))
unfolding at_most
at_most_bounds c ceiling h = ground (
  arith,
  eq_iff "ambiguous" c,
  eq_iff "correlated" c,
  eq_iff "caused" c,
  eq_iff "ambiguous" ceiling,
  eq_iff "correlated" ceiling,
  eq_iff "caused" ceiling,
)
