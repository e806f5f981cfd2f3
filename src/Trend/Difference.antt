-- ===== src/Trend/Difference.antt =====
-- The two lists that diffFindings returns, as sets of keys.
use tortureu.Base.{String, List, [], ◌∷◌, contains, not, ◌&&◌, ◌≡◌, refl, arith, eq_iff, ◌∙◌}
use tortureu.Base.Sort.Members.{contains-sort_strings}
use tortureu.Trend.{diff_findings, not_among}

contains-not_among :
    (known ks : List String) (k : String)
    → contains (not_among known ks) k ≡ (contains ks k && not (contains known k))
unfolding not_among
contains-not_among known [] k = refl
contains-not_among known (j ∷ ks) k = ground (arith, eq_iff j k, contains-not_among known ks k)

-- A key is reported as new when the later run has it and the earlier one does not, and as gone when
-- the earlier run has it and the later one does not.
pub contains-diff_findings :
    (before after : List String) (k : String)
    → (contains (diff_findings before after).0 k ≡ (contains after k && not (contains before k)))
      × (contains (diff_findings before after).1 k ≡ (contains before k && not (contains after k)))
unfolding diff_findings
contains-diff_findings before after k = (
  contains-sort_strings (not_among before after) k ∙ contains-not_among before after k,
  contains-sort_strings (not_among after before) k ∙ contains-not_among after before k,
)
