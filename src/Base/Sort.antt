-- ===== src/Base/Sort.antt =====
-- `sort.Strings` and internal/run's `sortStrings`: the insertion sort of the latter. Equal texts
-- cannot be told apart, so every sorting function gives this list.
pub mod Members
use Prim.Native.String.{String, compare}
use mathlib.Core.Bool.{Bool}
use mathlib.Core.List.{List, [], ◌∷◌}
use text.Mathlib.Text.{is_lt}
use tortureu.Base.Tests.{if◌then◌else◌}

abbrev pub text_lt : String → String → Bool
text_lt s t = is_lt (compare s t)

-- the inner loop: `x` moves left past every greater element of the sorted prefix, which is held
-- reversed
unfoldable pub insert_left : String → List String → List String
insert_left x [] = x ∷ []
insert_left x (y ∷ ys) =
    let moved = y ∷ insert_left x ys in if text_lt x y then moved else x ∷ y ∷ ys

-- the outer loop over the elements not yet placed
unfoldable pub sort_from : List String → List String → List String
unfolding insert_left
sort_from prefix [] = prefix
sort_from prefix (x ∷ xs) = sort_from (insert_left x prefix) xs

unfoldable pub sort_strings : List String → List String
unfolding sort_from
sort_strings xs = mathlib.Core.List.reverse (sort_from [] xs)
