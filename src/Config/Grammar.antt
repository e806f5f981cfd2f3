-- ===== src/Config/Grammar.antt =====
-- atGrammar: `^(t=[0-9]+[a-z]+|[A-Za-z0-9_-]+(\+[0-9]+[a-z]+)?)$`. The classes of neighbouring parts
-- are disjoint, so the match needs no backtracking.
use tortureu.Base.{ℕ, String, Bool, true, false, List, [], ◌∷◌, ◌&&◌, ◌||◌, leb, eqb, if◌then◌else◌}
use tortureu.Base.Text.{codes, is_digit}

unfoldable pub is_lower : ℕ → Bool
is_lower c = leb b'a' c && leb c b'z'

unfoldable pub is_phase_char : ℕ → Bool
unfolding is_lower is_digit
is_phase_char c = is_lower c || leb b'A' c && leb c b'Z' || is_digit c || eqb c b'_' || eqb c b'-'

-- `[a-z]*$`
unfoldable pub all_lower : List ℕ → Bool
unfolding is_lower
all_lower [] = true
all_lower (c ∷ cs) = is_lower c && all_lower cs

-- `[0-9]*[a-z]+$`
unfoldable pub unit_tail : List ℕ → Bool
unfolding is_lower is_digit all_lower
unit_tail [] = false
unit_tail (c ∷ cs) = if is_digit c then unit_tail cs else is_lower c && all_lower cs

-- `[0-9]+[a-z]+$`
unfoldable pub is_duration : List ℕ → Bool
unfolding is_digit unit_tail
is_duration [] = false
is_duration (c ∷ cs) = is_digit c && unit_tail cs

-- `[A-Za-z0-9_-]*(\+[0-9]+[a-z]+)?$`
unfoldable pub phase_tail : List ℕ → Bool
unfolding is_phase_char is_duration
phase_tail [] = true
phase_tail (c ∷ cs) = if is_phase_char c then phase_tail cs else eqb c b'+' && is_duration cs

unfoldable pub is_phase_anchor : List ℕ → Bool
unfolding is_phase_char phase_tail
is_phase_anchor [] = false
is_phase_anchor (c ∷ cs) = is_phase_char c && phase_tail cs

-- `t=[0-9]+[a-z]+$`
unfoldable pub is_absolute : List ℕ → Bool
unfolding is_duration
is_absolute (c ∷ d ∷ cs) = eqb c b't' && eqb d b'=' && is_duration cs
is_absolute _ = false

unfoldable pub at_grammar : String → Bool
unfolding is_absolute is_phase_anchor
at_grammar s = is_absolute (codes s) || is_phase_anchor (codes s)
