-- ===== src/QueueFault.antt =====
-- internal/queuefault: poison_pill and duplicate become broker actions.
pub mod Laws
pub mod Manager
use tortureu.Base.{
  String, Bool, true, false, List, [], ◌∷◌, Option, none, some, Dict, lookup, ◌==◌, ◌||◌,
  if◌then◌else◌, ℤ, pos, ltb_ℤ,
}
use tortureu.Base.Result.{Result, ok, err, reject_if, reject_some, ◌>>=◌, ◌>>◌}
use tortureu.Float64
use tortureu.Float64.{Float64}
use tortureu.Value.{Value, int, float}
use tortureu.Config
use tortureu.Fault.Translate.{stray_key}

pub data ActionKind : Type 0 where
  poison_pill duplicate : ActionKind

pub record PoisonPill : Type 0 where
  pub topic : String
  pub count : ℤ

pub record Duplicate : Type 0 where
  pub topic : String
  pub rate : Float64

pub record Action : Type 0 where
  pub fault : Config.Fault
  pub kind : ActionKind
  pub poison_pill : Option PoisonPill
  pub duplicate : Option Duplicate

pub data Error : Type 0 where
  not_owned : String → Error
  bad_modifier : String → String → Error
  no_target : Error
  not_a_number : String → Value → Error
  count_out_of_range : ℤ → Error
  missing_rate : Error
  rate_out_of_range : Float64 → Error
  unsupported_verb : String → Error

unfoldable pub verb_modifiers : Dict (List String)
verb_modifiers = ("poison_pill", "count" ∷ []) ∷ ("duplicate", []) ∷ []

unfoldable pub default_poison_pill_count : ℤ
default_poison_pill_count = pos 1

unfoldable pub to_int : Value → Option ℤ
to_int (int n) = some n
to_int (float x) = some (Float64.to_int x)
to_int _ = none

unfoldable pub to_float : Value → Option Float64
to_float (float x) = some x
to_float (int n) = some (Float64.of_int n)
to_float _ = none

-- the count that is asked for, or the default
unfoldable pub count_of : Option Value → Result Error ℤ
unfolding to_int default_poison_pill_count
count_of none = ok default_poison_pill_count
count_of (some raw) = elim (to_int raw) [ none ↦ err (not_a_number "count" raw) | some n ↦ ok n ]

unfoldable pub poison_pill_action : Config.Fault → Result Error Action
unfolding count_of
poison_pill_action f = do
  count ← count_of (lookup "count" f.inject)
  if ltb_ℤ count (pos 1)
      then err (count_out_of_range count)
      else ok (record {
        fault = f;
        kind = poison_pill;
        poison_pill = some (record { topic = f.target; count = count });
        duplicate = none;
      })

unfoldable pub rate_of : Option Value → Result Error Float64
unfolding to_float
rate_of none = err missing_rate
rate_of (some raw) = elim (to_float raw) [
  | none ↦ err (not_a_number "duplicate" raw)
  | some x ↦ ok x
]

unfoldable pub duplicate_action : Config.Fault → Result Error Action
unfolding rate_of
duplicate_action f = do
  rate ← rate_of (lookup "duplicate" f.inject)
  if Float64.lt rate (Float64.of_int (pos 0)) || Float64.lt (Float64.of_int (pos 1)) rate
      then err (rate_out_of_range rate)
      else ok (record {
        fault = f;
        kind = duplicate;
        poison_pill = none;
        duplicate = some (record { topic = f.target; rate = rate });
      })

-- the switch behind the checks
unfoldable pub dispatch : Config.Fault → Result Error Action
dispatch f =
    if f.verb == "poison_pill"
    then poison_pill_action f
    else if f.verb == "duplicate"
    then duplicate_action f
    else err (unsupported_verb f.verb)

unfoldable pub translate : Config.Fault → Result Error Action
translate f = elim (lookup f.verb verb_modifiers) [
  | none ↦ err (not_owned f.verb)
  | some allowed ↦ elim (stray_key f.verb allowed f.inject) [
    | some k ↦ err (bad_modifier f.verb k)
    | none ↦ if f.target == "" then err no_target else dispatch f
  ]
]
