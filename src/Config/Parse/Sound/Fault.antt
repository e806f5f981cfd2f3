-- ===== src/Config/Parse/Sound/Fault.antt =====
-- A fault that Parse returns: anchored to a declared phase, aimed at a known target, with one verb
-- that owns its modifiers, and with its numbers in range.
use tortureu.Base.{
  String, Bool, true, false, List, none, some, Dict, lookup, has_key, contains, ◌||◌, not, ◌≡◌, ◌≢◌,
  ◌⊎◌, inl, inr, arith, eq_iff, pos, ◌≤ℤ◌, refl, Option-cases,
}
use tortureu.Base.Result.{
  ok, reject_if, reject_some, ◌>>◌, >>=-eq-ok, reject_if-eq-ok, reject_some-eq-ok,
}
use tortureu.Base.Text.{has_prefix, cut}
use tortureu.Float64
use tortureu.Float64.{Float64}
use tortureu.Value.{Value}
use tortureu.Config.{Fault}
use tortureu.Config.Grammar.{at_grammar}
use tortureu.Config.Checks.{
  fault_verb_modifiers, as_float, check_fraction, check_positive_int, find_verb, check_key,
  incomplete_fault, unknown_target,
}
use tortureu.Config.Checks.Verb.{is_verb, find_verb_sound, bad_key-none}
use tortureu.Config.Parse.{
  RawFault, parse_fault, check_anchor, check_modifiers, check_ranges, is_incomplete, with_verb,
  find_and_check,
}

-- A number that is neither below 0 nor above 1. A NaN is one, since it compares to nothing.
pub record IsFraction (v : Value) : Type 0 where
  pub number : Float64
  pub reads : as_float v ≡ some number
  pub not_below : Float64.lt number (Float64.of_int (pos 0)) ≡ false
  pub not_above : Float64.lt (Float64.of_int (pos 1)) number ≡ false

-- A whole number of at least 1.
pub record IsCount (v : Value) : Type 0 where
  pub number : Float64
  pub reads : as_float v ≡ some number
  pub whole : Float64.eq number (Float64.of_int (Float64.to_int number)) ≡ true
  pub positive : pos 1 ≤ℤ Float64.to_int number

pub record IsValidFault (phases targets : List String) (f : Fault) : Type 0 where
  pub grammar : at_grammar f.at ≡ true
  pub anchored : (has_prefix f.at "t=" || contains phases (cut b'+' f.at).0) ≡ true
  pub targeted : f.target ≢ ""
  pub target_known : contains targets f.target ≡ true
  pub has_verb : has_key f.verb f.inject ≡ true
  pub verb_known : is_verb f.verb ≡ true
  pub one_verb : (k : String) → has_key k f.inject ≡ true → is_verb k ≡ true → k ≡ f.verb
  pub own_modifiers :
      (allowed : List String) (k : String)
      → lookup f.verb fault_verb_modifiers ≡ some allowed
      → has_key k f.inject ≡ true
      → (k ≡ f.verb) ⊎ (contains allowed k ≡ true)
  pub duplicate_range : (v : Value) → lookup "duplicate" f.inject ≡ some v → IsFraction v
  pub error_rate_range : (v : Value) → lookup "error_rate" f.inject ≡ some v → IsFraction v
  pub count_range : (v : Value) → lookup "count" f.inject ≡ some v → IsCount v
  pub workers_range : (v : Value) → lookup "workers" f.inject ≡ some v → IsCount v

IsFraction-of_check : (v : Value) → check_fraction v ≡ false → IsFraction v
unfolding check_fraction
IsFraction-of_check v h = elim (Option-cases (as_float v)) [
  | inl n ↦ absurd (ground arith)
  | inr (x, e) ↦ record {
    number = x;
    reads = e;
    not_below = ground arith;
    not_above = ground arith;
  }
]

IsCount-of_check : (v : Value) → check_positive_int v ≡ false → IsCount v
unfolding check_positive_int
IsCount-of_check v h = elim (Option-cases (as_float v)) [
  | inl n ↦ absurd (ground arith)
  | inr (x, e) ↦ record { number = x; reads = e; whole = ground arith; positive = ground arith }
]

check_key-none :
    (check : Value → Bool) (name k : String) (inject : Dict Value) (v : Value)
    → check_key check name k inject ≡ none
    → lookup k inject ≡ some v
    → check v ≡ false
unfolding check_key
check_key-none check name k inject v n e = ground arith

check_modifiers-none :
    (name verb : String) (inject : Dict Value) (allowed : List String) (k : String)
    → check_modifiers name verb inject ≡ none
    → lookup verb fault_verb_modifiers ≡ some allowed
    → has_key k inject ≡ true
    → (k ≡ verb) ⊎ (contains allowed k ≡ true)
unfolding check_modifiers
check_modifiers-none name verb inject allowed k n e h =
    bad_key-none verb allowed inject k (ground arith) h

check_anchor-none :
    (phases : List String) (rf : RawFault)
    → check_anchor phases rf ≡ none
    → (at_grammar rf.at ≡ true)
      × ((has_prefix rf.at "t=" || contains phases (cut b'+' rf.at).0) ≡ true)
unfolding check_anchor
check_anchor-none phases rf n = ground arith

complete_target : (rf : RawFault) → is_incomplete rf ≡ false → rf.target ≢ ""
unfolding is_incomplete
complete_target rf n = ground (arith, eq_iff rf.target "")

not-false : (b : Bool) → not b ≡ false → b ≡ true
not-false true h = refl
not-false false h = cc

parse_fault-eq-ok :
    (phases targets : List String) (rf : RawFault) (f : Fault)
    → parse_fault phases targets rf ≡ ok f
    → (is_incomplete rf ≡ false)
      × (check_anchor phases rf ≡ none)
      × (contains targets rf.target ≡ true)
      × (find_and_check rf ≡ ok f)
unfolding parse_fault
parse_fault-eq-ok phases targets rf f h =
    let known = reject_if (not (contains targets rf.target)) (unknown_target rf.name rf.target) in
    let (c, h1) =
      reject_if-eq-ok (is_incomplete rf) (incomplete_fault rf.name)
        (reject_some (check_anchor phases rf) >> (known >> find_and_check rf)) h in
    let (a, h2) = reject_some-eq-ok (check_anchor phases rf) (known >> find_and_check rf) h1 in
    let (t, h3) =
      reject_if-eq-ok (not (contains targets rf.target)) (unknown_target rf.name rf.target)
        (find_and_check rf) h2 in
    (c, a, not-false (contains targets rf.target) t, h3)

abbrev Ranges : Dict Value → Type 0
Ranges inject =
    ((v : Value) → lookup "duplicate" inject ≡ some v → IsFraction v)
    × ((v : Value) → lookup "error_rate" inject ≡ some v → IsFraction v)
    × ((v : Value) → lookup "count" inject ≡ some v → IsCount v)
    × ((v : Value) → lookup "workers" inject ≡ some v → IsCount v)

check_ranges-eq-ok :
    (name : String) (inject : Dict Value) (u : Unit)
    → check_ranges name inject ≡ ok u
    → Ranges inject
unfolding check_ranges
check_ranges-eq-ok name inject u h =
    let fraction = λ (k : String). check_key check_fraction name k inject in
    let count = λ (k : String). check_key check_positive_int name k inject in
    let last = reject_some (count "workers") in
    let third = reject_some (count "count") >> last in
    let (d, h1) =
      reject_some-eq-ok (fraction "duplicate") (reject_some (fraction "error_rate") >> third) h in
    let (e, h2) = reject_some-eq-ok (fraction "error_rate") third h1 in
    let (c, h3) = reject_some-eq-ok (count "count") last h2 in
    (
      (λ v p. IsFraction-of_check v (check_key-none check_fraction name "duplicate" inject v d p)),
      (λ v p. IsFraction-of_check v (check_key-none check_fraction name "error_rate" inject v e p)),
      (λ v p. IsCount-of_check v (check_key-none check_positive_int name "count" inject v c p)),
      (λ v p.
          IsCount-of_check v
            (check_key-none check_positive_int name "workers" inject v (ground arith) p)),
    )

with_verb-eq-ok :
    (rf : RawFault) (verb : String) (f : Fault)
    → with_verb rf verb ≡ ok f
    → (check_modifiers rf.name verb rf.inject ≡ none)
      × Ranges rf.inject
      × (f ≡ record {
        name = rf.name;
        at = rf.at;
        for = rf.for;
        target = rf.target;
        verb = verb;
        inject = rf.inject;
      })
unfolding with_verb
with_verb-eq-ok rf verb f h =
    let parsed : Fault = record {
      name = rf.name;
      at = rf.at;
      for = rf.for;
      target = rf.target;
      verb = verb;
      inject = rf.inject;
    } in
    let (m, h1) =
      reject_some-eq-ok (check_modifiers rf.name verb rf.inject)
        (check_ranges rf.name rf.inject >> ok parsed) h in
    let (u, r, h2) = >>=-eq-ok (check_ranges rf.name rf.inject) (λ _. ok parsed) h1 in
    (m, check_ranges-eq-ok rf.name rf.inject u r, ground arith)

pub parse_fault-IsValidFault :
    (phases targets : List String) (rf : RawFault) (f : Fault)
    → parse_fault phases targets rf ≡ ok f
    → IsValidFault phases targets f
unfolding find_and_check
parse_fault-IsValidFault phases targets rf f h =
    let (c, a, t, h1) = parse_fault-eq-ok phases targets rf f h in
    let (verb, v, h2) = >>=-eq-ok (find_verb rf.name "" rf.inject) (with_verb rf) h1 in
    let (m, ranges, e) = with_verb-eq-ok rf verb f h2 in
    let (found, known, only) = find_verb_sound rf.name rf.inject verb v in
    let (g, p) = check_anchor-none phases rf a in
    rw e (record {
      grammar = g;
      anchored = p;
      targeted = complete_target rf c;
      target_known = t;
      has_verb = found;
      verb_known = known;
      one_verb = only;
      own_modifiers = λ allowed k. check_modifiers-none rf.name verb rf.inject allowed k m;
      duplicate_range = ranges.0;
      error_rate_range = ranges.1;
      count_range = ranges.2;
      workers_range = ranges.3;
    })

-- A fault has what was declared for it. The verb is one of the keys of `inject:`.
abbrev pub IsDeclared : RawFault → Fault → Type 0
IsDeclared rf f =
    (f.name ≡ rf.name)
    × (f.at ≡ rf.at)
    × (f.for ≡ rf.for)
    × (f.target ≡ rf.target)
    × (f.inject ≡ rf.inject)

pub parse_fault-IsDeclared :
    (phases targets : List String) (rf : RawFault) (f : Fault)
    → parse_fault phases targets rf ≡ ok f
    → IsDeclared rf f
unfolding find_and_check
parse_fault-IsDeclared phases targets rf f h =
    let (c, a, t, h1) = parse_fault-eq-ok phases targets rf f h in
    let (verb, v, h2) = >>=-eq-ok (find_verb rf.name "" rf.inject) (with_verb rf) h1 in
    let (m, ranges, e) = with_verb-eq-ok rf verb f h2 in rw e (refl, refl, refl, refl, refl)
