-- ===== src/Config/Checks/Verb.antt =====
-- What the loops over the keys of an inject: map find.
use tortureu.Base.{
  String, Bool, true, false, [], ◌∷◌, List, none, Dict, has_key, contains, ◌==◌, ◌≡◌, ◌⊎◌, arith,
  eq_iff, Bool-cases, inl, inr, refl, not, has_key-all_keys,
}
use tortureu.Base.Result.{ok}
use tortureu.Value.{Value}
use tortureu.Config.Checks.{fault_verb_modifiers, find_verb, bad_key}

abbrev pub is_verb : String → Bool
is_verb k = has_key k fault_verb_modifiers

not-true : (b : Bool) → not b ≡ true → b ≡ false
not-true true h = cc
not-true false h = refl

empty_not_verb : (k : String) → is_verb k ≡ true → (k == "") ≡ false
unfolding fault_verb_modifiers
empty_not_verb k h =
    not-true (k == "") (has_key-all_keys (λ v. not (v == "")) k fault_verb_modifiers refl h)

-- behind the first verb no key is a verb
find_verb-given :
    (name verb : String) (inject : Dict Value) (w k : String)
    → (verb == "") ≡ false
    → find_verb name verb inject ≡ ok w
    → (w ≡ verb) × (has_key k inject ≡ true → is_verb k ≡ false)
unfolding find_verb
find_verb-given name verb [] w k v h = (ground arith, λ e. cc)
find_verb-given name verb ((j, x) ∷ rest) w k v h = elim (Bool-cases (is_verb j)) [
  | inl t ↦ absurd (ground (arith, t))
  | inr n ↦ ground (arith, n, eq_iff j k, find_verb-given name verb rest w k)
]

-- The verb that is found is a key and a verb, and every key that is a verb is this one.
pub find_verb_sound :
    (name : String) (inject : Dict Value) (w : String)
    → find_verb name "" inject ≡ ok w
    → (has_key w inject ≡ true)
      × (is_verb w ≡ true)
      × ((k : String) → has_key k inject ≡ true → is_verb k ≡ true → k ≡ w)
unfolding find_verb
find_verb_sound name [] w h = absurd (ground arith)
find_verb_sound name ((j, x) ∷ rest) w h = elim (Bool-cases (is_verb j)) [
  | inl t ↦
      let h' : find_verb name j rest ≡ ok w = rw t at h in
      let given = λ (k : String). find_verb-given name j rest w k (empty_not_verb j t) h' in
      (
        ground (arith, eq_iff j w, given w),
        ground (arith, given w, t),
        λ k here verb. ground (arith, eq_iff j k, given k),
      )
  | inr n ↦
      let (found, verb, only) = find_verb_sound name rest w (rw n at h) in
      (ground (arith, eq_iff j w, found), verb, λ k here isv. ground (arith, eq_iff j k, only k, n))
]

pub bad_key-none :
    (verb : String) (allowed : List String) (inject : Dict Value) (k : String)
    → bad_key verb allowed inject ≡ none
    → has_key k inject ≡ true
    → (k ≡ verb) ⊎ (contains allowed k ≡ true)
unfolding bad_key
bad_key-none verb allowed [] k n h = cc
bad_key-none verb allowed ((j, v) ∷ rest) k n h =
    ground (arith, eq_iff j k, eq_iff j verb, bad_key-none verb allowed rest k)
