-- ===== src/Base/Maps.antt =====
-- Go's maps with text keys, as association lists. The list's order is the order in which a `range`
-- loop meets the keys; it is arbitrary in Go, and the theorems hold for every order.
use Prim.Native.String.{String}
use mathlib.Core.Path.{◌≡◌, refl}
use mathlib.Core.Bool.{Bool, true, false}
use mathlib.Core.List.{List, [], ◌∷◌}
use mathlib.Core.Option.{Option, none, some}
use native.Mathlib.Omega.{arith}
use text.Mathlib.Text.{◌==◌}
use text.Mathlib.TextEquality.{eq_iff}
use tortureu.Base.Tests.{if◌then◌else◌, is_some}

abbrev pub Dict {ℓ} : Type ℓ → Type ℓ
Dict V = List (String × V)

module _ {ℓ} {V : Type ℓ} where
  -- v, ok := m[k]
  abbrev pub lookup : String → Dict V → Option V
  lookup k [] = none
  lookup k ((j, v) ∷ m) = if j == k then some v else lookup k m

  -- m[k] = v
  abbrev pub insert : String → V → Dict V → Dict V
  insert k v [] = (k, v) ∷ []
  insert k v ((j, w) ∷ m) = if j == k then (j, v) ∷ m else (j, w) ∷ insert k v m

  abbrev pub has_key : String → Dict V → Bool
  has_key k m = is_some (lookup k m)

  abbrev pub keys : Dict V → List String
  keys [] = []
  keys ((k, v) ∷ m) = k ∷ keys m

  -- A Go map holds a key once.
  abbrev pub HasUniqueKeys : Dict V → Type 0
  HasUniqueKeys [] = Unit
  HasUniqueKeys ((k, v) ∷ m) = (has_key k m ≡ false) × HasUniqueKeys m

  pub lookup-insert :
      (k j : String) (v : V) (m : Dict V)
      → lookup j (insert k v m) ≡ (if k == j then some v else lookup j m)
  lookup-insert k j v [] = refl
  lookup-insert k j v ((i, w) ∷ m) =
      ground (arith, eq_iff k j, eq_iff i k, eq_iff i j, lookup-insert k j v m)

-- membership in a set of texts, `map[string]bool`
abbrev pub contains : List String → String → Bool
contains [] k = false
contains (x ∷ xs) k = if x == k then true else contains xs k

-- A test that passes at every key of a table passes at each key that is found in it.
abbrev pub all_keys {ℓ} : {V : Type ℓ} → (String → Bool) → Dict V → Bool
all_keys p [] = true
all_keys p ((k, v) ∷ m) = if p k then all_keys p m else false

pub has_key-all_keys {ℓ} :
    {V : Type ℓ} (p : String → Bool) (k : String) (m : Dict V)
    → all_keys p m ≡ true
    → has_key k m ≡ true
    → p k ≡ true
has_key-all_keys p k [] a h = cc
has_key-all_keys p k ((j, v) ∷ m) a h = ground (arith, eq_iff j k, has_key-all_keys p k m)

abbrev pub all_in : (String → Bool) → List String → Bool
all_in p [] = true
all_in p (x ∷ xs) = if p x then all_in p xs else false

pub contains-all_in :
    (p : String → Bool) (k : String) (xs : List String)
    → all_in p xs ≡ true
    → contains xs k ≡ true
    → p k ≡ true
contains-all_in p k [] a h = cc
contains-all_in p k (x ∷ xs) a h = ground (arith, eq_iff x k, contains-all_in p k xs)

-- No text stands twice in the list.
abbrev pub AreDistinct : List String → Type 0
AreDistinct [] = Unit
AreDistinct (x ∷ xs) = (contains xs x ≡ false) × AreDistinct xs
