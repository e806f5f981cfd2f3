-- ===== src/Base/Sort/Members.antt =====
-- Sorting keeps the members of a list.
use Prim.Native.String.{String}
use mathlib.Core.Path.{◌≡◌, refl, ◌∙◌}
use mathlib.Core.Bool.{Bool, true, ◌||◌}
use mathlib.Core.List.{List, [], ◌∷◌, reverse, reverse_aux}
use native.Mathlib.Omega.{arith}
use text.Mathlib.Text.{◌==◌}
use text.Mathlib.TextPositions.{eq_refl}
use tortureu.Base.Maps.{contains, all_in, Dict, keys, has_key}
use tortureu.Base.Sort.{sort_strings, sort_from, insert_left}

contains-insert_left :
    (x : String) (xs : List String) (k : String)
    → contains (insert_left x xs) k ≡ ((x == k) || contains xs k)
unfolding insert_left
contains-insert_left x [] k = ground arith
contains-insert_left x (y ∷ ys) k = ground (arith, contains-insert_left x ys k)

contains-sort_from :
    (prefix xs : List String) (k : String)
    → contains (sort_from prefix xs) k ≡ (contains prefix k || contains xs k)
unfolding sort_from
contains-sort_from prefix [] k = ground arith
contains-sort_from prefix (x ∷ xs) k =
    ground (arith, contains-sort_from (insert_left x prefix) xs k, contains-insert_left x prefix k)

contains-reverse_aux :
    (xs ys : List String) (k : String)
    → contains (reverse_aux xs ys) k ≡ (contains xs k || contains ys k)
contains-reverse_aux [] ys k = refl
contains-reverse_aux (x ∷ xs) ys k = ground (arith, contains-reverse_aux xs (x ∷ ys) k)

contains-reverse : (xs : List String) (k : String) → contains (reverse xs) k ≡ contains xs k
contains-reverse xs k = ground (arith, contains-reverse_aux xs [] k)

pub contains-sort_strings :
    (xs : List String) (k : String) → contains (sort_strings xs) k ≡ contains xs k
unfolding sort_strings
contains-sort_strings xs k = contains-reverse (sort_from [] xs) k ∙ contains-sort_from [] xs k

pub all_in-of_contains :
    (p : String → Bool) (xs : List String)
    → ((k : String) → contains xs k ≡ true → p k ≡ true)
    → all_in p xs ≡ true
all_in-of_contains p [] h = refl
all_in-of_contains p (x ∷ xs) h =
    rw (h x (rw (eq_refl x) refl)) (all_in-of_contains p xs (λ k c. h k (ground arith)))

pub contains-keys {ℓ} : {V : Type ℓ} (m : Dict V) (k : String) → contains (keys m) k ≡ has_key k m
contains-keys [] k = refl
contains-keys ((j, v) ∷ m) k = ground (arith, contains-keys m k)

-- a loop over the sorted keys of a map meets keys of the map
pub all_in-sort_keys {ℓ} :
    {V : Type ℓ} (m : Dict V) → all_in (λ k. has_key k m) (sort_strings (keys m)) ≡ true
all_in-sort_keys m =
    all_in-of_contains (λ k. has_key k m) (sort_strings (keys m))
      (λ k c. ground (arith, contains-sort_strings (keys m) k, contains-keys m k))
