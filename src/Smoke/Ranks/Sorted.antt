-- ===== src/Smoke/Ranks/Sorted.antt =====
-- Counting in a sorted list of latencies.
use tortureu.Base.{
  ℕ, zero, suc, ◌+◌, ◌≤◌, ◌<◌, true, false, List, [], ◌∷◌, some, length, leb, leb→le, get_elem?,
  ltb, Option, none, if◌then◌else◌, ◌≡◌, refl, arith, ap, All, In, inl, inr, Bool-cases, ℤ, pos,
  negsuc, ◌∙◌,
}
use mathlib.Core.Path.{subst}
use tortureu.Float64
use tortureu.Float64.{Float64}
use tortureu.Smoke.{Probe, insert_duration, sort_durations, ceiling}

abbrev IsSorted : List ℕ → Type 0
IsSorted [] = Unit
IsSorted (x ∷ xs) = All (λ y. x ≤ y) xs × IsSorted xs

-- how many are at most `v`
abbrev pub count_le : ℕ → List ℕ → ℕ
count_le v [] = 0
count_le v (x ∷ xs) = let rest = count_le v xs in if leb x v then suc rest else rest

-- how many are below `v`
abbrev pub count_lt : ℕ → List ℕ → ℕ
count_lt v [] = 0
count_lt v (x ∷ xs) = let rest = count_lt v xs in if ltb x v then suc rest else rest

abbrev pub within : ℕ → ℤ → ℕ
within n (negsuc k) = 1
within n (pos c) = if ltb c 1 then 1 else if ltb n c then n else c

-- the nearest rank of a share of `n`: math.Ceil of the product, but 1 at least and `n` at most
abbrev pub nearest_rank : Float64 → ℕ → ℕ
nearest_rank q n = within n (ceiling (Float64.mul q (Float64.of_int (pos n))))

-- how many were answered with a status from 200 to 399
abbrev pub count_ok : List Probe → ℕ
count_ok [] = 0
count_ok (p ∷ ps) = answered p.status + count_ok ps
  where
    answered : Option ℕ → ℕ
    answered none = 0
    answered (some code) = if ltb code 200 then 0 else if ltb 399 code then 0 else 1

All-insert : (P : ℕ → Type 0) (x : ℕ) (xs : List ℕ) → P x → All P xs → All P (insert_duration x xs)
unfolding insert_duration
All-insert P x [] p a = (p, tt)
All-insert P x (y ∷ ys) p a = elim (Bool-cases (leb x y)) [
  | inl l ↦ rw l (p, a)
  | inr l ↦ rw l (a.0, All-insert P x ys p a.1)
]

All-above : (x y : ℕ) (ys : List ℕ) → x ≤ y → All (λ z. y ≤ z) ys → All (λ z. x ≤ z) ys
All-above x y [] h a = tt
All-above x y (z ∷ zs) h a = (omega (arith, a.0), All-above x y zs h a.1)

insert-IsSorted : (x : ℕ) (xs : List ℕ) → IsSorted xs → IsSorted (insert_duration x xs)
unfolding insert_duration
insert-IsSorted x [] s = (tt, tt)
insert-IsSorted x (y ∷ ys) s = elim (Bool-cases (leb x y)) [
  | inl l ↦ rw l ((leb→le x y l, All-above x y ys (leb→le x y l) s.0), s)
  | inr l ↦ rw l (All-insert (λ z. y ≤ z) x ys (ground arith) s.0, insert-IsSorted x ys s.1)
]

pub sort-IsSorted : (xs : List ℕ) → IsSorted (sort_durations xs)
unfolding sort_durations
sort-IsSorted [] = tt
sort-IsSorted (x ∷ xs) = insert-IsSorted x (sort_durations xs) (sort-IsSorted xs)

count_le-insert : (v x : ℕ) (xs : List ℕ) → count_le v (insert_duration x xs) ≡ count_le v (x ∷ xs)
unfolding insert_duration
count_le-insert v x [] = refl
count_le-insert v x (y ∷ ys) = ground (arith, count_le-insert v x ys)

pub count_le-sort : (v : ℕ) (xs : List ℕ) → count_le v (sort_durations xs) ≡ count_le v xs
unfolding sort_durations
count_le-sort v [] = refl
count_le-sort v (x ∷ xs) =
    count_le-insert v x (sort_durations xs)
    ∙ ap (λ n. if leb x v then suc n else n) (count_le-sort v xs)

count_lt-insert : (v x : ℕ) (xs : List ℕ) → count_lt v (insert_duration x xs) ≡ count_lt v (x ∷ xs)
unfolding insert_duration
count_lt-insert v x [] = refl
count_lt-insert v x (y ∷ ys) = ground (arith, count_lt-insert v x ys)

pub count_lt-sort : (v : ℕ) (xs : List ℕ) → count_lt v (sort_durations xs) ≡ count_lt v xs
unfolding sort_durations
count_lt-sort v [] = refl
count_lt-sort v (x ∷ xs) =
    count_lt-insert v x (sort_durations xs)
    ∙ ap (λ n. if ltb x v then suc n else n) (count_lt-sort v xs)

length-insert : (x : ℕ) (xs : List ℕ) → length (insert_duration x xs) ≡ suc (length xs)
unfolding insert_duration
length-insert x [] = refl
length-insert x (y ∷ ys) = ground (arith, length-insert x ys)

pub length-sort : (xs : List ℕ) → length (sort_durations xs) ≡ length xs
unfolding sort_durations
length-sort [] = refl
length-sort (x ∷ xs) = length-insert x (sort_durations xs) ∙ ap suc (length-sort xs)

insert-front : (x y : ℕ) (ys : List ℕ) → leb x y ≡ true → insert_duration x (y ∷ ys) ≡ x ∷ y ∷ ys
unfolding insert_duration
insert-front x y ys l = rw l

insert-later :
    (x y : ℕ) (ys : List ℕ)
    → leb x y ≡ false
    → insert_duration x (y ∷ ys) ≡ y ∷ insert_duration x ys
unfolding insert_duration
insert-later x y ys l = rw l

In-insert : (v x : ℕ) (xs : List ℕ) → In v (insert_duration x xs) → In v (x ∷ xs)
unfolding insert_duration
In-insert v x [] h = h
In-insert v x (y ∷ ys) h = elim (Bool-cases (leb x y)) [
  | inl l ↦ subst (λ xs. In v xs) (insert-front x y ys l) h
  | inr l ↦ elim (subst (λ xs. In v xs) (insert-later x y ys l) h) [
    | inl e ↦ inr (inl e)
    | inr k ↦ elim (In-insert v x ys k) [ inl e ↦ inl e | inr m ↦ inr (inr m) ]
  ]
]

pub In-sort : (v : ℕ) (xs : List ℕ) → In v (sort_durations xs) → In v xs
unfolding sort_durations
In-sort v [] h = h
In-sort v (x ∷ xs) h = elim (In-insert v x (sort_durations xs) h) [
  | inl e ↦ inl e
  | inr k ↦ inr (In-sort v xs k)
]

pub get_elem?-some : (xs : List ℕ) (i : ℕ) → i < length xs → (v : ℕ) × (get_elem? xs i ≡ some v)
get_elem?-some [] i h = absurd (omega arith)
get_elem?-some (x ∷ xs) zero h = (x, refl)
get_elem?-some (x ∷ xs) (suc i) h = get_elem?-some xs i (omega arith)

pub get_elem?-In : (xs : List ℕ) (i v : ℕ) → get_elem? xs i ≡ some v → In v xs
get_elem?-In [] i v e = cc
get_elem?-In (x ∷ xs) zero v e = inl cc
get_elem?-In (x ∷ xs) (suc i) v e = inr (get_elem?-In xs i v e)

get_elem?-All : (P : ℕ → Type 0) (xs : List ℕ) (i v : ℕ) → All P xs → get_elem? xs i ≡ some v → P v
get_elem?-All P [] i v a e = cc
get_elem?-All P (x ∷ xs) zero v a e = let same : v ≡ x = cc in rw same a.0
get_elem?-All P (x ∷ xs) (suc i) v a e = get_elem?-All P xs i v a.1 e

-- the i-th of a sorted list has at least i others below it
pub count_le-get_elem? :
    (xs : List ℕ) (i v : ℕ) → IsSorted xs → get_elem? xs i ≡ some v → suc i ≤ count_le v xs
count_le-get_elem? [] i v s e = cc
count_le-get_elem? (x ∷ xs) zero v s e = ground arith
count_le-get_elem? (x ∷ xs) (suc i) v s e =
    let below = get_elem?-All (λ z. x ≤ z) xs i v s.0 e in
    let rest = count_le-get_elem? xs i v s.1 e in ground arith

count_lt-least : (x : ℕ) (xs : List ℕ) → All (λ y. x ≤ y) xs → count_lt x xs ≡ 0
count_lt-least x [] a = refl
count_lt-least x (y ∷ ys) a = ground (arith, a.0, count_lt-least x ys a.1)

-- and at most i others strictly below it
pub count_lt-get_elem? :
    (xs : List ℕ) (i v : ℕ) → IsSorted xs → get_elem? xs i ≡ some v → count_lt v xs ≤ i
count_lt-get_elem? [] i v s e = cc
count_lt-get_elem? (x ∷ xs) zero v s e =
    let same : x ≡ v = cc in
    let none_below = count_lt-least x xs s.0 in
    subst (λ w. count_lt w (x ∷ xs) ≤ 0) same (ground (arith, none_below))
count_lt-get_elem? (x ∷ xs) (suc i) v s e =
    let rest = count_lt-get_elem? xs i v s.1 e in ground arith
