-- ===== src/Undo/Exact.antt =====
-- Teardown calls every undo once, the last one first, whatever fails.
use mathlib.Core.List.{reverse-append, append_assoc, append-nil, filter_map, Perm}
use mathlib.Core.List.{reverse_perm}
use mathlib.Core.List.Perm
use tortureu.Base.{
  ℕ, zero, suc, ◌≤◌, ◌<◌, List, [], ◌∷◌, ◌++◌, Option, some, length, get_elem?, reverse, ◌≡◌, refl,
  arith, Option-cases, ap, ◌∙◌, sym, inl, inr,
}
use tortureu.Undo.{teardown_loop, teardown, track, Op, add, teardown_all, steps, added}

get_elem?-lt :
    {U : Type 0} (xs : List U) (i : ℕ) → i < length xs → (a : U) × (get_elem? xs i ≡ some a)
get_elem?-lt [] i h = elim h [ ]
get_elem?-lt (x ∷ xs) zero h = (x, refl)
get_elem?-lt (x ∷ xs) (suc i) h = get_elem?-lt xs i (omega arith)

module _ {U E : Type 0} (run : U → Option E) where
  called-loop_cons :
      (i : ℕ) (x : U) (xs : List U)
      → i ≤ length xs
      → (teardown_loop run (suc i) (x ∷ xs)).0 ≡ (teardown_loop run i xs).0 ++ (x ∷ [])
  unfolding teardown_loop
  called-loop_cons zero x xs h = refl
  called-loop_cons (suc i) x xs h =
      let (u, e) = get_elem?-lt xs i h in
      rw (e, teardown_loop) (ap (λ l. u ∷ l) (called-loop_cons i x xs (omega arith)))

  called-loop : (undos : List U) → (teardown_loop run (length undos) undos).0 ≡ reverse undos
  unfolding teardown_loop
  called-loop [] = refl
  called-loop (x ∷ xs) =
      called-loop_cons (length xs) x xs (omega arith)
      ∙ ap (λ l. l ++ (x ∷ [])) (called-loop xs)
      ∙ sym (reverse-append (x ∷ []) xs)

  errors-loop :
      (i : ℕ) (undos : List U)
      → (teardown_loop run i undos).1 ≡ filter_map run (teardown_loop run i undos).0
  unfolding teardown_loop filter_map
  errors-loop zero undos = refl
  errors-loop (suc i) undos = elim (Option-cases (get_elem? undos i)) [
    | inl n ↦ rw (n, teardown_loop)
    | inr (u, e) ↦ elim (Option-cases (run u)) [
      | inl quiet ↦ rw (e, quiet, teardown_loop, filter_map) (errors-loop i undos)
      | inr (x, fails) ↦
          rw (e, fails, teardown_loop, filter_map) (ap (λ l. x ∷ l) (errors-loop i undos))
    ]
  ]

  -- A teardown empties the list, calls every undo of it once, the one added last first, also behind
  -- one that fails, and reports the errors of exactly the calls that failed, in their order.
  pub teardown_lem :
      (undos : List U)
      → (teardown run undos).0 ≡ []
        × ((teardown run undos).1 ≡ reverse undos)
        × ((teardown run undos).2 ≡ filter_map run (reverse undos))
  unfolding teardown
  teardown_lem undos = (
    refl,
    called-loop undos,
    errors-loop (length undos) undos ∙ ap (filter_map run) (called-loop undos),
  )

  -- For every sequence of additions and teardowns on one list: what has been called and what is
  -- still pending are together, as often, what was there and what was added. So no undo is called
  -- twice, and none is lost.
  pub steps-perm :
      (ops : List (Op U)) (undos : List U)
      → Perm ((steps run ops undos).1 ++ (steps run ops undos).0) (undos ++ added ops)
  unfolding steps added track
  steps-perm [] undos = rw append-nil (Perm.refl undos)
  steps-perm (add u ∷ ops) undos = rw append_assoc at (steps-perm ops (undos ++ (u ∷ [])))
  steps-perm (teardown_all ∷ ops) undos =
      let (left, called, errs) = teardown_lem undos in
      rw (left, called, append_assoc) (Perm.append (reverse_perm undos) (steps-perm ops []))
