-- ===== src/Appliers/WireMock/Balance.antt =====
-- No mapping that WireMock has named is left behind.
use tortureu.Base.{
  ℕ, zero, suc, String, List, [], ◌∷◌, ◌++◌, Option, ◌≡◌, refl, map, length, ◌⊎◌, inl, inr, ap, ◌∙◌,
}
use tortureu.Base.Result.{Result, ok, err, Result-cases}
use tortureu.MockRate.{Mapping, ErrorRate, error_rate_mappings}
use tortureu.Appliers.WireMock.{
  Reply, Error, Request, create, delete, created_id, create_from, apply_error_rate,
}

append-nil : (xs : List String) → xs ++ [] ≡ xs
append-nil [] = refl
append-nil (x ∷ xs) = ap (λ l. x ∷ l) (append-nil xs)

append-snoc :
    (xs : List String) (y : String) (ys : List String) → (xs ++ (y ∷ [])) ++ ys ≡ xs ++ (y ∷ ys)
append-snoc [] y ys = refl
append-snoc (x ∷ xs) y ys = ap (λ l. x ∷ l) (append-snoc xs y ys)

module _ (decode_id : String → Option String) (reply : ℕ → Reply) where
  -- the ids that the replies to `n` requests name, up to the first one that is refused
  abbrev pub named : ℕ → ℕ → List String
  named i zero = []
  named i (suc n) =
      let rest = named (suc i) n in
      elim (created_id decode_id (reply i)) [ err e ↦ [] | ok id ↦ id ∷ rest ]

  -- all mappings are created and all ids kept; or a request is refused, and what came before is deleted
  abbrev pub IsBalanced :
      ℕ → List String → List Mapping → List Request × Result Error (List String) → Type 0
  IsBalanced i ids ms (log, result) =
      ((result ≡ ok (ids ++ named i (length ms)))
        × (log ≡ map create ms)
        × (length (named i (length ms)) ≡ length ms))
      ⊎ ((e : Error) × (tried : List Mapping) × (rest : List Mapping) × (result ≡ err e)
          × (ms ≡ tried ++ rest)
          × (log ≡ map create tried ++ map delete (ids ++ named i (length tried)))
          × (length tried ≡ suc (length (named i (length tried)))))

  named-stops :
      (i n : ℕ) (e : Error) → created_id decode_id (reply i) ≡ err e → named i (suc n) ≡ []
  named-stops i n e c = rw (c, named)

  named-goes :
      (i n : ℕ) (id : String)
      → created_id decode_id (reply i) ≡ ok id
      → named i (suc n) ≡ id ∷ named (suc i) n
  named-goes i n id c = rw (c, named)

  create_from-ends :
      (i : ℕ) (ids : List String) → create_from decode_id reply i ids [] ≡ ([], ok ids)
  unfolding create_from
  create_from-ends i ids = refl

  create_from-stops :
      (i : ℕ) (ids : List String) (m : Mapping) (ms : List Mapping) (e : Error)
      → created_id decode_id (reply i) ≡ err e
      → create_from decode_id reply i ids (m ∷ ms) ≡ (create m ∷ map delete ids, err e)
  unfolding create_from
  create_from-stops i ids m ms e c = rw (c, create_from)

  create_from-goes :
      (i : ℕ) (ids : List String) (m : Mapping) (ms : List Mapping) (id : String)
      → created_id decode_id (reply i) ≡ ok id
      → let next = create_from decode_id reply (suc i) (ids ++ (id ∷ [])) ms in
        create_from decode_id reply i ids (m ∷ ms) ≡ (create m ∷ next.0, next.1)
  unfolding create_from
  create_from-goes i ids m ms id c = rw (c, create_from)

  create_from-IsBalanced :
      (i : ℕ) (ids : List String) (ms : List Mapping)
      → IsBalanced i ids ms (create_from decode_id reply i ids ms)
  create_from-IsBalanced i ids [] =
      rw (create_from-ends i ids) (inl (rw (append-nil ids), refl, refl))
  create_from-IsBalanced i ids (m ∷ ms) = elim (Result-cases (created_id decode_id (reply i))) [
    | inr (e, c) ↦ rw (create_from-stops i ids m ms e c) (
        inr (
          e,
          m ∷ [],
          ms,
          refl,
          refl,
          rw (named-stops i 0 e c, append-nil ids),
          rw (named-stops i 0 e c),
        ))
    | inl (id, c) ↦ elim (create_from-IsBalanced (suc i) (ids ++ (id ∷ [])) ms) [
      | inl (r, l, n) ↦
          let more = named-goes i (length ms) id c in
          rw (create_from-goes i ids m ms id c) (
            inl (
              rw more (r ∙ ap ok (append-snoc ids id (named (suc i) (length ms)))),
              ap (λ x. create m ∷ x) l,
              rw more (ap suc n),
            ))
      | inr (e, tried, rest, r, s, l, n) ↦
          let more = named-goes i (length tried) id c in
          let joined = append-snoc ids id (named (suc i) (length tried)) in
          rw (create_from-goes i ids m ms id c) (
            inr (
              e,
              m ∷ tried,
              rest,
              r,
              ap (λ x. m ∷ x) s,
              rw more (
                  ap (λ x. create m ∷ x) l
                  ∙ ap (λ xs. create m ∷ (map create tried ++ map delete xs)) joined),
              rw more (ap suc n),
            ))
    ]
  ]

  -- Whatever WireMock replies: either every mapping of the cycle is created and the undo holds the id
  -- of each one; or a request is refused, the fault fails, and behind the requests up to the refused one
  -- just the mappings that WireMock had named are deleted, each one once.
  pub apply_error_rate-IsBalanced :
      (name : String) (r : ErrorRate)
      → let (log, applied, result) = apply_error_rate decode_id reply name r in
        IsBalanced 0 [] (error_rate_mappings name r) (log, result)
  unfolding apply_error_rate
  apply_error_rate-IsBalanced name r = create_from-IsBalanced 0 [] (error_rate_mappings name r)
