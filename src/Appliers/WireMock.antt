-- ===== src/Appliers/WireMock.antt =====
-- internal/applier/mock_applier.go: ApplyErrorRate's exchange with WireMock.
pub mod Balance
use tortureu.Base.{
  ℕ, suc, String, Bool, true, false, List, [], ◌∷◌, ◌++◌, Option, none, some, ◌==◌, map, eqb,
  if◌then◌else◌, ◌||◌, not,
}
use tortureu.Base.Result.{Result, ok, err}
use tortureu.Float64.{Float64}
use tortureu.MockRate.{Mapping, ErrorRate, error_rate_mappings, approximate_error_rate}

-- what do returns: the transport's error, or a status and a body
pub data Reply : Type 0 where
  failed : String → Reply
  replied : ℕ → String → Reply

pub data Error : Type 0 where
  create_failed delete_failed : String → Error
  create_status delete_status : ℕ → Error
  no_id : String → Error

pub data Request : Type 0 where
  create : Mapping → Request
  delete : String → Request

pub record ErrorRateApplied : Type 0 where
  pub requested : Float64
  pub applied : Float64
  pub approximated : Bool

-- json.Unmarshal of a body, as the id it holds: an empty one where it has none
module _ (decode_id : String → Option String) where
  abbrev id_of : String → Option String → Result Error String
  id_of body none = err (no_id body)
  id_of body (some id) = if id == "" then err (no_id body) else ok id

  unfoldable pub created_id : Reply → Result Error String
  created_id (failed e) = err (create_failed e)
  created_id (replied status body) =
      if not (eqb status 201 || eqb status 200)
      then err (create_status status)
      else id_of body (decode_id body)

  -- the loop over the mappings, from the i-th request on: the requests, and the ids or the error
  unfoldable pub create_from :
      (ℕ → Reply) → ℕ → List String → List Mapping → List Request × Result Error (List String)
  unfolding created_id
  create_from reply i ids [] = ([], ok ids)
  create_from reply i ids (m ∷ ms) = elim (created_id (reply i)) [
    | err e ↦ (create m ∷ map delete ids, err e)
    | ok id ↦
        let (later, end) = create_from reply (suc i) (ids ++ (id ∷ [])) ms in
        (create m ∷ later, end)
  ]

  -- the undo that is returned is the list of the ids that it deletes
  unfoldable pub apply_error_rate :
      (ℕ → Reply)
      → String
      → ErrorRate
      → List Request × ErrorRateApplied × Result Error (List String)
  unfolding create_from
  apply_error_rate reply name r =
      let (count, applied, approximated) = approximate_error_rate r.rate in
      let (log, result) = create_from reply 0 [] (error_rate_mappings name r) in
      (log, record { requested = r.rate; applied = applied; approximated = approximated }, result)

abbrev delete_error : Reply → Option Error
delete_error (failed e) = some (delete_failed e)
delete_error (replied status body) =
    if eqb status 200 || eqb status 204 then none else some (delete_status status)

abbrev first_error : Option Error → Option Error → Option Error
first_error none later = later
first_error (some e) later = some e

-- the undo's loop: every id is deleted, and the first error is kept
unfoldable pub undo_error_rate : (String → Reply) → List String → List Request × Option Error
undo_error_rate reply [] = ([], none)
undo_error_rate reply (id ∷ ids) =
    let (log, e) = undo_error_rate reply ids in
    (delete id ∷ log, first_error (delete_error (reply id)) e)
