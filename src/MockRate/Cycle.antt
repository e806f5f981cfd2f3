-- ===== src/MockRate/Cycle.antt =====
-- What the stub mappings of one error_rate fault do as a cycle.
use tortureu.Base.{
  ℕ, zero, suc, ◌+◌, ◌%◌, ◌<◌, String, false, some, lookup, ◌==◌, not, if◌then◌else◌, ℤ, pos, ltb_ℤ,
  get_elem?, ◌≡◌, refl, arith, Dict, ◌≢◌, eq_iff, inl, inr, Option-cases,
}
use tortureu.Base.Result.{ok, reject_if, ◌>>◌, reject_if-eq-ok, >>=-eq-ok}
use tortureu.Float64
use tortureu.Value.{Value}
use tortureu.Config
use tortureu.Egress.{validate_error_rate, as_float, out_of_fraction}
use tortureu.MockRate.{
  Error, other_verb, no_target, bad_rate, error_rate_of, rate_of, status_of, translate_error_rate,
  ErrorRate, Mapping, mappings_from, error_rate_mappings, error_rate_state_name,
  error_rate_cycle_len, approximate_error_rate,
}

-- the mapping of state `i`
abbrev pub mapping_at : String → ℤ → ℤ → ℕ → Mapping
mapping_at name errors status i = record {
  scenario_name = tortureu.MockRate.error_rate_scenario_name name;
  required_scenario_state = error_rate_state_name name i;
  new_scenario_state = error_rate_state_name name ((i + 1) % 20);
  priority = 1;
  url_path_pattern = ".*";
  method = "ANY";
  status = if ltb_ℤ (pos i) errors then status else pos 200;
}

get_elem?-mappings_from :
    (name : String) (errors status : ℤ) (i n k : ℕ)
    → k < n
    → get_elem? (mappings_from name errors status i n) k
      ≡ some (mapping_at name errors status (i + k))
unfolding mappings_from error_rate_cycle_len
get_elem?-mappings_from name errors status i zero k h = absurd (omega arith)
get_elem?-mappings_from name errors status i (suc n) zero h =
    let e : i + 0 ≡ i = omega arith in rw e
get_elem?-mappings_from name errors status i (suc n) (suc k) h =
    let e : i + suc k ≡ suc i + k = omega arith in
    rw e (get_elem?-mappings_from name errors status (suc i) n k (omega arith))

-- The cycle has 20 states. The mapping of state k moves on to the next state, the last one back to the
-- state in which every WireMock scenario starts, and fails with the fault's status exactly when k is
-- below the error count: so each round of 20 requests fails as often as the count says.
pub get_elem?-error_rate_mappings :
    (name : String) (r : ErrorRate) (k : ℕ)
    → k < 20
    → get_elem? (error_rate_mappings name r) k
      ≡ some (mapping_at name (approximate_error_rate r.rate).0 r.status k)
unfolding error_rate_mappings error_rate_cycle_len
get_elem?-error_rate_mappings name r k h =
    let e : 0 + k ≡ k = omega arith in
    rw e at (get_elem?-mappings_from name (approximate_error_rate r.rate).0 r.status 0 20 k h)

abbrev pub InRange : Float64.Float64 → Type 0
InRange x =
    (Float64.lt x (Float64.of_int (pos 0)) ≡ false)
    × (Float64.lt (Float64.of_int (pos 1)) x ≡ false)

in_range : (x : Float64.Float64) → out_of_fraction x ≡ false → InRange x
unfolding out_of_fraction
in_range x h = ground arith

rate_of-valid :
    (inject : Dict Value) (v : Value)
    → validate_error_rate inject ≡ false
    → lookup "error_rate" inject ≡ some v
    → (as_float v ≡ some (rate_of inject)) × InRange (rate_of inject)
unfolding validate_error_rate rate_of
rate_of-valid inject v h found = elim (Option-cases (as_float v)) [
  | inl n ↦ absurd (let h' = rw (found, n, validate_error_rate) at h in cc)
  | inr (x, e) ↦ rw (found, e, rate_of) (refl, in_range x (rw (found, e, validate_error_rate) at h))
]

-- An accepted error_rate has that verb and a target, and its rate is the number that the fault gives,
-- neither below 0 nor above 1; a value that is no number is refused.
pub translate_error_rate_sound :
    (f : Config.Fault) (r : ErrorRate)
    → translate_error_rate f ≡ ok r
    → (f.verb ≡ "error_rate")
      × (f.target ≢ "")
      × (r.target ≡ f.target)
      × ((v : Value)
          → lookup "error_rate" f.inject ≡ some v
          → (as_float v ≡ some r.rate) × InRange r.rate)
unfolding translate_error_rate error_rate_of
translate_error_rate_sound f r h =
    let (verb, h1) =
      reject_if-eq-ok (not (f.verb == "error_rate")) (other_verb f.verb)
        (reject_if (f.target == "") no_target
          >> (reject_if (validate_error_rate f.inject) bad_rate >> error_rate_of f))
        h in
    let (target, h2) =
      reject_if-eq-ok (f.target == "") no_target
        (reject_if (validate_error_rate f.inject) bad_rate >> error_rate_of f) h1 in
    let (valid, h3) =
      reject_if-eq-ok (validate_error_rate f.inject) bad_rate (error_rate_of f) h2 in
    let (status, s, e) = >>=-eq-ok (status_of (lookup "status" f.inject)) _ h3 in
    (
      ground (arith, eq_iff f.verb "error_rate"),
      ground (arith, eq_iff f.target ""),
      ground arith,
      let same : rate_of f.inject ≡ r.rate = ground arith in
          λ v found. rw same at (rate_of-valid f.inject v valid found),
    )
