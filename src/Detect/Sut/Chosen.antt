-- ===== src/Detect/Sut/Chosen.antt =====
-- Why a service is the system under test.
use tortureu.Base.{
  String, true, false, List, [], ◌∷◌, ◌++◌, ◌==◌, ◌≡◌, ◌≢◌, Dict, has_key, contains, all_in, ◌||◌,
  ◌⊎◌,
}
use tortureu.Base.Result.{ok, err}
use tortureu.Compose.{Service}
use tortureu.Detect.{
  System, SutChoice, choice_only, choice_requested, choice_derived, choice_undecided, choice_none,
  sut_undecided,
}
use tortureu.Detect.Sut.{no_such_service, builds_of, depended_on, choose_sut}

-- what each way of choosing without a request rests on, by the services that build and those that are
-- depended on
abbrev pub IsJustified : List String → List String → System → System → SutChoice → Type 0
IsJustified builds depended before sys choice_requested = ⊥
IsJustified builds depended before sys choice_only = builds ≡ sys.sut ∷ []
IsJustified builds depended before sys choice_derived =
    (contains builds sys.sut ≡ true)
    × (contains depended sys.sut ≡ false)
    × (all_in (λ b. (b == sys.sut) || contains depended b) builds ≡ true)
IsJustified builds depended before sys choice_undecided =
    (sys.sut ≡ before.sut)
    × (sys.sut_candidates ≡ builds)
    × (sys.gaps ≡ before.gaps ++ (sut_undecided builds ∷ []))
IsJustified builds depended before sys choice_none = builds ≡ []

-- what detection answers to a request, the empty one included
abbrev pub IsChosen : System → Dict Service → List String → String → Type 0
IsChosen sys services names requested =
    ((requested ≢ "")
      × (has_key requested services ≡ true)
      × (choose_sut sys services names requested
          ≡ ok (record sys { sut = requested; sut_choice = choice_requested })))
    ⊎ ((requested ≢ "")
        × (has_key requested services ≡ false)
        × (choose_sut sys services names requested ≡ err (no_such_service requested names)))
    ⊎ ((requested ≡ "")
        × ((s : System) × (choose_sut sys services names requested ≡ ok s)
            × IsJustified (builds_of services names) (depended_on services names) sys s
                s.sut_choice))
