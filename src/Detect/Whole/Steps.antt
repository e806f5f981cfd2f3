-- ===== src/Detect/Whole/Steps.antt =====
-- What a finished description promises.
use tortureu.Base.{
  String, Bool, false, List, [], ◌∷◌, ◌==◌, ◌≡◌, refl, arith, Dict, ◌||◌, if◌then◌else◌, Bool-cases,
  Option-cases, inl, inr, is_some, if_elim, contains, has_key,
}
use tortureu.Base.Result.{Result, ok, err, ◌>>=◌, >>=-eq-ok}
use tortureu.Compose.{Service, Port, service_at, sorted_names}
use tortureu.Detect.{System, Fact, choice_requested, fact_true, fact_false, fact_unknown, no_system}
use tortureu.Detect.Clients.{aws_sdk_imports, azure_sdk_imports, otel_client_imports}
use tortureu.Detect.Images.{match_obs, dep_type}
use tortureu.Detect.Sut.{
  SutError, choose_sut, choose_among, builds_of, decide, roots_of, depended_on,
}
use tortureu.Detect.Hosts.{record_host, loopback_hosts, host_of}
use tortureu.Detect.Hosts.Classes.{
  IsClassified, detect_external_hosts-kept, record_host-IsClassified, note_internal-IsClassified,
}
use tortureu.Detect.Manifests.{
  detect_lockfiles, detect_service_manifests, service_for_dir, manifest_fact,
  finalize_manifest_facts,
}
use tortureu.Detect.Directory.{ManifestInfo}
use tortureu.Detect.Manifests.Facts.{Adds, any_declares, any_unread, all_infos, manifests-Adds}
use tortureu.Detect.Whole.{
  Surroundings, FileCoverage, classify_service, classify_services, note_image, note_address,
  address_of, read_compose, read_manifests, with_file_coverage, covered, unread, chosen, settle,
  lacks_otel, detect_with_sut, with_max_confidence,
}

-- before a manifest is read: the hosts have classes, and nothing is known of the manifests
abbrev IsUnread : System → Type 0
IsUnread sys =
    (sys.aws_client_seen || sys.azure_client_seen || sys.otel_client_seen || sys.manifest_unread)
    ≡ false

abbrev IsFresh : List String → System → Type 0
IsFresh names sys = IsClassified names sys × IsUnread sys

note_address-IsFresh :
    (names : List String) (address : String) (sys : System)
    → IsFresh names sys
    → IsFresh names (note_address address sys)
note_address-IsFresh names address sys f =
    if_elim (IsFresh names) (address == "") f
      (note_internal-IsClassified names address sys f.0, f.1)

note_image-IsFresh :
    (names : List String) (name image : String) (ports : List Port) (typ : String) (sys : System)
    → IsFresh names sys
    → IsFresh names (note_image name image ports typ sys)
note_image-IsFresh names name image ports typ sys f =
    if_elim (IsFresh names) (typ == "") f
      (note_address-IsFresh names (address_of name typ ports) sys f)

classify_service-IsFresh :
    (names : List String) (name : String) (svc : Service) (sys : System)
    → IsFresh names sys
    → IsFresh names (classify_service name svc sys)
unfolding classify_service
classify_service-IsFresh names name svc sys f = if_elim (IsFresh names) (name == sys.sut) f (
    if_elim (IsFresh names) (is_some svc.build) f (
      if_elim (IsFresh names) (svc.image == "") f (elim (Option-cases (match_obs svc.image)) [
        | inl e ↦
            rw e (note_image-IsFresh names name svc.image svc.ports (dep_type svc.image) sys f)
        | inr (p, e) ↦ rw e f
      ])))

classify_services-IsFresh :
    (names : List String) (services : Dict Service) (todo : List String) (sys : System)
    → IsFresh names sys
    → IsFresh names (classify_services services todo sys)
unfolding classify_services
classify_services-IsFresh names services [] sys f = f
classify_services-IsFresh names services (n ∷ todo) sys f =
    classify_services-IsFresh names services todo _
      (classify_service-IsFresh names n (service_at services n) sys f)

record_host-IsUnread :
    (names : List String) (host : String) (sys : System)
    → IsUnread sys
    → IsUnread (record_host names host sys)
unfolding record_host
record_host-IsUnread names host sys u =
    if_elim IsUnread (contains sys.egress host) u (
      if_elim IsUnread (contains loopback_hosts (host_of host) || contains names (host_of host)) u
        u)

record_host-IsFresh :
    (names : List String) (host : String) (sys : System)
    → IsFresh names sys
    → IsFresh names (record_host names host sys)
record_host-IsFresh names host sys f =
    (record_host-IsClassified names host sys f.0, record_host-IsUnread names host sys f.1)

read_compose-IsFresh :
    (around : Surroundings) (services : Dict Service) (sys : System)
    → IsFresh (sorted_names services) sys
    → IsFresh (sorted_names services) (read_compose around services sys)
read_compose-IsFresh around services sys f =
    let names = sorted_names services in
    detect_external_hosts-kept around.parse_url around.env_lines names (IsFresh names)
      (record_host-IsFresh names) services
      (with_max_confidence (classify_services services names sys))
      (classify_services-IsFresh names services names sys f)

decide-IsFresh :
    (names builds roots : List String) (sys : System)
    → IsFresh names sys
    → IsFresh names (decide builds roots sys)
decide-IsFresh names builds [] sys f = f
decide-IsFresh names builds (r ∷ []) sys f = f
decide-IsFresh names builds (r ∷ q ∷ rest) sys f = f

choose_among-IsFresh :
    (services : Dict Service) (names builds : List String) (sys : System)
    → IsFresh names sys
    → IsFresh names (choose_among services names builds sys)
unfolding choose_among
choose_among-IsFresh services names [] sys f = f
choose_among-IsFresh services names (b ∷ []) sys f = f
choose_among-IsFresh services names (b ∷ c ∷ bs) sys f =
    decide-IsFresh names (b ∷ c ∷ bs) (roots_of (depended_on services names) (b ∷ c ∷ bs)) sys f

choose_sut-IsFresh :
    (names : List String) (services : Dict Service) (requested : String) (s : System)
    → choose_sut no_system services names requested ≡ ok s
    → IsFresh names s
unfolding choose_sut
choose_sut-IsFresh names services requested s e = elim (Bool-cases (requested == "")) [
  | inl r ↦
      let same : s ≡ choose_among services names (builds_of services names) no_system =
        ground arith in
      rw same (choose_among-IsFresh services names (builds_of services names) no_system (tt, refl))
  | inr r ↦ elim (Bool-cases (has_key requested services)) [
    | inl k ↦
        let same : s ≡ record no_system { sut = requested; sut_choice = choice_requested } =
          ground arith in
        rw same (tt, refl)
    | inr k ↦ absurd (ground arith)
  ]
]

-- what the evidence of the manifests settles
abbrev pub fact_from : Bool → Bool → Fact
fact_from seen unread = if seen then fact_true else if unread then fact_unknown else fact_false

-- The whole description: its hosts have classes, and its facts rest on every manifest that was read.
pub record IsSettled (names : List String) (infos : List ManifestInfo) (sys : System) : Type 0 where
  pub classified : IsClassified names sys
  pub aws : sys.coverage.aws ≡ fact_from (any_declares aws_sdk_imports infos) (any_unread infos)
  pub azure :
      sys.coverage.azure ≡ fact_from (any_declares azure_sdk_imports infos) (any_unread infos)
  pub otel : sys.coverage.lacks_otel ≡ (
      if any_declares otel_client_imports infos || sys.otel_collector_seen
      then fact_false
      else if any_unread infos
      then fact_unknown
      else fact_true)

settle-IsSettled :
    (names : List String) (infos : List ManifestInfo) (r s : System)
    → IsFresh names r
    → Adds infos r s
    → IsSettled names infos (settle s)
unfolding finalize_manifest_facts lacks_otel manifest_fact
settle-IsSettled names infos r s (c, n) (a, z, o, u, k, h, l) = record {
  classified = rw (h, l) c;
  aws = ground arith;
  azure = ground arith;
  otel = ground arith;
}

unread-ok : (m : Result String System) (s : System) → unread m ≡ ok s → m ≡ ok s
unread-ok (ok r) s e = cc
unread-ok (err x) s e = cc

chosen-ok : (m : Result SutError System) (s : System) → chosen m ≡ ok s → m ≡ ok s
chosen-ok (ok r) s e = cc
chosen-ok (err x) s e = cc

covered-Adds :
    (infos : List ManifestInfo) (c : Result String FileCoverage) (r s t : System)
    → covered c s ≡ ok t
    → Adds infos r s
    → Adds infos r t
covered-Adds infos (err x) r s t e a = cc
covered-Adds infos (ok c) r s t e a = let same : t ≡ with_file_coverage c s = cc in rw same a

read_manifests-Adds :
    (around : Surroundings) (dir : String) (services : Dict Service) (r t : System)
    → read_manifests around dir services r ≡ ok t
    → Adds (all_infos around.files around.clean services dir) r t
read_manifests-Adds around dir services r t e =
    let owner = service_for_dir around.clean services dir (sorted_names services) in
    let first = detect_lockfiles around.files around.clean dir owner r in
    let (u, e1, e2) =
      >>=-eq-ok
        (unread first
          >>= (λ s. unread (detect_service_manifests around.files around.clean services dir s)))
        _ e in
    let (s, e3, e4) = >>=-eq-ok (unread first) _ e1 in
    covered-Adds (all_infos around.files around.clean services dir) around.file_coverage r u t e2 (
      manifests-Adds around.files around.clean services dir owner r s u (unread-ok first s e3)
        (unread-ok (detect_service_manifests around.files around.clean services dir s) u e4))

-- Where detection succeeds: every host that it lists has a class, internal, or unclassified for a host
-- that is neither a service of the project nor the machine itself. The facts on AWS, Azure and
-- OpenTelemetry rest on the manifests of the root and of every service's own directory together: a client
-- that one of them declares decides, a manifest that could be followed only in part leaves the rest
-- unknown, and absence is claimed only where all were read.
pub detect_with_sut-IsSettled :
    (around : Surroundings) (dir : String) (services : Dict Service) (requested : String)
    (sys : System)
    → detect_with_sut around dir services requested ≡ ok sys
    → IsSettled (sorted_names services) (all_infos around.files around.clean services dir) sys
unfolding detect_with_sut
detect_with_sut-IsSettled around dir services requested sys e =
    let names = sorted_names services in
    let infos = all_infos around.files around.clean services dir in
    let (t, e1, e2) = >>=-eq-ok _ (λ s. ok (settle s)) e in
    let (r, e3, e4) = >>=-eq-ok (chosen (choose_sut no_system services names requested)) _ e1 in
    let same : sys ≡ settle t = cc in
    rw same (
      settle-IsSettled names infos (read_compose around services r) t
        (read_compose-IsFresh around services r (
          choose_sut-IsFresh names services requested r
            (chosen-ok (choose_sut no_system services names requested) r e3)))
        (read_manifests-Adds around dir services (read_compose around services r) t e4))
