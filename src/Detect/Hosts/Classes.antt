-- ===== src/Detect/Hosts/Classes.antt =====
-- Every host that detection records has a class.
use tortureu.Base.{
  String, Bool, false, List, [], ◌∷◌, Option, none, some, ◌==◌, ◌≡◌, arith, eq_iff, eq_refl, sym,
  Dict, lookup, insert, lookup-insert, contains, ◌⊎◌, inl, inr, Bool-cases, All, All-append,
  Option-cases, ◌||◌,
}
use tortureu.Compose.{Service}
use tortureu.Detect.{System}
use tortureu.Detect.Hosts.{
  host_of, loopback_hosts, note_host, record_host, record_value, record_values, record_env,
  record_files, detect_external_hosts, extract_host, env_values,
}

-- a host's class: internal, or unclassified for a name that is neither a service nor the machine itself
abbrev pub HasClass : List String → Dict String → String → Type 0
HasClass names classes host =
    (lookup host classes ≡ some "internal")
    ⊎ ((lookup host classes ≡ some "unclassified")
        × (contains names (host_of host) ≡ false)
        × (contains loopback_hosts (host_of host) ≡ false))

abbrev pub IsClassified : List String → System → Type 0
IsClassified names sys = All (HasClass names sys.egress_class) sys.egress

All-map :
    (P Q : String → Type 0) (xs : List String) → ((x : String) → P x → Q x) → All P xs → All Q xs
All-map P Q [] f a = tt
All-map P Q (x ∷ xs) f a = (f x a.0, All-map P Q xs f a.1)

lookup-insert_same : (k v : String) (m : Dict String) → lookup k (insert k v m) ≡ some v
lookup-insert_same k v m = ground (arith, eq_refl k, lookup-insert k k v m)

insert-internal :
    (names : List String) (classes : Dict String) (host x : String)
    → HasClass names classes x
    → HasClass names (insert host "internal" classes) x
insert-internal names classes host x h = elim (Bool-cases (host == x)) [
  | inl e ↦ inl (ground (arith, lookup-insert host x "internal" classes))
  | inr e ↦ ground (arith, lookup-insert host x "internal" classes)
]

insert-unclassified :
    (names : List String) (classes : Dict String) (host x : String)
    → contains names (host_of host) ≡ false
    → contains loopback_hosts (host_of host) ≡ false
    → HasClass names classes x
    → HasClass names (insert host "unclassified" classes) x
insert-unclassified names classes host x n l h = elim (Bool-cases (host == x)) [
  | inl e ↦
      let same : x ≡ host = sym ((eq_iff host x).0 e) in
      rw same (inr (lookup-insert_same host "unclassified" classes, n, l))
  | inr e ↦ ground (arith, lookup-insert host x "unclassified" classes)
]

note_host-IsClassified :
    (names : List String) (host class : String) (sys : System)
    → ((x : String)
        → HasClass names sys.egress_class x
        → HasClass names (insert host class sys.egress_class) x)
    → HasClass names (insert host class sys.egress_class) host
    → IsClassified names sys
    → IsClassified names (note_host host class sys)
note_host-IsClassified names host class sys f h i =
    All-append _ sys.egress (host ∷ []) (All-map _ _ sys.egress f i) (h, tt)

pub note_internal-IsClassified :
    (names : List String) (host : String) (sys : System)
    → IsClassified names sys
    → IsClassified names (note_host host "internal" sys)
note_internal-IsClassified names host sys i =
    note_host-IsClassified names host "internal" sys
      (λ x h. insert-internal names sys.egress_class host x h)
      (inl (lookup-insert_same host "internal" sys.egress_class)) i

or-false : (a b : Bool) → (a || b) ≡ false → (a ≡ false) × (b ≡ false)
or-false a b h = ground arith

pub record_host-IsClassified :
    (names : List String) (host : String) (sys : System)
    → IsClassified names sys
    → IsClassified names (record_host names host sys)
unfolding record_host
record_host-IsClassified names host sys i = elim (Bool-cases (contains sys.egress host)) [
  | inl s ↦ rw s i
  | inr s ↦
      elim (Bool-cases (contains loopback_hosts (host_of host) || contains names (host_of host))) [
        | inl k ↦ rw (s, k) i
        | inr k ↦
            let (l, n) =
              or-false (contains loopback_hosts (host_of host)) (contains names (host_of host)) k in
            rw (s, k)
              (note_host-IsClassified names host "unclassified" sys
                (λ x h. insert-unclassified names sys.egress_class host x n l h)
                (inr (lookup-insert_same host "unclassified" sys.egress_class, n, l)) i)
      ]
]

-- What recording a host keeps, the whole pass over the environment keeps.
module _ (parse_url : String → Option (String × String)) (env_lines : String → List String)
    (names : List String) (P : System → Type 0)
    (kept : (host : String) (sys : System) → P sys → P (record_host names host sys)) where
  record_value-kept :
      (v : String) (sys : System) → P sys → P (record_value parse_url env_lines names v sys)
  unfolding record_value
  record_value-kept v sys i = elim (Option-cases (extract_host parse_url v)) [
    | inl e ↦ rw (e, record_value) i
    | inr (host, e) ↦ rw (e, record_value) (kept host sys i)
  ]

  record_values-kept :
      (vs : List String) (sys : System) → P sys → P (record_values parse_url env_lines names vs sys)
  unfolding record_values
  record_values-kept [] sys i = i
  record_values-kept (v ∷ vs) sys i = record_values-kept vs _ (record_value-kept v sys i)

  record_env-kept :
      (env : Dict (Option String)) (sys : System)
      → P sys
      → P (record_env parse_url env_lines names env sys)
  unfolding record_env
  record_env-kept [] sys i = i
  record_env-kept ((k, none) ∷ env) sys i = record_env-kept env sys i
  record_env-kept ((k, some v) ∷ env) sys i = record_env-kept env _ (record_value-kept v sys i)

  record_files-kept :
      (paths : List String) (sys : System)
      → P sys
      → P (record_files parse_url env_lines names paths sys)
  unfolding record_files
  record_files-kept [] sys i = i
  record_files-kept (p ∷ paths) sys i =
      record_files-kept paths _ (record_values-kept (env_values (env_lines p)) sys i)

  pub detect_external_hosts-kept :
      (services : Dict Service) (sys : System)
      → P sys
      → P (detect_external_hosts parse_url env_lines names services sys)
  unfolding detect_external_hosts
  detect_external_hosts-kept [] sys i = i
  detect_external_hosts-kept ((name, svc) ∷ services) sys i =
      detect_external_hosts-kept services _
        (record_files-kept svc.env_files _ (record_env-kept svc.environment sys i))
