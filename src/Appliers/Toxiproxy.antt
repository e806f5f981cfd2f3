-- ===== src/Appliers/Toxiproxy.antt =====
-- internal/run/toxiproxy_applier.go: proxies and toxics through Toxiproxy's control API.
use tortureu.Base.{
  ℕ, String, Bool, true, false, List, [], ◌∷◌, Option, none, some, ◌==◌, Dict, lookup, insert, eqb,
  if◌then◌else◌, ◌||◌,
}
use tortureu.Base.Result.{Result, ok, err}
use tortureu.Base.Strings.{split_host_port}
use tortureu.Base.Text.{concat}
use tortureu.Fault.{Toxic}

-- what do returns: the transport's error, or a status and a body
pub data Reply : Type 0 where
  failed : String → Reply
  replied : ℕ → String → Reply

pub data Error : Type 0 where
  no_target : String → Error
  transport : String → Error
  status : ℕ → Error

pub record Proxy : Type 0 where
  pub name : String
  pub listen : String
  pub upstream : String

pub data Request : Type 0 where
  post_proxy : Proxy → Request
  set_enabled : String → Bool → Request
  post_toxic : String → String → Toxic → Request
  delete_toxic : String → String → Request

unfoldable pub register_target : String → String → Dict String → Dict String
register_target fault_name target targets = insert fault_name target targets

abbrev port_or_any : Option (String × String) → String
port_or_any none = "0.0.0.0:0"
port_or_any (some parts) = if parts.1 == "" then "0.0.0.0:0" else concat ("0.0.0.0:" ∷ parts.1 ∷ [])

unfoldable pub listen_of : String → String
unfolding split_host_port
listen_of name = port_or_any (split_host_port name)

-- net.LookupHost with net.JoinHostPort, and the check for an IP literal, as one answer per host and
-- port: the resolved address, if there is one
module _ (resolve : String × String → Option String) where
  unfoldable pub resolve_upstream : String → String
  unfolding split_host_port
  resolve_upstream target = elim (split_host_port target) [
    | none ↦ target
    | some parts ↦ elim (resolve parts) [ none ↦ target | some address ↦ address ]
  ]

  abbrev pub proxy_of : String → String → Proxy
  proxy_of name upstream = record {
    name = name;
    listen = listen_of name;
    upstream = resolve_upstream upstream;
  }

  abbrev pub is_ready : ℕ → Bool
  is_ready code = eqb code 200 || eqb code 201 || eqb code 409

  abbrev proxy_error : Reply → Option Error
  proxy_error (failed e) = some (transport e)
  proxy_error (replied code body) = if is_ready code then none else some (status code)

  -- the i-th request gets the i-th reply; the error of ensureProxy's one request
  unfoldable pub ensure_proxy : Reply → String → String → Request × Option Error
  unfolding listen_of resolve_upstream
  ensure_proxy reply name upstream = (post_proxy (proxy_of name upstream), proxy_error reply)

  -- the loop stops at the first error
  unfoldable pub ensure_proxies : (String → Reply) → Dict String → List Request × Option Error
  unfolding ensure_proxy
  ensure_proxies reply [] = ([], none)
  ensure_proxies reply ((name, upstream) ∷ targets) =
      let (request, failure) = ensure_proxy (reply name) name upstream in
      let (later, end) = ensure_proxies reply targets in
      elim failure [ some e ↦ (request ∷ [], some e) | none ↦ (request ∷ later, end) ]

  abbrev is_done : ℕ → ℕ → Bool
  is_done also code = eqb code 200 || eqb code also

  -- a request with its undo: the undo where the status is 200 or the other one that is accepted
  abbrev settle : ℕ → Reply → Request → Result Error Request
  settle also (failed e) undo = err (transport e)
  settle also (replied code body) undo = if is_done also code then ok undo else err (status code)

  abbrev pub toxic_name : String → Toxic → String
  toxic_name name t = concat (name ∷ "_" ∷ t.type ∷ [])

  abbrev pub change : String → String → Toxic → Request
  change name target t =
      if t.disable then set_enabled target false else post_toxic target (toxic_name name t) t

  abbrev pub reversal : String → String → Toxic → Request
  reversal name target t =
      if t.disable then set_enabled target true else delete_toxic target (toxic_name name t)

  abbrev pub accepted_too : Toxic → ℕ
  accepted_too t = if t.disable then 200 else 201

  -- ApplyToxic: its requests, and the undo, which is one request
  unfoldable pub apply_toxic :
      Dict String → Reply → Reply → String → Toxic → List Request × Result Error Request
  unfolding ensure_proxy
  apply_toxic targets first second name t = elim (lookup name targets) [
    | none ↦ ([], err (no_target name))
    | some target ↦
        let (request, failure) = ensure_proxy first target target in
        elim failure [
          | some e ↦ (request ∷ [], err e)
          | none ↦ (
            request ∷ change name target t ∷ [],
            settle (accepted_too t) second (reversal name target t),
          )
        ]
  ]

abbrev only_if : Bool → ℕ → Option Error
only_if true code = none
only_if false code = some (status code)

-- what an undo makes of its reply
unfoldable pub undo_error : Request → Reply → Option Error
undo_error request (failed e) = some (transport e)
undo_error (delete_toxic target name) (replied code body) =
    only_if (eqb code 200 || eqb code 204) code
undo_error (set_enabled target on) (replied code body) = only_if (eqb code 200) code
undo_error (post_proxy p) (replied code body) = only_if (eqb code 200) code
undo_error (post_toxic target name t) (replied code body) = only_if (eqb code 200) code
