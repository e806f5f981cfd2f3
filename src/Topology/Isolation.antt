-- ===== src/Topology/Isolation.antt =====
-- Where the services of a project stand in the overlay.
use tortureu.Base.{
  String, true, false, List, [], ◌∷◌, some, ◌==◌, ◌≡◌, refl, arith, ap, eq_iff, ◌⊎◌, inl, inr, Dict,
  lookup, insert, has_key, keys, lookup-insert, contains, ◌||◌, ◌∙◌, eq_refl, Bool-cases, All,
  all_in,
}
use mathlib.Core.Path.{subst}
use tortureu.Base.Result.{ok, >>=-eq-ok, if_err-eq-ok}
use tortureu.Base.Sort.Members.{contains-sort_strings, contains-keys, all_in-of_contains}
use tortureu.Compose.{Service, service_at, sorted_names}
use tortureu.Egress.{Topology, build_topology}
use tortureu.Topology.{
  Applier, Overlay, OverlayService, plain, build_overlay, overlay_of, move_services, add_backends,
  disabled_service, plain_service, backend_service, backend_service_name, proxy_service,
  sut_network_of, attach_proxy, aliases_of, collect_hosts, overlay_networks, no_internal_network,
  no_proxy_service,
}

-- an entry of the overlay is the proxy's, or joins the one network
abbrev pub IsIsolated : String → String → String × OverlayService → Type 0
IsIsolated sut proxy (name, svc) = (name ≡ proxy) ⊎ (svc.networks ≡ plain (sut ∷ []))

All-insert :
    (sut proxy name : String) (svc : OverlayService) (out : Dict OverlayService)
    → svc.networks ≡ plain (sut ∷ [])
    → All (IsIsolated sut proxy) out
    → All (IsIsolated sut proxy) (insert name svc out)
All-insert sut proxy name svc [] n i = (inr n, tt)
All-insert sut proxy name svc ((k, s) ∷ out) n i = elim (Bool-cases (k == name)) [
  | inl same ↦ rw same (inr n, i.1)
  | inr other ↦ rw other (i.0, All-insert sut proxy name svc out n i.1)
]

move_services-IsIsolated :
    (sut proxy : String) (hosts : List String) (services : Dict Service) (names : List String)
    (out : Dict OverlayService)
    → All (IsIsolated sut proxy) out
    → All (IsIsolated sut proxy) (move_services sut proxy hosts services names out)
unfolding move_services
move_services-IsIsolated sut proxy hosts services [] out i = i
move_services-IsIsolated sut proxy hosts services (name ∷ names) out i =
    move_services-IsIsolated sut proxy hosts services names _ (elim (Bool-cases (name == proxy)) [
      | inl p ↦ rw p i
      | inr p ↦ elim (Bool-cases (contains hosts name)) [
        | inl c ↦ rw (p, c) (All-insert sut proxy name (disabled_service sut) out refl i)
        | inr c ↦
            rw (p, c)
              (All-insert sut proxy name (plain_service sut hosts (service_at services name)) out
                refl i)
      ]
    ])

add_backends-IsIsolated :
    (sut proxy : String) (hosts : List String) (services : Dict Service) (hs : List String)
    (out : Dict OverlayService)
    → All (IsIsolated sut proxy) out
    → All (IsIsolated sut proxy) (add_backends sut hosts services hs out)
unfolding add_backends
add_backends-IsIsolated sut proxy hosts services [] out i = i
add_backends-IsIsolated sut proxy hosts services (h ∷ hs) out i =
    add_backends-IsIsolated sut proxy hosts services hs _ (
      All-insert sut proxy (backend_service_name h)
        (backend_service sut hosts (service_at services h)) out refl i)

has_key-insert :
    (k j : String) (v : OverlayService) (m : Dict OverlayService)
    → has_key j (insert k v m) ≡ ((k == j) || has_key j m)
has_key-insert k j v m = ground (arith, lookup-insert k j v m)

has_key-kept :
    (k j : String) (v : OverlayService) (m : Dict OverlayService)
    → has_key j m ≡ true
    → has_key j (insert k v m) ≡ true
has_key-kept k j v m h = has_key-insert k j v m ∙ ground arith

has_key-placed :
    (name : String) (names : List String) (k : String) (v : OverlayService)
    (m : Dict OverlayService)
    → (has_key k m || contains (name ∷ names) k) ≡ true
    → (has_key k (insert name v m) || contains names k) ≡ true
has_key-placed name names k v m h = ground (arith, has_key-insert name k v m)

has_key-add_backends :
    (sut : String) (hosts : List String) (services : Dict Service) (hs : List String)
    (out : Dict OverlayService) (k : String)
    → has_key k out ≡ true
    → has_key k (add_backends sut hosts services hs out) ≡ true
unfolding add_backends
has_key-add_backends sut hosts services [] out k e = e
has_key-add_backends sut hosts services (h ∷ hs) out k e =
    has_key-add_backends sut hosts services hs _ k (
      has_key-kept (backend_service_name h) k (backend_service sut hosts (service_at services h))
        out e)

has_key-move_services :
    (sut proxy : String) (hosts : List String) (services : Dict Service) (names : List String)
    (out : Dict OverlayService) (k : String)
    → has_key proxy out ≡ true
    → (has_key k out || contains names k) ≡ true
    → has_key k (move_services sut proxy hosts services names out) ≡ true
unfolding move_services
has_key-move_services sut proxy hosts services [] out k p e = ground arith
has_key-move_services sut proxy hosts services (name ∷ names) out k p e =
    elim (Bool-cases (name == proxy)) [
      | inl same ↦ rw same (
          has_key-move_services sut proxy hosts services names out k p
            (ground (arith, eq_iff name proxy, eq_iff name k)))
      | inr other ↦ elim (Bool-cases (contains hosts name)) [
        | inl c ↦
            let v = disabled_service sut in
            rw (other, c)
              (has_key-move_services sut proxy hosts services names _ k
                (has_key-kept name proxy v out p) (has_key-placed name names k v out e))
        | inr c ↦
            let v = plain_service sut hosts (service_at services name) in
            rw (other, c)
              (has_key-move_services sut proxy hosts services names _ k
                (has_key-kept name proxy v out p) (has_key-placed name names k v out e))
      ]
    ]

networks-clash :
    (sut egress proxy : String)
    → sut == egress ≡ true
    → (build_topology sut egress proxy).networks ≡ (sut, false) ∷ []
unfolding build_topology
networks-clash sut egress proxy h = rw h

networks-apart :
    (sut egress proxy : String)
    → sut == egress ≡ false
    → (build_topology sut egress proxy).networks ≡ (sut, true) ∷ (egress, false) ∷ []
unfolding build_topology
networks-apart sut egress proxy h = rw h

last_of_two :
    (egress sut : String)
    → egress == sut ≡ false
    → lookup sut (overlay_networks ((sut, true) ∷ (egress, false) ∷ []))
      ≡ some (record { name = sut; is_internal = true })
last_of_two egress sut other = rw (other, other, eq_refl sut)

sut_network_of-build_topology :
    (sut egress proxy : String)
    → (sut_network_of (build_topology sut egress proxy).networks == "" ≡ false)
    → (sut_network_of (build_topology sut egress proxy).networks ≡ sut)
      × (lookup sut (overlay_networks (build_topology sut egress proxy).networks)
          ≡ some (record { name = sut; is_internal = true }))
unfolding sut_network_of
sut_network_of-build_topology sut egress proxy h = elim (Bool-cases (sut == egress)) [
  | inl same ↦
      absurd
        (ground (arith, ap (λ n. sut_network_of n == "") (networks-clash sut egress proxy same)))
  | inr other ↦
      rw (networks-apart sut egress proxy other)
        (refl, last_of_two egress sut (ground (arith, eq_iff egress sut, eq_iff sut egress)))
]

contains-sorted_names :
    (services : Dict Service) (k : String) → contains (sorted_names services) k ≡ has_key k services
contains-sorted_names services k =
    contains-sort_strings (keys services) k ∙ contains-keys services k

-- what the overlay promises
pub record Promises (sut proxy : String) (services : Dict Service) (ov : Overlay) : Type 0 where
  pub isolated : All (IsIsolated sut proxy) ov.services
  pub complete : all_in (λ name. has_key name ov.services) (keys services) ≡ true
  pub without_exit : lookup sut ov.networks ≡ some (record { name = sut; is_internal = true })

overlay_of-Promises :
    (a : Applier) (top : Topology) (sut proxy : String) (joins external hosts : List String)
    (services : Dict Service)
    → lookup sut (overlay_networks top.networks) ≡ some (record { name = sut; is_internal = true })
    → Promises sut proxy services (overlay_of a top sut (proxy, joins) external hosts services)
unfolding overlay_of
overlay_of-Promises a top sut proxy joins external hosts services n =
    let own = (proxy, proxy_service a (attach_proxy sut (aliases_of external hosts) joins)) ∷ [] in
    let moved = move_services sut proxy hosts services (sorted_names services) own in
    record {
      isolated = add_backends-IsIsolated sut proxy hosts services hosts moved (
          move_services-IsIsolated sut proxy hosts services (sorted_names services) own
            (inl refl, tt));
      complete = all_in-of_contains _ (keys services) (λ k c.
          has_key-add_backends sut hosts services hosts moved k (
            has_key-move_services sut proxy hosts services (sorted_names services) own k
              (rw (eq_refl proxy) refl) ground
              (arith, contains-sorted_names services k, contains-keys services k)));
      without_exit = n;
    }

-- Whatever hosts are to be intercepted: where an overlay is built for the networks of BuildTopology, the
-- network of the system under test is internal, every service of the project has an entry, and every
-- entry but the proxy's, those of the cloned dependencies included, joins that network and no other.
pub build_overlay-Promises :
    (a : Applier) (sut egress proxy : String) (external internal : List String)
    (services : Dict Service) (ov : Overlay)
    → build_overlay a (build_topology sut egress proxy) external internal services ≡ ok ov
    → Promises sut proxy services ov
unfolding build_overlay build_topology
build_overlay-Promises a sut egress proxy external internal services ov h =
    let top = build_topology sut egress proxy in
    let net = sut_network_of top.networks in
    let (named, h1) = if_err-eq-ok (net == "") no_internal_network _ h in
    let (given, h2) = if_err-eq-ok (proxy == "") no_proxy_service _ h1 in
    let (hosts, c, h3) = >>=-eq-ok (collect_hosts services [] internal) _ h2 in
    let (own, exit) = sut_network_of-build_topology sut egress proxy named in
    let same : (overlay_of a top sut (proxy, sut ∷ egress ∷ []) external hosts services ≡ ov) =
      cc in
    subst (λ o. Promises sut proxy services o) same
      (overlay_of-Promises a top sut proxy (sut ∷ egress ∷ []) external hosts services exit)
