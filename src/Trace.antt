-- ===== src/Trace.antt =====
-- internal/trace/chain.go: the causal chain that spans support. A duration is a number of nanoseconds.
pub mod Stats
pub mod Walk
use tortureu.Base.{
  ℕ, String, Bool, true, false, List, [], ◌∷◌, Option, none, some, ◌==◌, ◌||◌, ◌&&◌, not, Dict,
  lookup, if◌then◌else◌, ℤ, ltb_ℤ, is_some,
}
use tortureu.Base.Text.{codes}
use tortureu.Base.Strings.{trim_space, cut_last, is_int}

pub record Span : Type 0 where
  pub span_id : String
  pub parent_id : String
  pub service : String
  pub operation : String
  pub duration : ℤ
  pub attrs : Dict String

pub record Trace : Type 0 where
  pub id : String
  pub spans : List Span

pub record Hop : Type 0 where
  pub at : String
  pub observed : String

unfoldable pub peer_attrs : List String
peer_attrs =
    "server.address" ∷ "net.peer.name" ∷ "peer.service" ∷ "net.sock.peer.name" ∷ "net.peer.ip"
    ∷ "peer.hostname" ∷ []

unfoldable pub peer_port_attrs : List String
peer_port_attrs = "server.port" ∷ "net.peer.port" ∷ "net.sock.peer.port" ∷ []

-- host and port of a trimmed target
abbrev split_trimmed : String → Option (String × String) → String × String
split_trimmed target none = (target, "")
split_trimmed target (some (host, port)) =
    if is_int (codes port) then (host, port) else (target, "")

unfoldable pub split_target : String → String × String
unfolding trim_space cut_last is_int
split_target target = split_trimmed (trim_space target) (cut_last b':' (trim_space target))

unfoldable pub is_address : String → Bool
unfolding split_target
is_address target = not ((split_target target).0 == "") && not ((split_target target).1 == "")

-- the loop of portOK
unfoldable pub port_in : List String → Dict String → String → Bool
port_in [] attrs port = true
port_in (key ∷ keys) attrs port = elim (lookup key attrs) [
  | none ↦ port_in keys attrs port
  | some v ↦ if v == "" then port_in keys attrs port else v == port
]

unfoldable pub port_ok : Span → String → Bool
unfolding port_in peer_port_attrs
port_ok s port = if port == "" then true else port_in peer_port_attrs s.attrs port

-- what the loop over the peer attributes does with one that names the host
abbrev peer_port_ok : Span → String → String → Bool
peer_port_ok s port p = if p == "" then port_ok s port else port == "" || p == port

unfoldable pub peer_in : List String → Span → String → String → Bool
unfolding split_target port_ok
peer_in [] s host port = false
peer_in (key ∷ keys) s host port = elim (lookup key s.attrs) [
  | none ↦ peer_in keys s host port
  | some v ↦
      if (split_target v).0 == host
      then peer_port_ok s port (split_target v).1
      else peer_in keys s host port
]

unfoldable pub matches_target : Span → String → String → Bool
unfolding peer_in peer_attrs port_ok
matches_target s host port =
    if s.service == host then port_ok s port else peer_in peer_attrs s host port

-- a span with the trace that holds it
abbrev pub Located : Type 0
Located = Span × Trace

-- `best == nil || s.Duration > best.Duration`
abbrev better : Located → Option Located → Option Located
better x none = some x
better (s, t) (some (b, bt)) = if ltb_ℤ b.duration s.duration then some (s, t) else some (b, bt)

-- the inner loop over the spans of one trace
unfoldable pub best_span : String → String → Trace → List Span → Option Located → Option Located
unfolding matches_target
best_span host port t [] best = best
best_span host port t (s ∷ ss) best =
    best_span host port t ss (if matches_target s host port then better (s, t) best else best)

unfoldable pub best_match : String → String → List Trace → Option Located → Option Located
unfolding best_span
best_match host port [] best = best
best_match host port (t ∷ ts) best = best_match host port ts (best_span host port t t.spans best)
