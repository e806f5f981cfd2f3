-- ===== src/Tests/Spans.antt =====
-- The spans of a database that got slow under one caller.
use tortureu.Base.{String, List, [], ◌∷◌, Option, none, some, ◌≡◌, refl, pos, true, is_some, ℤ}
use tortureu.Trace.{Span, Trace, Hop}
use tortureu.Trace.Walk.{build_chain}
use tortureu.Trace.Walk.Ends.{build_chain-is_some}
use tortureu.Trace.Walk.Gate.{IsMeasured, build_chain-IsMeasured}

abbrev pub span : String → String → String → ℤ → Span
span id parent service duration = record {
  span_id = id;
  parent_id = parent;
  service = service;
  operation = "query";
  duration = duration;
  attrs = [];
}

-- the two spans of the first trace name each other as parents
abbrev pub traces : List Trace
traces =
    record {
      id = "t1";
      spans = span "a" "b" "db" (pos 304000000) ∷ span "b" "a" "api" (pos 305000000) ∷ [];
    }
    ∷ record { id = "t2"; spans = span "c" "" "db" (pos 4000000) ∷ [] }
    ∷ record { id = "t3"; spans = span "d" "" "db" (pos 304000000) ∷ [] }
    ∷ []

abbrev db_hop : Hop
db_hop = record { at = "db:5432"; observed = "latency 4ms -> 304ms (n=3 spans)" }

abbrev api_hop : Hop
api_hop = record { at = "api query"; observed = "latency 305ms -> 305ms (n=1 spans)" }

chain : build_chain traces "db:5432" ≡ some (db_hop ∷ api_hop ∷ [])
unfolding build_chain tortureu.Float64.to_int tortureu.Float64.mul tortureu.Float64.of_ratio
    tortureu.Float64.of_int tortureu.Float64.div_nat tortureu.Base.Decimal.show
chain = refl

build_chain-is_some_example : is_some (build_chain traces "db:5432") ≡ true
build_chain-is_some_example = build_chain-is_some traces "db:5432"

build_chain-IsMeasured_example : IsMeasured traces "db:5432" db_hop
build_chain-IsMeasured_example = build_chain-IsMeasured traces "db:5432" db_hop (api_hop ∷ []) chain
