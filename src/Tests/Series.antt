-- ===== src/Tests/Series.antt =====
-- A series of recorded runs.
use tortureu.Base.{String, List, [], ◌∷◌, ◌≡◌, pos}
use tortureu.Trend.{Record, Row, Filter, Store, report}
use tortureu.Trend.Baseline.{report-rows}
use tortureu.Trend.Baseline.Loop.{AreRows, AreLast}

abbrev earlier : List String
earlier = "p95 < 500" ∷ "errors < 1%" ∷ []

abbrev later : List String
later = "orders are whole" ∷ "errors < 1%" ∷ []

abbrev run_of : String → String → List String → Record
run_of commit status findings = record {
  v = pos 1;
  run_id = "r";
  scenario = "checkout";
  commit = commit;
  status = status;
  exit_code = pos 0;
  started_at = "";
  duration_s = pos 60;
  metrics = [];
  findings = findings;
}

abbrev store : Store
store = record {
  path = ".tortureu/trend.jsonl";
  records =
      run_of "a1" "fail" earlier
      ∷ run_of "" "pass" []
      ∷ run_of "b2" "error" []
      ∷ run_of "c3" "fail" later
      ∷ [];
  skipped = [];
}

abbrev last_two : Filter
last_two = record { scenario = "checkout"; metric = ""; last = pos 2 }

-- the last run is compared with the first
report-rows_example :
    (rows : List Row) × AreRows last_two [] store.records rows
    × AreLast (pos 2) rows (report store last_two).rows
    × ((report store last_two).unanchored ≡ 1)
report-rows_example = report-rows store last_two
