-- ===== src/Tests/Snapshots.antt =====
-- Two rows that repeat a call, for services/brain-graph/src/brain_graph/subgraph.py.
use fraudnet.Prelude.{ℕ, String, Option, none, some, List, [], ◌∷◌, All}
use fraudnet.Schemas.{Primitive, str, int}
use fraudnet.BrainGraph.Rows.{NodeObject, Row, parse_rows}
use fraudnet.BrainGraph.Once.{NodesOnce, EdgesOnce, Connected}
use fraudnet.BrainGraph.Snapshot.{parse_rows-Connected}

abbrev text_of : Primitive → String
text_of (str s) = s
text_of _ = ""

abbrev time_of : Option Primitive → ℕ
time_of (some (int n)) = n
time_of _ = 0

abbrev phone : String → NodeObject
phone n = NodeObject.labelled ("Number" ∷ []) (("msisdn", str n) ∷ [])

abbrev call : Row
call = record {
  n = some (phone "A");
  r = some (record { rel_type = some "CALLED"; properties = ("ts", int 5) ∷ [] });
  m = some (phone "B");
}

abbrev rows : List Row
rows = call ∷ call ∷ record { n = some (phone "C"); r = none; m = none } ∷ []

parse_rows-Connected_example :
    NodesOnce (parse_rows text_of time_of rows).nodes
    × EdgesOnce (parse_rows text_of time_of rows).edges
    × All
        (Connected (parse_rows text_of time_of rows).nodes)
        (parse_rows text_of time_of rows).edges
parse_rows-Connected_example = parse_rows-Connected text_of time_of rows
