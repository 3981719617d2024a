-- ===== src/BrainGraph/Subgraph.antt =====
-- services/brain-graph/src/brain_graph/subgraph.py, with the indices over edges and the result
-- type of motifs.py. Kinds are the texts of the source's literals.
use fraudnet.Prelude.{ℕ, String, Bool, List, [], ◌∷◌, filter, ltb, ◌&&◌, ◌==◌}
use fraudnet.Prelude.Dict.{Dict}
use fraudnet.Prelude.Members.{sort_by}
use fraudnet.Prelude.Groups.{Groups, group}
use fraudnet.Schemas.{Primitive}

pub record GraphNode : Type 0 where
  pub kind : String
  pub id : String
  pub properties : Dict Primitive

pub record GraphEdge : Type 0 where
  pub kind : String
  pub src_kind : String
  pub src_id : String
  pub dst_kind : String
  pub dst_id : String
  pub ts_ms : ℕ
  pub properties : Dict Primitive

pub record Subgraph : Type 0 where
  pub nodes : List GraphNode
  pub edges : List GraphEdge

abbrev pub edges_of : Subgraph → String → List GraphEdge
edges_of sg kind = filter (λ e. e.kind == kind) sg.edges

-- The confidence is in hundredths.
pub record MotifMatch : Type 0 where
  pub motif : String
  pub members : List (String × String)
  pub confidence : ℕ
  pub evidence : Dict Primitive

-- `lst.sort(key=lambda e: e.ts_ms)`
abbrev pub sort_by_ts : List GraphEdge → List GraphEdge
sort_by_ts = sort_by (λ y x. ltb y.ts_ms x.ts_ms)

-- `for lst in out.values(): lst.sort(...)`
abbrev pub sort_groups : {K : Type 0} → Groups K GraphEdge → Groups K GraphEdge
sort_groups [] = []
sort_groups ((k, es) ∷ d) = (k, sort_by_ts es) ∷ sort_groups d

abbrev pub Endpoints : Type 0
Endpoints = String × String

abbrev pub same_endpoints : Endpoints → Endpoints → Bool
same_endpoints j k = j.0 == k.0 && j.1 == k.1

abbrev pub endpoints : GraphEdge → Endpoints
endpoints e = (e.src_id, e.dst_id)

-- `_by_endpoints`
unfoldable pub by_endpoints : List GraphEdge → Groups Endpoints GraphEdge
by_endpoints es = sort_groups (group same_endpoints endpoints (λ e. e) es [])

abbrev pub joins : String → String → GraphEdge → Bool
joins src_kind dst_kind e = e.src_kind == src_kind && e.dst_kind == dst_kind

-- `_outgoing_dst_ids`
unfoldable pub outgoing_dst_ids : List GraphEdge → String → String → Groups String String
outgoing_dst_ids es src_kind dst_kind =
    group ◌==◌ (λ e. e.src_id) (λ e. e.dst_id) (filter (joins src_kind dst_kind) es) []

-- `_outgoing_edges`
unfoldable pub outgoing_edges : List GraphEdge → String → String → Groups String GraphEdge
outgoing_edges es src_kind dst_kind =
    sort_groups (group ◌==◌ (λ e. e.src_id) (λ e. e) (filter (joins src_kind dst_kind) es) [])
