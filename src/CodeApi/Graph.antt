-- ===== src/CodeApi/Graph.antt =====
-- The call graph, the impact and the blast radius of layer1/code_api.py.
use live_system_intelligence.Prelude.{
  ℕ, String, Option, none, some, List, [], ◌∷◌, ◌++◌, length, is_empty, nat_beq, ◌==◌, string_eq,
  if◌then◌else◌,
}
use live_system_intelligence.Prelude.Dict.{Dict, values, insert}
use live_system_intelligence.Exec.{Exec, pure, raise, ◌>>=◌}
use live_system_intelligence.Certificate.Json.{Json, num}
use live_system_intelligence.CodeApi.{NodeInfo, CallPath, Affected, Queries, http_exception}

pub record CallGraph : Type 0 where
  pub root : String
  pub depth : ℕ
  pub nodes : List NodeInfo
  pub edges : List (String × String)

pub record Impact : Type 0 where
  pub input_functions : List String
  pub affected_count : ℕ
  pub affected : List Affected

pub record BlastRadius : Type 0 where
  pub functions : List String
  pub calls_24h : ℕ
  pub global_calls_24h : ℕ
  pub blast_radius_pct : Json

unfoldable pub add_nodes : List NodeInfo → Dict String NodeInfo → Dict String NodeInfo
unfolding insert
add_nodes [] d = d
add_nodes (n ∷ nodes) d = add_nodes nodes (insert n.id n d)

-- The nodes of the paths by their IDs; a later one replaces an earlier.
unfoldable pub node_map : List CallPath → Dict String NodeInfo → Dict String NodeInfo
unfolding add_nodes
node_map [] d = d
node_map (row ∷ rows) d = node_map rows (add_nodes row.nodes d)

abbrev pub edges_of : List CallPath → List (String × String)
edges_of [] = []
edges_of (row ∷ rows) = row.edges ++ edges_of rows

abbrev pub present : Option String → Affected → List Affected
present none item = []
present (some id) item = if id == "" then [] else item ∷ []

-- Those that have an ID.
unfoldable pub with_id : List Affected → List Affected
with_id [] = []
with_id (item ∷ items) = present item.id item ++ with_id items

abbrev pub affected_of : List (List Affected) → List Affected
affected_of [] = []
affected_of (row ∷ rows) = with_id row ++ affected_of rows

abbrev pub first_total : List ℕ → ℕ
first_total [] = 0
first_total (n ∷ rows) = n

module _ {W : Type 0} (queries : Queries W) where
  unfoldable pub get_call_graph : String → ℕ → Exec W CallGraph
  unfolding node_map
  get_call_graph function depth = do
    results ← queries.call_paths function depth
    pure (record {
      root = function;
      depth = depth;
      nodes = values (node_map results []);
      edges = queries.set_of (edges_of results);
    })

  abbrev pub impact_of : List String → List (List Affected) → Impact
  impact_of functions results = record {
    input_functions = functions;
    affected_count = length (affected_of results);
    affected = affected_of results;
  }

  unfoldable pub get_impact : List String → Exec W Impact
  unfolding with_id
  get_impact functions =
      if is_empty functions
      then raise (http_exception "functions list must not be empty")
      else (do results ← queries.affected functions; pure (impact_of functions results))

  unfoldable pub get_blast_radius : List String → Exec W BlastRadius
  get_blast_radius functions = do
    results ← queries.total_calls functions
    global_results ← queries.global_calls
    let total = first_total results
    let global_total = first_total global_results
    pure (record {
      functions = functions;
      calls_24h = total;
      global_calls_24h = global_total;
      blast_radius_pct =
          if nat_beq global_total 0 then num 0 else queries.percent total global_total;
    })
