-- ===== src/Neo4j.antt =====
-- layer1/neo4j_client.py: the queries and the parameters of `upsert_node` and
-- `upsert_relationship`. `run_query`, over the
-- driver, is a parameter; it retries by `with_retry`.
use live_system_intelligence.Prelude.{
  String, ◌<>◌, none, List, [], ◌∷◌, map, if◌then◌else◌, ◌==◌, ==_iff, string_eq, ◌≡◌, refl, arith,
}
use live_system_intelligence.Prelude.Dict.{Dict, keys, lookup, insert, update, lookup-insert}
use live_system_intelligence.Exec.{Exec}
use live_system_intelligence.Certificate.Narrative.{join}

module _ {V : Type 0} where
  -- `{**id_props, **extra_props}`
  unfoldable pub upsert_params : Dict String V → Dict String V → Dict String V
  unfolding update
  upsert_params id_props extra_props = update id_props extra_props

  unfoldable pub upsert_cypher : String → Dict String V → Dict String V → String
  unfolding join
  upsert_cypher label id_props extra_props =
      let prop_set = join ", " (map (λ k. "n." <> k <> " = $" <> k) (keys extra_props)) in
      "\n        MERGE (n:"
      <> label
      <> " {"
      <> join ", " (map (λ k. k <> ": $" <> k) (keys id_props))
      <> "})\n        "
      <> (if prop_set == "" then "" else "SET " <> prop_set)
      <> "\n    "

  unfoldable pub upsert_node :
      {W : Type 0}
      → (String → Dict String V → Exec W Unit)
      → String
      → Dict String V
      → Dict String V
      → Exec W Unit
  unfolding upsert_params upsert_cypher
  upsert_node run_query label id_props extra_props =
      run_query (upsert_cypher label id_props extra_props) (upsert_params id_props extra_props)

  -- `{f"{prefix}_{k}": v for k, v in d.items()}`
  abbrev pub prefixed : String → Dict String V → Dict String V
  prefixed prefix = map (λ e. (prefix <> "_" <> e.0, e.1))

  unfoldable pub relationship_params : Dict String V → Dict String V → Dict String V → Dict String V
  unfolding update
  relationship_params src_id rel_props dst_id =
      update (update (prefixed "src" src_id) (prefixed "dst" dst_id)) (prefixed "rel" rel_props)

  abbrev pub tests_of : String → String → Dict String V → List String
  tests_of node prefix d = map (λ k. node <> "." <> k <> " = $" <> prefix <> "_" <> k) (keys d)

  unfoldable pub relationship_cypher :
      String → Dict String V → String → Dict String V → String → Dict String V → String
  unfolding join
  relationship_cypher src_label src_id rel_type rel_props dst_label dst_id =
      let rel_set = join ", " (tests_of "r" "rel" rel_props) in
      "\n        MATCH (a:"
      <> src_label
      <> ") WHERE "
      <> join " AND " (tests_of "a" "src" src_id)
      <> "\n        MATCH (b:"
      <> dst_label
      <> ") WHERE "
      <> join " AND " (tests_of "b" "dst" dst_id)
      <> "\n        MERGE (a)-[r:"
      <> rel_type
      <> "]->(b)\n        "
      <> (if rel_set == "" then "" else "SET " <> rel_set)
      <> "\n    "

  unfoldable pub upsert_relationship :
      {W : Type 0}
      → (String → Dict String V → Exec W Unit)
      → String
      → Dict String V
      → String
      → Dict String V
      → String
      → Dict String V
      → Exec W Unit
  unfolding relationship_params relationship_cypher
  upsert_relationship run_query src_label src_id rel_type rel_props dst_label dst_id =
      run_query (relationship_cypher src_label src_id rel_type rel_props dst_label dst_id)
        (relationship_params src_id rel_props dst_id)

  -- The node is looked up by its own key unless a property to be set has that key's name.
  pub lookup-upsert_params :
      (k : String) (id_props extra_props : Dict String V)
      → lookup k extra_props ≡ none
      → lookup k (upsert_params id_props extra_props) ≡ lookup k id_props
  unfolding upsert_params update lookup
  lookup-upsert_params k id_props [] new = refl
  lookup-upsert_params k id_props ((j, v) ∷ extra) new = ground (
    arith,
    lookup-upsert_params k (insert j v id_props) extra,
    lookup-insert k j v id_props,
    ==_iff k j,
  )
