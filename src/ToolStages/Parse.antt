-- ===== src/ToolStages/Parse.antt =====
-- `parse_tool_stages` of app/services/tool_dag.py: the stages of a turn, from the payload, from the
-- DAG of the planner, or one for each selected tool.
use agent_langraph.Prelude.{
  String, ◌≡◌, refl, inl, inr, Bool-cases, Option, none, some, List, [], ◌∷◌, arith, if◌then◌else◌,
  truthy, keep, length, All,
}
use agent_langraph.Prelude.Dict
use agent_langraph.ToolStages.{
  Node, is_empty, singletons, or_stages, normalize_stages_for_safe_parallel, layer_stages, incoming,
  tools_by_id, stages_from_dag,
}
use agent_langraph.ToolStages.Safety.{IsSafe, normalize_stages-IsSafe, singletons-IsSafe}
use agent_langraph.ToolStages.Layers.{IsOrder, layers_total}

-- An entry of `tool_stages`: a list, or anything else, by the texts that `str` gives for it.
pub data StageEntry : Type 0 where
  several : List String → StageEntry
  single : String → StageEntry

pub record Dag : Type 0 where
  pub nodes : List Node
  pub edges : List (String × String)

-- `tool_stages` if it is a list, and `tool_dag` if it is a dict.
pub record Payload : Type 0 where
  pub tool_stages : Option (List StageEntry)
  pub tool_dag : Option Dag

unfoldable pub entry_names : StageEntry → List String
entry_names (several ts) = keep truthy ts
entry_names (single t) = t ∷ []

unfoldable pub listed_stages : List StageEntry → List (List String)
unfolding entry_names
listed_stages [] = []
listed_stages (e ∷ es) =
    let rest = listed_stages es in if is_empty (entry_names e) then rest else entry_names e ∷ rest

unfoldable pub stages_or_singletons : Option (List (List String)) → Option (List (List String))
stages_or_singletons none = none
stages_or_singletons (some ss) = some (normalize_stages_for_safe_parallel ss)

-- The second and the third source of stages.
unfoldable pub dag_stages :
    (List String → List String) → Option Dag → List String → Option (List (List String))
unfolding stages_or_singletons
dag_stages arrange none selected = some (singletons selected)
dag_stages arrange (some dag) selected =
    if is_empty dag.nodes
    then some (singletons selected)
    else stages_or_singletons (stages_from_dag arrange dag.nodes dag.edges selected)

unfoldable pub parse_tool_stages :
    (List String → List String) → Payload → List String → Option (List (List String))
unfolding listed_stages dag_stages
parse_tool_stages arrange payload selected = elim payload.tool_stages [
  | none ↦ dag_stages arrange payload.tool_dag selected
  | some raw ↦
      if is_empty (listed_stages raw)
      then dag_stages arrange payload.tool_dag selected
      else some (normalize_stages_for_safe_parallel (listed_stages raw))
]

module _ (arrange : List String → List String) (order : IsOrder arrange) where
  stages_from_dag_total :
      (ns : List Node) (es : List (String × String)) (selected : List String)
      → (ss : List (List String)) × (stages_from_dag arrange ns es selected ≡ some ss)
  unfolding stages_from_dag
  stages_from_dag_total ns es selected =
      let tools = tools_by_id [] ns in
      elim (Bool-cases (is_empty (Dict.keys tools))) [
        | inl e ↦ (singletons selected, rw e refl)
        | inr e ↦
            let found =
              layers_total (incoming tools es) arrange order (length (Dict.keys tools))
                (Dict.keys tools) (omega arith) in
            (or_stages (layer_stages tools found.0) (singletons selected), rw (e, found.1) refl)
      ]

  dag_stages-IsSafe :
      (dag : Option Dag) (selected : List String)
      → (ss : List (List String)) × (dag_stages arrange dag selected ≡ some ss) × All IsSafe ss
  unfolding dag_stages
  dag_stages-IsSafe none selected = (singletons selected, refl, singletons-IsSafe selected)
  dag_stages-IsSafe (some dag) selected = elim (Bool-cases (is_empty dag.nodes)) [
    | inl e ↦ (singletons selected, rw e refl, singletons-IsSafe selected)
    | inr e ↦
        let found = stages_from_dag_total dag.nodes dag.edges selected in
        (
          normalize_stages_for_safe_parallel found.0,
          rw (e, found.1) refl,
          (normalize_stages-IsSafe found.0 "").0,
        )
  ]

  -- The stages of a turn are found whatever the payload holds, cyclic graphs and empty lists
  -- included, and each of them is safe to run on several threads.
  pub parse_tool_stages-IsSafe :
      (payload : Payload) (selected : List String)
      → (ss : List (List String)) × (parse_tool_stages arrange payload selected ≡ some ss)
        × All IsSafe ss
  unfolding parse_tool_stages
  parse_tool_stages-IsSafe payload selected = by_source payload.tool_stages
    where
      by_source :
          (raw : Option (List StageEntry))
          → (ss : List (List String)) × (parse_tool_stages arrange
                (record { tool_stages = raw; tool_dag = payload.tool_dag })
                selected
              ≡ some ss)
            × All IsSafe ss
      by_source none = dag_stages-IsSafe payload.tool_dag selected
      by_source (some raw) = elim (Bool-cases (is_empty (listed_stages raw))) [
        | inl e ↦ rw e (dag_stages-IsSafe payload.tool_dag selected)
        | inr e ↦ (
          normalize_stages_for_safe_parallel (listed_stages raw),
          rw e refl,
          (normalize_stages-IsSafe (listed_stages raw) "").0,
        )
      ]
