-- ===== src/ToolStages.antt =====
-- app/services/tool_dag.py, app/services/tool_side_effect.py and app/services/tool_commit_gate.py:
-- how the tools of a plan are ordered into stages, run, and how their results are committed.
pub mod Safety
pub mod Layers
pub mod Order
pub mod Run
pub mod Parse
pub mod Commit
mod Examples
use text.Mathlib.Text.{starts_with}
use agent_langraph.Prelude.{
  ℕ, zero, suc, String, Bool, true, false, not, ◌&&◌, ◌||◌, Option, none, some, List, [], ◌∷◌, ◌++◌,
  map, ◌==◌, if◌then◌else◌, truthy, or_text, keep, any_of, member, length, leb,
}
use agent_langraph.Prelude.Dict
use agent_langraph.Prelude.Dict.{Dict}

unfoldable pub read_only_tools : List String
read_only_tools =
    "echo" ∷ "calculator" ∷ "get_runtime_info" ∷ "summarize_text" ∷ "ls_path" ∷ "read_file"
    ∷ "grep_file" ∷ "read_text_artifact" ∷ "verify_backend" ∷ "list_task_artifacts" ∷ []

unfoldable pub write_tools : List String
write_tools =
    "write_file" ∷ "append_file" ∷ "move_path" ∷ "copy_path" ∷ "replace_in_file" ∷ "touch_file"
    ∷ "mkdir_path" ∷ "rm_path" ∷ "edit_text_artifact" ∷ "write_text_artifact"
    ∷ "append_text_artifact" ∷ "enqueue_mission_work_item" ∷ "set_mission_work_plan" ∷ []

unfoldable pub tool_is_read_only : String → Bool
unfolding read_only_tools write_tools
tool_is_read_only name =
    if member name write_tools
    then false
    else if member name read_only_tools
    then true
    else starts_with name "read_" || (starts_with name "get_" || starts_with name "list_")

abbrev pub is_empty {ℓ} : {A : Type ℓ} → List A → Bool
is_empty [] = true
is_empty (x ∷ xs) = false

unfoldable pub singletons : List String → List (List String)
singletons [] = []
singletons (t ∷ ts) = (t ∷ []) ∷ singletons ts

-- `stages or default`
abbrev pub or_stages : List (List String) → List (List String) → List (List String)
or_stages [] default = default
or_stages (s ∷ ss) default = s ∷ ss

unfoldable pub partition_stage_by_side_effect : List String → List (List String)
unfolding singletons
partition_stage_by_side_effect tools =
    let reads = keep tool_is_read_only tools in
    let writes = keep (λ t. not (tool_is_read_only t)) tools in
    or_stages ((if is_empty reads then [] else reads ∷ []) ++ singletons writes) (tools ∷ [])

unfoldable pub normalize_stages_for_safe_parallel : List (List String) → List (List String)
unfolding partition_stage_by_side_effect
normalize_stages_for_safe_parallel [] = []
normalize_stages_for_safe_parallel (s ∷ ss) =
    partition_stage_by_side_effect s ++ normalize_stages_for_safe_parallel ss

-- A node of the planner's DAG, and an edge from the first id to the second.
pub record Node : Type 0 where
  pub id : Option String
  pub tool : Option String

unfoldable pub node_id : Node → String
node_id n = or_text n.id (or_text n.tool "")

unfoldable pub node_tool : Node → String
unfolding node_id
node_tool n = or_text n.tool (node_id n)

-- The dictionary `nodes`, already with the tool of each id, which is `id_to_tool`.
unfoldable pub tools_by_id : Dict String → List Node → Dict String
unfolding node_id node_tool
tools_by_id d [] = d
tools_by_id d (n ∷ ns) =
    tools_by_id
      (if truthy (node_tool n)
        then Dict.put (or_text (some (node_id n)) (node_tool n))
            (or_text n.tool (or_text (some (node_id n)) (node_tool n))) d
        else d)
      ns

-- `incoming[nid]`: the sources of the edges into a node whose sources are nodes.
unfoldable pub incoming : Dict String → List (String × String) → String → List String
incoming nodes [] nid = []
incoming nodes ((src, dst) ∷ es) nid =
    let rest = incoming nodes es nid in
    if dst == nid && member src (Dict.keys nodes) then src ∷ rest else rest

unfoldable pub meets : List String → List String → Bool
meets xs ys = any_of (λ x. member x ys) xs

unfoldable pub first_only : List String → List String
first_only [] = []
first_only (x ∷ xs) = x ∷ []

-- One round of `while remaining`: the ids that are ready, or one id where a cycle leaves none.
-- `remaining` is a Python set: the list is one order in which it may be gone through.
unfoldable pub ready_layer : (String → List String) → List String → List String
unfolding meets first_only
ready_layer into remaining =
    let ready = keep (λ nid. not (meets (into nid) remaining)) remaining in
    if is_empty ready then first_only remaining else ready

unfoldable pub subtract : List String → List String → List String
subtract xs ys = keep (λ x. not (member x ys)) xs

-- The rounds, on fuel; `arrange` is the order in which the set of a round is gone through.
abbrev pub prepend {ℓ} : {A : Type ℓ} → A → Option (List A) → Option (List A)
prepend x none = none
prepend x (some xs) = some (x ∷ xs)

unfoldable pub layers :
    ℕ
    → (List String → List String)
    → (String → List String)
    → List String
    → Option (List (List String))
unfolding ready_layer subtract
layers zero arrange into [] = some []
layers zero arrange into (x ∷ xs) = none
layers (suc fuel) arrange into [] = some []
layers (suc fuel) arrange into (x ∷ xs) =
    let remaining = arrange (x ∷ xs) in
    let layer = ready_layer into remaining in
    prepend layer (layers fuel arrange into (subtract remaining layer))

-- The tools of a layer: `[id_to_tool[nid] for nid in ready if id_to_tool.get(nid)]`.
unfoldable pub layer_tools : Dict String → List String → List String
layer_tools tools [] = []
layer_tools tools (nid ∷ ids) =
    let rest = layer_tools tools ids in
    elim (Dict.get nid tools) [ none ↦ rest | some t ↦ if truthy t then t ∷ rest else rest ]

unfoldable pub layer_stages : Dict String → List (List String) → List (List String)
unfolding layer_tools
layer_stages tools [] = []
layer_stages tools (l ∷ ls) =
    let rest = layer_stages tools ls in
    if is_empty (layer_tools tools l) then rest else layer_tools tools l ∷ rest

-- `_stages_from_dag`, with as much fuel as there are nodes; `none` would mean that it ran out.
unfoldable pub stages_from_dag :
    (List String → List String)
    → List Node
    → List (String × String)
    → List String
    → Option (List (List String))
unfolding tools_by_id incoming layers layer_stages singletons
stages_from_dag arrange ns edges selected =
    let tools = tools_by_id [] ns in
    let ids = Dict.keys tools in
    if is_empty ids
    then some (singletons selected)
    else elim (layers (length ids) arrange (incoming tools edges) ids) [
      | none ↦ none
      | some ls ↦ some (or_stages (layer_stages tools ls) (singletons selected))
    ]
