-- ===== src/ToolStages/Examples.antt =====
-- A plan whose nodes wait for one another, its stages, and the commit of what they gave.
use agent_langraph.Prelude.{
  ℕ, ◌<◌, String, ◌≡◌, refl, true, false, none, some, Option, List, [], ◌∷◌, All, any_of, member,
  length, arith, Bool-cases, inl, inr, eq_iff, sym, ◌∙◌, ◌==◌, if◌then◌else◌,
}
use agent_langraph.Prelude.Dict
use agent_langraph.Prelude.Dict.{Dict}
use agent_langraph.ToolStages.{
  Node, tool_is_read_only, normalize_stages_for_safe_parallel, incoming, layers, stages_from_dag,
}
use agent_langraph.ToolStages.Safety.{normalize_stages-IsSafe, IsSafe, stage_calls}
use agent_langraph.ToolStages.Layers.{layers_total, IsOrder}
use agent_langraph.ToolStages.Parse.{several, Payload}
use agent_langraph.ToolStages.Order.{layers_topological, Ordered}
use agent_langraph.ToolStages.Run.{Answer, dict_row, exception}
use agent_langraph.ToolStages.Commit.{
  Observation, State, merge_observations_to_tool_results, filter_tool_observations_for_commit,
  is_halted,
}
use agent_langraph.ToolStages.Commit.Last.{merge_commits_last, of_tool, last_of, IsCurrent}

abbrev stage : List (List String)
stage = ("read_file" ∷ "write_file" ∷ "grep_file" ∷ "rm_path" ∷ []) ∷ []

normalized :
    normalize_stages_for_safe_parallel stage
    ≡ (("read_file" ∷ "grep_file" ∷ []) ∷ ("write_file" ∷ []) ∷ ("rm_path" ∷ []) ∷ [])
unfolding normalize_stages_for_safe_parallel tool_is_read_only
normalized = refl

normalize_stages-IsSafe_example :
    All IsSafe (normalize_stages_for_safe_parallel stage)
    × (stage_calls "rm_path" (normalize_stages_for_safe_parallel stage)
        ≡ stage_calls "rm_path" stage)
normalize_stages-IsSafe_example = normalize_stages-IsSafe stage "rm_path"

abbrev as_given : List String → List String
as_given xs = xs

as_given-IsOrder : IsOrder as_given
as_given-IsOrder = record { same = λ x xs. refl; size = λ xs. refl }

abbrev nodes : List Node
nodes =
    record { id = some "b"; tool = some "write_file" }
    ∷ record { id = some "a"; tool = some "read_file" }
    ∷ record { id = none; tool = some "grep_file" }
    ∷ []

abbrev edges : List (String × String)
edges = ("a", "b") ∷ ("x", "a") ∷ []

staged :
    stages_from_dag as_given nodes edges []
    ≡ some (("read_file" ∷ "grep_file" ∷ []) ∷ ("write_file" ∷ []) ∷ [])
unfolding stages_from_dag Dict.get Dict.put Dict.keys
staged = refl

abbrev tools : Dict String
tools = ("b", "write_file") ∷ ("a", "read_file") ∷ []

-- Two nodes that wait for each other are put out one by one.
layers_total_example :
    (ls : List (List String)) × (layers 2 as_given
        (incoming tools (("a", "b") ∷ ("b", "a") ∷ []))
        ("a" ∷ "b" ∷ [])
      ≡ some ls)
    × ((z : String) → member z ("a" ∷ "b" ∷ []) ≡ true → any_of (member z) ls ≡ true)
layers_total_example =
    layers_total (incoming tools (("a", "b") ∷ ("b", "a") ∷ [])) as_given as_given-IsOrder 2
      ("a" ∷ "b" ∷ []) (omega arith)

abbrev cyclic : Payload
cyclic = record {
  tool_stages = some (several ("" ∷ []) ∷ []);
  tool_dag = some (record { nodes = nodes; edges = ("a", "b") ∷ ("b", "a") ∷ [] });
}

abbrev rank : String → ℕ
rank t = if t == "b" then 1 else 0

incoming_rises :
    (nid s : String) → member s (incoming tools (("a", "b") ∷ []) nid) ≡ true → rank s < rank nid
unfolding incoming Dict.keys
incoming_rises nid s = elim (Bool-cases ("b" == nid)) [
  | inl q ↦ rw (← (eq_iff "b" nid).0 q) (λ h. a_below s h)
  | inr q ↦ rw q (λ h. cc h)
]
  where
    a_below : (s : String) → member s ("a" ∷ []) ≡ true → rank s < 1
    a_below s h = elim (Bool-cases (s == "a")) [
      | inl q ↦ rw ((eq_iff s "a").0 q) (omega arith)
      | inr q ↦ let k : member s ("a" ∷ []) ≡ false = rw q in cc (sym k ∙ h)
    ]

abbrev found : List (List String)
found = ("a" ∷ []) ∷ ("b" ∷ []) ∷ []

layered :
    layers (length (Dict.keys tools)) as_given (incoming tools (("a", "b") ∷ [])) (Dict.keys tools)
    ≡ some found
unfolding layers incoming Dict.keys
layered = refl

layers_topological_example : Ordered (incoming tools (("a", "b") ∷ [])) [] found
layers_topological_example =
    layers_topological as_given tools (("a", "b") ∷ []) rank found as_given-IsOrder incoming_rises
      layered

abbrev invoke : String → Answer ℕ
invoke t = if t == "rm_path" then exception "denied" else dict_row 7

abbrev observed : Option String → ℕ → ℕ → Observation
observed tool version payload = record {
  tool = tool;
  execution_version = some version;
  foreground_epoch = none;
  payload = payload;
}

abbrev state : State
state = record {
  execution_version = some 4;
  foreground_epoch = 1;
  runtime_state = some "RUNNING";
  tool_results = observed (some "grep_file") 3 0 ∷ observed (some "read_file") 3 1 ∷ [];
}

abbrev rows : List Observation
rows =
    observed (some "read_file") 4 2
    ∷ observed (some "read_file") 4 3
    ∷ observed (some "grep_file") 3 4
    ∷ observed none 4 5
    ∷ []

merged :
    merge_observations_to_tool_results state rows
    ≡ (observed (some "grep_file") 3 0 ∷ observed (some "read_file") 4 3 ∷ [])
unfolding merge_observations_to_tool_results
merged = refl

merge_commits_last_example :
    (of_tool "read_file" (merge_observations_to_tool_results state rows)
      ≡ last_of "read_file"
          (filter_tool_observations_for_commit state rows)
          (of_tool "read_file" state.tool_results))
    × All (IsCurrent state) (filter_tool_observations_for_commit state rows)
    × (is_halted state ≡ true → merge_observations_to_tool_results state rows ≡ state.tool_results)
merge_commits_last_example = merge_commits_last state rows "read_file"
