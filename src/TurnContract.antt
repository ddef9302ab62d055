-- ===== src/TurnContract.antt =====
-- app/services/turn_contract.py: which tools a turn must run, and whether it did; the guard of
-- app/services/turn_guard.py that asks it is in Guard. A text that the code reads by
-- `str(d.get(k) or "")` is "" where it is missing.
pub mod Build
pub mod Honour
pub mod Guard
mod Examples
use agent_langraph.Prelude.{
  ℕ, String, Bool, true, false, not, ◌&&◌, ◌||◌, Option, none, some, List, [], ◌∷◌, ◌++◌, map, ◌==◌,
  if◌then◌else◌, truthy, or_text, keep, member,
}
use agent_langraph.TaskAgenda.{is_empty, head?}

-- `_SIDE_EFFECT_OPS`, `_NO_SIDE_EFFECT_OPS`
abbrev pub side_effect_ops : List String
side_effect_ops = "write_artifact" ∷ "edit_artifact" ∷ "run_tool" ∷ "run_code" ∷ []

abbrev pub no_side_effect_ops : List String
no_side_effect_ops =
    "" ∷ "answer" ∷ "retrieve" ∷ "read_artifact" ∷ "reasoning" ∷ "explain_only" ∷ []

-- `_PRIMARY_OP_TOOL.get(op, "")`
unfoldable pub primary_op_tool : String → String
primary_op_tool op =
    if op == "read_artifact"
    then "read_text_artifact"
    else if op == "write_artifact"
    then "write_text_artifact"
    else if op == "edit_artifact"
    then "edit_text_artifact"
    else ""

-- An entry of `ops`: a dict with the stripped text of its tool, or something else.
pub data Op : Type 0 where
  op : String → Op
  not_dict : Op

pub record Contract : Type 0 where
  pub primary_op : String
  pub ops : List Op
  pub tools : List String

-- An action of a plan: its type, and the name among its parameters.
pub record Action : Type 0 where
  pub kind : String
  pub name : String

-- The keys of the payload that are read; a contract that is no dict is none, and an entry of the
-- actions that is neither a dict nor an action is none.
pub record Payload : Type 0 where
  pub turn_contract : Option Contract
  pub selected_tools : List String
  pub planned_actions : List (Option Action)

unfoldable pub contract_of : Option Contract → Option Contract
contract_of none = none
contract_of (some c) = if truthy c.primary_op then some c else none

unfoldable pub contract_from_payload : Payload → Option Contract
unfolding contract_of
contract_from_payload p = contract_of p.turn_contract

-- A loop that appends what is not empty and not there yet.
unfoldable pub add_new : List String → List String → List String
add_new out [] = out
add_new out (t ∷ ts) = add_new (if truthy t && not (member t out) then out ++ (t ∷ []) else out) ts

abbrev pub op_tools : List Op → List String
op_tools [] = []
op_tools (op t ∷ os) = t ∷ op_tools os
op_tools (not_dict ∷ os) = op_tools os

unfoldable pub tools_of : Contract → List String
unfolding add_new
tools_of c = if is_empty c.tools then add_new [] (op_tools c.ops) else c.tools

unfoldable pub contract_tool_names : Payload → List String
unfolding contract_from_payload tools_of
contract_tool_names p = elim (contract_from_payload p) [
  | none ↦ p.selected_tools
  | some c ↦ tools_of c
]

abbrev pub dict_actions : List (Option Action) → List Action
dict_actions [] = []
dict_actions (none ∷ acts) = dict_actions acts
dict_actions (some a ∷ acts) = a ∷ dict_actions acts

-- The actions that are given, else those of the result, else those of the payload; `none` is a value
-- that is no list.
unfoldable pub normalized_actions :
    Option (List (Option Action))
    → Option (List (Option Action))
    → List (Option Action)
    → List Action
normalized_actions none none planned = dict_actions planned
normalized_actions none (some []) planned = dict_actions planned
normalized_actions none (some (a ∷ acts)) planned = dict_actions (a ∷ acts)
normalized_actions (some []) result planned = dict_actions planned
normalized_actions (some (a ∷ acts)) result planned = dict_actions (a ∷ acts)

abbrev pub is_side_effect : String → Bool
is_side_effect kind = member kind side_effect_ops

unfoldable pub primary_of : List String → String
primary_of kinds = elim (head? (keep is_side_effect kinds)) [
  | some k ↦ k
  | none ↦ if member "answer" kinds || is_empty kinds then "answer" else or_text (head? kinds) ""
]

unfoldable pub action_tool : Action → String
unfolding primary_op_tool
action_tool a = if a.kind == "run_tool" then a.name else primary_op_tool a.kind

-- The contract that the actions come to.
unfoldable pub contract_of_actions : List Action → Contract
unfolding primary_of action_tool add_new
contract_of_actions acts = record {
  primary_op = primary_of (map (λ a. a.kind) acts);
  ops = map (λ a. op "") acts;
  tools = add_new [] (map action_tool acts);
}

unfoldable pub build_turn_contract :
    Option Contract
    → Option (List (Option Action))
    → Option (List (Option Action))
    → Payload
    → Contract
unfolding contract_of contract_of_actions normalized_actions
build_turn_contract block actions result_actions p = elim (contract_of block) [
  | some c ↦ c
  | none ↦ contract_of_actions (normalized_actions actions result_actions p.planned_actions)
]

unfoldable pub requires : Contract → Bool
unfolding tools_of
requires c =
    if member c.primary_op side_effect_ops
    then true
    else if member c.primary_op no_side_effect_ops
    then false
    else if not (is_empty (tools_of c))
    then true
    else not (is_empty c.ops)

unfoldable pub contract_requires_side_effects : Payload → Bool
unfolding contract_from_payload requires
contract_requires_side_effects p = elim (contract_from_payload p) [
  | none ↦ false
  | some c ↦ requires c
]

-- What the turn did: the tools of `build_turn_facts`, whether it lists executed actions, the flags of
-- `turn_facts` where they are there, and `write_unchanged_after_read`.
pub record Facts : Type 0 where
  pub tools_executed : List String
  pub executed_actions : Bool
  pub edit_applied : Option Bool
  pub write_verified : Option Bool
  pub write_unchanged : Bool

pub data Issue : Type 0 where
  tool_missing : String → Issue
  primary_op_unfulfilled : String → Issue
  edit_not_applied : Issue
  write_not_changed : Issue

unfoldable pub missing_tools : List String → List String → List Issue
missing_tools executed [] = []
missing_tools executed (t ∷ ts) =
    let rest = missing_tools executed ts in
    if member t executed then rest else tool_missing t ∷ rest

-- `is False`
abbrev pub is_false : Option Bool → Bool
is_false none = false
is_false (some b) = not b

unfoldable pub contract_issues : Contract → Facts → List Issue
unfolding missing_tools primary_op_tool
contract_issues c f =
    let needed = primary_op_tool c.primary_op in
    missing_tools f.tools_executed (tools_of c)
    ++ ((if truthy needed && not (member needed f.tools_executed)
          then primary_op_unfulfilled c.primary_op ∷ []
          else [])
        ++ ((if c.primary_op == "edit_artifact" && is_false f.edit_applied
              then edit_not_applied ∷ []
              else [])
            ++ (if c.primary_op == "write_artifact"
                  && (is_false f.write_verified || f.write_unchanged)
                then write_not_changed ∷ []
                else [])))

unfoldable pub validate_turn_contract_execution : Payload → Facts → List Issue
unfolding contract_from_payload contract_issues
validate_turn_contract_execution p f = elim (contract_from_payload p) [
  | none ↦ []
  | some c ↦ contract_issues c f
]

unfoldable pub is_turn_contract_fulfilled : Payload → Facts → Bool
unfolding contract_requires_side_effects validate_turn_contract_execution
is_turn_contract_fulfilled p f =
    if not (contract_requires_side_effects p)
    then true
    else is_empty (validate_turn_contract_execution p f)
