-- ===== src/ToolStages/Run.antt =====
-- `execute_tool_stages`: each stage in order, a stage of several reading tools on a pool of threads.
use agent_langraph.Prelude.{
  ℕ, suc, ◌+◌, String, ◌≡◌, refl, ◌∙◌, Bool, not, ◌&&◌, ◌||◌, List, [], ◌∷◌, ◌++◌, arith, ◌==◌,
  if◌then◌else◌, length, ltb, eqb, Option,
}
use agent_langraph.ToolStages.Safety.{all_read_only, stage_calls, calls}

-- What a tool's call gives: a dict, something that is no dict, or an exception with its text.
pub data Answer (R : Type 0) : Type 0 where
  dict_row : R → Answer R
  other_row : R → Answer R
  exception : String → Answer R

-- A row of the results; `version` is the stamp that the run puts on it.
pub data ResultRow (R : Type 0) : Type 0 where
  stamped : String → R → Option ℕ → ResultRow R
  plain : String → R → ResultRow R
  error_outcome : String → String → Option ℕ → ResultRow R

abbrev pub tool_of : {R : Type 0} → ResultRow R → String
tool_of (stamped t r v) = t
tool_of (plain t r) = t
tool_of (error_outcome t e v) = t

module _ {R : Type 0} where
  unfoldable pub row_of : Option ℕ → String → Answer R → ResultRow R
  row_of version t (dict_row r) = stamped t r version
  row_of version t (other_row r) = plain t r
  row_of version t (exception e) = error_outcome t e version

  module _ (invoke : String → Answer R) (version : Option ℕ) where
    unfoldable pub run_in_turn : List String → List (ResultRow R)
    unfolding row_of
    run_in_turn [] = []
    run_in_turn (t ∷ ts) = row_of version t (invoke t) ∷ run_in_turn ts

    unfoldable pub runs_parallel : List String → Bool
    runs_parallel tools = ltb 1 (length tools) && all_read_only tools

    -- `completed` is the order in which the futures of a pool come to an end.
    unfoldable pub run_stage : (List String → List String) → List String → List (ResultRow R)
    unfolding run_in_turn runs_parallel
    run_stage completed tools =
        if eqb (length tools) 1 || not (runs_parallel tools)
        then run_in_turn tools
        else run_in_turn (completed tools)

    unfoldable pub execute_tool_stages :
        (List String → List String) → List (List String) → List (ResultRow R) → List (ResultRow R)
    unfolding run_stage
    execute_tool_stages completed [] results = results
    execute_tool_stages completed (s ∷ ss) results =
        execute_tool_stages completed ss (results ++ run_stage completed s)

-- How often a tool stands in the rows.
abbrev pub rows_of : {R : Type 0} → String → List (ResultRow R) → ℕ
rows_of t [] = 0
rows_of t (r ∷ rs) = let rest = rows_of t rs in if tool_of r == t then suc rest else rest

module _ {R : Type 0} where
  rows_of-append :
      (t : String) (xs ys : List (ResultRow R)) → rows_of t (xs ++ ys) ≡ rows_of t xs + rows_of t ys
  rows_of-append t [] ys = omega arith
  rows_of-append t (x ∷ xs) ys = ground (arith, rows_of-append t xs ys)

  module _ (invoke : String → Answer R) (version : Option ℕ) where
    tool_of-row_of : (u : String) (a : Answer R) → tool_of (row_of version u a) ≡ u
    unfolding row_of
    tool_of-row_of u (dict_row r) = refl
    tool_of-row_of u (other_row r) = refl
    tool_of-row_of u (exception e) = refl

    rows_of-run_in_turn :
        (t : String) (ts : List String) → rows_of t (run_in_turn invoke version ts) ≡ calls t ts
    unfolding run_in_turn
    rows_of-run_in_turn t [] = refl
    rows_of-run_in_turn t (u ∷ us) =
        rw (tool_of-row_of u (invoke u)) (ground (arith, rows_of-run_in_turn t us))

    -- Each call of each tool gives one row, whether it answers or raises, and in whatever order the
    -- threads of a stage end.
    pub execute_tool_stages_complete :
        (completed : List String → List String)
        → ((t : String) (ts : List String) → calls t (completed ts) ≡ calls t ts)
        → (ss : List (List String)) (results : List (ResultRow R)) (t : String)
        → rows_of t (execute_tool_stages invoke version completed ss results)
          ≡ rows_of t results + stage_calls t ss
    unfolding execute_tool_stages
    execute_tool_stages_complete completed same [] results t = omega arith
    execute_tool_stages_complete completed same (s ∷ ss) results t =
        let now : rows_of t (run_stage invoke version completed s) ≡ calls t s =
          ground (arith, rows_of-run_in_turn t s, rows_of-run_in_turn t (completed s), same t s) in
        execute_tool_stages_complete completed same ss
          (results ++ run_stage invoke version completed s) t
        ∙ omega (arith, rows_of-append t results (run_stage invoke version completed s))
