-- ===== src/ToolStages/Commit.antt =====
-- app/services/tool_commit_gate.py: which observations of tools become results.
pub mod Last
use agent_langraph.Prelude.{
  ℕ, String, ◌≡◌, refl, ap, sym, ◌∙◌, inl, inr, Bool, true, false, not, ◌&&◌, ◌||◌, Bool-cases,
  List, [], ◌∷◌, ◌++◌, arith, ◌==◌, eq_iff, if◌then◌else◌, ltb, eqb, Option, some, none, All, keep,
  keep-append, truthy, or_text, member, ||_false,
}

-- The keys of an observation that the gate reads; `payload` stands for the others.
pub record Observation : Type 0 where
  pub tool : Option String
  pub execution_version : Option ℕ
  pub foreground_epoch : Option ℕ
  pub payload : ℕ

-- What the gate reads of the state: `get_foreground_epoch` is never below 0.
pub record State : Type 0 where
  pub execution_version : Option ℕ
  pub foreground_epoch : ℕ
  pub runtime_state : Option String
  pub tool_results : List Observation

unfoldable pub version_matches : Option ℕ → Option ℕ → Bool
version_matches none v = true
version_matches (some e) none = true
version_matches (some e) (some v) = eqb v e

unfoldable pub epoch_current : Option ℕ → ℕ → Bool
epoch_current none e = true
epoch_current (some r) e = not (ltb r e)

unfoldable pub is_halted : State → Bool
is_halted s = or_text s.runtime_state "" == "INTERRUPTED" || or_text s.runtime_state "" == "ABORTED"

unfoldable pub filter_tool_observations_for_commit : State → List Observation → List Observation
unfolding version_matches epoch_current is_halted
filter_tool_observations_for_commit s rows =
    if is_halted s
    then []
    else keep
        (λ r.
          version_matches s.execution_version r.execution_version
          && epoch_current r.foreground_epoch s.foreground_epoch)
        rows

-- `str(row.get("tool") or "")` and `str(r.get("tool"))`
abbrev pub tool_or_empty : Observation → String
tool_or_empty r = or_text r.tool ""

abbrev pub tool_text : Observation → String
tool_text r = elim r.tool [ none ↦ "None" | some t ↦ t ]

unfoldable pub tool_names : List Observation → List String
tool_names [] = []
tool_names (r ∷ rs) = tool_text r ∷ tool_names rs

-- The loop over the observations that passed; `names` is a set.
unfoldable pub merge_loop : List Observation → List String → List Observation → List Observation
merge_loop [] names merged = merged
merge_loop (r ∷ rs) names merged =
    merge_loop rs
      (if truthy (tool_or_empty r) && not (member (tool_or_empty r) names)
        then tool_or_empty r ∷ names
        else names)
      (if truthy (tool_or_empty r)
        then (if member (tool_or_empty r) names
            then keep (λ m. not (tool_text m == tool_or_empty r)) merged ++ (r ∷ [])
            else merged ++ (r ∷ []))
        else merged)

unfoldable pub merge_observations_to_tool_results : State → List Observation → List Observation
unfolding filter_tool_observations_for_commit tool_names merge_loop
merge_observations_to_tool_results s observations =
    merge_loop (filter_tool_observations_for_commit s observations) (tool_names s.tool_results)
      s.tool_results
