-- ===== src/TaskAgenda/Replan.antt =====
-- `local_replan_slice` of app/services/task_agenda.py: what failed, and what hangs on it, is pending again.
pub mod Least
use agent_langraph.Prelude.{
  ℕ, zero, suc, String, Bool, true, false, not, ◌&&◌, Option, none, List, [], ◌∷◌, if◌then◌else◌,
  member, any_of, length,
}
use agent_langraph.TaskAgenda.{
  Item, Plan, id_or_empty, status_text, dict_rows, ensure_agenda_fields, raw_deps, set_item_status,
}

-- Whether the item depends on one of these ids, and may be reset.
unfoldable pub hangs_on : List String → Item → Bool
hangs_on ids i =
    any_of (λ d. member d ids) (raw_deps i.depends_on)
    && member (status_text i) ("blocked" ∷ "failed" ∷ "pending" ∷ [])

abbrev pub joins : List String → Item → Bool
joins ids i = not (member (id_or_empty i) ids) && hangs_on ids i

-- The loop of `_collect_blocked`, given what it calls on itself.
unfoldable pub scan : (List String → List String) → List Item → List String → List String
unfolding hangs_on
scan again [] ids = ids
scan again (i ∷ is) ids = scan again is (if joins ids i then again (id_or_empty i ∷ ids) else ids)

-- `_collect_blocked`, which does not look at its argument.
unfoldable pub collect_blocked : ℕ → List Item → List String → List String
unfolding scan
collect_blocked zero is ids = ids
collect_blocked (suc n) is ids = scan (collect_blocked n is) is ids

-- `reset_ids`: the calls are nested no deeper than there are rows.
unfoldable pub reset_ids : List Item → String → List String
unfolding collect_blocked
reset_ids is target = collect_blocked (length is) is (target ∷ [])

unfoldable pub set_pending : List String → Plan → Plan
set_pending [] p = p
set_pending (c ∷ cs) p = set_pending cs (set_item_status p c "pending" "local_replan")

-- `order` is the order in which Python goes through the set.
unfoldable pub local_replan_slice : (List String → List String) → Plan → String → Plan
unfolding ensure_agenda_fields reset_ids set_pending dict_rows
local_replan_slice order p item_id =
    let q = ensure_agenda_fields p in
    record (set_pending (order (reset_ids (dict_rows q.items) item_id)) q) { current_id = none }
