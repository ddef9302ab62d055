-- ===== src/TaskAgenda/Failure.antt =====
-- `propagate_failure` of app/services/task_agenda.py: what depends on a failed item is blocked.
pub mod Enough
pub mod Closed
pub mod Rows
pub mod Blocked
use agent_langraph.Prelude.{
  ℕ, zero, suc, String, Bool, true, false, Option, none, some, List, [], ◌∷◌, ◌++◌, if◌then◌else◌,
  member, length,
}
use agent_langraph.Prelude.Texts.{concat}
use agent_langraph.Prelude.Dict
use agent_langraph.Prelude.Dict.{Dict}
use agent_langraph.TaskAgenda.{
  Item, Plan, terminal_statuses, id_text, status_text, dict_rows, ensure_agenda_fields, items_by_id,
  raw_deps, set_item_status,
}

-- `_dependents`
unfoldable pub dependents : String → List Item → List String
dependents target [] = []
dependents target (i ∷ is) =
    let rest = dependents target is in
    if member target (raw_deps i.depends_on) then id_text i ∷ rest else rest

-- The plan, the ids that were blocked, and the queue.
pub record Pass : Type 0 where
  pub plan : Plan
  pub blocked : List String
  pub queue : List String

-- Whether an id is blocked when it is come upon: it is not so far, and an item of it is not settled.
abbrev pub is_open : Option Item → Bool
is_open none = false
is_open (some i) = if member (status_text i) terminal_statuses then false else true

abbrev pub may_block : Dict Item → List String → String → Bool
may_block by_id blocked c = if member c blocked then false else is_open (Dict.get c by_id)

unfoldable pub block : String → String → Pass → Pass
block current c w = record {
  plan = set_item_status w.plan c "blocked" (concat "dependency_failed:" current);
  blocked = c ∷ w.blocked;
  queue = w.queue ++ (c ∷ []);
}

-- The inner loop, over the dependents of `current`.
unfoldable pub block_children : Dict Item → String → List String → Pass → Pass
unfolding block
block_children by_id current [] w = w
block_children by_id current (c ∷ cs) w =
    block_children by_id current cs (if may_block by_id w.blocked c then block current c w else w)

-- The loop over the queue, which ends when it is empty; `none` says that the rounds ran out first.
unfoldable pub spread :
    ℕ → Dict Item → Plan → List String → List String → Option (Plan × List String)
unfolding dependents block_children
spread n by_id plan blocked [] = some (plan, blocked)
spread zero by_id plan blocked (c ∷ queue) = none
spread (suc n) by_id plan blocked (c ∷ queue) =
    let w =
      block_children by_id c (dependents c (dict_rows plan.items))
        (record { plan = plan; blocked = blocked; queue = queue }) in
    spread n by_id w.plan w.blocked w.queue

-- As many rounds as there are rows, and one more. The ids that were blocked are part of the result.
unfoldable pub propagate_failure : Plan → String → Option (Plan × List String)
unfolding ensure_agenda_fields spread
propagate_failure p failed_id =
    let q = ensure_agenda_fields p in
    let is = dict_rows q.items in spread (suc (length is)) (items_by_id is) q [] (failed_id ∷ [])
