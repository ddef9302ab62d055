-- ===== src/TaskAgenda/Examples.antt =====
-- A plan of four rows, of which one is no dict and one depends on itself.
use agent_langraph.Prelude.{
  ◌≡◌, refl, true, none, some, List, [], ◌∷◌, String, any_of, is_some, ◌||◌, if◌then◌else◌,
}
use agent_langraph.Prelude.Dict
use agent_langraph.TaskAgenda.{
  Deps, missing, scalar, many, Item, row, junk, Plan, dict_rows, ensure_agenda_fields, agenda_rows,
  select_next_runnable_item, set_item_status, items_by_id, items_by_id_from,
}
use agent_langraph.TaskAgenda.Normal.{ensure_idempotent}
use agent_langraph.TaskAgenda.Failure.{dependents, propagate_failure, spread, block_children, block}
use agent_langraph.TaskAgenda.Failure.Enough.{propagate_failure_total}
use agent_langraph.TaskAgenda.Failure.Rows.{status_of}
use agent_langraph.TaskAgenda.Failure.Blocked.{IsReached, direct, spreads, reached_blocked}
use agent_langraph.TaskAgenda.Merge.{merge_agenda_into_work_plan, merge_twice}
use agent_langraph.TaskAgenda.Select.{select_next_runnable, is_running, is_ready}

abbrev item : String → String → Deps → Item
item id status deps = record {
  id = some id;
  kind = none;
  title = none;
  step_text = none;
  status = some status;
  status_reason = none;
  depends_on = deps;
}

abbrev plan : Plan
plan = record {
  items =
      row (item "a" "done" missing)
      ∷ row (item "b" "blocked" (many ("b" ∷ [])))
      ∷ junk
      ∷ row (item "c" "pending" (scalar "a"))
      ∷ [];
  current_id = some "c";
  total_items = none;
  mode = none;
  agenda_version = none;
}

select-plan : select_next_runnable_item plan ≡ some (item "c" "pending" (many ("a" ∷ [])))
unfolding select_next_runnable_item Dict.get Dict.put
select-plan = refl

ensure_idempotent_example :
    ensure_agenda_fields (ensure_agenda_fields plan) ≡ ensure_agenda_fields plan
unfolding dict_rows
ensure_idempotent_example = ensure_idempotent plan (refl, (refl, (refl, tt)))

select_next_runnable_example :
    let is = agenda_rows plan in
    (is_some (select_next_runnable_item plan) ≡ (any_of is_running is || any_of (is_ready is) is))
    × ((i : Item)
        → select_next_runnable_item plan ≡ some i
        → (if any_of is_running is then is_running i else is_ready is i) ≡ true)
unfolding dict_rows
select_next_runnable_example = select_next_runnable plan (refl, (refl, (refl, tt)))

-- A failed item, one that depends on it, one that depends on that, and one that is done.
abbrev failing : Plan
failing = record plan {
  items =
      row (item "a" "failed" missing)
      ∷ row (item "b" "pending" (many ("a" ∷ [])))
      ∷ row (item "c" "pending" (many ("b" ∷ [])))
      ∷ row (item "d" "done" (many ("a" ∷ [])))
      ∷ [];
}

abbrev after_failure : Plan
after_failure = record failing {
  items =
      row (item "a" "failed" (many []))
      ∷ row (record (item "b" "blocked" (many ("a" ∷ []))) {
        status_reason = some "dependency_failed:a";
      })
      ∷ row (record (item "c" "blocked" (many ("b" ∷ []))) {
        status_reason = some "dependency_failed:b";
      })
      ∷ row (item "d" "done" (many ("a" ∷ [])))
      ∷ [];
  agenda_version = some 1;
}

failure-failing : propagate_failure failing "a" ≡ some (after_failure, "c" ∷ "b" ∷ [])
unfolding propagate_failure spread block_children block set_item_status dependents Dict.get Dict.put
    items_by_id items_by_id_from
failure-failing = refl

propagate_failure_total_example : is_some (propagate_failure failing "a") ≡ true
propagate_failure_total_example = propagate_failure_total failing "a"

a_reaches_c : IsReached (agenda_rows failing) "a" "c"
unfolding dependents Dict.get Dict.put items_by_id items_by_id_from agenda_rows dict_rows
a_reaches_c = spreads {t = "b"} (direct refl refl) refl refl

reached_blocked_example : status_of "c" (dict_rows after_failure.items) ≡ some "blocked"
unfolding dict_rows
reached_blocked_example =
    reached_blocked failing "a" after_failure ("c" ∷ "b" ∷ []) (refl, (refl, (refl, (refl, tt))))
      (refl, (refl, (refl, (refl, tt)))) failure-failing "c" a_reaches_c

abbrev slice : List Item
slice =
    item "a" "failed" missing
    ∷ item "b" "blocked" (many ("a" ∷ []))
    ∷ item "d" "done" (many ("a" ∷ []))
    ∷ []

merge_twice_example :
    let q = merge_agenda_into_work_plan failing slice "agenda" in
    dict_rows (merge_agenda_into_work_plan q slice "agenda").items ≡ agenda_rows q
merge_twice_example = merge_twice failing slice "agenda" (refl, (refl, (refl, tt)))
