-- ===== src/TaskQueue/Examples.antt =====
-- Two tasks that wait, the newer of which was given the higher priority.
use agent_langraph.Prelude.{
  ℕ, ◌≡◌, refl, true, false, none, some, String, List, [], ◌∷◌, All, any_of, ◌==◌, ◌&&◌,
}
use agent_langraph.TaskQueue.{
  Row, Table, running, pending, is_wanted, candidates, select_best, claim_selected, dequeue_next,
}
use agent_langraph.TaskQueue.Score.{ℤ, pos, negsuc, leq}
use agent_langraph.TaskQueue.Priority.{Settings, effective_priority}
use agent_langraph.TaskQueue.Best.{IsOrderBy, key_of, select_best_lem}
use agent_langraph.TaskQueue.Once.{
  Op, dequeued, enqueued, completed_op, run, IsOther, dequeued_once,
}
use agent_langraph.TaskQueue.Race.{selected_twice}

abbrev settings : Settings
settings = record { starvation_sec = 300; max_boost = pos 3 }

-- A table that is already in SQL's order.
abbrev in_order : List Row → List Row
in_order rows = rows

in_order-IsOrderBy : IsOrderBy in_order
in_order-IsOrderBy = record { same = λ p rows. refl }

abbrev task : String → ℤ → ℕ → Row
task id priority enqueued_at = record {
  queue_id = id;
  user_id = "u";
  task_type = "chat";
  input_payload = "{}";
  priority = priority;
  status = pending;
  source = "api";
  source_ref = none;
  enqueued_at = enqueued_at;
  started_at = none;
  completed_at = none;
  task_id = none;
  error = none;
}

abbrev table : Table
table = task "new" (pos 1) 900 ∷ task "old" (negsuc 0) 0 ∷ []

-- The older task has three boosts and goes first.
dequeued-old : dequeue_next settings 900 in_order none none table ≡ (
  task "new" (pos 1) 900
      ∷ record (task "old" (negsuc 0) 0) { status = running; started_at = some 900 }
      ∷ [],
  some (task "old" (negsuc 0) 0),
)
unfolding dequeue_next effective_priority
dequeued-old = refl

select_best_lem_example :
    ((r : Row)
      → select_best settings 900 in_order none table ≡ some r
      → (any_of (λ x. is_wanted none x && (x.queue_id == r.queue_id)) table ≡ true)
        × All
            (λ c. leq (key_of settings 900 c) (key_of settings 900 r) ≡ true)
            (candidates in_order none table))
    × (select_best settings 900 in_order none table ≡ none → any_of (is_wanted none) table ≡ false)
select_best_lem_example = select_best_lem settings 900 in_order in_order-IsOrderBy none table

abbrev later : List Op
later =
    enqueued "next" 910 "u" "chat" "{}" (pos 0) "api" none
    ∷ dequeued settings 920 (some "old") none
    ∷ completed_op "old" "t1" 930
    ∷ []

dequeued_once_example :
    All
      (IsOther in_order in_order-IsOrderBy "old")
      (run in_order later (dequeue_next settings 900 in_order none none table).0)
unfolding dequeue_next effective_priority
dequeued_once_example =
    dequeued_once in_order in_order-IsOrderBy settings 900 none none table (task "old" (negsuc 0) 0)
      later refl (refl, (refl, (refl, tt)))

selected_twice_example :
    let chosen = select_best settings 900 in_order none table in
    let after = claim_selected 901 chosen table in
    ((claim_selected 902 chosen after.0).1 ≡ after.1)
    × ((claim_selected 902 chosen after.0).0 ≡ after.0)
selected_twice_example = selected_twice settings 900 901 902 in_order none table
