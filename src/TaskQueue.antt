-- ===== src/TaskQueue.antt =====
-- app/services/task_queue_store.py and app/services/queue_priority.py: the queue of tasks that
-- wait, with priorities that grow while they do.
pub mod Score
pub mod Priority
pub mod Best
pub mod Claims
pub mod Once
pub mod Race
mod Examples
use agent_langraph.Prelude.{
  ℕ, suc, zero, ◌-◌, String, Bool, true, false, not, ◌&&◌, Option, none, some, List, [], ◌∷◌, ◌++◌,
  ◌==◌, if◌then◌else◌, keep, truthy,
}
use agent_langraph.TaskQueue.Score.{ℤ, leq}
use agent_langraph.TaskQueue.Priority.{Settings, effective_priority}

pub data Status : Type 0 where
  pending : Status
  running : Status
  completed : Status
  failed : Status

abbrev pub is_pending : Status → Bool
is_pending pending = true
is_pending _ = false

-- A row of `task_queue`; times are counts, and the texts of the store's own times always parse.
pub record Row : Type 0 where
  pub queue_id : String
  pub user_id : String
  pub task_type : String
  pub input_payload : String
  pub priority : ℤ
  pub status : Status
  pub source : String
  pub source_ref : Option String
  pub enqueued_at : ℕ
  pub started_at : Option ℕ
  pub completed_at : Option ℕ
  pub task_id : Option String
  pub error : Option String

abbrev pub Table : Type 0
Table = List Row

-- `uuid4` gives the id; `now` is read once. The Redis index and the dispatch of Celery are outside.
unfoldable pub enqueue :
    String → ℕ → String → String → String → ℤ → String → Option String → Table → Table
enqueue queue_id now user_id task_type input_payload priority source source_ref t =
    t
    ++ (record {
      queue_id = queue_id;
      user_id = user_id;
      task_type = task_type;
      input_payload = input_payload;
      priority = priority;
      status = pending;
      source = source;
      source_ref = source_ref;
      enqueued_at = now;
      started_at = none;
      completed_at = none;
      task_id = none;
      error = none;
    }
        ∷ [])

-- `WHERE queue_id = ? AND status = 'PENDING'`
abbrev pub claims : String → Row → Bool
claims queue_id r = (r.queue_id == queue_id) && is_pending r.status

-- `UPDATE task_queue SET … WHERE …`
unfoldable pub update_where : (Row → Bool) → (Row → Row) → Table → Table
update_where p f [] = []
update_where p f (r ∷ rs) = (if p r then f r else r) ∷ update_where p f rs

unfoldable pub update_running : String → ℕ → Table → Table
unfolding update_where
update_running queue_id now t =
    update_where (claims queue_id) (λ r. record r { status = running; started_at = some now }) t

-- `SELECT … WHERE status = 'PENDING' [AND user_id = ?]`: an empty user id is no user id.
abbrev pub is_wanted : Option String → Row → Bool
is_wanted none r = is_pending r.status
is_wanted (some u) r =
    if truthy u then is_pending r.status && (r.user_id == u) else is_pending r.status

unfoldable pub take {ℓ} : {A : Type ℓ} → ℕ → List A → List A
take zero xs = []
take (suc n) [] = []
take (suc n) (x ∷ xs) = x ∷ take n xs

-- `max(rows, key=…)`: the first of the rows of greatest key.
unfoldable pub best_from : (Row → ℤ) → Row → List Row → Row
best_from key best [] = best
best_from key best (r ∷ rs) = best_from key (if leq (key r) (key best) then best else r) rs

unfoldable pub best_of : (Row → ℤ) → List Row → Option Row
unfolding best_from
best_of key [] = none
best_of key (r ∷ rs) = some (best_from key r rs)

-- The rows that `dequeue_next` chooses from; `order` is `ORDER BY priority DESC, enqueued_at ASC`.
unfoldable pub candidates : (List Row → List Row) → Option String → Table → List Row
unfolding take
candidates order user t = take 50 (order (keep (is_wanted user) t))

-- The part of `dequeue_next` before the update: the connection is closed in between.
unfoldable pub select_best :
    Settings → ℕ → (List Row → List Row) → Option String → Table → Option Row
unfolding candidates best_of
select_best settings now order user t =
    best_of (λ r. effective_priority settings r.priority (some r.enqueued_at) now)
      (candidates order user t)

-- The update, and the item that is returned, which is of the row as it was read.
unfoldable pub claim_selected : ℕ → Option Row → Table → Table × Option Row
unfolding update_running
claim_selected now none t = (t, none)
claim_selected now (some r) t = (update_running r.queue_id now t, some r)

unfoldable pub find_claimable : String → Table → Option Row
find_claimable queue_id [] = none
find_claimable queue_id (r ∷ rs) =
    let rest = find_claimable queue_id rs in if claims queue_id r then some r else rest

-- `_claim_by_id`
unfoldable pub claim_by_id : ℕ → String → Table → Table × Option Row
unfolding find_claimable claim_selected
claim_by_id now queue_id t = claim_selected now (find_claimable queue_id t) t

abbrev pub or_select : Table × Option Row → Table × Option Row → Table × Option Row
or_select (t, none) second = second
or_select (t, some r) second = (t, some r)

-- `dequeue_next`; `popped` is what `pop_highest_pending` gives, where the backend is Celery and no
-- user is named.
unfoldable pub dequeue_next :
    Settings
    → ℕ
    → (List Row → List Row)
    → Option String
    → Option String
    → Table
    → Table × Option Row
unfolding claim_by_id select_best claim_selected
dequeue_next settings now order popped user t =
    let second = claim_selected now (select_best settings now order user t) t in
    elim popped [
      | none ↦ second
      | some queue_id ↦
          if truthy queue_id then or_select (claim_by_id now queue_id t) second else second
    ]

unfoldable pub mark_completed : String → String → ℕ → Table → Table
unfolding update_where
mark_completed queue_id task_id now t =
    update_where (λ r. r.queue_id == queue_id)
      (λ r. record r { status = completed; task_id = some task_id; completed_at = some now }) t

-- `error` is the text cut to 2000 characters.
unfoldable pub mark_failed : String → String → ℕ → Table → Table
unfolding update_where
mark_failed queue_id error now t =
    update_where (λ r. r.queue_id == queue_id)
      (λ r. record r { status = failed; error = some error; completed_at = some now }) t

unfoldable pub pending_count : Table → ℕ
pending_count [] = 0
pending_count (r ∷ rs) =
    let rest = pending_count rs in if is_pending r.status then suc rest else rest
