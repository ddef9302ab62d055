-- ===== src/TaskQueue/Once.antt =====
-- A task that the queue has given is not given again.
use agent_langraph.Prelude.{
  and_false, ℕ, String, ◌≡◌, refl, ap, sym, ◌∙◌, inl, inr, Bool, true, false, not, ◌&&◌, Bool-cases,
  Option, none, some, List, [], ◌∷◌, ◌++◌, arith, ◌==◌, eq_iff, All, ||_false, truthy,
}
use agent_langraph.TaskQueue.{
  Row, Table, completed, failed, claims, is_wanted, enqueue, find_claimable, claim_selected,
  claim_by_id, select_best, or_select, dequeue_next, mark_completed, mark_failed,
}
use agent_langraph.TaskQueue.Score.{ℤ}
use agent_langraph.TaskQueue.Priority.{Settings}
use agent_langraph.TaskQueue.Best.{IsOrderBy, select_best_lem}
use agent_langraph.TaskQueue.Claims.{
  waits, IsClaimed, waits-update_where, any_of-implies, wanted-claims, claim_selected-IsClaimed,
  find_claimable-waits, waits-claim_selected,
}

-- One call of the store, but for counting.
pub data Op : Type 0 where
  enqueued : String → ℕ → String → String → String → ℤ → String → Option String → Op
  dequeued : Settings → ℕ → Option String → Option String → Op
  completed_op : String → String → ℕ → Op
  failed_op : String → String → ℕ → Op

abbrev pub is_fresh : String → Op → Bool
is_fresh id (enqueued q now u ty p pr so ref) = not (q == id)
is_fresh id _ = true

module _ (order : List Row → List Row) where
  unfoldable pub step : Op → Table → Table × Option Row
  unfolding enqueue dequeue_next mark_completed mark_failed
  step (enqueued q now u ty p pr so ref) t = (enqueue q now u ty p pr so ref t, none)
  step (dequeued settings now popped user) t = dequeue_next settings now order popped user t
  step (completed_op q task now) t = (mark_completed q task now t, none)
  step (failed_op q error now) t = (mark_failed q error now t, none)

  -- What the calls of a run return, in turn.
  unfoldable pub run : List Op → Table → List (Option Row)
  unfolding step
  run [] t = []
  run (o ∷ os) t = (step o t).1 ∷ run os (step o t).0

  module _ (by : IsOrderBy order) where
    waits_append :
        (id : String) (t : Table) (r : Row)
        → waits id t ≡ false
        → claims id r ≡ false
        → waits id (t ++ (r ∷ [])) ≡ false
    waits_append id [] r h k = rw k refl
    waits_append id (x ∷ xs) r h k =
        let parts = ||_false (claims id x) (waits id xs) h in
        rw parts.0 (waits_append id xs r parts.1 k)

    selected-waits :
        (settings : Settings) (now : ℕ) (user : Option String) (t : Table) (r : Row)
        → select_best settings now order user t ≡ some r
        → waits r.queue_id t ≡ true
    selected-waits settings now user t r h =
        any_of-implies (λ x. is_wanted user x && (x.queue_id == r.queue_id)) (claims r.queue_id) t
          (λ x. wanted-claims user r.queue_id x)
          ((select_best_lem settings now order by user t).0 r h).0

    or_select-IsClaimed :
        (t : Table) (a b : Table × Option Row)
        → IsClaimed t a
        → IsClaimed t b
        → IsClaimed t (or_select a b)
    or_select-IsClaimed t (u, none) b ha hb = hb
    or_select-IsClaimed t (u, some r) b ha hb = ha

    dequeue_next-IsClaimed :
        (settings : Settings) (now : ℕ) (popped user : Option String) (t : Table)
        → IsClaimed t (dequeue_next settings now order popped user t)
    unfolding dequeue_next claim_by_id
    dequeue_next-IsClaimed settings now none user t =
        claim_selected-IsClaimed now (select_best settings now order user t) t
          (selected-waits settings now user t)
    dequeue_next-IsClaimed settings now (some id) user t =
        let second =
          claim_selected-IsClaimed now (select_best settings now order user t) t
            (selected-waits settings now user t) in
        elim (Bool-cases (truthy id)) [
          | inl e ↦ rw e (
              or_select-IsClaimed t (claim_by_id now id t)
                (claim_selected now (select_best settings now order user t) t)
                (claim_selected-IsClaimed now (find_claimable id t) t (find_claimable-waits id t))
                second)
          | inr e ↦ rw e second
        ]

    waits-or_select :
        (id : String) (a b : Table × Option Row)
        → waits id a.0 ≡ false
        → waits id b.0 ≡ false
        → waits id (or_select a b).0 ≡ false
    waits-or_select id (u, none) b ha hb = hb
    waits-or_select id (u, some r) b ha hb = ha

    waits-dequeue_next :
        (id : String) (settings : Settings) (now : ℕ) (popped user : Option String) (t : Table)
        → waits id t ≡ false
        → waits id (dequeue_next settings now order popped user t).0 ≡ false
    unfolding dequeue_next claim_by_id
    waits-dequeue_next id settings now none user t h =
        waits-claim_selected id now (select_best settings now order user t) t h
    waits-dequeue_next id settings now (some q) user t h =
        let second = waits-claim_selected id now (select_best settings now order user t) t h in
        elim (Bool-cases (truthy q)) [
          | inl e ↦ rw e (
              waits-or_select id (claim_by_id now q t)
                (claim_selected now (select_best settings now order user t) t)
                (waits-claim_selected id now (find_claimable q t) t h) second)
          | inr e ↦ rw e second
        ]

    waits-step :
        (id : String) (o : Op) (t : Table)
        → is_fresh id o ≡ true
        → waits id t ≡ false
        → waits id (step o t).0 ≡ false
    unfolding step enqueue mark_completed mark_failed
    waits-step id (enqueued q now u ty p pr so ref) t fresh h = waits_append id t _ h (ground arith)
    waits-step id (dequeued settings now popped user) t fresh h =
        waits-dequeue_next id settings now popped user t h
    waits-step id (completed_op q task now) t fresh h =
        waits-update_where id (λ r. r.queue_id == q)
          (λ r. record r { status = completed; task_id = some task; completed_at = some now }) t
          (λ r. and_false (r.queue_id == id)) h
    waits-step id (failed_op q error now) t fresh h =
        waits-update_where id (λ r. r.queue_id == q)
          (λ r. record r { status = failed; error = some error; completed_at = some now }) t
          (λ r. and_false (r.queue_id == id)) h

    -- A call does not return the id of a task that does not wait.
    returned_other :
        (id : String) (o : Op) (t : Table) (r : Row)
        → waits id t ≡ false
        → (step o t).1 ≡ some r
        → (r.queue_id == id) ≡ false
    unfolding step
    returned_other id (enqueued q now u ty p pr so ref) t r h k = cc k
    returned_other id (dequeued settings now popped user) t r h k =
        let was : waits r.queue_id t ≡ true =
          (dequeue_next-IsClaimed settings now popped user t r k).0 in
        elim (Bool-cases (r.queue_id == id)) [
          | inl e ↦ cc (sym (ap (λ i. waits i t) ((eq_iff r.queue_id id).0 e)) ∙ was)
          | inr e ↦ e
        ]
    returned_other id (completed_op q task now) t r h k = cc k
    returned_other id (failed_op q error now) t r h k = cc k

    abbrev pub IsOther : String → Option Row → Type 0
    IsOther id o = (r : Row) → o ≡ some r → (r.queue_id == id) ≡ false

    run-IsOther :
        (id : String) (os : List Op) (t : Table)
        → All (λ o. is_fresh id o ≡ true) os
        → waits id t ≡ false
        → All (IsOther id) (run os t)
    unfolding run
    run-IsOther id [] t fresh h = tt
    run-IsOther id (o ∷ os) t fresh h = (
      λ r. returned_other id o t r h,
      run-IsOther id os (step o t).0 fresh.1 (waits-step id o t fresh.0 h),
    )

    -- A task that a worker has got from the queue is got by no later call, whatever is enqueued,
    -- dequeued, completed and failed in between, as long as its id is not given to another task.
    pub dequeued_once :
        (settings : Settings) (now : ℕ) (popped user : Option String) (t : Table) (r : Row)
        (os : List Op)
        → (dequeue_next settings now order popped user t).1 ≡ some r
        → All (λ o. is_fresh r.queue_id o ≡ true) os
        → All (IsOther r.queue_id) (run os (dequeue_next settings now order popped user t).0)
    dequeued_once settings now popped user t r os got fresh =
        run-IsOther r.queue_id os (dequeue_next settings now order popped user t).0 fresh
          (dequeue_next-IsClaimed settings now popped user t r got).1
