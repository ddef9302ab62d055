-- ===== src/TaskQueue/Race.antt =====
-- Two workers that choose before either has claimed: `dequeue_next` closes its connection between
-- the selection and the update, and does not ask how many rows the update changed.
use agent_langraph.Prelude.{
  ℕ, String, ◌≡◌, refl, inl, inr, Bool, false, Bool-cases, Option, none, some, List, [], ◌∷◌,
  any_of,
}
use agent_langraph.TaskQueue.{
  Row, Table, running, claims, update_where, update_running, claim_selected, select_best,
}
use agent_langraph.TaskQueue.Priority.{Settings}
use agent_langraph.TaskQueue.Claims.{waits-update_running}

update_where-none :
    (p : Row → Bool) (f : Row → Row) (t : Table) → any_of p t ≡ false → update_where p f t ≡ t
unfolding update_where
update_where-none p f [] h = refl
update_where-none p f (r ∷ rs) h = elim (Bool-cases (p r)) [
  | inl e ↦ cc (rw e at h)
  | inr e ↦ rw e (rw (update_where-none p f rs (rw e at h)))
]

-- The second of two workers that select before either updates gets the row that the first got,
-- although its update changes nothing.
pub selected_twice :
    (settings : Settings) (now first second : ℕ) (order : List Row → List Row)
    (user : Option String) (t : Table)
    → let chosen = select_best settings now order user t in
      let after = claim_selected first chosen t in
      ((claim_selected second chosen after.0).1 ≡ after.1)
      × ((claim_selected second chosen after.0).0 ≡ after.0)
unfolding claim_selected update_running
selected_twice settings now first second order user t =
    twice (select_best settings now order user t)
  where
    twice :
        (chosen : Option Row)
        → ((claim_selected second chosen (claim_selected first chosen t).0).1
            ≡ (claim_selected first chosen t).1)
          × ((claim_selected second chosen (claim_selected first chosen t).0).0
              ≡ (claim_selected first chosen t).0)
    twice none = (refl, refl)
    twice (some r) = (
      refl,
      update_where-none (claims r.queue_id)
          (λ x. record x { status = running; started_at = some second })
          (update_running r.queue_id first t) (waits-update_running r.queue_id first t),
    )
