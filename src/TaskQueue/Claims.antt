-- ===== src/TaskQueue/Claims.antt =====
-- Rows that wait, and what a claim or another update does to them.
use agent_langraph.Prelude.{
  ℕ, String, ◌≡◌, refl, inl, inr, Bool, true, false, ◌&&◌, Bool-cases, Option, none, some, [], ◌∷◌,
  arith, ◌==◌, eq_refl, any_of, ||_true, ||_false, and_false,
}
use agent_langraph.TaskQueue.{
  Row, Table, running, is_pending, claims, is_wanted, update_where, update_running, find_claimable,
  claim_selected,
}

-- A row with this id waits.
abbrev pub waits : String → Table → Bool
waits id t = any_of (claims id) t

-- A row that is rewritten to be no longer pending, or left as it was, does not begin to wait.
pub waits-update_where :
    (id : String) (p : Row → Bool) (f : Row → Row) (t : Table)
    → ((r : Row) → claims id (f r) ≡ false)
    → waits id t ≡ false
    → waits id (update_where p f t) ≡ false
unfolding update_where
waits-update_where id p f [] gone h = refl
waits-update_where id p f (r ∷ rs) gone h =
    let parts = ||_false (claims id r) (waits id rs) h in
    elim (Bool-cases (p r)) [
      | inl e ↦ rw (e, gone r) (waits-update_where id p f rs gone parts.1)
      | inr e ↦ rw (e, parts.0) (waits-update_where id p f rs gone parts.1)
    ]

claimed_gone :
    (id : String) (f : Row → Row) (t : Table)
    → ((r : Row) → claims id (f r) ≡ false)
    → waits id (update_where (claims id) f t) ≡ false
unfolding update_where
claimed_gone id f [] gone = refl
claimed_gone id f (r ∷ rs) gone = elim (Bool-cases (claims id r)) [
  | inl e ↦ rw (e, gone r) (claimed_gone id f rs gone)
  | inr e ↦ rw (e, e) (claimed_gone id f rs gone)
]

pub waits-update_running :
    (id : String) (now : ℕ) (t : Table) → waits id (update_running id now t) ≡ false
unfolding update_running
waits-update_running id now t =
    claimed_gone id (λ r. record r { status = running; started_at = some now }) t
      (λ r. and_false (r.queue_id == id))

pub any_of-implies :
    (p q : Row → Bool) (t : Table)
    → ((r : Row) → p r ≡ true → q r ≡ true)
    → any_of p t ≡ true
    → any_of q t ≡ true
any_of-implies p q [] f h = h
any_of-implies p q (r ∷ rs) f h = elim (Bool-cases (p r)) [
  | inl e ↦ rw (f r e) refl
  | inr e ↦
      let later : any_of q rs ≡ true = any_of-implies p q rs f (rw e at h) in
      rw later (||_true (q r))
]

pub wanted-claims :
    (user : Option String) (id : String) (r : Row)
    → (is_wanted user r && (r.queue_id == id)) ≡ true
    → claims id r ≡ true
wanted-claims none id r h = ground arith
wanted-claims (some u) id r h = ground arith

-- What comes back from a claim, if anything does: a row that waited, and waits no longer.
abbrev pub IsClaimed : Table → Table × Option Row → Type 0
IsClaimed t after =
    (r : Row) → after.1 ≡ some r → (waits r.queue_id t ≡ true) × (waits r.queue_id after.0 ≡ false)

pub claim_selected-IsClaimed :
    (now : ℕ) (o : Option Row) (t : Table)
    → ((r : Row) → o ≡ some r → waits r.queue_id t ≡ true)
    → IsClaimed t (claim_selected now o t)
unfolding claim_selected
claim_selected-IsClaimed now none t found r h = cc h
claim_selected-IsClaimed now (some x) t found r h =
    let same : x ≡ r = cc h in (found r h, rw (← same) (waits-update_running x.queue_id now t))

pub find_claimable-waits :
    (id : String) (t : Table) (r : Row) → find_claimable id t ≡ some r → waits r.queue_id t ≡ true
unfolding find_claimable
find_claimable-waits id [] r h = cc h
find_claimable-waits id (x ∷ xs) r h = elim (Bool-cases (claims id x)) [
  | inl e ↦
      let same : x ≡ r = cc (rw e at h) in
      rw (← same) (
        let k : (x.queue_id == x.queue_id) && is_pending x.status ≡ true =
          ground (arith, eq_refl x.queue_id) in
        rw k refl)
  | inr e ↦
      let later : waits r.queue_id xs ≡ true = find_claimable-waits id xs r (rw e at h) in
      rw later (||_true _)
]

pub waits-claim_selected :
    (id : String) (now : ℕ) (o : Option Row) (t : Table)
    → waits id t ≡ false
    → waits id (claim_selected now o t).0 ≡ false
unfolding claim_selected update_running
waits-claim_selected id now none t h = h
waits-claim_selected id now (some x) t h =
    waits-update_where id (claims x.queue_id)
      (λ r. record r { status = running; started_at = some now }) t
      (λ r. and_false (r.queue_id == id)) h
