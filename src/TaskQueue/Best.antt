-- ===== src/TaskQueue/Best.antt =====
-- Which row the queue gives next.
use agent_langraph.Prelude.{
  ℕ, suc, zero, String, ◌≡◌, refl, ap, sym, ◌∙◌, inl, inr, Bool, true, false, ◌&&◌, ◌||◌,
  Bool-cases, Option, none, some, List, [], ◌∷◌, ◌==◌, eq_refl, keep, All, any_of, ||_true,
}
use agent_langraph.TaskQueue.{
  Row, Table, is_wanted, take, best_from, best_of, candidates, select_best,
}
use agent_langraph.TaskQueue.Score.{ℤ, leq, leq_refl, leq_total, leq_trans}
use agent_langraph.TaskQueue.Priority.{Settings, effective_priority}

-- What SQL's ORDER BY promises here: no row is lost and none is made up.
pub record IsOrderBy (order : List Row → List Row) : Type 0 where
  pub same : (p : Row → Bool) (rows : List Row) → any_of p (order rows) ≡ any_of p rows

any_of-take :
    (p : Row → Bool) (n : ℕ) (rows : List Row)
    → any_of p (take n rows) ≡ true
    → any_of p rows ≡ true
unfolding take
any_of-take p zero rows h = cc h
any_of-take p (suc n) [] h = h
any_of-take p (suc n) (r ∷ rs) h = elim (Bool-cases (p r)) [
  | inl e ↦ rw e refl
  | inr e ↦ rw e (any_of-take p n rs (rw e at h))
]

any_of-keep :
    (p q : Row → Bool) (rows : List Row) → any_of p (keep q rows) ≡ any_of (λ r. q r && p r) rows
any_of-keep p q [] = refl
any_of-keep p q (r ∷ rs) = elim (Bool-cases (q r)) [
  | inl e ↦ rw e (rw (any_of-keep p q rs))
  | inr e ↦ rw e (any_of-keep p q rs)
]

any_of-wanted : (p : Row → Bool) (rows : List Row) → any_of p (keep p rows) ≡ any_of p rows
any_of-wanted p [] = refl
any_of-wanted p (r ∷ rs) = elim (Bool-cases (p r)) [
  | inl e ↦ rw e (rw e refl)
  | inr e ↦ rw e (any_of-wanted p rs)
]

module _ (key : Row → ℤ) where
  best_from-among :
      (p : Row → Bool) (b : Row) (rs : List Row)
      → p (best_from key b rs) ≡ true
      → any_of p (b ∷ rs) ≡ true
  unfolding best_from
  best_from-among p b [] h = rw h refl
  best_from-among p b (r ∷ rs) h = elim (Bool-cases (leq (key r) (key b))) [
    | inl e ↦ skip (best_from-among p b rs (rw e at h))
    | inr e ↦
        let later : (p r || any_of p rs) ≡ true = best_from-among p r rs (rw e at h) in
        rw later (||_true (p b))
  ]
    where
      skip : (p b || any_of p rs) ≡ true → (p b || (p r || any_of p rs)) ≡ true
      skip k = elim (Bool-cases (p b)) [
        | inl e ↦ rw e refl
        | inr e ↦ let k2 : any_of p rs ≡ true = rw e at k in rw (e, k2) (||_true (p r))
      ]

  best_from-greatest :
      (b : Row) (rs : List Row) (m : Row)
      → best_from key b rs ≡ m
      → (leq (key b) (key m) ≡ true) × All (λ r. leq (key r) (key m) ≡ true) rs
  unfolding best_from
  best_from-greatest b [] m h = (rw (← h) (leq_refl (key b)), tt)
  best_from-greatest b (r ∷ rs) m h = elim (Bool-cases (leq (key r) (key b))) [
    | inl e ↦
        let rest = best_from-greatest b rs m (rw e at h) in
        (rest.0, (leq_trans (key r) (key b) (key m) e rest.0, rest.1))
    | inr e ↦
        let rest = best_from-greatest r rs m (rw e at h) in
        (leq_trans (key b) (key r) (key m) (leq_total (key r) (key b) e) rest.0, rest)
  ]

  best_of-none : (rs : List Row) → best_of key rs ≡ none → rs ≡ []
  unfolding best_of
  best_of-none [] h = refl
  best_of-none (r ∷ rs) h = cc h

  best_of-some :
      (rs : List Row) (b : Row)
      → best_of key rs ≡ some b
      → ((p : Row → Bool) → p b ≡ true → any_of p rs ≡ true)
        × All (λ r. leq (key r) (key b) ≡ true) rs
  unfolding best_of
  best_of-some [] b h = cc h
  best_of-some (r ∷ rs) b h =
      let e : best_from key r rs ≡ b = cc h in
      (λ p m. best_from-among p r rs (rw e m), best_from-greatest r rs b e)

take_nonempty : (n : ℕ) (rows : List Row) → take (suc n) rows ≡ [] → rows ≡ []
unfolding take
take_nonempty n [] h = refl
take_nonempty n (r ∷ rs) h = cc h

abbrev pub key_of : Settings → ℕ → Row → ℤ
key_of settings now r = effective_priority settings r.priority (some r.enqueued_at) now

module _ (settings : Settings) (now : ℕ) (order : List Row → List Row) (by : IsOrderBy order) where
  -- The row that is selected is one that is wanted, of the table, and of the greatest effective
  -- priority among the candidates; none is selected only if the table holds none that is wanted.
  pub select_best_lem :
      (user : Option String) (t : Table)
      → ((r : Row)
          → select_best settings now order user t ≡ some r
          → (any_of (λ x. is_wanted user x && (x.queue_id == r.queue_id)) t ≡ true)
            × All
                (λ c. leq (key_of settings now c) (key_of settings now r) ≡ true)
                (candidates order user t))
        × (select_best settings now order user t ≡ none → any_of (is_wanted user) t ≡ false)
  unfolding select_best candidates
  select_best_lem user t = (
    λ r h.
        let best = best_of-some (key_of settings now) (candidates order user t) r h in
        let chosen =
          any_of-take (λ x. x.queue_id == r.queue_id) 50 (order (keep (is_wanted user) t))
            (best.0 (λ x. x.queue_id == r.queue_id) (eq_refl r.queue_id)) in
        (
          sym (any_of-keep (λ x. x.queue_id == r.queue_id) (is_wanted user) t)
              ∙ sym (by.same (λ x. x.queue_id == r.queue_id) (keep (is_wanted user) t))
              ∙ chosen,
          best.1,
        ),
    λ h.
        sym (any_of-wanted (is_wanted user) t)
        ∙ sym (by.same (is_wanted user) (keep (is_wanted user) t))
        ∙ ap (any_of (is_wanted user)) (
            take_nonempty 49 (order (keep (is_wanted user) t))
              (best_of-none (key_of settings now) (candidates order user t) h)),
  )
