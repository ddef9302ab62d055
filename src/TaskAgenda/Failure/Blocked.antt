-- ===== src/TaskAgenda/Failure/Blocked.antt =====
-- The rows of what a failure reaches are blocked in the plan that `propagate_failure` returns.
use agent_langraph.Prelude.{
  ℕ, zero, suc, String, ◌≡◌, refl, ap, sym, subst, ◌∙◌, inl, inr, Bool, true, false, Option, none,
  some, List, [], ◌∷◌, map, arith, eq_refl, if◌then◌else◌, by_if, member, length, All,
}
use agent_langraph.Prelude.Texts.{concat}
use agent_langraph.Prelude.Dict
use agent_langraph.Prelude.Dict.{Dict}
use agent_langraph.TaskAgenda.{
  Item, Plan, id_text, dict_rows, agenda_rows, ensure_agenda_fields, items_by_id, set_item_status,
  update_first,
}
use agent_langraph.TaskAgenda.Normal.{settle, agenda_rows-eq, IsProper}
use agent_langraph.TaskAgenda.Failure.{
  Pass, may_block, is_open, block, block_children, dependents, spread, propagate_failure,
}
use agent_langraph.TaskAgenda.Failure.Closed.{
  IsFixed, Keeps, keep_on, member-cons, IsFixed-settle, propagate_failure_closed, IsFixed-settle,
  propagate_failure_closed, rows-set_item_status, id_text-settle,
}
use agent_langraph.TaskAgenda.Failure.Rows.{
  has_id, IsUnique, status_of, first_waits, dependents-first_waits, first_waits-settle,
  first_waits-update_first, status_of-settle, status_of-blocks, status_of-stays,
}

module _ (D : String → List String) (F : String → Bool)
    (waits : (t c : String) → member c (D t) ≡ true → F c ≡ true) where
  -- A plan in which the rows of these ids are blocked.
  record Holds (p : Plan) (blocked : List String) : Type 0 where
    keeps : Keeps D (dict_rows p.items)
    first : (c : String) → first_waits c (dict_rows p.items) ≡ F c
    has_deps : (c : String) → member c blocked ≡ true → F c ≡ true
    shown :
        (c : String) → member c blocked ≡ true → status_of c (dict_rows p.items) ≡ some "blocked"

  set-Holds :
      (p : Plan) (c r : String) (blocked : List String)
      → F c ≡ true
      → Holds p blocked
      → Holds (set_item_status p c "blocked" r) (c ∷ blocked)
  set-Holds p c r blocked w h = record {
    keeps = keep_on D p c "blocked" r h.keeps;
    first = λ k. ap (first_waits k) rows ∙ same_first k;
    has_deps = λ k m. elim (member-cons k c blocked m) [
      | inl same ↦ subst (λ j. F j ≡ true) (sym same) w
      | inr before ↦ h.has_deps k before
    ];
    shown = λ k m. ap (status_of k) rows ∙ elim (member-cons k c blocked m) [
      | inl same ↦
          subst (λ j. status_of j (update_first c "blocked" r settled) ≡ some "blocked") (sym same)
            (status_of-blocks c r settled (settled_first c ∙ w))
      | inr before ↦
          status_of-stays k c r settled
            (status_of-settle k is fixed (h.first k ∙ h.has_deps k before) (h.shown k before))
    ];
  }
    where
      is : List Item
      is = dict_rows p.items

      settled : List Item
      settled = map settle is

      fixed : All IsFixed is
      fixed = h.keeps.0

      rows : dict_rows (set_item_status p c "blocked" r).items ≡ update_first c "blocked" r settled
      rows = rows-set_item_status p c "blocked" r

      settled_first : (k : String) → first_waits k settled ≡ F k
      settled_first k = first_waits-settle k is fixed ∙ h.first k

      same_first : (k : String) → first_waits k (update_first c "blocked" r settled) ≡ F k
      same_first k = first_waits-update_first k c "blocked" r settled ∙ settled_first k

  block_children-Holds :
      (by_id : Dict Item) (current : String) (cs : List String) (w : Pass)
      → All (λ c. F c ≡ true) cs
      → Holds w.plan w.blocked
      → let v = block_children by_id current cs w in Holds v.plan v.blocked
  unfolding block_children block
  block_children-Holds by_id current [] w fs h = h
  block_children-Holds by_id current (c ∷ cs) w (f, fs) h =
      let v : Pass = if may_block by_id w.blocked c then block current c w else w in
      block_children-Holds by_id current cs v fs (
        by_if (λ (u : Pass). Holds u.plan u.blocked) (may_block by_id w.blocked c)
          (λ e. set-Holds w.plan c (concat "dependency_failed:" current) w.blocked f h) (λ e. h))

  each_waits :
      (t : String) (cs : List String)
      → ((c : String) → member c cs ≡ true → F c ≡ true)
      → All (λ c. F c ≡ true) cs
  each_waits t [] h = tt
  each_waits t (c ∷ cs) h =
      (h c (rw (eq_refl c) refl), each_waits t cs (λ k m. h k (ground (arith, m))))

  spread-Holds :
      (n : ℕ) (by_id : Dict Item) (p : Plan) (blocked queue : List String) (q : Plan)
      (after : List String)
      → Holds p blocked
      → spread n by_id p blocked queue ≡ some (q, after)
      → Holds q after
  unfolding spread
  spread-Holds n by_id p blocked [] q after h e =
      let (same_plan, same_ids) = pair_eq e in
      subst (λ b. Holds q b) same_ids (subst (λ r. Holds r blocked) same_plan h)
    where
      plan_of : Option (Plan × List String) → Plan
      plan_of none = p
      plan_of (some (r, b)) = r

      ids_of : Option (Plan × List String) → List String
      ids_of none = []
      ids_of (some (r, b)) = b

      pair_eq : spread n by_id p blocked [] ≡ some (q, after) → (p ≡ q) × (blocked ≡ after)
      pair_eq e = (ap plan_of e, ap ids_of e)
  spread-Holds zero by_id p blocked (c ∷ queue) q after h e = cc e
  spread-Holds (suc n) by_id p blocked (c ∷ queue) q after h e =
      let w : Pass = record { plan = p; blocked = blocked; queue = queue } in
      let cs = dependents c (dict_rows p.items) in
      let v = block_children by_id c cs w in
      spread-Holds n by_id v.plan v.blocked v.queue q after
        (block_children-Holds by_id c cs w
          (each_waits c cs (λ k m. waits c k (subst (λ l. member k l ≡ true) (h.keeps.1 c) m))) h)
        e

-- What a failure reaches: an item that is not settled and depends on the failed one, or on another
-- that it reaches.
pub data IsReached (is : List Item) (failed : String) : String → Type 0 where
  direct :
      {c : String}
      → member c (dependents failed is) ≡ true
      → is_open (Dict.get c (items_by_id is)) ≡ true
      → IsReached is failed c
  spreads :
      {t c : String}
      → IsReached is failed t
      → member c (dependents t is) ≡ true
      → is_open (Dict.get c (items_by_id is)) ≡ true
      → IsReached is failed c

none_left :
    (by_id : Dict Item) (blocked : List String) (c : String) (cs : List String)
    → All (λ k. may_block by_id blocked k ≡ false) cs
    → member c cs ≡ true
    → is_open (Dict.get c by_id) ≡ true
    → member c blocked ≡ true
none_left by_id blocked c [] h m o = cc m
none_left by_id blocked c (k ∷ cs) (h, hs) m o = elim (member-cons c k cs m) [
  | inl same ↦
      by_member (member c blocked) (subst (λ j. may_block by_id blocked j ≡ false) (sym same) h)
  | inr later ↦ none_left by_id blocked c cs hs later o
]
  where
    by_member : (b : Bool) → (if b then false else is_open (Dict.get c by_id)) ≡ false → b ≡ true
    by_member true e = refl
    by_member false e = cc (e, o)

IsUnique-settle : (is : List Item) → IsUnique is → IsUnique (map settle is)
IsUnique-settle [] u = tt
IsUnique-settle (i ∷ is) (alone, u) = (
  subst (λ k. has_id k (map settle is) ≡ false) (sym (id_text-settle i))
      (has_id-settle (id_text i) is ∙ alone),
  IsUnique-settle is u,
)
  where
    has_id-settle : (c : String) (js : List Item) → has_id c (map settle js) ≡ has_id c js
    has_id-settle c [] = refl
    has_id-settle c (j ∷ js) = cc (id_text-settle j, has_id-settle c js)

module _ (p : Plan) (failed_id : String) (q : Plan) (blocked : List String)
    (proper : All IsProper (dict_rows p.items)) (unique : IsUnique (dict_rows p.items))
    (e : propagate_failure p failed_id ≡ some (q, blocked)) where
  IsReached-member : (c : String) → IsReached (agenda_rows p) failed_id c → member c blocked ≡ true
  IsReached-member c (direct m o) =
      none_left (items_by_id (agenda_rows p)) blocked c (dependents failed_id (agenda_rows p))
        (propagate_failure_closed p failed_id q blocked proper e failed_id
          (ground (arith, eq_refl failed_id)))
        m o
  IsReached-member c (spreads {t} r m o) =
      none_left (items_by_id (agenda_rows p)) blocked c (dependents t (agenda_rows p))
        (propagate_failure_closed p failed_id q blocked proper e t
          (ground (arith, IsReached-member t r)))
        m o

  result-Holds :
      Holds
        (λ t. dependents t (agenda_rows p))
        (λ c. first_waits c (agenda_rows p))
        (λ t c m.
          dependents-first_waits t c
            (agenda_rows p)
            (subst IsUnique (sym (agenda_rows-eq p)) (IsUnique-settle (dict_rows p.items) unique))
            m)
        q
        blocked
  unfolding propagate_failure agenda_rows
  result-Holds =
      spread-Holds (λ t. dependents t (agenda_rows p)) (λ c. first_waits c (agenda_rows p)) _
        (suc (length (agenda_rows p))) (items_by_id (agenda_rows p)) (ensure_agenda_fields p) []
        (failed_id ∷ []) q blocked
        (record {
          keeps = (
            subst (All IsFixed) (sym (agenda_rows-eq p))
                (IsFixed-settle (dict_rows p.items) proper),
            λ t. refl,
          );
          first = λ c. refl;
          has_deps = λ c m. cc m;
          shown = λ c m. cc m;
        })
        e

  -- In a plan in which no row has the empty text for its dependencies and no two rows have the same
  -- id, when the spread of a failure is over: every item that is not settled and depends on the
  -- failed one, directly or through other such items, has the status blocked in the plan returned.
  pub reached_blocked :
      (c : String)
      → IsReached (agenda_rows p) failed_id c
      → status_of c (dict_rows q.items) ≡ some "blocked"
  reached_blocked c r = result-Holds.shown c (IsReached-member c r)
