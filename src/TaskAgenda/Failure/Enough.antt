-- ===== src/TaskAgenda/Failure/Enough.antt =====
-- The spread of a failure ends.
use agent_langraph.Prelude.{
  ℕ, zero, suc, ◌+◌, ◌≤◌, String, ◌≡◌, refl, ap, ◌⊎◌, inl, inr, true, false, not, Option, none,
  some, List, [], ◌∷◌, map, arith, eq_iff, if◌then◌else◌, truthy, by_if, member, length,
  length-append, length-keep-le, keep, is_some,
}
use agent_langraph.Prelude.Dict
use agent_langraph.Prelude.Dict.{Dict, get-put, get-empty}
use agent_langraph.TaskAgenda.{
  Item, Plan, id_text, id_or_empty, dict_rows, ensure_agenda_fields, items_by_id_from, items_by_id,
}
use agent_langraph.TaskAgenda.Failure.{
  Pass, is_open, may_block, block, block_children, dependents, spread, propagate_failure,
}

-- How many of the ids are not blocked.
abbrev pub free_ids : List String → List String → ℕ
free_ids ids blocked = length (keep (λ k. not (member k blocked)) ids)

pub free_ids-grow :
    (c : String) (ids blocked : List String) → free_ids ids (c ∷ blocked) ≤ free_ids ids blocked
free_ids-grow c [] blocked = omega arith
free_ids-grow c (k ∷ ids) blocked = ground (arith, free_ids-grow c ids blocked)

pub free_ids-less :
    (c : String) (ids blocked : List String)
    → member c ids ≡ true
    → member c blocked ≡ false
    → suc (free_ids ids (c ∷ blocked)) ≤ free_ids ids blocked
free_ids-less c [] blocked h new = cc
free_ids-less c (k ∷ ids) blocked h new =
    ground (arith, eq_iff c k, eq_iff k c, free_ids-grow c ids blocked, free_ids-less c ids blocked)

-- An id under which there is an item is the id of one of the rows.
known :
    (c : String) (d : Dict Item) (is : List Item)
    → is_some (Dict.get c (items_by_id_from d is)) ≡ true
    → (is_some (Dict.get c d) ≡ true) ⊎ (member c (map id_text is) ≡ true)
unfolding items_by_id_from
known c d [] h = inl h
known c d (i ∷ is) h = ground (
  arith,
  known c (if truthy (id_or_empty i) then Dict.put (id_text i) i d else d) is h,
  get-put (id_text i) c i d,
  eq_iff c (id_text i),
  eq_iff (id_text i) c,
)

some_open : (o : Option Item) → is_open o ≡ true → is_some o ≡ true
some_open none h = cc
some_open (some i) h = refl

is_known :
    (is : List Item) (c : String)
    → is_open (Dict.get c (items_by_id is)) ≡ true
    → member c (map id_text is) ≡ true
unfolding items_by_id
is_known is c h = by_case (known c [] is (some_open (Dict.get c (items_by_id_from [] is)) h))
  where
    by_case :
        (is_some {A = Item} (Dict.get c []) ≡ true) ⊎ (member c (map id_text is) ≡ true)
        → member c (map id_text is) ≡ true
    by_case (inl e) = cc (e, get-empty {V = Item} c)
    by_case (inr e) = e

pub may_block-true :
    (by_id : Dict Item) (blocked : List String) (c : String)
    → may_block by_id blocked c ≡ true
    → (member c blocked ≡ false) × (is_open (Dict.get c by_id) ≡ true)
may_block-true by_id blocked c h = ground arith

-- The ids in the queue and those that are not blocked.
abbrev weight : List String → Pass → ℕ
weight ids w = length w.queue + free_ids ids w.blocked

module _ (by_id : Dict Item) (ids : List String)
    (h : (c : String) → is_open (Dict.get c by_id) ≡ true → member c ids ≡ true) where
  block-weight :
      (current c : String) (w : Pass)
      → weight ids (if may_block by_id w.blocked c then block current c w else w) ≤ weight ids w
  unfolding block
  block-weight current c w =
      by_if (λ v. weight ids v ≤ weight ids w) (may_block by_id w.blocked c)
        (λ e.
          let (new, is_there) = may_block-true by_id w.blocked c e in
          omega (
            arith,
            length-append w.queue (c ∷ []),
            free_ids-less c ids w.blocked (h c is_there) new,
          ))
        (λ e. omega arith)

  block_children-weight :
      (current : String) (cs : List String) (w : Pass)
      → weight ids (block_children by_id current cs w) ≤ weight ids w
  unfolding block_children
  block_children-weight current [] w = omega arith
  block_children-weight current (c ∷ cs) w = omega (
    arith,
    block-weight current c w,
    block_children-weight current cs (if may_block by_id w.blocked c then block current c w else w),
  )

  spread_total :
      (n : ℕ) (p : Plan) (blocked queue : List String)
      → length queue + free_ids ids blocked ≤ n
      → is_some (spread n by_id p blocked queue) ≡ true
  unfolding spread
  spread_total n p blocked [] enough = refl
  spread_total zero p blocked (c ∷ queue) enough = absurd (omega (arith, enough))
  spread_total (suc n) p blocked (c ∷ queue) enough =
      let start : Pass = record { plan = p; blocked = blocked; queue = queue } in
      let w = block_children by_id c (dependents c (dict_rows p.items)) start in
      spread_total n w.plan w.blocked w.queue
        (omega (arith, enough, block_children-weight c (dependents c (dict_rows p.items)) start))

pub free_ids-all : (ids : List String) → free_ids ids [] ≤ length ids
free_ids-all ids = length-keep-le (λ k. not (member k [])) ids

length-map : (is : List Item) → length (map id_text is) ≡ length is
length-map [] = refl
length-map (i ∷ is) = ap suc (length-map is)

-- The spread of a failure ends for every plan, with cycles or without: as many rounds as there are
-- rows, and one more, empty the queue.
pub propagate_failure_total :
    (p : Plan) (failed_id : String) → is_some (propagate_failure p failed_id) ≡ true
unfolding propagate_failure
propagate_failure_total p failed_id =
    let q = ensure_agenda_fields p in
    let is = dict_rows q.items in
    spread_total (items_by_id is) (map id_text is) (is_known is) (suc (length is)) q []
      (failed_id ∷ []) (omega (arith, free_ids-all (map id_text is), length-map is))
