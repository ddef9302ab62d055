-- ===== src/TaskAgenda/Select.antt =====
-- Which row `select_next_runnable_item` picks.
use agent_langraph.Prelude.{
  String, ◌≡◌, refl, ap, sym, ◌∙◌, ◌⊎◌, inl, inr, Bool, true, ◌&&◌, ◌||◌, Bool-cases, Option-cases,
  Option, none, some, List, [], ◌∷◌, arith, ◌==◌, if◌then◌else◌, truthy, keep, any_of, All, is_some,
}
use agent_langraph.Prelude.Dict
use agent_langraph.Prelude.Dict.{Dict, get-put, get-empty}
use agent_langraph.TaskAgenda.{
  Item, Plan, id_or_empty, id_text, status_text, dict_rows, ensure_agenda_fields, agenda_rows,
  items_by_id_from, items_by_id, dependencies_met, runnable, head?, first_running, current_runnable,
  or_next, select_next_runnable_item,
}
use agent_langraph.TaskAgenda.Normal.{IsProper, ensure_idempotent}

abbrev pub is_running : Item → Bool
is_running i = status_text i == "running"

-- A pending row whose dependencies, as far as the plan has them, are done.
abbrev pub is_ready : List Item → Item → Bool
is_ready all i = status_text i == "pending" && dependencies_met i all

runnable-eq-keep : (all is : List Item) → runnable all is ≡ keep (is_ready all) is
unfolding runnable
runnable-eq-keep all [] = refl
runnable-eq-keep all (i ∷ is) = ground (arith, runnable-eq-keep all is)

module _ {ℓ} {A : Type ℓ} (p : A → Bool) where
  head-keep_iff : (xs : List A) → is_some (head? (keep p xs)) ≡ any_of p xs
  head-keep_iff [] = refl
  head-keep_iff (x ∷ xs) = elim (Bool-cases (p x)) [
    | inl h ↦ rw h
    | inr h ↦ rw h (head-keep_iff xs)
  ]

  head-keep_holds : (xs : List A) {x : A} → head? (keep p xs) ≡ some x → p x ≡ true
  head-keep_holds [] h = cc
  head-keep_holds (y ∷ xs) {x} h = elim (Bool-cases (p y)) [
    | inl e ↦ found e (rw e at h)
    | inr e ↦ head-keep_holds xs (rw e at h)
  ]
    where
      found : p y ≡ true → some y ≡ some x → p x ≡ true
      found e same = cc

-- What a dictionary of rows holds under a key is one of the rows.
from_rows :
    (p : Item → Bool) (c : String) (d : Dict Item) (is : List Item) {i : Item}
    → Dict.get c (items_by_id_from d is) ≡ some i
    → p i ≡ true
    → (any_of p is ≡ true) ⊎ (Dict.get c d ≡ some i)
unfolding items_by_id_from
from_rows p c d [] h holds = inr h
from_rows p c d (j ∷ is) {i} h holds = ground (
  arith,
  from_rows p c (if truthy (id_or_empty j) then Dict.put (id_text j) j d else d) is h holds,
  get-put (id_text j) c j d,
)

by_id_holds :
    (p : Item → Bool) (c : String) (is : List Item) {i : Item}
    → Dict.get c (items_by_id is) ≡ some i
    → p i ≡ true
    → any_of p is ≡ true
unfolding items_by_id
by_id_holds p c is h holds = ground (arith, from_rows p c [] is h holds, get-empty {V = Item} c)

current_holds :
    (c : Option String) (is : List Item) {i : Item}
    → current_runnable c is ≡ some i
    → is_ready is i ≡ true
unfolding current_runnable
current_holds c is h = ground arith

current-any :
    (c : Option String) (is : List Item)
    → is_some (current_runnable c is) ≡ true
    → any_of (is_ready is) is ≡ true
unfolding current_runnable
current-any none is h = cc
current-any (some c) is h = elim (Option-cases (Dict.get c (items_by_id is))) [
  | inl e ↦ ground arith
  | inr (i, e) ↦ ground (arith, by_id_holds (is_ready is) c is e)
]

-- The choice among normalized rows.
choice : Option String → List Item → Option Item
choice c is = or_next (first_running is) (or_next (current_runnable c is) (head? (runnable is is)))

select-eq-choice :
    (p : Plan)
    → All IsProper (dict_rows p.items)
    → select_next_runnable_item p ≡ choice (ensure_agenda_fields p).current_id (agenda_rows p)
unfolding select_next_runnable_item agenda_rows choice
select-eq-choice p h =
    let is = dict_rows (ensure_agenda_fields p).items in
    ap
      (λ (q : Plan). or_next (first_running is) (
        or_next (current_runnable (ensure_agenda_fields p).current_id is)
          (head? (runnable (dict_rows q.items) (dict_rows q.items)))))
      (ensure_idempotent p h)

choice-some :
    (c : Option String) (is : List Item)
    → is_some (choice c is) ≡ (any_of is_running is || any_of (is_ready is) is)
unfolding choice first_running
choice-some c is = ground (
  arith,
  head-keep_iff is_running is,
  head-keep_iff (is_ready is) is,
  runnable-eq-keep is is,
  current-any c is,
)

choice-holds :
    (c : Option String) (is : List Item) {i : Item}
    → choice c is ≡ some i
    → (if any_of is_running is then is_running i else is_ready is i) ≡ true
unfolding choice first_running
choice-holds c is {i} h = ground (
  arith,
  head-keep_iff is_running is,
  head-keep_holds is_running is {x = i},
  head-keep_holds (is_ready is) is {x = i},
  runnable-eq-keep is is,
  current_holds c is {i = i},
)

-- In a plan in which no row has the empty text for its dependencies, a row is picked exactly if
-- some row is running or is pending with its dependencies done; the one that is picked is running
-- if any row is, and else pending with its dependencies done.
pub select_next_runnable :
    (p : Plan)
    → All IsProper (dict_rows p.items)
    → let is = agenda_rows p in
      (is_some (select_next_runnable_item p) ≡ (any_of is_running is || any_of (is_ready is) is))
      × ((i : Item)
          → select_next_runnable_item p ≡ some i
          → (if any_of is_running is then is_running i else is_ready is i) ≡ true)
select_next_runnable p h =
    let e = select-eq-choice p h in
    let c = (ensure_agenda_fields p).current_id in
    (
      ap is_some e ∙ choice-some c (agenda_rows p),
      λ i picked. choice-holds c (agenda_rows p) (sym e ∙ picked),
    )
