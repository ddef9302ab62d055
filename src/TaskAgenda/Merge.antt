-- ===== src/TaskAgenda/Merge.antt =====
-- `merge_agenda_into_work_plan` and `agenda_summary` of app/services/task_agenda.py.
use agent_langraph.Prelude.{
  ℕ, suc, ◌+◌, String, ◌≡◌, refl, ap, sym, ◌∙◌, Bool, true, false, not, ◌||◌, Option, none, some,
  List, [], ◌∷◌, ◌++◌, map, arith, eq_refl, ||_true, if◌then◌else◌, truthy, or_text, keep, member,
  length, All, by_if, leb,
}
use agent_langraph.Prelude.Dict
use agent_langraph.Prelude.Dict.{Dict}
use agent_langraph.TaskAgenda.{
  Item, row, Plan, is_empty, id_text, id_or_empty, dict_rows, ensure_agenda_fields, agenda_rows,
  runnable_items, normalize_item, repair_item,
}
use agent_langraph.TaskAgenda.Normal.{settle, agenda_rows-eq, dict_rows-map}

-- `existing_ids`
unfoldable pub existing_ids : List Item → List String
existing_ids [] = []
existing_ids (i ∷ is) =
    let rest = existing_ids is in if truthy (id_or_empty i) then id_text i ∷ rest else rest

unfoldable pub new_items : List Item → List Item → List Item
unfolding existing_ids
new_items is agenda_items = keep (λ i. not (member (id_text i) (existing_ids is))) agenda_items

abbrev pub or_one : Option ℕ → ℕ
or_one none = 1
or_one (some v) = if leb v 0 then 1 else v

unfoldable pub merge_agenda_into_work_plan : Plan → List Item → String → Plan
unfolding ensure_agenda_fields new_items dict_rows
merge_agenda_into_work_plan p agenda_items mode =
    let q = ensure_agenda_fields p in
    let merged = dict_rows q.items ++ new_items (dict_rows q.items) agenda_items in
    if is_empty agenda_items then q else record q {
      items = map row merged;
      total_items = some (length merged);
      mode = some (or_text q.mode mode);
      agenda_version = some (or_one q.agenda_version + 1);
    }

-- The counts of the statuses, in the order in which they are met.
unfoldable pub count_statuses : Dict ℕ → List Item → Dict ℕ
count_statuses counts [] = counts
count_statuses counts (i ∷ is) =
    let status = or_text i.status "pending" in
    count_statuses
      (Dict.put status (elim (Dict.get status counts) [ none ↦ 1 | some n ↦ suc n ]) counts) is

pub record Summary : Type 0 where
  pub total : ℕ
  pub counts : Dict ℕ
  pub runnable : ℕ
  pub current_id : Option String
  pub agenda_version : Option ℕ

unfoldable pub agenda_summary : Plan → Summary
unfolding ensure_agenda_fields count_statuses dict_rows
agenda_summary p =
    let q = ensure_agenda_fields p in
    record {
      total = length (dict_rows q.items);
      counts = count_statuses [] (dict_rows q.items);
      runnable = length (runnable_items q);
      current_id = q.current_id;
      agenda_version = q.agenda_version;
    }

existing_ids-settle : (is : List Item) → existing_ids (map settle is) ≡ existing_ids is
unfolding existing_ids settle normalize_item repair_item
existing_ids-settle [] = refl
existing_ids-settle (i ∷ is) =
    ap (λ rest. if truthy (id_or_empty i) then id_text i ∷ rest else rest) (existing_ids-settle is)

existing_ids-append :
    (is js : List Item) → existing_ids (is ++ js) ≡ existing_ids is ++ existing_ids js
unfolding existing_ids
existing_ids-append [] js = refl
existing_ids-append (i ∷ is) js = ground (arith, existing_ids-append is js)

member-append :
    (x : String) (xs ys : List String) → member x (xs ++ ys) ≡ (member x xs || member x ys)
member-append x [] ys = refl
member-append x (z ∷ xs) ys = ground (arith, member-append x xs ys)

-- The item is among these rows, by its id.
abbrev is_known : List Item → List Item → Item → Bool
is_known is js x = member (id_text x) (existing_ids is) || member (id_text x) (existing_ids js)

known_more :
    (is js : List Item) (y : Item) (xs : List Item)
    → All (λ x. is_known is js x ≡ true) xs
    → All (λ x. is_known is (y ∷ js) x ≡ true) xs
unfolding existing_ids
known_more is js y [] h = tt
known_more is js y (x ∷ xs) (h, hs) = (ground (arith, h), known_more is js y xs hs)

was_known : (a b : Bool) → not a ≡ false → (a || b) ≡ true
was_known true b h = refl
was_known false b h = cc h

new_items-known :
    (is xs : List Item)
    → All (λ x. truthy (id_or_empty x) ≡ true) xs
    → All (λ x. is_known is (new_items is xs) x ≡ true) xs
unfolding new_items existing_ids
new_items-known is [] named = tt
new_items-known is (x ∷ xs) (n, named) =
    let rest = new_items-known is xs named in
    by_if (λ js. All (λ z. is_known is js z ≡ true) (x ∷ xs))
      (not (member (id_text x) (existing_ids is)))
      (λ e. (rw (n, eq_refl (id_text x)) (||_true _), known_more is (new_items is xs) x xs rest))
      (λ e. (was_known (member (id_text x) (existing_ids is)) _ e, rest))

none_new :
    (is xs : List Item)
    → All (λ x. member (id_text x) (existing_ids is) ≡ true) xs
    → new_items is xs ≡ []
unfolding new_items
none_new is [] h = refl
none_new is (x ∷ xs) (h, hs) = rw h (none_new is xs hs)

append_nil : (is : List Item) → is ++ [] ≡ is
append_nil [] = refl
append_nil (i ∷ is) = ap (λ js. i ∷ js) (append_nil is)

-- The rows of a plan that items were merged into.
rows-merge :
    (p : Plan) (xs : List Item) (mode : String)
    → dict_rows (merge_agenda_into_work_plan p xs mode).items
      ≡ agenda_rows p ++ new_items (agenda_rows p) xs
unfolding merge_agenda_into_work_plan agenda_rows new_items
rows-merge p [] mode = sym (append_nil (agenda_rows p))
rows-merge p (x ∷ xs) mode = dict_rows-map (agenda_rows p ++ new_items (agenda_rows p) (x ∷ xs))

known_again :
    (is xs : List Item)
    → (ys : List Item) → All (λ x. is_known is (new_items is xs) x ≡ true) ys
    → All (λ x. member (id_text x) (existing_ids (map settle (is ++ new_items is xs))) ≡ true) ys
known_again is xs [] hs = tt
known_again is xs (y ∷ ys) (k, hs) = (
  ap (member (id_text y))
        (existing_ids-settle (is ++ new_items is xs) ∙ existing_ids-append is (new_items is xs))
      ∙ member-append (id_text y) (existing_ids is) (existing_ids (new_items is xs))
      ∙ k,
  known_again is xs ys hs,
)

-- Merging the same items a second time, each with an id, adds no row: the rows are those of the plan
-- that the first time left.
pub merge_twice :
    (p : Plan) (xs : List Item) (mode : String)
    → All (λ x. truthy (id_or_empty x) ≡ true) xs
    → let q = merge_agenda_into_work_plan p xs mode in
      dict_rows (merge_agenda_into_work_plan q xs mode).items ≡ agenda_rows q
merge_twice p xs mode named =
    let q = merge_agenda_into_work_plan p xs mode in
    let is = agenda_rows p in
    let rows : agenda_rows q ≡ map settle (is ++ new_items is xs) =
      agenda_rows-eq q ∙ ap (map settle) (rows-merge p xs mode) in
    let known = known_again is xs xs (new_items-known is xs named) in
    rows-merge q xs mode
    ∙ ap (λ js. agenda_rows q ++ js)
        (ap (λ js. new_items js xs) rows ∙ none_new (map settle (is ++ new_items is xs)) xs known)
    ∙ append_nil (agenda_rows q)
