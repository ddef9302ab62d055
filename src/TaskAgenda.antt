-- ===== src/TaskAgenda.antt =====
-- app/services/task_agenda.py: the work queue with dependencies. A plan and its rows are Python
-- dicts; a row here has the keys that the file reads or writes, with `none` for a missing one, and
-- a row that is no dict is `junk`. Values that the code turns into texts by `str` are texts.
pub mod Normal
pub mod Settled
pub mod Select
pub mod Failure
pub mod Replan
pub mod Merge
mod Examples
use agent_langraph.Prelude.{
  ℕ, suc, ◌+◌, String, Bool, true, false, not, ◌&&◌, ◌||◌, Option, none, some, List, [], ◌∷◌, ◌++◌,
  map, ◌==◌, if◌then◌else◌, truthy, or_text, keep, any_of, member, length, eqb,
}
use agent_langraph.Prelude.Dict
use agent_langraph.Prelude.Dict.{Dict}

-- `depends_on`: missing or None, a value that is no list, a list.
pub data Deps : Type 0 where
  missing : Deps
  scalar : String → Deps
  many : List String → Deps

pub record Item : Type 0 where
  pub id : Option String
  pub kind : Option String
  pub title : Option String
  pub step_text : Option String
  pub status : Option String
  pub status_reason : Option String
  pub depends_on : Deps

pub data Row : Type 0 where
  row : Item → Row
  junk : Row

pub record Plan : Type 0 where
  pub items : List Row
  pub current_id : Option String
  pub total_items : Option ℕ
  pub mode : Option String
  pub agenda_version : Option ℕ

abbrev pub terminal_statuses : List String
terminal_statuses = "done" ∷ "cancelled" ∷ "superseded" ∷ []

-- `str(row.get("id"))`
abbrev pub id_text : Item → String
id_text i = elim i.id [ none ↦ "None" | some s ↦ s ]

-- `str(row.get("id") or "")`
abbrev pub id_or_empty : Item → String
id_or_empty i = or_text i.id ""

-- `str(row.get("status") or "")`
abbrev pub status_text : Item → String
status_text i = or_text i.status ""

unfoldable pub dict_rows : List Row → List Item
dict_rows [] = []
dict_rows (row i ∷ rs) = i ∷ dict_rows rs
dict_rows (junk ∷ rs) = dict_rows rs

unfoldable pub deps_list : Deps → List String
deps_list missing = []
deps_list (scalar d) = d ∷ []
deps_list (many ds) = keep truthy ds

abbrev pub is_empty {ℓ} : {A : Type ℓ} → List A → Bool
is_empty [] = true
is_empty (x ∷ xs) = false

unfoldable pub list_eq : List String → List String → Bool
list_eq [] [] = true
list_eq (x ∷ xs) (y ∷ ys) = x == y && list_eq xs ys
list_eq _ _ = false

-- `deps == item.get("depends_on")`
unfoldable pub same_deps : List String → Deps → Bool
unfolding list_eq
same_deps ds missing = false
same_deps ds (scalar d) = false
same_deps ds (many es) = list_eq ds es

unfoldable pub without_self : String → List String → List String
without_self id ds = if truthy id then keep (λ d. not (d == id)) ds else ds

-- The dependencies that `repair_work_plan_dependencies` writes to a row.
unfoldable pub clean_deps : Item → List String
unfolding without_self deps_list
clean_deps i = without_self (id_or_empty i) (deps_list i.depends_on)

unfoldable pub is_unblocked : Item → Bool
unfolding clean_deps
is_unblocked i = status_text i == "blocked" && (is_empty (clean_deps i) && truthy (id_or_empty i))

unfoldable pub repair_item : Item → Item
unfolding is_unblocked
repair_item i = record i {
  status = if is_unblocked i then some "pending" else i.status;
  depends_on = many (clean_deps i);
}

-- What sets the flag `changed`.
unfoldable pub item_changed : Item → Bool
unfolding is_unblocked same_deps
item_changed i =
    not (eqb (length (clean_deps i)) (length (deps_list i.depends_on)))
    || (not (same_deps (clean_deps i) i.depends_on) || is_unblocked i)

unfoldable pub repair_work_plan_dependencies : Plan → Plan
unfolding dict_rows repair_item item_changed
repair_work_plan_dependencies p =
    let is = dict_rows p.items in
    if is_empty is
    then p
    else if any_of item_changed is
    then record p { items = map row (map repair_item is) }
    else p

unfoldable pub normalize_item : Item → Item
unfolding deps_list
normalize_item i = record i {
  status = some (or_text i.status "pending");
  depends_on = many (deps_list i.depends_on);
}

unfoldable pub ensure_agenda_fields : Plan → Plan
unfolding repair_work_plan_dependencies normalize_item dict_rows
ensure_agenda_fields p =
    let out = repair_work_plan_dependencies p in
    record out {
      items = map row (map normalize_item (dict_rows out.items));
      agenda_version = elim out.agenda_version [ none ↦ some 1 | some v ↦ some v ];
    }

-- `_items_by_id`: a later row replaces an earlier one of the same id.
unfoldable pub items_by_id_from : Dict Item → List Item → Dict Item
items_by_id_from d [] = d
items_by_id_from d (i ∷ is) =
    items_by_id_from (if truthy (id_or_empty i) then Dict.put (id_text i) i d else d) is

unfoldable pub items_by_id : List Item → Dict Item
unfolding items_by_id_from
items_by_id = items_by_id_from []

-- What a loop over a text gives: its characters, each as a text.
unfoldable pub characters : String → List String
characters String.[] = []
characters (String.◌∷◌ c s) = String.◌∷◌ c String.[] ∷ characters s

-- What a loop over `row.get("depends_on") or []` gives.
abbrev pub raw_deps : Deps → List String
raw_deps missing = []
raw_deps (scalar d) = characters d
raw_deps (many ds) = ds

unfoldable pub deps_done : Dict Item → List String → Bool
deps_done by_id [] = true
deps_done by_id (d ∷ ds) =
    elim (Dict.get d by_id) [ none ↦ true | some i ↦ status_text i == "done" ] && deps_done by_id ds

unfoldable pub dependencies_met : Item → List Item → Bool
unfolding deps_done items_by_id
dependencies_met i is = deps_done (items_by_id is) (raw_deps i.depends_on)

-- The rows of a plan that has been through `ensure_agenda_fields`.
unfoldable pub agenda_rows : Plan → List Item
unfolding ensure_agenda_fields dict_rows
agenda_rows p = dict_rows (ensure_agenda_fields p).items

unfoldable pub runnable : List Item → List Item → List Item
unfolding dependencies_met
runnable all [] = []
runnable all (i ∷ is) =
    let rest = runnable all is in
    if status_text i == "pending" && dependencies_met i all then i ∷ rest else rest

unfoldable pub runnable_items : Plan → List Item
unfolding agenda_rows runnable
runnable_items p = runnable (agenda_rows p) (agenda_rows p)

abbrev pub head? {ℓ} : {A : Type ℓ} → List A → Option A
head? [] = none
head? (x ∷ xs) = some x

unfoldable pub first_running : List Item → Option Item
first_running is = head? (keep (λ i. status_text i == "running") is)

-- The item under `current_id`, if it is still runnable.
unfoldable pub current_runnable : Option String → List Item → Option Item
unfolding dependencies_met items_by_id
current_runnable none is = none
current_runnable (some c) is =
    if truthy c
    then elim (Dict.get c (items_by_id is)) [
      | none ↦ none
      | some i ↦ if status_text i == "pending" && dependencies_met i is then some i else none
    ]
    else none

abbrev pub or_next {ℓ} : {A : Type ℓ} → Option A → Option A → Option A
or_next none o = o
or_next (some a) o = some a

-- `runnable_items` normalizes the normalized plan once more.
unfoldable pub select_next_runnable_item : Plan → Option Item
unfolding first_running current_runnable runnable_items ensure_agenda_fields
select_next_runnable_item p =
    let q = ensure_agenda_fields p in
    let is = dict_rows q.items in
    or_next (first_running is)
      (or_next (current_runnable q.current_id is) (head? (runnable_items q)))

unfoldable pub update_first : String → String → String → List Item → List Item
update_first item_id status reason [] = []
update_first item_id status reason (i ∷ is) =
    if id_text i == item_id
    then record i {
      status = some status;
      status_reason = if truthy reason then some reason else i.status_reason;
    }
      ∷ is
    else i ∷ update_first item_id status reason is

-- `set_item_status`, which every caller of this file calls without `extra`.
unfoldable pub set_item_status : Plan → String → String → String → Plan
unfolding ensure_agenda_fields update_first dict_rows
set_item_status p item_id status reason =
    let q = ensure_agenda_fields p in
    record q { items = map row (update_first item_id status reason (dict_rows q.items)) }
