-- ===== src/TaskAgenda/Normal.antt =====
-- What `ensure_agenda_fields` makes of a plan, and that a second pass changes nothing.
use agent_langraph.Prelude.{
  ℕ, String, ◌≡◌, refl, ap, sym, ◌∙◌, Bool, true, false, not, ||_false, Bool-cases, inl, inr,
  Option, none, some, List, [], ◌∷◌, map, arith, ◌==◌, eq_iff, truthy, keep, any_of, All,
}
use agent_langraph.TaskAgenda.{
  Deps, missing, scalar, many, Item, row, Plan, id_or_empty, dict_rows, deps_list, is_empty,
  list_eq, same_deps, without_self, clean_deps, is_unblocked, repair_item, item_changed,
  repair_work_plan_dependencies, normalize_item, ensure_agenda_fields, agenda_rows,
}

pub dict_rows-map : (is : List Item) → dict_rows (map row is) ≡ is
unfolding dict_rows
dict_rows-map [] = refl
dict_rows-map (i ∷ is) = ap (λ rest. i ∷ rest) (dict_rows-map is)

list_eq→eq : (xs ys : List String) → list_eq xs ys ≡ true → xs ≡ ys
unfolding list_eq
list_eq→eq [] [] h = refl
list_eq→eq [] (y ∷ ys) h = cc
list_eq→eq (x ∷ xs) [] h = cc
list_eq→eq (x ∷ xs) (y ∷ ys) h = ground (arith, eq_iff x y, list_eq→eq xs ys)

same_deps→eq : (ds : List String) (d : Deps) → same_deps ds d ≡ true → d ≡ many ds
unfolding same_deps
same_deps→eq ds missing h = cc
same_deps→eq ds (scalar s) h = cc
same_deps→eq ds (many es) h = ap many (sym (list_eq→eq ds es h))

-- A row that raises no change is left as it is.
repair_item-unchanged : (i : Item) → item_changed i ≡ false → repair_item i ≡ i
unfolding repair_item item_changed
repair_item-unchanged i h = ground (arith, same_deps→eq (clean_deps i) i.depends_on)

repair_rows-unchanged : (is : List Item) → any_of item_changed is ≡ false → map repair_item is ≡ is
repair_rows-unchanged [] h = refl
repair_rows-unchanged (i ∷ is) h =
    let parts = ||_false (item_changed i) (any_of item_changed is) h in
    cc (repair_item-unchanged i parts.0, repair_rows-unchanged is parts.1)

-- What becomes of one row.
unfoldable pub settle : Item → Item
settle i = normalize_item (repair_item i)

is_empty→nil : (is : List Item) → is_empty is ≡ true → is ≡ []
is_empty→nil [] h = refl
is_empty→nil (i ∷ is) h = cc

repair_rows :
    (p : Plan)
    → dict_rows (repair_work_plan_dependencies p).items ≡ map repair_item (dict_rows p.items)
unfolding repair_work_plan_dependencies
repair_rows p = elim (Bool-cases (is_empty (dict_rows p.items))) [
  | inl no_rows ↦ rw no_rows (rw (is_empty→nil (dict_rows p.items) no_rows))
  | inr rows ↦ rw rows (elim (Bool-cases (any_of item_changed (dict_rows p.items))) [
    | inl changed ↦ rw changed (dict_rows-map (map repair_item (dict_rows p.items)))
    | inr same ↦ rw same (sym (repair_rows-unchanged (dict_rows p.items) same))
  ])
]

map-settle : (is : List Item) → map normalize_item (map repair_item is) ≡ map settle is
unfolding settle
map-settle [] = refl
map-settle (i ∷ is) = ap (λ rest. settle i ∷ rest) (map-settle is)

-- Every row is settled by itself, whether or not any row raised the flag `changed`, and what is no
-- dict is dropped.
pub agenda_rows-eq : (p : Plan) → agenda_rows p ≡ map settle (dict_rows p.items)
unfolding agenda_rows ensure_agenda_fields
agenda_rows-eq p =
    dict_rows-map (map normalize_item (dict_rows (repair_work_plan_dependencies p).items))
    ∙ (rw repair_rows (map-settle (dict_rows p.items)))

keep_idem {ℓ} : {A : Type ℓ} (p : A → Bool) (xs : List A) → keep p (keep p xs) ≡ keep p xs
keep_idem p [] = refl
keep_idem p (x ∷ xs) = ground (arith, keep_idem p xs)

keep_comm {ℓ} :
    {A : Type ℓ} (p q : A → Bool) (xs : List A) → keep p (keep q xs) ≡ keep q (keep p xs)
keep_comm p q [] = refl
keep_comm p q (x ∷ xs) = ground (arith, keep_comm p q xs)

without_self_idem :
    (id : String) (ds : List String) → without_self id (without_self id ds) ≡ without_self id ds
unfolding without_self
without_self_idem id ds = ground (arith, keep_idem (λ d. not (d == id)) ds)

without_self-keep :
    (id : String) (p : String → Bool) (ds : List String)
    → keep p (without_self id ds) ≡ without_self id (keep p ds)
unfolding without_self
without_self-keep id p ds = ground (arith, keep_comm p (λ d. not (d == id)) ds)

-- The dependencies are the empty text, and no list.
abbrev pub is_blank : Deps → Bool
is_blank missing = false
is_blank (scalar s) = not (truthy s)
is_blank (many ds) = false

abbrev pub IsProper : Item → Type 0
IsProper i = is_blank i.depends_on ≡ false

clean_deps-truthy : (i : Item) → IsProper i → keep truthy (clean_deps i) ≡ clean_deps i
unfolding clean_deps deps_list
clean_deps-truthy i h =
    rw without_self-keep (ap (without_self (id_or_empty i)) (proper i.depends_on h))
  where
    proper : (d : Deps) → is_blank d ≡ false → keep truthy (deps_list d) ≡ deps_list d
    proper missing h = refl
    proper (scalar s) h = ground arith
    proper (many ds) h = keep_idem truthy ds

without_self-clean_deps : (i : Item) → without_self (id_or_empty i) (clean_deps i) ≡ clean_deps i
unfolding clean_deps
without_self-clean_deps i = without_self_idem (id_or_empty i) (deps_list i.depends_on)

clean_deps-settle_twice :
    (i : Item)
    → clean_deps (settle i)
      ≡ without_self (id_or_empty i) (keep truthy (keep truthy (clean_deps i)))
unfolding settle normalize_item repair_item clean_deps
clean_deps-settle_twice i = refl

clean_deps-settle : (i : Item) → IsProper i → clean_deps (settle i) ≡ clean_deps i
clean_deps-settle i h =
    clean_deps-settle_twice i
    ∙ rw (clean_deps-truthy i h) (rw (clean_deps-truthy i h) (without_self-clean_deps i))

depends_on-settle : (i : Item) → IsProper i → (settle i).depends_on ≡ many (clean_deps i)
unfolding settle normalize_item repair_item deps_list
depends_on-settle i h = ap many (clean_deps-truthy i h)

settle-IsProper : (i : Item) → IsProper (settle i)
unfolding settle normalize_item
settle-IsProper i = refl

status-settle : (i : Item) → IsProper i → (settle (settle i)).status ≡ (settle i).status
unfolding settle normalize_item repair_item is_unblocked
status-settle i h = ground (arith, clean_deps-settle i h)

-- A row that has been settled stays as it is.
pub settle_idem : (i : Item) → IsProper i → settle (settle i) ≡ settle i
unfolding settle normalize_item repair_item
settle_idem i h =
    let same : (settle (settle i)).depends_on ≡ (settle i).depends_on =
      depends_on-settle (settle i) (settle-IsProper i)
      ∙ (ap many (clean_deps-settle i h) ∙ sym (depends_on-settle i h)) in
    λ k. record i { status = status-settle i h k; depends_on = same k }

settle_rows_idem : (is : List Item) → All IsProper is → map settle (map settle is) ≡ map settle is
settle_rows_idem [] h = refl
settle_rows_idem (i ∷ is) h = cc (settle_idem i h.0, settle_rows_idem is h.1)

version_or_one : Option ℕ → Option ℕ
version_or_one none = some 1
version_or_one (some v) = some v

-- The repair touches the rows alone.
repair_rest :
    (p : Plan)
    → let q = repair_work_plan_dependencies p in
      (q.current_id ≡ p.current_id)
      × (q.total_items ≡ p.total_items)
      × (q.mode ≡ p.mode)
      × (q.agenda_version ≡ p.agenda_version)
unfolding repair_work_plan_dependencies
repair_rest p = ground arith

version_or_one_idem : (v : Option ℕ) → version_or_one (version_or_one v) ≡ version_or_one v
unfolding version_or_one
version_or_one_idem none = refl
version_or_one_idem (some v) = refl

-- The plan that one pass leaves.
settled_plan : Plan → Plan
settled_plan p = record p {
  items = map row (map settle (dict_rows p.items));
  agenda_version = version_or_one p.agenda_version;
}

-- The whole plan after the pass: only the rows and a missing version change.
ensure-eq : (p : Plan) → ensure_agenda_fields p ≡ settled_plan p
unfolding ensure_agenda_fields version_or_one settled_plan
ensure-eq p =
    let rest = repair_rest p in
    let rows : map normalize_item (dict_rows (repair_work_plan_dependencies p).items)
        ≡ map settle (dict_rows p.items) =
      rw repair_rows (map-settle (dict_rows p.items)) in
    λ k. record {
      items = map row (rows k);
      current_id = rest.0 k;
      total_items = rest.1 k;
      mode = rest.2 k;
      agenda_version = version_or_one (rest.3 k);
    }

settled_plan_idem :
    (p : Plan) → All IsProper (dict_rows p.items) → settled_plan (settled_plan p) ≡ settled_plan p
unfolding settled_plan
settled_plan_idem p h =
    let rows : map settle (dict_rows (map row (map settle (dict_rows p.items))))
        ≡ map settle (dict_rows p.items) =
      rw dict_rows-map (settle_rows_idem (dict_rows p.items) h) in
    λ k. record p {
      items = map row (rows k);
      agenda_version = version_or_one_idem p.agenda_version k;
    }

-- A plan in which no row has the empty text for its dependencies is settled by one pass: the
-- functions of this file, which each begin with a pass, see the same rows however often it is made.
pub ensure_idempotent :
    (p : Plan)
    → All IsProper (dict_rows p.items)
    → ensure_agenda_fields (ensure_agenda_fields p) ≡ ensure_agenda_fields p
ensure_idempotent p h =
    ap ensure_agenda_fields (ensure-eq p)
    ∙ (ensure-eq (settled_plan p) ∙ (settled_plan_idem p h ∙ sym (ensure-eq p)))
