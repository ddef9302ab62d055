-- ===== src/TaskAgenda/Settled.antt =====
-- What every row of an agenda is after `ensure_agenda_fields`.
use agent_langraph.Prelude.{
  String, ◌≡◌, refl, Bool, true, false, not, ◌&&◌, Bool-cases, inl, inr, Option, none, some, List,
  [], ◌∷◌, map, arith, ◌==◌, eq_iff, if◌then◌else◌, truthy, or_text, keep, All, member,
}
use agent_langraph.TaskAgenda.{
  Item, Plan, id_or_empty, status_text, dict_rows, deps_list, without_self, clean_deps,
  is_unblocked, repair_item, normalize_item, agenda_rows,
}
use agent_langraph.TaskAgenda.Normal.{settle, agenda_rows-eq}

member-keep_ne : (id : String) (ds : List String) → member id (keep (λ d. not (d == id)) ds) ≡ false
member-keep_ne id [] = refl
member-keep_ne id (d ∷ ds) = ground (arith, eq_iff id d, eq_iff d id, member-keep_ne id ds)

member-keep :
    (p : String → Bool) (x : String) (ds : List String)
    → member x ds ≡ false
    → member x (keep p ds) ≡ false
member-keep p x [] h = refl
member-keep p x (d ∷ ds) h = ground (arith, member-keep p x ds)

&&_false : (b : Bool) → (b && false) ≡ false
&&_false true = refl
&&_false false = refl

-- No row depends on itself, and each row has a status.
abbrev pub IsSettled : Item → Type 0
IsSettled i =
    (member (id_or_empty i) (deps_list i.depends_on) && truthy (id_or_empty i) ≡ false)
    × (truthy (status_text i) ≡ true)

or_text-truthy : (o : Option String) → truthy (or_text o "pending") ≡ true
or_text-truthy none = refl
or_text-truthy (some s) = elim (Bool-cases (truthy s)) [
  | inl full ↦ rw full full
  | inr blank ↦ rw blank
]

kept : (s : String) → truthy s ≡ true → truthy (or_text (some s) "") ≡ true
kept s h = rw h h

status-settle-truthy : (i : Item) → truthy (status_text (settle i)) ≡ true
unfolding settle normalize_item repair_item
status-settle-truthy i =
    let s : Option String = if is_unblocked i then some "pending" else i.status in
    kept (or_text s "pending") (or_text-truthy s)

settle-IsSettled : (i : Item) → IsSettled (settle i)
unfolding settle normalize_item repair_item clean_deps deps_list without_self
settle-IsSettled i =
    let id = id_or_empty i in
    let ds = deps_list i.depends_on in
    (
      elim (Bool-cases (truthy id)) [
        | inl named ↦ rw (
            member-keep truthy id (keep truthy (clean_deps i))
              (member-keep truthy id (clean_deps i) (rw named (member-keep_ne id ds))))
        | inr blank ↦ rw blank (&&_false _)
      ],
      status-settle-truthy i,
    )

IsSettled-rows : (is : List Item) → All IsSettled (map settle is)
IsSettled-rows [] = tt
IsSettled-rows (i ∷ is) = (settle-IsSettled i, IsSettled-rows is)

-- After `ensure_agenda_fields` no row with an id depends on itself, and every row has a status.
pub agenda_rows-IsSettled : (p : Plan) → All IsSettled (agenda_rows p)
agenda_rows-IsSettled p = rw agenda_rows-eq (IsSettled-rows (dict_rows p.items))
