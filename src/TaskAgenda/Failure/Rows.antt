-- ===== src/TaskAgenda/Failure/Rows.antt =====
-- The row of an id, through the passes of `propagate_failure` over the plan.
use agent_langraph.Prelude.{
  ◌&&◌, String, ◌≡◌, refl, ap, subst, ◌∙◌, inl, inr, Bool, true, false, not, Option, none, some,
  List, [], ◌∷◌, map, arith, ◌==◌, eq_iff, if◌then◌else◌, by_if, member, any_of, All, Bool-cases,
  truthy,
}
use agent_langraph.TaskAgenda.{
  Item, many, id_text, status_text, or_text, raw_deps, is_empty, update_first, normalize_item,
  repair_item, clean_deps, deps_list, is_unblocked, id_or_empty,
}
use agent_langraph.TaskAgenda.Normal.{settle}
use agent_langraph.TaskAgenda.Failure.{dependents}
use agent_langraph.TaskAgenda.Failure.Closed.{IsFixed, id_text-settle}

abbrev pub has_id : String → List Item → Bool
has_id c is = any_of (λ i. id_text i == c) is

-- No two rows have the same id.
abbrev pub IsUnique : List Item → Type 0
IsUnique [] = Unit
IsUnique (i ∷ is) = (has_id (id_text i) is ≡ false) × IsUnique is

-- The status of the row with this id.
unfoldable pub status_of : String → List Item → Option String
status_of c [] = none
status_of c (i ∷ is) = if id_text i == c then some (status_text i) else status_of c is

-- Whether there is a row with this id and it depends on something.
unfoldable pub first_waits : String → List Item → Bool
first_waits c [] = false
first_waits c (i ∷ is) =
    if id_text i == c then not (is_empty (raw_deps i.depends_on)) else first_waits c is

dependents-has_id :
    (t c : String) (is : List Item) → member c (dependents t is) ≡ true → has_id c is ≡ true
unfolding dependents
dependents-has_id t c [] h = cc
dependents-has_id t c (i ∷ is) h =
    ground (arith, dependents-has_id t c is, eq_iff (id_text i) c, eq_iff c (id_text i))

some_member : (t : String) (ds : List String) → member t ds ≡ true → not (is_empty ds) ≡ true
some_member t [] h = cc
some_member t (d ∷ ds) h = refl

pub dependents-first_waits :
    (t c : String) (is : List Item)
    → IsUnique is
    → member c (dependents t is) ≡ true
    → first_waits c is ≡ true
unfolding dependents first_waits
dependents-first_waits t c [] u h = cc
dependents-first_waits t c (i ∷ is) (alone, u) h = elim (Bool-cases (id_text i == c)) [
  | inl same ↦ rw same (elim (Bool-cases (member t (raw_deps i.depends_on))) [
    | inl hangs ↦ some_member t (raw_deps i.depends_on) hangs
    | inr free ↦
        let twice : has_id c is ≡ true = dependents-has_id t c is (rw free at h) in
        cc (twice, subst (λ k. has_id k is ≡ false) ((eq_iff (id_text i) c).0 same) alone)
  ])
  | inr other ↦ rw other (
      dependents-first_waits t c is u
        (ground (arith, h, eq_iff (id_text i) c, eq_iff c (id_text i))))
]

pub first_waits-settle :
    (c : String) (is : List Item)
    → All IsFixed is
    → first_waits c (map settle is) ≡ first_waits c is
unfolding first_waits
first_waits-settle c [] h = refl
first_waits-settle c (i ∷ is) (h, hs) =
    ap
      (λ k.
        if k == c
        then not (is_empty (raw_deps (settle i).depends_on))
        else first_waits c (map settle is))
      (id_text-settle i)
    ∙ ap
        (λ d. if id_text i == c then not (is_empty (raw_deps d)) else first_waits c (map settle is))
        h
    ∙ ap (λ b. if id_text i == c then not (is_empty (raw_deps i.depends_on)) else b)
        (first_waits-settle c is hs)

pub first_waits-update_first :
    (c k s r : String) (is : List Item) → first_waits c (update_first k s r is) ≡ first_waits c is
unfolding first_waits update_first
first_waits-update_first c k s r [] = refl
first_waits-update_first c k s r (i ∷ is) =
    by_if (λ v. first_waits c v ≡ first_waits c (i ∷ is)) (id_text i == k) (λ e. refl)
      (λ e.
        ap (λ b. if id_text i == c then not (is_empty (raw_deps i.depends_on)) else b)
          (first_waits-update_first c k s r is))

-- A row that is blocked and depends on something is not released.
still_waits :
    (i : Item) → IsFixed i → not (is_empty (raw_deps i.depends_on)) ≡ true → is_unblocked i ≡ false
unfolding is_unblocked settle normalize_item repair_item deps_list
still_waits i fixed waits = by_deps (clean_deps i) fixed
  where
    by_deps :
        (ds : List String)
        → many (deps_list (many ds)) ≡ i.depends_on
        → (status_text i == "blocked" && (is_empty ds && truthy (id_or_empty i))) ≡ false
    by_deps [] e = cc (e, waits)
    by_deps (d ∷ ds) e = ground arith

blocked_text : (o : Option String) → or_text o "" ≡ "blocked" → or_text o "pending" ≡ "blocked"
blocked_text o h = ground (arith, h, eq_iff "" "blocked")

status-settle :
    (i : Item)
    → IsFixed i
    → not (is_empty (raw_deps i.depends_on)) ≡ true
    → status_text i ≡ "blocked"
    → status_text (settle i) ≡ "blocked"
unfolding settle normalize_item repair_item
status-settle i fixed waits h =
    ap
      (λ (b : Bool). or_text (some (or_text (if b then some "pending" else i.status) "pending")) "")
      (still_waits i fixed waits)
    ∙ ap (λ s. or_text (some s) "") (blocked_text i.status h)

pub status_of-settle :
    (c : String) (is : List Item)
    → All IsFixed is
    → first_waits c is ≡ true
    → status_of c is ≡ some "blocked"
    → status_of c (map settle is) ≡ some "blocked"
unfolding status_of first_waits
status_of-settle c [] hs w h = cc
status_of-settle c (i ∷ is) (fixed, hs) w h =
    ap (λ k. if k == c then some (status_text (settle i)) else status_of c (map settle is))
      (id_text-settle i)
    ∙ elim (Bool-cases (id_text i == c)) [
      | inl same ↦
          rw same (
            ap some (status-settle i fixed (rw same at w) (some_eq (status_text i) (rw same at h))))
      | inr other ↦ rw other (status_of-settle c is hs (rw other at w) (rw other at h))
    ]
  where
    some_eq : (s : String) → some s ≡ some "blocked" → s ≡ "blocked"
    some_eq s e = cc

pub status_of-blocks :
    (c r : String) (is : List Item)
    → first_waits c is ≡ true
    → status_of c (update_first c "blocked" r is) ≡ some "blocked"
unfolding status_of first_waits update_first
status_of-blocks c r [] w = cc
status_of-blocks c r (i ∷ is) w =
    by_if (λ v. status_of c v ≡ some "blocked") (id_text i == c) (λ e. rw e refl)
      (λ e. rw e (status_of-blocks c r is (rw e at w)))

pub status_of-stays :
    (k c r : String) (is : List Item)
    → status_of k is ≡ some "blocked"
    → status_of k (update_first c "blocked" r is) ≡ some "blocked"
unfolding status_of update_first
status_of-stays k c r [] h = h
status_of-stays k c r (i ∷ is) h =
    by_if (λ v. status_of k v ≡ some "blocked") (id_text i == c)
      (λ e. by_if (λ o. o ≡ some "blocked") (id_text i == k) (λ f. refl) (λ f. rw f at h))
      (λ e.
        by_if (λ o. o ≡ some "blocked") (id_text i == k) (λ f. rw f at h)
          (λ f. status_of-stays k c r is (rw f at h)))
