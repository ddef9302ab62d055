-- ===== src/TaskAgenda/Failure/Closed.antt =====
-- Everything that depends on a failure is blocked, or needs not be.
use agent_langraph.Prelude.{
  ℕ, zero, suc, String, ◌≡◌, refl, ap, sym, subst, ◌∙◌, ◌⊎◌, inl, inr, true, false, ◌||◌, Option,
  none, some, List, [], ◌∷◌, ◌++◌, map, arith, ◌==◌, eq_iff, eq_refl, if◌then◌else◌, by_if, member,
  length, All,
}
use agent_langraph.Prelude.Texts.{concat}
use agent_langraph.Prelude.Dict.{Dict}
use agent_langraph.TaskAgenda.{
  Item, Plan, id_text, raw_deps, dict_rows, ensure_agenda_fields, agenda_rows, items_by_id,
  set_item_status, update_first, normalize_item, repair_item, clean_deps, without_self,
}
use agent_langraph.TaskAgenda.Normal.{settle, agenda_rows-eq, dict_rows-map, IsProper, settle_idem}
use agent_langraph.TaskAgenda.Failure.{
  Pass, may_block, block, block_children, dependents, spread, propagate_failure,
}

-- A row whose dependencies a further pass leaves alone.
abbrev pub IsFixed : Item → Type 0
IsFixed i = (settle i).depends_on ≡ i.depends_on

pub IsFixed-settle : (is : List Item) → All IsProper is → All IsFixed (map settle is)
IsFixed-settle [] h = tt
IsFixed-settle (i ∷ is) (h, hs) = (ap (λ j. j.depends_on) (settle_idem i h), IsFixed-settle is hs)

pub id_text-settle : (i : Item) → id_text (settle i) ≡ id_text i
unfolding settle normalize_item repair_item
id_text-settle i = refl

pub dependents-settle :
    (t : String) (is : List Item) → All IsFixed is → dependents t (map settle is) ≡ dependents t is
unfolding dependents
dependents-settle t [] h = refl
dependents-settle t (i ∷ is) (h, hs) =
    ap
      (λ d.
        if member t (raw_deps d)
        then id_text (settle i) ∷ dependents t (map settle is)
        else dependents t (map settle is))
      h
    ∙ ap
        (λ k.
          if member t (raw_deps i.depends_on)
          then k ∷ dependents t (map settle is)
          else dependents t (map settle is))
        (id_text-settle i)
    ∙ ap (λ rest. if member t (raw_deps i.depends_on) then id_text i ∷ rest else rest)
        (dependents-settle t is hs)

pub dependents-update_first :
    (t c s r : String) (is : List Item) → dependents t (update_first c s r is) ≡ dependents t is
unfolding dependents update_first
dependents-update_first t c s r [] = refl
dependents-update_first t c s r (i ∷ is) =
    by_if (λ v. dependents t v ≡ dependents t (i ∷ is)) (id_text i == c) (λ e. refl)
      (λ e.
        ap (λ rest. if member t (raw_deps i.depends_on) then id_text i ∷ rest else rest)
          (dependents-update_first t c s r is))

pub IsFixed-again : (is : List Item) → All IsFixed is → All IsFixed (map settle is)
unfolding settle normalize_item repair_item clean_deps without_self
IsFixed-again [] h = tt
IsFixed-again (i ∷ is) (h, hs) =
    (ap (λ d. (settle (record i { depends_on = d })).depends_on) h, IsFixed-again is hs)

IsFixed-update_first :
    (c s r : String) (is : List Item) → All IsFixed is → All IsFixed (update_first c s r is)
unfolding update_first settle normalize_item repair_item clean_deps
IsFixed-update_first c s r [] h = tt
IsFixed-update_first c s r (i ∷ is) (h, hs) =
    by_if (All IsFixed) (id_text i == c) (λ e. (h, hs)) (λ e. (h, IsFixed-update_first c s r is hs))

pub rows-set_item_status :
    (p : Plan) (c s r : String)
    → dict_rows (set_item_status p c s r).items
      ≡ update_first c s r (map settle (dict_rows p.items))
unfolding set_item_status agenda_rows
rows-set_item_status p c s r =
    dict_rows-map (update_first c s r (agenda_rows p)) ∙ ap (update_first c s r) (agenda_rows-eq p)

-- The rows of a plan are fixed, and have these dependents.
abbrev pub Keeps : (String → List String) → List Item → Type 0
Keeps D is = All IsFixed is × ((t : String) → dependents t is ≡ D t)

pub keep_on :
    (D : String → List String) (p : Plan) (c s r : String)
    → Keeps D (dict_rows p.items)
    → Keeps D (dict_rows (set_item_status p c s r).items)
keep_on D p c s r (fixed, same) = subst (Keeps D) (sym (rows-set_item_status p c s r)) (
  IsFixed-update_first c s r (map settle (dict_rows p.items))
      (IsFixed-again (dict_rows p.items) fixed),
  (λ t.
      dependents-update_first t c s r (map settle (dict_rows p.items))
      ∙ dependents-settle t (dict_rows p.items) fixed
      ∙ same t),
)

pub member-cons :
    (t k : String) (ks : List String) → member t (k ∷ ks) ≡ true → (t ≡ k) ⊎ (member t ks ≡ true)
member-cons t k ks h = ground (arith, eq_iff t k, h)

module _ (by_id : Dict Item) (D : String → List String) where
  -- Nothing is left to block of these ids.
  abbrev pub NoneLeft : List String → List String → Type 0
  NoneLeft blocked cs = All (λ c. may_block by_id blocked c ≡ false) cs

  -- From one pass to a later one.
  record IsLater (w v : Pass) : Type 0 where
    keeps : Keeps D (dict_rows v.plan.items)
    grows : (c : String) → may_block by_id w.blocked c ≡ false → may_block by_id v.blocked c ≡ false
    queued :
        (t : String)
        → member t v.blocked ≡ true
        → (member t w.blocked ≡ true) ⊎ (member t v.queue ≡ true)
    stays : (t : String) → member t w.queue ≡ true → member t v.queue ≡ true

  still : (w : Pass) → Keeps D (dict_rows w.plan.items) → IsLater w w
  still w k = record { keeps = k; grows = λ c h. h; queued = λ t h. inl h; stays = λ t h. h }

  IsLater-trans : {u w v : Pass} → IsLater u w → IsLater w v → IsLater u v
  IsLater-trans {u} {w} {v} a b = record {
    keeps = b.keeps;
    grows = λ c h. b.grows c (a.grows c h);
    queued = λ t h. elim (b.queued t h) [
      | inr in_queue ↦ inr in_queue
      | inl before ↦ elim (a.queued t before) [
        | inl first ↦ inl first
        | inr in_queue ↦ inr (b.stays t in_queue)
      ]
    ];
    stays = λ t h. b.stays t (a.stays t h);
  }

  member-end : (t c : String) (q : List String) → member t (q ++ (c ∷ [])) ≡ (member t q || t == c)
  member-end t c [] = ground arith
  member-end t c (k ∷ q) = ground (arith, member-end t c q)

  block-IsLater :
      (current c : String) (w : Pass)
      → Keeps D (dict_rows w.plan.items)
      → IsLater w (block current c w)
  unfolding block
  block-IsLater current c w k = record {
    keeps = keep_on D w.plan c "blocked" (concat "dependency_failed:" current) k;
    grows = λ j h. ground (arith, h);
    queued = λ t h. ground (arith, h, member-end t c w.queue);
    stays = λ t h. ground (arith, h, member-end t c w.queue);
  }

  now_blocked :
      (current c : String) (w : Pass) → may_block by_id (block current c w).blocked c ≡ false
  unfolding block
  now_blocked current c w = ground (arith, eq_refl c)

  block_one :
      (current c : String) (w : Pass)
      → Keeps D (dict_rows w.plan.items)
      → let v = if may_block by_id w.blocked c then block current c w else w in
        IsLater w v × (may_block by_id v.blocked c ≡ false)
  block_one current c w k =
      by_if (λ v. IsLater w v × (may_block by_id v.blocked c ≡ false)) (may_block by_id w.blocked c)
        (λ e. (block-IsLater current c w k, now_blocked current c w)) (λ e. (still w k, e))

  block_all :
      (current : String) (cs : List String) (w : Pass)
      → Keeps D (dict_rows w.plan.items)
      → let v = block_children by_id current cs w in IsLater w v × NoneLeft v.blocked cs
  unfolding block_children
  block_all current [] w k = (still w k, tt)
  block_all current (c ∷ cs) w k =
      let u : Pass = if may_block by_id w.blocked c then block current c w else w in
      let (first, done) = block_one current c w k in
      let (rest, others) = block_all current cs u first.keeps in
      (IsLater-trans first rest, (rest.grows c done, others))

  NoneLeft-grows :
      (w v : Pass) (cs : List String) → IsLater w v → NoneLeft w.blocked cs → NoneLeft v.blocked cs
  NoneLeft-grows w v [] a h = tt
  NoneLeft-grows w v (c ∷ cs) a (h, hs) = (a.grows c h, NoneLeft-grows w v cs a hs)

  -- Of what failed or was blocked, all that is not in the queue has nothing left to block.
  abbrev IsServed : String → List String → List String → Type 0
  IsServed failed blocked queue =
      (t : String)
      → member t (failed ∷ blocked) ≡ true
      → (member t queue ≡ true) ⊎ NoneLeft blocked (D t)

  member-first : (t k : String) (ks : List String) → t ≡ k → member t (k ∷ ks) ≡ true
  member-first t k ks h = ground (arith, eq_iff t k, h)

  member-rest : (t k : String) (ks : List String) → member t ks ≡ true → member t (k ∷ ks) ≡ true
  member-rest t k ks h = ground (arith, h)

  serve_next :
      (failed c : String) (queue : List String) (w v : Pass)
      → w.queue ≡ queue
      → IsServed failed w.blocked (c ∷ queue)
      → IsLater w v
      → NoneLeft v.blocked (D c)
      → IsServed failed v.blocked v.queue
  serve_next failed c queue w v same served a done t h = elim (member-cons t failed v.blocked h) [
    | inl is_failed ↦ before (member-first t failed w.blocked is_failed)
    | inr is_blocked ↦ elim (a.queued t is_blocked) [
      | inl was ↦ before (member-rest t failed w.blocked was)
      | inr in_queue ↦ inl in_queue
    ]
  ]
    where
      before :
          member t (failed ∷ w.blocked) ≡ true
          → (member t v.queue ≡ true) ⊎ NoneLeft v.blocked (D t)
      before known = elim (served t known) [
        | inr none_left ↦ inr (NoneLeft-grows w v (D t) a none_left)
        | inl in_queue ↦ elim (member-cons t c queue in_queue) [
          | inl is_next ↦ inr (subst (λ k. NoneLeft v.blocked (D k)) (sym is_next) done)
          | inr later ↦ inl (a.stays t (subst (λ ks. member t ks ≡ true) (sym same) later))
        ]
      ]

  spread_served :
      (n : ℕ) (failed : String) (p : Plan) (blocked queue : List String) (q : Plan)
      (after : List String)
      → Keeps D (dict_rows p.items)
      → IsServed failed blocked queue
      → spread n by_id p blocked queue ≡ some (q, after)
      → (t : String) → member t (failed ∷ after) ≡ true
      → NoneLeft after (D t)
  unfolding spread
  spread_served n failed p blocked [] q after k served e t h =
      subst (λ b. NoneLeft b (D t)) result
        (elim (served t (subst (λ b. member t (failed ∷ b) ≡ true) (sym result) h)) [
          | inl in_queue ↦ cc in_queue
          | inr none_left ↦ none_left
        ])
    where
      blocked_of : Option (Plan × List String) → List String
      blocked_of none = []
      blocked_of (some (r, b)) = b

      result : blocked ≡ after
      result = ap blocked_of e
  spread_served zero failed p blocked (c ∷ queue) q after k served e t h = cc e
  spread_served (suc n) failed p blocked (c ∷ queue) q after k served e t h =
      let w : Pass = record { plan = p; blocked = blocked; queue = queue } in
      let v = block_children by_id c (dependents c (dict_rows p.items)) w in
      let (a, done) = block_all c (dependents c (dict_rows p.items)) w k in
      spread_served n failed v.plan v.blocked v.queue q after a.keeps
        (serve_next failed c queue w v refl served a (subst (NoneLeft v.blocked) (k.1 c) done)) e t
        h

-- In a plan in which no row has the empty text for its dependencies, when the spread of a failure
-- is over, whatever depends on the failed item, or on one that was blocked, is blocked too, or
-- there is no item of its id that is not settled.
pub propagate_failure_closed :
    (p : Plan) (failed_id : String) (q : Plan) (blocked : List String)
    → All IsProper (dict_rows p.items)
    → propagate_failure p failed_id ≡ some (q, blocked)
    → (t : String) → member t (failed_id ∷ blocked) ≡ true
    → All
        (λ c. may_block (items_by_id (agenda_rows p)) blocked c ≡ false)
        (dependents t (agenda_rows p))
unfolding propagate_failure agenda_rows
propagate_failure_closed p failed_id q blocked proper e t h =
    spread_served (items_by_id (agenda_rows p)) (λ t. dependents t (agenda_rows p))
      (suc (length (agenda_rows p))) failed_id (ensure_agenda_fields p) [] (failed_id ∷ []) q
      blocked
      (
        subst (All IsFixed) (sym (agenda_rows-eq p)) (IsFixed-settle (dict_rows p.items) proper),
        λ t. refl,
      )
      (λ t h. inl h) e t h
