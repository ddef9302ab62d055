-- ===== src/ToolStages/Layers.antt =====
-- The layers of the planner's DAG: that the loop ends, that it forgets no node, and that it orders
-- a graph without cycles.
use agent_langraph.Prelude.{
  ℕ, zero, suc, ◌≤◌, ◌<◌, String, ◌≡◌, refl, ◌∙◌, inl, inr, Bool, true, false, not, ◌&&◌, ◌||◌,
  Bool-cases, List, [], ◌∷◌, arith, ◌==◌, eq_iff, eq_refl, if◌then◌else◌, keep, length,
  length-keep-le, member, any_of, some,
}
use agent_langraph.ToolStages.{is_empty, meets, first_only, ready_layer, subtract, layers}

-- An order in which a Python set may be gone through: the same elements, none of them twice.
pub record IsOrder (arrange : List String → List String) : Type 0 where
  pub same : (x : String) (xs : List String) → member x (arrange xs) ≡ member x xs
  pub size : (xs : List String) → length (arrange xs) ≡ length xs

pub member-keep :
    (p : String → Bool) (x : String) (xs : List String)
    → member x (keep p xs) ≡ (member x xs && p x)
member-keep p x [] = refl
member-keep p x (y ∷ ys) = elim (Bool-cases (x == y)) [
  | inl e ↦ rw (← (eq_iff x y).0 e) (ground (arith, member-keep p x ys, eq_refl x))
  | inr e ↦ ground (arith, member-keep p x ys)
]

pub member-subtract :
    (x : String) (xs ys : List String)
    → member x (subtract xs ys) ≡ (member x xs && not (member x ys))
unfolding subtract
member-subtract x xs ys = member-keep (λ z. not (member z ys)) x xs

keep-length_lt :
    (p : String → Bool) (x : String) (xs : List String)
    → member x xs ≡ true
    → p x ≡ false
    → length (keep p xs) < length xs
keep-length_lt p x [] m h = cc
keep-length_lt p x (y ∷ ys) m h = elim (Bool-cases (x == y)) [
  | inl e ↦ let h' : p y ≡ false = rw ((eq_iff x y).0 e) at h in ground (arith, length-keep-le p ys)
  | inr e ↦ ground (arith, keep-length_lt p x ys)
]

layer_nonempty :
    (ready r : List String)
    → is_empty r ≡ false
    → (y : String) × (member y (if is_empty ready then first_only r else ready) ≡ true)
unfolding first_only
layer_nonempty [] [] h = cc
layer_nonempty [] (x ∷ xs) h = (x, ground (arith, eq_refl x))
layer_nonempty (y ∷ ys) r h = (y, ground (arith, eq_refl y))

member-first_only :
    (x : String) (r : List String) → member x (first_only r) ≡ true → member x r ≡ true
unfolding first_only
member-first_only x [] h = h
member-first_only x (y ∷ ys) h = ground arith

module _ (into : String → List String) where
  is_free : List String → String → Bool
  is_free r nid = not (meets (into nid) r)

  member-ready_layer :
      (x : String) (r : List String) → member x (ready_layer into r) ≡ true → member x r ≡ true
  unfolding ready_layer
  member-ready_layer x r h =
      ground (arith, member-keep (λ nid. not (meets (into nid) r)) x r, member-first_only x r)

  ready_layer_nonempty :
      (r : List String) → is_empty r ≡ false → (y : String) × (member y (ready_layer into r) ≡ true)
  unfolding ready_layer
  ready_layer_nonempty r h = layer_nonempty (keep (λ nid. not (meets (into nid) r)) r) r h

  module _ (arrange : List String → List String) (order : IsOrder arrange) where
    pub arrange_nonempty : (x : String) (xs : List String) → is_empty (arrange (x ∷ xs)) ≡ false
    arrange_nonempty x xs = nonempty (arrange (x ∷ xs)) (order.size (x ∷ xs))
      where
        nonempty : (r : List String) → length r ≡ suc (length xs) → is_empty r ≡ false
        nonempty [] h = absurd (omega arith)
        nonempty (y ∷ ys) h = refl

    shrinks :
        (x : String) (xs : List String)
        → let r = arrange (x ∷ xs) in length (subtract r (ready_layer into r)) < length (x ∷ xs)
    unfolding subtract
    shrinks x xs =
        let r = arrange (x ∷ xs) in
        let y = ready_layer_nonempty r (arrange_nonempty x xs) in
        let less =
          keep-length_lt (λ z. not (member z (ready_layer into r))) y.0 r
            (member-ready_layer y.0 r y.1) (rw y.1) in
        omega (arith, order.size (x ∷ xs))

    -- With as much fuel as there are nodes the loop ends, and every node is in some layer, whatever
    -- order the sets are gone through in and whether or not the graph has cycles.
    pub layers_total :
        (fuel : ℕ) (xs : List String)
        → length xs ≤ fuel
        → (ls : List (List String)) × (layers fuel arrange into xs ≡ some ls)
          × ((z : String) → member z xs ≡ true → any_of (member z) ls ≡ true)
    unfolding layers
    layers_total zero [] h = ([], refl, λ z m. m)
    layers_total zero (x ∷ xs) h = absurd (omega arith)
    layers_total (suc fuel) [] h = ([], refl, λ z m. m)
    layers_total (suc fuel) (x ∷ xs) h =
        let r = arrange (x ∷ xs) in
        let l = ready_layer into r in
        let rest = layers_total fuel (subtract r l) (omega (arith, shrinks x xs)) in
        (l ∷ rest.0, rw rest.1, λ z m. covered z r l rest.0 (order.same z (x ∷ xs) ∙ m) (rest.2 z))
      where
        covered :
            (z : String) (r l : List String) (ls : List (List String))
            → member z r ≡ true
            → (member z (subtract r l) ≡ true → any_of (member z) ls ≡ true)
            → (member z l || any_of (member z) ls) ≡ true
        covered z r l ls m h = elim (Bool-cases (member z l)) [
          | inl here ↦ rw here
          | inr later ↦ rw later (h (member-subtract z r l ∙ rw (m, later)))
        ]
