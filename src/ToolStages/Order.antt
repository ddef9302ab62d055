-- ===== src/ToolStages/Order.antt =====
-- In a graph without cycles every node comes in a later layer than all that it waits for.
use agent_langraph.Prelude.{
  ℕ, zero, suc, ◌≤◌, ◌<◌, String, ◌≡◌, refl, sym, subst, ◌∙◌, inl, inr, true, false, not, ◌||◌,
  Bool-cases, List, [], ◌∷◌, ◌++◌, arith, eq_iff, eq_refl, keep, length, leb, ||_true, member, some,
  none, Option-cases,
}
use agent_langraph.Prelude.Dict
use agent_langraph.Prelude.Dict.{Dict}
use agent_langraph.ToolStages.{is_empty, incoming, meets, ready_layer, subtract, layers}
use agent_langraph.ToolStages.Layers.{IsOrder, arrange_nonempty, member-keep, member-subtract}

module _ (rank : String → ℕ) where
  -- An id of least rank.
  lowest :
      (x : String) (xs : List String)
      → (m : String) × (member m (x ∷ xs) ≡ true)
        × ((y : String) → member y (x ∷ xs) ≡ true → rank m ≤ rank y)
  lowest x [] = (x, ground (arith, eq_refl x), λ y h. only y h)
    where
      only : (y : String) → member y (x ∷ []) ≡ true → rank x ≤ rank y
      only y h = ground (arith, eq_iff y x)
  lowest x (z ∷ zs) = compare_with (lowest z zs)
    where
      compare_with :
          (m : String) × (member m (z ∷ zs) ≡ true)
            × ((y : String) → member y (z ∷ zs) ≡ true → rank m ≤ rank y)
          → (m : String) × (member m (x ∷ z ∷ zs) ≡ true)
            × ((y : String) → member y (x ∷ z ∷ zs) ≡ true → rank m ≤ rank y)
      compare_with (m, here, least) = elim (Bool-cases (leb (rank x) (rank m))) [
        | inl low ↦ (x, ground (arith, eq_refl x), λ y h. ground (arith, eq_iff y x, least y))
        | inr high ↦ (m, rw here (||_true _), λ y h. ground (arith, eq_iff y x, least y))
      ]

meets_none :
    (xs ys : List String)
    → ((s : String) → member s xs ≡ true → member s ys ≡ false)
    → meets xs ys ≡ false
unfolding meets
meets_none [] ys h = refl
meets_none (x ∷ xs) ys h =
    rw (h x (ground (arith, eq_refl x))) (meets_none xs ys (λ s m. h s (rw m (||_true _))))

meets_none_at :
    (s : String) (xs ys : List String)
    → meets xs ys ≡ false
    → member s xs ≡ true
    → member s ys ≡ false
unfolding meets
meets_none_at s [] ys h m = cc
meets_none_at s (x ∷ xs) ys h m = ground (arith, eq_iff s x, meets_none_at s xs ys)

-- The sources of a node's edges that stand in the graph are all in what came before.
abbrev pub Ordered : (String → List String) → List String → List (List String) → Type 0
Ordered into placed [] = Unit
Ordered into placed (l ∷ ls) =
    ((nid s : String) → member nid l ≡ true → member s (into nid) ≡ true → member s placed ≡ true)
    × Ordered into (l ++ placed) ls

member-append :
    (x : String) (xs ys : List String) → member x (xs ++ ys) ≡ (member x xs || member x ys)
member-append x [] ys = refl
member-append x (z ∷ zs) ys = ground (arith, member-append x zs ys)

nonempty_of_member : (y : String) (zs : List String) → member y zs ≡ true → is_empty zs ≡ false
nonempty_of_member y [] h = cc
nonempty_of_member y (z ∷ zs) h = refl

module _ (rank : String → ℕ) (into : String → List String) (nodes : List String)
    (acyclic : (nid s : String) → member s (into nid) ≡ true → rank s < rank nid)
    (inside : (nid s : String) → member s (into nid) ≡ true → member s nodes ≡ true) where
  has_ready :
      (x : String) (xs : List String)
      → is_empty (keep (λ nid. not (meets (into nid) (x ∷ xs))) (x ∷ xs)) ≡ false
  has_ready x xs =
      let low = lowest rank x xs in
      let free : meets (into low.0) (x ∷ xs) ≡ false = meets_none (into low.0) (x ∷ xs) (λ s hs.
        elim (Bool-cases (member s (x ∷ xs))) [
          | inl there ↦ absurd (omega (arith, acyclic low.0 s hs, low.2 s there))
          | inr away ↦ away
        ]) in
      nonempty_of_member low.0 (keep (λ nid. not (meets (into nid) (x ∷ xs))) (x ∷ xs))
        (member-keep (λ nid. not (meets (into nid) (x ∷ xs))) low.0 (x ∷ xs) ∙ rw (low.1, free))

  layer_free :
      (r : List String) (nid s : String)
      → is_empty r ≡ false
      → member nid (ready_layer into r) ≡ true
      → member s (into nid) ≡ true
      → member s r ≡ false
  unfolding ready_layer
  layer_free [] nid s e m h = cc
  layer_free (x ∷ xs) nid s e m h =
      let m' : member nid (keep (λ n. not (meets (into n) (x ∷ xs))) (x ∷ xs)) ≡ true =
        rw (has_ready x xs) at m in
      meets_none_at s (into nid) (x ∷ xs)
        (ground (arith, member-keep (λ n. not (meets (into n) (x ∷ xs))) nid (x ∷ xs))) h

  module _ (arrange : List String → List String) (order : IsOrder arrange) where
    split_on :
        (s x : String) (xs l placed : List String)
        → member s (subtract (arrange (x ∷ xs)) l) ≡ false
        → (member s (x ∷ xs) ≡ false → member s placed ≡ true)
        → member s (l ++ placed) ≡ true
    split_on s x xs l placed gone before =
        member-append s l placed ∙ elim (Bool-cases (member s l)) [
          | inl here ↦ rw here
          | inr absent ↦
              let out : member s (arrange (x ∷ xs)) ≡ false =
                ground (arith, member-subtract s (arrange (x ∷ xs)) l) in
              rw absent (before (sym (order.same s (x ∷ xs)) ∙ out))
        ]

    layers-Ordered :
        (fuel : ℕ) (xs placed : List String) (ls : List (List String))
        → ((s : String) → member s nodes ≡ true → member s xs ≡ false → member s placed ≡ true)
        → layers fuel arrange into xs ≡ some ls
        → Ordered into placed ls
    unfolding layers
    layers-Ordered zero [] placed ls split h =
        let done : [] ≡ ls = cc h in subst (Ordered into placed) done tt
    layers-Ordered zero (x ∷ xs) placed ls split h = cc
    layers-Ordered (suc fuel) [] placed ls split h =
        let done : [] ≡ ls = cc h in subst (Ordered into placed) done tt
    layers-Ordered (suc fuel) (x ∷ xs) placed ls split h =
        let r = arrange (x ∷ xs) in
        let l = ready_layer into r in
        elim (Option-cases (layers fuel arrange into (subtract r l))) [
          | inl out ↦ let stuck : none ≡ some ls = rw out at h in cc stuck
          | inr (rest, e) ↦
              let made : some (l ∷ rest) ≡ some ls = rw e at h in
              let same : l ∷ rest ≡ ls = cc made in
              subst (Ordered into placed) same (
                λ nid s m hs. split s (inside nid s hs) (
                    sym (order.same s (x ∷ xs))
                    ∙ layer_free r nid s (arrange_nonempty into arrange order x xs) m hs),
                layers-Ordered fuel (subtract r l) (l ++ placed) rest
                    (λ s n gone. split_on s x xs l placed gone (split s n)) e,
              )
        ]

-- What an edge leads from is a node.
incoming_inside :
    (nodes : Dict String) (edges : List (String × String)) (nid s : String)
    → member s (incoming nodes edges nid) ≡ true
    → member s (Dict.keys nodes) ≡ true
unfolding incoming
incoming_inside nodes [] nid s h = cc
incoming_inside nodes ((src, dst) ∷ es) nid s h =
    ground (arith, eq_iff s src, incoming_inside nodes es nid s)

-- If the edges between the nodes of a plan have no cycle, so that some rank rises along each, then
-- in every layer a node's predecessors all stand in earlier layers, whatever order the sets are
-- gone through in.
pub layers_topological :
    (arrange : List String → List String) (nodes : Dict String) (edges : List (String × String))
    (rank : String → ℕ) (ls : List (List String))
    → IsOrder arrange
    → ((nid s : String) → member s (incoming nodes edges nid) ≡ true → rank s < rank nid)
    → layers (length (Dict.keys nodes)) arrange (incoming nodes edges) (Dict.keys nodes) ≡ some ls
    → Ordered (incoming nodes edges) [] ls
layers_topological arrange nodes edges rank ls order acyclic h =
    layers-Ordered rank (incoming nodes edges) (Dict.keys nodes) acyclic
      (incoming_inside nodes edges) arrange order (length (Dict.keys nodes)) (Dict.keys nodes) [] ls
      (λ s m n. cc (sym m ∙ n)) h
