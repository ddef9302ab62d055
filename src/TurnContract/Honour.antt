-- ===== src/TurnContract/Honour.antt =====
-- When a contract is fulfilled.
use agent_langraph.Prelude.{
  String, ◌≡◌, refl, ap, sym, subst, ◌∙◌, inl, inr, Bool, true, false, not, ◌&&◌, ◌||◌, Bool-cases,
  Option, none, some, List, [], ◌∷◌, ◌++◌, map, arith, ◌==◌, eq_iff, eq_refl, if◌then◌else◌, truthy,
  or_text, keep, member, All, by_if,
}
use agent_langraph.TaskAgenda.{is_empty, head?}
use agent_langraph.TurnContract.{
  Contract, Action, Payload, Facts, Issue, primary_op_unfulfilled, edit_not_applied,
  write_not_changed, op, op_tools, primary_op_tool, action_tool, add_new, is_false, tools_of,
  missing_tools, contract_of, contract_from_payload, is_side_effect, primary_of,
  contract_of_actions, contract_issues, validate_turn_contract_execution,
  contract_requires_side_effects, is_turn_contract_fulfilled,
}

empty-append {ℓ} :
    {A : Type ℓ} (xs ys : List A) → is_empty (xs ++ ys) ≡ (is_empty xs && is_empty ys)
empty-append [] ys = refl
empty-append (x ∷ xs) ys = refl

-- All of these tools were executed.
abbrev pub all_in : List String → List String → Bool
all_in executed [] = true
all_in executed (t ∷ ts) = member t executed && all_in executed ts

empty-missing_tools :
    (executed ts : List String) → is_empty (missing_tools executed ts) ≡ all_in executed ts
unfolding missing_tools
empty-missing_tools executed [] = refl
empty-missing_tools executed (t ∷ ts) = ground (arith, empty-missing_tools executed ts)

none_of :
    (a b c : Bool) (i j k : Issue)
    → is_empty
        ((if a then i ∷ [] else []) ++ ((if b then j ∷ [] else []) ++ (if c then k ∷ [] else [])))
      ≡ (not a && (not b && not c))
none_of true b c i j k = refl
none_of false true c i j k = refl
none_of false false true i j k = refl
none_of false false false i j k = refl

four :
    (xs : List Issue) (a b c : Bool) (i j k : Issue)
    → is_empty (
        xs
        ++ ((if a then i ∷ [] else [])
            ++ ((if b then j ∷ [] else []) ++ (if c then k ∷ [] else []))))
      ≡ (is_empty xs && (not a && (not b && not c)))
four xs a b c i j k =
    empty-append xs
      ((if a then i ∷ [] else []) ++ ((if b then j ∷ [] else []) ++ (if c then k ∷ [] else [])))
    ∙ ap (λ t. is_empty xs && t) (none_of a b c i j k)

-- What an honest turn has not: an edit that was not applied, a write that changed nothing.
abbrev pub is_honest : Contract → Facts → Bool
is_honest c f =
    not (c.primary_op == "edit_artifact" && is_false f.edit_applied)
    && not (c.primary_op == "write_artifact" && (is_false f.write_verified || f.write_unchanged))

-- The tool of the primary operation was executed, if it has one.
abbrev pub primary_done : Contract → Facts → Bool
primary_done c f = not (
    truthy (primary_op_tool c.primary_op)
    && not (member (primary_op_tool c.primary_op) f.tools_executed))

-- A contract raises no issue exactly if all its tools and that of its primary operation were executed
-- and the turn is honest.
pub contract_issues_lem :
    (c : Contract) (f : Facts)
    → is_empty (contract_issues c f)
      ≡ (all_in f.tools_executed (tools_of c) && (primary_done c f && is_honest c f))
unfolding contract_issues
contract_issues_lem c f =
    four (missing_tools f.tools_executed (tools_of c))
      (truthy (primary_op_tool c.primary_op)
        && not (member (primary_op_tool c.primary_op) f.tools_executed))
      (c.primary_op == "edit_artifact" && is_false f.edit_applied)
      (c.primary_op == "write_artifact" && (is_false f.write_verified || f.write_unchanged))
      (primary_op_unfulfilled c.primary_op) edit_not_applied write_not_changed
    ∙ ap (λ b. b && (primary_done c f && is_honest c f))
        (empty-missing_tools f.tools_executed (tools_of c))

module _ (executed : List String) where
  -- A tool that was executed, or no tool.
  abbrev pub IsDone : String → Type 0
  IsDone t = (not (truthy t) || member t executed) ≡ true

  all_in-end :
      (out : List String) (t : String)
      → all_in executed (out ++ (t ∷ [])) ≡ (all_in executed out && member t executed)
  all_in-end [] t = ground arith
  all_in-end (x ∷ out) t = ground (arith, all_in-end out t)

  all_in-add_new :
      (ts out : List String)
      → all_in executed out ≡ true
      → All IsDone ts
      → all_in executed (add_new out ts) ≡ true
  unfolding add_new
  all_in-add_new [] out h ds = h
  all_in-add_new (t ∷ ts) out h (d, ds) =
      all_in-add_new ts (if truthy t && not (member t out) then out ++ (t ∷ []) else out)
        (by_if (λ o. all_in executed o ≡ true) (truthy t && not (member t out))
          (λ e. all_in-end out t ∙ ground (arith, h, d, e)) (λ e. h))
        ds

  no_op_tools : (acts : List Action) → All IsDone (op_tools (map (λ a. op "") acts))
  no_op_tools [] = tt
  no_op_tools (a ∷ acts) = (refl, no_op_tools acts)

  tools_done :
      (acts : List Action)
      → All IsDone (map action_tool acts)
      → all_in executed (tools_of (contract_of_actions acts)) ≡ true
  unfolding tools_of contract_of_actions
  tools_done acts ds =
      by_if (λ ts. all_in executed ts ≡ true) (is_empty (add_new [] (map action_tool acts)))
        (λ e. all_in-add_new (op_tools (map (λ a. op "") acts)) [] refl (no_op_tools acts))
        (λ e. all_in-add_new (map action_tool acts) [] refl ds)

  own_kind : (a : Action) → IsDone (action_tool a) → IsDone (primary_op_tool a.kind)
  unfolding action_tool primary_op_tool
  own_kind a d = elim (Bool-cases (a.kind == "run_tool")) [
    | inl e ↦ subst (λ k. IsDone (primary_op_tool k)) (sym ((eq_iff a.kind "run_tool").0 e)) refl
    | inr e ↦ subst (λ b. IsDone (if b then a.name else primary_op_tool a.kind)) e d
  ]

  kind-IsDone :
      (acts : List Action)
      → All IsDone (map action_tool acts)
      → (k : String) → member k (map (λ a. a.kind) acts) ≡ true
      → IsDone (primary_op_tool k)
  kind-IsDone [] ds k h = cc h
  kind-IsDone (a ∷ acts) (d, ds) k h = elim (Bool-cases (k == a.kind)) [
    | inl e ↦ subst (λ j. IsDone (primary_op_tool j)) (sym ((eq_iff k a.kind).0 e)) (own_kind a d)
    | inr e ↦ kind-IsDone acts ds k (rw e at h)
  ]

here : (x : String) (xs : List String) → member x (x ∷ xs) ≡ true
here x xs = ground (arith, eq_refl x)

there : (k x : String) (xs : List String) → member k xs ≡ true → member k (x ∷ xs) ≡ true
there k x xs h = ground (arith, h)

module _ {ℓ} (P : String → Type ℓ) where
  from_head :
      (p : String → Bool) (d : String) (xs : List String)
      → ((k : String) → member k xs ≡ true → P k)
      → P d
      → P (elim (head? (keep p xs)) [ some k ↦ k | none ↦ d ])
  from_head p d [] h dflt = dflt
  from_head p d (x ∷ xs) h dflt = elim (Bool-cases (p x)) [
    | inl e ↦ rw e (h x (here x xs))
    | inr e ↦ rw e (from_head p d xs (λ k m. h k (there k x xs m)) dflt)
  ]

  first_or_blank :
      (xs : List String)
      → ((k : String) → member k xs ≡ true → P k)
      → P ""
      → P (or_text (head? xs) "")
  first_or_blank [] h blank = blank
  first_or_blank (x ∷ xs) h blank = by_if P (truthy x) (λ e. h x (here x xs)) (λ e. blank)

  of_primary :
      (kinds : List String)
      → ((k : String) → member k kinds ≡ true → P k)
      → P "answer"
      → P ""
      → P (primary_of kinds)
  unfolding primary_of
  of_primary kinds h answer blank =
      from_head is_side_effect
        (if member "answer" kinds || is_empty kinds then "answer" else or_text (head? kinds) "")
        kinds h
        (by_if P (member "answer" kinds || is_empty kinds) (λ e. answer)
          (λ e. first_or_blank kinds h blank))

primary-IsDone :
    (executed : List String) (acts : List Action)
    → All (IsDone executed) (map action_tool acts)
    → IsDone executed (primary_op_tool (contract_of_actions acts).primary_op)
unfolding contract_of_actions primary_op_tool
primary-IsDone executed acts done =
    of_primary (λ k. IsDone executed (primary_op_tool k)) (map (λ a. a.kind) acts)
      (kind-IsDone executed acts done) refl refl

done_is_no_issue : (n m : Bool) → (not n || m) ≡ true → not (n && not m) ≡ true
done_is_no_issue true true h = refl
done_is_no_issue true false h = cc h
done_is_no_issue false m h = refl

-- A contract that was made from actions whose tools were all executed raises no issue, if the edits
-- were applied and the writes changed something.
pub executed_raises_none :
    (acts : List Action) (f : Facts)
    → All (IsDone f.tools_executed) (map action_tool acts)
    → is_honest (contract_of_actions acts) f ≡ true
    → is_empty (contract_issues (contract_of_actions acts) f) ≡ true
executed_raises_none acts f done honest =
    contract_issues_lem (contract_of_actions acts) f
    ∙ rw (tools_done f.tools_executed acts done) (rw (primary_is_done, honest) refl)
  where
    primary_is_done : primary_done (contract_of_actions acts) f ≡ true
    primary_is_done =
        done_is_no_issue (truthy (primary_op_tool (contract_of_actions acts).primary_op))
          (member (primary_op_tool (contract_of_actions acts).primary_op) f.tools_executed)
          (primary-IsDone f.tools_executed acts done)

-- A turn that executed the tools of all its actions has fulfilled the contract made from them, if the
-- edits were applied and the writes changed something.
pub executed_fulfils :
    (acts : List Action) (p : Payload) (f : Facts)
    → All (IsDone f.tools_executed) (map action_tool acts)
    → is_honest (contract_of_actions acts) f ≡ true
    → is_turn_contract_fulfilled (record p { turn_contract = some (contract_of_actions acts) }) f
      ≡ true
unfolding is_turn_contract_fulfilled validate_turn_contract_execution contract_from_payload
    contract_of
executed_fulfils acts p f done honest =
    let c = contract_of_actions acts in
    by_if (λ b. b ≡ true)
      (not (contract_requires_side_effects (record p { turn_contract = some c }))) (λ e. refl)
      (λ e.
        by_if
          (λ (o : Option Contract).
            is_empty (elim o [ none ↦ [] | some d ↦ contract_issues d f ]) ≡ true)
          (truthy c.primary_op) (λ e. executed_raises_none acts f done honest) (λ e. refl))
