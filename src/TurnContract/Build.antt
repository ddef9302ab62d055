-- ===== src/TurnContract/Build.antt =====
-- What the contract of a plan demands.
use agent_langraph.Prelude.{
  String, ◌≡◌, refl, ap, sym, subst, ◌∙◌, inl, inr, Bool, true, false, not, ◌||◌, ||_false,
  Bool-cases, Option, none, some, List, [], ◌∷◌, map, arith, eq_iff, if◌then◌else◌, truthy, or_text,
  keep, member, any_of, All, by_if,
}
use agent_langraph.TaskAgenda.{is_empty, head?}
use agent_langraph.TurnContract.{
  Contract, Action, Payload, side_effect_ops, no_side_effect_ops, contract_of,
  contract_from_payload, is_side_effect, primary_of, tools_of, contract_of_actions, requires,
  contract_requires_side_effects,
}

-- The operations that the code knows.
abbrev pub is_known_op : String → Bool
is_known_op k = member k side_effect_ops || member k no_side_effect_ops

not_truthy : (s : String) → truthy s ≡ false → s ≡ ""
not_truthy s h = ground (arith, eq_iff s "", h)

requires_by_kind :
    (c : Contract)
    → is_known_op c.primary_op ≡ true
    → elim (contract_of (some c)) [ none ↦ false | some d ↦ requires d ]
      ≡ is_side_effect c.primary_op
unfolding contract_of requires
requires_by_kind c known = elim (Bool-cases (truthy c.primary_op)) [
  | inr blank ↦
      ap (λ b. elim (if b then some c else none) [ none ↦ false | some d ↦ requires d ]) blank
      ∙ ap is_side_effect (sym (not_truthy c.primary_op blank))
  | inl named ↦
      ap (λ b. elim (if b then some c else none) [ none ↦ false | some d ↦ requires d ]) named
      ∙ by_kind (member c.primary_op side_effect_ops) (member c.primary_op no_side_effect_ops) known
]
  where
    rest : Bool
    rest = if not (is_empty (tools_of c)) then true else not (is_empty c.ops)

    by_kind :
        (side no_side : Bool)
        → (side || no_side) ≡ true
        → (if side then true else if no_side then false else rest) ≡ side
    by_kind true n h = refl
    by_kind false true h = refl
    by_kind false false h = cc h

found :
    (p : String → Bool) (xs : List String)
    → any_of p xs ≡ true
    → (k : String) × ((head? (keep p xs) ≡ some k) × (p k ≡ true))
found p [] h = cc h
found p (x ∷ xs) h = elim (Bool-cases (p x)) [
  | inl e ↦ (x, (rw e refl, e))
  | inr e ↦ let (k, (is, holds)) = found p xs (rw e at h) in (k, (rw e is, holds))
]

not_found : (p : String → Bool) (xs : List String) → any_of p xs ≡ false → head? (keep p xs) ≡ none
not_found p [] h = refl
not_found p (x ∷ xs) h =
    let (e, rest) = ||_false (p x) (any_of p xs) h in rw e (not_found p xs rest)

-- The primary operation where no action has a side effect.
plain : List String → String
plain kinds = if member "answer" kinds || is_empty kinds then "answer" else or_text (head? kinds) ""

known_plain :
    (kinds : List String) → All (λ k. is_known_op k ≡ true) kinds → is_known_op (plain kinds) ≡ true
unfolding plain
known_plain kinds h =
    by_if (λ k. is_known_op k ≡ true) (member "answer" kinds || is_empty kinds) (λ e. refl)
      (λ e. first kinds h)
  where
    first :
        (ks : List String)
        → All (λ k. is_known_op k ≡ true) ks
        → is_known_op (or_text (head? ks) "") ≡ true
    first [] h = refl
    first (k ∷ ks) (h, hs) = by_if (λ s. is_known_op s ≡ true) (truthy k) (λ e. h) (λ e. refl)

plain_has_none :
    (kinds : List String)
    → any_of is_side_effect kinds ≡ false
    → is_side_effect (plain kinds) ≡ false
unfolding plain
plain_has_none kinds h =
    by_if (λ k. is_side_effect k ≡ false) (member "answer" kinds || is_empty kinds) (λ e. refl)
      (λ e. first kinds h)
  where
    first :
        (ks : List String)
        → any_of is_side_effect ks ≡ false
        → is_side_effect (or_text (head? ks) "") ≡ false
    first [] h = refl
    first (k ∷ ks) h =
        by_if (λ s. is_side_effect s ≡ false) (truthy k)
          (λ e. (||_false (is_side_effect k) (any_of is_side_effect ks) h).0) (λ e. refl)

primary-kind :
    (kinds : List String)
    → All (λ k. is_known_op k ≡ true) kinds
    → (is_known_op (primary_of kinds) ≡ true)
      × (is_side_effect (primary_of kinds) ≡ any_of is_side_effect kinds)
unfolding primary_of plain
primary-kind kinds known =
    let pick : Option String → String = λ o. elim o [ some k ↦ k | none ↦ plain kinds ] in
    let Good : String → Type 0 =
      λ s. (is_known_op s ≡ true) × (is_side_effect s ≡ any_of is_side_effect kinds) in
    elim (Bool-cases (any_of is_side_effect kinds)) [
      | inl e ↦
          let (k, (same, holds)) = found is_side_effect kinds e in
          subst Good (sym (ap pick same))
            (ap (λ b. b || member k no_side_effect_ops) holds, holds ∙ sym e)
      | inr e ↦
          subst Good (sym (ap pick (not_found is_side_effect kinds e)))
            (known_plain kinds known, plain_has_none kinds e ∙ sym e)
    ]

-- A turn whose contract is made from its actions, all of known types, must have side effects exactly
-- if one of the actions is of a type that has.
pub requires-contract_of_actions :
    (acts : List Action) (p : Payload)
    → All (λ k. is_known_op k ≡ true) (map (λ a. a.kind) acts)
    → contract_requires_side_effects (record p { turn_contract = some (contract_of_actions acts) })
      ≡ any_of is_side_effect (map (λ a. a.kind) acts)
unfolding contract_requires_side_effects contract_from_payload contract_of_actions
requires-contract_of_actions acts p known =
    let (is_known, same) = primary-kind (map (λ a. a.kind) acts) known in
    requires_by_kind (contract_of_actions acts) is_known ∙ same
