-- ===== src/ToolStages/Commit/Last.antt =====
-- What the commit leaves of each tool: its last observation that passed the gate.
use agent_langraph.Prelude.{
  String, ◌≡◌, refl, ap, sym, ◌∙◌, inl, inr, Bool, true, false, not, ◌&&◌, Bool-cases, List, [],
  ◌∷◌, ◌++◌, arith, ◌==◌, eq_iff, if◌then◌else◌, Option, some, none, All, keep, keep-append, truthy,
  or_text, member, ||_false,
}
use agent_langraph.ToolStages.Commit.{
  Observation, State, version_matches, epoch_current, is_halted,
  filter_tool_observations_for_commit, tool_or_empty, tool_text, tool_names, merge_loop,
  merge_observations_to_tool_results,
}

-- A committed observation belongs to the execution and the foreground epoch of the state, as far
-- as it names any.
abbrev pub IsCurrent : State → Observation → Type 0
IsCurrent s r =
    (version_matches s.execution_version r.execution_version ≡ true)
    × (epoch_current r.foreground_epoch s.foreground_epoch ≡ true)

-- The last observation of a tool, in a list.
abbrev pub last_of : String → List Observation → List Observation → List Observation
last_of t [] before = before
last_of t (r ∷ rs) before =
    last_of t rs (if truthy (tool_or_empty r) && (tool_or_empty r == t) then r ∷ [] else before)

abbrev pub of_tool : String → List Observation → List Observation
of_tool t rs = keep (λ m. tool_text m == t) rs

-- The names cover the tools of the results.
abbrev pub Covers : List String → List Observation → Type 0
Covers names rs = (t : String) → member t names ≡ false → of_tool t rs ≡ []

of_tool-keep_self :
    (t : String) (rs : List Observation) → of_tool t (keep (λ m. not (tool_text m == t)) rs) ≡ []
of_tool-keep_self t [] = refl
of_tool-keep_self t (r ∷ rs) = elim (Bool-cases (tool_text r == t)) [
  | inl e ↦ rw e (of_tool-keep_self t rs)
  | inr e ↦ rw e (rw e (of_tool-keep_self t rs))
]

of_tool-keep_ne :
    (t u : String) (rs : List Observation)
    → (u == t) ≡ false
    → of_tool t (keep (λ m. not (tool_text m == u)) rs) ≡ of_tool t rs
of_tool-keep_ne t u [] ne = refl
of_tool-keep_ne t u (r ∷ rs) ne =
    ground
      (arith, of_tool-keep_ne t u rs ne, eq_iff (tool_text r) u, eq_iff (tool_text r) t, eq_iff u t)

text-or_text :
    (o : Option String)
    → truthy (or_text o "") ≡ true
    → (elim o [ none ↦ "None" | some t ↦ t ]) ≡ or_text o ""
text-or_text none h = cc h
text-or_text (some t) h = elim (Bool-cases (truthy t)) [
  | inl e ↦ rw e refl
  | inr e ↦ cc (ap (λ b. truthy (if b then t else "")) (sym e) ∙ h)
]

tool_text-named :
    (r : Observation) → truthy (tool_or_empty r) ≡ true → tool_text r ≡ tool_or_empty r
tool_text-named r h = text-or_text r.tool h

-- The results after one observation.
merged_with : Observation → List String → List Observation → List Observation
merged_with r names merged =
    if truthy (tool_or_empty r)
    then (if member (tool_or_empty r) names
        then keep (λ m. not (tool_text m == tool_or_empty r)) merged ++ (r ∷ [])
        else merged ++ (r ∷ []))
    else merged

names_with : Observation → List String → List String
names_with r names =
    if truthy (tool_or_empty r) && not (member (tool_or_empty r) names)
    then tool_or_empty r ∷ names
    else names

of_tool-single :
    (t : String) (r : Observation) (n : String)
    → tool_text r ≡ n
    → of_tool t (r ∷ []) ≡ (if n == t then r ∷ [] else [])
of_tool-single t r n named = rw named refl

append_nil : (rs : List Observation) → (rs ++ []) ≡ rs
append_nil [] = refl
append_nil (r ∷ rs) = rw (append_nil rs)

-- A tool's row in place of the ones that were there, and behind none.
of_tool-replaced :
    (t : String) (r : Observation) (merged : List Observation) (n : String)
    → tool_text r ≡ n
    → of_tool t (keep (λ m. not (tool_text m == n)) merged ++ (r ∷ []))
      ≡ (if n == t then r ∷ [] else of_tool t merged)
of_tool-replaced t r merged n named =
    keep-append (λ m. tool_text m == t) (keep (λ m. not (tool_text m == n)) merged) (r ∷ [])
    ∙ rw (of_tool-single t r n named) (elim (Bool-cases (n == t)) [
      | inl q ↦ rw q (
          ap (λ xs. xs ++ (r ∷ []))
            (ap (λ u. of_tool t (keep (λ m. not (tool_text m == u)) merged)) ((eq_iff n t).0 q)
              ∙ of_tool-keep_self t merged))
      | inr q ↦ rw q (append_nil _ ∙ of_tool-keep_ne t n merged q)
    ])

of_tool-appended :
    (t : String) (r : Observation) (merged : List Observation) (n : String)
    → tool_text r ≡ n
    → ((n == t) ≡ true → of_tool t merged ≡ [])
    → of_tool t (merged ++ (r ∷ [])) ≡ (if n == t then r ∷ [] else of_tool t merged)
of_tool-appended t r merged n named absent =
    keep-append (λ m. tool_text m == t) merged (r ∷ [])
    ∙ rw (of_tool-single t r n named) (elim (Bool-cases (n == t)) [
      | inl q ↦ rw q (ap (λ xs. xs ++ (r ∷ [])) (absent q))
      | inr q ↦ rw q (append_nil _)
    ])

of_tool-merged_with :
    (t : String) (r : Observation) (names : List String) (merged : List Observation)
    → Covers names merged
    → of_tool t (merged_with r names merged)
      ≡ (if truthy (tool_or_empty r) && (tool_or_empty r == t) then r ∷ [] else of_tool t merged)
unfolding merged_with
of_tool-merged_with t r names merged c = elim (Bool-cases (truthy (tool_or_empty r))) [
  | inr e ↦ rw e refl
  | inl e ↦ elim (Bool-cases (member (tool_or_empty r) names)) [
    | inl m ↦ rw (e, m) (of_tool-replaced t r merged (tool_or_empty r) (tool_text-named r e))
    | inr m ↦
        rw (e, m)
          (of_tool-appended t r merged (tool_or_empty r) (tool_text-named r e) (λ q.
            ap (λ u. of_tool u merged) (sym ((eq_iff (tool_or_empty r) t).0 q))
            ∙ c (tool_or_empty r) m))
  ]
]

names_with-absent :
    (b : Bool) (n t : String) (names : List String)
    → member t (if b && not (member n names) then n ∷ names else names) ≡ false
    → ((b && (n == t)) ≡ false) × (member t names ≡ false)
names_with-absent false n t names h = (refl, h)
names_with-absent true n t names h = elim (Bool-cases (member n names)) [
  | inl m ↦
      let absent = ap (λ b. member t (if not b then n ∷ names else names)) (sym m) ∙ h in
      (
        elim (Bool-cases (n == t)) [
          | inl q ↦ cc (sym m ∙ ap (λ u. member u names) ((eq_iff n t).0 q) ∙ absent)
          | inr q ↦ q
        ],
        absent,
      )
  | inr m ↦
      let absent : member t (n ∷ names) ≡ false =
        ap (λ b. member t (if not b then n ∷ names else names)) (sym m) ∙ h in
      let apart = ||_false (t == n) (member t names) absent in
      (ground (arith, eq_iff n t, eq_iff t n, apart.0), apart.1)
]

merged_with-Covers :
    (r : Observation) (names : List String) (merged : List Observation)
    → Covers names merged
    → Covers (names_with r names) (merged_with r names merged)
unfolding names_with
merged_with-Covers r names merged c t absent = rw (of_tool-merged_with t r names merged c) (
    let a = names_with-absent (truthy (tool_or_empty r)) (tool_or_empty r) t names absent in
    rw a.0 (c t a.1))

of_tool-merge_loop :
    (t : String) (rs : List Observation) (names : List String) (merged : List Observation)
    → Covers names merged
    → of_tool t (merge_loop rs names merged) ≡ last_of t rs (of_tool t merged)
unfolding merge_loop merged_with names_with
of_tool-merge_loop t [] names merged c = refl
of_tool-merge_loop t (r ∷ rs) names merged c =
    of_tool-merge_loop t rs (names_with r names) (merged_with r names merged)
      (merged_with-Covers r names merged c)
    ∙ ap (last_of t rs) (of_tool-merged_with t r names merged c)

tool_names-Covers : (rs : List Observation) → Covers (tool_names rs) rs
unfolding tool_names
tool_names-Covers [] t h = refl
tool_names-Covers (r ∷ rs) t h =
    ground (arith, eq_iff t (tool_text r), eq_iff (tool_text r) t, tool_names-Covers rs t)

keep-IsCurrent :
    (s : State) (rs : List Observation)
    → All (IsCurrent s) (
        keep
          (λ r.
            version_matches s.execution_version r.execution_version
            && epoch_current r.foreground_epoch s.foreground_epoch)
          rs)
keep-IsCurrent s [] = tt
keep-IsCurrent s (r ∷ rs) =
    elim (Bool-cases (version_matches s.execution_version r.execution_version)) [
      | inl v ↦ elim (Bool-cases (epoch_current r.foreground_epoch s.foreground_epoch)) [
        | inl e ↦ rw (v, e) ((v, e), keep-IsCurrent s rs)
        | inr e ↦ rw (v, e) (keep-IsCurrent s rs)
      ]
      | inr v ↦ rw v (keep-IsCurrent s rs)
    ]

filter-IsCurrent :
    (s : State) (rs : List Observation)
    → All (IsCurrent s) (filter_tool_observations_for_commit s rs)
unfolding filter_tool_observations_for_commit
filter-IsCurrent s rs = elim (Bool-cases (is_halted s)) [
  | inl h ↦ rw h tt
  | inr h ↦ rw h (keep-IsCurrent s rs)
]

filter_halted :
    (s : State) (rs : List Observation)
    → is_halted s ≡ true
    → filter_tool_observations_for_commit s rs ≡ []
unfolding filter_tool_observations_for_commit
filter_halted s rs h = rw h

-- For every tool, the results after a commit hold the last of its observations that passed the
-- gate, alone, and if there is none the results that were there; an observation that passed is of
-- the state's execution and of no older foreground epoch, and in a halted run none passes.
pub merge_commits_last :
    (s : State) (observations : List Observation) (t : String)
    → (of_tool t (merge_observations_to_tool_results s observations)
        ≡ last_of t (filter_tool_observations_for_commit s observations) (of_tool t s.tool_results))
      × All (IsCurrent s) (filter_tool_observations_for_commit s observations)
      × (is_halted s ≡ true → merge_observations_to_tool_results s observations ≡ s.tool_results)
unfolding merge_observations_to_tool_results
merge_commits_last s observations t = (
  of_tool-merge_loop t (filter_tool_observations_for_commit s observations)
      (tool_names s.tool_results) s.tool_results (tool_names-Covers s.tool_results),
  filter-IsCurrent s observations,
  λ halted. rw (filter_halted s observations halted) refl,
)
