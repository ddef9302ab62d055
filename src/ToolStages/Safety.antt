-- ===== src/ToolStages/Safety.antt =====
-- What the normalization of stages guarantees to the threads that run them.
use agent_langraph.Prelude.{
  ℕ, suc, ◌+◌, String, ◌≡◌, refl, ◌∙◌, ◌⊎◌, inl, inr, Bool, true, not, ◌&&◌, List, [], ◌∷◌, ◌++◌,
  arith, ◌==◌, if◌then◌else◌, keep, All, length,
}
use agent_langraph.ToolStages.{
  tool_is_read_only, is_empty, singletons, or_stages, partition_stage_by_side_effect,
  normalize_stages_for_safe_parallel,
}

-- `all(tool_is_read_only(t) for t in tools)`
abbrev pub all_read_only : List String → Bool
all_read_only [] = true
all_read_only (t ∷ ts) = tool_is_read_only t && all_read_only ts

-- A stage that may run on several threads holds tools that only read.
abbrev pub IsSafe : List String → Type 0
IsSafe stage = (all_read_only stage ≡ true) ⊎ (length stage ≡ 1)

all_read_only-keep : (ts : List String) → all_read_only (keep tool_is_read_only ts) ≡ true
all_read_only-keep [] = refl
all_read_only-keep (t ∷ ts) = ground (arith, all_read_only-keep ts)

pub singletons-IsSafe : (ts : List String) → All IsSafe (singletons ts)
unfolding singletons
singletons-IsSafe [] = tt
singletons-IsSafe (t ∷ ts) = (inr refl, singletons-IsSafe ts)

All-append : (xs ys : List (List String)) → All IsSafe xs → All IsSafe ys → All IsSafe (xs ++ ys)
All-append [] ys hx hy = hy
All-append (x ∷ xs) ys hx hy = (hx.0, All-append xs ys hx.1 hy)

or_stages-IsSafe :
    (ss ds : List (List String)) → All IsSafe ss → All IsSafe ds → All IsSafe (or_stages ss ds)
or_stages-IsSafe [] ds hs hd = hd
or_stages-IsSafe (s ∷ ss) ds hs hd = hs

-- How often a tool is called in a list of stages.
abbrev pub calls : String → List String → ℕ
calls t [] = 0
calls t (u ∷ us) = let rest = calls t us in if u == t then suc rest else rest

abbrev pub stage_calls : String → List (List String) → ℕ
stage_calls t [] = 0
stage_calls t (s ∷ ss) = calls t s + stage_calls t ss

stage_calls-append :
    (t : String) (xs ys : List (List String))
    → stage_calls t (xs ++ ys) ≡ stage_calls t xs + stage_calls t ys
stage_calls-append t [] ys = omega arith
stage_calls-append t (x ∷ xs) ys = omega (arith, stage_calls-append t xs ys)

stage_calls-singletons :
    (t : String) (ts : List String) → stage_calls t (singletons ts) ≡ calls t ts
unfolding singletons
stage_calls-singletons t [] = refl
stage_calls-singletons t (u ∷ us) = ground (arith, stage_calls-singletons t us)

calls-keep :
    (p : String → Bool) (t : String) (ts : List String)
    → calls t (keep p ts) + calls t (keep (λ u. not (p u)) ts) ≡ calls t ts
calls-keep p t [] = omega arith
calls-keep p t (u ∷ us) = ground (arith, calls-keep p t us)

no_reads :
    (ts : List String)
    → keep tool_is_read_only ts ≡ []
    → keep (λ u. not (tool_is_read_only u)) ts ≡ ts
no_reads [] h = refl
no_reads (t ∷ ts) h = ground (arith, no_reads ts)

reads_first :
    (reads writes tools : List String)
    → all_read_only reads ≡ true
    → (reads ≡ [] → writes ≡ tools)
    → All IsSafe
        (or_stages ((if is_empty reads then [] else reads ∷ []) ++ singletons writes) (tools ∷ []))
unfolding singletons
reads_first [] [] tools r e = (inl (rw (← e refl)), tt)
reads_first [] (w ∷ ws) tools r e = (inr refl, singletons-IsSafe ws)
reads_first (x ∷ xs) writes tools r e = (inl r, singletons-IsSafe writes)

partition-IsSafe : (tools : List String) → All IsSafe (partition_stage_by_side_effect tools)
unfolding partition_stage_by_side_effect
partition-IsSafe tools =
    reads_first (keep tool_is_read_only tools) (keep (λ t. not (tool_is_read_only t)) tools) tools
      (all_read_only-keep tools) (no_reads tools)

reads_then_calls :
    (t : String) (reads writes tools : List String)
    → (reads ≡ [] → writes ≡ tools)
    → stage_calls t
        (or_stages ((if is_empty reads then [] else reads ∷ []) ++ singletons writes) (tools ∷ []))
      ≡ calls t reads + calls t writes
unfolding singletons
reads_then_calls t [] [] tools e = rw (← e refl) (omega arith)
reads_then_calls t [] (w ∷ ws) tools e = omega (arith, stage_calls-singletons t (w ∷ ws))
reads_then_calls t (x ∷ xs) writes tools e = omega (arith, stage_calls-singletons t writes)

partition-calls :
    (t : String) (tools : List String)
    → stage_calls t (partition_stage_by_side_effect tools) ≡ calls t tools
unfolding partition_stage_by_side_effect
partition-calls t tools =
    reads_then_calls t (keep tool_is_read_only tools) (keep (λ u. not (tool_is_read_only u)) tools)
      tools (no_reads tools)
    ∙ calls-keep tool_is_read_only t tools

-- Every normalized stage holds one tool, or tools that only read; and each tool is called as often
-- as in the stages that were given.
pub normalize_stages-IsSafe :
    (ss : List (List String)) (t : String)
    → All IsSafe (normalize_stages_for_safe_parallel ss)
      × (stage_calls t (normalize_stages_for_safe_parallel ss) ≡ stage_calls t ss)
unfolding normalize_stages_for_safe_parallel
normalize_stages-IsSafe [] t = (tt, refl)
normalize_stages-IsSafe (s ∷ ss) t =
    let rest = normalize_stages-IsSafe ss t in
    (
      All-append (partition_stage_by_side_effect s) (normalize_stages_for_safe_parallel ss)
          (partition-IsSafe s) rest.0,
      rw stage_calls-append (omega (arith, partition-calls t s, rest.1)),
    )
