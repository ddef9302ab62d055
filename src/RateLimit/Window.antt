-- ===== src/RateLimit/Window.antt =====
-- The window that forgets what is old answers as one that keeps the whole history would.
use agent_langraph.Prelude.{
  ℕ, ◌≤◌, String, ◌≡◌, refl, Bool, false, Bool-cases, inl, inr, List, [], ◌∷◌, ◌++◌, arith, leb,
  ltb, keep, length, keep-append, if◌then◌else◌, eq_iff, eq_refl, ◌==◌,
}
use mathlib.Core.List.{append-nil}
use agent_langraph.Prelude.Dict
use agent_langraph.Prelude.Dict.{get-put, get-empty}
use agent_langraph.RateLimit.{Limiter, window, is_recent, prune, memory_check}

-- A request is a key and the time at which it is checked.
abbrev pub Request : Type 0
Request = String × ℕ

-- The admitted times of a key, in a history of admitted requests.
unfoldable pub times_of : String → List Request → List ℕ
times_of key [] = []
times_of key ((k, t) ∷ h) = let rest = times_of key h in if k == key then t ∷ rest else rest

-- The specification: a request is admitted if fewer than `limit` of all those admitted under its
-- key so far are recent.
unfoldable pub spec_admits : ℕ → ℕ → Request → List Request → Bool
spec_admits limit w (key, now) h = ltb (length (keep (is_recent w now) (times_of key h))) limit

module _ (limit w : ℕ) where
  unfoldable pub spec_run : List Request → List Request → List Bool × List Request
  spec_run [] h = ([], h)
  spec_run (q ∷ qs) h =
      let a = spec_admits limit w q h in
      let rest = spec_run qs (if a then h ++ (q ∷ []) else h) in (a ∷ rest.0, rest.1)

  -- The answers of the limiter to the requests, in order.
  unfoldable pub run : List Request → Limiter → List Bool
  run [] l = []
  run ((key, now) ∷ qs) l = let r = memory_check key limit w now l in r.1 ∷ run qs r.0

-- The times do not fall, and do not begin before `last`.
abbrev pub IsSorted : ℕ → List Request → Type 0
IsSorted last [] = Unit
IsSorted last ((key, now) ∷ qs) = (last ≤ now) × IsSorted now qs

pub times_of-append :
    (key : String) (h g : List Request) → times_of key (h ++ g) ≡ times_of key h ++ times_of key g
unfolding times_of
times_of-append key [] g = refl
times_of-append key ((k, t) ∷ h) g = ground (arith, times_of-append key h g)

-- What is not recent now is not recent later.
keep_later :
    (w now later : ℕ) (ts : List ℕ)
    → now ≤ later
    → keep (is_recent w later) (keep (is_recent w now) ts) ≡ keep (is_recent w later) ts
keep_later w now later [] h = refl
keep_later w now later (t ∷ ts) h = ground (arith, keep_later w now later ts h)

-- From `last` on, the windows show what is recent of the history.
pub record Agrees (w last : ℕ) (l : Limiter) (h : List Request) : Type 0 where
  pub recent :
      (key : String) (now : ℕ)
      → last ≤ now
      → keep (is_recent w now) (window key l) ≡ keep (is_recent w now) (times_of key h)

window-prune :
    (key j : String) (w now : ℕ) (l : Limiter)
    → window j (prune key w now l)
      ≡ (if key == j then keep (is_recent w now) (window key l) else window j l)
unfolding window prune
window-prune key j w now l =
    rw get-put (elim (Bool-cases (key == j)) [ inl e ↦ rw e | inr e ↦ rw e ])

module _ (limit w : ℕ) where
  memory_check-answer :
      (key : String) (now last : ℕ) (l : Limiter) (h : List Request)
      → Agrees w last l h
      → last ≤ now
      → (memory_check key limit w now l).1 ≡ spec_admits limit w (key, now) h
  unfolding memory_check spec_admits
  memory_check-answer key now last l h a le =
      let same : window key (prune key w now l) ≡ keep (is_recent w now) (times_of key h) =
        rw window-prune (rw (eq_refl key) (a.recent key now le)) in
      rw same (ground arith)

-- The windows after an admission.
push : String → ℕ → Limiter → Limiter
push key now l = record l { windows = Dict.put key (window key l ++ (now ∷ [])) l.windows }

window-push :
    (key j : String) (now : ℕ) (l : Limiter)
    → window j (push key now l) ≡ (if key == j then window key l ++ (now ∷ []) else window j l)
unfolding window push
window-push key j now l = rw get-put (elim (Bool-cases (key == j)) [ inl e ↦ rw e | inr e ↦ rw e ])

-- A check touches no window but its own key's.
pub window-memory_check_ne :
    (key other : String) (limit w now : ℕ) (l : Limiter)
    → (key == other) ≡ false
    → window other (memory_check key limit w now l).0 ≡ window other l
unfolding memory_check
window-memory_check_ne key other limit w now l ne =
    let pruned : window other (prune key w now l) ≡ window other l = rw window-prune (rw ne) in
    elim (Bool-cases (leb limit (length (window key (prune key w now l))))) [
      | inl full ↦ rw full pruned
      | inr room ↦ rw room (unfold push in rw window-push (rw ne pruned))
    ]

prune-Agrees :
    (key : String) (w last now : ℕ) (l : Limiter) (h : List Request)
    → last ≤ now
    → Agrees w last l h
    → Agrees w now (prune key w now l) h
prune-Agrees key w last now l h le a = record {
  recent = λ j later p. rw window-prune (elim (Bool-cases (key == j)) [
    | inl e ↦ rw e (
        rw (keep_later w now later (window key l) p)
          (rw ((eq_iff key j).0 e) (a.recent j later (omega arith))))
    | inr e ↦ rw e (a.recent j later (omega arith))
  ]);
}

push-Agrees :
    (key : String) (w now : ℕ) (l : Limiter) (h : List Request)
    → Agrees w now l h
    → Agrees w now (push key now l) (h ++ ((key, now) ∷ []))
unfolding times_of
push-Agrees key w now l h a = record {
  recent = λ j later p.
      rw (window-push, times_of-append)
        (elim (Bool-cases (key == j)) [
          | inl e ↦
              rw e
                (rw (keep-append, keep-append) (rw ((eq_iff key j).0 e) (rw (a.recent j later p))))
          | inr e ↦ rw e (rw append-nil (a.recent j later p))
        ]);
}

module _ (limit w : ℕ) where
  -- One check keeps the agreement with the history that the specification would keep.
  memory_check-Agrees :
      (key : String) (now last : ℕ) (l : Limiter) (h : List Request)
      → last ≤ now
      → Agrees w last l h
      → Agrees w now
          (memory_check key limit w now l).0
          (if spec_admits limit w (key, now) h then h ++ ((key, now) ∷ []) else h)
  unfolding memory_check
  memory_check-Agrees key now last l h le a =
      rw (← memory_check-answer limit w key now last l h a le)
        (elim (Bool-cases (leb limit (length (window key (prune key w now l))))) [
          | inl full ↦ rw full (prune-Agrees key w last now l h le a)
          | inr room ↦ rw room (
              unfold push in
              push-Agrees key w now (prune key w now l) h (prune-Agrees key w last now l h le a))
        ])

  -- For requests in the order of their times, under any keys, the limiter gives the answers of
  -- the specification that forgets nothing.
  pub run_refines :
      (qs : List Request) (last : ℕ) (l : Limiter) (h : List Request)
      → IsSorted last qs
      → Agrees w last l h
      → run limit w qs l ≡ (spec_run limit w qs h).0
  unfolding run spec_run
  run_refines [] last l h s a = refl
  run_refines ((key, now) ∷ qs) last l h s a =
      let r = memory_check key limit w now l in
      let answer = memory_check-answer limit w key now last l h a s.0 in
      let rest = run_refines qs now r.0 _ s.1 (memory_check-Agrees key now last l h s.0 a) in
      cc (answer, rest)

pub empty-Agrees : (w : ℕ) → Agrees w 0 (record { windows = [] }) []
unfolding window times_of
empty-Agrees w = record { recent = λ key now h. rw (get-empty {V = List ℕ} key) }
