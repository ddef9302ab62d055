-- ===== src/RateLimit/Bound.antt =====
-- No window of time holds more admitted requests of a key than the limit.
use agent_langraph.Prelude.{
  ℕ, ◌≤◌, String, ◌≡◌, sym, Bool, true, false, ◌&&◌, Bool-cases, inl, inr, List, [], ◌∷◌, ◌++◌,
  arith, leb, keep, length, keep-append, ◌∙◌, length-append, eq_iff, ◌==◌,
}
use mathlib.Core.List.{append-nil, append_assoc}
use agent_langraph.RateLimit.{is_recent}
use agent_langraph.RateLimit.Window.{
  Request, times_of, times_of-append, spec_admits, spec_run, run, run_refines, empty-Agrees,
  IsSorted,
}

-- `t` lies in the window of `w` ticks that ends with the time `end`.
abbrev pub is_within : ℕ → ℕ → ℕ → Bool
is_within w end t = leb t end && is_recent w end t

-- The times of a key in a window that ends at `end`.
abbrev pub count_within : ℕ → ℕ → String → List Request → ℕ
count_within w end key h = length (keep (is_within w end) (times_of key h))

within-le-recent :
    (w now end : ℕ) (ts : List ℕ)
    → now ≤ end
    → length (keep (is_within w end) ts) ≤ length (keep (is_recent w now) ts)
within-le-recent w now end [] h = omega arith
within-le-recent w now end (t ∷ ts) h = ground (arith, within-le-recent w now end ts h)

-- Not more than `limit` requests of any key in any window.
pub record IsBounded (limit w : ℕ) (h : List Request) : Type 0 where
  pub within : (key : String) (end : ℕ) → count_within w end key h ≤ limit

module _ (limit w : ℕ) where
  -- The window of the key that was admitted has room for the new time.
  fits :
      (key : String) (now end : ℕ) (h : List Request)
      → spec_admits limit w (key, now) h ≡ true
      → count_within w end key h ≤ limit
      → length (keep (is_within w end) (times_of key h) ++ keep (is_within w end) (now ∷ []))
        ≤ limit
  unfolding spec_admits
  fits key now end h admitted b =
      rw length-append (ground (arith, within-le-recent w now end (times_of key h)))

  admit-IsBounded :
      (key : String) (now : ℕ) (h : List Request)
      → spec_admits limit w (key, now) h ≡ true
      → IsBounded limit w h
      → IsBounded limit w (h ++ ((key, now) ∷ []))
  unfolding times_of
  admit-IsBounded key now h admitted b = record {
    within = λ j end. rw times_of-append (
        rw keep-append (elim (Bool-cases (key == j)) [
          | inl e ↦
              rw e (rw (← (eq_iff key j).0 e) (fits key now end h admitted (b.within key end)))
          | inr e ↦ rw e (rw append-nil (b.within j end))
        ]));
  }

  spec_run-IsBounded :
      (qs : List Request) (h : List Request)
      → IsBounded limit w h
      → IsBounded limit w (spec_run limit w qs h).1
  unfolding spec_run
  spec_run-IsBounded [] h b = b
  spec_run-IsBounded (q ∷ qs) h b = elim (Bool-cases (spec_admits limit w q h)) [
    | inl accepted ↦
        rw accepted (spec_run-IsBounded qs (h ++ (q ∷ [])) (admit-IsBounded q.0 q.1 h accepted b))
    | inr rejected ↦ rw rejected (spec_run-IsBounded qs h b)
  ]

  -- The requests that got the answer `true`.
  abbrev pub admitted : List Request → List Bool → List Request
  admitted [] answers = []
  admitted (q ∷ qs) [] = []
  admitted (q ∷ qs) (true ∷ answers) = q ∷ admitted qs answers
  admitted (q ∷ qs) (false ∷ answers) = admitted qs answers

  spec_run-admitted :
      (qs h : List Request) → (spec_run limit w qs h).1 ≡ h ++ admitted qs (spec_run limit w qs h).0
  unfolding spec_run
  spec_run-admitted [] h = sym (append-nil h)
  spec_run-admitted (q ∷ qs) h = elim (Bool-cases (spec_admits limit w q h)) [
    | inl accepted ↦ rw accepted (spec_run-admitted qs (h ++ (q ∷ [])) ∙ append_assoc h (q ∷ []) _)
    | inr rejected ↦ rw rejected (spec_run-admitted qs h)
  ]

  -- From an empty limiter, for requests under any keys in the order of their times: in every
  -- window of `w` ticks, wherever it ends, at most `limit` requests of a key are let through.
  pub sliding_window_bound :
      (qs : List Request) (key : String) (end : ℕ)
      → IsSorted 0 qs
      → count_within w end key (admitted qs (run limit w qs (record { windows = [] }))) ≤ limit
  unfolding times_of
  sliding_window_bound qs key end s =
      rw (run_refines limit w qs 0 (record { windows = [] }) [] s (empty-Agrees w)) (
        rw (spec_run-admitted qs []) at
          ((spec_run-IsBounded qs [] (record { within = λ j e. omega arith })).within key end))
