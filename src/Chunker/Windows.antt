-- ===== src/Chunker/Windows.antt =====
-- The windows of a paragraph that is too long.
use agent_langraph.Prelude.{
  ℕ, zero, suc, ◌+◌, ◌-◌, ◌≤◌, ◌<◌, min, max, ◌≡◌, inl, inr, Bool, true, false, ◌&&◌, ◌||◌,
  Bool-cases, List, [], ◌∷◌, map, arith, ltb, leb, length, All, by_if, ltb→lt, ltb→ge, leb→le,
  ||_true,
}
use agent_langraph.Chunker.{Text, take, drop, slice, windows, window_parts}

-- The windows lie in the text and have this many characters at most, and each begins no later than
-- where the one before it ends, the first at the start and the last at the end of the text.
abbrev pub IsCover : ℕ → ℕ → ℕ → List (ℕ × ℕ) → Type 0
IsCover max_chars size reached [] = size ≤ reached
IsCover max_chars size reached ((a, b) ∷ ws) =
    (a ≤ reached) × (a < b) × (b ≤ a + max_chars) × (b ≤ size) × IsCover max_chars size b ws

windows-IsCover :
    (n max_chars overlap_chars size start reached : ℕ)
    → 0 < max_chars
    → size ≤ n + start
    → start ≤ reached
    → IsCover max_chars size reached (windows n max_chars overlap_chars size start)
unfolding windows
windows-IsCover zero m o size start reached some_max fuel s = omega (arith, fuel, s)
windows-IsCover (suc n) m o size start reached some_max fuel s =
    by_if (IsCover m size reached) (ltb start size)
      (λ more.
        by_if (IsCover m size reached) (leb size (min size (start + m)))
          (λ ends.
            (s, begins more, omega arith, omega arith, leb→le size (min size (start + m)) ends))
          (λ goes_on. (
            s,
            begins more,
            omega arith,
            omega arith,
            windows-IsCover n m o size (max (min size (start + m) - o) (start + 1))
                (min size (start + m)) some_max (omega (arith, fuel)) (omega (arith, begins more)),
          )))
      (λ over. omega (arith, s, ltb→ge start size over))
  where
    begins : ltb start size ≡ true → start < min size (start + m)
    begins more = omega (arith, some_max, ltb→lt start size more)

-- Every place of the text is in a window.
abbrev pub is_in : ℕ → List (ℕ × ℕ) → Bool
is_in p [] = false
is_in p ((a, b) ∷ ws) = (leb a p && ltb p b) || is_in p ws

covered :
    (max_chars size reached p : ℕ) (ws : List (ℕ × ℕ))
    → IsCover max_chars size reached ws
    → reached ≤ p
    → p < size
    → is_in p ws ≡ true
covered m size reached p [] c lo hi = absurd (omega (arith, c, lo, hi))
covered m size reached p ((a, b) ∷ ws) (starts, some, short, fits, rest) lo hi =
    elim (Bool-cases (ltb p b)) [
      | inl e ↦ ground (arith, starts, lo, e)
      | inr e ↦ rw (covered m size b p ws rest (ltb→ge p b e) hi) (||_true _)
    ]

length-take-le {ℓ} : {A : Type ℓ} (n : ℕ) (xs : List A) → length (take n xs) ≤ n
length-take-le zero xs = omega arith
length-take-le (suc n) [] = omega arith
length-take-le (suc n) (x ∷ xs) = omega (arith, length-take-le n xs)

short_slices :
    (text : Text) (max_chars size reached : ℕ) (ws : List (ℕ × ℕ))
    → IsCover max_chars size reached ws
    → All (λ part. length part ≤ max_chars) (map (slice text) ws)
short_slices text m size reached [] c = tt
short_slices text m size reached ((a, b) ∷ ws) (starts, some, short, fits, rest) =
    (omega (arith, length-take-le (b - a) (drop a text), short), short_slices text m size b ws rest)

pub window_parts-short :
    (max_chars overlap_chars : ℕ) (para : Text)
    → 0 < max_chars
    → All (λ part. length part ≤ max_chars) (window_parts max_chars overlap_chars para)
unfolding window_parts
window_parts-short m o para some_max =
    short_slices para m (length para) 0 (windows (length para) m o (length para) 0)
      (windows-IsCover (length para) m o (length para) 0 0 some_max (omega arith) (omega arith))

-- With a positive maximum, the loop over a long paragraph ends for every overlap, also one that is
-- no shorter than the windows, in as many rounds as there are characters: its windows lie in the
-- paragraph, have no more than the maximum of characters, join without gaps, and each place of the
-- paragraph is in one of them.
pub windows_complete :
    (max_chars overlap_chars size p : ℕ)
    → 0 < max_chars
    → p < size
    → IsCover max_chars size 0 (windows size max_chars overlap_chars size 0)
      × (is_in p (windows size max_chars overlap_chars size 0) ≡ true)
windows_complete m o size p some_max inside =
    let cover = windows-IsCover size m o size 0 0 some_max (omega arith) (omega arith) in
    (cover, covered m size 0 p (windows size m o size 0) cover (omega arith) inside)
