-- ===== src/Chunker/Parts.antt =====
-- How long the parts of a section are.
use agent_langraph.Prelude.{
  ℕ, zero, suc, ◌+◌, ◌-◌, ◌≤◌, ◌<◌, ◌≡◌, refl, ◌∙◌, Bool, true, false, not, ◌&&◌, List, [], ◌∷◌,
  ◌++◌, arith, if◌then◌else◌, ltb, length, length-append, All, by_if, ltb→ge,
}
use agent_langraph.Chunker.{
  Text, drop, window_parts, join, lstrip, Cut, is_some_list, overlap_of, flush, add_paragraph,
  add_paragraphs, split_paragraphs_with_overlap,
}
use agent_langraph.Chunker.Windows.{window_parts-short}

-- No part is longer than the maximum, with the overlap and the blank line after it.
abbrev pub IsShort : ℕ → ℕ → Text → Type 0
IsShort max_chars overlap_chars part = length part ≤ max_chars + overlap_chars + 2

-- The paragraphs that are gathered are counted, and are short.
record IsCounted (max_chars overlap_chars : ℕ) (w : Cut) : Type 0 where
  counted : length (join w.current) ≤ w.current_len
  short : IsShort max_chars overlap_chars (join w.current)
  parts_short : All (IsShort max_chars overlap_chars) w.parts

All-append {ℓ κ} :
    {A : Type ℓ} (P : A → Type κ) (xs ys : List A) → All P xs → All P ys → All P (xs ++ ys)
All-append P [] ys h k = k
All-append P (x ∷ xs) ys (h, hs) k = (h, All-append P xs ys hs k)

length-lstrip-le : (s : Text) → length (lstrip s) ≤ length s
unfolding lstrip
length-lstrip-le [] = omega arith
length-lstrip-le (c ∷ s) = ground (arith, length-lstrip-le s)

length-drop {ℓ} : {A : Type ℓ} (n : ℕ) (xs : List A) → length (drop n xs) ≡ length xs - n
length-drop zero xs = omega arith
length-drop (suc n) [] = omega arith
length-drop (suc n) (x ∷ xs) = length-drop n xs ∙ omega arith

length-overlap_of : (o : ℕ) (ps : List Text) → length (overlap_of o ps) ≤ o
unfolding overlap_of
length-overlap_of o ps = omega (
  arith,
  length-lstrip-le (drop (length (join ps) - o) (join ps)),
  length-drop (length (join ps) - o) (join ps),
)

-- What joining one more paragraph adds.
length-join-end :
    (ps : List Text) (p : Text)
    → length (join (ps ++ (p ∷ [])))
      ≡ length (join ps) + (length p + (if is_some_list ps then 2 else 0))
unfolding join
length-join-end [] p = omega arith
length-join-end (q ∷ []) p = length-append q (10 ∷ 10 ∷ p) ∙ omega arith
length-join-end (q ∷ r ∷ ps) p =
    length-append q (10 ∷ 10 ∷ join (r ∷ ps ++ (p ∷ [])))
    ∙ omega (arith, length-join-end (r ∷ ps) p, length-append q (10 ∷ 10 ∷ join (r ∷ ps)))

abbrev two : List Text → ℕ
two ps = if is_some_list ps then 2 else 0

two-le : (ps : List Text) → two ps ≤ 2
two-le [] = omega arith
two-le (p ∷ ps) = omega arith

two-some : (ps : List Text) → is_some_list ps ≡ true → two ps ≡ 2
two-some ps h = rw h refl

both : (a b : Bool) → (a && b) ≡ true → (a ≡ true) × (b ≡ true)
both true b h = (refl, h)
both false b h = cc h

unflushed :
    (m o size n : ℕ) (ps : List Text)
    → length (join ps) ≤ n
    → (is_some_list ps && ltb m (n + (size + two ps))) ≡ false
    → size ≤ m
    → length (join ps) + (size + two ps) ≤ m + o + 2
unfolding join
unflushed m o size n [] c e fits = omega (arith, fits)
unflushed m o size n (p ∷ ps) c e fits = omega (arith, c, ltb→ge m (n + (size + 2)) e)

-- What `flush` leaves: the parts are short, and what is gathered is the overlap.
record IsFlushed (max_chars overlap_chars : ℕ) (w : Cut) : Type 0 where
  still : IsCounted max_chars overlap_chars w
  tail : length (join w.current) ≤ overlap_chars

one_overlap : (t : Text) → length (join (if is_some_list t then t ∷ [] else [])) ≡ length t
unfolding join
one_overlap [] = refl
one_overlap (c ∷ t) = refl

module _ (m o : ℕ) (w : Cut) (k : IsCounted m o w) where
  with_part : All (IsShort m o) (w.parts ++ (join w.current ∷ []))
  with_part = All-append (IsShort m o) w.parts (join w.current ∷ []) k.parts_short (k.short, tt)

  flush-IsFlushed : is_some_list w.current ≡ true → IsFlushed m o (flush o w)
  unfolding flush join
  flush-IsFlushed some =
      by_if (IsFlushed m o) (not (is_some_list w.current)) (λ e. cc (some, e))
        (λ e.
          by_if (IsFlushed m o) (ltb 0 o && ltb 1 (length w.current))
            (λ more. record {
              still = record {
                counted = omega (arith, one_overlap (overlap_of o w.current));
                short =
                    omega
                      (arith, one_overlap (overlap_of o w.current), length-overlap_of o w.current);
                parts_short = with_part;
              };
              tail =
                  omega
                    (arith, one_overlap (overlap_of o w.current), length-overlap_of o w.current);
            })
            (λ one. record {
              still = record {
                counted = omega arith;
                short = omega arith;
                parts_short = with_part;
              };
              tail = omega arith;
            }))

  -- What is gathered has room for this paragraph.
  abbrev HasRoom : Text → Cut → Type 0
  HasRoom para v =
      IsCounted m o v
      × (two v.current ≤ two w.current)
      × (length (join v.current) + (length para + two v.current) ≤ m + o + 2)

  after_flush :
      (para : Text)
      → length para ≤ m
      → HasRoom para (
          if is_some_list w.current && ltb m (w.current_len + (length para + two w.current))
          then flush o w
          else w)
  after_flush para fits =
      by_if (HasRoom para)
        (is_some_list w.current && ltb m (w.current_len + (length para + two w.current)))
        (λ e.
          let some =
            (both (is_some_list w.current) (ltb m (w.current_len + (length para + two w.current)))
              e).0 in
          let flushed = flush-IsFlushed some in
          (
            flushed.still,
            omega (arith, two-le (flush o w).current, two-some w.current some),
            omega (arith, fits, flushed.tail, two-le (flush o w).current),
          ))
        (λ e.
          (k, omega arith, unflushed m o (length para) w.current_len w.current k.counted e fits))

  add_short :
      (para : Text) (v : Cut)
      → HasRoom para v
      → IsCounted m o (record v {
        current = v.current ++ (para ∷ []);
        current_len = v.current_len + (length para + two w.current);
      })
  add_short para v (c, less, room) = record {
    counted = omega (arith, c.counted, less, length-join-end v.current para);
    short = omega (arith, room, length-join-end v.current para);
    parts_short = c.parts_short;
  }

flush-IsCounted :
    (m o : ℕ) (b : Bool) (w : Cut)
    → IsCounted m o w
    → (b ≡ true → is_some_list w.current ≡ true)
    → IsCounted m o (if b then flush o w else w)
flush-IsCounted m o b w k some =
    by_if (IsCounted m o) b (λ e. (flush-IsFlushed m o w k (some e)).still) (λ e. k)

weaken : (m o : ℕ) (ps : List Text) → All (λ p. length p ≤ m) ps → All (IsShort m o) ps
weaken m o [] h = tt
weaken m o (p ∷ ps) (h, hs) = (omega (arith, h), weaken m o ps hs)

add_windows :
    (m o : ℕ) (para : Text) (v : Cut)
    → 0 < m
    → IsCounted m o v
    → IsCounted m o (record v { parts = v.parts ++ window_parts m o para })
add_windows m o para v some_max c = record {
  counted = c.counted;
  short = c.short;
  parts_short =
      All-append (IsShort m o) v.parts (window_parts m o para) c.parts_short
        (weaken m o (window_parts m o para) (window_parts-short m o para some_max));
}

add_paragraph-IsCounted :
    (m o : ℕ) (para : Text) (w : Cut)
    → 0 < m
    → IsCounted m o w
    → IsCounted m o (add_paragraph m o para w)
unfolding add_paragraph
add_paragraph-IsCounted m o para w some_max k =
    let full = is_some_list w.current && ltb m (w.current_len + (length para + two w.current)) in
    let w1 : Cut = if full then flush o w else w in
    let c1 = flush-IsCounted m o full w k (λ e.
      (both (is_some_list w.current) (ltb m (w.current_len + (length para + two w.current)))
        e).0) in
    by_if (IsCounted m o) (ltb m (length para))
      (λ long.
        add_windows m o para (if is_some_list w1.current then flush o w1 else w1) some_max
          (flush-IsCounted m o (is_some_list w1.current) w1 c1 (λ e. e)))
      (λ short. add_short m o w k para w1 (after_flush m o w k para (ltb→ge m (length para) short)))

add_paragraphs-IsCounted :
    (m o : ℕ) (ps : List Text) (w : Cut)
    → 0 < m
    → IsCounted m o w
    → IsCounted m o (add_paragraphs m o ps w)
unfolding add_paragraphs
add_paragraphs-IsCounted m o [] w some_max k = k
add_paragraphs-IsCounted m o (p ∷ ps) w some_max k =
    add_paragraphs-IsCounted m o ps (add_paragraph m o p w) some_max
      (add_paragraph-IsCounted m o p w some_max k)

flush-nothing :
    (m o : ℕ) (w : Cut)
    → IsCounted m o w
    → is_some_list w.current ≡ false
    → All (IsShort m o) (flush o w).parts
unfolding flush
flush-nothing m o w k e =
    by_if (λ (v : Cut). All (IsShort m o) v.parts) (not (is_some_list w.current))
      (λ h. k.parts_short) (λ h. cc (e, h))

-- With a positive maximum, a part of a section has no more characters than the maximum, the overlap
-- and a blank line together, whatever the paragraphs.
pub split_paragraphs-IsShort :
    (max_chars overlap_chars : ℕ) (paragraphs : List Text)
    → 0 < max_chars
    → All
        (IsShort max_chars overlap_chars)
        (split_paragraphs_with_overlap max_chars overlap_chars paragraphs)
unfolding split_paragraphs_with_overlap join
split_paragraphs-IsShort m o ps some_max =
    let start : Cut = record { parts = []; current = []; current_len = 0 } in
    let w = add_paragraphs m o ps start in
    let k =
      add_paragraphs-IsCounted m o ps start some_max
        (record { counted = omega arith; short = omega arith; parts_short = tt }) in
    by_flush w k (is_some_list w.current) refl
  where
    by_flush :
        (w : Cut)
        → IsCounted m o w
        → (b : Bool) → is_some_list w.current ≡ b
        → All (IsShort m o) (flush o w).parts
    by_flush w k true e = (flush-IsFlushed m o w k e).still.parts_short
    by_flush w k false e = flush-nothing m o w k e
