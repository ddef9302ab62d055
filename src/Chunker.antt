-- ===== src/Chunker.antt =====
-- app/services/knowledge_chunker.py: how a section is cut into parts. A text is the list of the codes of
-- its characters; what the regular expressions find, the paragraphs, is given.
pub mod Windows
pub mod Parts
mod Examples
use agent_langraph.Prelude.{
  ℕ, zero, suc, ◌+◌, ◌-◌, min, max, Bool, true, false, not, ◌&&◌, List, [], ◌∷◌, ◌++◌, map,
  if◌then◌else◌, ltb, leb, length,
}
use agent_langraph.Prelude.Texts.{is_space}

abbrev pub Text : Type 0
Text = List ℕ

abbrev pub take {ℓ} : {A : Type ℓ} → ℕ → List A → List A
take zero xs = []
take (suc n) [] = []
take (suc n) (x ∷ xs) = x ∷ take n xs

abbrev pub drop {ℓ} : {A : Type ℓ} → ℕ → List A → List A
drop zero xs = xs
drop (suc n) [] = []
drop (suc n) (x ∷ xs) = drop n xs

-- `text[start:end]`
abbrev pub slice : Text → ℕ × ℕ → Text
slice text (start, end) = take (end - start) (drop start text)

-- The loop over a paragraph that is too long, from `start` on: the bounds of the windows.
unfoldable pub windows : ℕ → ℕ → ℕ → ℕ → ℕ → List (ℕ × ℕ)
windows zero max_chars overlap_chars size start = []
windows (suc n) max_chars overlap_chars size start =
    let end = min size (start + max_chars) in
    let rest = windows n max_chars overlap_chars size (max (end - overlap_chars) (start + 1)) in
    if ltb start size then (if leb size end then (start, end) ∷ [] else (start, end) ∷ rest) else []

-- As many rounds as the paragraph has characters.
unfoldable pub window_parts : ℕ → ℕ → Text → List Text
unfolding windows
window_parts max_chars overlap_chars para =
    map (slice para) (windows (length para) max_chars overlap_chars (length para) 0)

-- `"\n\n".join(paragraphs)`
unfoldable pub join : List Text → Text
join [] = []
join (p ∷ []) = p
join (p ∷ q ∷ ps) = p ++ (10 ∷ 10 ∷ join (q ∷ ps))

-- `text.lstrip()`
unfoldable pub lstrip : Text → Text
lstrip [] = []
lstrip (c ∷ s) = let rest = lstrip s in if is_space c then rest else c ∷ s

-- What the loop over the paragraphs changes.
pub record Cut : Type 0 where
  pub parts : List Text
  pub current : List Text
  pub current_len : ℕ

abbrev pub is_some_list {ℓ} : {A : Type ℓ} → List A → Bool
is_some_list [] = false
is_some_list (x ∷ xs) = true

-- `tail[-overlap_chars:].lstrip()`
unfoldable pub overlap_of : ℕ → List Text → Text
unfolding join lstrip
overlap_of overlap_chars current =
    let tail = join current in lstrip (drop (length tail - overlap_chars) tail)

unfoldable pub flush : ℕ → Cut → Cut
unfolding overlap_of join
flush overlap_chars w =
    let overlap = overlap_of overlap_chars w.current in
    let parts = w.parts ++ (join w.current ∷ []) in
    if not (is_some_list w.current)
    then w
    else if ltb 0 overlap_chars && ltb 1 (length w.current)
    then record {
      parts = parts;
      current = if is_some_list overlap then overlap ∷ [] else [];
      current_len = length overlap;
    }
    else record { parts = parts; current = []; current_len = 0 }

unfoldable pub add_paragraph : ℕ → ℕ → Text → Cut → Cut
unfolding flush window_parts
add_paragraph max_chars overlap_chars para w =
    let para_len = length para + (if is_some_list w.current then 2 else 0) in
    let w1 =
      if is_some_list w.current && ltb max_chars (w.current_len + para_len)
      then flush overlap_chars w
      else w in
    let w2 = if is_some_list w1.current then flush overlap_chars w1 else w1 in
    if ltb max_chars (length para)
    then record w2 { parts = w2.parts ++ window_parts max_chars overlap_chars para }
    else record w1 { current = w1.current ++ (para ∷ []); current_len = w1.current_len + para_len }

unfoldable pub add_paragraphs : ℕ → ℕ → List Text → Cut → Cut
unfolding add_paragraph
add_paragraphs max_chars overlap_chars [] w = w
add_paragraphs max_chars overlap_chars (p ∷ ps) w =
    add_paragraphs max_chars overlap_chars ps (add_paragraph max_chars overlap_chars p w)

unfoldable pub split_paragraphs_with_overlap : ℕ → ℕ → List Text → List Text
unfolding add_paragraphs flush
split_paragraphs_with_overlap max_chars overlap_chars paragraphs =
    (flush overlap_chars (
      add_paragraphs max_chars overlap_chars paragraphs
        (record { parts = []; current = []; current_len = 0 }))).parts
