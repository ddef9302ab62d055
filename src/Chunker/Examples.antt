-- ===== src/Chunker/Examples.antt =====
-- Windows of four characters, and paragraphs of one and of six characters.
use agent_langraph.Prelude.{◌≡◌, refl, true, List, [], ◌∷◌, arith, All}
use agent_langraph.Chunker.{
  Text, windows, join, lstrip, window_parts, flush, overlap_of, add_paragraph, add_paragraphs,
  split_paragraphs_with_overlap,
}
use agent_langraph.Chunker.Windows.{IsCover, is_in, windows_complete}
use agent_langraph.Chunker.Parts.{IsShort, split_paragraphs-IsShort}

ten : windows 10 4 1 10 0 ≡ (0, 4) ∷ (3, 7) ∷ (6, 10) ∷ []
unfolding windows
ten = refl

windows_complete_example :
    IsCover 4 10 0 (windows 10 4 1 10 0) × (is_in 5 (windows 10 4 1 10 0) ≡ true)
windows_complete_example = windows_complete 4 1 10 5 (omega arith) (omega arith)

abbrev paragraphs : List Text
paragraphs = (97 ∷ []) ∷ (98 ∷ []) ∷ (99 ∷ 99 ∷ 99 ∷ 99 ∷ 99 ∷ 99 ∷ []) ∷ []

-- The second part has nine characters where six are the most.
too_long :
    split_paragraphs_with_overlap 6 2 paragraphs
    ≡ (97 ∷ 10 ∷ 10 ∷ 98 ∷ []) ∷ (98 ∷ 10 ∷ 10 ∷ 99 ∷ 99 ∷ 99 ∷ 99 ∷ 99 ∷ 99 ∷ []) ∷ []
unfolding split_paragraphs_with_overlap add_paragraphs add_paragraph flush overlap_of join lstrip
    window_parts
too_long = refl

split_paragraphs-IsShort_example : All (IsShort 6 2) (split_paragraphs_with_overlap 6 2 paragraphs)
split_paragraphs-IsShort_example = split_paragraphs-IsShort 6 2 paragraphs (omega arith)
