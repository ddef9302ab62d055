-- ===== src/TaskQueue/Score.antt =====
-- Whole numbers with their order, as priorities are compared.
use agent_langraph.Prelude.{
  ℕ, suc, ◌+◌, ◌-◌, ◌≡◌, refl, Bool, true, false, arith, if◌then◌else◌, leb,
}
pub use agent_langraph.Prelude.Int.{ℤ, pos, negsuc}

abbrev pub leq : ℤ → ℤ → Bool
leq (pos a) (pos b) = leb a b
leq (pos a) (negsuc b) = false
leq (negsuc a) (pos b) = true
leq (negsuc a) (negsuc b) = leb b a

-- `a - b` of two counts.
abbrev pub difference : ℕ → ℕ → ℤ
difference a b = if leb b a then pos (a - b) else negsuc (b - suc a)

infixl 6 ◌+ℤ◌
abbrev pub ◌+ℤ◌ : ℤ → ℤ → ℤ
pos a +ℤ pos b = pos (a + b)
pos a +ℤ negsuc b = difference a (suc b)
negsuc a +ℤ pos b = difference b (suc a)
negsuc a +ℤ negsuc b = negsuc (suc (a + b))

abbrev pub min_of : ℤ → ℤ → ℤ
min_of a b = if leq b a then b else a

pub leq_refl : (a : ℤ) → leq a a ≡ true
leq_refl (pos a) = ground arith
leq_refl (negsuc a) = ground arith

pub leq_total : (a b : ℤ) → leq a b ≡ false → leq b a ≡ true
leq_total (pos a) (pos b) h = ground arith
leq_total (pos a) (negsuc b) h = refl
leq_total (negsuc a) (pos b) h = cc h
leq_total (negsuc a) (negsuc b) h = ground arith

pub leq_trans : (a b c : ℤ) → leq a b ≡ true → leq b c ≡ true → leq a c ≡ true
leq_trans (pos a) (pos b) (pos c) h k = ground arith
leq_trans (pos a) (pos b) (negsuc c) h k = cc k
leq_trans (pos a) (negsuc b) c h k = cc h
leq_trans (negsuc a) b (pos c) h k = refl
leq_trans (negsuc a) (pos b) (negsuc c) h k = cc k
leq_trans (negsuc a) (negsuc b) (negsuc c) h k = ground arith
