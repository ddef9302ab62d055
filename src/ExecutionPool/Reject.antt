-- ===== src/ExecutionPool/Reject.antt =====
-- Whom the pool turns away.
use agent_langraph.Prelude.{
  ℕ, suc, ◌-◌, ◌≤◌, ◌<◌, ◌≡◌, refl, true, false, Option, none, leb, ltb, by_if, leb→gt, leb→le,
  ltb→lt, ltb→ge,
}
use agent_langraph.ExecutionPool.{
  Pool, Thread, asking, blocked, Outcome, entered, waits, rejected, has_passed, try_enter, wake_up,
}

-- Why a thread enters, waits or is turned away.
abbrev pub Explained : ℕ → Option ℕ → Pool → Pool × Outcome → Type 0
Explained now deadline p (q, entered) =
    (p.active < p.max_concurrent)
    × (q.active ≡ suc p.active)
    × (q.rejected_total ≡ p.rejected_total)
Explained now deadline p (q, waits d) =
    (p.max_concurrent ≤ p.active)
    × ((has_passed now deadline ≡ false) × (d ≡ deadline))
    × ((q.active ≡ p.active) × (q.rejected_total ≡ p.rejected_total))
Explained now deadline p (q, rejected) =
    (p.max_concurrent ≤ p.active)
    × (has_passed now deadline ≡ true)
    × ((q.active ≡ p.active) × (q.rejected_total ≡ suc p.rejected_total))

-- A thread that asks for a slot gets one at once if one is free; else it waits, if its deadline has
-- not passed, and is turned away and counted if it has.
pub try_enter-Explained :
    (now : ℕ) (deadline : Option ℕ) (p : Pool) → Explained now deadline p (try_enter now deadline p)
unfolding try_enter
try_enter-Explained now deadline p =
    by_if (Explained now deadline p) (leb p.max_concurrent p.active)
      (λ full.
        by_if (Explained now deadline p) (has_passed now deadline)
          (λ late. (leb→le p.max_concurrent p.active full, late, (refl, refl)))
          (λ early. (leb→le p.max_concurrent p.active full, (early, refl), (refl, refl))))
      (λ free. (leb→gt p.max_concurrent p.active free, refl, refl))

-- A thread that wakes up from its wait gets a slot if one is free; else it goes on waiting, if its
-- deadline has not passed, and is turned away and counted if it has.
pub wake_up-Explained :
    (now : ℕ) (deadline : Option ℕ) (p : Pool) → Explained now deadline p (wake_up now deadline p)
unfolding wake_up
wake_up-Explained now deadline p =
    by_if (Explained now deadline p) (ltb p.active p.max_concurrent)
      (λ free. (ltb→lt p.active p.max_concurrent free, refl, refl))
      (λ full.
        by_if (Explained now deadline p) (has_passed now deadline)
          (λ late. (ltb→ge p.active p.max_concurrent full, late, (refl, refl)))
          (λ early. try_enter-Explained now deadline (record p { waiting = p.waiting - 1 })))

-- No deadline.
abbrev pub IsPatient : Thread → Type 0
IsPatient (asking deadline) = deadline ≡ none
IsPatient (blocked deadline) = deadline ≡ none
IsPatient _ = Unit

-- What a step leaves of a pool without a timeout.
abbrev Patient : ℕ → Pool × Thread → Type 0
Patient total (q, t) = (q.timeout ≡ 0) × (q.rejected_total ≡ total) × IsPatient t
