-- ===== src/TenantQuota/Together.antt =====
-- Tasks of one tenant that begin together.
use agent_langraph.Prelude.{
  ℕ, zero, suc, ◌+◌, ◌≤◌, String, ◌≡◌, refl, ap, subst, ◌∙◌, true, false, Option, none, some,
  eq_refl, List, [], ◌∷◌, arith, if◌then◌else◌, leb, by_if,
}
use agent_langraph.TenantQuota.{
  Usages, tasks, tenant_key, has_quota, change_usage, task_started, require_quota, Settings,
  QuotaExceeded,
}
use agent_langraph.TenantQuota.Counters.{usage_of}
use agent_langraph.TenantQuota.Day.{
  tenant_key-tenant_key, Decided, require_quota-Decided, start_usage, changed,
}
use agent_langraph.TenantQuota.Steps.{
  World, Event, asks, starts, happen, happen_all, count_of, take_off, after_check, take_off-suc,
}

-- As many tasks of one tenant ask, or are counted.
unfoldable pub all_ask : ℕ → String → List Event
all_ask zero t = []
all_ask (suc n) t = asks t ∷ all_ask n t

unfoldable pub all_start : ℕ → String → List Event
all_start zero t = []
all_start (suc n) t = starts t ∷ all_start n t

module _ (s : Settings) (day t : String) where
  -- From one world to one in which more tasks of the tenant are let in.
  record LetIn (n : ℕ) (w v : World) : Type 0 where
    same : usage_of day (tenant_key t) v.usages ≡ usage_of day (tenant_key t) w.usages
    more : count_of (tenant_key t) v.let_in ≡ count_of (tenant_key t) w.let_in + n

  ask_once :
      (w : World)
      → s.multi_tenant ≡ true
      → has_quota tasks 1 s.limits (usage_of day (tenant_key t) w.usages) ≡ true
      → LetIn 1 w (happen s day (asks t) w)
  unfolding happen
  ask_once w multi free = decided (require_quota s day (tenant_key t) tasks 1 w.usages) (
      subst (λ j. Decided s day j w.usages (require_quota s day (tenant_key t) tasks 1 w.usages))
        (tenant_key-tenant_key t) (require_quota-Decided s day (tenant_key t) w.usages multi))
    where
      decided :
          (r : Option QuotaExceeded × Usages)
          → Decided s day (tenant_key t) w.usages r
          → LetIn 1 w (after_check (tenant_key t) r w)
      decided (some x, us') d = cc (d.lets_in free)
      decided (none, us') d = record {
        same = d.same (tenant_key t);
        more = rw (eq_refl (tenant_key t)) (omega arith);
      }

  ask_all :
      (n : ℕ) (w : World)
      → s.multi_tenant ≡ true
      → has_quota tasks 1 s.limits (usage_of day (tenant_key t) w.usages) ≡ true
      → LetIn n w (happen_all s day (all_ask n t) w)
  unfolding happen_all all_ask
  ask_all zero w multi free = record { same = refl; more = omega arith }
  ask_all (suc n) w multi free =
      let first = ask_once w multi free in
      let rest =
        ask_all n (happen s day (asks t) w) multi
          (ap (has_quota tasks 1 s.limits) first.same ∙ free) in
      record { same = rest.same ∙ first.same; more = omega (arith, rest.more, first.more) }

  -- From one world to one in which more tasks of the tenant are counted.
  record Counted (n : ℕ) (w v : World) : Type 0 where
    active :
        (usage_of day (tenant_key t) v.usages).active_tasks
        ≡ (usage_of day (tenant_key t) w.usages).active_tasks + n
    left : count_of (tenant_key t) v.let_in + n ≡ count_of (tenant_key t) w.let_in

  start_once :
      (w : World) → 1 ≤ count_of (tenant_key t) w.let_in → Counted 1 w (happen s day (starts t) w)
  unfolding happen task_started
  start_once w some_in =
      by_if (Counted 1 w) (leb 1 (count_of (tenant_key t) w.let_in))
        (λ e. record { active = one_more; left = omega (arith, fewer) }) (λ e. absurd (never e))
    where
      never : leb 1 (count_of (tenant_key t) w.let_in) ≡ false → ⊥
      never e = ground (arith, some_in)

      fewer :
          suc (count_of (tenant_key t) (take_off (tenant_key t) w.let_in))
          ≡ count_of (tenant_key t) w.let_in
      fewer = take_off-suc (tenant_key t) w.let_in some_in

      one_more :
          (usage_of day
            (tenant_key t)
            (change_usage start_usage day (tenant_key t) w.usages)).active_tasks
          ≡ (usage_of day (tenant_key t) w.usages).active_tasks + 1
      one_more =
          ap (λ u. u.active_tasks) (changed start_usage day t (tenant_key t) w.usages (λ u. refl))
          ∙ ap
              (λ b.
                (if b
                  then start_usage (usage_of day (tenant_key t) w.usages)
                  else usage_of day (tenant_key t) w.usages).active_tasks)
              (eq_refl (tenant_key t))
          ∙ omega arith

  start_all :
      (n : ℕ) (w : World)
      → n ≤ count_of (tenant_key t) w.let_in
      → Counted n w (happen_all s day (all_start n t) w)
  unfolding happen_all all_start
  start_all zero w enough = record { active = omega arith; left = omega arith }
  start_all (suc n) w enough =
      let first = start_once w (omega (arith, enough)) in
      let rest = start_all n (happen s day (starts t) w) (omega (arith, first.left, enough)) in
      record {
        active = omega (arith, rest.active, first.active);
        left = omega (arith, rest.left, first.left);
      }

  -- With several tenants, when the quota of a tenant has room for one task: any number of its tasks
  -- that ask before one of them is counted are all let in, and when they are counted, all of them are
  -- active beside those that were.
  pub all_start_together :
      (n : ℕ) (w : World)
      → s.multi_tenant ≡ true
      → has_quota tasks 1 s.limits (usage_of day (tenant_key t) w.usages) ≡ true
      → let asked = happen_all s day (all_ask n t) w in
        (count_of (tenant_key t) asked.let_in ≡ count_of (tenant_key t) w.let_in + n)
        × ((usage_of day
              (tenant_key t)
              (happen_all s day (all_start n t) asked).usages).active_tasks
            ≡ (usage_of day (tenant_key t) w.usages).active_tasks + n)
  all_start_together n w multi free =
      let a = ask_all n w multi free in
      let b = start_all n (happen_all s day (all_ask n t) w) (omega (arith, a.more)) in
      (a.more, b.active ∙ ap (λ u. u.active_tasks + n) a.same)
