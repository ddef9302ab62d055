-- ===== src/TenantQuota/Day.antt =====
-- What the check of a tenant and a change of its counters come to, on one day.
use agent_langraph.Prelude.{
  suc, ◌-◌, String, ◌≡◌, refl, ap, sym, ◌∙◌, Bool, true, not, Option, none, ◌==◌, eq_iff,
  if◌then◌else◌, by_if, truthy,
}
use agent_langraph.TenantQuota.{
  TenantUsage, Usages, tasks, tenant_key, get_usage, has_quota, change_usage, check_backend,
  snapshot, require_quota, check_quota, Settings, QuotaExceeded,
}
use agent_langraph.TenantQuota.Counters.{usage_of, usage_of-get_usage, change_usage_lem}

pub tenant_key-tenant_key : (t : String) → tenant_key (tenant_key t) ≡ tenant_key t
tenant_key-tenant_key t = by_if (λ s. tenant_key s ≡ s) (truthy t) (λ e. rw e refl) (λ e. refl)

-- A decision to let a task in or not, with the usages after it.
pub record Decided (s : Settings) (day k : String) (us : Usages) (r : Option QuotaExceeded × Usages)
    : Type 0 where
  pub same : (b : String) → usage_of day b r.1 ≡ usage_of day b us
  pub free : r.0 ≡ none → has_quota tasks 1 s.limits (usage_of day k us) ≡ true
  pub lets_in : has_quota tasks 1 s.limits (usage_of day k us) ≡ true → r.0 ≡ none

module _ (s : Settings) (day t : String) (us : Usages) (multi : s.multi_tenant ≡ true) where
  pub checked : check_quota s day t tasks 1 us ≡ (
    has_quota tasks 1 s.limits (usage_of day (tenant_key t) us),
    (get_usage day (tenant_key t) us).1,
  )
  unfolding check_quota check_backend usage_of get_usage
  checked =
      ap
        (λ (b : Bool).
          if not b then (true, us) else check_backend day (tenant_key t) tasks 1 s.limits us)
        multi
      ∙ ap (λ k. (has_quota tasks 1 s.limits (usage_of day k us), (get_usage day k us).1))
          (tenant_key-tenant_key t)

  pub same-check :
      (b : String) → usage_of day b (check_quota s day t tasks 1 us).1 ≡ usage_of day b us
  same-check b = ap (λ r. usage_of day b r.1) checked ∙ usage_of-get_usage day (tenant_key t) b us

  pub require_quota-Decided : Decided s day (tenant_key t) us (require_quota s day t tasks 1 us)
  unfolding require_quota snapshot
  require_quota-Decided =
      by_if (Decided s day (tenant_key t) us) (check_quota s day t tasks 1 us).0
        (λ ok. record {
          same = same-check;
          free = λ e. sym (ap (λ r. r.0) checked) ∙ ok;
          lets_in = λ e. refl;
        })
        (λ refused. record {
          same = λ b.
              usage_of-get_usage day (tenant_key (tenant_key t)) b
                (check_quota s day t tasks 1 us).1
              ∙ same-check b;
          free = λ e. cc e;
          lets_in = λ e. cc (e, refused, ap (λ r. r.0) checked);
        })

abbrev pub start_usage : TenantUsage → TenantUsage
start_usage u = record u { active_tasks = suc u.active_tasks; tasks_today = suc u.tasks_today }

abbrev pub finish_usage : TenantUsage → TenantUsage
finish_usage u = record u { active_tasks = u.active_tasks - 1 }

-- A change of the counters of the tenant of `t`, seen from the tenant with the key `k`.
pub changed :
    (f : TenantUsage → TenantUsage) (day t k : String) (us : Usages)
    → ((u : TenantUsage) → (f u).day_key ≡ u.day_key)
    → usage_of day k (change_usage f day (tenant_key t) us)
      ≡ (if tenant_key t == k then f (usage_of day k us) else usage_of day k us)
changed f day t k us keeps =
    change_usage_lem f day (tenant_key t) k us keeps
    ∙ ap (λ j. if j == k then f (usage_of day j us) else usage_of day k us)
        (tenant_key-tenant_key t)
    ∙ by_if
        (λ u.
          (if tenant_key t == k then f (usage_of day (tenant_key t) us) else usage_of day k us) ≡ u)
        (tenant_key t == k)
        (λ e. rw e (ap (λ j. f (usage_of day j us)) ((eq_iff (tenant_key t) k).0 e)))
        (λ e. rw e refl)
