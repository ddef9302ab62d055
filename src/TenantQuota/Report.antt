-- ===== src/TenantQuota/Report.antt =====
-- What the report and the error say, and what midnight does.
use agent_langraph.Prelude.{
  ℕ, suc, ◌≤◌, ◌<◌, String, ◌≡◌, ◌≢◌, refl, ap, sym, ◌∙◌, Bool, true, false, not, ◌&&◌, Option,
  none, some, ◌==◌, eq_iff, eq_refl, arith, if◌then◌else◌, eqb, by_if,
}
use agent_langraph.Prelude.Dict
use agent_langraph.TenantQuota.{
  TenantUsage, Usages, Resource, tasks, tokens, TenantQuotaLimits, tenant_key, new_usage,
  usage_or_new, get_usage, has_quota, check_backend, task_started, snapshot, after_quota,
  begin_task, require_quota, check_quota, Settings, QuotaExceeded, exceeded, remaining,
  quota_report,
}
use agent_langraph.TenantQuota.Counters.{usage_of, usage_of-get_usage, found-get_usage}
use agent_langraph.TenantQuota.Day.{
  tenant_key-tenant_key, start_usage, changed, checked, same-check,
}

-- Whether something remains of what a limit allows.
abbrev pub is_left : Option ℕ → Bool
is_left none = true
is_left (some n) = not (eqb n 0)

left_is_quota :
    (limits : TenantQuotaLimits) (u : TenantUsage)
    → (has_quota tasks 1 limits u ≡ (
        is_left (remaining limits.max_tasks_per_day u.tasks_today)
        && is_left (remaining limits.max_concurrent_tasks u.active_tasks)))
      × (has_quota tokens 1 limits u ≡ is_left (remaining limits.max_tokens_per_day u.tokens_today))
unfolding has_quota
left_is_quota limits u = ground arith

check_quota-multi :
    (s : Settings) (day t : String) (r : Resource) (us : Usages)
    → s.multi_tenant ≡ true
    → (check_quota s day t r 1 us).0 ≡ has_quota r 1 s.limits (usage_of day (tenant_key t) us)
unfolding check_quota check_backend usage_of get_usage
check_quota-multi s day t r us multi =
    ap
      (λ (b : Bool).
        (if not b then (true, us) else check_backend day (tenant_key t) r 1 s.limits us).0)
      multi
    ∙ ap (λ k. has_quota r 1 s.limits (usage_of day k us)) (tenant_key-tenant_key t)

-- With several tenants, the report says that a tenant is within its quota exactly if something
-- remains of each limit, as the same report counts it.
pub quota_report_lem :
    (s : Settings) (day t : String) (us : Usages)
    → s.multi_tenant ≡ true
    → let r = (quota_report s day t us).0 in
      (r.tasks_within ≡ (is_left r.tasks_per_day && is_left r.concurrent_tasks))
      × (r.tokens_within ≡ is_left r.tokens_per_day)
unfolding quota_report snapshot
quota_report_lem s day t us multi =
    let k = tenant_key (tenant_key t) in
    let us1 = (get_usage day k us).1 in
    let us2 = (check_quota s day (tenant_key t) tasks 1 us1).1 in
    let after_snapshot = usage_of-get_usage day k k us in
    let after_check = same-check s day (tenant_key t) us1 multi k ∙ after_snapshot in
    (
      check_quota-multi s day (tenant_key t) tasks us1 multi
          ∙ ap (has_quota tasks 1 s.limits) after_snapshot
          ∙ (left_is_quota s.limits (usage_of day k us)).0
          ∙ ap
              (λ u.
                is_left (remaining s.limits.max_tasks_per_day u.tasks_today)
                && is_left (remaining s.limits.max_concurrent_tasks u.active_tasks))
              (sym (found-get_usage day k us)),
      check_quota-multi s day (tenant_key t) tokens us2 multi
          ∙ ap (has_quota tokens 1 s.limits) after_check
          ∙ (left_is_quota s.limits (usage_of day k us)).1
          ∙ ap (λ u. is_left (remaining s.limits.max_tokens_per_day u.tokens_today))
              (sym (found-get_usage day k us)),
    )

stale-usage_of :
    (day k : String) (us : Usages) (u : TenantUsage)
    → Dict.get k us ≡ some u
    → u.day_key ≢ day
    → usage_of day k us ≡ new_usage day
unfolding usage_of
stale-usage_of day k us u found other =
    ap (usage_or_new day) found
    ∙ by_if (λ v. v ≡ new_usage day) (u.day_key == day)
        (λ e. absurd (other ((eq_iff u.day_key day).0 e))) (λ e. refl)

one_task :
    (limits : TenantQuotaLimits) (day : String) → has_quota tasks 1 limits (new_usage day) ≡ true
unfolding has_quota
one_task limits day = ground arith

-- `require_quota`, from what the check says.
abbrev settle : Settings → String → String → Bool × Usages → Option QuotaExceeded × Usages
settle s day t (ok, us) =
    let (u, us') = snapshot day (tenant_key t) us in
    if ok then (none, us) else (some (exceeded (tenant_key t) tasks s.limits u), us')

required :
    (s : Settings) (day t : String) (us : Usages) (b : Bool)
    → s.multi_tenant ≡ true
    → has_quota tasks 1 s.limits (usage_of day (tenant_key t) us) ≡ b
    → require_quota s day t tasks 1 us ≡ settle s day t (b, (get_usage day (tenant_key t) us).1)
unfolding require_quota
required s day t us b multi h =
    ap (settle s day t)
      (checked s day t us multi ∙ ap (λ b. (b, (get_usage day (tenant_key t) us).1)) h)

-- With several tenants, a tenant whose counters are of another day begins a task, and the counter
-- of the tasks that run is then 1, however many of its tasks ran on that day and still do.
pub begin_task_forgets :
    (s : Settings) (day t : String) (us : Usages) (u : TenantUsage)
    → s.multi_tenant ≡ true
    → Dict.get (tenant_key t) us ≡ some u
    → u.day_key ≢ day
    → ((begin_task s day t us).0 ≡ (none, true))
      × ((usage_of day (tenant_key t) (begin_task s day t us).1).active_tasks ≡ 1)
unfolding begin_task task_started
begin_task_forgets s day t us u multi found other =
    (ap (λ r. r.0) begun, ap (λ r. (usage_of day (tenant_key t) r.1).active_tasks) begun ∙ started)
  where
    k : String
    k = tenant_key t

    us1 : Usages
    us1 = (get_usage day (tenant_key k) us).1

    stale : usage_of day k us ≡ new_usage day
    stale = stale-usage_of day k us u found other

    free : has_quota tasks 1 s.limits (usage_of day (tenant_key k) us) ≡ true
    free =
        ap (λ j. has_quota tasks 1 s.limits (usage_of day j us)) (tenant_key-tenant_key t)
        ∙ ap (has_quota tasks 1 s.limits) stale
        ∙ one_task s.limits day

    begun : begin_task s day t us ≡ ((none, true), task_started day k us1)
    begun =
        ap
          (λ (b : Bool).
            if b then after_quota day k (require_quota s day k tasks 1 us) else ((none, false), us))
          multi
        ∙ ap (after_quota day k) (required s day k us true multi free)

    started : (usage_of day k (task_started day k us1)).active_tasks ≡ 1
    started =
        ap (λ u. u.active_tasks) (changed start_usage day t k us1 (λ u. refl))
        ∙ ap
            (λ b. (if b then start_usage (usage_of day k us1) else usage_of day k us1).active_tasks)
            (eq_refl k)
        ∙ ap (λ u. suc u.active_tasks) (usage_of-get_usage day (tenant_key k) k us ∙ stale)

nonzero : (n : ℕ) → 0 < n → eqb n 0 ≡ false
nonzero n h = ground arith

no_quota :
    (limits : TenantQuotaLimits) (u : TenantUsage)
    → 0 < limits.max_tasks_per_day
    → limits.max_tasks_per_day ≤ u.tasks_today
    → has_quota tasks 1 limits u ≡ false
unfolding has_quota
no_quota limits u some_limit used_up = ground arith

-- A tenant that has used up its tasks of the day, with some to go of those that may run at a time,
-- is refused with an error that names the latter limit, of which less is used than it allows.
pub exceeded_within_limit :
    (s : Settings) (day t : String) (us : Usages)
    → s.multi_tenant ≡ true
    → 0 < s.limits.max_tasks_per_day
    → s.limits.max_tasks_per_day ≤ (usage_of day (tenant_key t) us).tasks_today
    → (usage_of day (tenant_key t) us).active_tasks < s.limits.max_concurrent_tasks
    → (require_quota s day t tasks 1 us).0
      ≡ some (record {
        tenant = tenant_key t;
        resource = tasks;
        limit = s.limits.max_concurrent_tasks;
        used = (usage_of day (tenant_key t) us).active_tasks;
      })
unfolding require_quota snapshot exceeded
exceeded_within_limit s day t us multi some_limit used_up room =
    ap (λ r. r.0) (required s day t us false multi spent)
    ∙ ap (λ u. some (exceeded (tenant_key t) tasks s.limits u)) seen
    ∙ named s.limits.max_concurrent_tasks (omega (arith, room))
  where
    spent : has_quota tasks 1 s.limits (usage_of day (tenant_key t) us) ≡ false
    spent = no_quota s.limits (usage_of day (tenant_key t) us) some_limit used_up

    seen :
        (snapshot day (tenant_key t) (get_usage day (tenant_key t) us).1).0
        ≡ usage_of day (tenant_key t) us
    seen =
        found-get_usage day (tenant_key (tenant_key t)) (get_usage day (tenant_key t) us).1
        ∙ usage_of-get_usage day (tenant_key t) (tenant_key (tenant_key t)) us
        ∙ ap (λ k. usage_of day k us) (tenant_key-tenant_key t)

    error : ℕ → ℕ → Option QuotaExceeded
    error n used = some (record { tenant = tenant_key t; resource = tasks; limit = n; used = used })

    named :
        (n : ℕ)
        → 0 < n
        → error (if eqb n 0 then s.limits.max_tasks_per_day else n) (
            if eqb n 0
            then (usage_of day (tenant_key t) us).tasks_today
            else (usage_of day (tenant_key t) us).active_tasks)
          ≡ error n (usage_of day (tenant_key t) us).active_tasks
    named n h = rw (nonzero n h) refl
