-- ===== src/TenantQuota.antt =====
-- app/services/tenant_quota.py: what a tenant may use in a day, with the counters in memory, and the
-- part of `start_task` of app/services/graph_runner.py that asks for them.
pub mod Counters
pub mod Day
pub mod Steps
pub mod Concurrent
pub mod Together
pub mod Report
mod Examples
use agent_langraph.Prelude.{
  ℕ, zero, suc, ◌+◌, ◌-◌, String, Bool, true, false, not, ◌&&◌, Option, none, some, ◌==◌,
  if◌then◌else◌, ltb, leb, eqb, truthy,
}
use agent_langraph.Prelude.Dict
use agent_langraph.Prelude.Dict.{Dict}

-- The limits, which the settings give; 0 is no limit.
pub record TenantQuotaLimits : Type 0 where
  pub max_tasks_per_day : ℕ
  pub max_tokens_per_day : ℕ
  pub max_concurrent_tasks : ℕ

pub record TenantUsage : Type 0 where
  pub tasks_today : ℕ
  pub tokens_today : ℕ
  pub active_tasks : ℕ
  pub day_key : String

abbrev pub Usages : Type 0
Usages = Dict TenantUsage

-- The values of `resource`; `other` is any other text.
pub data Resource : Type 0 where
  tasks : Resource
  tokens : Resource
  other : Resource

-- `tenant_id or "default"`
abbrev pub tenant_key : String → String
tenant_key tenant_id = if truthy tenant_id then tenant_id else "default"

abbrev pub new_usage : String → TenantUsage
new_usage day = record { tasks_today = 0; tokens_today = 0; active_tasks = 0; day_key = day }

-- Whether the counters are there, and of this day.
abbrev pub is_current : String → Option TenantUsage → Bool
is_current day none = false
is_current day (some u) = u.day_key == day

abbrev pub usage_or_new : String → Option TenantUsage → TenantUsage
usage_or_new day none = new_usage day
usage_or_new day (some u) = if u.day_key == day then u else new_usage day

-- `_get`, which stores new counters where there are none of this day.
unfoldable pub get_usage : String → String → Usages → TenantUsage × Usages
get_usage day tid us =
    let found = Dict.get tid us in
    (usage_or_new day found, if is_current day found then us else Dict.put tid (new_usage day) us)

unfoldable pub snapshot : String → String → Usages → TenantUsage × Usages
unfolding get_usage
snapshot day tenant_id us = get_usage day (tenant_key tenant_id) us

-- Whether a limit leaves no room for the amount.
abbrev pub is_over : ℕ → ℕ → ℕ → Bool
is_over limit used amount = ltb 0 limit && ltb limit (used + amount)

unfoldable pub has_quota : Resource → ℕ → TenantQuotaLimits → TenantUsage → Bool
has_quota tasks amount limits u =
    if is_over limits.max_tasks_per_day u.tasks_today amount
    then false
    else if is_over limits.max_concurrent_tasks u.active_tasks amount
    then false
    else true
has_quota tokens amount limits u =
    if is_over limits.max_tokens_per_day u.tokens_today amount then false else true
has_quota other amount limits u = true

-- `check_quota` of the backend.
unfoldable pub check_backend :
    String → String → Resource → ℕ → TenantQuotaLimits → Usages → Bool × Usages
unfolding get_usage has_quota
check_backend day tenant_id resource amount limits us =
    let (u, us') = get_usage day (tenant_key tenant_id) us in
    (has_quota resource amount limits u, us')

-- What `record_usage` adds to the counters.
abbrev pub add_usage : Resource → ℕ → TenantUsage → TenantUsage
add_usage tasks amount u = record u { tasks_today = u.tasks_today + amount }
add_usage tokens amount u = record u { tokens_today = u.tokens_today + amount }
add_usage other amount u = u

-- The counters of a tenant, changed in place.
abbrev pub change_usage : (TenantUsage → TenantUsage) → String → String → Usages → Usages
change_usage f day tenant_id us =
    let (u, us') = get_usage day (tenant_key tenant_id) us in
    Dict.put (tenant_key tenant_id) (f u) us'

unfoldable pub record_usage : String → String → Resource → ℕ → Usages → Usages
unfolding get_usage
record_usage day tenant_id resource amount us =
    if leb amount 0 then us else change_usage (add_usage resource amount) day tenant_id us

unfoldable pub task_started : String → String → Usages → Usages
unfolding get_usage
task_started day tenant_id us =
    change_usage
      (λ u. record u { active_tasks = suc u.active_tasks; tasks_today = suc u.tasks_today }) day
      tenant_id us

unfoldable pub task_finished : String → String → Usages → Usages
unfolding get_usage
task_finished day tenant_id us =
    change_usage (λ u. record u { active_tasks = u.active_tasks - 1 }) day tenant_id us

-- The settings: MULTI_TENANT_ENABLED, and the limits.
pub record Settings : Type 0 where
  pub multi_tenant : Bool
  pub limits : TenantQuotaLimits

-- `check_quota` of the store.
unfoldable pub check_quota : Settings → String → String → Resource → ℕ → Usages → Bool × Usages
unfolding check_backend
check_quota s day tenant_id resource amount us =
    if not s.multi_tenant
    then (true, us)
    else check_backend day (tenant_key tenant_id) resource amount s.limits us

-- What `_remaining` says: `none` is None, no limit.
abbrev pub remaining : ℕ → ℕ → Option ℕ
remaining limit used = if leb limit 0 then none else some (limit - used)

pub record QuotaReport : Type 0 where
  pub tenant_id : String
  pub multi_tenant_enabled : Bool
  pub limits : TenantQuotaLimits
  pub usage : TenantUsage
  pub tasks_per_day : Option ℕ
  pub tokens_per_day : Option ℕ
  pub concurrent_tasks : Option ℕ
  pub tasks_within : Bool
  pub tokens_within : Bool

unfoldable pub quota_report : Settings → String → String → Usages → QuotaReport × Usages
unfolding snapshot check_quota
quota_report s day tenant_id us =
    let tid = tenant_key tenant_id in
    let (u, us1) = snapshot day tid us in
    let (tasks_ok, us2) = check_quota s day tid tasks 1 us1 in
    let (tokens_ok, us3) = check_quota s day tid tokens 1 us2 in
    (
      record {
        tenant_id = tid;
        multi_tenant_enabled = s.multi_tenant;
        limits = s.limits;
        usage = u;
        tasks_per_day = remaining s.limits.max_tasks_per_day u.tasks_today;
        tokens_per_day = remaining s.limits.max_tokens_per_day u.tokens_today;
        concurrent_tasks = remaining s.limits.max_concurrent_tasks u.active_tasks;
        tasks_within = tasks_ok;
        tokens_within = tokens_ok;
      },
      us3,
    )

-- TenantQuotaExceeded
pub record QuotaExceeded : Type 0 where
  pub tenant : String
  pub resource : Resource
  pub limit : ℕ
  pub used : ℕ

-- The limit that the error names, and the use of it.
unfoldable pub exceeded : String → Resource → TenantQuotaLimits → TenantUsage → QuotaExceeded
exceeded tid tasks limits u = record {
  tenant = tid;
  resource = tasks;
  limit =
      if eqb limits.max_concurrent_tasks 0
      then limits.max_tasks_per_day
      else limits.max_concurrent_tasks;
  used = if eqb limits.max_concurrent_tasks 0 then u.tasks_today else u.active_tasks;
}
exceeded tid resource limits u = record {
  tenant = tid;
  resource = resource;
  limit = limits.max_tokens_per_day;
  used = u.tokens_today;
}

-- `require_quota`: `none` is a return, an error is raised.
unfoldable pub require_quota :
    Settings → String → String → Resource → ℕ → Usages → Option QuotaExceeded × Usages
unfolding check_quota snapshot exceeded
require_quota s day tenant_id resource amount us =
    let (ok, us1) = check_quota s day tenant_id resource amount us in
    let (u, us2) = snapshot day (tenant_key tenant_id) us1 in
    if ok then (none, us1) else (some (exceeded (tenant_key tenant_id) resource s.limits u), us2)

-- What follows `require_quota` in `start_task`: an error leaves, else the task is counted.
abbrev pub after_quota :
    String → String → Option QuotaExceeded × Usages → (Option QuotaExceeded × Bool) × Usages
after_quota day tid (none, us) = ((none, true), task_started day tid us)
after_quota day tid (some x, us) = ((some x, false), us)

-- What `start_task` does before it runs the graph, when nothing of another task comes between its
-- two calls: whether it raises, and whether the task is to be taken off the counters when it ends.
-- Steps takes the calls as two steps.
unfoldable pub begin_task :
    Settings → String → String → Usages → (Option QuotaExceeded × Bool) × Usages
unfolding require_quota
begin_task s day tenant_id us =
    if s.multi_tenant
    then after_quota day (tenant_key tenant_id)
        (require_quota s day (tenant_key tenant_id) tasks 1 us)
    else ((none, false), us)

-- What it does when the run ends.
unfoldable pub end_task : Bool → String → String → Usages → Usages
unfolding task_finished
end_task quota_started day tenant_id us =
    if quota_started then task_finished day (tenant_key tenant_id) us else us
