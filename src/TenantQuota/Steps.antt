-- ===== src/TenantQuota/Steps.antt =====
-- The two steps in which `start_task` of app/services/graph_runner.py begins a task, each under the
-- lock of the counters, so that other tasks come between; and the other steps of a day.
use agent_langraph.Prelude.{
  ℕ, suc, ◌+◌, ◌-◌, ◌≤◌, ◌<◌, String, ◌≡◌, refl, true, false, Option, none, some, ◌==◌, eq_iff,
  List, [], ◌∷◌, arith, if◌then◌else◌, leb,
}
use agent_langraph.TenantQuota.{
  TenantUsage, Usages, tasks, tokens, TenantQuotaLimits, tenant_key, record_usage, task_started,
  end_task, require_quota, Settings, QuotaExceeded,
}
use agent_langraph.TenantQuota.Counters.{usage_of}

-- How many of these keys are the tenant's.
abbrev pub count_of : String → List String → ℕ
count_of k [] = 0
count_of k (j ∷ js) = let n = count_of k js in if j == k then suc n else n

-- One task of this tenant fewer.
abbrev pub take_off : String → List String → List String
take_off k [] = []
take_off k (j ∷ js) = if j == k then js else j ∷ take_off k js

-- The counters, the tenants of the tasks that the quota let in and that are still to be counted, and
-- those of the tasks that run.
pub record World : Type 0 where
  pub usages : Usages
  pub let_in : List String
  pub running : List String

-- What happens to tenants in a day: a task asks for the quota, a task that was let in is counted, a
-- task that runs ends, tokens are charged.
pub data Event : Type 0 where
  asks : String → Event
  starts : String → Event
  ends : String → Event
  spends : String → ℕ → Event

abbrev pub after_check : String → Option QuotaExceeded × Usages → World → World
after_check k (none, us) w = record w { usages = us; let_in = k ∷ w.let_in }
after_check k (some x, us) w = record w { usages = us }

-- The steps are those of `start_task` where there are several tenants.
unfoldable pub happen : Settings → String → Event → World → World
happen s day (asks t) w =
    after_check (tenant_key t) (require_quota s day (tenant_key t) tasks 1 w.usages) w
happen s day (starts t) w =
    if leb 1 (count_of (tenant_key t) w.let_in)
    then record w {
      usages = task_started day (tenant_key t) w.usages;
      let_in = take_off (tenant_key t) w.let_in;
      running = tenant_key t ∷ w.running;
    }
    else w
happen s day (ends t) w =
    if leb 1 (count_of (tenant_key t) w.running)
    then record w {
      usages = end_task true day t w.usages;
      running = take_off (tenant_key t) w.running;
    }
    else w
happen s day (spends t n) w = record w {
  usages = record_usage day (tenant_key t) tokens n w.usages;
}

unfoldable pub happen_all : Settings → String → List Event → World → World
unfolding happen
happen_all s day [] w = w
happen_all s day (e ∷ es) w = happen_all s day es (happen s day e w)

-- What holds of counters that stand for `n` tasks that run, when `p` more were let in and the tasks
-- that may stand between the check and the count beside another are `others`.
pub record Fits (limits : TenantQuotaLimits) (others n p : ℕ) (u : TenantUsage) : Type 0 where
  pub counted : u.active_tasks ≡ n
  pub concurrent :
      0 < limits.max_concurrent_tasks → u.active_tasks + p ≤ limits.max_concurrent_tasks + others
  pub daily : 0 < limits.max_tasks_per_day → u.tasks_today + p ≤ limits.max_tasks_per_day + others

-- What holds of the tenant with this key on this day.
abbrev pub IsWithin : Settings → String → String → ℕ → World → Type 0
IsWithin s day k others w =
    Fits s.limits others (count_of k w.running) (count_of k w.let_in) (usage_of day k w.usages)

-- At no time of a run do more than this many tasks of the tenant stand between check and count.
abbrev pub AtMost : Settings → String → String → ℕ → List Event → World → Type 0
AtMost s day k most [] w = count_of k w.let_in ≤ most
AtMost s day k most (e ∷ es) w =
    (count_of k w.let_in ≤ most) × AtMost s day k most es (happen s day e w)

pub take_off-other :
    (j k : String) (running : List String)
    → (j == k) ≡ false
    → count_of k (take_off j running) ≡ count_of k running
take_off-other j k [] h = refl
take_off-other j k (i ∷ running) h =
    ground (arith, take_off-other j k running h, eq_iff i j, eq_iff i k, eq_iff j k)

pub take_off-same :
    (k : String) (running : List String)
    → 1 ≤ count_of k running
    → count_of k (take_off k running) ≡ count_of k running - 1
take_off-same k [] h = refl
take_off-same k (i ∷ running) h = ground (arith, take_off-same k running)

pub take_off-suc :
    (k : String) (js : List String)
    → 1 ≤ count_of k js
    → suc (count_of k (take_off k js)) ≡ count_of k js
take_off-suc k js h = omega (arith, take_off-same k js h)
