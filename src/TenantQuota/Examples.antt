-- ===== src/TenantQuota/Examples.antt =====
-- A tenant with two tasks at a time and three a day.
use agent_langraph.Prelude.{arith, ◌≡◌, ◌≢◌, refl, true, none, List, [], ◌∷◌, eq_iff}
use agent_langraph.Prelude.Dict
use agent_langraph.TenantQuota.{
  TenantUsage, Usages, Settings, get_usage, snapshot, has_quota, check_backend, check_quota,
  exceeded, record_usage, task_started, task_finished, require_quota, begin_task, end_task,
}
use agent_langraph.TenantQuota.Counters.{usage_of}
use agent_langraph.TenantQuota.Steps.{
  World, Event, asks, starts, ends, spends, happen, happen_all, AtMost, IsWithin,
}
use agent_langraph.TenantQuota.Concurrent.{happen_all-IsWithin}
use agent_langraph.TenantQuota.Steps.{count_of}
use agent_langraph.TenantQuota.Together.{all_ask, all_start, all_start_together}
use agent_langraph.TenantQuota.Report.{begin_task_forgets}

abbrev settings : Settings
settings = record {
  multi_tenant = true;
  limits = record { max_tasks_per_day = 3; max_tokens_per_day = 0; max_concurrent_tasks = 2 };
}

abbrev idle : World
idle = record { usages = []; let_in = []; running = [] }

abbrev events : List Event
events =
    asks "a"
    ∷ starts "a"
    ∷ asks "a"
    ∷ asks ""
    ∷ starts "a"
    ∷ asks "a"
    ∷ starts ""
    ∷ ends "a"
    ∷ spends "a" 70
    ∷ asks "a"
    ∷ starts "a"
    ∷ []

-- The third task is refused, one is another tenant's, and one ends before the last begins.
counts :
    ((usage_of "d1" "a" (happen_all settings "d1" events idle).usages).active_tasks ≡ 2)
    × ((usage_of "d1" "default" (happen_all settings "d1" events idle).usages).tasks_today ≡ 1)
unfolding happen_all happen usage_of require_quota check_quota check_backend get_usage has_quota
    snapshot exceeded task_started end_task task_finished record_usage Dict.get Dict.put
counts = (refl, refl)

idle-IsWithin : IsWithin settings "d1" "a" 0 idle
unfolding usage_of Dict.get
idle-IsWithin = record { counted = refl; concurrent = λ e. omega arith; daily = λ e. omega arith }

one_at_a_time : AtMost settings "d1" "a" 1 events idle
unfolding happen usage_of require_quota check_quota check_backend get_usage has_quota snapshot
    exceeded task_started end_task task_finished record_usage Dict.get Dict.put
one_at_a_time = ground arith

happen_all-IsWithin_example : IsWithin settings "d1" "a" 0 (happen_all settings "d1" events idle)
happen_all-IsWithin_example =
    happen_all-IsWithin settings "d1" "a" 0 events idle refl one_at_a_time idle-IsWithin

-- Three tasks ask before one is counted: all are let in, and three run where two may.
all_start_together_example :
    let asked = happen_all settings "d1" (all_ask 3 "a") idle in
    (count_of "a" asked.let_in ≡ 3)
    × ((usage_of "d1" "a" (happen_all settings "d1" (all_start 3 "a") asked).usages).active_tasks
        ≡ 3)
unfolding usage_of has_quota Dict.get
all_start_together_example = all_start_together settings "d1" "a" 3 idle refl refl

-- Two tasks of the day before still run.
abbrev yesterday : TenantUsage
yesterday = record { tasks_today = 2; tokens_today = 70; active_tasks = 2; day_key = "d1" }

abbrev usages : Usages
usages = ("a", yesterday) ∷ []

is_other : yesterday.day_key ≢ "d2"
is_other e = cc ((eq_iff "d1" "d2").1 e)

begin_task_forgets_example :
    ((begin_task settings "d2" "a" usages).0 ≡ (none, true))
    × ((usage_of "d2" "a" (begin_task settings "d2" "a" usages).1).active_tasks ≡ 1)
unfolding Dict.get
begin_task_forgets_example =
    begin_task_forgets settings "d2" "a" usages yesterday refl refl is_other

abbrev busy : Usages
busy = ("a", record { tasks_today = 3; tokens_today = 0; active_tasks = 1; day_key = "d1" }) ∷ []
