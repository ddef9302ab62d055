-- ===== src/TenantQuota/Concurrent.antt =====
-- The limits through a day, for tasks that begin at the same time.
use agent_langraph.Prelude.{
  ℕ, suc, ◌+◌, ◌-◌, ◌≤◌, ◌<◌, inl, inr, Bool-cases, String, ◌≡◌, refl, ap, sym, subst, ◌∙◌, true,
  Option, none, some, ◌==◌, eq_iff, List, [], ◌∷◌, arith, leb, leb→le, by_if,
}
use agent_langraph.TenantQuota.{
  TenantUsage, Usages, tasks, tokens, TenantQuotaLimits, tenant_key, has_quota, change_usage,
  record_usage, task_started, task_finished, end_task, require_quota, Settings, QuotaExceeded,
}
use agent_langraph.TenantQuota.Counters.{usage_of}
use agent_langraph.TenantQuota.Day.{
  tenant_key-tenant_key, Decided, require_quota-Decided, start_usage, finish_usage, changed,
}
use agent_langraph.TenantQuota.Steps.{
  count_of, take_off, World, Event, asks, starts, ends, spends, after_check, happen, happen_all,
  Fits, IsWithin, AtMost, take_off-other, take_off-same, take_off-suc,
}

has_room :
    (limits : TenantQuotaLimits) (u : TenantUsage)
    → has_quota tasks 1 limits u ≡ true
    → (0 < limits.max_concurrent_tasks → u.active_tasks + 1 ≤ limits.max_concurrent_tasks)
      × (0 < limits.max_tasks_per_day → u.tasks_today + 1 ≤ limits.max_tasks_per_day)
unfolding has_quota
has_room limits u h = ground arith

module _ (s : Settings) (day k : String) (others : ℕ) (w : World)
    (h : IsWithin s day k others w) where
  within :
      (v : World) (u : TenantUsage)
      → usage_of day k v.usages ≡ u
      → Fits s.limits others (count_of k v.running) (count_of k v.let_in) u
      → IsWithin s day k others v
  within v u e f = rw e f

  one_more :
      has_quota tasks 1 s.limits (usage_of day k w.usages) ≡ true
      → suc (count_of k w.let_in) ≤ suc others
      → Fits s.limits others
          (count_of k w.running)
          (suc (count_of k w.let_in))
          (usage_of day k w.usages)
  one_more free few =
      let (concurrent, daily) = has_room s.limits (usage_of day k w.usages) free in
      record {
        counted = h.counted;
        concurrent = λ some. omega (arith, concurrent some, few);
        daily = λ some. omega (arith, daily some, few);
      }

  ask-IsWithin :
      (t : String)
      → s.multi_tenant ≡ true
      → count_of k (happen s day (asks t) w).let_in ≤ suc others
      → IsWithin s day k others (happen s day (asks t) w)
  unfolding happen
  ask-IsWithin t multi few =
      decided (require_quota s day (tenant_key t) tasks 1 w.usages)
        (subst (λ j. Decided s day j w.usages (require_quota s day (tenant_key t) tasks 1 w.usages))
          (tenant_key-tenant_key t) (require_quota-Decided s day (tenant_key t) w.usages multi))
        few
    where
      decided :
          (r : Option QuotaExceeded × Usages)
          → Decided s day (tenant_key t) w.usages r
          → count_of k (after_check (tenant_key t) r w).let_in ≤ suc others
          → IsWithin s day k others (after_check (tenant_key t) r w)
      decided (some x, us') d few = within (record w { usages = us' }) _ (d.same k) h
      decided (none, us') d few = elim (Bool-cases (tenant_key t == k)) [
        | inl mine ↦
            let free : has_quota tasks 1 s.limits (usage_of day k w.usages) ≡ true =
              subst (λ j. has_quota tasks 1 s.limits (usage_of day j w.usages) ≡ true)
                ((eq_iff (tenant_key t) k).0 mine) (d.free refl) in
            within (record w { usages = us'; let_in = tenant_key t ∷ w.let_in }) _ (d.same k)
              (rw mine (one_more free (rw mine at few)))
        | inr other ↦
            within (record w { usages = us'; let_in = tenant_key t ∷ w.let_in }) _ (d.same k)
              (rw other h)
      ]

  start-IsWithin :
      (t : String)
      → 1 ≤ count_of (tenant_key t) w.let_in
      → IsWithin s day k others (record w {
        usages = task_started day (tenant_key t) w.usages;
        let_in = take_off (tenant_key t) w.let_in;
        running = tenant_key t ∷ w.running;
      })
  unfolding task_started
  start-IsWithin t some_in =
      within
        (record w {
          usages = change_usage start_usage day (tenant_key t) w.usages;
          let_in = take_off (tenant_key t) w.let_in;
          running = tenant_key t ∷ w.running;
        })
        _ (changed start_usage day t k w.usages (λ u. refl))
        (by_if
          (Fits s.limits others (count_of k (tenant_key t ∷ w.running))
            (count_of k (take_off (tenant_key t) w.let_in)))
          (tenant_key t == k) (λ mine. started mine (taken ((eq_iff (tenant_key t) k).0 mine)))
          (λ other. rw other (
            subst (λ n. Fits s.limits others (count_of k w.running) n (usage_of day k w.usages))
              (sym (take_off-other (tenant_key t) k w.let_in other)) h)))
    where
      taken :
          tenant_key t ≡ k
          → suc (count_of k (take_off (tenant_key t) w.let_in)) ≡ count_of k w.let_in
      taken same =
          subst (λ j. suc (count_of k (take_off j w.let_in)) ≡ count_of k w.let_in) (sym same)
            (take_off-suc k w.let_in (subst (λ j. 1 ≤ count_of j w.let_in) same some_in))

      started :
          (tenant_key t == k) ≡ true
          → suc (count_of k (take_off (tenant_key t) w.let_in)) ≡ count_of k w.let_in
          → Fits s.limits others
              (count_of k (tenant_key t ∷ w.running))
              (count_of k (take_off (tenant_key t) w.let_in))
              (start_usage (usage_of day k w.usages))
      started mine fewer = rw mine (record {
        counted = ap suc h.counted;
        concurrent = λ some. omega (arith, h.concurrent some, fewer);
        daily = λ some. omega (arith, h.daily some, fewer);
      })

  end-IsWithin :
      (t : String)
      → 1 ≤ count_of (tenant_key t) w.running
      → IsWithin s day k others (record w {
        usages = end_task true day t w.usages;
        running = take_off (tenant_key t) w.running;
      })
  unfolding end_task task_finished
  end-IsWithin t some_running =
      within
        (record w {
          usages = change_usage finish_usage day (tenant_key t) w.usages;
          running = take_off (tenant_key t) w.running;
        })
        _ (changed finish_usage day t k w.usages (λ u. refl))
        (by_if
          (Fits s.limits others (count_of k (take_off (tenant_key t) w.running))
            (count_of k w.let_in))
          (tenant_key t == k)
          (λ mine. record {
            counted = taken ((eq_iff (tenant_key t) k).0 mine);
            concurrent = λ some. omega (arith, h.concurrent some);
            daily = h.daily;
          })
          (λ other. record {
            counted = h.counted ∙ sym (take_off-other (tenant_key t) k w.running other);
            concurrent = h.concurrent;
            daily = h.daily;
          }))
    where
      taken :
          tenant_key t ≡ k
          → (usage_of day k w.usages).active_tasks - 1
            ≡ count_of k (take_off (tenant_key t) w.running)
      taken same =
          ap (λ n. n - 1) h.counted
          ∙ sym
              (take_off-same k w.running (subst (λ j. 1 ≤ count_of j w.running) same some_running))
          ∙ ap (λ j. count_of k (take_off j w.running)) (sym same)

  spend-IsWithin :
      (t : String) (n : ℕ)
      → IsWithin s day k others
          (record w { usages = record_usage day (tenant_key t) tokens n w.usages })
  unfolding record_usage
  spend-IsWithin t n =
      by_if (λ us'. IsWithin s day k others (record w { usages = us' })) (leb n 0) (λ e. h)
        (λ e.
          within
            (record w {
              usages =
                  change_usage (λ u. record u { tokens_today = u.tokens_today + n }) day
                    (tenant_key t) w.usages;
            })
            _
            (changed (λ u. record u { tokens_today = u.tokens_today + n }) day t k w.usages
              (λ u. refl))
            (by_if (Fits s.limits others (count_of k w.running) (count_of k w.let_in))
              (tenant_key t == k)
              (λ e. record { counted = h.counted; concurrent = h.concurrent; daily = h.daily })
              (λ e. h)))

  happen-IsWithin :
      (e : Event)
      → s.multi_tenant ≡ true
      → count_of k (happen s day e w).let_in ≤ suc others
      → IsWithin s day k others (happen s day e w)
  unfolding happen
  happen-IsWithin (asks t) multi few = ask-IsWithin t multi few
  happen-IsWithin (spends t n) multi few = spend-IsWithin t n
  happen-IsWithin (starts t) multi few =
      by_if (IsWithin s day k others) (leb 1 (count_of (tenant_key t) w.let_in))
        (λ e. start-IsWithin t (leb→le 1 (count_of (tenant_key t) w.let_in) e)) (λ e. h)
  happen-IsWithin (ends t) multi few =
      by_if (IsWithin s day k others) (leb 1 (count_of (tenant_key t) w.running))
        (λ e. end-IsWithin t (leb→le 1 (count_of (tenant_key t) w.running) e)) (λ e. h)

AtMost-now :
    (s : Settings) (day k : String) (most : ℕ) (es : List Event) (w : World)
    → AtMost s day k most es w
    → count_of k w.let_in ≤ most
AtMost-now s day k most [] w a = a
AtMost-now s day k most (e ∷ es) w a = a.0

-- With several tenants, and as long as the day does not change, whatever the order in which tasks
-- ask, those let in are counted, those that run end, and tokens are charged, and when never more
-- than `others` tasks of a tenant stand between the check and the count beside another: if at the
-- start the tenant's counter of active tasks is the number of its tasks that run, and its active
-- tasks and its tasks of the day, each with the tasks that were let in and are not counted so far,
-- exceed their limits by at most `others`, then this is so at the end. With no others the limits hold.
pub happen_all-IsWithin :
    (s : Settings) (day k : String) (others : ℕ) (es : List Event) (w : World)
    → s.multi_tenant ≡ true
    → AtMost s day k (suc others) es w
    → IsWithin s day k others w
    → IsWithin s day k others (happen_all s day es w)
unfolding happen_all
happen_all-IsWithin s day k others [] w multi few h = h
happen_all-IsWithin s day k others (e ∷ es) w multi (few, more) h =
    happen_all-IsWithin s day k others es (happen s day e w) multi more (
      happen-IsWithin s day k others w h e multi
        (AtMost-now s day k (suc others) es (happen s day e w) more))
