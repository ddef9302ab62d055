-- ===== src/TenantQuota/Counters.antt =====
-- What each operation does to the counters of each tenant.
use agent_langraph.Prelude.{
  String, ◌≡◌, refl, ap, sym, ◌∙◌, false, Option, none, some, ◌==◌, eq_iff, arith, if◌then◌else◌,
  by_if,
}
use agent_langraph.Prelude.Dict
use agent_langraph.TenantQuota.{
  TenantUsage, Usages, tenant_key, new_usage, is_current, usage_or_new, get_usage, change_usage,
}

-- The counters of this day of the tenant with this key.
unfoldable pub usage_of : String → String → Usages → TenantUsage
usage_of day k us = usage_or_new day (Dict.get k us)

new_is_current : (day : String) → usage_or_new day (some (new_usage day)) ≡ new_usage day
new_is_current day = ground (arith, eq_iff day day)

stale_is_new :
    (day : String) (o : Option TenantUsage)
    → is_current day o ≡ false
    → usage_or_new day o ≡ new_usage day
stale_is_new day none h = refl
stale_is_new day (some u) h = rw h refl

current : (day : String) (u : TenantUsage) → u.day_key ≡ day → usage_or_new day (some u) ≡ u
current day u same = ground (arith, eq_iff u.day_key day)

day-usage_or_new : (day : String) (o : Option TenantUsage) → (usage_or_new day o).day_key ≡ day
day-usage_or_new day none = refl
day-usage_or_new day (some u) =
    by_if (λ (v : TenantUsage). v.day_key ≡ day) (u.day_key == day)
      (λ e. (eq_iff u.day_key day).0 e) (λ e. refl)

pub usage_of-put :
    (day a b : String) (u : TenantUsage) (us : Usages)
    → u.day_key ≡ day
    → usage_of day b (Dict.put a u us) ≡ (if a == b then u else usage_of day b us)
unfolding usage_of
usage_of-put day a b u us same =
    ap (usage_or_new day) (Dict.get-put a b u us)
    ∙ by_if (λ o. usage_or_new day o ≡ (if a == b then u else usage_or_new day (Dict.get b us)))
        (a == b) (λ e. rw e (current day u same)) (λ e. rw e refl)

no_change :
    (day a b : String) (us : Usages)
    → is_current day (Dict.get a us) ≡ false
    → (if a == b then new_usage day else usage_of day b us) ≡ usage_of day b us
unfolding usage_of
no_change day a b us stale =
    by_if (λ u. u ≡ usage_of day b us) (a == b)
      (λ e. sym (
        ap (λ k. usage_of day k us) (sym ((eq_iff a b).0 e))
        ∙ stale_is_new day (Dict.get a us) stale))
      (λ e. refl)

pub usage_of-get_usage :
    (day a b : String) (us : Usages) → usage_of day b (get_usage day a us).1 ≡ usage_of day b us
unfolding get_usage
usage_of-get_usage day a b us =
    by_if (λ r. usage_of day b r ≡ usage_of day b us) (is_current day (Dict.get a us)) (λ e. refl)
      (λ e. usage_of-put day a b (new_usage day) us refl ∙ no_change day a b us e)

pub found-get_usage : (day a : String) (us : Usages) → (get_usage day a us).0 ≡ usage_of day a us
unfolding get_usage usage_of
found-get_usage day a us = refl

day-usage_of : (day a : String) (us : Usages) → (usage_of day a us).day_key ≡ day
unfolding usage_of
day-usage_of day a us = day-usage_or_new day (Dict.get a us)

-- A change in place of the counters of one tenant, seen on the same day.
pub change_usage_lem :
    (f : TenantUsage → TenantUsage) (day tenant_id b : String) (us : Usages)
    → ((u : TenantUsage) → (f u).day_key ≡ u.day_key)
    → usage_of day b (change_usage f day tenant_id us) ≡ (
        if tenant_key tenant_id == b
        then f (usage_of day (tenant_key tenant_id) us)
        else usage_of day b us)
change_usage_lem f day tenant_id b us keeps =
    let a = tenant_key tenant_id in
    let same =
      keeps (get_usage day a us).0
      ∙ ap (λ u. u.day_key) (found-get_usage day a us)
      ∙ day-usage_of day a us in
    usage_of-put day a b (f (get_usage day a us).0) (get_usage day a us).1 same
    ∙ ap (λ u. if a == b then f u else usage_of day b (get_usage day a us).1)
        (found-get_usage day a us)
    ∙ ap (λ u. if a == b then f (usage_of day a us) else u) (usage_of-get_usage day a b us)
