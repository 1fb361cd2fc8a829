-- ===== src/Gate/Local.antt =====
-- `LocalGate` (packages/core/src/adapters/local-gate.ts): the budget gate over any spend store.
-- `now` is the clock's `toISOString()`; each operation returns its result and the store after it.
pub mod Keys
pub mod Laws
pub mod Limits
pub mod Quota
use creance.Prelude.{String, Bool, true, false, Option, none, some, str_eq, if◌then◌else◌}
use Prim.Native.String
use creance.Prelude.Int.{ℤ, pos, negsuc, ◌+ℤ◌, ◌-ℤ◌}
use creance.Gate.{BudgetStatus, QuotaStatus, BudgetScopes, SpendStore, current_period}
use creance.Gate.Caps.{Amount, finite, infinite, exceeds, is_below, minus, max_zero, is_finite}

-- The fields that the constructor sets; `limit_source` is `source?.limitFor`.
pub record Config : Type 0 where
  pub fallback_limit : Amount
  pub limit_source : Option (String → Option Amount)
  pub session_limit : Option Amount
  pub run_quota : Option Amount

abbrev or_limit : Amount → Option Amount → Amount
or_limit fallback none = fallback
or_limit fallback (some a) = if is_finite a then a else fallback

-- `limitFor`
unfoldable pub limit_for : Config → String → Amount
limit_for c tenant = elim c.limit_source [
  | none ↦ c.fallback_limit
  | some limit ↦ or_limit c.fallback_limit (limit tenant)
]

unfoldable pub run_period : String → String
run_period now = String.◌++◌ "runs#" (current_period now)

unfoldable pub session_key : String → String
session_key id = String.◌++◌ "session#" id

abbrev session_scope : Option Amount → Option String → Option (Amount × String)
session_scope (some ceiling) (some id) =
    if str_eq id "" then none else some (ceiling, session_key id)
session_scope _ _ = none

-- The session scope of a call, `some (cap, key)` where it is on. `!!scopes?.sessionId` is false on
-- the empty text.
unfoldable pub session_on : Config → BudgetScopes → Option (Amount × String)
session_on c scopes = session_scope c.session_limit scopes.session_id

unfoldable pub over_by : String → Amount → ℤ → ℤ → BudgetStatus
over_by tenant limit current worst =
    let spent = current +ℤ worst in
    record {
      tenant = tenant;
      limit_usd = limit;
      spent_usd = spent;
      remaining_usd = minus limit spent;
      ok = false;
    }

unfoldable pub status : Config → String → ℤ → BudgetStatus
status c tenant spent =
    let limit = limit_for c tenant in
    record {
      tenant = tenant;
      limit_usd = limit;
      spent_usd = spent;
      remaining_usd = minus limit spent;
      ok = is_below spent limit;
    }

abbrev quota_off : String → QuotaStatus
quota_off tenant = record {
  tenant = tenant;
  limit = infinite;
  used = pos 0;
  remaining = infinite;
  ok = true;
}

module _ (S : SpendStore) where
  open S use {Store, get, add, reserve as store_reserve}

  abbrev quota_refused : String → Amount → ℤ → QuotaStatus
  quota_refused tenant limit used = record {
    tenant = tenant;
    limit = limit;
    used = used;
    remaining = max_zero (minus limit used);
    ok = false;
  }

  unfoldable pub quota_reserved : String → Amount → String → Option ℤ × Store → QuotaStatus × Store
  quota_reserved tenant limit period (none, s) =
      (quota_refused tenant limit (get tenant period s), s)
  quota_reserved tenant limit period (some total, s) = (
    record {
      tenant = tenant;
      limit = limit;
      used = total;
      remaining = minus limit total;
      ok = true;
    },
    s,
  )

  -- `reserveRun` under a quota.
  unfoldable pub reserve_under : Amount → String → String → Store → QuotaStatus × Store
  unfolding quota_reserved
  reserve_under limit period tenant s =
      if exceeds (pos 1) limit
      then (
        record {
          tenant = tenant;
          limit = limit;
          used = get tenant period s;
          remaining = finite (pos 0);
          ok = false;
        },
        s,
      )
      else quota_reserved tenant limit period (store_reserve tenant period (pos 1) limit s)

  unfoldable pub reserve_optional : Option Amount → String → String → Store → QuotaStatus × Store
  reserve_optional none period tenant s = (quota_off tenant, s)
  reserve_optional (some limit) period tenant s = reserve_under limit period tenant s

  unfoldable pub reserve_run : Config → String → String → Store → QuotaStatus × Store
  unfolding reserve_optional
  reserve_run c now tenant s = reserve_optional c.run_quota (run_period now) tenant s

  unfoldable pub refund_run : Config → String → String → Store → Store
  refund_run c now tenant s = elim c.run_quota [
    | none ↦ s
    | some _ ↦ (add tenant (run_period now) (negsuc 0) s).1
  ]

  unfoldable pub check_quota : Config → String → String → Store → QuotaStatus
  check_quota c now tenant s = elim c.run_quota [
    | none ↦ quota_off tenant
    | some limit ↦
        let used = get tenant (run_period now) s in
        record {
          tenant = tenant;
          limit = limit;
          used = used;
          remaining = max_zero (minus limit used);
          ok = is_below used limit;
        }
  ]

  unfoldable pub check_budget : Config → String → String → Store → BudgetStatus
  unfolding status
  check_budget c now tenant s = status c tenant (get tenant (current_period now) s)

  pub record_spend : Config → String → String → ℤ → Store → BudgetStatus × Store
  unfolding status
  record_spend c now tenant usd s =
      let (total, s') = add tenant (current_period now) usd s in (status c tenant total, s')

  abbrev admitted : String → Amount → ℤ → BudgetStatus
  admitted tenant ceiling total = record {
    tenant = tenant;
    limit_usd = ceiling;
    spent_usd = total;
    remaining_usd = minus ceiling total;
    ok = true;
  }

  -- `worstUsd > ceiling ? null : await this.spend.reserve(tenant, key, worstUsd, ceiling)`
  unfoldable pub session_reserve : String → Amount × String → ℤ → Store → Option ℤ × Store
  session_reserve tenant (ceiling, key) worst s =
      if exceeds worst ceiling then (none, s) else store_reserve tenant key worst ceiling s

  -- `reserve` once the session scope has answered: a refusal refunds the tenant's total.
  unfoldable pub session_reserved :
      String → String → ℤ → Amount → ℤ → Amount × String → Option ℤ × Store → BudgetStatus × Store
  unfolding over_by
  session_reserved period tenant worst tenant_cap tenant_total (ceiling, key) (none, s) =
      let s' = (add tenant period (pos 0 -ℤ worst) s).1 in
      (over_by tenant ceiling (get tenant key s') worst, s')
  session_reserved period tenant worst tenant_cap tenant_total (ceiling, key) (some _, s) =
      (admitted tenant tenant_cap tenant_total, s)

  -- The second half of `reserve`, once the tenant's total is reserved.
  unfoldable pub reserve_session :
      String → String → ℤ → Amount → ℤ → Option (Amount × String) → Store → BudgetStatus × Store
  unfolding session_reserve session_reserved
  reserve_session period tenant worst tenant_cap tenant_total none s =
      (admitted tenant tenant_cap tenant_total, s)
  reserve_session period tenant worst tenant_cap tenant_total (some session) s =
      session_reserved period tenant worst tenant_cap tenant_total session
        (session_reserve tenant session worst s)

  unfoldable pub reserve_tenant :
      String
      → String
      → ℤ
      → Amount
      → Option (Amount × String)
      → Option ℤ × Store
      → BudgetStatus × Store
  unfolding reserve_session
  reserve_tenant period tenant worst ceiling session (none, s) =
      (over_by tenant ceiling (get tenant period s) worst, s)
  reserve_tenant period tenant worst ceiling session (some total, s) =
      reserve_session period tenant worst ceiling total session s

  unfoldable pub reserve :
      Config → String → String → ℤ → BudgetScopes → Store → BudgetStatus × Store
  unfolding reserve_tenant
  reserve c now tenant worst scopes s =
      let period = current_period now in
      let ceiling = limit_for c tenant in
      if exceeds worst ceiling
      then (over_by tenant ceiling (get tenant period s) worst, s)
      else reserve_tenant period tenant worst ceiling (session_on c scopes)
          (store_reserve tenant period worst ceiling s)

  unfoldable pub settle_session : String → ℤ → Option (Amount × String) → Store → Store
  settle_session tenant delta none s = s
  settle_session tenant delta (some (_, key)) s = (add tenant key delta s).1

  unfoldable pub settle : Config → String → String → ℤ → BudgetScopes → Store → Store
  unfolding settle_session
  settle c now tenant delta scopes s =
      settle_session tenant delta (session_on c scopes) (add tenant (current_period now) delta s).1
