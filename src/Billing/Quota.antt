-- ===== src/Billing/Quota.antt =====
-- billing/services/quota_service.py: the admission check of a task.
use oriion.Prelude.{ℕ, Bool, true, false, Option, none, some, if◌then◌else◌, Result, ok, err}
use oriion.Prelude.Int.{ℤ, pos, leb_ℤ}
use oriion.Billing.Ledger.{get_period_usage, get_daily_usage}
use oriion.Billing.Subscriptions.{
  Plan, Subscription, BillingDb, BillingError, cell_quota_exceeded, daily_quota_exceeded,
  get_active_by_cell, get_plan,
}

pub record QuotaStatus : Type 0 where
  pub enforced : Bool
  pub soft_warn : Bool
  pub period_usage : ℤ
  pub soft_cap : Option ℤ
  pub hard_cap : Option ℤ
  pub daily_usage : ℤ
  pub per_day_cap : Option ℤ

abbrev pub not_enforced : QuotaStatus
not_enforced = record {
  enforced = false;
  soft_warn = false;
  period_usage = pos 0;
  soft_cap = none;
  hard_cap = none;
  daily_usage = pos 0;
  per_day_cap = none;
}

-- The cap is there and the usage has come up to it.
abbrev pub reached : Option ℤ → ℤ → Bool
reached none usage = false
reached (some cap) usage = leb_ℤ cap usage

unfoldable pub admit_with : ℤ → ℤ → Option Plan → Result BillingError QuotaStatus
admit_with period daily none = ok not_enforced
admit_with period daily (some plan) =
    if reached plan.per_day_cap_credits daily
    then err daily_quota_exceeded
    else if reached plan.hard_cap_credits period
    then err cell_quota_exceeded
    else ok (record {
      enforced = true;
      soft_warn = reached plan.soft_cap_credits period;
      period_usage = period;
      soft_cap = plan.soft_cap_credits;
      hard_cap = plan.hard_cap_credits;
      daily_usage = daily;
      per_day_cap = plan.per_day_cap_credits;
    })

unfoldable pub admit_cell :
    ℕ → ℕ → Option Subscription → BillingDb → Result BillingError QuotaStatus
unfolding admit_with
admit_cell now cell none db = ok not_enforced
admit_cell now cell (some s) db =
    admit_with (get_period_usage cell s.period_start db.transactions)
      (get_daily_usage cell now db.transactions) (get_plan s.plan_slug db)

unfoldable pub enforce_quota_admission : ℕ → ℕ → BillingDb → Result BillingError QuotaStatus
unfolding admit_cell
enforce_quota_admission now cell db = admit_cell now cell (get_active_by_cell cell db) db
