-- ===== src/Billing/Subscriptions.antt =====
-- billing/services/subscription_service.py and billing/repositories: plans, subscriptions and grants.
use oriion.Prelude.{
  ℕ, ◌+◌, ◌*◌, String, Bool, true, false, not, ◌&&◌, Option, none, some, List, [], ◌∷◌, ◌++◌, ◌==◌,
  str_eq, find, update_if, if◌then◌else◌, Result, ok, err,
}
use oriion.Prelude.Int.{ℤ, pos, ◌+ℤ◌, ltb_ℤ}
use oriion.Billing.Ledger.{CreditTransaction, TransactionType, credit, trial_grant, get_balance}

pub data SubscriptionStatus : Type 0 where
  trial active past_due canceled : SubscriptionStatus

-- A row of billing.plans; a cap that is absent is not enforced.
pub record Plan : Type 0 where
  pub slug : String
  pub trial_days : Option ℕ
  pub included_credits : ℤ
  pub soft_cap_credits : Option ℤ
  pub hard_cap_credits : Option ℤ
  pub per_day_cap_credits : Option ℤ

pub record Subscription : Type 0 where
  pub id : ℕ
  pub cell_id : ℕ
  pub plan_slug : String
  pub status : SubscriptionStatus
  pub period_start : ℕ
  pub period_end : ℕ
  pub trial_ends_at : Option ℕ
  pub credits_granted_this_period : ℤ

-- A row of llm_gateway.llm_usage_log.
pub record UsageRow : Type 0 where
  pub cell_id : ℕ
  pub byok_key_id : Option ℕ
  pub cost_rub : ℤ
  pub cost_usd : ℤ

pub record BillingDb : Type 0 where
  pub plans : List Plan
  pub subscriptions : List Subscription
  pub transactions : List CreditTransaction
  pub usage_log : List UsageRow

pub data BillingError : Type 0 where
  plan_not_found : String → BillingError
  cell_quota_exceeded : BillingError
  daily_quota_exceeded : BillingError

abbrev pub is_canceled : SubscriptionStatus → Bool
is_canceled canceled = true
is_canceled _ = false

abbrev pub is_active_of : ℕ → Subscription → Bool
is_active_of cell s = s.cell_id == cell && not (is_canceled s.status)

-- `SubscriptionRepository.get_active_by_cell`.
unfoldable pub get_active_by_cell : ℕ → BillingDb → Option Subscription
get_active_by_cell cell db = find (is_active_of cell) db.subscriptions

-- `PlanRepository.get`.
unfoldable pub get_plan : String → BillingDb → Option Plan
get_plan slug db = find (λ (p : Plan). str_eq p.slug slug) db.plans

unfoldable pub create_subscription : Subscription → BillingDb → BillingDb
create_subscription s db = record db { subscriptions = db.subscriptions ++ s ∷ [] }

-- `update_status(subscription_id, "canceled")`.
unfoldable pub cancel_subscription : ℕ → BillingDb → BillingDb
cancel_subscription id db = record db {
  subscriptions =
      update_if (λ (s : Subscription). s.id == id) (λ s. record s { status = canceled })
        db.subscriptions;
}

-- `_record_grant`: one credit is one rouble.
unfoldable pub record_grant : ℕ → ℕ → ℤ → TransactionType → BillingDb → BillingDb
record_grant now cell amount type db = record db {
  transactions =
      db.transactions
      ++ record {
        cell_id = cell;
        transaction_type = type;
        amount_rub = amount;
        amount_credits = amount;
        balance_after_credits = get_balance cell db.transactions +ℤ amount;
        created_at = now;
      }
        ∷ [];
}

abbrev pub days : ℕ → ℕ
days n = n * 86400000000

-- `trial.trial_days or _DEFAULT_TRIAL_DAYS`: a stored 0 is no number of days either.
abbrev pub trial_days_of : Option ℕ → ℕ
trial_days_of none = 14
trial_days_of (some n) = if n == 0 then 14 else n

abbrev pub Outcome : Type 0
Outcome = Result BillingError Subscription × BillingDb

unfoldable pub grant_plan_trial : ℕ → ℕ → ℕ → Option Plan → BillingDb → Outcome
grant_plan_trial now id cell none db = (err (plan_not_found "trial"), db)
grant_plan_trial now id cell (some plan) db =
    let period_end = now + days (trial_days_of plan.trial_days) in
    let s : Subscription = record {
      id = id;
      cell_id = cell;
      plan_slug = plan.slug;
      status = trial;
      period_start = now;
      period_end = period_end;
      trial_ends_at = some period_end;
      credits_granted_this_period = plan.included_credits;
    } in
    (ok s, record_grant now cell plan.included_credits trial_grant (create_subscription s db))

unfoldable pub start_trial_from : ℕ → ℕ → ℕ → Option Subscription → BillingDb → Outcome
unfolding grant_plan_trial
start_trial_from now id cell (some existing) db = (ok existing, db)
start_trial_from now id cell none db = grant_plan_trial now id cell (get_plan "trial" db) db

-- `id` is the key that the database gives a new subscription.
unfoldable pub start_trial : ℕ → ℕ → ℕ → BillingDb → Outcome
unfolding start_trial_from
start_trial now id cell db = start_trial_from now id cell (get_active_by_cell cell db) db

unfoldable pub cancel_existing : Option Subscription → BillingDb → BillingDb
cancel_existing none db = db
cancel_existing (some s) db = cancel_subscription s.id db

unfoldable pub assign_found : ℕ → ℕ → ℕ → String → Option Plan → BillingDb → Outcome
unfolding cancel_existing
assign_found now id cell slug none db = (err (plan_not_found slug), db)
assign_found now id cell slug (some plan) db =
    let db₁ = cancel_existing (get_active_by_cell cell db) db in
    let s : Subscription = record {
      id = id;
      cell_id = cell;
      plan_slug = plan.slug;
      status = active;
      period_start = now;
      period_end = now + days 30;
      trial_ends_at = none;
      credits_granted_this_period = plan.included_credits;
    } in
    let db₂ = create_subscription s db₁ in
    (
      ok s,
      (if ltb_ℤ (pos 0) plan.included_credits
          then record_grant now cell plan.included_credits credit db₂
          else db₂),
    )

unfoldable pub assign_plan : ℕ → ℕ → ℕ → String → BillingDb → Outcome
unfolding assign_found
assign_plan now id cell slug db = assign_found now id cell slug (get_plan slug db) db
