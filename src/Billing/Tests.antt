-- ===== src/Billing/Tests.antt =====
-- The theorems about the ledger, plans and quotas, at small concrete inputs.
use oriion.Prelude.{refl, none, some, List, [], ◌∷◌, arith}
use oriion.Prelude.Int.{pos}
use oriion.Billing.Ledger.{debit, sum_credits}
use oriion.Billing.Pricing.{pricing_table, find_prices, calculate_cost_usd_and_rub}
use oriion.Billing.Pricing.Rounding.{IsRounded, calculate_cost-IsRounded}
use oriion.Billing.Subscriptions.{Plan, Subscription, active, trial, BillingDb}
use oriion.Billing.Cost.{LlmCall}
use oriion.Billing.Books.{Command, begin_trial, change_plan, charge, run_all, IsBalanced}
use oriion.Billing.Books.Balanced.{run_all-IsBalanced}

calculate_cost-IsRounded_example :
    IsRounded
      (find_prices "deepseek" "deepseek-chat" pricing_table)
      1234
      567
      95000000
      (calculate_cost_usd_and_rub "deepseek" "deepseek-chat" 1234 567 95000000)
calculate_cost-IsRounded_example =
    calculate_cost-IsRounded "deepseek" "deepseek-chat" 1234 567 95000000

abbrev trial_plan : Plan
trial_plan = record {
  slug = "trial";
  trial_days = some 14;
  included_credits = pos 100;
  soft_cap_credits = none;
  hard_cap_credits = some (pos 50);
  per_day_cap_credits = none;
}

abbrev empty_db : BillingDb
empty_db = record { plans = trial_plan ∷ []; subscriptions = []; transactions = []; usage_log = [] }

abbrev llm_call : LlmCall
llm_call = record {
  cell_id = 1;
  provider = "deepseek";
  model = "deepseek-chat";
  tokens_in = 1000;
  tokens_out = 500;
  byok_key_id = none;
}

abbrev commands : List Command
commands = begin_trial 10 1 1 ∷ charge 20 95000000 llm_call ∷ change_plan 30 2 1 "trial" ∷ []

run_all-IsBalanced_example : IsBalanced (run_all commands empty_db)
unfolding sum_credits
run_all-IsBalanced_example =
    run_all-IsBalanced commands empty_db
      (record { running = tt; reconciled = λ cell. refl; one_plan = λ cell. omega arith })

abbrev on_trial : Subscription
on_trial = record {
  id = 1;
  cell_id = 1;
  plan_slug = "trial";
  status = trial;
  period_start = 10;
  period_end = 1209600000010;
  trial_ends_at = some 1209600000010;
  credits_granted_this_period = pos 100;
}

abbrev on_plan : Subscription
on_plan = record {
  id = 2;
  cell_id = 1;
  plan_slug = "trial";
  status = active;
  period_start = 30;
  period_end = 2592000000030;
  trial_ends_at = none;
  credits_granted_this_period = pos 100;
}

abbrev trial_db : BillingDb
trial_db = record empty_db { subscriptions = on_trial ∷ [] }

-- 60 credits spent in the period, above the cap of 50.
abbrev spent_db : BillingDb
spent_db = record trial_db {
  transactions =
      record {
        cell_id = 1;
        transaction_type = debit;
        amount_rub = pos 60;
        amount_credits = pos 60;
        balance_after_credits = pos 40;
        created_at = 15;
      }
      ∷ [];
}
