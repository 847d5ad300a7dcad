-- ===== src/Billing/Cost.antt =====
-- llm_gateway/services/billing_service.py: the usage row of a call, and its debit when the platform's
-- key paid for it.
use oriion.Prelude.{ℕ, String, Option, none, some, List, [], ◌∷◌, ◌++◌}
use oriion.Prelude.Int.{ℤ, pos, ◌-ℤ◌}
use oriion.Billing.Ledger.{CreditTransaction, debit, is_credit_type, is_debit_type, sum_credits}
use oriion.Billing.Pricing.{calculate_cost_usd_and_rub}
use oriion.Billing.Subscriptions.{BillingDb, UsageRow}

-- `_running_balance_after_debit`.
unfoldable pub running_balance_after_debit : ℕ → ℤ → List CreditTransaction → ℤ
unfolding sum_credits
running_balance_after_debit cell amount rows =
    sum_credits cell is_credit_type none rows -ℤ sum_credits cell is_debit_type none rows -ℤ amount

unfoldable pub log_usage : UsageRow → BillingDb → BillingDb
log_usage row db = record db { usage_log = db.usage_log ++ row ∷ [] }

unfoldable pub debit_managed : ℕ → ℕ → ℤ → Option ℕ → BillingDb → BillingDb
unfolding running_balance_after_debit
debit_managed now cell cost (some key) db = db
debit_managed now cell cost none db = record db {
  transactions =
      db.transactions
      ++ record {
        cell_id = cell;
        transaction_type = debit;
        amount_rub = cost;
        amount_credits = cost;
        balance_after_credits = running_balance_after_debit cell cost db.transactions;
        created_at = now;
      }
        ∷ [];
}

-- What one call's record holds of it.
pub record LlmCall : Type 0 where
  pub cell_id : ℕ
  pub provider : String
  pub model : String
  pub tokens_in : ℕ
  pub tokens_out : ℕ
  pub byok_key_id : Option ℕ

-- The costs in dollars and roubles, and both rows in the caller's transaction.
unfoldable pub record_llm_cost : ℕ → ℕ → LlmCall → BillingDb → (ℕ × ℕ) × BillingDb
unfolding log_usage debit_managed
record_llm_cost now fx c db =
    let (usd, rub) = calculate_cost_usd_and_rub c.provider c.model c.tokens_in c.tokens_out fx in
    let row : UsageRow = record {
      cell_id = c.cell_id;
      byok_key_id = c.byok_key_id;
      cost_rub = pos rub;
      cost_usd = pos usd;
    } in
    ((usd, rub), debit_managed now c.cell_id (pos rub) c.byok_key_id (log_usage row db))
