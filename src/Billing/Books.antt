-- ===== src/Billing/Books.antt =====
-- The operations of billing/services and llm_gateway/services/billing_service.py as commands on the
-- shared tables, and what the tables keep under any sequence of them.
mod Sums
pub mod Plans
pub mod Balanced
pub mod Trials
pub mod Admission
use oriion.Prelude.{
  ℕ, ◌+◌, ◌≤◌, ◌≡◌, String, Bool, ◌&&◌, List, [], ◌∷◌, ◌++◌, ◌==◌, none, is_none, count_if,
}
use oriion.Prelude.Int.{ℤ}
use oriion.Billing.Ledger.{CreditTransaction, is_debit_type, sum_where, sum_credits, get_balance}
use oriion.Billing.Subscriptions.{BillingDb, UsageRow, is_active_of, start_trial, assign_plan}
use oriion.Billing.Cost.{LlmCall, record_llm_cost}

-- A call of the billing services that writes, in a transaction that no other of its cell overlaps: the
-- services take no lock, and each writes in its caller's transaction.
pub data Command : Type 0 where
  begin_trial : ℕ → ℕ → ℕ → Command
  change_plan : ℕ → ℕ → ℕ → String → Command
  charge : ℕ → ℕ → LlmCall → Command

unfoldable pub run : Command → BillingDb → BillingDb
run (begin_trial now id cell) db = (start_trial now id cell db).1
run (change_plan now id cell slug) db = (assign_plan now id cell slug db).1
run (charge now fx call) db = (record_llm_cost now fx call db).1

unfoldable pub run_all : List Command → BillingDb → BillingDb
unfolding run
run_all [] db = db
run_all (c ∷ cs) db = run_all cs (run c db)

abbrev pub is_managed_of : ℕ → UsageRow → Bool
is_managed_of cell u = u.cell_id == cell && is_none u.byok_key_id

-- Every row after those of `seen` holds the balance of its cell as of that row.
abbrev pub Running : List CreditTransaction → List CreditTransaction → Type 0
Running seen [] = Unit
Running seen (t ∷ ts) =
    (t.balance_after_credits ≡ get_balance t.cell_id (seen ++ t ∷ [])) × Running (seen ++ t ∷ []) ts

-- The debits of a cell are the costs of its calls that the platform's own key paid for.
abbrev pub Reconciled : ℕ → BillingDb → Type 0
Reconciled cell db =
    sum_credits cell is_debit_type none db.transactions
    ≡ sum_where (is_managed_of cell) (λ (u : UsageRow). u.cost_rub) db.usage_log

abbrev pub AtMostOnePlan : ℕ → BillingDb → Type 0
AtMostOnePlan cell db = count_if (is_active_of cell) db.subscriptions ≤ 1

pub record IsBalanced (db : BillingDb) : Type 0 where
  pub running : Running [] db.transactions
  pub reconciled : (cell : ℕ) → Reconciled cell db
  pub one_plan : (cell : ℕ) → AtMostOnePlan cell db
