-- ===== src/Billing/Books/Balanced.antt =====
-- The books under the operations that write them.
use oriion.Prelude.{
  ℕ, ◌≡◌, refl, sym, ap, ◌∙◌, String, Bool, true, false, Option, none, some, List, [], ◌∷◌, ◌==◌,
  ==_refl, arith, if◌then◌else◌, Bool-cases, inl, inr,
}
use oriion.Prelude.Int.{ℤ, pos, ◌+ℤ◌, ◌-ℤ◌, ltb_ℤ}
use oriion.Billing.Ledger.{
  CreditTransaction, TransactionType, credit, trial_grant, is_debit_type, get_balance,
}
use oriion.Billing.Subscriptions.{
  Plan, Subscription, BillingDb, UsageRow, get_active_by_cell, get_plan, create_subscription,
  cancel_subscription, cancel_existing, record_grant, start_trial, start_trial_from,
  grant_plan_trial, assign_plan, assign_found,
}
use oriion.Billing.Cost.{record_llm_cost, log_usage, debit_managed, running_balance_after_debit}
use oriion.Billing.Pricing.{calculate_cost_usd_and_rub}
use oriion.Billing.Books.{
  Command, begin_trial, change_plan, charge, run, run_all, Running, Reconciled, IsBalanced,
  AtMostOnePlan, is_managed_of,
}
use oriion.Billing.Books.Sums.{
  Running-append, sum_where-hit, sum_where-miss, sum_credits-hit, sum_credits-miss,
  get_balance-debit, get_balance-credit,
}
use oriion.Billing.Books.Plans.{start_trial-le, assign_plan-le}

-- The part of the invariant that the ledger and the usage log keep between them.
abbrev Books : BillingDb → Type 0
Books db = Running [] db.transactions × ((cell : ℕ) → Reconciled cell db)

record_grant-Books :
    (now c : ℕ) (amount : ℤ) (type : TransactionType) (db : BillingDb)
    → is_debit_type type ≡ false
    → Books db
    → Books (record_grant now c amount type db)
unfolding record_grant
record_grant-Books now c amount type db k (r, e) = (
  Running-append [] db.transactions _ r
      (sym (get_balance-credit c db.transactions _ (==_refl c) k)),
  λ cell. sum_credits-miss cell is_debit_type db.transactions _ (ground (arith, k)) ∙ e cell,
)

running_balance-get_balance :
    (c : ℕ) (amount : ℤ) (rows : List CreditTransaction)
    → running_balance_after_debit c amount rows ≡ get_balance c rows -ℤ amount
unfolding running_balance_after_debit get_balance
running_balance-get_balance c amount rows = refl

debit_managed-Books :
    (now c : ℕ) (rub usd : ℤ) (key : Option ℕ) (db : BillingDb)
    → Books db
    → Books (
        debit_managed now c rub key (
          log_usage (record { cell_id = c; byok_key_id = key; cost_rub = rub; cost_usd = usd }) db))
unfolding debit_managed log_usage
debit_managed-Books now c rub usd (some key) db (r, e) = (
  r,
  λ cell.
      e cell
      ∙ sym (
          sum_where-miss (is_managed_of cell) (λ (u : UsageRow). u.cost_rub) db.usage_log _
            (ground arith)),
)
debit_managed-Books now c rub usd none db (r, e) = (
  Running-append [] db.transactions _ r (
      running_balance-get_balance c rub db.transactions
      ∙ sym (get_balance-debit c db.transactions _ (==_refl c) refl)),
  λ cell. elim (Bool-cases (c == cell)) [
    | inl h ↦
        sum_credits-hit cell is_debit_type db.transactions _ h refl
        ∙ ap (λ x. x +ℤ rub) (e cell)
        ∙ sym (
            sum_where-hit (is_managed_of cell) (λ (u : UsageRow). u.cost_rub) db.usage_log _
              (ground (arith, h)))
    | inr h ↦
        sum_credits-miss cell is_debit_type db.transactions _ (ground (arith, h))
        ∙ e cell
        ∙ sym (
            sum_where-miss (is_managed_of cell) (λ (u : UsageRow). u.cost_rub) db.usage_log _
              (ground (arith, h)))
  ],
)

debit_managed-one_plan :
    (now c : ℕ) (rub usd : ℤ) (key : Option ℕ) (k : ℕ) (db : BillingDb)
    → AtMostOnePlan k db
    → AtMostOnePlan k (
        debit_managed now c rub key (
          log_usage (record { cell_id = c; byok_key_id = key; cost_rub = rub; cost_usd = usd }) db))
unfolding debit_managed log_usage
debit_managed-one_plan now c rub usd none k db h = h
debit_managed-one_plan now c rub usd (some key) k db h = h

grant_plan_trial-Books :
    (now id c : ℕ) (o : Option Plan) (db : BillingDb)
    → Books db
    → Books (grant_plan_trial now id c o db).1
unfolding grant_plan_trial create_subscription
grant_plan_trial-Books now id c none db b = b
grant_plan_trial-Books now id c (some plan) db b =
    record_grant-Books now c plan.included_credits trial_grant (create_subscription _ db) refl b

start_trial_from-Books :
    (now id c : ℕ) (o : Option Subscription) (db : BillingDb)
    → Books db
    → Books (start_trial_from now id c o db).1
unfolding start_trial_from
start_trial_from-Books now id c (some s) db b = b
start_trial_from-Books now id c none db b =
    grant_plan_trial-Books now id c (get_plan "trial" db) db b

cancel_existing-Books :
    (o : Option Subscription) (db : BillingDb) → Books db → Books (cancel_existing o db)
unfolding cancel_existing cancel_subscription
cancel_existing-Books none db b = b
cancel_existing-Books (some s) db b = b

grant_if-Books :
    (b : Bool) (now c : ℕ) (amount : ℤ) (db : BillingDb)
    → Books db
    → Books (if b then record_grant now c amount credit db else db)
grant_if-Books true now c amount db h = record_grant-Books now c amount credit db refl h
grant_if-Books false now c amount db h = h

assign_found-Books :
    (now id c : ℕ) (slug : String) (o : Option Plan) (db : BillingDb)
    → Books db
    → Books (assign_found now id c slug o db).1
unfolding assign_found create_subscription
assign_found-Books now id c slug none db b = b
assign_found-Books now id c slug (some plan) db b =
    let db₁ = cancel_existing (get_active_by_cell c db) db in
    grant_if-Books (ltb_ℤ (pos 0) plan.included_credits) now c plan.included_credits
      (create_subscription _ db₁) (cancel_existing-Books (get_active_by_cell c db) db b)

run-IsBalanced : (c : Command) (db : BillingDb) → IsBalanced db → IsBalanced (run c db)
unfolding run start_trial assign_plan record_llm_cost
run-IsBalanced (begin_trial now id cell) db b =
    let (r, e) =
      start_trial_from-Books now id cell (get_active_by_cell cell db) db
        (b.running, b.reconciled) in
    record {
      running = r;
      reconciled = e;
      one_plan = λ k. start_trial-le now id cell k db (b.one_plan k);
    }
run-IsBalanced (change_plan now id cell slug) db b =
    let (r, e) =
      assign_found-Books now id cell slug (get_plan slug db) db (b.running, b.reconciled) in
    record {
      running = r;
      reconciled = e;
      one_plan = λ k. assign_plan-le now id cell slug k db b.one_plan;
    }
run-IsBalanced (charge now fx c) db b =
    let (usd, rub) = calculate_cost_usd_and_rub c.provider c.model c.tokens_in c.tokens_out fx in
    let (r, e) =
      debit_managed-Books now c.cell_id (pos rub) (pos usd) c.byok_key_id db
        (b.running, b.reconciled) in
    record {
      running = r;
      reconciled = e;
      one_plan = λ k.
          debit_managed-one_plan now c.cell_id (pos rub) (pos usd) c.byok_key_id k db
            (b.one_plan k);
    }

-- Any sequence of trial starts, plan changes and charged calls, whose transactions are committed one
-- after the other, keeps the books: every row of the ledger holds its cell's balance as of that row, each cell's debits sum to the costs of its calls
-- that used no key of the cell's own, and no cell has two plans that are not cancelled.
pub run_all-IsBalanced :
    (cs : List Command) (db : BillingDb) → IsBalanced db → IsBalanced (run_all cs db)
unfolding run_all
run_all-IsBalanced [] db b = b
run_all-IsBalanced (c ∷ cs) db b = run_all-IsBalanced cs (run c db) (run-IsBalanced c db b)
