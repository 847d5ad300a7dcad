-- ===== src/Billing/Books/Plans.antt =====
-- A cell's subscriptions under the operations of subscription_service.py.
use oriion.Prelude.{
  Bool-cases, ℕ, ◌+◌, ◌≤◌, ◌≡◌, refl, ap, Bool, true, false, Option, none, some, List, [], ◌∷◌,
  ◌==◌, arith, find, count_if, if◌then◌else◌, String, inl, inr,
}
use oriion.Prelude.Int.{ℤ, pos, ltb_ℤ}
use oriion.Prelude.Rows.{count_if-append, count_if-update_le, count_if-update_lt, find-passes}
use oriion.Billing.Ledger.{TransactionType, credit}
use oriion.Billing.Subscriptions.{
  Plan, Subscription, canceled, BillingDb, is_active_of, get_active_by_cell, get_plan,
  create_subscription, cancel_subscription, cancel_existing, record_grant, start_trial,
  start_trial_from, grant_plan_trial, assign_plan, assign_found,
}

abbrev pub plans_of : ℕ → BillingDb → ℕ
plans_of cell db = count_if (is_active_of cell) db.subscriptions

find-none :
    (p : Subscription → Bool) (xs : List Subscription) → find p xs ≡ none → count_if p xs ≡ 0
find-none p [] h = refl
find-none p (x ∷ xs) h = ground (arith, find-none p xs)

pub plans_of-none :
    (cell : ℕ) (db : BillingDb) → get_active_by_cell cell db ≡ none → plans_of cell db ≡ 0
unfolding get_active_by_cell
plans_of-none cell db h = find-none (is_active_of cell) db.subscriptions h

pub plans_of-grant :
    (now c : ℕ) (amount : ℤ) (type : TransactionType) (cell : ℕ) (db : BillingDb)
    → plans_of cell (record_grant now c amount type db) ≡ plans_of cell db
unfolding record_grant
plans_of-grant now c amount type cell db = refl

-- A new row adds one to its own cell at most.
pub plans_of-create :
    (s : Subscription) (cell : ℕ) (db : BillingDb)
    → plans_of cell (create_subscription s db)
      ≡ plans_of cell db + (if is_active_of cell s then 1 else 0)
unfolding create_subscription
plans_of-create s cell db =
    ground (arith, count_if-append (is_active_of cell) db.subscriptions (s ∷ []))

still_active :
    (cell : ℕ) (s : Subscription)
    → is_active_of cell (record s { status = canceled }) ≡ true
    → is_active_of cell s ≡ true
still_active cell s h = ground arith

pub cancel_existing-le :
    (o : Option Subscription) (cell : ℕ) (db : BillingDb)
    → plans_of cell (cancel_existing o db) ≤ plans_of cell db
unfolding cancel_existing cancel_subscription
cancel_existing-le none cell db = omega arith
cancel_existing-le (some s) cell db =
    count_if-update_le (is_active_of cell) (λ (t : Subscription). t.id == s.id)
      (λ t. record t { status = canceled }) db.subscriptions (still_active cell)

-- Cancelling the plan found leaves the cell one fewer.
pub cancel_existing-lt :
    (o : Option Subscription) (cell : ℕ) (db : BillingDb)
    → get_active_by_cell cell db ≡ o
    → plans_of cell db ≤ 1
    → plans_of cell (cancel_existing o db) ≡ 0
unfolding cancel_existing cancel_subscription get_active_by_cell
cancel_existing-lt none cell db e h = plans_of-none cell db e
cancel_existing-lt (some s) cell db e h = omega (
  arith,
  h,
  count_if-update_lt (is_active_of cell) (λ (t : Subscription). t.id == s.id) (is_active_of cell)
      (λ t. record t { status = canceled }) s db.subscriptions (still_active cell) e
      (find-passes (is_active_of cell) s db.subscriptions e) (ground arith) (ground arith),
)

plan_of_same :
    (s : Subscription) (cell : ℕ) (db : BillingDb)
    → s.cell_id ≡ cell
    → plans_of s.cell_id db ≡ 0
    → plans_of cell db + (if is_active_of cell s then 1 else 0) ≤ 1
plan_of_same s cell db c e = let k = ap (λ (n : ℕ). plans_of n db) c in ground (arith, e, k)

-- Creating a subscription of a cell that has none.
pub create-le :
    (s : Subscription) (cell : ℕ) (db : BillingDb)
    → plans_of s.cell_id db ≡ 0
    → plans_of cell db ≤ 1
    → plans_of cell (create_subscription s db) ≤ 1
create-le s cell db e h = elim (Bool-cases (s.cell_id == cell)) [
  | inl c ↦ omega (arith, plans_of-create s cell db, plan_of_same s cell db (ground (arith, c)) e)
  | inr c ↦ ground (arith, c, h, plans_of-create s cell db)
]

grant_plan_trial-le :
    (now id c : ℕ) (o : Option Plan) (cell : ℕ) (db : BillingDb)
    → plans_of c db ≡ 0
    → plans_of cell db ≤ 1
    → plans_of cell (grant_plan_trial now id c o db).1 ≤ 1
unfolding grant_plan_trial record_grant
grant_plan_trial-le now id c none cell db e h = h
grant_plan_trial-le now id c (some plan) cell db e h = create-le _ cell db e h

start_trial_from-le :
    (now id c : ℕ) (o : Option Subscription) (cell : ℕ) (db : BillingDb)
    → get_active_by_cell c db ≡ o
    → plans_of cell db ≤ 1
    → plans_of cell (start_trial_from now id c o db).1 ≤ 1
unfolding start_trial_from
start_trial_from-le now id c (some s) cell db e h = h
start_trial_from-le now id c none cell db e h =
    grant_plan_trial-le now id c (get_plan "trial" db) cell db (plans_of-none c db e) h

pub start_trial-le :
    (now id c cell : ℕ) (db : BillingDb)
    → plans_of cell db ≤ 1
    → plans_of cell (start_trial now id c db).1 ≤ 1
unfolding start_trial
start_trial-le now id c cell db h =
    start_trial_from-le now id c (get_active_by_cell c db) cell db refl h

grant_if-le :
    (b : Bool) (now c : ℕ) (amount : ℤ) (type : TransactionType) (cell : ℕ) (db : BillingDb)
    → plans_of cell db ≤ 1
    → plans_of cell (if b then record_grant now c amount type db else db) ≤ 1
unfolding record_grant
grant_if-le true now c amount type cell db h = h
grant_if-le false now c amount type cell db h = h

assign_found-le :
    (now id c : ℕ) (slug : String) (o : Option Plan) (cell : ℕ) (db : BillingDb)
    → ((k : ℕ) → plans_of k db ≤ 1)
    → plans_of cell (assign_found now id c slug o db).1 ≤ 1
unfolding assign_found
assign_found-le now id c slug none cell db h = h cell
assign_found-le now id c slug (some plan) cell db h =
    let db₁ = cancel_existing (get_active_by_cell c db) db in
    let none_left = cancel_existing-lt (get_active_by_cell c db) c db refl (h c) in
    let fewer = cancel_existing-le (get_active_by_cell c db) cell db in
    grant_if-le (ltb_ℤ (pos 0) plan.included_credits) now c plan.included_credits credit cell _
      (create-le _ cell db₁ none_left (omega (arith, h cell, fewer)))

pub assign_plan-le :
    (now id c : ℕ) (slug : String) (cell : ℕ) (db : BillingDb)
    → ((k : ℕ) → plans_of k db ≤ 1)
    → plans_of cell (assign_plan now id c slug db).1 ≤ 1
unfolding assign_plan
assign_plan-le now id c slug cell db h = assign_found-le now id c slug (get_plan slug db) cell db h
