-- ===== src/Billing/Ledger.antt =====
-- billing/models.py and billing/services/balance_service.py: the ledger and its sums. An amount is
-- a signed number of ten-thousandths, the scale of the columns; a time is microseconds since the
-- epoch, and a day of the clock has 86,400,000,000 of them.
use oriion.Prelude.{
  ℕ, ◌*◌, ◌/◌, Bool, true, false, ◌&&◌, Option, none, some, List, [], ◌∷◌, ◌==◌, leb, if◌then◌else◌,
}
use oriion.Prelude.Int.{ℤ, pos, ◌+ℤ◌, ◌-ℤ◌}

pub data TransactionType : Type 0 where
  credit trial_grant refund debit : TransactionType

-- A row of billing.credit_transactions.
pub record CreditTransaction : Type 0 where
  pub cell_id : ℕ
  pub transaction_type : TransactionType
  pub amount_rub : ℤ
  pub amount_credits : ℤ
  pub balance_after_credits : ℤ
  pub created_at : ℕ

-- `CREDIT_TYPES`.
abbrev pub is_credit_type : TransactionType → Bool
is_credit_type debit = false
is_credit_type _ = true

abbrev pub is_debit_type : TransactionType → Bool
is_debit_type debit = true
is_debit_type _ = false

-- The sum of a column over the rows of a WHERE clause.
abbrev pub sum_where {ℓ} : {A : Type ℓ} → (A → Bool) → (A → ℤ) → List A → ℤ
sum_where p f [] = pos 0
sum_where p f (x ∷ xs) = let rest = sum_where p f xs in if p x then rest +ℤ f x else rest

abbrev pub since_ok : Option ℕ → ℕ → Bool
since_ok none at = true
since_ok (some t) at = leb t at

-- `_sum_credits`.
unfoldable pub sum_credits : ℕ → (TransactionType → Bool) → Option ℕ → List CreditTransaction → ℤ
sum_credits cell types since =
    sum_where
      (λ (t : CreditTransaction).
        t.cell_id == cell && (types t.transaction_type && since_ok since t.created_at))
      (λ t. t.amount_credits)

unfoldable pub get_balance : ℕ → List CreditTransaction → ℤ
unfolding sum_credits
get_balance cell rows =
    sum_credits cell is_credit_type none rows -ℤ sum_credits cell is_debit_type none rows

unfoldable pub get_period_usage : ℕ → ℕ → List CreditTransaction → ℤ
unfolding sum_credits
get_period_usage cell period_start rows = sum_credits cell is_debit_type (some period_start) rows

-- Midnight UTC of the day of `now`.
abbrev pub day_start : ℕ → ℕ
day_start now = now / 86400000000 * 86400000000

unfoldable pub get_daily_usage : ℕ → ℕ → List CreditTransaction → ℤ
unfolding sum_credits
get_daily_usage cell now rows = sum_credits cell is_debit_type (some (day_start now)) rows
