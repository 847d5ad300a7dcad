-- ===== src/Billing/Books/Admission.antt =====
-- What charging a call does to the admission check of quota_service.py.
use oriion.Prelude.{
  String, ℕ, ◌≡◌, refl, Bool, true, false, ◌&&◌, Option, none, some, List, [], ◌∷◌, ◌++◌, ◌==◌,
  arith, is_ok,
}
use oriion.Prelude.Int.{ℤ, pos, ◌+ℤ◌, ◌≤ℤ◌, int_laws}
use oriion.Billing.Ledger.{
  CreditTransaction, is_debit_type, since_ok, sum_where, sum_credits, get_period_usage,
  get_daily_usage, day_start,
}
use oriion.Billing.Subscriptions.{Plan, Subscription, BillingDb, get_active_by_cell, get_plan}
use oriion.Billing.Quota.{reached, admit_with, admit_cell, enforce_quota_admission}
use oriion.Billing.Cost.{LlmCall, record_llm_cost, debit_managed, log_usage}
use oriion.Billing.Pricing.{calculate_cost_usd_and_rub}

+ℤ_mono : (a b c : ℤ) → a ≤ℤ b → (a +ℤ c) ≤ℤ (b +ℤ c)
+ℤ_mono a b c h = grind int_laws

+ℤ_grows : (a : ℤ) (n : ℕ) → a ≤ℤ (a +ℤ pos n)
+ℤ_grows a n = grind int_laws

module _ {ℓ} {A : Type ℓ} (p : A → Bool) (f : A → ℤ) where
  sum_where-grows :
      (xs : List A) (a : A) (n : ℕ) → f a ≡ pos n → sum_where p f xs ≤ℤ sum_where p f (xs ++ a ∷ [])
  sum_where-grows [] a n h = ground (arith, h, +ℤ_grows (pos 0) n)
  sum_where-grows (x ∷ xs) a n h = ground (
    arith,
    sum_where-grows xs a n h,
    +ℤ_mono (sum_where p f xs) (sum_where p f (xs ++ a ∷ [])) (f x),
  )

reached_mono : (cap : Option ℤ) (u v : ℤ) → u ≤ℤ v → reached cap u ≡ true → reached cap v ≡ true
reached_mono none u v h e = ground arith
reached_mono (some cap) u v h e = ground arith

admit_with_mono :
    (period period' daily daily' : ℤ) (o : Option Plan)
    → period ≤ℤ period'
    → daily ≤ℤ daily'
    → is_ok (admit_with period daily o) ≡ false
    → is_ok (admit_with period' daily' o) ≡ false
unfolding admit_with
admit_with_mono period period' daily daily' none h k e = ground arith
admit_with_mono period period' daily daily' (some plan) h k e = ground (
  arith,
  e,
  reached_mono plan.per_day_cap_credits daily daily' k,
  reached_mono plan.hard_cap_credits period period' h,
)

-- The tables after the rows of one charge.
abbrev charged : ℕ → ℕ → ℕ → ℕ → Option ℕ → BillingDb → BillingDb
charged at c rub usd key db = debit_managed at c (pos rub) key (
    log_usage (record { cell_id = c; byok_key_id = key; cost_rub = pos rub; cost_usd = pos usd })
      db)

module _ (at c rub usd : ℕ) where
  sum_credits-charge :
      (key : Option ℕ) (cell : ℕ) (since : Option ℕ) (db : BillingDb)
      → sum_credits cell is_debit_type since db.transactions
        ≤ℤ sum_credits cell is_debit_type since (charged at c rub usd key db).transactions
  unfolding sum_credits debit_managed log_usage
  sum_credits-charge (some k) cell since db = omega arith
  sum_credits-charge none cell since db =
      sum_where-grows
        (λ (t : CreditTransaction).
          t.cell_id == cell && (is_debit_type t.transaction_type && since_ok since t.created_at))
        (λ t. t.amount_credits) db.transactions _ rub refl

  charged-active :
      (key : Option ℕ) (cell : ℕ) (db : BillingDb)
      → get_active_by_cell cell (charged at c rub usd key db) ≡ get_active_by_cell cell db
  unfolding debit_managed log_usage get_active_by_cell
  charged-active none cell db = refl
  charged-active (some k) cell db = refl

  charged-plan :
      (key : Option ℕ) (slug : String) (db : BillingDb)
      → get_plan slug (charged at c rub usd key db) ≡ get_plan slug db
  unfolding debit_managed log_usage get_plan
  charged-plan none slug db = refl
  charged-plan (some k) slug db = refl

  admit_cell_mono :
      (now cell : ℕ) (key : Option ℕ) (o : Option Subscription) (db : BillingDb)
      → is_ok (admit_cell now cell o db) ≡ false
      → is_ok (admit_cell now cell o (charged at c rub usd key db)) ≡ false
  unfolding admit_cell get_period_usage get_daily_usage
  admit_cell_mono now cell key none db e = ground arith
  admit_cell_mono now cell key (some s) db e = rw (charged-plan key s.plan_slug db) (
      admit_with_mono _ _ _ _ (get_plan s.plan_slug db)
        (sum_credits-charge key cell (some s.period_start) db)
        (sum_credits-charge key cell (some (day_start now)) db) e)

-- A charge never opens the admission check: what it refuses at a time it still refuses at that time
-- after any call, of any cell and at any price, has been recorded.
pub charge_keeps_refusal :
    (now at fx cell : ℕ) (call : LlmCall) (db : BillingDb)
    → is_ok (enforce_quota_admission now cell db) ≡ false
    → is_ok (enforce_quota_admission now cell (record_llm_cost at fx call db).1) ≡ false
unfolding enforce_quota_admission record_llm_cost
charge_keeps_refusal now at fx cell call db e =
    let (usd, rub) =
      calculate_cost_usd_and_rub call.provider call.model call.tokens_in call.tokens_out fx in
    rw (charged-active at call.cell_id rub usd call.byok_key_id cell db) (
      admit_cell_mono at call.cell_id rub usd now cell call.byok_key_id (get_active_by_cell cell db)
        db e)
