-- ===== src/Billing/Books/Sums.antt =====
-- The ledger's sums under an appended row.
use oriion.Prelude.{
  append_assoc, ℕ, ◌≡◌, sym, ap, Bool, true, false, ◌&&◌, none, List, [], ◌∷◌, ◌++◌, ◌==◌, arith,
  ◌∙◌,
}
use oriion.Prelude.Int.{ℤ, ◌+ℤ◌, ◌-ℤ◌, int_laws}
use oriion.Billing.Ledger.{
  CreditTransaction, TransactionType, debit, is_credit_type, is_debit_type, since_ok, sum_where,
  sum_credits, get_balance,
}
use oriion.Billing.Books.{Running}

+ℤ_swap : (a b c : ℤ) → (a +ℤ b) +ℤ c ≡ (a +ℤ c) +ℤ b
+ℤ_swap a b c = grind int_laws

module _ {ℓ} {A : Type ℓ} (p : A → Bool) (f : A → ℤ) where
  pub sum_where-hit :
      (xs : List A) (a : A) → p a ≡ true → sum_where p f (xs ++ a ∷ []) ≡ sum_where p f xs +ℤ f a
  sum_where-hit [] a h = ground (arith, h)
  sum_where-hit (x ∷ xs) a h =
      ground (arith, sum_where-hit xs a h, +ℤ_swap (sum_where p f xs) (f x) (f a))

  pub sum_where-miss :
      (xs : List A) (a : A) → p a ≡ false → sum_where p f (xs ++ a ∷ []) ≡ sum_where p f xs
  sum_where-miss [] a h = ground (arith, h)
  sum_where-miss (x ∷ xs) a h = ground (arith, sum_where-miss xs a h)

pub Running-append :
    (seen xs : List CreditTransaction) (t : CreditTransaction)
    → Running seen xs
    → t.balance_after_credits ≡ get_balance t.cell_id (seen ++ (xs ++ t ∷ []))
    → Running seen (xs ++ t ∷ [])
Running-append seen [] t r h = (h, tt)
Running-append seen (x ∷ xs) t (hx, r) h = (
  hx,
  Running-append (seen ++ x ∷ []) xs t r
      (h ∙ ap (get_balance t.cell_id) (sym (append_assoc seen (x ∷ []) (xs ++ t ∷ [])))),
)

module _ (cell : ℕ) (types : TransactionType → Bool) (xs : List CreditTransaction)
    (t : CreditTransaction) where
  pub sum_credits-hit :
      (t.cell_id == cell) ≡ true
      → types t.transaction_type ≡ true
      → sum_credits cell types none (xs ++ t ∷ [])
        ≡ sum_credits cell types none xs +ℤ t.amount_credits
  unfolding sum_credits
  sum_credits-hit h k =
      sum_where-hit
        (λ (u : CreditTransaction).
          u.cell_id == cell && (types u.transaction_type && since_ok none u.created_at))
        (λ u. u.amount_credits) xs t (ground (arith, h, k))

  pub sum_credits-miss :
      (t.cell_id == cell && types t.transaction_type) ≡ false
      → sum_credits cell types none (xs ++ t ∷ []) ≡ sum_credits cell types none xs
  unfolding sum_credits
  sum_credits-miss h =
      sum_where-miss
        (λ (u : CreditTransaction).
          u.cell_id == cell && (types u.transaction_type && since_ok none u.created_at))
        (λ u. u.amount_credits) xs t (ground (arith, h))

sub_after : (a b c : ℤ) → a -ℤ (b +ℤ c) ≡ a -ℤ b -ℤ c
sub_after a b c = grind int_laws

add_before : (a b c : ℤ) → (a +ℤ c) -ℤ b ≡ (a -ℤ b) +ℤ c
add_before a b c = grind int_laws

module _ (cell : ℕ) (xs : List CreditTransaction) (t : CreditTransaction) where
  -- A row of another cell changes no sum of this one.
  pub get_balance-other :
      (t.cell_id == cell) ≡ false → get_balance cell (xs ++ t ∷ []) ≡ get_balance cell xs
  unfolding get_balance
  get_balance-other h = cc (
    sum_credits-miss cell is_credit_type xs t (ground (arith, h)),
    sum_credits-miss cell is_debit_type xs t (ground (arith, h)),
  )

  pub get_balance-debit :
      (t.cell_id == cell) ≡ true
      → t.transaction_type ≡ debit
      → get_balance cell (xs ++ t ∷ []) ≡ get_balance cell xs -ℤ t.amount_credits
  unfolding get_balance
  get_balance-debit h k = cc (
    sum_credits-miss cell is_credit_type xs t (ground (arith, h, k)),
    sum_credits-hit cell is_debit_type xs t h (ground (arith, h, k)),
    sub_after (sum_credits cell is_credit_type none xs) (sum_credits cell is_debit_type none xs)
        t.amount_credits,
  )

  pub get_balance-credit :
      (t.cell_id == cell) ≡ true
      → is_debit_type t.transaction_type ≡ false
      → get_balance cell (xs ++ t ∷ []) ≡ get_balance cell xs +ℤ t.amount_credits
  unfolding get_balance
  get_balance-credit h k = cc (
    sum_credits-hit cell is_credit_type xs t h (ground (arith, h, k)),
    sum_credits-miss cell is_debit_type xs t (ground (arith, h, k)),
    add_before (sum_credits cell is_credit_type none xs) (sum_credits cell is_debit_type none xs)
        t.amount_credits,
  )
