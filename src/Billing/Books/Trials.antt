-- ===== src/Billing/Books/Trials.antt =====
-- Trials and plan changes of subscription_service.py, seen by the next request.
use oriion.Prelude.{
  ℕ, ◌≤◌, ◌≡◌, refl, ap, ◌∙◌, String, Bool, true, false, Option, none, some, List, [], ◌∷◌, ◌++◌,
  ==_refl, arith, find, count_if, if◌then◌else◌, Result, ok,
}
use oriion.Prelude.Int.{ℤ, pos, ltb_ℤ}
use oriion.Billing.Ledger.{credit}
use oriion.Billing.Subscriptions.{
  Plan, Subscription, BillingDb, BillingError, is_active_of, get_active_by_cell, get_plan,
  create_subscription, cancel_existing, record_grant, start_trial, start_trial_from,
  grant_plan_trial, assign_plan, assign_found,
}
use oriion.Billing.Books.Plans.{plans_of, cancel_existing-lt}

abbrev accepted : Subscription → Result BillingError Subscription
accepted s = ok s

ok_inj : (a b : Subscription) → accepted a ≡ accepted b → a ≡ b
ok_inj a b h = cc h

find-append_new :
    (p : Subscription → Bool) (xs : List Subscription) (s : Subscription)
    → count_if p xs ≡ 0
    → p s ≡ true
    → find p (xs ++ s ∷ []) ≡ some s
find-append_new p [] s h k = ground (arith, k)
find-append_new p (x ∷ xs) s h k = ground (arith, find-append_new p xs s)

count-none :
    (p : Subscription → Bool) (xs : List Subscription) → find p xs ≡ none → count_if p xs ≡ 0
count-none p [] h = refl
count-none p (x ∷ xs) h = ground (arith, count-none p xs)

-- What a later start makes of the tables that the first one left.
grant_plan_trial_again :
    (now id c later id' : ℕ) (o : Option Plan) (s : Subscription) (db : BillingDb)
    → get_active_by_cell c db ≡ none
    → (grant_plan_trial now id c o db).0 ≡ ok s
    → get_active_by_cell c (grant_plan_trial now id c o db).1 ≡ some s
unfolding grant_plan_trial get_active_by_cell create_subscription record_grant
grant_plan_trial_again now id c later id' none s db e h = ground arith
grant_plan_trial_again now id c later id' (some plan) s db e h =
    find-append_new (is_active_of c) db.subscriptions _
      (count-none (is_active_of c) db.subscriptions e) (ground (arith, ==_refl c))
    ∙ ap some (ok_inj _ s h)

start_trial_from_again :
    (now id c later id' : ℕ) (o : Option Subscription) (s : Subscription) (db : BillingDb)
    → get_active_by_cell c db ≡ o
    → (start_trial_from now id c o db).0 ≡ ok s
    → get_active_by_cell c (start_trial_from now id c o db).1 ≡ some s
unfolding start_trial_from
start_trial_from_again now id c later id' (some a) s db e h = e ∙ ap some (ok_inj a s h)
start_trial_from_again now id c later id' none s db e h =
    grant_plan_trial_again now id c later id' (get_plan "trial" db) s db e h

start_trial_from-found :
    (now id c : ℕ) (o : Option Subscription) (s : Subscription) (db : BillingDb)
    → o ≡ some s
    → start_trial_from now id c o db ≡ (ok s, db)
unfolding start_trial_from
start_trial_from-found now id c o s db e = ap (λ x. start_trial_from now id c x db) e

-- Where a trial start succeeds, a second one, at any time, gives the same subscription and writes
-- nothing: no second grant.
pub start_trial_again :
    (now id c later id' : ℕ) (s : Subscription) (db : BillingDb)
    → (start_trial now id c db).0 ≡ ok s
    → start_trial later id' c (start_trial now id c db).1 ≡ (ok s, (start_trial now id c db).1)
unfolding start_trial
start_trial_again now id c later id' s db h =
    start_trial_from-found later id' c _ s _
      (start_trial_from_again now id c later id' (get_active_by_cell c db) s db refl h)

grant_if_found :
    (b : Bool) (now c cell : ℕ) (amount : ℤ) (o : Option Subscription) (db : BillingDb)
    → get_active_by_cell cell db ≡ o
    → get_active_by_cell cell (if b then record_grant now c amount credit db else db) ≡ o
unfolding get_active_by_cell record_grant
grant_if_found true now c cell amount o db h = h
grant_if_found false now c cell amount o db h = h

assign_found_active :
    (now id c : ℕ) (slug : String) (o : Option Plan) (s : Subscription) (db : BillingDb)
    → plans_of c db ≤ 1
    → (assign_found now id c slug o db).0 ≡ ok s
    → get_active_by_cell c (assign_found now id c slug o db).1 ≡ some s
unfolding assign_found create_subscription get_active_by_cell
assign_found_active now id c slug none s db h e = ground arith
assign_found_active now id c slug (some plan) s db h e =
    let db₁ = cancel_existing (get_active_by_cell c db) db in
    grant_if_found (ltb_ℤ (pos 0) plan.included_credits) now c c plan.included_credits (some s) _ (
      find-append_new (is_active_of c) db₁.subscriptions _
        (cancel_existing-lt (get_active_by_cell c db) c db refl h) (ground (arith, ==_refl c))
      ∙ ap some (ok_inj _ s e))

-- Where a cell has at most one plan that is not cancelled, a plan change that succeeds makes the
-- subscription it returns the one that the cell's next request finds.
pub assign_plan_active :
    (now id c : ℕ) (slug : String) (s : Subscription) (db : BillingDb)
    → plans_of c db ≤ 1
    → (assign_plan now id c slug db).0 ≡ ok s
    → get_active_by_cell c (assign_plan now id c slug db).1 ≡ some s
unfolding assign_plan
assign_plan_active now id c slug s db h e =
    assign_found_active now id c slug (get_plan slug db) s db h e
