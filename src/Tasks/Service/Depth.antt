-- ===== src/Tasks/Service/Depth.antt =====
-- The depth limit of create_task, measured on the table that it leaves.
use oriion.Prelude.{
  ℕ, zero, suc, ◌≤◌, ◌<◌, ◌≡◌, ◌⊎◌, refl, ap, ◌∙◌, inl, inr, String, Bool, false, Option, none,
  some, List, [], ◌∷◌, ◌++◌, ◌==◌, ==_refl, leb, All, find, arith, ok, Bool-cases,
}
use oriion.Tasks.Tree.{Task, parent_in}
use oriion.Tasks.Service.{
  TaskDb, OutboxEvent, add_task, add_outbox_event, get, parent_of, parent_id, climb, steps_up,
  depth_from_root, too_deep, create_task,
}

-- No row has the id, as its own or as its parent.
abbrev pub IsUnknown : ℕ → List Task → Type 0
IsUnknown id =
    All (λ (t : Task). ((t.id == id) ≡ false) × (parent_in (id ∷ []) t.parent_task_id ≡ false))

find-miss :
    (p : Task → Bool) (xs : List Task) (a : Task) → p a ≡ false → find p (xs ++ a ∷ []) ≡ find p xs
find-miss p [] a h = ground (arith, h)
find-miss p (x ∷ xs) a h = ground (arith, find-miss p xs a h)

find-hit :
    (id : ℕ) (xs : List Task) (a : Task)
    → IsUnknown id xs
    → a.id ≡ id
    → find (λ (t : Task). t.id == id) (xs ++ a ∷ []) ≡ some a
find-hit id [] a h e = ground (arith, ==_refl id)
find-hit id (x ∷ xs) a h e = ground (arith, h, find-hit id xs a h.1 e)

parent_known :
    (id at q : ℕ) (ts : List Task)
    → IsUnknown id ts
    → parent_of (find (λ (t : Task). t.id == at) ts) ≡ some q
    → (q == id) ≡ false
unfolding parent_of
parent_known id at q [] h e = ground arith
parent_known id at q (t ∷ ts) h e = ground (arith, h, parent_known id at q ts h.1)

climb_same :
    (f g : ℕ → ℕ) (o : Option ℕ) → ((q : ℕ) → o ≡ some q → f q ≡ g q) → climb f o ≡ climb g o
unfolding climb
climb_same f g none h = refl
climb_same f g (some q) h = ap (λ n. suc n) (h q refl)

climb_le : {f g : ℕ → ℕ} (o : Option ℕ) → ((q : ℕ) → f q ≤ g q) → climb f o ≤ climb g o
unfolding climb
climb_le none h = omega arith
climb_le (some q) h = omega (arith, h q)

steps_up_mono : (k at : ℕ) (db : TaskDb) → steps_up k at db ≤ steps_up (suc k) at db
unfolding steps_up
steps_up_mono zero at db = omega arith
steps_up_mono (suc k) at db = climb_le (parent_id at db) (λ q. steps_up_mono k q db)

module _ (t : Task) (db : TaskDb) (h : IsUnknown t.id db.tasks) where
  parent_id_kept : (at : ℕ) → (at == t.id) ≡ false → parent_id at (add_task t db) ≡ parent_id at db
  unfolding parent_id add_task get
  parent_id_kept at n =
      ap parent_of (find-miss (λ (u : Task). u.id == at) db.tasks t (ground (arith, n)))

  parent_id_known : (at q : ℕ) → parent_id at db ≡ some q → (q == t.id) ≡ false
  unfolding parent_id get
  parent_id_known at q e = parent_known t.id at q db.tasks h e

  parent_id_new : parent_id t.id (add_task t db) ≡ t.parent_task_id
  unfolding parent_id add_task get parent_of
  parent_id_new = ap parent_of (find-hit t.id db.tasks t h refl)

  steps_up_kept :
      (k at : ℕ) → (at == t.id) ≡ false → steps_up k at (add_task t db) ≡ steps_up k at db
  unfolding steps_up
  steps_up_kept zero at n = refl
  steps_up_kept (suc k) at n = rw (parent_id_kept at n) (
      climb_same (λ p. steps_up k p (add_task t db)) (λ p. steps_up k p db) (parent_id at db)
        (λ q e. steps_up_kept k q (parent_id_known at q e)))

  -- The walk from the new row goes to its parent first.
  steps_up_new :
      (k p : ℕ)
      → t.parent_task_id ≡ some p
      → (p == t.id) ≡ false
      → steps_up (suc k) t.id (add_task t db) ≡ suc (steps_up k p db)
  unfolding steps_up climb
  steps_up_new k p e n =
      ap (climb (λ q. steps_up k q (add_task t db))) (parent_id_new ∙ e)
      ∙ ap (λ m. suc m) (steps_up_kept k p n)

  depth_new :
      (p : ℕ)
      → t.parent_task_id ≡ some p
      → (p == t.id) ≡ false
      → depth_from_root t.id (add_task t db) ≤ suc (depth_from_root p db)
  unfolding depth_from_root
  depth_new p e n = omega (arith, steps_up_new 9 p e n, steps_up_mono 9 p db)

parent_found :
    (id p : ℕ) (t : Task) (db : TaskDb)
    → find (λ (u : Task). u.id == id) db.tasks ≡ some t
    → t.parent_task_id ≡ some p
    → parent_id id db ≡ some p
unfolding parent_id get parent_of
parent_found id p t db found e = ap parent_of found ∙ e

parent_id_event :
    (e : OutboxEvent) (id : ℕ) (db : TaskDb)
    → parent_id id (add_outbox_event e db) ≡ parent_id id db
unfolding parent_id get add_outbox_event
parent_id_event e id db = refl

steps_up_event :
    (e : OutboxEvent) (k id : ℕ) (db : TaskDb)
    → steps_up k id (add_outbox_event e db) ≡ steps_up k id db
unfolding steps_up
steps_up_event e zero id db = refl
steps_up_event e (suc k) id db = rw (parent_id_event e id db) (
    climb_same (λ p. steps_up k p (add_outbox_event e db)) (λ p. steps_up k p db) (parent_id id db)
      (λ q h. steps_up_event e k q db))

depth_event :
    (e : OutboxEvent) (id : ℕ) (db : TaskDb)
    → depth_from_root id (add_outbox_event e db) ≡ depth_from_root id db
unfolding depth_from_root
depth_event e id db = ap (λ m. suc m) (steps_up_event e 10 id db)

depth_added :
    (e : OutboxEvent) (t : Task) (p max : ℕ) (db : TaskDb)
    → IsUnknown t.id db.tasks
    → t.parent_task_id ≡ some p
    → (p == t.id) ≡ false
    → leb max (depth_from_root p db) ≡ false
    → depth_from_root t.id (add_outbox_event e (add_task t db)) ≤ max
depth_added e t p max db h k n shallow =
    rw (depth_event e t.id (add_task t db)) (ground (arith, shallow, depth_new t db h p k n))

create_task_depth :
    (id cell user : ℕ) (title prompt : String) (p max : ℕ) (t : Task) (db : TaskDb)
    → IsUnknown id db.tasks
    → (p == id) ≡ false
    → (create_task id cell user title prompt (some p) max db).0 ≡ ok t
    → depth_from_root id (create_task id cell user title prompt (some p) max db).1 ≤ max
unfolding create_task too_deep
create_task_depth id cell user title prompt p max t db h n e =
    elim (Bool-cases (leb max (depth_from_root p db))) [
      | inl deep ↦ ground (arith, e, deep)
      | inr shallow ↦ rw shallow (depth_added _ _ p max db h refl n shallow)
    ]

-- A way up the rows by their parent links, from a task over `n` rows, itself included; the last may have
-- a parent again.
pub data Above (ts : List Task) : ℕ → ℕ → Type 0 where
  stays : (id : ℕ) → Above ts id 1
  goes_up :
      (id p n : ℕ) (t : Task)
      → find (λ (u : Task). u.id == id) ts ≡ some t
      → t.parent_task_id ≡ some p
      → Above ts p n
      → Above ts id (suc n)

-- The bounded walk counts the whole of a way up, or it has taken all its steps.
counted_or_full :
    (db : TaskDb) (k id n : ℕ)
    → Above db.tasks id n
    → (n ≤ suc (steps_up k id db)) ⊎ (k ≤ steps_up k id db)
unfolding steps_up
counted_or_full db zero id n a = inr (omega arith)
counted_or_full db (suc k) id n (stays i) = inl (omega arith)
counted_or_full db (suc k) id n (goes_up i p m t found e a) =
    rw (parent_found i p t db found e) (one_more (counted_or_full db k p m a))
  where
    one_more :
        ((m ≤ suc (steps_up k p db)) ⊎ (k ≤ steps_up k p db))
        → (suc m ≤ suc (climb (λ q. steps_up k q db) (some p)))
          ⊎ (suc k ≤ climb (λ q. steps_up k q db) (some p))
    one_more (inl h) = inl (omega (arith, h))
    one_more (inr h) = inr (omega (arith, h))

-- Where the new id is no row's id nor parent and is not the parent asked for, and the limit is below the
-- eleven rows at which the walk stops: above a task that create_task accepts under a parent, no way up
-- the parent links of the table that it leaves has more rows than the limit.
pub create_task-Shallow :
    (id cell user : ℕ) (title prompt : String) (p max : ℕ) (t : Task) (db : TaskDb)
    → IsUnknown id db.tasks
    → (p == id) ≡ false
    → max < 11
    → (create_task id cell user title prompt (some p) max db).0 ≡ ok t
    → (n : ℕ) → Above (create_task id cell user title prompt (some p) max db).1.tasks id n
    → n ≤ max
create_task-Shallow id cell user title prompt p max t db h k small e n a =
    let db' = (create_task id cell user title prompt (some p) max db).1 in
    bounded (counted_or_full db' 10 id n a)
      (unfold depth_from_root in create_task_depth id cell user title prompt p max t db h k e)
  where
    bounded : {m s : ℕ} → ((m ≤ suc s) ⊎ (10 ≤ s)) → suc s ≤ max → m ≤ max
    bounded (inl x) y = omega (arith, x, y)
    bounded (inr x) y = absurd (omega (arith, x, y, small))
