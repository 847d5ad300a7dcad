-- ===== src/Tasks/Service/Cancel.antt =====
-- What cancelling a task does to the tree under it.
use oriion.Prelude.{
  ℕ, ◌≡◌, refl, inl, inr, ◌↔◌, true, false, not, ◌&&◌, Option, none, some, List, [], ◌∷◌, ◌++◌,
  elem, update_if, arith, Result, ok, err, Bool-cases,
}
use oriion.Tasks.Tree.{Task, cancelled, is_terminal, descendant_ids}
use oriion.Tasks.Tree.Descent.{Descends, Lists, descendant_ids-Lists}
use oriion.Tasks.Service.{
  TaskDb, task_cancelled, get, cancel_cascade, cancel_with, cancel_found, cancel_task,
  add_outbox_event, TaskError,
}

-- How one row of the table has changed: a task under the root that was not terminal is cancelled at
-- `now`, and any other row is as it was.
abbrev pub IsCancelled : ℕ → List Task → ℕ → Task → Task → Type 0
IsCancelled now tasks root t u =
    (Descends tasks root t.id
      → is_terminal t.status ≡ false
      → u ≡ record t { status = cancelled; completed_at = some now })
    × (is_terminal t.status ≡ true → u ≡ t)
    × ((Descends tasks root t.id → ⊥) → u ≡ t)

-- The rows of two tables, pairwise.
abbrev pub Rowwise : (Task → Task → Type 0) → List Task → List Task → Type 0
Rowwise R [] [] = Unit
Rowwise R [] (u ∷ us) = ⊥
Rowwise R (t ∷ ts) [] = ⊥
Rowwise R (t ∷ ts) (u ∷ us) = R t u × Rowwise R ts us

cascade_rows :
    (now : ℕ) (tasks : List Task) (root : ℕ) (ids : List ℕ)
    → ((x : ℕ) → elem x (root ∷ ids) ≡ true ↔ Descends tasks root x)
    → (ts : List Task)
    → Rowwise (IsCancelled now tasks root) ts (
        update_if
          (λ (t : Task). elem t.id (root ∷ ids) && not (is_terminal t.status))
          (λ t. record t { status = cancelled; completed_at = some now })
          ts)
cascade_rows now tasks root ids h [] = tt
cascade_rows now tasks root ids h (t ∷ ts) = (
  elim (Bool-cases (elem t.id (root ∷ ids))) [
    | inl under ↦ (
      λ d e. ground (arith, under, e),
      λ e. ground (arith, e),
      λ n. absurd (n ((h t.id).0 under)),
    )
    | inr out ↦
        (λ d e. ground (arith, out, (h t.id).1 d), λ e. ground (arith, e), λ n. ground (arith, out))
  ],
  cascade_rows now tasks root ids h ts,
)

abbrev pub CancelsUnder : ℕ → ℕ → TaskDb → Result TaskError (List ℕ) × TaskDb → Type 0
CancelsUnder now id db (err e, db') = ⊥
CancelsUnder now id db (ok ids, db') =
    Lists db.tasks id (some ids)
    × Rowwise (IsCancelled now db.tasks id) db.tasks db'.tasks
    × (db'.outbox ≡ db.outbox ++ task_cancelled id ids ∷ [])

cancel_with-CancelsUnder :
    (now id : ℕ) (o : Option (List ℕ)) (db : TaskDb)
    → Lists db.tasks id o
    → CancelsUnder now id db (cancel_with now id o db)
unfolding cancel_with cancel_cascade add_outbox_event
cancel_with-CancelsUnder now id none db l = l
cancel_with-CancelsUnder now id (some ids) db l =
    (l, cascade_rows now db.tasks id ids l db.tasks, refl)

cancel_found-CancelsUnder :
    (now id : ℕ) (o : Option Task) (t : Task) (db : TaskDb)
    → o ≡ some t
    → is_terminal t.status ≡ false
    → CancelsUnder now id db (cancel_found now id o db)
unfolding cancel_found
cancel_found-CancelsUnder now id o t db e h =
    rw (e, cancel_found)
      (rw h (
        cancel_with-CancelsUnder now id (descendant_ids db.tasks id) db
          (descendant_ids-Lists db.tasks id)))

-- Cancelling a task that is not terminal succeeds on every table: it returns the ids of the tasks
-- under it; every task under it that was not terminal is cancelled at that time, every other row
-- is unchanged; and one event with the returned ids is appended to the outbox.
pub cancel_task-CancelsUnder :
    (now id : ℕ) (t : Task) (db : TaskDb)
    → get id db ≡ some t
    → is_terminal t.status ≡ false
    → CancelsUnder now id db (cancel_task now id db)
unfolding cancel_task
cancel_task-CancelsUnder now id t db e h = cancel_found-CancelsUnder now id (get id db) t db e h
