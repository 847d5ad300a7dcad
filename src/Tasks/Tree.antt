-- ===== src/Tasks/Tree.antt =====
-- tasks/models.py and the tree queries of tasks/services/repository.py. Ids are numbers, and the
-- table is the list of its rows.
pub mod Descent
use oriion.Prelude.{
  ℕ, zero, suc, ◌+◌, String, Bool, true, false, not, ◌&&◌, Option, none, some, List, [], ◌∷◌, ◌++◌,
  ◌==◌, elem, find, keep_if, length, if◌then◌else◌,
}

pub data TaskStatus : Type 0 where
  queued running waiting_input succeeded failed cancelled timed_out : TaskStatus

-- `TERMINAL_TASK_STATUSES`.
abbrev pub is_terminal : TaskStatus → Bool
is_terminal queued = false
is_terminal running = false
is_terminal waiting_input = false
is_terminal _ = true

pub record Task : Type 0 where
  pub id : ℕ
  pub cell_id : ℕ
  pub parent_task_id : Option ℕ
  pub initiated_by_user_id : ℕ
  pub title : String
  pub prompt : String
  pub status : TaskStatus
  pub completed_at : Option ℕ

-- `Task.parent_task_id.in_(frontier)`; NULL is in no list.
abbrev pub parent_in : List ℕ → Option ℕ → Bool
parent_in frontier none = false
parent_in frontier (some p) = elem p frontier

unfoldable pub children : List ℕ → List Task → List ℕ
children frontier [] = []
children frontier (t ∷ ts) =
    let rest = children frontier ts in
    if parent_in frontier t.parent_task_id then t.id ∷ rest else rest

-- `[c for c in children if c not in visited]`.
unfoldable pub fresh_children : List Task → List ℕ → List ℕ → List ℕ
unfolding children
fresh_children tasks visited frontier =
    keep_if (λ c. not (elem c visited)) (children frontier tasks)

prepend : List ℕ → Option (List ℕ) → Option (List ℕ)
prepend fresh none = none
prepend fresh (some rest) = some (fresh ++ rest)

-- The end of one round: stop where nothing is fresh, else go on with the fresh ids as the frontier.
descend_on : (List ℕ → List ℕ → Option (List ℕ)) → List ℕ → List ℕ → Option (List ℕ)
unfolding prepend
descend_on next visited [] = some []
descend_on next visited (c ∷ cs) = prepend (c ∷ cs) (next (visited ++ c ∷ cs) (c ∷ cs))

-- The loop, on fuel for its rounds.
unfoldable pub descend : ℕ → List Task → List ℕ → List ℕ → Option (List ℕ)
unfolding descend_on
descend zero tasks visited frontier = none
descend (suc n) tasks visited frontier =
    descend_on (descend n tasks) visited (fresh_children tasks visited frontier)

unfoldable pub descendant_ids : List Task → ℕ → Option (List ℕ)
descendant_ids tasks root = descend (suc (length tasks)) tasks (root ∷ []) (root ∷ [])
