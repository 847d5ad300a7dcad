-- ===== src/Tasks/Tree/Descent.antt =====
-- The search for descendants: it stops on any table, and finds the descendants and nothing else.
use oriion.Prelude.{
  ℕ, zero, suc, ◌≤◌, ◌<◌, ◌≡◌, refl, sym, ap, ◌∙◌, ◌↔◌, inl, inr, Bool, true, false, not, ◌&&◌,
  ◌||◌, Option, none, some, List, [], ◌∷◌, ◌++◌, ◌==◌, ==_refl, append_assoc, elem, any, count_if,
  keep_if, length, arith, Bool-cases,
}
use mathlib.Core.Path.{subst}
use oriion.Tasks.Tree.{
  Task, parent_in, children, fresh_children, prepend, descend_on, descend, descendant_ids,
}

-- Some row has the id `x` and the parent `p`.
abbrev pub has_child : List Task → ℕ → ℕ → Bool
has_child tasks p x = any (λ (t : Task). t.id == x && parent_in (p ∷ []) t.parent_task_id) tasks

-- The task and everything under it in the table, through any number of parents.
pub data Descends (tasks : List Task) (root : ℕ) : ℕ → Type 0 where
  self : Descends tasks root root
  child : (p x : ℕ) → Descends tasks root p → has_child tasks p x ≡ true → Descends tasks root x

elem-append : (x : ℕ) (xs ys : List ℕ) → elem x (xs ++ ys) ≡ (elem x xs || elem x ys)
elem-append x [] ys = refl
elem-append x (y ∷ xs) ys = ground (arith, elem-append x xs ys)

elem-keep_if :
    (x : ℕ) (v xs : List ℕ)
    → elem x (keep_if (λ c. not (elem c v)) xs) ≡ (elem x xs && not (elem x v))
elem-keep_if x v [] = refl
elem-keep_if x v (y ∷ xs) = ground (arith, elem-keep_if x v xs)

children-has_child :
    (frontier : List ℕ) (tasks : List Task) (p x : ℕ)
    → elem p frontier ≡ true
    → has_child tasks p x ≡ true
    → elem x (children frontier tasks) ≡ true
unfolding children
children-has_child frontier [] p x h k = ground arith
children-has_child frontier (t ∷ ts) p x h k =
    ground (arith, h, k, children-has_child frontier ts p x h)

-- The row `x` has a parent on the frontier.
abbrev Parented : List ℕ → List Task → ℕ → Type 0
Parented frontier tasks x = (p : ℕ) × (elem p frontier ≡ true) × (has_child tasks p x ≡ true)

Parented-later :
    (frontier : List ℕ) (t : Task) (ts : List Task) (x : ℕ)
    → Parented frontier ts x
    → Parented frontier (t ∷ ts) x
Parented-later frontier t ts x (p, on, kin) = (p, on, ground (arith, kin))

Parented-first :
    (frontier : List ℕ) (t : Task) (ts : List Task) (x : ℕ) (o : Option ℕ)
    → t.parent_task_id ≡ o
    → parent_in frontier o ≡ true
    → (t.id == x) ≡ true
    → Parented frontier (t ∷ ts) x
Parented-first frontier t ts x none e h k = ground arith
Parented-first frontier t ts x (some q) e h k = (q, h, ground (arith, e, k, ==_refl q))

-- A child listed for a frontier has a parent on it.
children-parent :
    (frontier : List ℕ) (tasks : List Task) (x : ℕ)
    → elem x (children frontier tasks) ≡ true
    → Parented frontier tasks x
unfolding children
children-parent frontier [] x h = ground arith
children-parent frontier (t ∷ ts) x h =
    elim (Bool-cases (parent_in frontier t.parent_task_id && t.id == x)) [
      | inl here ↦
          Parented-first frontier t ts x t.parent_task_id refl (ground (arith, here))
            (ground (arith, here))
      | inr not_here ↦
          Parented-later frontier t ts x
            (children-parent frontier ts x (ground (arith, h, not_here)))
    ]

-- Rows that the search has not visited.
abbrev unvisited : List Task → List ℕ → ℕ
unvisited tasks visited = count_if (λ (t : Task). not (elem t.id visited)) tasks

unvisited-le :
    (tasks : List Task) (visited more : List ℕ)
    → unvisited tasks (visited ++ more) ≤ unvisited tasks visited
unvisited-le [] visited more = omega arith
unvisited-le (t ∷ ts) visited more =
    ground (arith, unvisited-le ts visited more, elem-append t.id visited more)

-- A fresh id is the id of a row.
unvisited-lt :
    (tasks : List Task) (visited frontier more : List ℕ) (x : ℕ)
    → elem x (children frontier tasks) ≡ true
    → elem x visited ≡ false
    → elem x more ≡ true
    → unvisited tasks (visited ++ more) < unvisited tasks visited
unfolding children
unvisited-lt [] visited frontier more x h k m = ground arith
unvisited-lt (t ∷ ts) visited frontier more x h k m = ground (
  arith,
  h,
  k,
  m,
  unvisited-le ts visited more,
  elem-append t.id visited more,
  unvisited-lt ts visited frontier more x,
)

-- What the search keeps: the children of what was visited before the frontier have been visited.
abbrev Explored : List Task → List ℕ → List ℕ → Type 0
Explored tasks visited frontier =
    (p x : ℕ)
    → elem p visited ≡ true
    → elem p frontier ≡ false
    → has_child tasks p x ≡ true
    → elem x visited ≡ true

-- A set of ids that no parent leads out of.
abbrev pub IsClosedUnder : List Task → List ℕ → Type 0
IsClosedUnder tasks ids =
    (p x : ℕ) → elem p ids ≡ true → has_child tasks p x ≡ true → elem x ids ≡ true

-- What the search finds from a state of it.
abbrev Finds : List Task → List ℕ → Option (List ℕ) → Type 0
Finds tasks visited none = ⊥
Finds tasks visited (some found) = IsClosedUnder tasks (visited ++ found)

elem-fresh :
    (tasks : List Task) (visited frontier : List ℕ) (x : ℕ)
    → elem x (fresh_children tasks visited frontier)
      ≡ (elem x (children frontier tasks) && not (elem x visited))
unfolding fresh_children
elem-fresh tasks visited frontier x = elem-keep_if x visited (children frontier tasks)

closed_at_end :
    (tasks : List Task) (visited frontier : List ℕ)
    → fresh_children tasks visited frontier ≡ []
    → Explored tasks visited frontier
    → IsClosedUnder tasks (visited ++ [])
closed_at_end tasks visited frontier e v p x h k = ground (
  arith,
  elem-append p visited [],
  elem-append x visited [],
  v p x,
  children-has_child frontier tasks p x,
  elem-fresh tasks visited frontier x,
)

Explored-next :
    (tasks : List Task) (visited frontier fresh : List ℕ)
    → fresh_children tasks visited frontier ≡ fresh
    → Explored tasks visited frontier
    → Explored tasks (visited ++ fresh) fresh
Explored-next tasks visited frontier fresh e v p x h n k = ground (
  arith,
  elem-append p visited fresh,
  elem-append x visited fresh,
  v p x,
  children-has_child frontier tasks p x,
  elem-fresh tasks visited frontier x,
)

fewer_next :
    (tasks : List Task) (visited frontier : List ℕ) (c : ℕ) (cs : List ℕ)
    → fresh_children tasks visited frontier ≡ c ∷ cs
    → unvisited tasks (visited ++ c ∷ cs) < unvisited tasks visited
fewer_next tasks visited frontier c cs e =
    let first : (elem c (children frontier tasks) && not (elem c visited)) ≡ true =
      sym (elem-fresh tasks visited frontier c) ∙ ap (elem c) e ∙ ground (arith, ==_refl c) in
    unvisited-lt tasks visited frontier (c ∷ cs) c (ground (arith, first)) (ground (arith, first))
      (ground (arith, ==_refl c))

prepend-Finds :
    (tasks : List Task) (visited fresh : List ℕ) (o : Option (List ℕ))
    → Finds tasks (visited ++ fresh) o
    → Finds tasks visited (prepend fresh o)
unfolding prepend
prepend-Finds tasks visited fresh none f = f
prepend-Finds tasks visited fresh (some found) f = λ p x h k.
    ap (elem x) (sym (append_assoc visited fresh found))
    ∙ f p x (ap (elem p) (append_assoc visited fresh found) ∙ h) k

descend_on-Finds :
    (n : ℕ) (tasks : List Task) (visited frontier fresh : List ℕ)
    → fresh_children tasks visited frontier ≡ fresh
    → unvisited tasks visited < suc n
    → Explored tasks visited frontier
    → ((v f : List ℕ)
        → unvisited tasks v < n
        → Explored tasks v f
        → Finds tasks v (descend n tasks v f))
    → Finds tasks visited (descend_on (descend n tasks) visited fresh)
unfolding descend_on
descend_on-Finds n tasks visited frontier [] e h v next = closed_at_end tasks visited frontier e v
descend_on-Finds n tasks visited frontier (c ∷ cs) e h v next =
    prepend-Finds tasks visited (c ∷ cs) (descend n tasks (visited ++ c ∷ cs) (c ∷ cs)) (
      next (visited ++ c ∷ cs) (c ∷ cs) (omega (arith, h, fewer_next tasks visited frontier c cs e))
        (Explored-next tasks visited frontier (c ∷ cs) e v))

descend-Finds :
    (n : ℕ) (tasks : List Task) (visited frontier : List ℕ)
    → unvisited tasks visited < n
    → Explored tasks visited frontier
    → Finds tasks visited (descend n tasks visited frontier)
unfolding descend
descend-Finds zero tasks visited frontier h v = ground arith
descend-Finds (suc n) tasks visited frontier h v =
    descend_on-Finds n tasks visited frontier (fresh_children tasks visited frontier) refl h v
      (λ w f. descend-Finds n tasks w f)

-- Everything found so far is under the root.
abbrev Under : List Task → ℕ → Option (List ℕ) → Type 0
Under tasks root none = Unit
Under tasks root (some found) = (x : ℕ) → elem x found ≡ true → Descends tasks root x

fresh-Under :
    (tasks : List Task) (root : ℕ) (visited frontier : List ℕ)
    → Under tasks root (some frontier)
    → Under tasks root (some (fresh_children tasks visited frontier))
fresh-Under tasks root visited frontier u = λ x h.
    let (p, on, kin) =
      children-parent frontier tasks x (ground (arith, h, elem-fresh tasks visited frontier x)) in
    child p x (u p on) kin

prepend-Under :
    (tasks : List Task) (root : ℕ) (fresh : List ℕ) (o : Option (List ℕ))
    → Under tasks root (some fresh)
    → Under tasks root o
    → Under tasks root (prepend fresh o)
unfolding prepend
prepend-Under tasks root fresh none u v = tt
prepend-Under tasks root fresh (some found) u v = λ x h. elim (Bool-cases (elem x fresh)) [
  | inl early ↦ u x early
  | inr late ↦ v x (ground (arith, h, late, elem-append x fresh found))
]

descend_on-Under :
    (n : ℕ) (tasks : List Task) (root : ℕ) (visited fresh : List ℕ)
    → Under tasks root (some fresh)
    → ((v f : List ℕ) → Under tasks root (some f) → Under tasks root (descend n tasks v f))
    → Under tasks root (descend_on (descend n tasks) visited fresh)
unfolding descend_on
descend_on-Under n tasks root visited [] u next = u
descend_on-Under n tasks root visited (c ∷ cs) u next =
    prepend-Under tasks root (c ∷ cs) (descend n tasks (visited ++ c ∷ cs) (c ∷ cs)) u
      (next (visited ++ c ∷ cs) (c ∷ cs) u)

descend-Under :
    (n : ℕ) (tasks : List Task) (root : ℕ) (visited frontier : List ℕ)
    → Under tasks root (some frontier)
    → Under tasks root (descend n tasks visited frontier)
unfolding descend
descend-Under zero tasks root visited frontier u = tt
descend-Under (suc n) tasks root visited frontier u =
    descend_on-Under n tasks root visited (fresh_children tasks visited frontier)
      (fresh-Under tasks root visited frontier u) (λ v f. descend-Under n tasks root v f)

Under-root : (tasks : List Task) (root : ℕ) → Under tasks root (some (root ∷ []))
Under-root tasks root x h =
    let e : root ≡ x = ground (arith, h) in subst (Descends tasks root) e self

unvisited-length : (tasks : List Task) (visited : List ℕ) → unvisited tasks visited ≤ length tasks
unvisited-length [] visited = omega arith
unvisited-length (t ∷ ts) visited = ground (arith, unvisited-length ts visited)

-- The ids are exactly those of the tasks under the root.
abbrev pub Lists : List Task → ℕ → Option (List ℕ) → Type 0
Lists tasks root none = ⊥
Lists tasks root (some ids) = (x : ℕ) → elem x (root ∷ ids) ≡ true ↔ Descends tasks root x

closed_reaches :
    (tasks : List Task) (root : ℕ) (ids : List ℕ)
    → IsClosedUnder tasks (root ∷ ids)
    → (x : ℕ) → Descends tasks root x
    → elem x (root ∷ ids) ≡ true
closed_reaches tasks root ids c _ self = ground (arith, ==_refl root)
closed_reaches tasks root ids c _ (child p x d k) = c p x (closed_reaches tasks root ids c p d) k

exact :
    (tasks : List Task) (root : ℕ) (o : Option (List ℕ))
    → Finds tasks (root ∷ []) o
    → Under tasks root o
    → Lists tasks root o
exact tasks root none f u = f
exact tasks root (some ids) f u = λ x. (
  λ h. elim (Bool-cases (elem x ids)) [
    | inl below ↦ u x below
    | inr top ↦ Under-root tasks root x (ground (arith, h, top))
  ],
  closed_reaches tasks root ids f x,
)

-- On every table, cyclic or with missing parents too, the search for the descendants of a task
-- stops; the task's own id with those found are exactly the tasks under it, through any number of
-- parents.
pub descendant_ids-Lists :
    (tasks : List Task) (root : ℕ) → Lists tasks root (descendant_ids tasks root)
unfolding descendant_ids
descendant_ids-Lists tasks root =
    exact tasks root (descend (suc (length tasks)) tasks (root ∷ []) (root ∷ []))
      (descend-Finds (suc (length tasks)) tasks (root ∷ []) (root ∷ [])
        (omega (arith, unvisited-length tasks (root ∷ []))) (λ p x h n k. ground (arith, h, n)))
      (descend-Under (suc (length tasks)) tasks root (root ∷ []) (root ∷ [])
        (Under-root tasks root))
