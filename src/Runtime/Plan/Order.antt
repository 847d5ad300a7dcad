-- ===== src/Runtime/Plan/Order.antt =====
-- What the order of a plan's steps holds, each number once, whatever the dependencies.
use oriion.Prelude.{
  ℕ, zero, suc, ◌≡◌, refl, sym, Bool, true, false, List, [], ◌∷◌, ◌++◌, any, elem, length, ◌==◌,
  if◌then◌else◌, All, arith, count_if, Bool-cases, inl, inr, ==_refl,
}
use oriion.Prelude.Rows.{count_if-append}
use oriion.Runtime.Plan.{DelegationStep, Visiting, enter, leave, visit, visit_all, ordered_steps}
use oriion.Runtime.Plan.Visits.{
  numbered, ==_eq, visit_deps-keeps, visit-keeps, visit_all-keeps, IsVisited, visit-grows,
  visit-visits, unvisited_yet,
}

-- The numbers visited, of a plan, are in progress or stand in the order once.
module _ (steps : List DelegationStep) where
  abbrev pub has : ℕ → Bool
  has n = any (numbered n) steps

  pub record Traced (st : List ℕ) (v : Visiting) : Type 0 where
    pub once :
        (n : ℕ)
        → count_if (numbered n) v.order
          ≡ (if elem n v.visited then (if elem n st then 0 else 1) else 0)
    pub opened : (n : ℕ) → elem n st ≡ true → elem n v.visited ≡ true
    pub known : (n : ℕ) → elem n v.visited ≡ true → has n ≡ true

  abbrev pub InPlan : DelegationStep → Type 0
  InPlan s = has s.step ≡ true

  pub enter-Traced :
      (st : List ℕ) (s : DelegationStep) (v : Visiting)
      → InPlan s
      → elem s.step v.visited ≡ false
      → Traced st v
      → Traced (s.step ∷ st) (enter s v)
  unfolding enter
  enter-Traced st s v p x t = record {
    once = λ n. ground (arith, t.once n, ==_refl n);
    opened = λ n h. ground (arith, t.opened n);
    known = λ n h. ground (arith, t.known n, p);
  }

  pub leave-Traced :
      (st : List ℕ) (s : DelegationStep) (v : Visiting)
      → InPlan s
      → elem s.step st ≡ false
      → Traced (s.step ∷ st) v
      → Traced st (leave s v)
  unfolding leave
  leave-Traced st s v p x t = record {
    once = λ n. ground (arith, t.once n, t.opened n, count_if-append (numbered n) v.order (s ∷ []));
    opened = λ n h. ground (arith, t.opened n, h);
    known = t.known;
  }

  cut-Traced : (st : List ℕ) (v : Visiting) → Traced st v → Traced st (record v { cut_off = true })
  cut-Traced st v t = record { once = t.once; opened = t.opened; known = t.known }

  pub visit-Traced :
      (fuel : ℕ) (st : List ℕ)
      → All InPlan steps
      → (s : DelegationStep) (v : Visiting) → InPlan s
      → Traced st v
      → Traced st (visit fuel steps s v)
  visit-Traced fuel st =
      visit-keeps Traced InPlan enter-Traced leave-Traced (λ st v n t. t.opened n) cut-Traced fuel
        steps st

  pub visit_all-Traced :
      (fuel : ℕ) (st : List ℕ)
      → All InPlan steps
      → (rest : List DelegationStep) (v : Visiting) → All InPlan rest
      → Traced st v
      → Traced st (visit_all fuel steps rest v)
  visit_all-Traced fuel st =
      visit_all-keeps Traced InPlan enter-Traced leave-Traced (λ st v n t. t.opened n) cut-Traced
        fuel steps st

pub start-Traced : (steps : List DelegationStep) → Traced steps [] unvisited_yet
start-Traced steps = record {
  once = λ n. refl;
  opened = λ n h. ground arith;
  known = λ n h. ground arith;
}

-- What a longer plan holds.
InPlan-cons :
    (s : DelegationStep) (steps rest : List DelegationStep)
    → All (InPlan steps) rest
    → All (InPlan (s ∷ steps)) rest
InPlan-cons s steps [] h = tt
InPlan-cons s steps (r ∷ rest) h = (ground (arith, h.0), InPlan-cons s steps rest h.1)

pub all-InPlan : (steps : List DelegationStep) → All (InPlan steps) steps
all-InPlan [] = tt
all-InPlan (s ∷ steps) =
    (ground (arith, ==_refl s.step), InPlan-cons s steps steps (all-InPlan steps))

visit_all-grows :
    (n fuel : ℕ) (steps rest : List DelegationStep) (v : Visiting)
    → IsVisited n v
    → IsVisited n (visit_all fuel steps rest v)
unfolding visit_all
visit_all-grows n fuel steps [] v h = h
visit_all-grows n fuel steps (s ∷ rest) v h =
    visit_all-grows n fuel steps rest _ (visit-grows n fuel steps s v h)

visit_all-visits :
    (n fuel : ℕ) (steps rest : List DelegationStep) (v : Visiting)
    → has rest n ≡ true
    → IsVisited n (visit_all (suc fuel) steps rest v)
unfolding visit_all
visit_all-visits n fuel steps [] v h = ground (arith, h)
visit_all-visits n fuel steps (s ∷ rest) v h = elim (Bool-cases (s.step == n)) [
  | inl y ↦ visit_all-grows n (suc fuel) steps rest _ (first (==_eq s.step n y))
  | inr x ↦ visit_all-visits n fuel steps rest _ (ground (arith, h, x))
]
  where
    first : s.step ≡ n → IsVisited n (visit (suc fuel) steps s v)
    first e = rw (sym e) (visit-visits fuel steps s v)

-- Whatever the dependencies, cyclic ones and ones on absent steps included: for each number that a
-- step of the plan has, the order holds exactly one step of that number, and for any other number none.
pub ordered_steps-once :
    (steps : List DelegationStep) (n : ℕ)
    → count_if (numbered n) (ordered_steps steps) ≡ (if any (numbered n) steps then 1 else 0)
unfolding ordered_steps
ordered_steps-once steps n =
    let t =
      visit_all-Traced steps (suc (length steps)) [] (all-InPlan steps) steps unvisited_yet
        (all-InPlan steps) (start-Traced steps) in
    let seen = visit_all-visits n (length steps) steps steps unvisited_yet in
    ground (arith, t.once n, t.known n, seen)

All-snoc :
    (Q : DelegationStep → Type 0) (xs : List DelegationStep) (s : DelegationStep)
    → All Q xs
    → Q s
    → All Q (xs ++ s ∷ [])
All-snoc Q [] s h q = (q, tt)
All-snoc Q (x ∷ xs) s h q = (h.0, All-snoc Q xs s h.1 q)

module _ (Q : DelegationStep → Type 0) (steps : List DelegationStep) (all : All Q steps) where
  visit-All :
      (fuel : ℕ) (s : DelegationStep) (v : Visiting)
      → Q s
      → All Q v.order
      → All Q (visit fuel steps s v).order
  unfolding visit enter leave
  visit-All zero s v q h = h
  visit-All (suc fuel) s v q h = elim (Bool-cases (elem s.step v.visited)) [
    | inl y ↦ rw (y, visit) h
    | inr x ↦
        rw (x, visit)
          (All-snoc Q _ s
            (visit_deps-keeps (λ v. All Q v.order) Q (visit fuel steps) (visit-All fuel) steps
              s.depends_on (enter s v) all h)
            q)
  ]

  visit_all-All :
      (fuel : ℕ) (rest : List DelegationStep) (v : Visiting)
      → All Q rest
      → All Q v.order
      → All Q (visit_all fuel steps rest v).order
  unfolding visit_all
  visit_all-All fuel [] v p h = h
  visit_all-All fuel (s ∷ rest) v p h =
      visit_all-All fuel rest (visit fuel steps s v) p.1 (visit-All fuel s v p.0 h)

  -- The steps of the order are steps of the plan.
  pub ordered_steps-All : All Q (ordered_steps steps)
  unfolding ordered_steps
  ordered_steps-All = visit_all-All (suc (length steps)) steps unvisited_yet all tt
