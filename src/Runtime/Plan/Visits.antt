-- ===== src/Runtime/Plan/Visits.antt =====
-- What a visit keeps, and what it visits.
use oriion.Prelude.{
  ℕ, zero, suc, ◌≡◌, Bool, true, false, Option, none, some, List, [], ◌∷◌, elem, ◌==◌, All, arith,
  Bool-cases, inl, inr, ==_refl,
}
use oriion.Runtime.Plan.{
  DelegationStep, Visiting, or_else, by_num, visit_dep, visit_deps, enter, leave, visit, visit_all,
}

abbrev pub numbered : ℕ → DelegationStep → Bool
numbered n s = s.step == n

pub ==_eq : (a b : ℕ) → (a == b) ≡ true → a ≡ b
==_eq a b h = ground arith

-- A condition on what a search finds, if it finds something.
abbrev pub OnSome : (DelegationStep → Type 0) → Option DelegationStep → Type 0
OnSome P none = Unit
OnSome P (some s) = P s

pub or_else-OnSome :
    (P : DelegationStep → Type 0) (a b : Option DelegationStep)
    → OnSome P a
    → OnSome P b
    → OnSome P (or_else a b)
unfolding or_else
or_else-OnSome P none b p q = q
or_else-OnSome P (some a) b p q = p

pub by_num-OnSome :
    (P : DelegationStep → Type 0) (n : ℕ) (steps : List DelegationStep)
    → All P steps
    → OnSome P (by_num n steps)
unfolding by_num
by_num-OnSome P n [] h = tt
by_num-OnSome P n (s ∷ steps) h =
    or_else-OnSome P _ _ (by_num-OnSome P n steps h.1)
      (elim (Bool-cases (s.step == n)) [ inl y ↦ rw y h.0 | inr x ↦ rw x tt ])

-- What a visit keeps, it keeps over the dependencies of a step.
module _ (X : Visiting → Type 0) (P : DelegationStep → Type 0)
    (go : DelegationStep → Visiting → Visiting)
    (keeps : (s : DelegationStep) (v : Visiting) → P s → X v → X (go s v)) where
  pub visit_dep-keeps :
      (o : Option DelegationStep) (v : Visiting) → OnSome P o → X v → X (visit_dep go o v)
  unfolding visit_dep
  visit_dep-keeps none v p x = x
  visit_dep-keeps (some s) v p x = keeps s v p x

  pub visit_deps-keeps :
      (steps : List DelegationStep) (deps : List ℕ) (v : Visiting)
      → All P steps
      → X v
      → X (visit_deps go steps deps v)
  unfolding visit_deps
  visit_deps-keeps steps [] v p x = x
  visit_deps-keeps steps (d ∷ deps) v p x =
      visit_deps-keeps steps deps _ p
        (visit_dep-keeps (by_num d steps) v (by_num-OnSome P d steps p) x)

-- A predicate on the numbers in progress and the search, that entering a step takes to a longer stack
-- and leaving it takes back, is kept by a visit.
module _ (I : List ℕ → Visiting → Type 0) (P : DelegationStep → Type 0)
    (enters : (st : List ℕ) (s : DelegationStep) (v : Visiting)
      → P s
      → elem s.step v.visited ≡ false
      → I st v
      → I (s.step ∷ st) (enter s v))
    (leaves : (st : List ℕ) (s : DelegationStep) (v : Visiting)
      → P s
      → elem s.step st ≡ false
      → I (s.step ∷ st) v
      → I st (leave s v))
    (opened : (st : List ℕ) (v : Visiting) (n : ℕ)
      → I st v
      → elem n st ≡ true
      → elem n v.visited ≡ true)
    (cut : (st : List ℕ) (v : Visiting) → I st v → I st (record v { cut_off = true })) where
  not_in_progress :
      (st : List ℕ) (v : Visiting) (n : ℕ) → I st v → elem n v.visited ≡ false → elem n st ≡ false
  not_in_progress st v n i h = elim (Bool-cases (elem n st)) [
    | inl y ↦ absurd (ground (arith, opened st v n i y))
    | inr x ↦ x
  ]

  pub visit-keeps :
      (fuel : ℕ) (steps : List DelegationStep) (st : List ℕ)
      → All P steps
      → (s : DelegationStep) (v : Visiting) → P s
      → I st v
      → I st (visit fuel steps s v)
  unfolding visit
  visit-keeps zero steps st all s v p i = cut st v i
  visit-keeps (suc fuel) steps st all s v p i = elim (Bool-cases (elem s.step v.visited)) [
    | inl y ↦ rw (y, visit) i
    | inr x ↦
        rw (x, visit)
          (leaves st s _ p (not_in_progress st v s.step i x) (
            visit_deps-keeps (I (s.step ∷ st)) P (visit fuel steps)
              (visit-keeps fuel steps (s.step ∷ st) all) steps s.depends_on (enter s v) all
              (enters st s v p x i)))
  ]

  pub visit_all-keeps :
      (fuel : ℕ) (steps : List DelegationStep) (st : List ℕ)
      → All P steps
      → (rest : List DelegationStep) (v : Visiting) → All P rest
      → I st v
      → I st (visit_all fuel steps rest v)
  unfolding visit_all
  visit_all-keeps fuel steps st all [] v p i = i
  visit_all-keeps fuel steps st all (s ∷ rest) v p i =
      visit_all-keeps fuel steps st all rest _ p.1 (visit-keeps fuel steps st all s v p.0 i)

abbrev pub unvisited_yet : Visiting
unvisited_yet = record { visited = []; order = []; cut_off = false }

-- What is visited stays visited.
abbrev pub IsVisited : ℕ → Visiting → Type 0
IsVisited n v = elem n v.visited ≡ true

pub every : (l : List DelegationStep) → All (λ _. Unit {0}) l
every [] = tt
every (x ∷ l) = (tt, every l)

pub visit-grows :
    (n fuel : ℕ) (steps : List DelegationStep) (s : DelegationStep) (v : Visiting)
    → IsVisited n v
    → IsVisited n (visit fuel steps s v)
unfolding visit enter leave
visit-grows n zero steps s v h = h
visit-grows n (suc fuel) steps s v h = elim (Bool-cases (elem s.step v.visited)) [
  | inl y ↦ rw (y, visit) h
  | inr x ↦
      rw (x, visit)
        (visit_deps-keeps (IsVisited n) (λ _. Unit) (visit fuel steps)
          (λ s v _. visit-grows n fuel steps s v) steps s.depends_on (enter s v) (every steps)
          (ground (arith, h)))
]

pub visit_deps-grows :
    (n fuel : ℕ) (steps : List DelegationStep) (deps : List ℕ) (v : Visiting)
    → IsVisited n v
    → IsVisited n (visit_deps (visit fuel steps) steps deps v)
visit_deps-grows n fuel steps deps v h =
    visit_deps-keeps (IsVisited n) (λ _. Unit) (visit fuel steps)
      (λ s v _. visit-grows n fuel steps s v) steps deps v (every steps) h

pub visit-visits :
    (fuel : ℕ) (steps : List DelegationStep) (s : DelegationStep) (v : Visiting)
    → IsVisited s.step (visit (suc fuel) steps s v)
unfolding visit enter leave
visit-visits fuel steps s v = elim (Bool-cases (elem s.step v.visited)) [
  | inl y ↦ rw (y, visit) y
  | inr x ↦
      rw (x, visit)
        (visit_deps-grows s.step fuel steps s.depends_on (enter s v)
          (ground (arith, ==_refl s.step)))
]
