-- ===== src/Runtime/Plan/Fuel.antt =====
-- The fuel of the search through a plan: its recursion is no deeper than the plan has steps.
use oriion.Prelude.{
  ℕ, zero, suc, ◌<◌, ◌≤◌, ◌≡◌, refl, ap, true, false, not, Option, none, some, List, [], ◌∷◌, elem,
  length, ◌==◌, All, arith, count_if, Bool-cases, inl, inr,
}
use oriion.Runtime.Plan.{
  DelegationStep, Visiting, by_num, visit_dep, visit_deps, enter, leave, visit, visit_all,
  ordered_steps,
}
use oriion.Runtime.Plan.Order.{has, InPlan, all-InPlan}
use oriion.Runtime.Plan.Visits.{OnSome, by_num-OnSome, IsVisited, visit-grows, ==_eq, unvisited_yet}

-- The steps of a plan whose numbers are not visited.
abbrev pub unvisited : List DelegationStep → Visiting → ℕ
unvisited steps v = count_if (λ s. not (elem s.step v.visited)) steps

unvisited_le :
    (steps : List DelegationStep) (v w : Visiting)
    → ((n : ℕ) → IsVisited n v → IsVisited n w)
    → unvisited steps w ≤ unvisited steps v
unvisited_le [] v w h = omega arith
unvisited_le (s ∷ steps) v w h = ground (arith, h s.step, unvisited_le steps v w h)

enter-grows : (n : ℕ) (s : DelegationStep) (v : Visiting) → IsVisited n v → IsVisited n (enter s v)
unfolding enter
enter-grows n s v h = ground (arith, h)

pub unvisited-enter :
    (steps : List DelegationStep) (s : DelegationStep) (v : Visiting)
    → has steps s.step ≡ true
    → elem s.step v.visited ≡ false
    → unvisited steps (enter s v) < unvisited steps v
unfolding enter
unvisited-enter [] s v p x = ground (arith, p)
unvisited-enter (t ∷ steps) s v p x = elim (Bool-cases (t.step == s.step)) [
  | inl y ↦
      let e = ==_eq t.step s.step y in
      ground (arith, e, x, unvisited_le steps v (enter s v) (λ n. enter-grows n s v))
  | inr n ↦ ground (arith, n, x, p, unvisited-enter steps s v)
]

pub unvisited-visit :
    (fuel : ℕ) (steps : List DelegationStep) (s : DelegationStep) (v : Visiting)
    → unvisited steps (visit fuel steps s v) ≤ unvisited steps v
unvisited-visit fuel steps s v =
    unvisited_le steps v (visit fuel steps s v) (λ n. visit-grows n fuel steps s v)

pub unvisited-start : (steps : List DelegationStep) → unvisited steps unvisited_yet ≡ length steps
unvisited-start [] = refl
unvisited-start (s ∷ steps) = ap suc (unvisited-start steps)

-- A condition that entering leaves with one unit of fuel less.
pub enough_left :
    (fuel : ℕ) (steps : List DelegationStep) (s : DelegationStep) (v : Visiting)
    → has steps s.step ≡ true
    → elem s.step v.visited ≡ false
    → unvisited steps v < suc fuel
    → unvisited steps (enter s v) < fuel
enough_left fuel steps s v p x h = omega (arith, h, unvisited-enter steps s v p x)

module _ (steps : List DelegationStep) (f g : ℕ)
    (agree : (s : DelegationStep) (v : Visiting)
      → InPlan steps s
      → unvisited steps v < f
      → unvisited steps v < g
      → visit f steps s v ≡ visit g steps s v) where
  visit_dep-agree :
      (o : Option DelegationStep) (v : Visiting)
      → OnSome (InPlan steps) o
      → unvisited steps v < f
      → unvisited steps v < g
      → visit_dep (visit f steps) o v ≡ visit_dep (visit g steps) o v
  unfolding visit_dep
  visit_dep-agree none v p a b = refl
  visit_dep-agree (some s) v p a b = agree s v p a b

  unvisited-visit_dep :
      (o : Option DelegationStep) (v : Visiting)
      → unvisited steps (visit_dep (visit g steps) o v) ≤ unvisited steps v
  unfolding visit_dep
  unvisited-visit_dep none v = omega arith
  unvisited-visit_dep (some s) v = unvisited-visit g steps s v

  visit_deps-agree :
      (deps : List ℕ) (v : Visiting)
      → unvisited steps v < f
      → unvisited steps v < g
      → visit_deps (visit f steps) steps deps v ≡ visit_deps (visit g steps) steps deps v
  unfolding visit_deps
  visit_deps-agree [] v a b = refl
  visit_deps-agree (d ∷ deps) v a b =
      let le = unvisited-visit_dep (by_num d steps) v in
      rw
        (visit_dep-agree (by_num d steps) v
          (by_num-OnSome (InPlan steps) d steps (all-InPlan steps)) a b)
        (visit_deps-agree deps (visit_dep (visit g steps) (by_num d steps) v) (omega (arith, le, a))
          (omega (arith, le, b)))

visit-agree :
    (f g : ℕ) (steps : List DelegationStep) (s : DelegationStep) (v : Visiting)
    → InPlan steps s
    → unvisited steps v < f
    → unvisited steps v < g
    → visit f steps s v ≡ visit g steps s v
unfolding visit
visit-agree zero g steps s v p a b = absurd (omega (arith, a))
visit-agree (suc f) zero steps s v p a b = absurd (omega (arith, b))
visit-agree (suc f) (suc g) steps s v p a b = elim (Bool-cases (elem s.step v.visited)) [
  | inl y ↦ rw (y, visit) refl
  | inr x ↦
      rw (x, visit)
        (ap (leave s) (
          visit_deps-agree steps f g (visit-agree f g steps) s.depends_on (enter s v)
            (enough_left f steps s v p x a) (enough_left g steps s v p x b)))
]

visit_all-agree :
    (f g : ℕ) (steps rest : List DelegationStep) (v : Visiting)
    → All (InPlan steps) rest
    → unvisited steps v < f
    → unvisited steps v < g
    → visit_all f steps rest v ≡ visit_all g steps rest v
unfolding visit_all
visit_all-agree f g steps [] v p a b = refl
visit_all-agree f g steps (s ∷ rest) v p a b =
    let le = unvisited-visit g steps s v in
    rw (visit-agree f g steps s v p.0 a b) (
      visit_all-agree f g steps rest (visit g steps s v) p.1 (omega (arith, le, a))
        (omega (arith, le, b)))

module _ (steps : List DelegationStep) (f : ℕ)
    (ends : (s : DelegationStep) (v : Visiting)
      → InPlan steps s
      → unvisited steps v < f
      → v.cut_off ≡ false
      → (visit f steps s v).cut_off ≡ false) where
  visit_dep-ends :
      (o : Option DelegationStep) (v : Visiting)
      → OnSome (InPlan steps) o
      → unvisited steps v < f
      → v.cut_off ≡ false
      → ((visit_dep (visit f steps) o v).cut_off ≡ false)
        × (unvisited steps (visit_dep (visit f steps) o v) ≤ unvisited steps v)
  unfolding visit_dep
  visit_dep-ends none v p a c = (c, omega arith)
  visit_dep-ends (some s) v p a c = (ends s v p a c, unvisited-visit f steps s v)

  visit_deps-ends :
      (deps : List ℕ) (v : Visiting)
      → unvisited steps v < f
      → v.cut_off ≡ false
      → (visit_deps (visit f steps) steps deps v).cut_off ≡ false
  unfolding visit_deps
  visit_deps-ends [] v a c = c
  visit_deps-ends (d ∷ deps) v a c =
      let (e, le) =
        visit_dep-ends (by_num d steps) v (by_num-OnSome (InPlan steps) d steps (all-InPlan steps))
          a c in
      visit_deps-ends deps (visit_dep (visit f steps) (by_num d steps) v) (omega (arith, le, a)) e

visit-ends :
    (f : ℕ) (steps : List DelegationStep) (s : DelegationStep) (v : Visiting)
    → InPlan steps s
    → unvisited steps v < f
    → v.cut_off ≡ false
    → (visit f steps s v).cut_off ≡ false
unfolding visit leave enter
visit-ends zero steps s v p a c = absurd (omega (arith, a))
visit-ends (suc f) steps s v p a c = elim (Bool-cases (elem s.step v.visited)) [
  | inl y ↦ rw (y, visit) c
  | inr x ↦
      rw (x, visit)
        (visit_deps-ends steps f (visit-ends f steps) s.depends_on (enter s v)
          (enough_left f steps s v p x a) c)
]

visit_all-ends :
    (f : ℕ) (steps rest : List DelegationStep) (v : Visiting)
    → All (InPlan steps) rest
    → unvisited steps v < f
    → v.cut_off ≡ false
    → (visit_all f steps rest v).cut_off ≡ false
unfolding visit_all
visit_all-ends f steps [] v p a c = c
visit_all-ends f steps (s ∷ rest) v p a c =
    visit_all-ends f steps rest (visit f steps s v) p.1
      (omega (arith, a, unvisited-visit f steps s v)) (visit-ends f steps s v p.0 a c)

-- Whatever the dependencies, cyclic ones included: the recursion of the search ends before it is deeper
-- than the plan has steps and one, so with more fuel than steps it is never cut off, and the order is
-- then the same whatever the fuel.
pub ordered_steps-ends :
    (steps : List DelegationStep) (fuel : ℕ)
    → length steps < fuel
    → ((visit_all fuel steps steps unvisited_yet).cut_off ≡ false)
      × ((visit_all fuel steps steps unvisited_yet).order ≡ ordered_steps steps)
unfolding ordered_steps
ordered_steps-ends steps fuel h =
    let e = unvisited-start steps in
    (
      visit_all-ends fuel steps steps unvisited_yet (all-InPlan steps) (omega (arith, e, h)) refl,
      ap (λ (v : Visiting). v.order)
          (visit_all-agree fuel (suc (length steps)) steps steps unvisited_yet (all-InPlan steps)
            (omega (arith, e, h)) (omega (arith, e))),
    )
