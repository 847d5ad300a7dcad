-- ===== src/Runtime/Plan/Topological.antt =====
-- The order of an acyclic plan puts each step after the steps it depends on.
use oriion.Prelude.{
  ℕ, zero, suc, ◌<◌, ◌≡◌, refl, sym, ap, true, false, Option, none, some, List, [], ◌∷◌, elem,
  length, Option-cases, ◌==◌, All, arith, Bool-cases, inl, inr,
}
use oriion.Runtime.Plan.{
  DelegationStep, Visiting, by_num, visit_dep, visit_deps, enter, leave, visit, visit_all,
  ordered_steps,
}
use oriion.Runtime.Plan.Order.{InPlan, all-InPlan, Traced, start-Traced, enter-Traced, visit-Traced}
use oriion.Runtime.Plan.Visits.{
  OnSome, or_else-OnSome, by_num-OnSome, IsVisited, visit_deps-grows, visit_deps-keeps,
  visit-visits, ==_eq, unvisited_yet,
}
use oriion.Runtime.Plan.Fuel.{unvisited, unvisited-visit, unvisited-start, enough_left}
use oriion.Runtime.Plan.Respects.{
  settled, respects_dependencies, seen_after, respects-snoc, counted-seen_after,
}

by_num-step : (n : ℕ) (steps : List DelegationStep) → OnSome (λ t. t.step ≡ n) (by_num n steps)
unfolding by_num
by_num-step n [] = tt
by_num-step n (s ∷ steps) =
    or_else-OnSome (λ t. t.step ≡ n) _ _ (by_num-step n steps)
      (elim (Bool-cases (s.step == n)) [ inl y ↦ rw y (==_eq s.step n y) | inr x ↦ rw x tt ])

elem-below :
    (rank : ℕ → ℕ) (d : ℕ) (st : List ℕ) → All (λ n. rank d < rank n) st → elem d st ≡ false
elem-below rank d [] h = refl
elem-below rank d (n ∷ st) h = elim (Bool-cases (n == d)) [
  | inl y ↦ let e = ap rank (==_eq n d y) in absurd (omega (arith, e, h.0))
  | inr x ↦ ground (arith, x, elem-below rank d st h.1)
]

-- A plan is acyclic where its numbers can be ranked so that each step ranks above what it depends on.
abbrev pub Ranked : (ℕ → ℕ) → List DelegationStep → DelegationStep → Type 0
Ranked rank steps s =
    All (λ d. OnSome (λ t. rank t.step < rank s.step) (by_num d steps)) s.depends_on

module _ (rank : ℕ → ℕ) (steps : List DelegationStep) (ranked : All (Ranked rank steps) steps) where
  abbrev Above : List ℕ → DelegationStep → Type 0
  Above st s = All (λ n. rank s.step < rank n) st

  abbrev IsOrdered : Visiting → Type 0
  IsOrdered v = respects_dependencies steps v.order ≡ true

  -- What a dependency that is a step of the plan is: known, ranked, and visited by a visit.
  module _ (fuel : ℕ)
      (visits : (st : List ℕ) (s : DelegationStep) (v : Visiting)
        → Ranked rank steps s
        → InPlan steps s
        → unvisited steps v < fuel
        → Above st s
        → Traced steps st v
        → IsOrdered v
        → IsOrdered (visit fuel steps s v)) where
    present :
        (d : ℕ) (t : DelegationStep)
        → by_num d steps ≡ some t
        → Ranked rank steps t × InPlan steps t × (t.step ≡ d)
    present d t e = (
      rw e at (by_num-OnSome (Ranked rank steps) d steps ranked),
      rw e at (by_num-OnSome (InPlan steps) d steps (all-InPlan steps)),
      rw e at (by_num-step d steps),
    )

    deps-IsOrdered :
        (st : List ℕ) (deps : List ℕ) (v : Visiting)
        → All (λ d. OnSome (Above st) (by_num d steps)) deps
        → unvisited steps v < fuel
        → Traced steps st v
        → IsOrdered v
        → IsOrdered (visit_deps (visit fuel steps) steps deps v)
    unfolding visit_deps visit_dep
    deps-IsOrdered st [] v below u t o = o
    deps-IsOrdered st (d ∷ deps) v below u t o = elim (Option-cases (by_num d steps)) [
      | inl e ↦ rw (e, visit_deps) (deps-IsOrdered st deps v below.1 u t o)
      | inr (s, e) ↦
          let (r, i, _) = present d s e in
          let b : Above st s = rw e at below.0 in
          rw (e, visit_deps)
            (deps-IsOrdered st deps (visit fuel steps s v) below.1
              (omega (arith, u, unvisited-visit fuel steps s v))
              (visit-Traced steps fuel st (all-InPlan steps) s v i t) (visits st s v r i u b t o))
    ]

  visit-visits_lt :
      (fuel : ℕ)
      → 0 < fuel
      → (s : DelegationStep) (v : Visiting) → IsVisited s.step (visit fuel steps s v)
  visit-visits_lt zero p s v = absurd (omega (arith, p))
  visit-visits_lt (suc fuel) p s v = visit-visits fuel steps s v

  -- After the visits of its dependencies, each one that is a step of the plan is visited.
  deps-IsVisited :
      (fuel : ℕ)
      → 0 < fuel
      → (deps : List ℕ) (v w : Visiting) → visit_deps (visit fuel steps) steps deps v ≡ w
      → All (λ d. OnSome (λ t. IsVisited t.step w) (by_num d steps)) deps
  unfolding visit_deps visit_dep
  deps-IsVisited fuel p [] v w h = tt
  deps-IsVisited fuel p (d ∷ deps) v w h = elim (Option-cases (by_num d steps)) [
    | inl e ↦ (rw e tt, deps-IsVisited fuel p deps v w (rw (e, visit_deps) at h))
    | inr (s, e) ↦
        let h' : visit_deps (visit fuel steps) steps deps (visit fuel steps s v) ≡ w =
          rw (e, visit_deps) at h in
        let k : IsVisited s.step w = rw (sym h') (
          visit_deps-grows s.step fuel steps deps (visit fuel steps s v)
            (visit-visits_lt fuel p s v)) in
        (rw e k, deps-IsVisited fuel p deps (visit fuel steps s v) w h')
  ]

  -- Where each dependency that is a step of the plan is visited and ranks below all that is in progress,
  -- all are settled.
  Traced-settled :
      (st : List ℕ) (deps : List ℕ) (v : Visiting)
      → Traced steps st v
      → All (λ d. OnSome (λ t. IsVisited t.step v) (by_num d steps)) deps
      → All (λ d. OnSome (λ t. All (λ n. rank t.step < rank n) st) (by_num d steps)) deps
      → settled steps (seen_after [] v.order) deps ≡ true
  Traced-settled st [] v t seen below = refl
  Traced-settled st (d ∷ deps) v t seen below = elim (Option-cases (by_num d steps)) [
    | inl e ↦ ground (arith, e, Traced-settled st deps v t seen.1 below.1)
    | inr (s, e) ↦
        let is : s.step ≡ d = rw e at (by_num-step d steps) in
        let k : IsVisited s.step v = rw e at seen.0 in
        let b : Above st s = rw e at below.0 in
        let out = elem-below rank s.step st b in
        let one = counted-seen_after s.step [] v.order in
        ground (arith, is, k, out, one, t.once s.step, Traced-settled st deps v t seen.1 below.1)
  ]

  -- What ranks below a step ranks below all that the step ranks below.
  below_trans :
      (st : List ℕ) (s : DelegationStep) (n : ℕ)
      → rank n < rank s.step
      → Above st s
      → All (λ m. rank n < rank m) st
  below_trans [] s n h a = tt
  below_trans (m ∷ st) s n h a = (omega (arith, h, a.0), below_trans st s n h a.1)

  deps-below :
      (st : List ℕ) (s : DelegationStep) (deps : List ℕ)
      → All (λ d. OnSome (λ t. rank t.step < rank s.step) (by_num d steps)) deps
      → Above st s
      → All (λ d. OnSome (Above (s.step ∷ st)) (by_num d steps)) deps
  deps-below st s [] r a = tt
  deps-below st s (d ∷ deps) r a = (one (by_num d steps) r.0, deps-below st s deps r.1 a)
    where
      one :
          (o : Option DelegationStep)
          → OnSome (λ t. rank t.step < rank s.step) o
          → OnSome (Above (s.step ∷ st)) o
      one none r = tt
      one (some t) r = (r, below_trans st s t.step r a)

  module _ (fuel : ℕ)
      (visits : (st : List ℕ) (s : DelegationStep) (v : Visiting)
        → Ranked rank steps s
        → InPlan steps s
        → unvisited steps v < fuel
        → Above st s
        → Traced steps st v
        → IsOrdered v
        → IsOrdered (visit fuel steps s v)) where
    enter-IsOrdered :
        (st : List ℕ) (s : DelegationStep) (v : Visiting)
        → Ranked rank steps s
        → InPlan steps s
        → unvisited steps (enter s v) < fuel
        → Above st s
        → elem s.step v.visited ≡ false
        → Traced steps st v
        → IsOrdered v
        → IsOrdered (leave s (visit_deps (visit fuel steps) steps s.depends_on (enter s v)))
    unfolding leave
    enter-IsOrdered st s v r i u a x t o =
        let inside = s.step ∷ st in
        let w = visit_deps (visit fuel steps) steps s.depends_on (enter s v) in
        let below = deps-below st s s.depends_on r a in
        let entered = enter-Traced steps st s v i x t in
        let traced : Traced steps inside w =
          visit_deps-keeps (Traced steps inside) (InPlan steps) (visit fuel steps)
            (visit-Traced steps fuel inside (all-InPlan steps)) steps s.depends_on (enter s v)
            (all-InPlan steps) entered in
        respects-snoc steps [] w.order s
          (deps-IsOrdered fuel visits inside s.depends_on (enter s v) below u entered
            (unfold enter in o))
          (Traced-settled inside s.depends_on w traced
            (deps-IsVisited fuel (omega (arith, u)) s.depends_on (enter s v) w refl) below)

  visit-IsOrdered :
      (fuel : ℕ) (st : List ℕ) (s : DelegationStep) (v : Visiting)
      → Ranked rank steps s
      → InPlan steps s
      → unvisited steps v < fuel
      → Above st s
      → Traced steps st v
      → IsOrdered v
      → IsOrdered (visit fuel steps s v)
  unfolding visit
  visit-IsOrdered zero st s v r i u a t o = absurd (omega (arith, u))
  visit-IsOrdered (suc fuel) st s v r i u a t o = elim (Bool-cases (elem s.step v.visited)) [
    | inl y ↦ rw (y, visit) o
    | inr x ↦
        rw (x, visit)
          (enter-IsOrdered fuel (visit-IsOrdered fuel) st s v r i (enough_left fuel steps s v i x u)
            a x t o)
  ]

  visit_all-IsOrdered :
      (fuel : ℕ) (rest : List DelegationStep) (v : Visiting)
      → All (Ranked rank steps) rest
      → All (InPlan steps) rest
      → unvisited steps v < fuel
      → Traced steps [] v
      → IsOrdered v
      → IsOrdered (visit_all fuel steps rest v)
  unfolding visit_all
  visit_all-IsOrdered fuel [] v r i u t o = o
  visit_all-IsOrdered fuel (s ∷ rest) v r i u t o =
      visit_all-IsOrdered fuel rest (visit fuel steps s v) r.1 i.1
        (omega (arith, u, unvisited-visit fuel steps s v))
        (visit-Traced steps fuel [] (all-InPlan steps) s v i.0 t)
        (visit-IsOrdered fuel [] s v r.0 i.0 u tt t o)

-- Where the numbers of a plan can be ranked such that each step ranks above the steps of the plan it
-- depends on, the order has each step after all of those.
pub ordered_steps-respects :
    (rank : ℕ → ℕ) (steps : List DelegationStep)
    → All (Ranked rank steps) steps
    → respects_dependencies steps (ordered_steps steps) ≡ true
unfolding ordered_steps
ordered_steps-respects rank steps ranked =
    visit_all-IsOrdered rank steps ranked (suc (length steps)) steps unvisited_yet ranked
      (all-InPlan steps) (omega (arith, unvisited-start steps)) (start-Traced steps) refl
