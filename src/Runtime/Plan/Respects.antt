-- ===== src/Runtime/Plan/Respects.antt =====
-- Whether an order puts each step after the steps it depends on, as a test.
use oriion.Prelude.{
  ℕ, ◌≡◌, Bool, true, ◌&&◌, ◌||◌, List, [], ◌∷◌, ◌++◌, elem, is_none, ◌==◌, arith, count_if,
  Bool-cases, inl, inr,
}
use oriion.Runtime.Plan.{DelegationStep, by_num}
use oriion.Runtime.Plan.Visits.{numbered}

-- Whether each of the numbers is that of an earlier step or of no step of the plan.
abbrev pub settled : List DelegationStep → List ℕ → List ℕ → Bool
settled steps earlier [] = true
settled steps earlier (d ∷ deps) =
    (is_none (by_num d steps) || elem d earlier) && settled steps earlier deps

-- Whether each step comes after all steps of the plan that it depends on.
abbrev pub respects_from : List DelegationStep → List ℕ → List DelegationStep → Bool
respects_from steps earlier [] = true
respects_from steps earlier (s ∷ order) =
    settled steps earlier s.depends_on && respects_from steps (s.step ∷ earlier) order

abbrev pub respects_dependencies : List DelegationStep → List DelegationStep → Bool
respects_dependencies steps order = respects_from steps [] order

abbrev pub seen_after : List ℕ → List DelegationStep → List ℕ
seen_after earlier [] = earlier
seen_after earlier (s ∷ order) = seen_after (s.step ∷ earlier) order

pub respects-snoc :
    (steps : List DelegationStep) (earlier : List ℕ) (order : List DelegationStep)
    (s : DelegationStep)
    → respects_from steps earlier order ≡ true
    → settled steps (seen_after earlier order) s.depends_on ≡ true
    → respects_from steps earlier (order ++ s ∷ []) ≡ true
respects-snoc steps earlier [] s h k = ground (arith, k)
respects-snoc steps earlier (t ∷ order) s h k =
    ground (arith, h, respects-snoc steps (t.step ∷ earlier) order s, k)

elem-seen_after :
    (n : ℕ) (earlier : List ℕ) (order : List DelegationStep)
    → elem n earlier ≡ true
    → elem n (seen_after earlier order) ≡ true
elem-seen_after n earlier [] h = h
elem-seen_after n earlier (s ∷ order) h =
    elem-seen_after n (s.step ∷ earlier) order (ground (arith, h))

pub counted-seen_after :
    (n : ℕ) (earlier : List ℕ) (order : List DelegationStep)
    → count_if (numbered n) order ≡ 1
    → elem n (seen_after earlier order) ≡ true
counted-seen_after n earlier [] h = absurd (omega (arith, h))
counted-seen_after n earlier (s ∷ order) h = elim (Bool-cases (s.step == n)) [
  | inl y ↦ elem-seen_after n (s.step ∷ earlier) order (ground (arith, y))
  | inr x ↦ counted-seen_after n (s.step ∷ earlier) order (ground (arith, h, x))
]
