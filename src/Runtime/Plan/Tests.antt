-- ===== src/Runtime/Plan/Tests.antt =====
-- The theorems about the order of a plan, at small concrete plans.
use oriion.Prelude.{
  false, ℕ, ◌≡◌, refl, true, List, [], ◌∷◌, any, ◌==◌, if◌then◌else◌, All, arith, count_if,
}
use oriion.Runtime.Plan.{
  DelegationStep, or_else, by_num, visit_dep, visit_deps, enter, leave, visit, visit_all,
  ordered_steps,
}
use oriion.Runtime.Plan.Order.{ordered_steps-once}
use oriion.Runtime.Plan.Visits.{numbered, unvisited_yet}
use oriion.Runtime.Plan.Fuel.{ordered_steps-ends}
use oriion.Runtime.Plan.Topological.{Ranked, ordered_steps-respects}
use oriion.Runtime.Plan.Respects.{respects_dependencies}

abbrev step_of : ℕ → ℕ → List ℕ → DelegationStep
step_of place number needs = record {
  place = place;
  step = number;
  agent = "writer";
  goal = "Write it.";
  status = "skipped";
  artifact_type = "brief";
  depends_on = needs;
  cost_estimate_tcredits = 0;
}

-- Step 1 needs 2 and the absent 9, and 2 needs 3.
abbrev backwards : List DelegationStep
backwards = step_of 0 1 (2 ∷ 9 ∷ []) ∷ step_of 1 2 (3 ∷ []) ∷ step_of 2 3 [] ∷ []

abbrev cyclic : List DelegationStep
cyclic = step_of 0 1 (2 ∷ []) ∷ step_of 1 2 (1 ∷ []) ∷ []

backwards_reversed :
    ordered_steps backwards ≡ step_of 2 3 [] ∷ step_of 1 2 (3 ∷ []) ∷ step_of 0 1 (2 ∷ 9 ∷ []) ∷ []
unfolding ordered_steps visit_all visit visit_deps visit_dep by_num or_else enter leave
backwards_reversed = refl

cyclic_reversed : ordered_steps cyclic ≡ step_of 1 2 (1 ∷ []) ∷ step_of 0 1 (2 ∷ []) ∷ []
unfolding ordered_steps visit_all visit visit_deps visit_dep by_num or_else enter leave
cyclic_reversed = refl

ordered_steps-once_example :
    count_if (numbered 2) (ordered_steps cyclic) ≡ (if any (numbered 2) cyclic then 1 else 0)
ordered_steps-once_example = ordered_steps-once cyclic 2

ordered_steps-ends_example :
    ((visit_all 7 cyclic cyclic unvisited_yet).cut_off ≡ false)
    × ((visit_all 7 cyclic cyclic unvisited_yet).order ≡ ordered_steps cyclic)
ordered_steps-ends_example = ordered_steps-ends cyclic 7 (omega arith)

-- A smaller number ranks higher.
abbrev rank : ℕ → ℕ
rank n = if◌then◌else◌ (n == 1) 3 (if◌then◌else◌ (n == 2) 2 1)

backwards-Ranked : All (Ranked rank backwards) backwards
unfolding by_num or_else
backwards-Ranked = ((omega arith, (tt, tt)), ((omega arith, tt), (tt, tt)))

ordered_steps-respects_example : respects_dependencies backwards (ordered_steps backwards) ≡ true
ordered_steps-respects_example = ordered_steps-respects rank backwards backwards-Ranked
