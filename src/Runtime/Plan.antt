-- ===== src/Runtime/Plan.antt =====
-- agents/coordinator.py: a step of a delegation plan; runtime/dispatch.py: the order in which a plan's
-- steps run (_ordered_steps). Step numbers are natural numbers here.
pub mod Visits
pub mod Order
pub mod Fuel
pub mod Respects
pub mod Topological
mod Tests
use oriion.Prelude.{
  ℕ, zero, suc, String, Bool, true, false, Option, none, some, List, [], ◌∷◌, ◌++◌, elem, length,
  ◌==◌, if◌then◌else◌,
}

-- `place` is the step's identity as an object: where it stands in the plan.
pub record DelegationStep : Type 0 where
  pub place : ℕ
  pub step : ℕ
  pub agent : String
  pub goal : String
  pub status : String
  pub artifact_type : String
  pub depends_on : List ℕ
  pub cost_estimate_tcredits : ℕ

-- `by_num`: of two steps with one number, the last.
unfoldable pub or_else : Option DelegationStep → Option DelegationStep → Option DelegationStep
or_else none later = later
or_else (some s) later = some s

unfoldable pub by_num : ℕ → List DelegationStep → Option DelegationStep
unfolding or_else
by_num n [] = none
by_num n (s ∷ steps) = or_else (by_num n steps) (if s.step == n then some s else none)

-- `visited` and `order` of the search; `cut_off` says that the fuel ran out before it ended.
pub record Visiting : Type 0 where
  pub visited : List ℕ
  pub order : List DelegationStep
  pub cut_off : Bool

unfoldable pub visit_dep :
    (DelegationStep → Visiting → Visiting) → Option DelegationStep → Visiting → Visiting
visit_dep go none v = v
visit_dep go (some s) v = go s v

unfoldable pub visit_deps :
    (DelegationStep → Visiting → Visiting) → List DelegationStep → List ℕ → Visiting → Visiting
unfolding visit_dep
visit_deps go steps [] v = v
visit_deps go steps (d ∷ deps) v = visit_deps go steps deps (visit_dep go (by_num d steps) v)

unfoldable pub enter : DelegationStep → Visiting → Visiting
enter s v = record v { visited = s.step ∷ v.visited }

unfoldable pub leave : DelegationStep → Visiting → Visiting
leave s v = record v { order = v.order ++ s ∷ [] }

-- `_visit`, on fuel.
unfoldable pub visit : ℕ → List DelegationStep → DelegationStep → Visiting → Visiting
unfolding visit_deps enter leave
visit zero steps s v = record v { cut_off = true }
visit (suc fuel) steps s v = elim (elem s.step v.visited) [
  | true ↦ v
  | false ↦ leave s (visit_deps (visit fuel steps) steps s.depends_on (enter s v))
]

unfoldable pub visit_all : ℕ → List DelegationStep → List DelegationStep → Visiting → Visiting
unfolding visit
visit_all fuel steps [] v = v
visit_all fuel steps (s ∷ rest) v = visit_all fuel steps rest (visit fuel steps s v)

-- Each turn but the last enters a number that was not visited, so there are at most as many as steps.
unfoldable pub ordered_steps : List DelegationStep → List DelegationStep
unfolding visit_all
ordered_steps steps =
    (visit_all (suc (length steps)) steps steps
      (record { visited = []; order = []; cut_off = false })).order
