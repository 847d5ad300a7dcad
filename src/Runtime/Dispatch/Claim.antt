-- ===== src/Runtime/Dispatch/Claim.antt =====
-- How often a task is run.
use oriion.Prelude.{
  ℕ, ◌+◌, ◌≤◌, ◌≡◌, refl, true, false, not, List, [], ◌∷◌, ◌==◌, ==_refl, keep_if, arith,
  if◌then◌else◌,
}
use oriion.Tasks.Tree.{queued}
use oriion.Runtime.Dispatch.{
  Committed, is_queued, Dispatched, finished, raised, crashed, run_task, commit_outcome, claim,
  run_task_dispatch, DispatchCall, posts, delivers, dispatch_call, dispatch_calls, Workers,
  load_queued, claim_loaded, Reaches, stay, step,
}

-- The orchestrator leaves no task queued.
abbrev pub Leaves : Dispatched → Type 0
Leaves (finished status) = is_queued status ≡ false
Leaves (raised status) = is_queued status ≡ false
Leaves crashed = Unit

abbrev pub LeavesAll : List DispatchCall → Type 0
LeavesAll [] = Unit
LeavesAll (posts now ∷ cs) = LeavesAll cs
LeavesAll (delivers d ∷ cs) = Leaves d × LeavesAll cs

-- A queued task has been started no more than `n` times, any other no more than once more.
abbrev Started : ℕ → Committed → Type 0
Started n s = s.dispatches ≤ (if is_queued s.status then n else n + 1)

posts-Started : (n now : ℕ) (s : Committed) → Started n s → Started n (run_task now s).1
unfolding run_task
posts-Started n now s h = ground (arith, h)

delivers-Started :
    (n : ℕ) (d : Dispatched) (s : Committed)
    → Leaves d
    → Started n s
    → Started n (run_task_dispatch d s).1
unfolding run_task_dispatch commit_outcome claim
delivers-Started n (finished st) s l h = ground (arith, h, l)
delivers-Started n (raised st) s l h = ground (arith, h, l)
delivers-Started n crashed s l h = ground (arith, h)

calls-Started :
    (n : ℕ) (cs : List DispatchCall) (s : Committed)
    → LeavesAll cs
    → Started n s
    → Started n (dispatch_calls cs s)
unfolding dispatch_calls dispatch_call
calls-Started n [] s l h = h
calls-Started n (posts now ∷ cs) s l h = calls-Started n cs _ l (posts-Started n now s h)
calls-Started n (delivers d ∷ cs) s l h = calls-Started n cs _ l.1 (delivers-Started n d s l.0 h)

-- Where deliveries do not overlap, a queued task is started at most once, whatever is posted and
-- delivered how often, and also where workers die in the middle, if a dispatch that ends never leaves
-- the task queued.
pub dispatch_calls_once :
    (cs : List DispatchCall) (s : Committed)
    → LeavesAll cs
    → is_queued s.status ≡ true
    → (dispatch_calls cs s).dispatches ≤ s.dispatches + 1
dispatch_calls_once cs s l q =
    let h : Started s.dispatches s = ground (arith, q) in
    ground (arith, calls-Started s.dispatches cs s l h)

-- Where two deliveries overlap, both run the task: from a queued task that no worker has loaded, both
-- load it before either commits its claim, and then both dispatch.
pub claims_race :
    (a b : ℕ) (s : Workers)
    → (a == b) ≡ false
    → s.committed.status ≡ queued
    → s.loaded ≡ []
    → (t : Workers) × Reaches s t × (t.committed.dispatches ≡ s.committed.dispatches + 2)
claims_race a b s ne q l =
    let s₁ : Workers = record s { loaded = a ∷ s.loaded } in
    let s₂ : Workers = record s { loaded = b ∷ a ∷ s.loaded } in
    let s₃ : Workers = record {
      committed = claim s.committed;
      loaded = keep_if (λ j. not (j == a)) (b ∷ a ∷ s.loaded);
    } in
    let s₄ : Workers = record {
      committed = claim (claim s.committed);
      loaded = keep_if (λ j. not (j == b)) s₃.loaded;
    } in
    (
      s₄,
      step s s₁ s₄ (load_queued a s s₁ q refl) (
          step s₁ s₂ s₄ (load_queued b s₁ s₂ q refl) (
            step s₂ s₃ s₄ (claim_loaded a s₂ s₃ (ground (arith, ==_refl a)) refl) (
              step s₃ s₄ s₄ (claim_loaded b s₃ s₄ (ground (arith, ne, ==_refl b)) refl)
                (stay s₄)))),
      unfold claim in omega arith,
    )
