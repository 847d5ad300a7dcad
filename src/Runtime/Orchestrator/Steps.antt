-- ===== src/Runtime/Orchestrator/Steps.antt =====
-- Reasoning about the steps of a run: a condition before, one after a return, one after an exception.
use oriion.Prelude.{Result, ok, err}
use oriion.Runtime.Budget.{RunError}
use oriion.Runtime.Orchestrator.{Run, Exec, after, then_do}

abbrev pub Yields :
    {A : Type 0} → (Run → Type 0) → (A → Run → Type 0) → Result RunError A × Run → Type 0
Yields E Q (ok a, s) = Q a s
Yields E Q (err e, s) = E s

abbrev pub Triple :
    {A : Type 0} → (Run → Type 0) → Exec A → (Run → Type 0) → (A → Run → Type 0) → Type 0
Triple P m E Q = (s : Run) → P s → Yields E Q (m s)

after-Yields :
    {A B : Type 0} (E : Run → Type 0) (Q : A → Run → Type 0) (R : B → Run → Type 0) (f : A → Exec B)
    → ((a : A) (s : Run) → Q a s → Yields E R (f a s))
    → (r : Result RunError A × Run) → Yields E Q r
    → Yields E R (after f r)
after-Yields E Q R f k (ok a, s) q = k a s q
after-Yields E Q R f k (err e, s) q = q

pub then_do-Triple :
    {A B : Type 0} (P E : Run → Type 0) (Q : A → Run → Type 0) (R : B → Run → Type 0) (m : Exec A)
    (f : A → Exec B)
    → Triple P m E Q
    → ((a : A) → Triple (Q a) (f a) E R)
    → Triple P (then_do m f) E R
then_do-Triple P E Q R m f t k s p = after-Yields E Q R f k (m s) (t s p)

-- A condition that a step keeps, whether it returns or raises.
abbrev pub Keeps : {A : Type 0} → (Run → Type 0) → Exec A → Type 0
Keeps I m = Triple I m I (λ _. I)

pub then_do-Keeps :
    {A B : Type 0} (I : Run → Type 0) (m : Exec A) (f : A → Exec B)
    → Keeps I m
    → ((a : A) → Keeps I (f a))
    → Keeps I (then_do m f)
then_do-Keeps I m f t k = then_do-Triple I I (λ _. I) (λ _. I) m f t k

pub Keeps-1 :
    {A : Type 0} (I : Run → Type 0) (r : Result RunError A × Run) → Yields I (λ _. I) r → I r.1
Keeps-1 I (ok a, s) i = i
Keeps-1 I (err e, s) i = i

pub either :
    {A : Type 0} (I : Run → Type 0) (r : Result RunError A) (s : Run)
    → I s
    → Yields I (λ _. I) (r, s)
either I (ok a) s i = i
either I (err e) s i = i
