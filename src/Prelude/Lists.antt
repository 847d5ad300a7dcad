-- ===== src/Prelude/Lists.antt =====
-- Lists measured by native numbers, under the library's names, and recursive predicates on them.
use Prim.Native.Nat.{ℕ, zero, suc, ◌+◌, ◌-◌, ◌≤◌}
use mathlib.Core.Path.{◌≡◌, refl, ap, ◌∙◌}
use mathlib.Core.Bool.{Bool, true, false, ◌||◌}
use mathlib.Core.List.{List, [], ◌∷◌, ◌++◌}
use mathlib.Core.Option.{Option, none, some}
use native.Mathlib.Omega.{arith}
use oriion.Prelude.Tests.{◌==◌, if◌then◌else◌}

module _ {ℓ} {A : Type ℓ} where
  abbrev pub length : List A → ℕ
  length [] = 0
  length (x ∷ xs) = suc (length xs)

  abbrev pub take : ℕ → List A → List A
  take zero xs = []
  take (suc n) [] = []
  take (suc n) (x ∷ xs) = x ∷ take n xs

  abbrev pub drop : ℕ → List A → List A
  drop zero xs = xs
  drop (suc n) [] = []
  drop (suc n) (x ∷ xs) = drop n xs

  pub length-append : (xs ys : List A) → length (xs ++ ys) ≡ length xs + length ys
  length-append [] ys = omega arith
  length-append (x ∷ xs) ys = omega (arith, length-append xs ys)

  -- The rows that a test keeps, as a WHERE clause does.
  abbrev pub keep_if : (A → Bool) → List A → List A
  keep_if p [] = []
  keep_if p (x ∷ xs) = let rest = keep_if p xs in if p x then x ∷ rest else rest

  -- The first row that passes a test.
  abbrev pub find : (A → Bool) → List A → Option A
  find p [] = none
  find p (x ∷ xs) = let rest = find p xs in if p x then some x else rest

  abbrev pub any : (A → Bool) → List A → Bool
  any p [] = false
  any p (x ∷ xs) = p x || any p xs

  -- How many rows pass a test.
  abbrev pub count_if : (A → Bool) → List A → ℕ
  count_if p [] = 0
  count_if p (x ∷ xs) = let rest = count_if p xs in if p x then suc rest else rest

  -- An UPDATE: the rows that pass the test are changed, the others stay.
  abbrev pub update_if : (A → Bool) → (A → A) → List A → List A
  update_if p f [] = []
  update_if p f (x ∷ xs) = (if p x then f x else x) ∷ update_if p f xs

pub drop-drop :
    {A : Type 0} → (n m k : ℕ) (xs : List A) → m + n ≡ k → drop n (drop m xs) ≡ drop k xs
drop-drop n zero k xs e = ap (λ i. drop i xs) (omega (arith, e))
drop-drop zero (suc m) zero [] e = refl
drop-drop (suc n) (suc m) zero [] e = refl
drop-drop zero (suc m) (suc k) [] e = refl
drop-drop (suc n) (suc m) (suc k) [] e = refl
drop-drop n (suc m) zero (x ∷ xs) e = absurd (omega (arith, e))
drop-drop n (suc m) (suc k) (x ∷ xs) e = drop-drop n m k xs (omega (arith, e))

pub length-drop : {A : Type 0} → (n : ℕ) (xs : List A) → length (drop n xs) ≡ length xs - n
length-drop zero xs = omega arith
length-drop (suc n) [] = omega arith
length-drop (suc n) (x ∷ xs) = length-drop n xs ∙ omega arith

-- A predicate by recursion computes to tuples, which the tactics read and build.
abbrev pub All {ℓ κ} : {A : Type ℓ} → (A → Type κ) → List A → Type κ
All P [] = Unit
All P (x ∷ xs) = P x × All P xs

-- Whether a number stands in a list.
abbrev pub elem : ℕ → List ℕ → Bool
elem a [] = false
elem a (x ∷ xs) = if x == a then true else elem a xs

abbrev pub sum : List ℕ → ℕ
sum [] = 0
sum (x ∷ xs) = x + sum xs

pub drop_nil : {A : Type 0} → (n : ℕ) → drop {A = A} n [] ≡ []
drop_nil zero = refl
drop_nil (suc n) = refl

-- The last `n`.
abbrev pub last {ℓ} : {A : Type ℓ} → ℕ → List A → List A
last n xs = drop (length xs - n) xs

pub drop-append :
    {A : Type 0} → (n : ℕ) (xs ys : List A) → n ≤ length xs → drop n xs ++ ys ≡ drop n (xs ++ ys)
drop-append zero xs ys h = refl
drop-append (suc n) [] ys h = absurd (omega (arith, h))
drop-append (suc n) (x ∷ xs) ys h = drop-append n xs ys (omega (arith, h))

-- The last `n` of a list that has been kept to its last `n` and grown by one.
pub last-last_snoc :
    {A : Type 0}
    → (n : ℕ) (xs : List A) (x : A) → last n (last n xs ++ x ∷ []) ≡ last n (xs ++ x ∷ [])
last-last_snoc n xs x =
    ap (λ ys. drop (length (last n xs ++ x ∷ []) - n) ys)
      (drop-append (length xs - n) xs (x ∷ []) (omega arith))
    ∙ drop-drop (length (last n xs ++ x ∷ []) - n) (length xs - n) (length (xs ++ x ∷ []) - n)
        (xs ++ x ∷ [])
        (omega (
          arith,
          length-append (last n xs) (x ∷ []),
          length-append xs (x ∷ []),
          length-drop (length xs - n) xs,
        ))
