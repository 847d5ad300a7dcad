-- ===== src/Prelude/Rows.antt =====
-- Counts and searches over tables under INSERT and UPDATE.
use Prim.Native.Nat.{suc, ◌+◌, ◌≤◌}
use mathlib.Core.Path.{◌≡◌, refl}
use mathlib.Core.Bool.{Bool, true, false}
use mathlib.Core.List.{List, [], ◌∷◌, ◌++◌}
use mathlib.Core.Option.{some, none}
use native.Mathlib.Omega.{arith}
use oriion.Prelude.Tests.{if◌then◌else◌}
use oriion.Prelude.Lists.{count_if, any, find, keep_if, update_if}

module _ {ℓ} {A : Type ℓ} where
  pub count_if-append :
      (q : A → Bool) (xs ys : List A) → count_if q (xs ++ ys) ≡ count_if q xs + count_if q ys
  count_if-append q [] ys = omega arith
  count_if-append q (x ∷ xs) ys = ground (arith, count_if-append q xs ys)

  -- An update after which no row passes that did not pass before.
  pub count_if-update_le :
      (q m : A → Bool) (f : A → A) (xs : List A)
      → ((x : A) → q (f x) ≡ true → q x ≡ true)
      → count_if q (update_if m f xs) ≤ count_if q xs
  count_if-update_le q m f [] h = omega arith
  count_if-update_le q m f (x ∷ xs) h = ground (arith, h x, count_if-update_le q m f xs h)

  -- It costs one where it puts out a row that passed.
  pub count_if-update_lt :
      (q m p : A → Bool) (f : A → A) (a : A) (xs : List A)
      → ((x : A) → q (f x) ≡ true → q x ≡ true)
      → find p xs ≡ some a
      → q a ≡ true
      → m a ≡ true
      → q (f a) ≡ false
      → suc (count_if q (update_if m f xs)) ≤ count_if q xs
  count_if-update_lt q m p f a [] h found live hit dead = ground arith
  count_if-update_lt q m p f a (x ∷ xs) h found live hit dead =
      ground (arith, h x, count_if-update_le q m f xs h, count_if-update_lt q m p f a xs h)

  -- A row that was found passes the test.
  pub find-passes : (p : A → Bool) (a : A) (xs : List A) → find p xs ≡ some a → p a ≡ true
  find-passes p a [] h = ground arith
  find-passes p a (x ∷ xs) h = ground (arith, find-passes p a xs)

  -- A search by a test that the update leaves alone finds the row as the update left it.
  pub find-update :
      (p m : A → Bool) (f : A → A) (a : A) (xs : List A)
      → ((x : A) → p (f x) ≡ p x)
      → find p xs ≡ some a
      → find p (update_if m f xs) ≡ some (if m a then f a else a)
  find-update p m f a [] h e = ground arith
  find-update p m f a (x ∷ xs) h e = ground (arith, h x, find-update p m f a xs h)

  pub find-append :
      (p : A → Bool) (a : A) (xs ys : List A) → find p xs ≡ some a → find p (xs ++ ys) ≡ some a
  find-append p a [] ys h = ground arith
  find-append p a (x ∷ xs) ys h = ground (arith, find-append p a xs ys)

  -- A search finds nothing where nothing passes.
  pub find-none_of_count : (p : A → Bool) (xs : List A) → count_if p xs ≤ 0 → find p xs ≡ none
  find-none_of_count p [] h = refl
  find-none_of_count p (x ∷ xs) h = ground (arith, h, find-none_of_count p xs)

  -- A narrower test passes no more rows.
  pub count_if_mono :
      (p q : A → Bool) (xs : List A)
      → ((x : A) → p x ≡ true → q x ≡ true)
      → count_if p xs ≤ count_if q xs
  count_if_mono p q [] h = omega arith
  count_if_mono p q (x ∷ xs) h = ground (arith, h x, count_if_mono p q xs h)

  -- A marked row is no longer found, where at most one row passes a wider test.
  pub find-marked :
      (wide p m : A → Bool) (f : A → A) (a : A) (xs : List A)
      → ((x : A) → p x ≡ true → wide x ≡ true)
      → ((x : A) → p (f x) ≡ false)
      → count_if wide xs ≤ 1
      → find p xs ≡ some a
      → m a ≡ true
      → find p (update_if m f xs) ≡ none
  find-marked wide p m f a xs narrow out unique found hit =
      find-none_of_count p (update_if m f xs) (
        omega (
          arith,
          unique,
          count_if_mono p wide xs narrow,
          count_if-update_lt p m p f a xs (λ x h. ground (arith, h, out x)) found
              (find-passes p a xs found) hit (out a),
        ))

  -- An update after which the rows that passed still pass.
  pub count_if-update_ge :
      (q m : A → Bool) (f : A → A) (xs : List A)
      → ((x : A) → q x ≡ true → q (f x) ≡ true)
      → count_if q xs ≤ count_if q (update_if m f xs)
  count_if-update_ge q m f [] h = omega arith
  count_if-update_ge q m f (x ∷ xs) h = ground (arith, h x, count_if-update_ge q m f xs h)

  -- It gains one where it hits a row that did not.
  pub count_if-update_gt :
      (q m : A → Bool) (f : A → A) (xs : List A)
      → ((x : A) → q x ≡ true → q (f x) ≡ true)
      → ((x : A) → m x ≡ true → q x ≡ false)
      → ((x : A) → m x ≡ true → q (f x) ≡ true)
      → any m xs ≡ true
      → suc (count_if q xs) ≤ count_if q (update_if m f xs)
  count_if-update_gt q m f [] h out hit found = ground (arith, found)
  count_if-update_gt q m f (x ∷ xs) h out hit found = ground (
    arith,
    h x,
    out x,
    hit x,
    found,
    count_if-update_ge q m f xs h,
    count_if-update_gt q m f xs h out hit,
  )

  pub count_if-keep_le : (q p : A → Bool) (xs : List A) → count_if q (keep_if p xs) ≤ count_if q xs
  count_if-keep_le q p [] = omega arith
  count_if-keep_le q p (x ∷ xs) = ground (arith, count_if-keep_le q p xs)

  -- A DELETE of rows that do not pass.
  pub count_if-keep :
      (q p : A → Bool) (xs : List A)
      → ((x : A) → q x ≡ true → p x ≡ true)
      → count_if q (keep_if p xs) ≡ count_if q xs
  count_if-keep q p [] h = refl
  count_if-keep q p (x ∷ xs) h = ground (arith, h x, count_if-keep q p xs h)

  pub count_if-absent :
      (q p : A → Bool) (xs : List A)
      → ((x : A) → q x ≡ true → p x ≡ true)
      → any p xs ≡ false
      → count_if q xs ≡ 0
  count_if-absent q p [] h a = refl
  count_if-absent q p (x ∷ xs) h a = ground (arith, h x, a, count_if-absent q p xs h)
