-- ===== src/Memory/Window/Recent.antt =====
-- What `recent` selects: the last messages, oldest first.
use oriion.Prelude.{
  ℕ, zero, suc, ◌-◌, ◌≤◌, ◌≡◌, refl, sym, ap, ◌∙◌, List, [], ◌∷◌, ◌++◌, keep_if, length,
  length-append, drop_nil, take, drop, last, leb, arith, inl, inr, Bool-cases,
}
use oriion.Memory.{ConversationMessage, of_agent, reverse, recent_rows}

module _ {A : Type 0} where
  reverse_snoc : (xs : List A) (x : A) → reverse (xs ++ x ∷ []) ≡ x ∷ reverse xs
  reverse_snoc [] x = refl
  reverse_snoc (y ∷ xs) x = rw (reverse_snoc xs x) refl

  reverse-reverse : (xs : List A) → reverse (reverse xs) ≡ xs
  reverse-reverse [] = refl
  reverse-reverse (x ∷ xs) = reverse_snoc (reverse xs) x ∙ ap (λ ys. x ∷ ys) (reverse-reverse xs)

  length-reverse : (xs : List A) → length (reverse xs) ≡ length xs
  length-reverse [] = refl
  length-reverse (x ∷ xs) = length-append (reverse xs) (x ∷ []) ∙ omega (arith, length-reverse xs)

  take_first : (n : ℕ) (xs ys : List A) → n ≤ length xs → take n (xs ++ ys) ≡ take n xs
  take_first zero xs ys h = refl
  take_first (suc n) [] ys h = absurd (omega (arith, h))
  take_first (suc n) (x ∷ xs) ys h = ap (λ zs. x ∷ zs) (take_first n xs ys (omega (arith, h)))

  take_all : (n : ℕ) (xs : List A) → length xs ≤ n → take n xs ≡ xs
  take_all zero [] h = refl
  take_all zero (x ∷ xs) h = absurd (omega (arith, h))
  take_all (suc n) [] h = refl
  take_all (suc n) (x ∷ xs) h = ap (λ zs. x ∷ zs) (take_all n xs (omega (arith, h)))

  last_cons : (n : ℕ) (x : A) (xs : List A) → n ≤ length xs → last n xs ≡ last n (x ∷ xs)
  last_cons n x xs h = ap (λ k. drop k (x ∷ xs)) index
    where
      index : suc (length xs - n) ≡ length (x ∷ xs) - n
      index = omega (arith, h)

  last_whole : (n : ℕ) (xs : List A) → length xs ≤ n → xs ≡ last n xs
  last_whole n xs h = ap (λ k. drop k xs) index
    where
      index : 0 ≡ length xs - n
      index = omega (arith, h)

  reverse-take : (n : ℕ) (xs : List A) → reverse (take n (reverse xs)) ≡ last n xs
  reverse-take zero [] = refl
  reverse-take (suc n) [] = sym (drop_nil (0 - suc n))
  reverse-take n (x ∷ xs) = elim (Bool-cases (leb n (length xs))) [
    | inl y ↦
        ap reverse (take_first n (reverse xs) (x ∷ []) (ground (arith, y, length-reverse xs)))
        ∙ reverse-take n xs
        ∙ last_cons n x xs (ground (arith, y))
    | inr z ↦
        ap reverse (take_all n (reverse (x ∷ xs)) (ground (arith, z, length-reverse (x ∷ xs))))
        ∙ reverse-reverse (x ∷ xs)
        ∙ last_whole n (x ∷ xs) (ground (arith, z))
  ]

pub recent_rows-last :
    (cell agent limit : ℕ) (rows : List ConversationMessage)
    → recent_rows cell agent limit rows ≡ last limit (keep_if (of_agent cell agent) rows)
recent_rows-last cell agent limit rows = reverse-take limit (keep_if (of_agent cell agent) rows)
