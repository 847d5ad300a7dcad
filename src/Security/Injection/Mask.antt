-- ===== src/Security/Injection/Mask.antt =====
-- `_neutralize` against a description of its result by the covered positions alone.
use oriion.Prelude.{
  ℕ, zero, suc, ◌+◌, ◌-◌, ◌≤◌, ◌<◌, ◌≡◌, refl, sym, ap, ◌∙◌, Bool, true, false, List, [], ◌∷◌, ◌++◌,
  map, keep_if, Bool-cases, inl, inr, All, length, take, drop, drop-drop, length-drop, arith,
  if◌then◌else◌,
}
use oriion.Security.Injection.{
  Span, sort_by, merge_all, render, neutralize, Finding, is_nonempty, span_of, neutralized, scan,
}
use oriion.Security.Injection.Spans.{
  covers, key, IsSpan, Separate, merge_all-Separate, merge_all-covers, Separate-below,
}

module _ {A : Type 0} (marker : List A) where
  -- The text from position `i` on with a marker in place of each run of covered characters;
  -- `inside` says that the character before is covered.
  abbrev pub mask : (ℕ → Bool) → ℕ → Bool → List A → List A
  mask covered i inside [] = []
  mask covered i inside (x ∷ xs) =
      let rest = mask covered (suc i) (covered i) xs in
      if covered i then (if inside then rest else marker ++ rest) else x ∷ rest

  mask_ext :
      (c d : ℕ → Bool) (i : ℕ) (b : Bool) (xs : List A)
      → ((j : ℕ) → i ≤ j → c j ≡ d j)
      → mask c i b xs ≡ mask d i b xs
  mask_ext c d i b [] h = refl
  mask_ext c d i b (x ∷ xs) h =
      rw (h i (omega arith), mask_ext c d (suc i) (d i) xs (λ j l. h j (omega (arith, l)))) refl

  mask_none : (i : ℕ) (b : Bool) (xs : List A) → mask (λ _. false) i b xs ≡ xs
  mask_none i b [] = refl
  mask_none i b (x ∷ xs) = ap (λ ys. x ∷ ys) (mask_none (suc i) false xs)

  mask_outside :
      (c : ℕ → Bool) (i : ℕ) (xs : List A) → c i ≡ false → mask c i true xs ≡ mask c i false xs
  mask_outside c i [] h = refl
  mask_outside c i (x ∷ xs) h = rw h refl

  -- Over a run of characters that are not covered, and over a run of covered ones.
  mask_plain :
      (c : ℕ → Bool) (n i k : ℕ) (xs : List A)
      → i + n ≡ k
      → ((j : ℕ) → i ≤ j → j < k → c j ≡ false)
      → mask c i false xs ≡ take n xs ++ mask c k false (drop n xs)
  mask_plain c zero i k xs e h = ap (λ m. mask c m false xs) (omega (arith, e))
  mask_plain c (suc n) i k [] e h = refl
  mask_plain c (suc n) i k (x ∷ xs) e h = rw (h i (omega arith) (omega (arith, e))) (
      ap (λ ys. x ∷ ys)
        (mask_plain c n (suc i) k xs (omega (arith, e)) (λ j l m. h j (omega (arith, l)) m)))

  mask_run :
      (c : ℕ → Bool) (n i k : ℕ) (xs : List A)
      → i + n ≡ k
      → ((j : ℕ) → i ≤ j → j < k → c j ≡ true)
      → mask c i true xs ≡ mask c k true (drop n xs)
  mask_run c zero i k xs e h = ap (λ m. mask c m true xs) (omega (arith, e))
  mask_run c (suc n) i k [] e h = refl
  mask_run c (suc n) i k (x ∷ xs) e h =
      rw (h i (omega arith) (omega (arith, e)))
        (mask_run c n (suc i) k xs (omega (arith, e)) (λ j l m. h j (omega (arith, l)) m))

  mask_marked :
      (c : ℕ → Bool) (n i k : ℕ) (xs : List A)
      → i + n ≡ k
      → i < k
      → n ≤ length xs
      → ((j : ℕ) → i ≤ j → j < k → c j ≡ true)
      → mask c i false xs ≡ marker ++ mask c k true (drop n xs)
  mask_marked c zero i k xs e l m h = absurd (omega (arith, e, l))
  mask_marked c (suc n) i k [] e l m h = absurd (omega (arith, m))
  mask_marked c (suc n) i k (x ∷ xs) e l m h = rw (h i (omega arith) l) (
      ap (λ ys. marker ++ ys)
        (mask_run c n (suc i) k xs (omega (arith, e)) (λ j p q. h j (omega (arith, p)) q)))

module _ {A : Type 0} (marker : List A) (text : List A) where
  Separate-from :
      (lo lo' : ℕ) (ss : List Span)
      → lo' ≤ lo
      → Separate (length text) lo ss
      → Separate (length text) lo' ss
  Separate-from lo lo' [] h a = tt
  Separate-from lo lo' ((s, e) ∷ ss) h (a, b, c, d) = (omega (arith, h, a), b, c, d)

  -- The rest of the text, from the start of a span that comes next.
  mask_span :
      (s e : ℕ) (ss : List Span)
      → s < e
      → e ≤ length text
      → Separate (length text) (e + 1) ss
      → mask marker (covers ((s, e) ∷ ss)) s false (drop s text)
        ≡ marker ++ mask marker (covers ss) e false (drop e text)
  mask_span s e ss b c d =
      mask_marked marker (covers ((s, e) ∷ ss)) (e - s) s e (drop s text) (omega (arith, b)) b
        (rw (length-drop s text) (omega (arith, b, c))) (λ j l m. ground (arith, l, m))
      ∙ ap (λ ys. marker ++ mask marker (covers ((s, e) ∷ ss)) e true ys)
          (drop-drop (e - s) s e text (omega (arith, b)))
      ∙ ap (λ ys. marker ++ ys)
          (mask_ext marker (covers ((s, e) ∷ ss)) (covers ss) e true (drop e text)
              (λ j l. ground (arith, l))
            ∙ mask_outside marker (covers ss) e (drop e text)
                (Separate-below (length text) (e + 1) ss e d (omega arith)))

  render-mask :
      (prev : ℕ) (ss : List Span)
      → Separate (length text) prev ss
      → render marker text prev ss ≡ mask marker (covers ss) prev false (drop prev text)
  unfolding render
  render-mask prev [] a = sym (mask_none marker prev false (drop prev text))
  render-mask prev ((s, e) ∷ ss) (a, b, c, d) =
      ap (λ ys. take (s - prev) (drop prev text) ++ (marker ++ ys))
        (render-mask e ss (Separate-from (e + 1) e ss (omega arith) d))
      ∙ ap (λ ys. take (s - prev) (drop prev text) ++ ys)
          (sym (mask_span s e ss b c d)
            ∙ ap (λ ys. mask marker (covers ((s, e) ∷ ss)) s false ys)
                (sym (drop-drop (s - prev) prev s text (omega (arith, a)))))
      ∙ sym (
          mask_plain marker (covers ((s, e) ∷ ss)) (s - prev) prev s (drop prev text)
            (omega (arith, a))
            (λ j l m. Separate-below (length text) s ((s, e) ∷ ss) j (omega arith, b, c, d) m))

  neutralize-mask :
      (spans : List Span)
      → All (IsSpan (length text)) spans
      → neutralize marker text spans ≡ mask marker (covers spans) 0 false text
  unfolding neutralize
  neutralize-mask spans h =
      render-mask 0 (merge_all (sort_by key spans)) (merge_all-Separate (length text) spans h)
      ∙ mask_ext marker (covers (merge_all (sort_by key spans))) (covers spans) 0 false text
          (λ j l. merge_all-covers (length text) spans j h)

  -- A match of a pattern: it may be empty, and it is inside the text.
  abbrev pub IsMatch : Finding → Type 0
  IsMatch (_, (s, e)) = (s ≤ e) × (e ≤ length text)

  found_spans :
      (matches : List Finding)
      → All IsMatch matches
      → All (IsSpan (length text)) (map span_of (keep_if is_nonempty matches))
  found_spans [] h = tt
  found_spans ((i, (s, e)) ∷ ms) ((a, b), h) = elim (Bool-cases (is_nonempty (i, (s, e)))) [
    | inl y ↦ rw y ((ground (arith, a, y), b), found_spans ms h)
    | inr n ↦ rw n (found_spans ms h)
  ]

  found_covers :
      (matches : List Finding) (j : ℕ)
      → covers (map span_of (keep_if is_nonempty matches)) j ≡ covers (map span_of matches) j
  found_covers [] j = refl
  found_covers ((i, (s, e)) ∷ ms) j = elim (Bool-cases (is_nonempty (i, (s, e)))) [
    | inl y ↦ rw (y, found_covers ms j) refl
    | inr n ↦ rw n (ground (arith, n, found_covers ms j))
  ]

  neutralized-mask :
      (spans : List Span)
      → All (IsSpan (length text)) spans
      → neutralized marker text spans ≡ mask marker (covers spans) 0 false text
  unfolding neutralized
  neutralized-mask [] h = sym (mask_none marker 0 false text)
  neutralized-mask (s ∷ spans) h = neutralize-mask (s ∷ spans) h

  -- Where every match lies inside the text, the text that the scan returns is the scanned text with
  -- one marker in place of each longest run of characters that some match covers.
  pub scan-mask :
      (matches : List Finding)
      → All IsMatch matches
      → (scan marker matches text).0 ≡ mask marker (covers (map span_of matches)) 0 false text
  unfolding scan
  scan-mask matches h =
      neutralized-mask (map span_of (keep_if is_nonempty matches)) (found_spans matches h)
      ∙ mask_ext marker (covers (map span_of (keep_if is_nonempty matches)))
          (covers (map span_of matches)) 0 false text (λ j l. found_covers matches j)
