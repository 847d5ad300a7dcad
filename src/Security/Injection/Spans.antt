-- ===== src/Security/Injection/Spans.antt =====
-- Sorting and merging keep what the spans cover, and leave them apart.
use oriion.Prelude.{
  ℕ, ◌+◌, ◌≤◌, ◌<◌, ◌≡◌, refl, ap, ◌∙◌, Bool, false, ◌&&◌, ◌||◌, List, [], ◌∷◌, leb, ltb, All,
  arith, inl, inr, Bool-cases, if◌then◌else◌,
}
use oriion.Security.Injection.{Span, span_le, insert_by, sort_by, merge, merge_all}

abbrev pub in_span : ℕ → Span → Bool
in_span i (s, e) = leb s i && ltb i e

-- The position is in some span.
abbrev pub covers : List Span → ℕ → Bool
covers [] i = false
covers (s ∷ ss) i = in_span i s || covers ss i

abbrev pub key : Span → Span
key s = s

module _ (n : ℕ) where
  -- Not empty, and inside a text of `n` characters.
  abbrev pub IsSpan : Span → Type 0
  IsSpan (s, e) = (s < e) × (e ≤ n)

  -- In order of their starts, from `lo` on.
  abbrev Ascending : ℕ → List Span → Type 0
  Ascending lo [] = Unit
  Ascending lo ((s, e) ∷ ss) = (lo ≤ s) × (s < e) × (e ≤ n) × Ascending s ss

  -- Apart from each other, from `lo` on.
  abbrev pub Separate : ℕ → List Span → Type 0
  Separate lo [] = Unit
  Separate lo ((s, e) ∷ ss) = (lo ≤ s) × (s < e) × (e ≤ n) × Separate (e + 1) ss

  Ascending-from : (lo lo' : ℕ) (ss : List Span) → lo' ≤ lo → Ascending lo ss → Ascending lo' ss
  Ascending-from lo lo' [] h a = tt
  Ascending-from lo lo' ((s, e) ∷ ss) h (a, b, c, d) = (omega (arith, h, a), b, c, d)

  insert_by-Ascending :
      (lo s e : ℕ) (ss : List Span)
      → lo ≤ s
      → s < e
      → e ≤ n
      → Ascending lo ss
      → Ascending lo (insert_by key (s, e) ss)
  unfolding insert_by
  insert_by-Ascending lo s e [] h b c a = (h, b, c, tt)
  insert_by-Ascending lo s e ((t, f) ∷ ss) h b c (a, b', c', d) =
      elim (Bool-cases (span_le (s, e) (t, f))) [
        | inl y ↦ rw y (h, b, c, (ground (arith, y), b', c', d))
        | inr no' ↦ rw no' (a, b', c', insert_by-Ascending t s e ss (ground (arith, no')) b c d)
      ]

  sort_by-Ascending : (ss : List Span) → All IsSpan ss → Ascending 0 (sort_by key ss)
  unfolding sort_by
  sort_by-Ascending [] h = tt
  sort_by-Ascending ((s, e) ∷ ss) ((b, c), h) =
      insert_by-Ascending 0 s e (sort_by key ss) (omega arith) b c (sort_by-Ascending ss h)

  merge-Separate :
      (lo s e : ℕ) (ss : List Span)
      → lo ≤ s
      → s < e
      → e ≤ n
      → Ascending s ss
      → Separate lo (merge s e ss)
  unfolding merge
  merge-Separate lo s e [] h b c a = (h, b, c, tt)
  merge-Separate lo s e ((t, f) ∷ ss) h b c (a, b', c', d) = elim (Bool-cases (leb t e)) [
    | inl y ↦
        rw (y, merge)
          (merge-Separate lo s (if leb e f then f else e) ss h (ground (arith, b, b'))
            (ground (arith, c, c')) (Ascending-from t s ss a d))
    | inr no' ↦
        rw (no', merge) (h, b, c, merge-Separate (e + 1) t f ss (ground (arith, no')) b' c' d)
  ]

  pub merge_all-Separate :
      (ss : List Span) → All IsSpan ss → Separate 0 (merge_all (sort_by key ss))
  unfolding merge_all
  merge_all-Separate ss h = merged (sort_by key ss) (sort_by-Ascending ss h)
    where
      merged : (xs : List Span) → Ascending 0 xs → Separate 0 (merge_all xs)
      merged [] a = tt
      merged ((s, e) ∷ xs) (a, b, c, d) = merge-Separate 0 s e xs a b c d

  insert_by-covers :
      (x : Span) (ss : List Span) (i : ℕ)
      → covers (insert_by key x ss) i ≡ (in_span i x || covers ss i)
  unfolding insert_by
  insert_by-covers x [] i = refl
  insert_by-covers x (y ∷ ss) i = ground (arith, insert_by-covers x ss i)

  sort_by-covers : (ss : List Span) (i : ℕ) → covers (sort_by key ss) i ≡ covers ss i
  unfolding sort_by
  sort_by-covers [] i = refl
  sort_by-covers (x ∷ ss) i =
      insert_by-covers x (sort_by key ss) i
      ∙ ap (λ (b : Bool). in_span i x || b) (sort_by-covers ss i)

  merge-covers :
      (s e : ℕ) (ss : List Span) (i : ℕ)
      → s < e
      → Ascending s ss
      → covers (merge s e ss) i ≡ (in_span i (s, e) || covers ss i)
  unfolding merge
  merge-covers s e [] i b a = refl
  merge-covers s e ((t, f) ∷ ss) i b (a, b', c', d) = elim (Bool-cases (leb t e)) [
    | inl y ↦
        rw (y, merge)
          (ground (
            arith,
            y,
            merge-covers s (if leb e f then f else e) ss i (ground (arith, b, b'))
                (Ascending-from t s ss a d),
          ))
    | inr no' ↦ rw (no', merge) (ground (arith, merge-covers t f ss i b' d))
  ]

  pub merge_all-covers :
      (ss : List Span) (i : ℕ) → All IsSpan ss → covers (merge_all (sort_by key ss)) i ≡ covers ss i
  unfolding merge_all
  merge_all-covers ss i h = merged (sort_by key ss) (sort_by-Ascending ss h) ∙ sort_by-covers ss i
    where
      merged : (xs : List Span) → Ascending 0 xs → covers (merge_all xs) i ≡ covers xs i
      merged [] a = refl
      merged ((s, e) ∷ xs) (a, b, c, d) = merge-covers s e xs i b d

  -- Below the start nothing is covered.
  pub Separate-below :
      (lo : ℕ) (ss : List Span) (i : ℕ) → Separate lo ss → i < lo → covers ss i ≡ false
  Separate-below lo [] i a h = refl
  Separate-below lo ((s, e) ∷ ss) i (a, b, c, d) h =
      ground (arith, a, b, h, Separate-below (e + 1) ss i d)
