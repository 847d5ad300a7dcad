-- ===== src/Security/Injection.antt =====
-- security/detectors/injection.py: what the scanner makes of a text, given what the patterns matched.
-- A text is the list of its characters; a match is a pattern's id with its start and end.
pub mod Mask
pub mod Spans
use oriion.Prelude.{
  ℕ, ◌-◌, ◌+◌, String, Bool, true, false, not, ◌&&◌, ◌||◌, List, [], ◌∷◌, ◌++◌, map, leb, ltb, ◌==◌,
  take, drop, keep_if, if◌then◌else◌,
}

abbrev pub Span : Type 0
Span = ℕ × ℕ

-- The order of tuples.
abbrev pub span_le : Span → Span → Bool
span_le (s, e) (t, f) = ltb s t || (s == t && leb e f)

-- A stable sort by a span.
insert_by : {A : Type 0} → (A → Span) → A → List A → List A
insert_by key x [] = x ∷ []
insert_by key x (y ∷ ys) =
    let rest = insert_by key x ys in if span_le (key x) (key y) then x ∷ y ∷ ys else y ∷ rest

pub sort_by : {A : Type 0} → (A → Span) → List A → List A
unfolding insert_by
sort_by key [] = []
sort_by key (x ∷ xs) = insert_by key x (sort_by key xs)

-- The merging loop, with its current span.
merge : ℕ → ℕ → List Span → List Span
merge cur_start cur_end [] = (cur_start, cur_end) ∷ []
merge cur_start cur_end ((s, e) ∷ rest) = elim (leb s cur_end) [
  | true ↦ merge cur_start (if leb cur_end e then e else cur_end) rest
  | false ↦ (cur_start, cur_end) ∷ merge s e rest
]

pub merge_all : List Span → List Span
unfolding merge
merge_all [] = []
merge_all ((s, e) ∷ rest) = merge s e rest

module _ {A : Type 0} (marker : List A) where
  -- The pieces of the text, with the marker for each merged span.
  render : List A → ℕ → List Span → List A
  render text prev [] = drop prev text
  render text prev ((s, e) ∷ rest) =
      take (s - prev) (drop prev text) ++ (marker ++ render text e rest)

  -- `_neutralize`.
  unfoldable pub neutralize : List A → List Span → List A
  unfolding sort_by merge_all render
  neutralize text spans = render text 0 (merge_all (sort_by (λ s. s) spans))

abbrev pub Finding : Type 0
Finding = String × Span

abbrev is_nonempty : Finding → Bool
is_nonempty (_, (s, e)) = not (e == s)

abbrev pub span_of : Finding → Span
span_of f = f.1

neutralized : {A : Type 0} → List A → List A → List Span → List A
neutralized marker text [] = text
neutralized marker text (s ∷ spans) = neutralize marker text (s ∷ spans)

-- `scan` on what the patterns matched: the neutralized text and the findings in order.
unfoldable pub scan : {A : Type 0} → List A → List Finding → List A → List A × List Finding
unfolding neutralized sort_by
scan marker matches text =
    let findings = keep_if is_nonempty matches in
    (neutralized marker text (map span_of findings), sort_by span_of findings)
