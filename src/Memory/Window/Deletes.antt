-- ===== src/Memory/Window/Deletes.antt =====
-- Deleting the oldest messages of one agent, by their ids.
use oriion.Prelude.{
  ℕ, zero, suc, ◌≡◌, refl, ap, ◌∙◌, Bool, true, false, not, ◌||◌, List, [], ◌∷◌, ◌++◌, map, keep_if,
  take, drop, elem, any, ◌==◌, arith, inl, inr, Bool-cases,
}
use oriion.Memory.{ConversationMessage, delete_ids}

abbrev pub id_of : ConversationMessage → ℕ
id_of m = m.id

abbrev pub has_id : ℕ → ConversationMessage → Bool
has_id i m = m.id == i

-- No two messages have an id.
abbrev pub Distinct : List ConversationMessage → Type 0
Distinct [] = Unit
Distinct (m ∷ ms) = (any (has_id m.id) ms ≡ false) × Distinct ms

abbrev pub not_in : List ℕ → ConversationMessage → Bool
not_in ids m = not (elem m.id ids)

pub delete_ids_keep :
    (ids : List ℕ) (rows : List ConversationMessage)
    → delete_ids ids rows ≡ keep_if (not_in ids) rows
unfolding delete_ids
delete_ids_keep [] [] = refl
delete_ids_keep [] (m ∷ rows) = ap (λ ms. m ∷ ms) (delete_ids_keep [] rows)
delete_ids_keep (i ∷ ids) rows = refl

not_in_absent :
    (i : ℕ) (ids : List ℕ) (rows : List ConversationMessage)
    → any (has_id i) rows ≡ false
    → keep_if (not_in (i ∷ ids)) rows ≡ keep_if (not_in ids) rows
not_in_absent i ids [] h = refl
not_in_absent i ids (m ∷ rows) h =
    rw (not_same m.id i (ground (arith, h)), not_in_absent i ids rows (ground (arith, h))) refl
  where
    not_same : (j k : ℕ) → (j == k) ≡ false → (k == j) ≡ false
    not_same j k e = ground (arith, e)

pub any_keep :
    (i : ℕ) (p : ConversationMessage → Bool) (rows : List ConversationMessage)
    → any (has_id i) rows ≡ false
    → any (has_id i) (keep_if p rows) ≡ false
any_keep i p [] h = refl
any_keep i p (m ∷ rows) h = ground (arith, h, any_keep i p rows)

pub Distinct-keep :
    (p : ConversationMessage → Bool) (rows : List ConversationMessage)
    → Distinct rows
    → Distinct (keep_if p rows)
Distinct-keep p [] d = tt
Distinct-keep p (m ∷ rows) (e, d) = elim (Bool-cases (p m)) [
  | inl y ↦ rw y (any_keep m.id p rows e, Distinct-keep p rows d)
  | inr n ↦ rw n (Distinct-keep p rows d)
]

pub any_snoc :
    (i : ℕ) (ms : List ConversationMessage) (m : ConversationMessage)
    → any (has_id i) (ms ++ m ∷ []) ≡ (any (has_id i) ms || (m.id == i))
any_snoc i [] m = ground arith
any_snoc i (x ∷ ms) m = ground (arith, any_snoc i ms m)

pub Distinct-append :
    (rows : List ConversationMessage) (m : ConversationMessage)
    → Distinct rows
    → any (has_id m.id) rows ≡ false
    → Distinct (rows ++ m ∷ [])
Distinct-append [] m d h = (refl, tt)
Distinct-append (r ∷ rows) m (e, d) h =
    (any_snoc r.id rows m ∙ ground (arith, e, h), Distinct-append rows m d (ground (arith, h)))

pub keep_snoc_own :
    (p : ConversationMessage → Bool) (rows : List ConversationMessage) (m : ConversationMessage)
    → p m ≡ true
    → keep_if p (rows ++ m ∷ []) ≡ keep_if p rows ++ m ∷ []
keep_snoc_own p [] m h = rw h refl
keep_snoc_own p (r ∷ rows) m h = elim (Bool-cases (p r)) [
  | inl y ↦ rw (y, keep_snoc_own p rows m h) refl
  | inr n ↦ rw (n, keep_snoc_own p rows m h) refl
]

pub keep_snoc_other :
    (p : ConversationMessage → Bool) (rows : List ConversationMessage) (m : ConversationMessage)
    → p m ≡ false
    → keep_if p (rows ++ m ∷ []) ≡ keep_if p rows
keep_snoc_other p [] m h = rw h refl
keep_snoc_other p (r ∷ rows) m h = elim (Bool-cases (p r)) [
  | inl y ↦ rw (y, keep_snoc_other p rows m h) refl
  | inr n ↦ rw (n, keep_snoc_other p rows m h) refl
]

pub keep_all : (rows : List ConversationMessage) → keep_if (not_in []) rows ≡ rows
keep_all [] = refl
keep_all (m ∷ rows) = ap (λ ms. m ∷ ms) (keep_all rows)

module _ (p : ConversationMessage → Bool) where
  -- The ids of the first messages that pass.
  abbrev pub first_ids : ℕ → List ConversationMessage → List ℕ
  first_ids n rows = map id_of (take n (keep_if p rows))

  first_ids_absent :
      (i n : ℕ) (rows : List ConversationMessage)
      → any (has_id i) rows ≡ false
      → elem i (first_ids n rows) ≡ false
  first_ids_absent i zero rows h = refl
  first_ids_absent i (suc n) [] h = refl
  first_ids_absent i (suc n) (m ∷ rows) h = elim (Bool-cases (p m)) [
    | inl y ↦ rw y (ground (arith, h, first_ids_absent i n rows))
    | inr z ↦ rw z (first_ids_absent i (suc n) rows (ground (arith, h)))
  ]

  first_ids_own :
      (n : ℕ) (m : ConversationMessage) (rows : List ConversationMessage)
      → p m ≡ true
      → first_ids (suc n) (m ∷ rows) ≡ m.id ∷ first_ids n rows
  first_ids_own n m rows y = rw y refl

  first_ids_next :
      (n : ℕ) (m : ConversationMessage) (rows : List ConversationMessage)
      → p m ≡ false
      → first_ids n (m ∷ rows) ≡ first_ids n rows
  first_ids_next n m rows z = rw z refl

  -- The first message goes, and the others as without it.
  delete_head :
      (n : ℕ) (m : ConversationMessage) (rows : List ConversationMessage)
      → p m ≡ true
      → any (has_id m.id) rows ≡ false
      → keep_if (not_in (first_ids (suc n) (m ∷ rows))) (m ∷ rows)
        ≡ keep_if (not_in (first_ids n rows)) rows
  delete_head n m rows y e =
      ap (λ ids. keep_if (not_in ids) (m ∷ rows)) (first_ids_own n m rows y)
      ∙ rw (own_id m.id) (not_in_absent m.id (first_ids n rows) rows e)
    where
      own_id : (i : ℕ) → (i == i) ≡ true
      own_id i = ground arith

  delete_next :
      (n : ℕ) (m : ConversationMessage) (rows : List ConversationMessage)
      → p m ≡ false
      → any (has_id m.id) rows ≡ false
      → keep_if (not_in (first_ids n (m ∷ rows))) (m ∷ rows)
        ≡ m ∷ keep_if (not_in (first_ids n rows)) rows
  delete_next n m rows z e =
      ap (λ ids. keep_if (not_in ids) (m ∷ rows)) (first_ids_next n m rows z)
      ∙ rw (first_ids_absent m.id n rows e) refl

  -- Of those that pass, the deletion takes the first ones; of those that pass a test apart from it, none.
  pub delete_own :
      (n : ℕ) (rows : List ConversationMessage)
      → Distinct rows
      → keep_if p (keep_if (not_in (first_ids n rows)) rows) ≡ drop n (keep_if p rows)
  delete_own zero rows d = ap (keep_if p) (keep_all rows)
  delete_own (suc n) [] d = refl
  delete_own (suc n) (m ∷ rows) (e, d) = elim (Bool-cases (p m)) [
    | inl y ↦ ap (keep_if p) (delete_head n m rows y e) ∙ rw y (delete_own n rows d)
    | inr z ↦ ap (keep_if p) (delete_next (suc n) m rows z e) ∙ rw z (delete_own (suc n) rows d)
  ]

  pub delete_other :
      (q : ConversationMessage → Bool) (n : ℕ) (rows : List ConversationMessage)
      → ((m : ConversationMessage) → p m ≡ true → q m ≡ false)
      → Distinct rows
      → keep_if q (keep_if (not_in (first_ids n rows)) rows) ≡ keep_if q rows
  delete_other q zero rows apart d = ap (keep_if q) (keep_all rows)
  delete_other q (suc n) [] apart d = refl
  delete_other q (suc n) (m ∷ rows) apart (e, d) = elim (Bool-cases (p m)) [
    | inl y ↦
        ap (keep_if q) (delete_head n m rows y e) ∙ rw (apart m y) (delete_other q n rows apart d)
    | inr z ↦
        ap (keep_if q) (delete_next (suc n) m rows z e)
        ∙ rw (delete_other q (suc n) rows apart d) refl
  ]
