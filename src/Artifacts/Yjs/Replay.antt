-- ===== src/Artifacts/Yjs/Replay.antt =====
-- A document's log played on the documents that it may start from.
use oriion.Prelude.{
  ℕ, ◌≤◌, ◌≡◌, ◌⊎◌, refl, ap, ◌∙◌, Bool, true, false, Option, none, some, List, [], ◌∷◌, ◌++◌, any,
  find, update_if, All, length, arith, inl, inr, Bool-cases,
}
use mathlib.Core.Path.{subst}
use oriion.Artifacts.Yjs.{Pycrdt, YjsDocument, YjsUpdate, YjsSnapshot, YjsDb, is_document}
use oriion.Artifacts.Yjs.Log.{log}

pub All-map :
    {A : Type 0} → (P Q : A → Type 0) (xs : List A) → ((x : A) → P x → Q x) → All P xs → All Q xs
All-map P Q [] f h = tt
All-map P Q (x ∷ xs) f (p, ps) = (f x p, All-map P Q xs f ps)

pub All-find :
    {A : Type 0}
    → (P : A → Type 0) (p : A → Bool) (a : A) (xs : List A) → find p xs ≡ some a
    → All P xs
    → P a
All-find P p a [] h ps = absurd (ground (arith, h))
All-find P p a (x ∷ xs) h (q, qs) = elim (Bool-cases (p x)) [
  | inl y ↦ subst P (ground (arith, h, y)) q
  | inr z ↦ All-find P p a xs (ground (arith, h, z)) qs
]

pub All-update :
    {A : Type 0}
    → (P Q : A → Type 0) (m : A → Bool) (a : A) (xs : List A) → ((x : A) → m x ≡ false → P x → Q x)
    → Q a
    → All P xs
    → All Q (update_if m (λ _. a) xs)
All-update P Q m a [] f q h = tt
All-update P Q m a (x ∷ xs) f q (p, ps) = elim (Bool-cases (m x)) [
  | inl y ↦ rw y (q, All-update P Q m a xs f q ps)
  | inr z ↦ rw z (f x z p, All-update P Q m a xs f q ps)
]

pub All-snoc :
    {A : Type 0} → (P : A → Type 0) (xs : List A) (x : A) → All P xs → P x → All P (xs ++ x ∷ [])
All-snoc P [] x h p = (p, tt)
All-snoc P (y ∷ xs) x (q, qs) p = (q, All-snoc P xs x qs p)

module _ {Bytes : Type 0} where
  pub any-flush :
      (i : ℕ) (row : YjsDocument Bytes) (ds : List (YjsDocument Bytes))
      → any (is_document i) (update_if (is_document row.id) (λ _. row) ds) ≡ any (is_document i) ds
  any-flush i row [] = refl
  any-flush i row (d ∷ ds) = ground (arith, any-flush i row ds)

  pub any-find :
      (p : YjsDocument Bytes → Bool) (row : YjsDocument Bytes) (ds : List (YjsDocument Bytes))
      → find p ds ≡ some row
      → any (is_document row.id) ds ≡ true
  any-find p row [] h = absurd (ground (arith, h))
  any-find p row (d ∷ ds) h = ground (arith, h, any-find p row ds)

module _ {Doc Bytes : Type 0} (lib : Pycrdt Doc Bytes) where
  abbrev pub replay : List (YjsUpdate Bytes) → Doc → Option Doc
  replay [] d = some d
  replay (u ∷ us) d = elim (lib.apply_update u.update_data d) [ none ↦ none | some e ↦ replay us e ]

  pub replay-append :
      (us : List (YjsUpdate Bytes)) (u : YjsUpdate Bytes) (d e : Doc)
      → replay us d ≡ some e
      → replay (us ++ u ∷ []) d ≡ lib.apply_update u.update_data e
  replay-append [] u d e h =
      whole (lib.apply_update u.update_data d)
      ∙ ap (lib.apply_update u.update_data) (ground (arith, h))
    where
      whole : (o : Option Doc) → (elim o [ none ↦ none | some x ↦ some x ]) ≡ o
      whole none = refl
      whole (some x) = refl
  replay-append (v ∷ us) u d e h =
      elim (lib.apply_update v.update_data d)
          as (λ o.
            (elim o [ none ↦ none | some x ↦ replay us x ]) ≡ some e
            → (elim o [ none ↦ none | some x ↦ replay (us ++ u ∷ []) x ])
              ≡ lib.apply_update u.update_data e) [
                | none ↦ λ h. absurd (ground (arith, h))
                | some x ↦ λ h. replay-append us u x e h
              ]
        h

  -- A document that the log starts from: the new one, or one that a snapshot holds.
  abbrev pub IsBase : ℕ → Doc → List (YjsSnapshot Bytes) → Type 0
  IsBase i base [] = base ≡ lib.new
  IsBase i base (s ∷ ss) =
      ((s.yjs_document_id ≡ i) × (lib.apply_update s.state lib.new ≡ some base)) ⊎ IsBase i base ss

  pub new-IsBase : (i : ℕ) (ss : List (YjsSnapshot Bytes)) → IsBase i lib.new ss
  new-IsBase i [] = refl
  new-IsBase i (s ∷ ss) = inr (new-IsBase i ss)

  pub append-IsBase :
      (i : ℕ) (base : Doc) (ss : List (YjsSnapshot Bytes)) (s : YjsSnapshot Bytes)
      → IsBase i base ss
      → IsBase i base (ss ++ s ∷ [])
  append-IsBase i base [] s h = inr h
  append-IsBase i base (t ∷ ss) s (inl h) = inl h
  append-IsBase i base (t ∷ ss) s (inr h) = inr (append-IsBase i base ss s h)

  pub last-IsBase :
      (base : Doc) (ss : List (YjsSnapshot Bytes)) (s : YjsSnapshot Bytes)
      → lib.apply_update s.state lib.new ≡ some base
      → IsBase s.yjs_document_id base (ss ++ s ∷ [])
  last-IsBase base [] s h = inl (refl, h)
  last-IsBase base (t ∷ ss) s h = inr (last-IsBase base ss s h)

  module _ (limit size : ℕ) where
    pub record Recovers (updates : List (YjsUpdate Bytes)) (snapshots : List (YjsSnapshot Bytes))
        (row : YjsDocument Bytes) : Type 0 where
      pub base : Doc
      pub head : Doc
      pub is_base : IsBase row.id base snapshots
      pub loads : lib.apply_update row.state lib.new ≡ some head
      pub replays : replay (log row.id updates) base ≡ some head
      pub counted : length (log row.id updates) ≡ row.update_count
      pub bounded : row.update_count ≤ limit

    pub record IsRecoverable (y : YjsDb Bytes) : Type 0 where
      pub documents : All (Recovers y.updates y.snapshots) y.documents
      pub no_strays : (i : ℕ) → any (is_document i) y.documents ≡ false → log i y.updates ≡ []

    -- What does not touch a document's log, and takes no snapshot away.
    pub same_log-Recovers :
        (updates₁ updates₂ : List (YjsUpdate Bytes))
        (snapshots₁ snapshots₂ : List (YjsSnapshot Bytes)) (row : YjsDocument Bytes)
        → log row.id updates₂ ≡ log row.id updates₁
        → ((base : Doc) → IsBase row.id base snapshots₁ → IsBase row.id base snapshots₂)
        → Recovers updates₁ snapshots₁ row
        → Recovers updates₂ snapshots₂ row
    same_log-Recovers us₁ us₂ ss₁ ss₂ row e f r = record {
      base = r.base;
      head = r.head;
      is_base = f r.base r.is_base;
      loads = r.loads;
      replays = rw e r.replays;
      counted = rw e r.counted;
      bounded = r.bounded;
    }
