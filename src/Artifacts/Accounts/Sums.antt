-- ===== src/Artifacts/Accounts/Sums.antt =====
-- What the tables of artifacts and versions add up to, under the writes.
use oriion.Prelude.{
  ℕ, zero, suc, ◌+◌, ◌<◌, ◌≡◌, refl, ap, ◌∙◌, Bool, true, false, ◌&&◌, ◌||◌, some, List, [], ◌∷◌,
  ◌++◌, All, any, find, map, keep_if, update_if, elem, ◌==◌, arith, if◌then◌else◌, inl, inr,
  Bool-cases,
}
use oriion.Prelude.Int.{ℤ}
use oriion.Artifacts.{
  Artifact, ArtifactVersion, is_live, has_id, of_artifact, live_in, same_num, sum_version_bytes,
  shift, add_bytes, get_bytes,
}

-- No two envelopes have an id.
abbrev pub Distinct : List Artifact → Type 0
Distinct [] = Unit
Distinct (a ∷ es) = (any (has_id a.id) es ≡ false) × Distinct es

abbrev pub numbers : ℕ → List ArtifactVersion → List ℕ
numbers i vs = map (λ (v : ArtifactVersion). v.version_num) (keep_if (of_artifact i) vs)

-- 1, 2, … n.
abbrev pub upto : ℕ → List ℕ
upto zero = []
upto (suc n) = upto n ++ suc n ∷ []

-- The bytes of the versions of the cell's artifacts that are not deleted.
abbrev pub live_bytes : ℕ → List ArtifactVersion → List Artifact → ℕ
live_bytes cell vs [] = 0
live_bytes cell vs (a ∷ es) =
    (if a.cell_id == cell && is_live a then sum_version_bytes a.id vs else 0)
    + live_bytes cell vs es

elem-append : (m : ℕ) (xs ys : List ℕ) → elem m (xs ++ ys) ≡ (elem m xs || elem m ys)
elem-append m [] ys = refl
elem-append m (x ∷ xs) ys = ground (arith, elem-append m xs ys)

pub elem-upto : (m n : ℕ) → n < m → elem m (upto n) ≡ false
elem-upto m zero h = refl
elem-upto m (suc n) h = elem-append m (upto n) (suc n ∷ []) ∙ ground (arith, h, elem-upto m n)

pub any-same_num :
    (v : ArtifactVersion) (vs : List ArtifactVersion)
    → any (same_num v) vs ≡ elem v.version_num (numbers v.artifact_id vs)
any-same_num v [] = refl
any-same_num v (u ∷ vs) = ground (arith, any-same_num v vs)

pub numbers-append :
    (i : ℕ) (vs : List ArtifactVersion) (v : ArtifactVersion)
    → (v.artifact_id == i) ≡ true
    → numbers i (vs ++ v ∷ []) ≡ numbers i vs ++ v.version_num ∷ []
numbers-append i [] v h = rw h refl
numbers-append i (u ∷ vs) v h = elim (Bool-cases (u.artifact_id == i)) [
  | inl y ↦ rw y (ap (λ ns. u.version_num ∷ ns) (numbers-append i vs v h))
  | inr n ↦ rw n (numbers-append i vs v h)
]

pub numbers-other :
    (i : ℕ) (vs : List ArtifactVersion) (v : ArtifactVersion)
    → (v.artifact_id == i) ≡ false
    → numbers i (vs ++ v ∷ []) ≡ numbers i vs
numbers-other i [] v h = rw h refl
numbers-other i (u ∷ vs) v h = elim (Bool-cases (u.artifact_id == i)) [
  | inl y ↦ rw y (ap (λ ns. u.version_num ∷ ns) (numbers-other i vs v h))
  | inr n ↦ rw n (numbers-other i vs v h)
]

pub sum_version_bytes-append :
    (i : ℕ) (vs : List ArtifactVersion) (v : ArtifactVersion)
    → sum_version_bytes i (vs ++ v ∷ [])
      ≡ sum_version_bytes i vs + (if v.artifact_id == i then v.byte_size else 0)
sum_version_bytes-append i [] v = ground arith
sum_version_bytes-append i (u ∷ vs) v = ground (arith, sum_version_bytes-append i vs v)

-- A version belongs to an envelope that is there.
abbrev pub Known : List Artifact → List ArtifactVersion → Type 0
Known es = All (λ v. any (has_id v.artifact_id) es ≡ true)

pub numbers-absent :
    (i : ℕ) (es : List Artifact) (vs : List ArtifactVersion)
    → Known es vs
    → any (has_id i) es ≡ false
    → keep_if (of_artifact i) vs ≡ []
numbers-absent i es [] k h = refl
numbers-absent i es (v ∷ vs) (e, k) h = elim (Bool-cases (v.artifact_id == i)) [
  | inl y ↦ absurd (ground (arith, e, h, y))
  | inr n ↦ rw n (numbers-absent i es vs k h)
]

pub any-append :
    (i : ℕ) (es : List Artifact) (a : Artifact)
    → any (has_id i) (es ++ a ∷ []) ≡ (any (has_id i) es || (a.id == i))
any-append i [] a = ground arith
any-append i (b ∷ es) a = ground (arith, any-append i es a)

pub live_bytes-append :
    (cell : ℕ) (vs : List ArtifactVersion) (es : List Artifact) (a : Artifact)
    → keep_if (of_artifact a.id) vs ≡ []
    → live_bytes cell vs (es ++ a ∷ []) ≡ live_bytes cell vs es
live_bytes-append cell vs [] a h = rw h (ground arith)
live_bytes-append cell vs (b ∷ es) a h =
    ap (λ n. (if b.cell_id == cell && is_live b then sum_version_bytes b.id vs else 0) + n)
      (live_bytes-append cell vs es a h)

pub find-has_id :
    (cell i : ℕ) (a : Artifact) (es : List Artifact)
    → find (live_in cell i) es ≡ some a
    → any (has_id i) es ≡ true
find-has_id cell i a [] h = absurd (ground (arith, h))
find-has_id cell i a (b ∷ es) h = ground (arith, find-has_id cell i a es, h)

same_key : (k cell c : ℕ) → (k == cell) ≡ true → (k == c) ≡ (cell == c)
same_key k cell c h = ground (arith, h)

other_key : (k cell c : ℕ) → (k == cell) ≡ false → (k == c) ≡ true → (cell == c) ≡ false
other_key k cell c h e = ground (arith, h, e)

pub get_bytes-add_bytes :
    (c cell : ℕ) (d : ℤ) (rows : List (ℕ × ℕ))
    → get_bytes c (add_bytes cell d rows)
      ≡ (if cell == c then shift (get_bytes c rows) d else get_bytes c rows)
get_bytes-add_bytes c cell d [] = refl
get_bytes-add_bytes c cell d ((k, total) ∷ rows) = elim (Bool-cases (k == cell)) [
  | inl y ↦
      rw (y, same_key k cell c y)
        (elim (Bool-cases (cell == c)) [ inl z ↦ rw z refl | inr z ↦ rw z refl ])
  | inr n ↦ rw n (elim (Bool-cases (k == c)) [
    | inl z ↦ rw (z, other_key k cell c n z) refl
    | inr z ↦ rw z (get_bytes-add_bytes c cell d rows)
  ])
]

-- UPDATEs of envelopes.
pub any-update :
    (j : ℕ) (p : Artifact → Bool) (f : Artifact → Artifact) (es : List Artifact)
    → ((a : Artifact) → (f a).id ≡ a.id)
    → any (has_id j) (update_if p f es) ≡ any (has_id j) es
any-update j p f [] h = refl
any-update j p f (a ∷ es) h = elim (Bool-cases (p a)) [
  | inl y ↦ rw (y, h a, any-update j p f es h) refl
  | inr n ↦ rw (n, any-update j p f es h) refl
]

pub Distinct-update :
    (p : Artifact → Bool) (f : Artifact → Artifact) (es : List Artifact)
    → ((a : Artifact) → (f a).id ≡ a.id)
    → Distinct es
    → Distinct (update_if p f es)
Distinct-update p f [] h d = tt
Distinct-update p f (a ∷ es) h (e, d) = elim (Bool-cases (p a)) [
  | inl y ↦ rw (y, h a, any-update a.id p f es h) (e, Distinct-update p f es h d)
  | inr n ↦ rw (n, any-update a.id p f es h) (e, Distinct-update p f es h d)
]

pub Distinct-append :
    (es : List Artifact) (a : Artifact)
    → Distinct es
    → any (has_id a.id) es ≡ false
    → Distinct (es ++ a ∷ [])
Distinct-append [] a d h = (refl, tt)
Distinct-append (b ∷ es) a (e, d) h =
    (any-append b.id es a ∙ ground (arith, e, h), Distinct-append es a d (ground (arith, h)))
