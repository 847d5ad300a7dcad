-- ===== src/Artifacts/Accounts/Updates.antt =====
-- What the writes of a version and of a soft delete do to the numbers and the sums.
use oriion.Prelude.{
  ℕ, suc, ◌+◌, ◌≡◌, refl, ap, ◌∙◌, true, false, some, List, [], ◌∷◌, ◌++◌, All, any, find,
  update_if, ◌==◌, arith, if◌then◌else◌, inl, inr, Bool-cases,
}
use oriion.Artifacts.{Artifact, ArtifactVersion, has_id, live_in, sum_version_bytes}
use oriion.Artifacts.Accounts.Sums.{
  Distinct, numbers, upto, live_bytes, numbers-append, numbers-other, sum_version_bytes-append,
  find-has_id,
}

-- The numbers of the envelope's versions are 1, 2, … up to its head.
abbrev pub Numbered : List ArtifactVersion → Artifact → Type 0
Numbered vs a = numbers a.id vs ≡ upto a.current_version_num

-- What the head's UPDATE and the soft delete set.
abbrev pub head_of : ArtifactVersion → Artifact → Artifact
head_of v a = record a { current_version_num = v.version_num }

abbrev pub deleted : ℕ → Artifact → Artifact
deleted now a = record a { deleted_at = some now }

-- The envelope that is locked is the first with its id.
here_live :
    (cell i : ℕ) (a b : Artifact) (es : List Artifact)
    → find (live_in cell i) (b ∷ es) ≡ some a
    → any (has_id b.id) es ≡ false
    → (b.id == i) ≡ true
    → live_in cell i b ≡ true
here_live cell i a b es found e y = ground (arith, found, e, y, find-has_id cell i a es)

pub here_is :
    (cell i : ℕ) (a b : Artifact) (es : List Artifact)
    → find (live_in cell i) (b ∷ es) ≡ some a
    → live_in cell i b ≡ true
    → b ≡ a
here_is cell i a b es found l = ground (arith, found, l)

-- A version written after the head of its envelope.
module _ (vs : List ArtifactVersion) (v : ArtifactVersion) where
  written_absent :
      (es : List Artifact)
      → any (has_id v.artifact_id) es ≡ false
      → All (Numbered vs) es
      → All (Numbered (vs ++ v ∷ [])) (update_if (has_id v.artifact_id) (head_of v) es)
  written_absent [] h n = tt
  written_absent (b ∷ es) h (n, ns) = elim (Bool-cases (b.id == v.artifact_id)) [
    | inl y ↦ absurd (ground (arith, h, y))
    | inr z ↦
        rw z (
          numbers-other b.id vs v (ground (arith, z)) ∙ n,
          written_absent es (ground (arith, h)) ns,
        )
  ]

  pub written-Numbered :
      (cell : ℕ) (a : Artifact) (es : List Artifact)
      → Distinct es
      → find (live_in cell v.artifact_id) es ≡ some a
      → v.version_num ≡ suc a.current_version_num
      → All (Numbered vs) es
      → All (Numbered (vs ++ v ∷ [])) (update_if (has_id v.artifact_id) (head_of v) es)
  written-Numbered cell a [] d found h n = tt
  written-Numbered cell a (b ∷ es) (e, d) found h (n, ns) =
      elim (Bool-cases (b.id == v.artifact_id)) [
        | inl y ↦ rw y (
          numbers-append b.id vs v (ground (arith, y))
              ∙ ap (λ xs. xs ++ v.version_num ∷ []) n
              ∙ ap (λ (x : Artifact). upto x.current_version_num ++ v.version_num ∷ [])
                  (here_is cell v.artifact_id a b es found
                    (here_live cell v.artifact_id a b es found e y))
              ∙ rw h refl,
          written_absent es (ground (arith, e, y)) ns,
        )
        | inr z ↦ rw z (
          numbers-other b.id vs v (ground (arith, z)) ∙ n,
          written-Numbered cell a es d (ground (arith, found, z)) h ns,
        )
      ]

  bytes_absent :
      (c : ℕ) (es : List Artifact)
      → any (has_id v.artifact_id) es ≡ false
      → live_bytes c (vs ++ v ∷ []) (update_if (has_id v.artifact_id) (head_of v) es)
        ≡ live_bytes c vs es
  bytes_absent c [] h = refl
  bytes_absent c (b ∷ es) h = elim (Bool-cases (b.id == v.artifact_id)) [
    | inl y ↦ absurd (ground (arith, h, y))
    | inr z ↦
        rw (z, sum_version_bytes-append b.id vs v, bytes_absent c es (ground (arith, h)))
          (ground (arith, z))
  ]

  pub bytes_written :
      (c cell : ℕ) (a : Artifact) (es : List Artifact)
      → Distinct es
      → find (live_in cell v.artifact_id) es ≡ some a
      → live_bytes c (vs ++ v ∷ []) (update_if (has_id v.artifact_id) (head_of v) es)
        ≡ live_bytes c vs es + (if cell == c then v.byte_size else 0)
  bytes_written c cell a [] d found = absurd (ground (arith, found))
  bytes_written c cell a (b ∷ es) (e, d) found = elim (Bool-cases (b.id == v.artifact_id)) [
    | inl y ↦
        rw (y, sum_version_bytes-append b.id vs v, bytes_absent c es (ground (arith, e, y)))
          (ground (arith, y, here_live cell v.artifact_id a b es found e y))
    | inr z ↦
        rw
          (
            z,
            sum_version_bytes-append b.id vs v,
            bytes_written c cell a es d (ground (arith, found, z)),
          )
          (ground (arith, z))
  ]

-- A soft delete.
module _ (now cell i : ℕ) (vs : List ArtifactVersion) where
  pub deleted-Numbered :
      (es : List Artifact)
      → All (Numbered vs) es
      → All (Numbered vs) (update_if (live_in cell i) (deleted now) es)
  deleted-Numbered [] n = tt
  deleted-Numbered (b ∷ es) (n, ns) = elim (Bool-cases (live_in cell i b)) [
    | inl y ↦ rw y (n, deleted-Numbered es ns)
    | inr z ↦ rw z (n, deleted-Numbered es ns)
  ]

  kept_bytes :
      (c : ℕ) (es : List Artifact)
      → any (has_id i) es ≡ false
      → live_bytes c vs (update_if (live_in cell i) (deleted now) es) ≡ live_bytes c vs es
  kept_bytes c [] h = refl
  kept_bytes c (b ∷ es) h = elim (Bool-cases (live_in cell i b)) [
    | inl y ↦ absurd (ground (arith, h, y))
    | inr z ↦ rw (z, kept_bytes c es (ground (arith, h))) refl
  ]

  pub freed_bytes :
      (c : ℕ) (a : Artifact) (es : List Artifact)
      → Distinct es
      → find (live_in cell i) es ≡ some a
      → live_bytes c vs (update_if (live_in cell i) (deleted now) es)
          + (if cell == c then sum_version_bytes i vs else 0)
        ≡ live_bytes c vs es
  freed_bytes c a [] d found = absurd (ground (arith, found))
  freed_bytes c a (b ∷ es) (e, d) found = elim (Bool-cases (live_in cell i b)) [
    | inl y ↦
        rw (y, kept_bytes c es (ground (arith, e, y)), same_sum b.id i (ground (arith, y)))
          (ground (arith, y))
    | inr z ↦ rw z (ground (arith, freed_bytes c a es d (ground (arith, found, z))))
  ]
    where
      same_sum : (j k : ℕ) → (j == k) ≡ true → sum_version_bytes j vs ≡ sum_version_bytes k vs
      same_sum j k h = ap (λ n. sum_version_bytes n vs) (ground (arith, h))
