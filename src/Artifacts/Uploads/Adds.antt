-- ===== src/Artifacts/Uploads/Adds.antt =====
-- What an allocation of a version adds to the versions of an upload.
use oriion.Prelude.{
  ℕ, zero, suc, ◌+◌, ◌≡◌, refl, ap, ◌∙◌, Bool, false, not, ◌&&◌, Option, none, some, [], ◌∷◌, any,
  count_if, ◌==◌, arith, if◌then◌else◌, inl, inr, Bool-cases, Result, ok, err,
}
use oriion.Prelude.Rows.{count_if-append}
use oriion.Artifacts.{
  ArtifactVersion, S3Object, Db, ArtifactsError, same_num, emit, get_for_update,
  set_current_version, insert_version, arrive, turn, attempts, max_attempts, stored, allocate_on,
  allocate_version, max_version_num,
}
use oriion.Artifacts.Uploads.{is_pending}

abbrev pub is_object : ℕ → Option ℕ → Bool
is_object i none = false
is_object i (some j) = j == i

-- The versions of an upload, and its row once it is not pending any more.
abbrev pub of_object : ℕ → ArtifactVersion → Bool
of_object i v = is_object i v.s3_object_id

abbrev pub settled_row : ℕ → S3Object → Bool
settled_row i o = o.id == i && not (is_pending o)

-- What an allocation among no other writers adds to the versions, and that it leaves the uploads.
abbrev pub Adds : Option ℕ → Db → Result ArtifactsError ArtifactVersion × Db → Type 0
Adds object before (err _, after) = Unit
Adds object before (ok v, after) =
    (after.s3_objects ≡ before.s3_objects)
    × ((i : ℕ)
        → count_if (of_object i) after.versions
          ≡ count_if (of_object i) before.versions + (if is_object i object then 1 else 0))

module _ (checks : ArtifactVersion → Bool) where
  count-arrive :
      (i : ℕ) (db : Db)
      → count_if (of_object i) (arrive checks [] db).versions ≡ count_if (of_object i) db.versions
  unfolding arrive
  count-arrive i db = rw (count_if-append (of_object i) db.versions []) (omega arith)

  Adds-arrive :
      (object : Option ℕ) (db : Db) (r : Result ArtifactsError ArtifactVersion × Db)
      → Adds object (arrive checks [] db) r
      → Adds object db r
  unfolding arrive
  Adds-arrive object db (err e, after) h = tt
  Adds-arrive object db (ok v, after) (e, h) =
      (e, λ i. h i ∙ ap (λ n. n + (if is_object i object then 1 else 0)) (count-arrive i db))

  turn-Adds :
      (again : ℕ → Db → Result ArtifactsError ArtifactVersion × Db) (v : ArtifactVersion) (db : Db)
      → ((num : ℕ) → Adds v.s3_object_id (arrive checks [] db) (again num (arrive checks [] db)))
      → Adds v.s3_object_id db (turn checks again [] v db (insert_version checks v db))
  unfolding turn insert_version
  turn-Adds again v db h = elim (Bool-cases (checks v)) [
    | inr z ↦ rw z tt
    | inl y ↦ elim (Bool-cases (any (same_num v) db.versions)) [
      | inl taken ↦
          rw (y, taken)
            (Adds-arrive v.s3_object_id db _
              (h (max_version_num v.artifact_id (arrive checks [] db).versions + 1)))
      | inr free ↦
          rw (y, free)
            (refl, λ i. count_if-append (of_object i) db.versions (v ∷ []) ∙ ground arith)
    ]
  ]

  attempts-Adds :
      (n k : ℕ) (v : ArtifactVersion) (db : Db)
      → Adds v.s3_object_id db (attempts checks (λ _. []) n k v db)
  unfolding attempts
  attempts-Adds zero k v db = tt
  attempts-Adds (suc n) k v db = Adds-arrive v.s3_object_id db _ (
      turn-Adds (λ num. attempts checks (λ _. []) n (k + 2) (record v { version_num = num })) v
        (arrive checks [] db)
        (λ num.
          attempts-Adds n (k + 2) (record v { version_num = num })
            (arrive checks [] (arrive checks [] db))))

  stored-Adds :
      (object : Option ℕ) (db : Db) (r : Result ArtifactsError ArtifactVersion × Db)
      → Adds object db r
      → Adds object db (stored checks r)
  unfolding stored set_current_version emit
  stored-Adds object db (err e, after) h = tt
  stored-Adds object db (ok v, after) h = h

  pub allocate_version-Adds :
      (v : ArtifactVersion) (db : Db)
      → Adds v.s3_object_id db (allocate_version checks (λ _. []) v db)
  unfolding allocate_version allocate_on max_attempts
  allocate_version-Adds v db =
      elim (get_for_update v.cell_id v.artifact_id db)
        as (λ o. Adds v.s3_object_id db (allocate_on checks (λ _. []) v o db)) [
          | none ↦ tt
          | some a ↦
              stored-Adds v.s3_object_id db _
                (attempts-Adds 3 0 (record v { version_num = a.current_version_num + 1 }) db)
        ]
