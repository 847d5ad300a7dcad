-- ===== src/Artifacts/Uploads/Once.antt =====
-- One upload yields at most one version, however its completions, and the other requests, come in
-- between one another.
use oriion.Prelude.{
  ℕ, suc, ◌+◌, ◌≤◌, ◌≡◌, refl, String, Bool, true, Option, none, some, List, [], ◌∷◌, any, count_if,
  update_if, take, drop, ◌==◌, arith, if◌then◌else◌, inl, inr, Bool-cases, Result, ok, err,
}
use oriion.Prelude.Rows.{count_if-update_le, count_if_mono, count_if-update_ge, count_if-update_gt}
use oriion.Artifacts.{
  ArtifactVersion, S3Object, Db, ArtifactsError, committed, emit, get_for_update, allocate_version,
}
use oriion.Artifacts.Accounts.{IsAccounted, allocate_version-IsAccounted}
use oriion.Artifacts.Uploads.{
  ObjectStoragePort, has_row_id, is_pending, pending_id, mark_row, clashes, insert_pending,
  mark_stored, pending_row, reserve, presign_for, presign_upload, begin_complete, uploaded,
  version_of, settle, finish_complete, UploadStep, calls, presigns, begins, finishes, purges,
  Uploads, begun, finish_first, step, run_steps,
}
use oriion.Artifacts.Uploads.Adds.{of_object, settled_row, allocate_version-Adds}
use oriion.Artifacts.Uploads.Sound.{
  IsSound, carried-IsSound, others-IsAccounted, added-IsSound, serve-IsSound, purge-IsSound,
  insert_pending-IsSound,
}

module _ {Body Presigned : Type 0} (port : ObjectStoragePort Body Presigned) where
  reserve-IsSound :
      (row : S3Object) (db : Db)
      → is_pending row ≡ true
      → IsSound db
      → IsSound (committed db (reserve port row db))
  unfolding reserve insert_pending
  reserve-IsSound row db p s = elim (Bool-cases (any (clashes row) db.s3_objects)) [
    | inl y ↦ rw (y, reserve, insert_pending, committed) s
    | inr z ↦ rw (z, reserve, insert_pending, committed) (insert_pending-IsSound row db p z s)
  ]

  presign_upload-IsSound :
      (new now cell i : ℕ) (safe_name : String) (mime_type : Option String) (db : Db)
      → IsSound db
      → IsSound (committed db (presign_upload port new now cell i safe_name mime_type db))
  unfolding presign_upload presign_for pending_row
  presign_upload-IsSound new now cell i safe_name mime_type db s =
      elim (get_for_update cell i db)
        as (λ o.
          IsSound (committed db (presign_for port new now cell i safe_name mime_type o db))) [
            | none ↦ s
            | some envelope ↦
                reserve-IsSound (pending_row port new now cell i safe_name mime_type envelope) db
                  refl s
          ]

  uploaded-IsSound :
      (row : S3Object) (before : Db) (r : Result ArtifactsError ArtifactVersion × Db)
      → IsSound (committed before r)
      → IsSound before
      → IsSound (committed before (uploaded port row r))
  unfolding uploaded emit
  uploaded-IsSound row before (err e, db) s b = b
  uploaded-IsSound row before (ok v, db) s b =
      carried-IsSound db _ (others-IsAccounted db _ refl refl refl s.accounts)
        (λ i. (omega arith, omega arith, omega arith)) s

  -- The row that is marked makes room for the version.
  marked_once :
      (i k size : ℕ) (hash : String) (db : Db)
      → any (pending_id k) db.s3_objects ≡ true
      → IsSound db
      → count_if (of_object i) db.versions + (if k == i then 1 else 0)
        ≤ count_if (settled_row i) (update_if (pending_id k) (mark_row size hash) db.s3_objects)
  marked_once i k size hash db found s = elim (Bool-cases (k == i)) [
    | inl y ↦ rw y (
        omega (
          arith,
          s.once i,
          count_if-update_gt (settled_row i) (pending_id k) (mark_row size hash) db.s3_objects
              (λ o h. ground (arith, h)) (λ o h. ground (arith, h, y)) (λ o h. ground (arith, h, y))
              found,
        ))
    | inr z ↦ rw z (
        omega (
          arith,
          s.once i,
          count_if-update_ge (settled_row i) (pending_id k) (mark_row size hash) db.s3_objects
              (λ o h. ground (arith, h)),
        ))
  ]

  finish_complete-IsSound :
      (checks : ArtifactVersion → Bool) (cell : ℕ) (row : S3Object) (body : Body) (db : Db)
      → IsSound db
      → IsSound (committed db (finish_complete port checks cell row body db))
  unfolding finish_complete mark_stored settle version_of
  finish_complete-IsSound checks cell row body db s =
      elim (Bool-cases (any (pending_id row.id) db.s3_objects)) [
        | inr z ↦ rw z s
        | inl y ↦ rw y (
            uploaded-IsSound row db allocated
              (added-IsSound checks (some row.id) db (marked db) allocated s
                (λ i. omega (
                  arith,
                  s.one_row i,
                  count_if-update_le (has_row_id i) (pending_id row.id)
                      (mark_row (port.len body) (port.sha256 body)) db.s3_objects (λ o h. h),
                ))
                (λ i. marked_once i row.id (port.len body) (port.sha256 body) db y s)
                (allocate_version-Adds checks (version_of port cell row body) (marked db))
                (committed_marked allocated (
                  allocate_version-IsAccounted checks (version_of port cell row body) (marked db)
                    (others-IsAccounted db (marked db) refl refl refl s.accounts))))
              s)
      ]
    where
      marked : Db → Db
      marked db = (mark_stored row.id (port.len body) (port.sha256 body) db).1

      allocated : Result ArtifactsError ArtifactVersion × Db
      allocated = allocate_version checks (λ _. []) (version_of port cell row body) (marked db)

      -- A refusal rolls the mark back too.
      committed_marked :
          (r : Result ArtifactsError ArtifactVersion × Db)
          → IsAccounted (committed (marked db) r)
          → IsAccounted (committed db r)
      committed_marked (err e, after) a = s.accounts
      committed_marked (ok v, after) a = a

module _ {Body Presigned : Type 0} (port : ObjectStoragePort Body Presigned)
    (checks : ArtifactVersion → Bool) where
  finish_first-IsSound :
      (before rest : List (ℕ × S3Object × Body)) (u : Uploads Body)
      → IsSound u.db
      → IsSound (finish_first port checks before rest u).db
  unfolding finish_first
  finish_first-IsSound before [] u s = s
  finish_first-IsSound before ((cell, row, body) ∷ rest) u s =
      finish_complete-IsSound port checks cell row body u.db s

  begun-IsSound :
      (cell : ℕ) (r : Result ArtifactsError (S3Object × Body)) (u : Uploads Body)
      → IsSound u.db
      → IsSound (begun port checks cell r u).db
  unfolding begun
  begun-IsSound cell (err e) u s = s
  begun-IsSound cell (ok (row, body)) u s = s

  step-IsSound :
      (t : UploadStep) (u : Uploads Body) → IsSound u.db → IsSound (step port checks t u).db
  unfolding step
  step-IsSound (calls c) u s = serve-IsSound checks c u.db s
  step-IsSound (presigns new now cell i safe_name mime_type) u s =
      presign_upload-IsSound port new now cell i safe_name mime_type u.db s
  step-IsSound (begins now cell i) u s =
      begun-IsSound cell (begin_complete port now cell i u.db) u s
  step-IsSound (finishes k) u s = finish_first-IsSound (take k u.under_way) (drop k u.under_way) u s
  step-IsSound (purges now cell) u s = purge-IsSound now cell u.db s

  run_steps-IsSound :
      (ts : List UploadStep) (u : Uploads Body)
      → IsSound u.db
      → IsSound (run_steps port checks ts u).db
  unfolding run_steps
  run_steps-IsSound [] u s = s
  run_steps-IsSound (t ∷ ts) u s = run_steps-IsSound ts (step port checks t u) (step-IsSound t u s)

  -- From a database that is sound, after any steps of any clients in any order, completions whose
  -- reading came before other steps included: no S3 object has two versions, one that is pending has
  -- none, and the accounts of the artifacts are right, so each cell is charged for an upload once.
  pub upload_once :
      (ts : List UploadStep) (u : Uploads Body)
      → IsSound u.db
      → IsAccounted (run_steps port checks ts u).db
        × ((i : ℕ)
            → (count_if (of_object i) (run_steps port checks ts u).db.versions ≤ 1)
              × (any (pending_id i) (run_steps port checks ts u).db.s3_objects ≡ true
                  → count_if (of_object i) (run_steps port checks ts u).db.versions ≡ 0))
  upload_once ts u s = (
    after.accounts,
    λ i. (
      omega (
        arith,
        after.once i,
        after.one_row i,
        count_if_mono (settled_row i) (has_row_id i) rows (λ o h. ground (arith, h)),
      ),
      λ p. omega (arith, after.once i, after.one_row i, pending_left i rows p),
    ),
  )
    where
      after : IsSound (run_steps port checks ts u).db
      after = run_steps-IsSound ts u s

      rows : List S3Object
      rows = (run_steps port checks ts u).db.s3_objects

      pending_left :
          (i : ℕ) (os : List S3Object)
          → any (pending_id i) os ≡ true
          → suc (count_if (settled_row i) os) ≤ count_if (has_row_id i) os
      pending_left i [] p = ground (arith, p)
      pending_left i (o ∷ os) p = ground (
        arith,
        p,
        pending_left i os,
        count_if_mono (settled_row i) (has_row_id i) os (λ o h. ground (arith, h)),
      )
