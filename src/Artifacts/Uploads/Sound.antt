-- ===== src/Artifacts/Uploads/Sound.antt =====
-- The state in which every upload has its version once, under the operations on the tables.
use oriion.Prelude.{
  ℕ, ◌+◌, ◌≤◌, ◌≡◌, refl, sym, Bool, true, false, not, Option, none, some, [], ◌∷◌, ◌++◌, any,
  count_if, ◌-◌, ◌==◌, arith, if◌then◌else◌, inl, inr, Bool-cases, Result, ok, err,
}
use oriion.Prelude.Rows.{
  count_if-append, count_if-update_le, count_if-update_ge, count_if-keep_le, count_if-keep,
  count_if-absent,
}
use oriion.Artifacts.{
  Artifact, ArtifactVersion, S3Object, Db, ArtifactsError, has_id, committed, emit, insert,
  get_for_update, create, allocate_version, mark_all_deleted, kept_upload, delete_row, delete_found,
  soft_delete, ArtifactCall, creates, writes, deletes, serve,
}
use oriion.Artifacts.Accounts.Sums.{Distinct}
use mathlib.Core.Path.{subst}
use oriion.Artifacts.Accounts.{IsAccounted, serve-IsAccounted}
use oriion.Artifacts.Uploads.{
  has_row_id, is_pending, clashes, stale_in, delete_stale_pending, purge_stale_pending,
}
use oriion.Artifacts.Uploads.Adds.{of_object, is_object, settled_row, Adds, allocate_version-Adds}

-- The accounts are right, an id has one row, and an upload has no version while its row is pending.
pub record IsSound (db : Db) : Type 0 where
  pub accounts : IsAccounted db
  pub one_row : (i : ℕ) → count_if (has_row_id i) db.s3_objects ≤ 1
  pub once : (i : ℕ) → count_if (of_object i) db.versions ≤ count_if (settled_row i) db.s3_objects

-- A change that adds no version and no row's id, and leaves no row pending anew.
abbrev pub Carries : Db → Db → Type 0
Carries before after =
    (i : ℕ)
    → (count_if (has_row_id i) after.s3_objects ≤ count_if (has_row_id i) before.s3_objects)
      × (count_if (of_object i) after.versions ≤ count_if (of_object i) before.versions)
      × (count_if (settled_row i) before.s3_objects ≤ count_if (settled_row i) after.s3_objects)

pub carried-IsSound :
    (before after : Db) → IsAccounted after → Carries before after → IsSound before → IsSound after
carried-IsSound before after a c s = record {
  accounts = a;
  one_row = λ i. omega (arith, c i, s.one_row i);
  once = λ i. omega (arith, c i, s.once i);
}

-- The accounts do not read the uploads.
pub others-IsAccounted :
    (before after : Db)
    → before.artifacts ≡ after.artifacts
    → before.versions ≡ after.versions
    → before.usage ≡ after.usage
    → IsAccounted before
    → IsAccounted after
others-IsAccounted before after e f g a = record {
  distinct = subst Distinct e a.distinct;
  known = rw (sym e, sym f) a.known;
  numbered = rw (sym e, sym f) a.numbered;
  accounted = λ cell. rw (sym e, sym f, sym g) (a.accounted cell);
}

create-Carries : (a : Artifact) (db : Db) → Carries db (committed db (create a db))
unfolding create insert emit
create-Carries a db i = elim (Bool-cases (any (has_id a.id) db.artifacts)) [
  | inl y ↦ rw (y, create, insert, committed) (omega arith, omega arith, omega arith)
  | inr z ↦ rw (z, create, insert, committed) (omega arith, omega arith, omega arith)
]

soft_delete-Carries :
    (now cell i : ℕ) (db : Db) → Carries db (committed db (soft_delete now cell i db))
unfolding soft_delete delete_found mark_all_deleted emit
soft_delete-Carries now cell i db j =
    elim (get_for_update cell i db)
        as (λ o. Carries db (committed db (delete_found now cell i o db))) [
          | none ↦ λ j. (omega arith, omega arith, omega arith)
          | some a ↦ λ j. (
            count_if-update_le (has_row_id j) (kept_upload cell i) delete_row db.s3_objects
                (λ o h. h),
            omega arith,
            count_if-update_ge (settled_row j) (kept_upload cell i) delete_row db.s3_objects
                (λ o h. ground (arith, h)),
          )
        ]
      j

module _ (checks : ArtifactVersion → Bool) where
  pub added-IsSound :
      (object : Option ℕ) (before db : Db) (r : Result ArtifactsError ArtifactVersion × Db)
      → IsSound before
      → ((i : ℕ) → count_if (has_row_id i) db.s3_objects ≤ 1)
      → ((i : ℕ)
          → count_if (of_object i) db.versions + (if is_object i object then 1 else 0)
            ≤ count_if (settled_row i) db.s3_objects)
      → Adds object db r
      → IsAccounted (committed before r)
      → IsSound (committed before r)
  added-IsSound object before db (err e, after) s one room h a = s
  added-IsSound object before db (ok u, after) s one room (e, h) a = record {
    accounts = a;
    one_row = λ i. rw e (one i);
    once = λ i. rw (e, h i) (room i);
  }

  pub serve-IsSound : (c : ArtifactCall) (db : Db) → IsSound db → IsSound (serve checks c db)
  unfolding serve
  serve-IsSound (creates cell i type title) db s =
      carried-IsSound db _ (serve-IsAccounted checks (creates cell i type title) db s.accounts)
        (create-Carries _ db) s
  serve-IsSound (deletes now cell i) db s =
      carried-IsSound db _ (serve-IsAccounted checks (deletes now cell i) db s.accounts)
        (soft_delete-Carries now cell i db) s
  serve-IsSound (writes v) db s =
      added-IsSound none db db
        (allocate_version checks (λ _. [])
          (record v { storage_kind = "inline"; s3_object_id = none }) db)
        s s.one_row (λ i. omega (arith, s.once i))
        (allocate_version-Adds checks (record v { storage_kind = "inline"; s3_object_id = none })
          db)
        (serve-IsAccounted checks (writes v) db s.accounts)

pub purge-IsSound :
    (now cell : ℕ) (db : Db) → IsSound db → IsSound (purge_stale_pending now cell db)
unfolding purge_stale_pending delete_stale_pending
purge-IsSound now cell db s =
    carried-IsSound db _ (others-IsAccounted db _ refl refl refl s.accounts)
      (λ i. (
        count_if-keep_le (has_row_id i) _ db.s3_objects,
        omega arith,
        omega (
          arith,
          count_if-keep (settled_row i) (λ o. not (stale_in cell (now - 300) o)) db.s3_objects
              (λ o h. ground (arith, h)),
        ),
      ))
      s

-- The insert gives a row that is pending an id that no row has.
pub insert_pending-IsSound :
    (row : S3Object) (db : Db)
    → is_pending row ≡ true
    → any (clashes row) db.s3_objects ≡ false
    → IsSound db
    → IsSound (record db { s3_objects = db.s3_objects ++ row ∷ [] })
insert_pending-IsSound row db p free s = record {
  accounts = others-IsAccounted db _ refl refl refl s.accounts;
  one_row = λ i.
      rw (count_if-append (has_row_id i) db.s3_objects (row ∷ []))
        (elim (Bool-cases (row.id == i)) [
          | inl y ↦
              rw
                (
                  y,
                  count_if-absent (has_row_id i) (clashes row) db.s3_objects
                      (λ o h. ground (arith, h, y)) free,
                )
                (omega arith)
          | inr z ↦ rw z (omega (arith, s.one_row i))
        ]);
  once = λ i.
      rw (count_if-append (settled_row i) db.s3_objects (row ∷ [])) (ground (arith, p, s.once i));
}
