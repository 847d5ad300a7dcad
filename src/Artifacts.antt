-- ===== src/Artifacts.antt =====
-- backend/src/artifacts: envelopes, the allocation of their versions, and the bytes that a cell uses.
pub mod Accounts
pub mod Races
pub mod Uploads
pub mod Yjs
mod Tests
use oriion.Prelude.{
  ℕ, zero, suc, ◌+◌, ◌-◌, String, str_eq, Bool, true, false, not, ◌&&◌, Option, none, some, is_none,
  List, [], ◌∷◌, ◌++◌, map, keep_if, any, find, update_if, sum, ltb, leb, ◌==◌, if◌then◌else◌,
  Result, ok, err,
}
use oriion.Prelude.Int.{ℤ, pos, negsuc}

pub record Artifact : Type 0 where
  pub id : ℕ
  pub cell_id : ℕ
  pub artifact_type : String
  pub title : String
  pub current_version_num : ℕ
  pub deleted_at : Option ℕ

pub record ArtifactVersion : Type 0 where
  pub cell_id : ℕ
  pub artifact_id : ℕ
  pub version_num : ℕ
  pub storage_kind : String
  pub s3_object_id : Option ℕ
  pub byte_size : ℕ
  pub content_hash_sha256 : String

pub record S3Object : Type 0 where
  pub id : ℕ
  pub cell_id : ℕ
  pub artifact_id : ℕ
  pub bucket : String
  pub s3_key : String
  pub mime_type : Option String
  pub byte_size : Option ℕ
  pub content_hash_sha256 : Option String
  pub status : String
  pub created_at : ℕ

pub data ArtifactEvent : Type 0 where
  emitted_created : ℕ → ArtifactEvent
  emitted_version_created : ℕ → ℕ → ArtifactEvent
  emitted_deleted : ℕ → ℕ → ArtifactEvent
  emitted_s3_uploaded : S3Object → ℕ → ℕ → ArtifactEvent

-- The tables; `usage` is cell_storage_usage, by cell.
pub record Db : Type 0 where
  pub artifacts : List Artifact
  pub versions : List ArtifactVersion
  pub usage : List (ℕ × ℕ)
  pub s3_objects : List S3Object
  pub events : List ArtifactEvent

pub data ArtifactsError : Type 0 where
  artifact_not_found version_conflict integrity_error s3_object_not_found s3_key_reserved
        upload_not_verified artifact_type_mismatch yjs_document_already_exists
        yjs_document_not_found invalid_yjs_update value_error :
      ArtifactsError

-- UNIQUE(artifact_id, version_num), or any other constraint.
pub data IntegrityError : Type 0 where
  version_num_race other_violation : IntegrityError

abbrev pub is_live : Artifact → Bool
is_live a = is_none a.deleted_at

abbrev pub has_id : ℕ → Artifact → Bool
has_id i a = a.id == i

abbrev pub of_artifact : ℕ → ArtifactVersion → Bool
of_artifact i v = v.artifact_id == i

abbrev live_in : ℕ → ℕ → Artifact → Bool
live_in cell i a = a.id == i && (a.cell_id == cell && is_live a)

emit : ArtifactEvent → Db → Db
emit e db = record db { events = db.events ++ e ∷ [] }

-- ArtifactRepository and UsageRepository.
unfoldable pub insert : Artifact → Db → Result ArtifactsError Db
insert a db =
    if any (has_id a.id) db.artifacts
    then err integrity_error
    else ok (record db { artifacts = db.artifacts ++ a ∷ [] })

pub get_for_update : ℕ → ℕ → Db → Option Artifact
get_for_update cell i db = find (live_in cell i) db.artifacts

set_current_version : ℕ → ℕ → Db → Db
set_current_version i num db = record db {
  artifacts = update_if (has_id i) (λ a. record a { current_version_num = num }) db.artifacts;
}

abbrev pub same_num : ArtifactVersion → ArtifactVersion → Bool
same_num v u = u.artifact_id == v.artifact_id && u.version_num == v.version_num

-- `checks` says which rows satisfy every other constraint.
insert_version : (ArtifactVersion → Bool) → ArtifactVersion → Db → Result IntegrityError Db
insert_version checks v db =
    if not (checks v)
    then err other_violation
    else if any (same_num v) db.versions
    then err version_num_race
    else ok (record db { versions = db.versions ++ v ∷ [] })

maximum : List ℕ → ℕ
maximum [] = 0
maximum (x ∷ xs) = let rest = maximum xs in if leb x rest then rest else x

pub max_version_num : ℕ → List ArtifactVersion → ℕ
unfolding maximum
max_version_num i vs = maximum (map (λ v. v.version_num) (keep_if (of_artifact i) vs))

abbrev pub sum_version_bytes : ℕ → List ArtifactVersion → ℕ
sum_version_bytes i vs = sum (map (λ v. v.byte_size) (keep_if (of_artifact i) vs))

-- GREATEST(total + delta, 0).
abbrev pub shift : ℕ → ℤ → ℕ
shift total (pos n) = total + n
shift total (negsuc n) = total - suc n

abbrev pub add_bytes : ℕ → ℤ → List (ℕ × ℕ) → List (ℕ × ℕ)
add_bytes cell delta [] = (cell, shift 0 delta) ∷ []
add_bytes cell delta ((c, total) ∷ rows) =
    let rest = add_bytes cell delta rows in
    if c == cell then (c, shift total delta) ∷ rows else (c, total) ∷ rest

abbrev pub get_bytes : ℕ → List (ℕ × ℕ) → ℕ
get_bytes cell [] = 0
get_bytes cell ((c, total) ∷ rows) =
    let rest = get_bytes cell rows in if c == cell then total else rest

abbrev kept_upload : ℕ → ℕ → S3Object → Bool
kept_upload cell i o = o.artifact_id == i && (o.cell_id == cell && not (str_eq o.status "deleted"))

abbrev delete_row : S3Object → S3Object
delete_row o = record o { status = "deleted" }

mark_all_deleted : ℕ → ℕ → List S3Object → List S3Object
mark_all_deleted cell i objects = update_if (kept_upload cell i) delete_row objects

-- ArtifactService.create.
unfoldable pub create : Artifact → Db → Result ArtifactsError Artifact × Db
unfolding insert emit
create a db = elim (insert a db) [
  | err e ↦ (err e, db)
  | ok db₁ ↦ (ok a, emit (emitted_created a.id) db₁)
]

module _ (checks : ArtifactVersion → Bool) where
  -- `racers k`: the rows that writers without the envelope's lock commit before the k-th statement.
  arrive : List ArtifactVersion → Db → Db
  arrive vs db = record db { versions = db.versions ++ vs }

  -- One turn of the loop; `again` is the rest of it, with the number read anew.
  turn :
      (ℕ → Db → Result ArtifactsError ArtifactVersion × Db)
      → List ArtifactVersion
      → ArtifactVersion
      → Db
      → Result IntegrityError Db
      → Result ArtifactsError ArtifactVersion × Db
  unfolding arrive
  turn again later v db (ok db₁) = (ok v, db₁)
  turn again later v db (err other_violation) = (err integrity_error, db)
  turn again later v db (err version_num_race) =
      let db₁ = arrive later db in again (max_version_num v.artifact_id db₁.versions + 1) db₁

  attempts :
      (ℕ → List ArtifactVersion)
      → ℕ
      → ℕ
      → ArtifactVersion
      → Db
      → Result ArtifactsError ArtifactVersion × Db
  unfolding turn arrive insert_version
  attempts racers zero k v db = (err version_conflict, db)
  attempts racers (suc n) k v db =
      let db₁ = arrive (racers k) db in
      turn (λ num. attempts racers n (k + 2) (record v { version_num = num })) (racers (k + 1)) v
        db₁ (insert_version checks v db₁)

  max_attempts : ℕ
  max_attempts = 3

  -- The head and the usage after the insert.
  stored : Result ArtifactsError ArtifactVersion × Db → Result ArtifactsError ArtifactVersion × Db
  unfolding set_current_version emit
  stored (err e, db) = (err e, db)
  stored (ok v, db) =
      let db₁ = set_current_version v.artifact_id v.version_num db in
      let db₂ = record db₁ {
        usage =
            if ltb 0 v.byte_size
            then add_bytes v.cell_id (pos v.byte_size) db₁.usage
            else db₁.usage;
      } in
      (ok v, emit (emitted_version_created v.artifact_id v.version_num) db₂)

  allocate_on :
      (ℕ → List ArtifactVersion)
      → ArtifactVersion
      → Option Artifact
      → Db
      → Result ArtifactsError ArtifactVersion × Db
  unfolding attempts stored max_attempts
  allocate_on racers v none db = (err artifact_not_found, db)
  allocate_on racers v (some envelope) db = stored (
      attempts racers max_attempts 0 (record v { version_num = envelope.current_version_num + 1 })
        db)

  -- `v` holds the fields of the call; its number is set here.
  unfoldable pub allocate_version :
      (ℕ → List ArtifactVersion) → ArtifactVersion → Db → Result ArtifactsError ArtifactVersion × Db
  unfolding allocate_on get_for_update
  allocate_version racers v db = allocate_on racers v (get_for_update v.cell_id v.artifact_id db) db

delete_found : ℕ → ℕ → ℕ → Option Artifact → Db → Result ArtifactsError Unit × Db
unfolding mark_all_deleted emit
delete_found now cell i none db = (err artifact_not_found, db)
delete_found now cell i (some _) db =
    let bytes_freed = sum_version_bytes i db.versions in
    let db₁ = record db {
      artifacts = update_if (live_in cell i) (λ a. record a { deleted_at = some now }) db.artifacts;
      s3_objects = mark_all_deleted cell i db.s3_objects;
      usage =
          if ltb 0 bytes_freed
          then add_bytes cell (negsuc (bytes_freed - 1)) db.usage
          else db.usage;
    } in
    (ok tt, emit (emitted_deleted i bytes_freed) db₁)

-- ArtifactService.soft_delete; its second test of the envelope cannot fail under the lock.
unfoldable pub soft_delete : ℕ → ℕ → ℕ → Db → Result ArtifactsError Unit × Db
unfolding delete_found get_for_update
soft_delete now cell i db = delete_found now cell i (get_for_update cell i db) db

pub data ArtifactCall : Type 0 where
  creates : ℕ → ℕ → String → String → ArtifactCall
  writes : ArtifactVersion → ArtifactCall
  deletes : ℕ → ℕ → ℕ → ArtifactCall

abbrev committed : {A : Type 0} → Db → Result ArtifactsError A × Db → Db
committed before (ok _, after) = after
committed before (err _, after) = before

-- One call in its transaction, which is rolled back where it raises; the lock lets no other call of
-- the service in between.
unfoldable pub serve : (ArtifactVersion → Bool) → ArtifactCall → Db → Db
unfolding create allocate_version soft_delete
serve checks (creates cell i type title) db = committed db (
    create
      (record {
        id = i;
        cell_id = cell;
        artifact_type = type;
        title = title;
        current_version_num = 0;
        deleted_at = none;
      })
      db)
serve checks (writes v) db = committed db (
    allocate_version checks (λ _. []) (record v { storage_kind = "inline"; s3_object_id = none })
      db)
serve checks (deletes now cell i) db = committed db (soft_delete now cell i db)

unfoldable pub serve_all : (ArtifactVersion → Bool) → List ArtifactCall → Db → Db
unfolding serve
serve_all checks [] db = db
serve_all checks (c ∷ cs) db = serve_all checks cs (serve checks c db)
