-- ===== src/Artifacts/Uploads.antt =====
-- backend/src/artifacts/services/s3.py: an upload is reserved by a pending row, checked, and made a
-- version.
mod Adds
pub mod Sound
pub mod Once
mod Tests
use oriion.Prelude.{
  ℕ, ◌+◌, ◌-◌, String, str_eq, Bool, true, false, not, ◌&&◌, Option, none, some, List, [], ◌∷◌,
  ◌++◌, keep_if, take, drop, any, find, update_if, ltb, ◌==◌, if◌then◌else◌, Result, ok, err,
}
use Prim.Native.String.{◌++◌ as ◌+++◌}
use oriion.Artifacts.{
  Artifact, ArtifactVersion, S3Object, ArtifactEvent, emitted_s3_uploaded, Db, ArtifactsError,
  artifact_not_found, s3_object_not_found, s3_key_reserved, upload_not_verified, emit,
  get_for_update, allocate_version, committed, ArtifactCall, serve,
}

-- The storage behind the port, the settings of the service, and what it uses of the language: the
-- texts of ids and numbers, the length of a body and its SHA-256.
pub record ObjectStoragePort (Body Presigned : Type 0) : Type 0 where
  pub presign_post : String → String → ℕ → ℕ → Presigned
  pub get_object : ℕ → String → String → Option Body
  pub presign_get : String → String → ℕ → String
  pub bucket : String
  pub env_prefix : String
  pub max_upload_bytes : ℕ
  pub uuid_text : ℕ → String
  pub int_text : ℕ → String
  pub len : Body → ℕ
  pub sha256 : Body → String

abbrev presign_post_ttl_seconds : ℕ
presign_post_ttl_seconds = 300

abbrev signed_get_ttl_seconds : ℕ
signed_get_ttl_seconds = 3600

-- S3ObjectRepository.
abbrev pub has_row_id : ℕ → S3Object → Bool
has_row_id i o = o.id == i

abbrev pub is_pending : S3Object → Bool
is_pending o = str_eq o.status "pending"

abbrev row_in : ℕ → ℕ → S3Object → Bool
row_in cell i o = o.id == i && o.cell_id == cell

get_row : ℕ → ℕ → Db → Option S3Object
get_row cell i db = find (row_in cell i) db.s3_objects

-- UNIQUE(bucket, s3_key), and the primary key.
abbrev clashes : S3Object → S3Object → Bool
clashes row o =
    if o.id == row.id then true else str_eq o.bucket row.bucket && str_eq o.s3_key row.s3_key

insert_pending : S3Object → Db → Result ArtifactsError Db
insert_pending row db =
    if any (clashes row) db.s3_objects
    then err s3_key_reserved
    else ok (record db { s3_objects = db.s3_objects ++ row ∷ [] })

abbrev pending_id : ℕ → S3Object → Bool
pending_id i o = o.id == i && is_pending o

abbrev mark_row : ℕ → String → S3Object → S3Object
mark_row size hash o = record o {
  status = "stored";
  byte_size = some size;
  content_hash_sha256 = some hash;
}

-- Whether a row was there to mark, and the table after.
unfoldable pub mark_stored : ℕ → ℕ → String → Db → Bool × Db
mark_stored i size hash db = (
  any (pending_id i) db.s3_objects,
  record db { s3_objects = update_if (pending_id i) (mark_row size hash) db.s3_objects },
)

abbrev stale_in : ℕ → ℕ → S3Object → Bool
stale_in cell older_than o = o.cell_id == cell && (is_pending o && ltb o.created_at older_than)

delete_stale_pending : ℕ → ℕ → Db → Db
delete_stale_pending cell older_than db = record db {
  s3_objects = keep_if (λ o. not (stale_in cell older_than o)) db.s3_objects;
}

unfoldable pub purge_stale_pending : ℕ → ℕ → Db → Db
unfolding delete_stale_pending
purge_stale_pending now cell db = delete_stale_pending cell (now - presign_post_ttl_seconds) db

module _ {Body Presigned : Type 0} (port : ObjectStoragePort Body Presigned) where
  build_key : ℕ → ℕ → ℕ → String → String
  build_key cell i num filename =
      port.env_prefix
      +++ "/"
      +++ port.uuid_text cell
      +++ "/"
      +++ port.uuid_text i
      +++ "/"
      +++ port.int_text num
      +++ "/"
      +++ filename

  -- The id and the time of the row are the database's defaults.
  pending_row : ℕ → ℕ → ℕ → ℕ → String → Option String → Artifact → S3Object
  unfolding build_key
  pending_row new now cell i safe_name mime_type envelope = record {
    id = new;
    cell_id = cell;
    artifact_id = i;
    bucket = port.bucket;
    s3_key = build_key cell i (envelope.current_version_num + 1) safe_name;
    mime_type = mime_type;
    byte_size = none;
    content_hash_sha256 = none;
    status = "pending";
    created_at = now;
  }

  reserve : S3Object → Db → Result ArtifactsError (S3Object × Presigned) × Db
  unfolding insert_pending
  reserve row db = elim (insert_pending row db) [
    | err e ↦ (err e, db)
    | ok db₁ ↦ (
      ok (
        row,
        port.presign_post port.bucket row.s3_key presign_post_ttl_seconds port.max_upload_bytes,
      ),
      db₁,
    )
  ]

  presign_for :
      ℕ
      → ℕ
      → ℕ
      → ℕ
      → String
      → Option String
      → Option Artifact
      → Db
      → Result ArtifactsError (S3Object × Presigned) × Db
  unfolding reserve pending_row
  presign_for new now cell i safe_name mime_type none db = (err artifact_not_found, db)
  presign_for new now cell i safe_name mime_type (some envelope) db =
      reserve (pending_row new now cell i safe_name mime_type envelope) db

  -- `safe_name` is a filename that sanitize_filename has let pass.
  unfoldable pub presign_upload :
      ℕ
      → ℕ
      → ℕ
      → ℕ
      → String
      → Option String
      → Db
      → Result ArtifactsError (S3Object × Presigned) × Db
  unfolding presign_for get_for_update
  presign_upload new now cell i safe_name mime_type db =
      presign_for new now cell i safe_name mime_type (get_for_update cell i db) db

  body_of : S3Object → Option Body → Result ArtifactsError (S3Object × Body)
  body_of row none = err upload_not_verified
  body_of row (some body) = ok (row, body)

  checked_row : ℕ → Option S3Object → Result ArtifactsError (S3Object × Body)
  unfolding body_of
  checked_row now none = err s3_object_not_found
  checked_row now (some row) =
      if is_pending row
      then body_of row (port.get_object now row.bucket row.s3_key)
      else err upload_not_verified

  -- complete_upload up to the object's body: the row as it is read, which the rest goes by.
  unfoldable pub begin_complete : ℕ → ℕ → ℕ → Db → Result ArtifactsError (S3Object × Body)
  unfolding checked_row get_row
  begin_complete now cell i db = checked_row now (get_row cell i db)

  version_of : ℕ → S3Object → Body → ArtifactVersion
  version_of cell row body = record {
    cell_id = cell;
    artifact_id = row.artifact_id;
    version_num = 0;
    storage_kind = "s3";
    s3_object_id = some row.id;
    byte_size = port.len body;
    content_hash_sha256 = port.sha256 body;
  }

  uploaded :
      S3Object
      → Result ArtifactsError ArtifactVersion × Db
      → Result ArtifactsError (ArtifactVersion × S3Object) × Db
  unfolding emit
  uploaded row (err e, db) = (err e, db)
  uploaded row (ok v, db) =
      (ok (v, row), emit (emitted_s3_uploaded row v.byte_size v.version_num) db)

  settle :
      (ArtifactVersion → Bool)
      → ℕ
      → S3Object
      → Body
      → Bool × Db
      → Result ArtifactsError (ArtifactVersion × S3Object) × Db
  unfolding uploaded version_of allocate_version
  settle checks cell row body (false, db) = (err upload_not_verified, db)
  settle checks cell row body (true, db) =
      uploaded row (allocate_version checks (λ _. []) (version_of cell row body) db)

  -- The rest of complete_upload, from the UPDATE that decides between two completions; the row's lock
  -- is held from there to the commit.
  unfoldable pub finish_complete :
      (ArtifactVersion → Bool)
      → ℕ
      → S3Object
      → Body
      → Db
      → Result ArtifactsError (ArtifactVersion × S3Object) × Db
  unfolding settle mark_stored
  finish_complete checks cell row body db =
      settle checks cell row body (mark_stored row.id (port.len body) (port.sha256 body) db)

  download_of : Option S3Object → Result ArtifactsError String
  download_of none = err s3_object_not_found
  download_of (some row) =
      if str_eq row.status "stored"
      then ok (port.presign_get row.bucket row.s3_key signed_get_ttl_seconds)
      else err s3_object_not_found

  unfoldable pub download_url : ℕ → ℕ → Db → Result ArtifactsError String
  unfolding download_of get_row
  download_url cell i db = download_of (get_row cell i db)

-- The requests of any number of clients: a completion is two steps, and others come in between.
pub data UploadStep : Type 0 where
  calls : ArtifactCall → UploadStep
  presigns : ℕ → ℕ → ℕ → ℕ → String → Option String → UploadStep
  begins : ℕ → ℕ → ℕ → UploadStep
  finishes : ℕ → UploadStep
  purges : ℕ → ℕ → UploadStep

-- The database, and the completions under way: the cell, the row as it was read, and the body.
pub record Uploads (Body : Type 0) : Type 0 where
  pub db : Db
  pub under_way : List (ℕ × S3Object × Body)

module _ {Body Presigned : Type 0} (port : ObjectStoragePort Body Presigned)
    (checks : ArtifactVersion → Bool) where
  begun : ℕ → Result ArtifactsError (S3Object × Body) → Uploads Body → Uploads Body
  begun cell (err e) u = u
  begun cell (ok (row, body)) u = record u { under_way = u.under_way ++ (cell, row, body) ∷ [] }

  finish_first :
      List (ℕ × S3Object × Body) → List (ℕ × S3Object × Body) → Uploads Body → Uploads Body
  unfolding finish_complete
  finish_first before [] u = u
  finish_first before ((cell, row, body) ∷ rest) u = record {
    db = committed u.db (finish_complete port checks cell row body u.db);
    under_way = before ++ rest;
  }

  -- One step, a transaction of its own.
  unfoldable pub step : UploadStep → Uploads Body → Uploads Body
  unfolding serve presign_upload begin_complete begun finish_first purge_stale_pending
  step (calls c) u = record u { db = serve checks c u.db }
  step (presigns new now cell i safe_name mime_type) u = record u {
    db = committed u.db (presign_upload port new now cell i safe_name mime_type u.db);
  }
  step (begins now cell i) u = begun cell (begin_complete port now cell i u.db) u
  step (finishes k) u = finish_first (take k u.under_way) (drop k u.under_way) u
  step (purges now cell) u = record u { db = purge_stale_pending now cell u.db }

  unfoldable pub run_steps : List UploadStep → Uploads Body → Uploads Body
  unfolding step
  run_steps [] u = u
  run_steps (s ∷ steps) u = run_steps steps (step s u)
