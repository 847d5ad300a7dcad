-- ===== src/Artifacts/Yjs.antt =====
-- backend/src/artifacts/services/yjs.py: the live head of a document, the log of its updates, and the
-- snapshots.
mod Log
mod Replay
mod Saves
pub mod Recovery
mod Tests
use oriion.Prelude.{
  ℕ, ◌+◌, String, str_eq, Bool, true, false, not, ◌&&◌, ◌||◌, Option, none, some, List, [], ◌∷◌,
  ◌++◌, keep_if, any, find, update_if, ltb, leb, ◌==◌, if◌then◌else◌, Result, ok, err,
}
use oriion.Artifacts.{
  Artifact, ArtifactVersion, Db, ArtifactsError, artifact_not_found, artifact_type_mismatch,
  yjs_document_already_exists, yjs_document_not_found, invalid_yjs_update, value_error,
  get_for_update, allocate_version, ArtifactCall, serve,
}

-- What the source uses of pycrdt, of bytes and of hashlib; `apply_update` is none where it raises.
pub record Pycrdt (Doc Bytes : Type 0) : Type 0 where
  pub new : Doc
  pub apply_update : Bytes → Doc → Option Doc
  pub get_update : Doc → Bytes
  pub get_state : Doc → Bytes
  pub len : Bytes → ℕ
  pub sha256 : Bytes → String

pub record YjsDocument (Bytes : Type 0) : Type 0 where
  pub id : ℕ
  pub cell_id : ℕ
  pub artifact_id : ℕ
  pub state : Bytes
  pub state_vector : Bytes
  pub update_count : ℕ
  pub last_compacted_at : Option ℕ

pub record YjsUpdate (Bytes : Type 0) : Type 0 where
  pub seq : ℕ
  pub cell_id : ℕ
  pub yjs_document_id : ℕ
  pub update_data : Bytes

pub record YjsSnapshot (Bytes : Type 0) : Type 0 where
  pub cell_id : ℕ
  pub yjs_document_id : ℕ
  pub state : Bytes
  pub state_vector : Bytes

pub record YjsDb (Bytes : Type 0) : Type 0 where
  pub db : Db
  pub documents : List (YjsDocument Bytes)
  pub updates : List (YjsUpdate Bytes)
  pub snapshots : List (YjsSnapshot Bytes)

abbrev yjs_compact_update_count : ℕ
yjs_compact_update_count = 500

abbrev yjs_compact_state_bytes : ℕ
yjs_compact_state_bytes = 1048576

later_seq : ℕ → Option ℕ → Option ℕ
later_seq seq none = some seq
later_seq seq (some m) = some (if leb m seq then seq else m)

-- YjsRepository.
module _ {Bytes : Type 0} where
  abbrev pub is_document : ℕ → YjsDocument Bytes → Bool
  is_document i d = d.id == i

  abbrev pub in_log : ℕ → YjsUpdate Bytes → Bool
  in_log i u = u.yjs_document_id == i

  abbrev document_in : ℕ → ℕ → YjsDocument Bytes → Bool
  document_in cell i d = d.artifact_id == i && d.cell_id == cell

  get_by_artifact : ℕ → ℕ → YjsDb Bytes → Option (YjsDocument Bytes)
  get_by_artifact cell i y = find (document_in cell i) y.documents

  -- UNIQUE(artifact_id), and the primary key.
  abbrev document_clashes : YjsDocument Bytes → YjsDocument Bytes → Bool
  document_clashes row d = d.id == row.id || d.artifact_id == row.artifact_id

  -- The flush of a row that was changed under its lock.
  flush_row : YjsDocument Bytes → YjsDb Bytes → YjsDb Bytes
  flush_row row y = record y { documents = update_if (is_document row.id) (λ _. row) y.documents }

  append_update : YjsUpdate Bytes → YjsDb Bytes → YjsDb Bytes
  append_update u y = record y { updates = y.updates ++ u ∷ [] }

  pub max_update_seq : ℕ → List (YjsUpdate Bytes) → Option ℕ
  unfolding later_seq
  max_update_seq i [] = none
  max_update_seq i (u ∷ us) =
      let rest = max_update_seq i us in if in_log i u then later_seq u.seq rest else rest

  pub prune_updates : ℕ → Option ℕ → List (YjsUpdate Bytes) → List (YjsUpdate Bytes)
  prune_updates i none us = us
  prune_updates i (some up_to_seq) us = keep_if (λ u. not (in_log i u && leb u.seq up_to_seq)) us

  insert_snapshot : YjsDocument Bytes → YjsDb Bytes → YjsDb Bytes
  insert_snapshot row y = record y {
    snapshots =
        y.snapshots
        ++ record {
          cell_id = row.cell_id;
          yjs_document_id = row.id;
          state = row.state;
          state_vector = row.state_vector;
        }
          ∷ [];
  }

  -- YjsService; a call that raises leaves the database as it was. The row that is found has the cell
  -- and the artifact of the call.
  compact : ℕ → YjsDocument Bytes → YjsDb Bytes → YjsDocument Bytes × YjsDb Bytes
  unfolding insert_snapshot max_update_seq prune_updates flush_row
  compact now row y =
      let y₁ = insert_snapshot row y in
      let pruned = prune_updates row.id (max_update_seq row.id y₁.updates) y₁.updates in
      let row₁ = record row { update_count = 0; last_compacted_at = some now } in
      (row₁, flush_row row₁ (record y₁ { updates = pruned }))

  document_of : Option (YjsDocument Bytes) → Result ArtifactsError (YjsDocument Bytes)
  document_of none = err yjs_document_not_found
  document_of (some row) = ok row

  locked_for : ℕ → ℕ → YjsDb Bytes → Option Artifact → Result ArtifactsError (YjsDocument Bytes)
  unfolding document_of get_by_artifact
  locked_for cell i y none = err artifact_not_found
  locked_for cell i y (some _) = document_of (get_by_artifact cell i y)

  -- _require_live_envelope, and the row under its lock.
  locked_row : ℕ → ℕ → YjsDb Bytes → Result ArtifactsError (YjsDocument Bytes)
  unfolding locked_for get_for_update
  locked_row cell i y = locked_for cell i y (get_for_update cell i y.db)

module _ {Doc Bytes : Type 0} (lib : Pycrdt Doc Bytes) where
  insert_document :
      YjsDocument Bytes → YjsDb Bytes → Result ArtifactsError (YjsDocument Bytes × YjsDb Bytes)
  insert_document row y =
      if any (document_clashes row) y.documents
      then err yjs_document_already_exists
      else ok (row, record y { documents = y.documents ++ row ∷ [] })

  -- The look at an existing document before the insert is its first clash.
  create_on :
      ℕ
      → ℕ
      → ℕ
      → YjsDb Bytes
      → Option Artifact
      → Result ArtifactsError (YjsDocument Bytes × YjsDb Bytes)
  unfolding insert_document
  create_on new_id cell i y none = err artifact_not_found
  create_on new_id cell i y (some a) =
      if not (str_eq a.artifact_type "document" || str_eq a.artifact_type "code")
      then err artifact_type_mismatch
      else if any (document_in cell i) y.documents
      then err yjs_document_already_exists
      else insert_document
          (record {
            id = new_id;
            cell_id = cell;
            artifact_id = i;
            state = lib.get_update lib.new;
            state_vector = lib.get_state lib.new;
            update_count = 0;
            last_compacted_at = none;
          })
          y

  unfoldable pub create_document :
      ℕ → ℕ → ℕ → YjsDb Bytes → Result ArtifactsError (YjsDocument Bytes × YjsDb Bytes)
  unfolding create_on get_for_update
  create_document new_id cell i y = create_on new_id cell i y (get_for_update cell i y.db)

  module _ (compact_update_count compact_state_bytes : ℕ) where
    compact_if_due : ℕ → YjsDocument Bytes → YjsDb Bytes → YjsDocument Bytes × YjsDb Bytes
    unfolding compact
    compact_if_due now row y =
        if ltb compact_update_count row.update_count || ltb compact_state_bytes (lib.len row.state)
        then compact now row y
        else (row, y)

    pub save :
        ℕ → ℕ → YjsDocument Bytes → Bytes → Doc → YjsDb Bytes → YjsDocument Bytes × YjsDb Bytes
    unfolding append_update flush_row compact_if_due
    save now seq row update_data doc y =
        let row₁ = record row {
          state = lib.get_update doc;
          state_vector = lib.get_state doc;
          update_count = row.update_count + 1;
        } in
        compact_if_due now row₁ (
          flush_row row₁ (
            append_update
              (record {
                seq = seq;
                cell_id = row.cell_id;
                yjs_document_id = row.id;
                update_data = update_data;
              })
              y))

    merged :
        ℕ
        → ℕ
        → YjsDocument Bytes
        → Bytes
        → YjsDb Bytes
        → Option Doc
        → Result ArtifactsError (YjsDocument Bytes × YjsDb Bytes)
    unfolding save
    merged now seq row update_data y none = err invalid_yjs_update
    merged now seq row update_data y (some doc) = ok (save now seq row update_data doc y)

    rebuilt :
        ℕ
        → ℕ
        → YjsDocument Bytes
        → Bytes
        → YjsDb Bytes
        → Option Doc
        → Result ArtifactsError (YjsDocument Bytes × YjsDb Bytes)
    unfolding merged
    rebuilt now seq row update_data y none = err value_error
    rebuilt now seq row update_data y (some head) =
        merged now seq row update_data y (lib.apply_update update_data head)

    on_row :
        ℕ
        → ℕ
        → Bytes
        → YjsDb Bytes
        → Result ArtifactsError (YjsDocument Bytes)
        → Result ArtifactsError (YjsDocument Bytes × YjsDb Bytes)
    unfolding rebuilt
    on_row now seq update_data y (err e) = err e
    on_row now seq update_data y (ok row) =
        rebuilt now seq row update_data y (lib.apply_update row.state lib.new)

    -- `seq` is the identity column's next number.
    unfoldable pub apply_update :
        ℕ
        → ℕ
        → ℕ
        → ℕ
        → Bytes
        → YjsDb Bytes
        → Result ArtifactsError (YjsDocument Bytes × YjsDb Bytes)
    unfolding on_row locked_row
    apply_update now seq cell i update_data y = on_row now seq update_data y (locked_row cell i y)

  version_of : YjsDocument Bytes → ArtifactVersion
  version_of row = record {
    cell_id = row.cell_id;
    artifact_id = row.artifact_id;
    version_num = 0;
    storage_kind = "yjs_snapshot";
    s3_object_id = none;
    byte_size = lib.len row.state;
    content_hash_sha256 = lib.sha256 row.state;
  }

  snapshot_version :
      (ArtifactVersion → Bool)
      → YjsDocument Bytes
      → YjsDb Bytes
      → Result ArtifactsError ArtifactVersion × Db
      → Result ArtifactsError (ArtifactVersion × YjsDb Bytes)
  snapshot_version checks row y (err e, db) = err e
  snapshot_version checks row y (ok v, db) = ok (v, record y { db = db })

  commit_row :
      (ArtifactVersion → Bool)
      → YjsDb Bytes
      → Result ArtifactsError (YjsDocument Bytes)
      → Result ArtifactsError (ArtifactVersion × YjsDb Bytes)
  unfolding insert_snapshot snapshot_version version_of allocate_version
  commit_row checks y (err e) = err e
  commit_row checks y (ok row) =
      snapshot_version checks row (insert_snapshot row y)
        (allocate_version checks (λ _. []) (version_of row) y.db)

  unfoldable pub commit_version :
      (ArtifactVersion → Bool)
      → ℕ
      → ℕ
      → YjsDb Bytes
      → Result ArtifactsError (ArtifactVersion × YjsDb Bytes)
  unfolding commit_row locked_row
  commit_version checks cell i y = commit_row checks y (locked_row cell i y)

-- The requests of any number of clients; each is a transaction under the lock of its row.
pub data YjsStep (Bytes : Type 0) : Type 0 where
  calls : ArtifactCall → YjsStep Bytes
  makes : ℕ → ℕ → ℕ → YjsStep Bytes
  applies : ℕ → ℕ → ℕ → ℕ → Bytes → YjsStep Bytes
  commits : ℕ → ℕ → YjsStep Bytes

abbrev pub kept :
    {Bytes A : Type 0} → YjsDb Bytes → Result ArtifactsError (A × YjsDb Bytes) → YjsDb Bytes
kept before (err _) = before
kept before (ok (_, after)) = after

module _ {Doc Bytes : Type 0} (lib : Pycrdt Doc Bytes) (checks : ArtifactVersion → Bool)
    (compact_update_count compact_state_bytes : ℕ) where
  unfoldable pub yjs_step : YjsStep Bytes → YjsDb Bytes → YjsDb Bytes
  unfolding serve create_document apply_update commit_version
  yjs_step (calls c) y = record y { db = serve checks c y.db }
  yjs_step (makes new_id cell i) y = kept y (create_document lib new_id cell i y)
  yjs_step (applies now seq cell i update_data) y =
      kept y
        (apply_update lib compact_update_count compact_state_bytes now seq cell i update_data y)
  yjs_step (commits cell i) y = kept y (commit_version lib checks cell i y)

  unfoldable pub yjs_steps : List (YjsStep Bytes) → YjsDb Bytes → YjsDb Bytes
  unfolding yjs_step
  yjs_steps [] y = y
  yjs_steps (t ∷ ts) y = yjs_steps ts (yjs_step t y)
