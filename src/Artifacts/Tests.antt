-- ===== src/Artifacts/Tests.antt =====
-- The theorems about artifacts, at small concrete inputs.
use oriion.Prelude.{
  is_ok, is_some, none, inr, ◌==◌, if◌then◌else◌, ℕ, ◌≡◌, refl, Bool, true, List, [], ◌∷◌,
}
use oriion.Artifacts.{
  Db, ArtifactVersion, ArtifactCall, creates, writes, deletes, serve, serve_all, create, insert,
  allocate_version, soft_delete, get_bytes, get_for_update,
}
use oriion.Artifacts.Races.{allocate_version-is_ok}

abbrev empty : Db
empty = record { artifacts = []; versions = []; usage = []; s3_objects = []; events = [] }

abbrev inline : ℕ → ℕ → ℕ → ArtifactVersion
inline cell i size = record {
  cell_id = cell;
  artifact_id = i;
  version_num = 0;
  storage_kind = "inline";
  s3_object_id = none;
  byte_size = size;
  content_hash_sha256 = "";
}

abbrev all_hold : ArtifactVersion → Bool
all_hold _ = true

-- Two artifacts in a cell, three versions, one of them refused in another cell, and a deletion.
abbrev session_calls : List ArtifactCall
session_calls =
    creates 1 10 "document" "plan"
    ∷ writes (inline 1 10 40)
    ∷ creates 1 11 "document" "notes"
    ∷ writes (inline 1 11 7)
    ∷ writes (inline 2 10 5)
    ∷ writes (inline 1 10 60)
    ∷ deletes 100 1 11
    ∷ []

usage_after : get_bytes 1 (serve_all all_hold session_calls empty).usage ≡ 100
unfolding serve_all serve create insert allocate_version soft_delete
usage_after = refl

-- Another writer commits the number of the first attempt, and that of the second.
abbrev numbered_by_racer : ℕ → ArtifactVersion
numbered_by_racer n = record (inline 1 10 9) { version_num = n }

abbrev two_racers : ℕ → List ArtifactVersion
two_racers n =
    if n == 0 then numbered_by_racer 1 ∷ [] else if n == 2 then numbered_by_racer 2 ∷ [] else []

abbrev one_artifact : Db
one_artifact = record {
  artifacts =
      record {
        id = 10;
        cell_id = 1;
        artifact_type = "document";
        title = "plan";
        current_version_num = 0;
        deleted_at = none;
      }
      ∷ [];
  versions = [];
  usage = [];
  s3_objects = [];
  events = [];
}

one_artifact_there : is_some (get_for_update 1 10 one_artifact) ≡ true
unfolding get_for_update
one_artifact_there = refl

allocate_version-is_ok_example :
    is_ok (allocate_version all_hold two_racers (inline 1 10 40) one_artifact).0 ≡ true
allocate_version-is_ok_example =
    allocate_version-is_ok all_hold (λ _. refl) two_racers (inline 1 10 40) one_artifact
      one_artifact_there (inr refl)
