-- ===== src/Artifacts/Uploads/Tests.antt =====
-- Two completions of one upload that have both read its row before either marks it.
use oriion.Prelude.{
  ℕ, ◌≡◌, ◌≤◌, ◌==◌, refl, String, Bool, true, false, none, some, List, [], ◌∷◌, any, map, count_if,
  length, if◌then◌else◌, is_ok, arith,
}
use oriion.Artifacts.{ArtifactVersion, S3Object, creates, get_bytes}
use oriion.Artifacts.Accounts.{IsAccounted}
use oriion.Artifacts.Uploads.{
  ObjectStoragePort, UploadStep, calls, presigns, begins, finishes, purges, Uploads, run_steps,
  pending_id, download_url,
}
use oriion.Artifacts.Uploads.Adds.{of_object}
use oriion.Artifacts.Uploads.Sound.{IsSound}
use oriion.Artifacts.Uploads.Once.{upload_once}

-- A body is its size; the storage holds one object from time 20 on.
abbrev storage : ObjectStoragePort ℕ String
storage = record {
  presign_post = λ b k t m. k;
  get_object = λ now b k. if now == 20 then some 70 else none;
  presign_get = λ b k t. k;
  bucket = "oriion";
  env_prefix = "prod";
  max_upload_bytes = 1000;
  uuid_text = λ i. if i == 1 then "one" else "ten";
  int_text = λ n. if n == 1 then "1" else "2";
  len = λ n. n;
  sha256 = λ n. "digest";
}

abbrev all_pass : ArtifactVersion → Bool
all_pass _ = true

abbrev empty_uploads : Uploads ℕ
empty_uploads = record {
  db = record { artifacts = []; versions = []; usage = []; s3_objects = []; events = [] };
  under_way = [];
}

abbrev empty-IsSound : IsSound empty_uploads.db
empty-IsSound = record {
  accounts = record { distinct = tt; known = tt; numbered = tt; accounted = λ _. refl };
  one_row = λ i. omega arith;
  once = λ i. omega arith;
}

abbrev racing_steps : List UploadStep
racing_steps =
    calls (creates 1 10 "asset" "logo")
    ∷ presigns 5 10 1 10 "logo.png" none
    ∷ presigns 6 11 1 10 "logo.png" none
    ∷ begins 15 1 5
    ∷ begins 20 1 5
    ∷ begins 20 1 5
    ∷ finishes 1
    ∷ finishes 0
    ∷ purges 900 1
    ∷ []

abbrev raced : Uploads ℕ
unfolding run_steps
raced = run_steps storage all_pass racing_steps empty_uploads

upload_once_example :
    IsAccounted (run_steps storage all_pass racing_steps empty_uploads).db
    × ((i : ℕ)
        → (count_if
              (of_object i)
              (run_steps storage all_pass racing_steps empty_uploads).db.versions
            ≤ 1)
          × (any
                  (pending_id i)
                  (run_steps storage all_pass racing_steps empty_uploads).db.s3_objects
                ≡ true
              → count_if
                  (of_object i)
                  (run_steps storage all_pass racing_steps empty_uploads).db.versions
                ≡ 0))
upload_once_example = upload_once storage all_pass racing_steps empty_uploads empty-IsSound

-- The second reservation of the key is refused, the upload at time 15 is not there yet; one of the
-- two completions makes the version.
versions_raced : length raced.db.versions ≡ 1
unfolding run_steps
versions_raced = refl

usage_raced : get_bytes 1 raced.db.usage ≡ 70
unfolding run_steps
usage_raced = refl

rows_raced : map (λ (o : S3Object). o.status) raced.db.s3_objects ≡ "stored" ∷ []
unfolding run_steps
rows_raced = refl

left_under_way : length raced.under_way ≡ 0
unfolding run_steps
left_under_way = refl

download_raced : is_ok (download_url storage 1 5 raced.db) ≡ true
unfolding run_steps download_url
download_raced = refl

download_elsewhere : is_ok (download_url storage 2 5 raced.db) ≡ false
unfolding run_steps download_url
download_elsewhere = refl
