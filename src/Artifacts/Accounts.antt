-- ===== src/Artifacts/Accounts.antt =====
-- Versions are numbered without gaps, and a cell is charged what its live artifacts hold.
pub mod Sums
pub mod Updates
use oriion.Prelude.{
  ℕ, zero, suc, ◌+◌, ◌-◌, ◌≤◌, ◌≡◌, refl, sym, ap, ◌∙◌, Bool, true, false, ◌&&◌, Option, none, some,
  List, [], ◌∷◌, ◌++◌, All, any, elem, map, find, keep_if, update_if, ltb, ◌==◌, arith,
  if◌then◌else◌, inl, inr, Bool-cases, Result, ok, err,
}
use oriion.Prelude.Int.{pos, negsuc}
use mathlib.Core.List.{append-nil}
use mathlib.Core.Path.{subst}
use oriion.Artifacts.{
  Artifact, ArtifactVersion, Db, ArtifactsError, IntegrityError, is_live, has_id, of_artifact,
  live_in, same_num, sum_version_bytes, shift, add_bytes, get_bytes, committed, emit, insert,
  get_for_update, set_current_version, insert_version, create, arrive, turn, attempts, max_attempts,
  stored, allocate_on, allocate_version, delete_found, soft_delete, ArtifactCall, creates, writes,
  deletes, serve, serve_all,
}
use oriion.Artifacts.Accounts.Sums.{
  Distinct, numbers, upto, live_bytes, elem-upto, any-same_num, numbers-append, numbers-other,
  sum_version_bytes-append, Known, numbers-absent, any-append, live_bytes-append, find-has_id,
  get_bytes-add_bytes, any-update, Distinct-update, Distinct-append,
}
use oriion.Artifacts.Accounts.Updates.{
  Numbered, head_of, deleted, written-Numbered, bytes_written, deleted-Numbered, freed_bytes,
  here_is,
}

pub record IsAccounted (db : Db) : Type 0 where
  pub distinct : Distinct db.artifacts
  pub known : Known db.artifacts db.versions
  pub numbered : All (Numbered db.versions) db.artifacts
  pub accounted : (cell : ℕ) → get_bytes cell db.usage ≡ live_bytes cell db.versions db.artifacts

Known-append :
    (es : List Artifact) (a : Artifact) (vs : List ArtifactVersion)
    → Known es vs
    → Known (es ++ a ∷ []) vs
Known-append es a [] k = tt
Known-append es a (v ∷ vs) (e, k) =
    (any-append v.artifact_id es a ∙ ground (arith, e), Known-append es a vs k)

Known-update :
    (p : Artifact → Bool) (f : Artifact → Artifact) (es : List Artifact) (vs : List ArtifactVersion)
    → ((a : Artifact) → (f a).id ≡ a.id)
    → Known es vs
    → Known (update_if p f es) vs
Known-update p f es [] h k = tt
Known-update p f es (v ∷ vs) h (e, k) =
    (any-update v.artifact_id p f es h ∙ e, Known-update p f es vs h k)

All-append :
    {A : Type 0} → (P : A → Type 0) (xs : List A) (x : A) → All P xs → P x → All P (xs ++ x ∷ [])
All-append P [] x a h = (h, tt)
All-append P (y ∷ xs) x (p, a) h = (p, All-append P xs x a h)

found-Numbered :
    (cell i : ℕ) (vs : List ArtifactVersion) (a : Artifact) (es : List Artifact)
    → find (live_in cell i) es ≡ some a
    → All (Numbered vs) es
    → numbers i vs ≡ upto a.current_version_num
found-Numbered cell i vs a [] found n = absurd (ground (arith, found))
found-Numbered cell i vs a (b ∷ es) found (n, ns) = elim (Bool-cases (live_in cell i b)) [
  | inl y ↦
      ap (λ j. numbers j vs) (ground (arith, y))
      ∙ n
      ∙ ap (λ (x : Artifact). upto x.current_version_num) (here_is cell i a b es found y)
  | inr z ↦ found-Numbered cell i vs a es (ground (arith, found, z)) ns
]

-- Each operation keeps the accounts.
create-IsAccounted :
    (a : Artifact) (db : Db)
    → a.current_version_num ≡ 0
    → IsAccounted db
    → IsAccounted (committed db (create a db))
unfolding create insert emit
create-IsAccounted a db h i = elim (Bool-cases (any (has_id a.id) db.artifacts)) [
  | inl y ↦ rw (y, committed) i
  | inr z ↦
      rw (z, committed, create, insert)
        (record {
          distinct = Distinct-append db.artifacts a i.distinct z;
          known = Known-append db.artifacts a db.versions i.known;
          numbered = All-append (Numbered db.versions) db.artifacts a i.numbered (
              ap (λ xs. map (λ (u : ArtifactVersion). u.version_num) xs)
                (numbers-absent a.id db.artifacts db.versions i.known z)
              ∙ ap upto (sym h));
          accounted = λ c.
              i.accounted c
              ∙ sym (
                  live_bytes-append c db.versions db.artifacts a
                    (numbers-absent a.id db.artifacts db.versions i.known z));
        })
]

usage_written :
    (c cell size : ℕ) (rows : List (ℕ × ℕ))
    → get_bytes c (if ltb 0 size then add_bytes cell (pos size) rows else rows)
      ≡ get_bytes c rows + (if cell == c then size else 0)
usage_written c cell size rows = elim (Bool-cases (ltb 0 size)) [
  | inl y ↦ rw (y, get_bytes-add_bytes c cell (pos size) rows) (ground arith)
  | inr z ↦ rw z (ground (arith, z))
]

usage_freed :
    (c cell freed total : ℕ) (rows : List (ℕ × ℕ))
    → total + (if cell == c then freed else 0) ≡ get_bytes c rows
    → get_bytes c (if ltb 0 freed then add_bytes cell (negsuc (freed - 1)) rows else rows) ≡ total
usage_freed c cell freed total rows h = elim (Bool-cases (ltb 0 freed)) [
  | inl y ↦ rw (y, get_bytes-add_bytes c cell (negsuc (freed - 1)) rows) (ground (arith, y, h))
  | inr z ↦ rw z (ground (arith, z, h))
]

soft_delete-IsAccounted :
    (now cell i : ℕ) (db : Db)
    → IsAccounted db
    → IsAccounted (committed db (soft_delete now cell i db))
unfolding soft_delete delete_found get_for_update emit
soft_delete-IsAccounted now cell i db acc = delete_found-IsAccounted (get_for_update cell i db) refl
  where
    delete_found-IsAccounted :
        (o : Option Artifact)
        → get_for_update cell i db ≡ o
        → IsAccounted (committed db (delete_found now cell i o db))
    delete_found-IsAccounted none e = acc
    delete_found-IsAccounted (some a) e = record {
      distinct =
          Distinct-update (live_in cell i) (deleted now) db.artifacts (λ _. refl) acc.distinct;
      known =
          Known-update (live_in cell i) (deleted now) db.artifacts db.versions (λ _. refl)
            acc.known;
      numbered = deleted-Numbered now cell i db.versions db.artifacts acc.numbered;
      accounted = λ c.
          usage_freed c cell (sum_version_bytes i db.versions)
            (live_bytes c db.versions (update_if (live_in cell i) (deleted now) db.artifacts))
            db.usage
            (freed_bytes now cell i db.versions c a db.artifacts acc.distinct e
              ∙ sym (acc.accounted c));
    }

module _ (checks : ArtifactVersion → Bool) where
  stored-IsAccounted :
      (v : ArtifactVersion) (a : Artifact) (db : Db)
      → find (live_in v.cell_id v.artifact_id) db.artifacts ≡ some a
      → v.version_num ≡ suc a.current_version_num
      → IsAccounted db
      → IsAccounted (stored checks (ok v, record db { versions = db.versions ++ v ∷ [] })).1
  unfolding stored set_current_version emit
  stored-IsAccounted v a db found h i = record {
    distinct =
        Distinct-update (has_id v.artifact_id) (head_of v) db.artifacts (λ _. refl) i.distinct;
    known =
        Known-update (has_id v.artifact_id) (head_of v) db.artifacts (db.versions ++ v ∷ [])
          (λ _. refl)
          (All-append (λ u. any (has_id u.artifact_id) db.artifacts ≡ true) db.versions v i.known
            (find-has_id v.cell_id v.artifact_id a db.artifacts found));
    numbered =
        written-Numbered db.versions v v.cell_id a db.artifacts i.distinct found h i.numbered;
    accounted = λ c.
        usage_written c v.cell_id v.byte_size db.usage
        ∙ ap (λ n. n + (if v.cell_id == c then v.byte_size else 0)) (i.accounted c)
        ∙ sym (bytes_written db.versions v c v.cell_id a db.artifacts i.distinct found);
  }

  -- With no racer the first insert meets no version of its number.
  insert_version-IsFresh :
      (v : ArtifactVersion) (a : Artifact) (db : Db)
      → find (live_in v.cell_id v.artifact_id) db.artifacts ≡ some a
      → v.version_num ≡ suc a.current_version_num
      → IsAccounted db
      → any (same_num v) db.versions ≡ false
  insert_version-IsFresh v a db found h i =
      any-same_num v db.versions
      ∙ ap (λ ns. elem v.version_num ns)
          (found-Numbered v.cell_id v.artifact_id db.versions a db.artifacts found i.numbered)
      ∙ elem-upto v.version_num a.current_version_num (omega (arith, h))

  turn-IsAccounted :
      (again : ℕ → Db → Result ArtifactsError ArtifactVersion × Db) (later : List ArtifactVersion)
      (v : ArtifactVersion) (a : Artifact) (before db : Db)
      → find (live_in v.cell_id v.artifact_id) db.artifacts ≡ some a
      → v.version_num ≡ suc a.current_version_num
      → IsAccounted before
      → IsAccounted db
      → IsAccounted (
          committed before
            (stored checks (turn checks again later v db (insert_version checks v db))))
  unfolding insert_version turn stored
  turn-IsAccounted again later v a before db found h j i = elim (Bool-cases (checks v)) [
    | inl y ↦ rw (y, insert_version-IsFresh v a db found h i) (stored-IsAccounted v a db found h i)
    | inr z ↦ rw z j
  ]

  arrive_none : (db : Db) → arrive checks [] db ≡ db
  unfolding arrive
  arrive_none db = ap (λ vs. record db { versions = vs }) (append-nil db.versions)

  pub allocate_version-IsAccounted :
      (v : ArtifactVersion) (db : Db)
      → IsAccounted db
      → IsAccounted (committed db (allocate_version checks (λ _. []) v db))
  unfolding allocate_version allocate_on get_for_update attempts max_attempts arrive
  allocate_version-IsAccounted v db i =
      allocate_on-IsAccounted (get_for_update v.cell_id v.artifact_id db) refl
    where
      allocate_on-IsAccounted :
          (o : Option Artifact)
          → get_for_update v.cell_id v.artifact_id db ≡ o
          → IsAccounted (committed db (allocate_on checks (λ _. []) v o db))
      allocate_on-IsAccounted none e = i
      allocate_on-IsAccounted (some a) e =
          turn-IsAccounted (λ num. attempts checks (λ _. []) 2 2 (record v { version_num = num }))
            [] (record v { version_num = a.current_version_num + 1 }) a db (arrive checks [] db) e
            (omega arith) i (subst IsAccounted (sym (arrive_none db)) i)

  pub serve-IsAccounted :
      (c : ArtifactCall) (db : Db) → IsAccounted db → IsAccounted (serve checks c db)
  unfolding serve
  serve-IsAccounted (creates cell j type title) db i = create-IsAccounted _ db refl i
  serve-IsAccounted (writes v) db i =
      allocate_version-IsAccounted (record v { storage_kind = "inline"; s3_object_id = none }) db i
  serve-IsAccounted (deletes now cell j) db i = soft_delete-IsAccounted now cell j db i

  -- From accounts that are right, after any calls of the service one after the other, refused ones
  -- included: the versions of each artifact are numbered 1, 2, … up to its head in the order of their
  -- writes, each belongs to an artifact that is there, no id is used twice, and the usage of each cell
  -- is the bytes of the versions of its artifacts that are not deleted.
  pub serve_all-IsAccounted :
      (cs : List ArtifactCall) (db : Db) → IsAccounted db → IsAccounted (serve_all checks cs db)
  unfolding serve_all
  serve_all-IsAccounted [] db i = i
  serve_all-IsAccounted (c ∷ cs) db i =
      serve_all-IsAccounted cs (serve checks c db) (serve-IsAccounted c db i)
