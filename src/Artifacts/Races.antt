-- ===== src/Artifacts/Races.antt =====
-- allocate_version among writers that do not hold the envelope's lock.
use oriion.Prelude.{
  ℕ, suc, ◌+◌, ◌<◌, ◌≡◌, ◌⊎◌, is_some, refl, ap, ◌∙◌, Bool, true, false, Option, none, some, List,
  [], ◌∷◌, ◌++◌, any, elem, arith, inl, inr, Bool-cases, Result, ok, err, is_ok,
}
use mathlib.Core.List.{append-nil}
use oriion.Artifacts.{
  Artifact, ArtifactVersion, Db, ArtifactsError, same_num, get_for_update, insert_version, maximum,
  max_version_num, arrive, turn, attempts, max_attempts, stored, allocate_on, allocate_version,
}
use oriion.Artifacts.Accounts.Sums.{numbers, any-same_num}

elem_above : (m : ℕ) (ns : List ℕ) → maximum ns < m → elem m ns ≡ false
unfolding maximum
elem_above m [] h = refl
elem_above m (n ∷ ns) h = ground (arith, h, elem_above m ns)

-- The number that is read anew is free.
max_version_num-IsFree :
    (v : ArtifactVersion) (vs : List ArtifactVersion)
    → any (same_num (record v { version_num = max_version_num v.artifact_id vs + 1 })) vs ≡ false
unfolding max_version_num
max_version_num-IsFree v vs =
    any-same_num (record v { version_num = maximum (numbers v.artifact_id vs) + 1 }) vs
    ∙ elem_above (maximum (numbers v.artifact_id vs) + 1) (numbers v.artifact_id vs) (omega arith)

module _ (checks : ArtifactVersion → Bool) (holds : (v : ArtifactVersion) → checks v ≡ true) where
  stored-is_ok :
      (r : Result ArtifactsError ArtifactVersion × Db) → is_ok (stored checks r).0 ≡ is_ok r.0
  unfolding stored
  stored-is_ok (ok v, db) = refl
  stored-is_ok (err e, db) = refl

  free-is_ok :
      (again : ℕ → Db → Result ArtifactsError ArtifactVersion × Db) (later : List ArtifactVersion)
      (v : ArtifactVersion) (db : Db)
      → any (same_num v) db.versions ≡ false
      → is_ok (turn checks again later v db (insert_version checks v db)).0 ≡ true
  unfolding insert_version turn
  free-is_ok again later v db h = rw (holds v, h) refl

  turn-is_ok :
      (again : ℕ → Db → Result ArtifactsError ArtifactVersion × Db) (later : List ArtifactVersion)
      (v : ArtifactVersion) (db : Db)
      → is_ok
          (again
            (max_version_num v.artifact_id (arrive checks later db).versions + 1)
            (arrive checks later db)).0
        ≡ true
      → is_ok (turn checks again later v db (insert_version checks v db)).0 ≡ true
  unfolding insert_version turn
  turn-is_ok again later v db h = elim (Bool-cases (any (same_num v) db.versions)) [
    | inl taken ↦ rw (holds v, taken) h
    | inr free ↦ free-is_ok again later v db free
  ]

  -- Where nothing is committed between the re-read and the insert, the insert succeeds.
  quiet-is_ok :
      (racers : ℕ → List ArtifactVersion) (n k : ℕ) (v : ArtifactVersion) (db : Db)
      → racers k ≡ []
      → is_ok
          (attempts checks racers
            (suc n)
            k
            (record v { version_num = max_version_num v.artifact_id db.versions + 1 })
            db).0
        ≡ true
  unfolding attempts arrive
  quiet-is_ok racers n k v db quiet =
      free-is_ok (λ num. attempts checks racers n (k + 2) (record v { version_num = num }))
        (racers (k + 1)) (record v { version_num = max_version_num v.artifact_id db.versions + 1 })
        (arrive checks (racers k) db)
        (ap
            (λ vs.
              any
                (same_num
                  (record v { version_num = max_version_num v.artifact_id db.versions + 1 }))
                vs)
            (ap (λ ws. db.versions ++ ws) quiet ∙ append-nil db.versions)
          ∙ max_version_num-IsFree v db.versions)

  attempts-is_ok :
      (racers : ℕ → List ArtifactVersion) (v : ArtifactVersion) (db : Db)
      → (racers 2 ≡ []) ⊎ (racers 4 ≡ [])
      → is_ok (attempts checks racers 3 0 v db).0 ≡ true
  unfolding attempts
  attempts-is_ok racers v db (inl quiet) =
      turn-is_ok (λ num. attempts checks racers 2 2 (record v { version_num = num })) (racers 1) v
        (arrive checks (racers 0) db) (quiet-is_ok racers 1 2 v _ quiet)
  attempts-is_ok racers v db (inr quiet) =
      let db₁ = arrive checks (racers 1) (arrive checks (racers 0) db) in
      turn-is_ok (λ num. attempts checks racers 2 2 (record v { version_num = num })) (racers 1) v
        (arrive checks (racers 0) db)
        (turn-is_ok (λ num. attempts checks racers 1 4 (record v { version_num = num })) (racers 3)
          (record v { version_num = max_version_num v.artifact_id db₁.versions + 1 })
          (arrive checks (racers 2) db₁) (quiet-is_ok racers 0 4 v _ quiet))

  -- Where every row satisfies the other constraints and the envelope is there, an allocation succeeds,
  -- whatever other writers commit before it and between its statements, if they commit nothing between
  -- the re-read of the head and the insert of one of its two retries.
  pub allocate_version-is_ok :
      (racers : ℕ → List ArtifactVersion) (v : ArtifactVersion) (db : Db)
      → is_some (get_for_update v.cell_id v.artifact_id db) ≡ true
      → (racers 2 ≡ []) ⊎ (racers 4 ≡ [])
      → is_ok (allocate_version checks racers v db).0 ≡ true
  unfolding allocate_version allocate_on max_attempts
  allocate_version-is_ok racers v db there quiet =
      found-is_ok (get_for_update v.cell_id v.artifact_id db) there
    where
      found-is_ok :
          (o : Option Artifact)
          → is_some o ≡ true
          → is_ok (allocate_on checks racers v o db).0 ≡ true
      found-is_ok none h = absurd (ground (arith, h))
      found-is_ok (some a) h =
          stored-is_ok
            (attempts checks racers 3 0 (record v { version_num = a.current_version_num + 1 }) db)
          ∙ attempts-is_ok racers (record v { version_num = a.current_version_num + 1 }) db quiet
