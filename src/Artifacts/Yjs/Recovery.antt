-- ===== src/Artifacts/Yjs/Recovery.antt =====
-- The head of every document is what its log makes of a snapshot of it, or of the new document.
use oriion.Prelude.{
  ℕ, ◌≡◌, refl, str_eq, Bool, true, false, not, ◌||◌, Option, none, some, List, [], ◌∷◌, ◌++◌, any,
  find, arith, inl, inr, Bool-cases, Result, ok, err,
}
use oriion.Artifacts.{
  Artifact, ArtifactVersion, Db, ArtifactsError, get_for_update, allocate_version,
}
use oriion.Artifacts.Yjs.{
  Pycrdt, YjsDocument, YjsDb, is_document, document_in, get_by_artifact, document_clashes,
  insert_snapshot, document_of, locked_for, locked_row, insert_document, create_on, create_document,
  merged, rebuilt, on_row, apply_update, version_of, snapshot_version, commit_row, commit_version,
  YjsStep, calls, makes, applies, commits, kept, yjs_step, yjs_steps,
}
use oriion.Artifacts.Yjs.Log.{log}
use oriion.Artifacts.Yjs.Replay.{
  All-map, All-find, All-snoc, any-find, new-IsBase, append-IsBase, Recovers, IsRecoverable,
  same_log-Recovers,
}
use oriion.Artifacts.Yjs.Saves.{save-IsRecoverable}

module _ {Doc Bytes : Type 0} (lib : Pycrdt Doc Bytes) (limit size : ℕ) where
  module _ (whole : (d : Doc) → lib.apply_update (lib.get_update d) lib.new ≡ some d)
      (y : YjsDb Bytes) (s : IsRecoverable lib limit size y) where
    locked-found :
        (cell i : ℕ) (row : YjsDocument Bytes)
        → locked_row cell i y ≡ ok row
        → find (document_in cell i) y.documents ≡ some row
    unfolding locked_row locked_for get_by_artifact document_of
    locked-found cell i row =
        elim (get_for_update cell i y.db)
          as (λ o.
            locked_for cell i y o ≡ ok row → find (document_in cell i) y.documents ≡ some row) [
              | none ↦ λ h. absurd (ground (arith, h))
              | some _ ↦ is_found (find (document_in cell i) y.documents)
            ]
      where
        is_found : (o : Option (YjsDocument Bytes)) → document_of o ≡ ok row → o ≡ some row
        is_found none h = absurd (ground (arith, h))
        is_found (some d) h = ground (arith, h)

    apply_update-IsRecoverable :
        (now seq cell i : ℕ) (update_data : Bytes)
        → IsRecoverable lib limit size
            (kept y (apply_update lib limit size now seq cell i update_data y))
    unfolding apply_update on_row rebuilt merged
    apply_update-IsRecoverable now seq cell i update_data =
        on_row-IsRecoverable (locked_row cell i y) (λ row. locked-found cell i row)
      where
        merged-IsRecoverable :
            (row : YjsDocument Bytes) (r : Recovers lib limit size y.updates y.snapshots row)
            → any (is_document row.id) y.documents ≡ true
            → (o : Option Doc) → lib.apply_update update_data r.head ≡ o
            → IsRecoverable lib limit size
                (kept y (merged lib limit size now seq row update_data y o))
        merged-IsRecoverable row r p none e = s
        merged-IsRecoverable row r p (some doc) e =
            save-IsRecoverable lib limit size whole y s row update_data doc r p e seq now

        on_row-IsRecoverable :
            (o : Result ArtifactsError (YjsDocument Bytes))
            → ((row : YjsDocument Bytes)
                → o ≡ ok row
                → find (document_in cell i) y.documents ≡ some row)
            → IsRecoverable lib limit size (kept y (on_row lib limit size now seq update_data y o))
        on_row-IsRecoverable (err e) f = s
        on_row-IsRecoverable (ok row) f =
            rw
              (All-find (Recovers lib limit size y.updates y.snapshots) (document_in cell i) row
                y.documents (f row refl) s.documents).loads
              (merged-IsRecoverable row
                (All-find (Recovers lib limit size y.updates y.snapshots) (document_in cell i) row
                  y.documents (f row refl) s.documents)
                (any-find (document_in cell i) row y.documents (f row refl)) _ refl)

    snapshot-IsRecoverable :
        (row : YjsDocument Bytes) (db : Db)
        → IsRecoverable lib limit size (record (insert_snapshot row y) { db = db })
    unfolding insert_snapshot
    snapshot-IsRecoverable row db = record {
      documents =
          All-map (Recovers lib limit size y.updates y.snapshots)
            (Recovers lib limit size y.updates _) y.documents
            (λ d q.
              same_log-Recovers lib limit size y.updates y.updates y.snapshots _ d refl
                (λ base h. append-IsBase lib d.id base y.snapshots _ h) q)
            s.documents;
      no_strays = s.no_strays;
    }

    commit_version-IsRecoverable :
        (checks : ArtifactVersion → Bool) (cell i : ℕ)
        → IsRecoverable lib limit size (kept y (commit_version lib checks cell i y))
    unfolding commit_version commit_row snapshot_version
    commit_version-IsRecoverable checks cell i = on_row-IsRecoverable (locked_row cell i y)
      where
        taken-IsRecoverable :
            (row : YjsDocument Bytes) (o : Result ArtifactsError ArtifactVersion × Db)
            → IsRecoverable lib limit size
                (kept y (snapshot_version lib checks row (insert_snapshot row y) o))
        taken-IsRecoverable row (err e, db) = s
        taken-IsRecoverable row (ok v, db) = snapshot-IsRecoverable row db

        on_row-IsRecoverable :
            (o : Result ArtifactsError (YjsDocument Bytes))
            → IsRecoverable lib limit size (kept y (commit_row lib checks y o))
        on_row-IsRecoverable (err e) = s
        on_row-IsRecoverable (ok row) =
            taken-IsRecoverable row (allocate_version checks (λ _. []) (version_of lib row) y.db)

    insert_document-IsRecoverable :
        (row : YjsDocument Bytes)
        → row.state ≡ lib.get_update lib.new
        → row.update_count ≡ 0
        → IsRecoverable lib limit size (kept y (insert_document lib row y))
    unfolding insert_document
    insert_document-IsRecoverable row e c =
        elim (Bool-cases (any (document_clashes row) y.documents)) [
          | inl taken ↦ rw (taken, kept) s
          | inr free ↦
              rw (free, kept)
                (record {
                  documents =
                      All-snoc (Recovers lib limit size y.updates y.snapshots) y.documents row
                        s.documents
                        (record {
                          base = lib.new;
                          head = lib.new;
                          is_base = new-IsBase lib row.id y.snapshots;
                          loads = rw e (whole lib.new);
                          replays = rw (unlogged free) refl;
                          counted = rw (unlogged free, c) refl;
                          bounded = omega (arith, c);
                        });
                  no_strays = λ i h. s.no_strays i (any-shorter i y.documents row h);
                })
        ]
      where
        any-shorter :
            (i : ℕ) (ds : List (YjsDocument Bytes)) (d : YjsDocument Bytes)
            → any (is_document i) (ds ++ d ∷ []) ≡ false
            → any (is_document i) ds ≡ false
        any-shorter i [] d h = refl
        any-shorter i (x ∷ ds) d h = ground (arith, h, any-shorter i ds d)

        unclashed :
            (ds : List (YjsDocument Bytes))
            → any (document_clashes row) ds ≡ false
            → any (is_document row.id) ds ≡ false
        unclashed [] h = refl
        unclashed (x ∷ ds) h = ground (arith, h, unclashed ds)

        unlogged : any (document_clashes row) y.documents ≡ false → log row.id y.updates ≡ []
        unlogged h = s.no_strays row.id (unclashed y.documents h)

    create_document-IsRecoverable :
        (new_id cell i : ℕ)
        → IsRecoverable lib limit size (kept y (create_document lib new_id cell i y))
    unfolding create_document create_on
    create_document-IsRecoverable new_id cell i =
        elim (get_for_update cell i y.db)
          as (λ o. IsRecoverable lib limit size (kept y (create_on lib new_id cell i y o))) [
            | none ↦ s
            | some a ↦ of_type a
          ]
      where
        of_type :
            (a : Artifact)
            → IsRecoverable lib limit size (kept y (create_on lib new_id cell i y (some a)))
        of_type a =
            elim (Bool-cases
              (not (str_eq a.artifact_type "document" || str_eq a.artifact_type "code"))) [
                | inl other ↦ rw (other, create_on, kept) s
                | inr right ↦ elim (Bool-cases (any (document_in cell i) y.documents)) [
                  | inl there ↦ rw (right, there, create_on, kept) s
                  | inr absent ↦
                      rw (right, absent, create_on) (insert_document-IsRecoverable _ refl refl)
                ]
              ]

  module _ (whole : (d : Doc) → lib.apply_update (lib.get_update d) lib.new ≡ some d)
      (checks : ArtifactVersion → Bool) where
    yjs_step-IsRecoverable :
        (t : YjsStep Bytes) (y : YjsDb Bytes)
        → IsRecoverable lib limit size y
        → IsRecoverable lib limit size (yjs_step lib checks limit size t y)
    unfolding yjs_step
    yjs_step-IsRecoverable (calls c) y s = record {
      documents = s.documents;
      no_strays = s.no_strays;
    }
    yjs_step-IsRecoverable (makes new_id cell i) y s =
        create_document-IsRecoverable whole y s new_id cell i
    yjs_step-IsRecoverable (applies now seq cell i update_data) y s =
        apply_update-IsRecoverable whole y s now seq cell i update_data
    yjs_step-IsRecoverable (commits cell i) y s =
        commit_version-IsRecoverable whole y s checks cell i

    -- Where loading the bytes of a document gives the document: from tables that are recoverable,
    -- after any creations, updates, commits and compactions, refused ones included, the head of every
    -- document is what its log, applied in order, makes of the new document or of one of its
    -- snapshots; its log has as many rows as its counter says, at most the compaction's limit; and no
    -- row of the log is of a document that is not there.
    pub yjs_steps-IsRecoverable :
        (ts : List (YjsStep Bytes)) (y : YjsDb Bytes)
        → IsRecoverable lib limit size y
        → IsRecoverable lib limit size (yjs_steps lib checks limit size ts y)
    unfolding yjs_steps
    yjs_steps-IsRecoverable [] y s = s
    yjs_steps-IsRecoverable (t ∷ ts) y s =
        yjs_steps-IsRecoverable ts (yjs_step lib checks limit size t y)
          (yjs_step-IsRecoverable t y s)
