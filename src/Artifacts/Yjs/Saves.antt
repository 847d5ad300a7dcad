-- ===== src/Artifacts/Yjs/Saves.antt =====
-- The write of a merged update, with its compaction where that is due.
use oriion.Prelude.{
  ℕ, suc, ◌+◌, ◌≤◌, ◌≡◌, refl, sym, ◌∙◌, true, false, ◌||◌, some, List, [], ◌∷◌, ◌++◌, any,
  update_if, length-append, ltb, ◌==◌, arith, inl, inr, Bool-cases,
}
use mathlib.Core.List.{append-nil}
use oriion.Artifacts.Yjs.{
  Pycrdt, YjsDocument, YjsUpdate, YjsSnapshot, YjsDb, is_document, flush_row, append_update,
  max_update_seq, prune_updates, insert_snapshot, compact, compact_if_due, save,
}
use oriion.Artifacts.Yjs.Log.{log, log-append, log-prune, log-prune_other}
use oriion.Artifacts.Yjs.Replay.{
  All-update, any-flush, replay-append, append-IsBase, last-IsBase, Recovers, IsRecoverable,
  same_log-Recovers,
}

module _ {Doc Bytes : Type 0} (lib : Pycrdt Doc Bytes) (limit size : ℕ) where
  module _ (whole : (d : Doc) → lib.apply_update (lib.get_update d) lib.new ≡ some d)
      (y : YjsDb Bytes) (s : IsRecoverable lib limit size y) where
    module _ (row : YjsDocument Bytes) (update_data : Bytes) (doc : Doc)
        (r : Recovers lib limit size y.updates y.snapshots row)
        (present : any (is_document row.id) y.documents ≡ true)
        (applied : lib.apply_update update_data r.head ≡ some doc) (seq : ℕ) where
      written : YjsUpdate Bytes
      written = record {
        seq = seq;
        cell_id = row.cell_id;
        yjs_document_id = row.id;
        update_data = update_data;
      }

      merged_row : YjsDocument Bytes
      merged_row = record row {
        state = lib.get_update doc;
        state_vector = lib.get_state doc;
        update_count = row.update_count + 1;
      }

      log_written : log row.id (y.updates ++ written ∷ []) ≡ log row.id y.updates ++ written ∷ []
      unfolding written
      log_written = log-append row.id y.updates written ∙ ground arith

      log_other :
          (i : ℕ) → (row.id == i) ≡ false → log i (y.updates ++ written ∷ []) ≡ log i y.updates
      unfolding written
      log_other i z = log-append i y.updates written ∙ rw z (append-nil (log i y.updates))

      merged-Recovers :
          suc row.update_count ≤ limit
          → Recovers lib limit size (y.updates ++ written ∷ []) y.snapshots merged_row
      unfolding merged_row written
      merged-Recovers below = record {
        base = r.base;
        head = doc;
        is_base = r.is_base;
        loads = whole doc;
        replays =
            rw log_written
              (replay-append lib (log row.id y.updates) written r.base r.head r.replays ∙ applied);
        counted =
            rw log_written
              (length-append (log row.id y.updates) (written ∷ []) ∙ omega (arith, r.counted));
        bounded = omega (arith, below);
      }

      due_or_below :
          (ltb limit (row.update_count + 1) || ltb size (lib.len (lib.get_update doc))) ≡ false
          → suc row.update_count ≤ limit
      due_or_below h = ground (arith, h)

      below-IsRecoverable :
          suc row.update_count ≤ limit
          → IsRecoverable lib limit size (flush_row merged_row (append_update written y))
      unfolding flush_row append_update merged_row
      below-IsRecoverable below = record {
        documents =
            All-update (Recovers lib limit size y.updates y.snapshots)
              (Recovers lib limit size (y.updates ++ written ∷ []) y.snapshots) (is_document row.id)
              merged_row y.documents
              (λ d z q.
                same_log-Recovers lib limit size y.updates (y.updates ++ written ∷ []) y.snapshots
                  y.snapshots d (log_other d.id (ground (arith, z))) (λ base h. h) q)
              (merged-Recovers below) s.documents;
        no_strays = λ i h. elsewhere i (sym (any-flush i merged_row y.documents) ∙ h);
      }
        where
          elsewhere :
              (i : ℕ)
              → any (is_document i) y.documents ≡ false
              → log i (y.updates ++ written ∷ []) ≡ []
          elsewhere i h = elim (Bool-cases (row.id == i)) [
            | inl e ↦ absurd (ground (arith, h, present, e))
            | inr z ↦ log_other i z ∙ s.no_strays i h
          ]

      pruned : List (YjsUpdate Bytes)
      pruned =
          prune_updates row.id (max_update_seq row.id (y.updates ++ written ∷ []))
            (y.updates ++ written ∷ [])

      frozen : YjsSnapshot Bytes
      frozen = record {
        cell_id = row.cell_id;
        yjs_document_id = row.id;
        state = lib.get_update doc;
        state_vector = lib.get_state doc;
      }

      compacted_row : ℕ → YjsDocument Bytes
      unfolding merged_row
      compacted_row now = record merged_row { update_count = 0; last_compacted_at = some now }

      log_pruned : log row.id pruned ≡ []
      unfolding pruned
      log_pruned = log-prune row.id (y.updates ++ written ∷ [])

      log_kept : (i : ℕ) → (row.id == i) ≡ false → log i pruned ≡ log i y.updates
      unfolding pruned
      log_kept i z =
          log-prune_other row.id i (max_update_seq row.id (y.updates ++ written ∷ []))
            (y.updates ++ written ∷ []) z
          ∙ log_other i z

      compacted-Recovers :
          (now : ℕ)
          → Recovers lib limit size pruned (y.snapshots ++ frozen ∷ []) (compacted_row now)
      unfolding compacted_row merged_row frozen
      compacted-Recovers now = record {
        base = doc;
        head = doc;
        is_base = last-IsBase lib doc y.snapshots frozen (whole doc);
        loads = whole doc;
        replays = rw log_pruned refl;
        counted = rw log_pruned refl;
        bounded = omega arith;
      }

      compacted-IsRecoverable :
          (now : ℕ)
          → IsRecoverable lib limit size
              (compact now merged_row (flush_row merged_row (append_update written y))).1
      unfolding compact insert_snapshot flush_row append_update merged_row compacted_row pruned
          frozen
      compacted-IsRecoverable now = record {
        documents =
            All-update
              (λ d.
                is_document row.id d ≡ false
                → Recovers lib limit size pruned (y.snapshots ++ frozen ∷ []) d)
              (Recovers lib limit size pruned (y.snapshots ++ frozen ∷ [])) (is_document row.id)
              (compacted_row now) (update_if (is_document row.id) (λ _. merged_row) y.documents)
              (λ d z f. f z) (compacted-Recovers now)
              (All-update (Recovers lib limit size y.updates y.snapshots)
                (λ d.
                  is_document row.id d ≡ false
                  → Recovers lib limit size pruned (y.snapshots ++ frozen ∷ []) d)
                (is_document row.id) merged_row y.documents
                (λ d z q _.
                  same_log-Recovers lib limit size y.updates pruned y.snapshots
                    (y.snapshots ++ frozen ∷ []) d (log_kept d.id (ground (arith, z)))
                    (λ base h. append-IsBase lib d.id base y.snapshots frozen h) q)
                (λ z. absurd (ground (arith, z))) s.documents);
        no_strays = λ i h. elsewhere i (
            sym (any-flush i merged_row y.documents)
            ∙ sym (
                any-flush i (compacted_row now)
                  (update_if (is_document row.id) (λ _. merged_row) y.documents))
            ∙ h);
      }
        where
          elsewhere : (i : ℕ) → any (is_document i) y.documents ≡ false → log i pruned ≡ []
          elsewhere i h = elim (Bool-cases (row.id == i)) [
            | inl e ↦ absurd (ground (arith, h, present, e))
            | inr z ↦ log_kept i z ∙ s.no_strays i h
          ]

      pub save-IsRecoverable :
          (now : ℕ)
          → IsRecoverable lib limit size (save lib limit size now seq row update_data doc y).1
      unfolding save compact_if_due merged_row written
      save-IsRecoverable now =
          elim (Bool-cases
            (ltb limit (row.update_count + 1) || ltb size (lib.len (lib.get_update doc)))) [
              | inl h ↦ rw h (compacted-IsRecoverable now)
              | inr h ↦ rw h (below-IsRecoverable (due_or_below h))
            ]
