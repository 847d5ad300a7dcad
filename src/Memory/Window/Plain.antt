-- ===== src/Memory/Window/Plain.antt =====
-- Appends without a summarizer: none is lost but to the window.
use oriion.Prelude.{
  ℕ, ◌≡◌, refl, sym, ap, ◌∙◌, Bool, true, false, ◌||◌, Option, none, List, [], ◌∷◌, ◌++◌, map,
  keep_if, append_assoc, any, ltb, ◌==◌, last, arith, inl, inr, Bool-cases, Result, ok, err, is_ok,
}
use mathlib.Core.Path.{subst}
use mathlib.Core.List.{append-nil}
use oriion.Memory.{
  ConversationMessage, MemoryEntry, Db, AppendError, Sink, of_agent, count, oldest, distill,
  trimmed, trim, append, limit_of, recent, go_on, append_all,
}
use oriion.Memory.Window.{grown, surplus, IsAppended, append-IsAppended, append_all-recent}
use oriion.Memory.Window.Deletes.{has_id, not_in, first_ids, Distinct, any_keep, any_snoc}

abbrev plain : ConversationMessage → Option Sink × ConversationMessage
plain m = (none, m)

trim-is_ok :
    (m : ConversationMessage) (overflow : List ConversationMessage) (db : Db)
    → is_ok (trim none m overflow db) ≡ true
unfolding trim distill trimmed
trim-is_ok m [] db = refl
trim-is_ok m (o ∷ overflow) db = refl

module _ (window : ℕ) where
  append-is_ok :
      (m : ConversationMessage) (db : Db)
      → any (has_id m.id) db.history ≡ false
      → is_ok (append window none m db) ≡ true
  unfolding append
  append-is_ok m db fresh =
      elim (Bool-cases (ltb window (count m.cell_id m.agent_id (grown window m db)))) [
        | inl y ↦
            rw (fresh, y)
              (trim-is_ok m (oldest m.cell_id m.agent_id (surplus window m db) (grown window m db))
                (record db { history = grown window m db }))
        | inr z ↦ rw (fresh, z) refl
      ]

  -- An id that has not been appended is not in the history.
  abbrev IsLogged : Db × List ConversationMessage → Type 0
  IsLogged (db, log) = (i : ℕ) → any (has_id i) log ≡ false → any (has_id i) db.history ≡ false

  step-IsLogged :
      (rest : Db × List ConversationMessage → Db × List ConversationMessage)
      (m : ConversationMessage) (db : Db) (log : List ConversationMessage)
      (r : Result AppendError Db)
      → IsAppended window m db r
      → is_ok r ≡ true
      → IsLogged (db, log)
      → (db₁ : Db) × ((go_on rest m (db, log) r ≡ rest (db₁, log ++ m ∷ []))
          × IsLogged (db₁, log ++ m ∷ []))
  unfolding go_on
  step-IsLogged rest m db log (err e) a h l = absurd (ground (arith, h))
  step-IsLogged rest m db log (ok db₁) (fresh, e) h l = (
    db₁,
    (
      refl,
      λ i none_logged.
          ap (any (has_id i)) e
          ∙ any_keep i
              (not_in (
                first_ids (of_agent m.cell_id m.agent_id) (surplus window m db)
                  (grown window m db)))
              (grown window m db)
              (any_snoc i db.history m
                ∙ rw (l i (log_part i none_logged), own_part i none_logged) refl),
    ),
  )
    where
      log_part : (i : ℕ) → any (has_id i) (log ++ m ∷ []) ≡ false → any (has_id i) log ≡ false
      log_part i h = ground (arith, h, any_snoc i log m)

      own_part : (i : ℕ) → any (has_id i) (log ++ m ∷ []) ≡ false → (m.id == i) ≡ false
      own_part i h = ground (arith, h, any_snoc i log m)

any_middle :
    (i : ℕ) (log ms : List ConversationMessage) (m : ConversationMessage)
    → any (has_id i) (log ++ m ∷ ms) ≡ false
    → (m.id == i) ≡ false
any_middle i [] ms m h = ground (arith, h)
any_middle i (x ∷ log) ms m h = any_middle i log ms m (ground (arith, h))

middle_fresh :
    (log ms : List ConversationMessage) (m : ConversationMessage)
    → Distinct (log ++ m ∷ ms)
    → any (has_id m.id) log ≡ false
middle_fresh [] ms m d = refl
middle_fresh (x ∷ log) ms m (e, d) =
    other_way x.id m.id (any (has_id m.id) log) (any_middle x.id log ms m e)
      (middle_fresh log ms m d)
  where
    other_way : (j k : ℕ) (b : Bool) → (k == j) ≡ false → b ≡ false → ((j == k) || b) ≡ false
    other_way j k b h g = ground (arith, h, g)

module _ (window : ℕ) where
  append_all_log :
      (ms : List ConversationMessage) (db : Db) (log : List ConversationMessage)
      → Distinct (log ++ ms)
      → IsLogged window (db, log)
      → (append_all window (map plain ms) (db, log)).1 ≡ log ++ ms
  unfolding append_all
  append_all_log [] db log d l = sym (append-nil log)
  append_all_log (m ∷ ms) db log d l =
      let fresh = l m.id (middle_fresh log ms m d) in
      let (db₁, (e, l₁)) =
        step-IsLogged window (append_all window (map plain ms)) m db log (append window none m db)
          (append-IsAppended window none m db) (append-is_ok window m db fresh) l in
      ap (λ (s : Db × List ConversationMessage). s.1) e
      ∙ append_all_log ms db₁ (log ++ m ∷ [])
          (subst Distinct (sym (append_assoc log (m ∷ []) ms)) d) l₁
      ∙ append_assoc log (m ∷ []) ms

  -- Where messages with different ids are appended without a summarizer to an empty history, for any
  -- agents in any order, what `recent` reads back for an agent is the last of the last `window` messages
  -- appended for it, in their order, as many as the limit asks for.
  pub recent-append_all :
      (ms : List ConversationMessage) (entries : List MemoryEntry) (cell agent : ℕ)
      (limit : Option ℕ)
      → Distinct ms
      → recent window cell agent limit
          (append_all window
            (map (λ m. (none, m)) ms)
            (record { history = []; entries = entries }, [])).0
        ≡ last (limit_of window limit) (last window (keep_if (of_agent cell agent) ms))
  recent-append_all ms entries cell agent limit d =
      append_all-recent window (map plain ms) entries cell agent limit
      ∙ ap (λ log. last (limit_of window limit) (last window (keep_if (of_agent cell agent) log)))
          (append_all_log ms (record { history = []; entries = entries }) [] d (λ i h. refl))
