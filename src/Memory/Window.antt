-- ===== src/Memory/Window.antt =====
-- The log of each agent is the window of what was appended to it.
pub mod Deletes
pub mod Recent
pub mod Plain
use oriion.Prelude.{
  ℕ, zero, suc, ◌+◌, ◌-◌, ◌≡◌, refl, sym, ap, ◌∙◌, Bool, true, false, not, ◌&&◌, Option, none, some,
  String, List, [], ◌∷◌, ◌++◌, map, keep_if, count_if, length, length-append, drop_nil, take, drop,
  drop-drop, last, last-last_snoc, any, elem, ltb, ◌==◌, arith, if◌then◌else◌, inl, inr, Bool-cases,
  Result, ok, err,
}
use oriion.Memory.{
  ConversationMessage, MemoryEntry, Db, AppendError, Sink, of_agent, count, oldest, reverse,
  recent_rows, delete_ids, summary_of, added, distilled, distill, trimmed, trim, append, limit_of,
  recent, go_on, append_all,
}
use mathlib.Core.Path.{subst}
use oriion.Memory.Window.Recent.{recent_rows-last}
use oriion.Memory.Window.Deletes.{
  has_id, id_of, Distinct, not_in, delete_ids_keep, Distinct-keep, Distinct-append, keep_snoc_own,
  keep_snoc_other, keep_all, first_ids, delete_own, delete_other,
}

count_if-length :
    {A : Type 0} → (p : A → Bool) (xs : List A) → count_if p xs ≡ length (keep_if p xs)
count_if-length p [] = refl
count_if-length p (x ∷ xs) = ground (arith, count_if-length p xs)

-- What a summary leaves alone, and what trimming does, where they do not raise.
abbrev KeepsHistory : List ConversationMessage → Result AppendError Db → Type 0
KeepsHistory before (err e) = Unit
KeepsHistory before (ok db) = db.history ≡ before

abbrev IsTrimmed : List ℕ → List ConversationMessage → Result AppendError Db → Type 0
IsTrimmed ids before (err e) = Unit
IsTrimmed ids before (ok db) = db.history ≡ keep_if (not_in ids) before

added-KeepsHistory :
    (sink : Sink) (m : ConversationMessage) (summary : String) (db : Db) (r : Result String Unit)
    → KeepsHistory db.history (added (summary_of m summary) db r)
unfolding added
added-KeepsHistory sink m summary db (err x) = tt
added-KeepsHistory sink m summary db (ok _) = refl

distilled-KeepsHistory :
    (sink : Sink) (m : ConversationMessage) (db : Db) (r : Result String String)
    → KeepsHistory db.history (distilled sink m db r)
unfolding distilled
distilled-KeepsHistory sink m db (err x) = tt
distilled-KeepsHistory sink m db (ok summary) =
    added-KeepsHistory sink m summary db (sink.add (summary_of m summary))

distill-KeepsHistory :
    (sink : Option Sink) (m : ConversationMessage) (overflow : List ConversationMessage) (db : Db)
    → KeepsHistory db.history (distill sink m overflow db)
unfolding distill
distill-KeepsHistory none m overflow db = refl
distill-KeepsHistory (some sink) m overflow db =
    distilled-KeepsHistory sink m db
      (sink.summarize (map (λ (o : ConversationMessage). o.content) overflow))

trimmed-IsTrimmed :
    (overflow before : List ConversationMessage) (r : Result AppendError Db)
    → KeepsHistory before r
    → IsTrimmed (map id_of overflow) before (trimmed overflow r)
unfolding trimmed
trimmed-IsTrimmed overflow before (err e) k = tt
trimmed-IsTrimmed overflow before (ok db) k =
    ap (delete_ids (map id_of overflow)) k ∙ delete_ids_keep (map id_of overflow) before

trim-IsTrimmed :
    (sink : Option Sink) (m : ConversationMessage) (overflow : List ConversationMessage) (db : Db)
    → IsTrimmed (map id_of overflow) db.history (trim sink m overflow db)
unfolding trim
trim-IsTrimmed sink m [] db = sym (keep_all db.history)
trim-IsTrimmed sink m (o ∷ overflow) db =
    trimmed-IsTrimmed (o ∷ overflow) db.history (distill sink m (o ∷ overflow) db)
      (distill-KeepsHistory sink m (o ∷ overflow) db)

module _ (window : ℕ) where
  abbrev pub grown : ConversationMessage → Db → List ConversationMessage
  grown m db = db.history ++ m ∷ []

  abbrev pub surplus : ConversationMessage → Db → ℕ
  surplus m db = count m.cell_id m.agent_id (grown m db) - window

  abbrev pub IsAppended : ConversationMessage → Db → Result AppendError Db → Type 0
  IsAppended m db (err e) = Unit
  IsAppended m db (ok db₁) =
      (any (has_id m.id) db.history ≡ false)
      × (db₁.history
          ≡ keep_if (not_in (first_ids (of_agent m.cell_id m.agent_id) (surplus m db) (grown m db)))
              (grown m db))

  with_fresh :
      (m : ConversationMessage) (db : Db) (r : Result AppendError Db)
      → any (has_id m.id) db.history ≡ false
      → IsTrimmed
          (first_ids (of_agent m.cell_id m.agent_id) (surplus m db) (grown m db))
          (grown m db)
          r
      → IsAppended m db r
  with_fresh m db (err e) z h = tt
  with_fresh m db (ok db₁) z h = (z, h)

  pub append-IsAppended :
      (sink : Option Sink) (m : ConversationMessage) (db : Db)
      → IsAppended m db (append window sink m db)
  unfolding append
  append-IsAppended sink m db = elim (Bool-cases (any (has_id m.id) db.history)) [
    | inl y ↦ rw y tt
    | inr z ↦ elim (Bool-cases (ltb window (count m.cell_id m.agent_id (grown m db)))) [
      | inl over ↦
          rw (z, over)
            (with_fresh m db
              (trim sink m (oldest m.cell_id m.agent_id (surplus m db) (grown m db))
                (record db { history = grown m db }))
              z
              (trim-IsTrimmed sink m (oldest m.cell_id m.agent_id (surplus m db) (grown m db))
                (record db { history = grown m db })))
      | inr fits ↦ rw (z, fits) (z, within (surplus m db) (ground (arith, fits)))
    ]
  ]
    where
      within :
          (n : ℕ)
          → n ≡ 0
          → grown m db
            ≡ keep_if
                (not_in (first_ids (of_agent m.cell_id m.agent_id) n (grown m db)))
                (grown m db)
      within zero e = sym (keep_all (grown m db))
      within (suc n) e = absurd (omega (arith, e))

  -- Each agent's history is the last `window` of what has been appended for it.
  pub record Holds (s : Db × List ConversationMessage) : Type 0 where
    pub distinct : Distinct s.0.history
    pub window_of :
        (cell agent : ℕ)
        → keep_if (of_agent cell agent) s.0.history
          ≡ last window (keep_if (of_agent cell agent) s.1)

  module _ (m : ConversationMessage) (db : Db) (log : List ConversationMessage)
      (fresh : any (has_id m.id) db.history ≡ false) (i : Holds (db, log)) where
    abbrev mine : ConversationMessage → Bool
    mine = of_agent m.cell_id m.agent_id

    abbrev left : List ConversationMessage
    left = keep_if (not_in (first_ids mine (surplus m db) (grown m db))) (grown m db)

    grown-Distinct : Distinct (grown m db)
    grown-Distinct = Distinct-append db.history m i.distinct fresh

    own_window : keep_if mine left ≡ last window (keep_if mine (log ++ m ∷ []))
    own_window =
        delete_own mine (surplus m db) (grown m db) grown-Distinct
        ∙ ap (λ n. drop (n - window) (keep_if mine (grown m db)))
            (count_if-length mine (grown m db))
        ∙ ap (last window) (
            keep_snoc_own mine db.history m (ground arith)
            ∙ ap (λ ms. ms ++ m ∷ []) (i.window_of m.cell_id m.agent_id))
        ∙ last-last_snoc window (keep_if mine log) m
        ∙ ap (last window) (sym (keep_snoc_own mine log m (ground arith)))

    other_window :
        (cell agent : ℕ)
        → of_agent cell agent m ≡ false
        → keep_if (of_agent cell agent) left
          ≡ last window (keep_if (of_agent cell agent) (log ++ m ∷ []))
    other_window cell agent z =
        delete_other mine (of_agent cell agent) (surplus m db) (grown m db)
          (λ o h. ground (arith, h, z)) grown-Distinct
        ∙ keep_snoc_other (of_agent cell agent) db.history m z
        ∙ i.window_of cell agent
        ∙ ap (last window) (sym (keep_snoc_other (of_agent cell agent) log m z))

    left_window :
        (cell agent : ℕ)
        → keep_if (of_agent cell agent) left
          ≡ last window (keep_if (of_agent cell agent) (log ++ m ∷ []))
    left_window cell agent = elim (Bool-cases (of_agent cell agent m)) [
      | inl y ↦
          subst
            (λ (a : ℕ).
              keep_if (of_agent cell a) left
              ≡ last window (keep_if (of_agent cell a) (log ++ m ∷ [])))
            (ground (arith, y))
            (subst
              (λ (c : ℕ).
                keep_if (of_agent c m.agent_id) left
                ≡ last window (keep_if (of_agent c m.agent_id) (log ++ m ∷ [])))
              (ground (arith, y)) own_window)
      | inr z ↦ other_window cell agent z
    ]

  step-Holds :
      (m : ConversationMessage) (db : Db) (log : List ConversationMessage) (db₁ : Db)
      → IsAppended m db (ok db₁)
      → Holds (db, log)
      → Holds (db₁, log ++ m ∷ [])
  step-Holds m db log db₁ (fresh, h) i = record {
    distinct = subst Distinct (sym h) (
        Distinct-keep
          (not_in (first_ids (of_agent m.cell_id m.agent_id) (surplus m db) (grown m db)))
          (grown m db) (grown-Distinct m db log fresh i));
    window_of = λ cell agent.
        ap (keep_if (of_agent cell agent)) h ∙ left_window m db log fresh i cell agent;
  }

  go_on-Holds :
      (rest : Db × List ConversationMessage → Db × List ConversationMessage)
      (m : ConversationMessage) (db : Db) (log : List ConversationMessage)
      (r : Result AppendError Db)
      → ((s : Db × List ConversationMessage) → Holds s → Holds (rest s))
      → IsAppended m db r
      → Holds (db, log)
      → Holds (go_on rest m (db, log) r)
  unfolding go_on
  go_on-Holds rest m db log (err e) k a i = i
  go_on-Holds rest m db log (ok db₁) k a i = k (db₁, log ++ m ∷ []) (step-Holds m db log db₁ a i)

  append_all-Holds :
      (calls : List (Option Sink × ConversationMessage)) (s : Db × List ConversationMessage)
      → Holds s
      → Holds (append_all window calls s)
  unfolding append_all
  append_all-Holds [] s i = i
  append_all-Holds ((sink, m) ∷ calls) (db, log) i =
      go_on-Holds (append_all window calls) m db log (append window sink m db)
        (λ s h. append_all-Holds calls s h) (append-IsAppended sink m db) i

  -- After the calls of a caller from an empty history, of any agents, up to the first that raises, as a
  -- summarizer may: what `recent` reads back for an agent is the last of the last `window` messages whose
  -- calls returned for it, in their order, as many as the limit asks for.
  pub append_all-recent :
      (calls : List (Option Sink × ConversationMessage)) (entries : List MemoryEntry)
      (cell agent : ℕ) (limit : Option ℕ)
      → let (db, log) = append_all window calls (record { history = []; entries = entries }, []) in
        recent window cell agent limit db
        ≡ last (limit_of window limit) (last window (keep_if (of_agent cell agent) log))
  unfolding recent
  append_all-recent calls entries cell agent limit =
      let s = append_all window calls (record { history = []; entries = entries }, []) in
      let i =
        append_all-Holds calls (record { history = []; entries = entries }, [])
          (record { distinct = tt; window_of = λ _ _. sym (drop_nil (0 - window)) }) in
      recent_rows-last cell agent (limit_of window limit) s.0.history
      ∙ ap (last (limit_of window limit)) (i.window_of cell agent)
