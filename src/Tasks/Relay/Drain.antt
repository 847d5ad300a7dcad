-- ===== src/Tasks/Relay/Drain.antt =====
-- What the relay delivers, and when it does not.
use oriion.Prelude.{
  ℕ, zero, suc, ◌-◌, ◌*◌, ◌≤◌, ◌≡◌, refl, ap, inl, inr, Bool, true, false, List, [], ◌∷◌, ==_refl,
  All, elem, is_none, count_if, keep_if, take, length, arith, Bool-cases,
}
use mathlib.Core.Path.{subst}
use oriion.Tasks.Relay.{
  OutboxRow, is_pending, select_batch, publish_all, stamp, stamp_all, relay_outbox_batch,
  relay_runs,
}

abbrev pub pending : List OutboxRow → ℕ
pending rows = count_if (λ (r : OutboxRow). is_none r.published_at) rows

-- No publisher fails, and no row is locked.
abbrev pub always : ℕ → Bool
always _ = true

abbrev pub never : ℕ → Bool
never _ = false

-- The rows as one run leaves them, which published the events `sent`: stamped are the rows of those
-- events, and no other changes.
abbrev pub IsRelayed : List ℕ → ℕ → List OutboxRow → List OutboxRow → Type 0
IsRelayed sent now [] [] = Unit
IsRelayed sent now [] (_ ∷ _) = ⊥
IsRelayed sent now (_ ∷ _) [] = ⊥
IsRelayed sent now (r ∷ rs) (s ∷ ss) =
    (elem r.ce_id sent ≡ true → s ≡ stamp now r)
    × (elem r.ce_id sent ≡ false → s ≡ r)
    × IsRelayed sent now rs ss

publish_all-published :
    (publish : ℕ → Bool) (rows : List OutboxRow)
    → All (λ x. publish x ≡ true) (publish_all publish rows)
      × (length (publish_all publish rows) ≤ length rows)
unfolding publish_all
publish_all-published publish [] = (tt, omega arith)
publish_all-published publish (r ∷ rs) =
    let (a, le) = publish_all-published publish rs in
    elim (Bool-cases (publish r.ce_id)) [
      | inl y ↦ rw y ((y, a), omega (arith, le))
      | inr n ↦ rw n (a, omega (arith, le))
    ]

stamp_all-IsRelayed :
    (now : ℕ) (done : List ℕ) (rows : List OutboxRow)
    → IsRelayed done now rows (stamp_all now done rows)
unfolding stamp_all
stamp_all-IsRelayed now done [] = tt
stamp_all-IsRelayed now done (r ∷ rs) =
    (λ h. rw h refl, λ h. rw h refl, stamp_all-IsRelayed now done rs)

take_le : (n : ℕ) (rows : List OutboxRow) → length (take n rows) ≤ n
take_le zero rows = omega arith
take_le (suc n) [] = omega arith
take_le (suc n) (r ∷ rs) = omega (arith, take_le n rs)

-- One run, with any publisher and any rows locked, stamps with its time exactly the rows whose events it
-- has published itself, and leaves every other row as it was: no event is lost. The publisher took every
-- event that it counts, and there are at most as many as a batch holds.
pub relay_outbox_batch-IsRelayed :
    (publish locked : ℕ → Bool) (batch_size now : ℕ) (rows : List OutboxRow)
    → let (rows', published, sent) = relay_outbox_batch publish locked batch_size now rows in
      IsRelayed sent now rows rows'
      × All (λ x. publish x ≡ true) sent
      × (published ≡ length sent)
      × (published ≤ batch_size)
unfolding relay_outbox_batch select_batch
relay_outbox_batch-IsRelayed publish locked batch_size now rows =
    let batch = take batch_size (keep_if (is_pending locked) rows) in
    let (took, le) = publish_all-published publish batch in
    (
      stamp_all-IsRelayed now (publish_all publish batch) rows,
      took,
      refl,
      omega (arith, le, take_le batch_size (keep_if (is_pending locked) rows)),
    )

nothing_published :
    (publish : ℕ → Bool) (rows : List OutboxRow)
    → All (λ r. publish r.ce_id ≡ false) rows
    → publish_all publish rows ≡ []
unfolding publish_all
nothing_published publish [] h = refl
nothing_published publish (r ∷ rs) h = ground (arith, h, nothing_published publish rs)

stamp_none : (now : ℕ) (rows : List OutboxRow) → stamp_all now [] rows ≡ rows
unfolding stamp_all
stamp_none now [] = refl
stamp_none now (r ∷ rs) = ap (λ xs. r ∷ xs) (stamp_none now rs)

stuck_run :
    (publish locked : ℕ → Bool) (batch_size now : ℕ) (rows : List OutboxRow)
    → All (λ r. publish r.ce_id ≡ false) (select_batch locked batch_size rows)
    → (relay_outbox_batch publish locked batch_size now rows).0 ≡ rows
unfolding relay_outbox_batch
stuck_run publish locked batch_size now rows h =
    rw (nothing_published publish (select_batch locked batch_size rows) h) (stamp_none now rows)

-- Where every row of the first batch fails each time, no run publishes anything, however many runs
-- there are: the rows behind that batch wait for ever.
pub relay_runs_starve :
    (publish locked : ℕ → Bool) (batch_size : ℕ) (times : List ℕ) (rows : List OutboxRow)
    → All (λ r. publish r.ce_id ≡ false) (select_batch locked batch_size rows)
    → relay_runs publish locked batch_size times rows ≡ rows
unfolding relay_runs
relay_runs_starve publish locked batch_size [] rows h = refl
relay_runs_starve publish locked batch_size (now ∷ later) rows h =
    rw (stuck_run publish locked batch_size now rows h)
      (relay_runs_starve publish locked batch_size later rows h)

-- Every row of a list is among those done.
abbrev Done : List ℕ → List OutboxRow → Type 0
Done done = All (λ (r : OutboxRow). elem r.ce_id done ≡ true)

Done-more : (x : ℕ) (done : List ℕ) (rows : List OutboxRow) → Done done rows → Done (x ∷ done) rows
Done-more x done [] h = tt
Done-more x done (r ∷ rs) h = (ground (arith, h), Done-more x done rs h.1)

publish_all-Done : (rows : List OutboxRow) → Done (publish_all always rows) rows
unfolding publish_all
publish_all-Done [] = tt
publish_all-Done (r ∷ rs) = (
  ground (arith, ==_refl r.ce_id),
  Done-more r.ce_id (publish_all always rs) rs (publish_all-Done rs),
)

keep-pending :
    (r : OutboxRow) (rs : List OutboxRow)
    → is_none r.published_at ≡ true
    → keep_if (is_pending never) (r ∷ rs) ≡ r ∷ keep_if (is_pending never) rs
keep-pending r rs p = ground (arith, p)

keep-published :
    (r : OutboxRow) (rs : List OutboxRow)
    → is_none r.published_at ≡ false
    → keep_if (is_pending never) (r ∷ rs) ≡ keep_if (is_pending never) rs
keep-published r rs p = ground (arith, p)

stamped-le :
    (now n : ℕ) (done : List ℕ) (rows : List OutboxRow)
    → Done done (take n (keep_if (is_pending never) rows))
    → pending (stamp_all now done rows) ≤ pending rows - n
unfolding stamp_all
stamped-le now n done [] h = omega arith
stamped-le now zero done (r ∷ rs) h = ground (arith, stamped-le now zero done rs tt)
stamped-le now (suc n) done (r ∷ rs) h = elim (Bool-cases (is_none r.published_at)) [
  | inl p ↦
      (let h' = subst (λ xs. Done done (take (suc n) xs)) (keep-pending r rs p) h in
        ground (arith, p, h'.0, stamped-le now n done rs h'.1))
  | inr q ↦
      (let h' = subst (λ xs. Done done (take (suc n) xs)) (keep-published r rs q) h in
        ground (arith, q, stamped-le now (suc n) done rs h'))
]

drained_run :
    (batch_size now : ℕ) (rows : List OutboxRow)
    → pending (relay_outbox_batch always never batch_size now rows).0 ≤ pending rows - batch_size
unfolding relay_outbox_batch select_batch
drained_run batch_size now rows =
    stamped-le now batch_size
      (publish_all always (take batch_size (keep_if (is_pending never) rows))) rows
      (publish_all-Done (take batch_size (keep_if (is_pending never) rows)))

-- Where the publisher never fails and no other worker holds a row, each run takes a full batch off
-- the outbox: after any number of runs at most the rows beyond that many batches are unpublished.
pub relay_runs_drain :
    (batch_size : ℕ) (times : List ℕ) (rows : List OutboxRow)
    → pending (relay_runs always never batch_size times rows)
      ≤ pending rows - length times * batch_size
unfolding relay_runs
relay_runs_drain batch_size [] rows = omega arith
relay_runs_drain batch_size (now ∷ later) rows = ground (
  arith,
  drained_run batch_size now rows,
  relay_runs_drain batch_size later (relay_outbox_batch always never batch_size now rows).0,
)
