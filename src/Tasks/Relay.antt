-- ===== src/Tasks/Relay.antt =====
-- runtime/queue/outbox_relay.py: one run of the relay over the outbox, whose rows stand in the order
-- of (created_at, id). `publish` says for a ce_id whether the publisher returns or raises, and
-- `locked` which rows another worker holds.
pub mod Drain
use oriion.Prelude.{
  ℕ, zero, suc, ◌+◌, Bool, true, false, not, ◌&&◌, Option, none, some, List, [], ◌∷◌, ◌==◌, elem,
  is_none, keep_if, take, length, update_if, if◌then◌else◌,
}

pub record OutboxRow : Type 0 where
  pub ce_id : ℕ
  pub published_at : Option ℕ

abbrev pub is_pending : (ℕ → Bool) → OutboxRow → Bool
is_pending locked r = is_none r.published_at && not (locked r.ce_id)

-- The SELECT, with its LIMIT, passing over locked rows.
unfoldable pub select_batch : (ℕ → Bool) → ℕ → List OutboxRow → List OutboxRow
select_batch locked batch_size rows = take batch_size (keep_if (is_pending locked) rows)

-- The loop: the ids of the rows that were published, in order; a failure is passed over.
unfoldable pub publish_all : (ℕ → Bool) → List OutboxRow → List ℕ
publish_all publish [] = []
publish_all publish (r ∷ rs) =
    let rest = publish_all publish rs in if publish r.ce_id then r.ce_id ∷ rest else rest

abbrev pub stamp : ℕ → OutboxRow → OutboxRow
stamp now r = record r { published_at = some now }

unfoldable pub stamp_all : ℕ → List ℕ → List OutboxRow → List OutboxRow
stamp_all now done rows = update_if (λ (r : OutboxRow). elem r.ce_id done) (stamp now) rows

-- `relay_outbox_batch`: the table after its commit, the count, and the ids whose events the publisher
-- took, in order.
unfoldable pub relay_outbox_batch :
    (ℕ → Bool) → (ℕ → Bool) → ℕ → ℕ → List OutboxRow → List OutboxRow × ℕ × List ℕ
relay_outbox_batch publish locked batch_size now rows =
    let done = publish_all publish (select_batch locked batch_size rows) in
    (stamp_all now done rows, length done, done)

-- One run after another, at the times given.
unfoldable pub relay_runs : (ℕ → Bool) → (ℕ → Bool) → ℕ → List ℕ → List OutboxRow → List OutboxRow
relay_runs publish locked batch_size [] rows = rows
relay_runs publish locked batch_size (now ∷ later) rows =
    relay_runs publish locked batch_size later
      (relay_outbox_batch publish locked batch_size now rows).0
