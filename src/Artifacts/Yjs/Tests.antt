-- ===== src/Artifacts/Yjs/Tests.antt =====
-- A document that is a number, with a limit of two updates.
use oriion.Prelude.{arith, ℕ, ◌+◌, ◌≡◌, refl, Bool, true, some, List, [], ◌∷◌, map}
use oriion.Artifacts.{ArtifactVersion, creates}
use oriion.Artifacts.Yjs.{
  Pycrdt, YjsDocument, YjsUpdate, YjsSnapshot, YjsDb, YjsStep, calls, makes, applies, commits,
  yjs_steps,
}
use oriion.Artifacts.Yjs.Replay.{IsRecoverable}
use oriion.Artifacts.Yjs.Recovery.{yjs_steps-IsRecoverable}

-- Zero is no update.
abbrev adding : Pycrdt ℕ ℕ
adding = record {
  new = 0;
  apply_update = λ u d. some (u + d);
  get_update = λ d. d;
  get_state = λ d. d;
  len = λ n. n;
  sha256 = λ n. "digest";
}

abbrev all_fit : ArtifactVersion → Bool
all_fit _ = true

abbrev no_documents : YjsDb ℕ
no_documents = record {
  db = record { artifacts = []; versions = []; usage = []; s3_objects = []; events = [] };
  documents = [];
  updates = [];
  snapshots = [];
}

abbrev no_documents-IsRecoverable : IsRecoverable adding 2 100 no_documents
no_documents-IsRecoverable = record { documents = tt; no_strays = λ i h. refl }

abbrev editing_steps : List (YjsStep ℕ)
editing_steps =
    calls (creates 1 10 "document" "plan")
    ∷ calls (creates 1 11 "asset" "logo")
    ∷ makes 5 1 10
    ∷ makes 6 1 11
    ∷ applies 100 1 1 10 4
    ∷ commits 1 10
    ∷ applies 101 2 1 10 8
    ∷ applies 102 3 1 10 16
    ∷ applies 103 4 1 10 1
    ∷ applies 104 5 2 10 1
    ∷ []

yjs_steps-IsRecoverable_example :
    IsRecoverable adding 2 100 (yjs_steps adding all_fit 2 100 editing_steps no_documents)
yjs_steps-IsRecoverable_example =
    yjs_steps-IsRecoverable adding 2 100 (λ d. rw_zero d) all_fit editing_steps no_documents
      no_documents-IsRecoverable
  where
    rw_zero : (d : ℕ) → some (d + 0) ≡ some d
    rw_zero d = ground (arith)

abbrev edited : YjsDb ℕ
unfolding yjs_steps
edited = yjs_steps adding all_fit 2 100 editing_steps no_documents

-- The third update compacts; the fourth is in the log, and the one of another cell is refused.
heads_edited : map (λ (d : YjsDocument ℕ). d.state) edited.documents ≡ 29 ∷ []
unfolding yjs_steps
heads_edited = refl

log_edited : map (λ (u : YjsUpdate ℕ). u.seq) edited.updates ≡ 4 ∷ []
unfolding yjs_steps
log_edited = refl

snapshots_edited : map (λ (s : YjsSnapshot ℕ). s.state) edited.snapshots ≡ 4 ∷ 28 ∷ []
unfolding yjs_steps
snapshots_edited = refl
