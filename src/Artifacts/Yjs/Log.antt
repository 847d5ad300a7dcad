-- ===== src/Artifacts/Yjs/Log.antt =====
-- The log of a document under the writes and the prune.
use oriion.Prelude.{
  ℕ, ◌≤◌, ◌≡◌, refl, sym, ap, true, false, Option, none, some, List, [], ◌∷◌, ◌++◌, keep_if, ◌==◌,
  arith, if◌then◌else◌, inl, inr, Bool-cases,
}
use mathlib.Core.Path.{subst}
use oriion.Artifacts.Yjs.{YjsUpdate, in_log, later_seq, max_update_seq, prune_updates}

abbrev pub log : {Bytes : Type 0} → ℕ → List (YjsUpdate Bytes) → List (YjsUpdate Bytes)
log i us = keep_if (in_log i) us

AtMost : ℕ → Option ℕ → Type 0
AtMost m none = Unit
AtMost m (some n) = n ≤ m

later_le : (m n : ℕ) (o : Option ℕ) → AtMost m (later_seq n o) → (n ≤ m) × AtMost m o
unfolding AtMost later_seq
later_le m n none h = (h, tt)
later_le m n (some k) h = ground (arith, h)

later_some : (n : ℕ) (o : Option ℕ) → later_seq n o ≡ none → false ≡ true
unfolding later_seq
later_some n none e = absurd (ground (arith, e))
later_some n (some m) e = absurd (ground (arith, e))

module _ {Bytes : Type 0} where
  pub log-append :
      (i : ℕ) (us : List (YjsUpdate Bytes)) (u : YjsUpdate Bytes)
      → log i (us ++ u ∷ []) ≡ log i us ++ (if u.yjs_document_id == i then u ∷ [] else [])
  log-append i [] u = elim (Bool-cases (u.yjs_document_id == i)) [
    | inl y ↦ rw y refl
    | inr z ↦ rw z refl
  ]
  log-append i (v ∷ us) u = elim (Bool-cases (v.yjs_document_id == i)) [
    | inl y ↦ rw y (ap (λ vs. v ∷ vs) (log-append i us u))
    | inr z ↦ rw z (log-append i us u)
  ]

  pruned_below :
      (i m : ℕ) (us : List (YjsUpdate Bytes))
      → AtMost m (max_update_seq i us)
      → log i (prune_updates i (some m) us) ≡ []
  unfolding AtMost max_update_seq prune_updates
  pruned_below i m [] h = refl
  pruned_below i m (u ∷ us) h = elim (Bool-cases (u.yjs_document_id == i)) [
    | inl y ↦ ground (
      arith,
      y,
      later_le m u.seq (max_update_seq i us) (subst (AtMost m) (rw y refl) h),
      pruned_below i m us,
    )
    | inr z ↦ rw (z, z) (pruned_below i m us (subst (AtMost m) (rw z refl) h))
  ]

  none_logged : (i : ℕ) (us : List (YjsUpdate Bytes)) → max_update_seq i us ≡ none → log i us ≡ []
  unfolding max_update_seq later_seq
  none_logged i [] h = refl
  none_logged i (u ∷ us) h = elim (Bool-cases (u.yjs_document_id == i)) [
    | inl y ↦ absurd (
        ground
          (arith, later_some u.seq (max_update_seq i us) (subst (λ o. o ≡ none) (rw y refl) h)))
    | inr z ↦ rw z (none_logged i us (subst (λ o. o ≡ none) (rw z refl) h))
  ]

  pub log-prune :
      (i : ℕ) (us : List (YjsUpdate Bytes)) → log i (prune_updates i (max_update_seq i us) us) ≡ []
  unfolding prune_updates AtMost
  log-prune i us =
      elim (max_update_seq i us)
          as (λ o. max_update_seq i us ≡ o → log i (prune_updates i o us) ≡ []) [
            | none ↦ λ e. none_logged i us e
            | some m ↦ λ e. pruned_below i m us (subst (AtMost m) (sym e) (omega arith))
          ]
        refl

  pub log-prune_other :
      (i j : ℕ) (o : Option ℕ) (us : List (YjsUpdate Bytes))
      → (i == j) ≡ false
      → log j (prune_updates i o us) ≡ log j us
  unfolding prune_updates
  log-prune_other i j none us h = refl
  log-prune_other i j (some m) [] h = refl
  log-prune_other i j (some m) (u ∷ us) h = ground (arith, h, log-prune_other i j (some m) us h)
