-- ===== src/Iam/Auth/Rotation.antt =====
-- What rotation does to one refresh token and its chain.
use oriion.Prelude.{
  ℕ, ◌+◌, String, ◌≡◌, refl, inl, inr, Bool, true, false, ◌&&◌, ◌||◌, not, Option, none, some, List,
  [], ◌∷◌, ◌==◌, arith, All, update_if, is_none, is_some, ok, err, is_ok, Option-cases,
}
use oriion.Prelude.Rows.{find-update, find-append}
use oriion.Iam.Tokens.{
  Db, Session, RefreshToken, audit, create_token, find_session, find_by_hash, mark_used_and_link,
  revoke_chain, revoke_session_row, revoke_token,
}
use oriion.Iam.Auth.{token_reused, TokenPair, Draw, rotate_refresh, in_request}

-- A token that is no longer good: it was used or revoked.
abbrev pub is_spent : RefreshToken → Bool
is_spent t = is_some t.used_at || is_some t.revoked_at

-- The session can carry a rotation.
abbrev pub is_open : Option Session → Bool
is_open none = false
is_open (some s) = is_none s.revoked_at

-- Every token of the chain is revoked.
abbrev pub IsChainRevoked : ℕ → Db → Type 0
IsChainRevoked chain db =
    All (λ t. t.rotation_chain_id ≡ chain → is_some t.revoked_at ≡ true) db.refresh_tokens

abbrev pub IsSessionRevoked : ℕ → Db → Type 0
IsSessionRevoked sid db = All (λ s. s.id ≡ sid → is_some s.revoked_at ≡ true) db.sessions

chain_revoked :
    (chain now : ℕ) (ts : List RefreshToken)
    → All
        (λ t. t.rotation_chain_id ≡ chain → is_some t.revoked_at ≡ true)
        (update_if
          (λ (t : RefreshToken). t.rotation_chain_id == chain && is_none t.revoked_at)
          (revoke_token now)
          ts)
chain_revoked chain now [] = tt
chain_revoked chain now (t ∷ ts) = (ground arith, chain_revoked chain now ts)

sessions_revoked :
    (sid now : ℕ) (ss : List Session)
    → All
        (λ s. s.id ≡ sid → is_some s.revoked_at ≡ true)
        (update_if
          (λ (s : Session). s.id == sid && is_none s.revoked_at)
          (λ s. record s { revoked_at = some now })
          ss)
sessions_revoked sid now [] = tt
sessions_revoked sid now (s ∷ ss) = (ground arith, sessions_revoked sid now ss)

module _ (hash : ℕ → ℕ) where
  -- Inside its transaction, presenting a token that was used or revoked is refused, and leaves
  -- every token of its chain and its session revoked.
  pub rotate_refresh_reused :
      (d : Draw) (token : ℕ) (db : Db) (old : RefreshToken)
      → find_by_hash (hash token) db ≡ some old
      → is_spent old ≡ true
      → let (r, db') = rotate_refresh hash d false token db in
        (r ≡ err token_reused)
        × IsChainRevoked old.rotation_chain_id db'
        × IsSessionRevoked old.session_id db'
  unfolding rotate_refresh audit revoke_chain revoke_session_row
  rotate_refresh_reused d token db old found spent = rw found (
      rw spent (
        refl,
        chain_revoked old.rotation_chain_id d.now db.refresh_tokens,
        sessions_revoked old.session_id d.now db.sessions,
      ))

  -- A request that presents a used or revoked token ends as an error, and so `get_db` rolls it
  -- back: the database is as before, and the chain and the session are not revoked.
  pub request_reused_keeps :
      (d : Draw) (token : ℕ) (db : Db) (old : RefreshToken)
      → find_by_hash (hash token) db ≡ some old
      → is_spent old ≡ true
      → in_request (rotate_refresh hash d false token) db ≡ (err token_reused, db)
  unfolding rotate_refresh in_request
  request_reused_keeps d token db old found spent = ground arith

  -- The token and its session allow a rotation: neither is spent, and no expiry time has a say.
  abbrev pub may_rotate : Option RefreshToken → Db → Bool
  may_rotate none db = false
  may_rotate (some old) db = not (is_spent old) && is_open (find_session old.session_id db)

  -- A rotation succeeds exactly when the caller is not limited, the token is known and neither used
  -- nor revoked, and its session is there and not revoked; the expiry times of both are not read.
  pub rotate_refresh_succeeds :
      (d : Draw) (limited : Bool) (token : ℕ) (db : Db)
      → is_ok (rotate_refresh hash d limited token db).0
        ≡ (not limited && may_rotate (find_by_hash (hash token) db) db)
  unfolding rotate_refresh
  rotate_refresh_succeeds d limited token db = ground arith

  found_audit :
      (h actor : ℕ) (action : String) (resource : ℕ) (db : Db)
      → find_by_hash h (audit actor action resource db) ≡ find_by_hash h db
  unfolding find_by_hash audit
  found_audit h actor action resource db = refl

  marked_found :
      (h id nid sid hash' chain expires now : ℕ) (db : Db) (old : RefreshToken)
      → find_by_hash h db ≡ some old
      → id ≡ old.id
      → find_by_hash h (mark_used_and_link id nid now (create_token nid sid hash' chain expires db))
        ≡ some (record old { used_at = some now; rotated_to = some nid })
  unfolding find_by_hash mark_used_and_link create_token
  marked_found h id nid sid hash' chain expires now db old found e = ground (
    arith,
    find-update (λ (t : RefreshToken). t.token_hash == h) (λ (t : RefreshToken). t.id == id)
        (λ t. record t { used_at = some now; rotated_to = some nid }) old
        (create_token nid sid hash' chain expires db).refresh_tokens (λ x. refl)
        (find-append (λ (t : RefreshToken). t.token_hash == h) old db.refresh_tokens _ found),
  )

  rotated_found :
      (d : Draw) (token : ℕ) (db : Db) (pair : TokenPair) (old : RefreshToken)
      → find_by_hash (hash token) db ≡ some old
      → (rotate_refresh hash d false token db).0 ≡ ok pair
      → find_by_hash (hash token) (rotate_refresh hash d false token db).1
        ≡ some (record old { used_at = some d.now; rotated_to = some d.token_id })
  unfolding rotate_refresh
  rotated_found d token db pair old found h = elim (Option-cases (find_session old.session_id db)) [
    | inl missing ↦ ground arith
    | inr (s, there) ↦ ground (
      arith,
      found_audit (hash token) s.user_id "iam.auth.refresh" s.id (
          mark_used_and_link old.id d.token_id d.now (
            create_token d.token_id s.id (hash d.plaintext) old.rotation_chain_id
              (d.now + d.refresh_ttl) db)),
      marked_found (hash token) old.id d.token_id s.id (hash d.plaintext) old.rotation_chain_id
          (d.now + d.refresh_ttl) d.now db old found refl,
    )
  ]

  -- A refresh token works once: after a successful rotation, presenting the same token again, at
  -- any time and with any draw, is refused as a reuse.
  pub rotate_refresh_once :
      (d d' : Draw) (token : ℕ) (db : Db) (pair : TokenPair)
      → (rotate_refresh hash d false token db).0 ≡ ok pair
      → (rotate_refresh hash d' false token (rotate_refresh hash d false token db).1).0
        ≡ err token_reused
  rotate_refresh_once d d' token db pair h = elim (Option-cases (find_by_hash (hash token) db)) [
    | inl unknown ↦ absurd (never unknown h)
    | inr (old, found) ↦
        (rotate_refresh_reused d' token (rotate_refresh hash d false token db).1
          (record old { used_at = some d.now; rotated_to = some d.token_id })
          (rotated_found d token db pair old found h) refl).0
  ]
    where
      never :
          find_by_hash (hash token) db ≡ none
          → (rotate_refresh hash d false token db).0 ≡ ok pair
          → ⊥
      never unknown e = unfold rotate_refresh in cc
