-- ===== src/Iam/Auth.antt =====
-- iam/services/auth_service.py: token pairs, refresh rotation, logout and session revocation, and
-- the transaction that `get_db` of _shared/db/session.py puts round a request.
pub mod Rotation
pub mod Chains
use oriion.Prelude.{
  ℕ, ◌+◌, Bool, true, false, ◌&&◌, ◌||◌, Option, none, some, ◌==◌, any, is_none, is_some,
  if◌then◌else◌, Result, ok, err,
}
use oriion.Iam.Tokens.{
  Db, Session, RefreshToken, audit, create_session, find_session, revoke_session_row,
  revoke_all_others_for_user, create_token, find_by_hash, mark_used_and_link, revoke_chain,
  revoke_for_session, revoke_tokens_except_session,
}

pub data AuthError : Type 0 where
  rate_limited : AuthError
  token_not_found : AuthError
  token_reused : AuthError
  session_revoked : AuthError
  session_not_found : AuthError

pub record TokenPair : Type 0 where
  pub session : ℕ
  pub refresh_token : ℕ

-- What a call draws from outside: the clock, the ids and chain that the database and `uuid4` make,
-- the random plaintext of the new refresh token, and the configured life of a refresh token.
pub record Draw : Type 0 where
  pub now : ℕ
  pub session_id : ℕ
  pub token_id : ℕ
  pub plaintext : ℕ
  pub chain_id : ℕ
  pub refresh_ttl : ℕ

-- `hash` is SHA-256, and `nobody` the all-zero id of a system actor.
module _ (hash : ℕ → ℕ) where
  abbrev pub nobody : ℕ
  nobody = 0

  -- `_issue_token_pair`: a new session, and a refresh token on a new chain.
  unfoldable pub issue_token_pair : Draw → ℕ → Db → TokenPair × Db
  issue_token_pair d user db =
      let db₁ = create_session d.session_id user (d.now + d.refresh_ttl) db in
      let db₂ =
        create_token d.token_id d.session_id (hash d.plaintext) d.chain_id (d.now + d.refresh_ttl)
          db₁ in
      (
        record { session = d.session_id; refresh_token = d.plaintext },
        audit user "iam.auth.login" d.session_id db₂,
      )

  -- A token that was used or revoked: the chain and the session go down with it.
  on_reuse : Draw → RefreshToken → Db → Result AuthError TokenPair × Db
  on_reuse d old db =
      let db₁ = revoke_chain old.rotation_chain_id d.now db in
      let db₂ = revoke_session_row old.session_id d.now db₁ in
      (err token_reused, audit nobody "iam.auth.refresh_reuse_detected" old.session_id db₂)

  rotate_in : Draw → RefreshToken → Option Session → Db → Result AuthError TokenPair × Db
  rotate_in d old none db = (err session_revoked, db)
  rotate_in d old (some s) db =
      if is_some s.revoked_at
      then (err session_revoked, db)
      else (let db₁ =
            create_token d.token_id s.id (hash d.plaintext) old.rotation_chain_id
              (d.now + d.refresh_ttl) db in
          let db₂ = mark_used_and_link old.id d.token_id d.now db₁ in
          (
            ok (record { session = s.id; refresh_token = d.plaintext }),
            audit s.user_id "iam.auth.refresh" s.id db₂,
          ))

  rotate_found : Draw → Option RefreshToken → Db → Result AuthError TokenPair × Db
  unfolding on_reuse rotate_in
  rotate_found d none db = (err token_not_found, db)
  rotate_found d (some old) db =
      if is_some old.used_at || is_some old.revoked_at
      then on_reuse d old db
      else rotate_in d old (find_session old.session_id db) db

  -- `limited`: the rate limiter refused this address.
  unfoldable pub rotate_refresh : Draw → Bool → ℕ → Db → Result AuthError TokenPair × Db
  unfolding rotate_found
  rotate_refresh d limited token db =
      if limited then (err rate_limited, db) else rotate_found d (find_by_hash (hash token) db) db

  session_actor : Option Session → ℕ
  session_actor none = nobody
  session_actor (some s) = s.user_id

  logout_found : Draw → Option RefreshToken → Db → Db
  unfolding session_actor
  logout_found d none db = db
  logout_found d (some row) db =
      let actor = session_actor (find_session row.session_id db) in
      let db₁ = revoke_session_row row.session_id d.now db in
      let db₂ = revoke_chain row.rotation_chain_id d.now db₁ in
      audit actor "iam.auth.logout" row.session_id db₂

  -- The router passes no access-token id, so there is nothing to blacklist.
  unfoldable pub logout : Draw → ℕ → Db → Db
  unfolding logout_found
  logout d token db = logout_found d (find_by_hash (hash token) db) db

-- The rows that the guarded UPDATE of `revoke_for_user` would touch: its row count is 0 or not.
abbrev pub owns_session : ℕ → ℕ → Db → Bool
owns_session user sid db =
    any (λ (s : Session). s.id == sid && (s.user_id == user && is_none s.revoked_at)) db.sessions

-- `revoke_session`: ids are unique, so the owner's UPDATE touches the session's one row.
unfoldable pub revoke_session : ℕ → ℕ → ℕ → Db → Result AuthError Unit × Db
revoke_session now user sid db =
    if owns_session user sid db
    then (
      ok tt,
      audit user "iam.session.revoked" sid
          (revoke_for_session sid now (revoke_session_row sid now db)),
    )
    else (err session_not_found, db)

unfoldable pub revoke_all_other_sessions : ℕ → ℕ → ℕ → Db → Db
revoke_all_other_sessions now user keep db =
    audit user "iam.session.revoked_all_others" user
      (revoke_tokens_except_session user keep now (revoke_all_others_for_user user keep now db))

-- `get_db`: a handler that raises is rolled back, any other is committed.
unfoldable pub in_request : {S E A : Type 0} → (S → Result E A × S) → S → Result E A × S
in_request handler db =
    let (r, db') = handler db in elim r [ ok a ↦ (ok a, db') | err e ↦ (err e, db) ]
