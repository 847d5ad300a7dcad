-- ===== src/Iam/Tokens.antt =====
-- iam/repositories/session_repository.py and refresh_token_repository.py: the tables behind login.
-- A table is the list of its rows in order of insertion; a WHERE clause is a test of a row. Ids,
-- hashes and times are numbers, which the code only compares.
use oriion.Prelude.{
  ℕ, String, not, ◌&&◌, Option, none, some, List, [], ◌∷◌, ◌++◌, ◌==◌, find, any, update_if,
  is_none,
}

-- A row of iam.sessions.
pub record Session : Type 0 where
  pub id : ℕ
  pub user_id : ℕ
  pub expires_at : ℕ
  pub revoked_at : Option ℕ

-- A row of iam.refresh_tokens.
pub record RefreshToken : Type 0 where
  pub id : ℕ
  pub session_id : ℕ
  pub token_hash : ℕ
  pub rotation_chain_id : ℕ
  pub expires_at : ℕ
  pub used_at : Option ℕ
  pub rotated_to : Option ℕ
  pub revoked_at : Option ℕ

-- A row of the audit log, as far as it identifies the deed.
pub record AuditRow : Type 0 where
  pub actor_id : ℕ
  pub action : String
  pub resource_id : ℕ

pub record Db : Type 0 where
  pub sessions : List Session
  pub refresh_tokens : List RefreshToken
  pub audit_log : List AuditRow

-- `emit_audit_event`, on the request's own transaction.
unfoldable pub audit : ℕ → String → ℕ → Db → Db
audit actor action resource db = record db {
  audit_log =
      db.audit_log ++ record { actor_id = actor; action = action; resource_id = resource } ∷ [];
}

unfoldable pub create_session : ℕ → ℕ → ℕ → Db → Db
create_session id user expires db = record db {
  sessions =
      db.sessions
      ++ record { id = id; user_id = user; expires_at = expires; revoked_at = none } ∷ [];
}

unfoldable pub find_session : ℕ → Db → Option Session
find_session sid db = find (λ (s : Session). s.id == sid) db.sessions

abbrev pub revoke_row : ℕ → Session → Session
revoke_row now s = record s { revoked_at = some now }

unfoldable pub revoke_session_row : ℕ → ℕ → Db → Db
revoke_session_row sid now db = record db {
  sessions =
      update_if (λ (s : Session). s.id == sid && is_none s.revoked_at) (revoke_row now) db.sessions;
}

-- `revoke_all_for_user`.
unfoldable pub revoke_all_for_user : ℕ → ℕ → Db → Db
revoke_all_for_user user now db = record db {
  sessions =
      update_if (λ (s : Session). s.user_id == user && is_none s.revoked_at) (revoke_row now)
        db.sessions;
}

-- `revoke_all_others_for_user`.
unfoldable pub revoke_all_others_for_user : ℕ → ℕ → ℕ → Db → Db
revoke_all_others_for_user user keep now db = record db {
  sessions =
      update_if (λ (s : Session). s.user_id == user && not (s.id == keep) && is_none s.revoked_at)
        (revoke_row now) db.sessions;
}

unfoldable pub create_token : ℕ → ℕ → ℕ → ℕ → ℕ → Db → Db
create_token id sid hash chain expires db = record db {
  refresh_tokens =
      db.refresh_tokens
      ++ record {
        id = id;
        session_id = sid;
        token_hash = hash;
        rotation_chain_id = chain;
        expires_at = expires;
        used_at = none;
        rotated_to = none;
        revoked_at = none;
      }
        ∷ [];
}

unfoldable pub find_by_hash : ℕ → Db → Option RefreshToken
find_by_hash hash db = find (λ (t : RefreshToken). t.token_hash == hash) db.refresh_tokens

unfoldable pub mark_used_and_link : ℕ → ℕ → ℕ → Db → Db
mark_used_and_link id new_id now db = record db {
  refresh_tokens =
      update_if (λ (t : RefreshToken). t.id == id)
        (λ t. record t { used_at = some now; rotated_to = some new_id }) db.refresh_tokens;
}

abbrev pub revoke_token : ℕ → RefreshToken → RefreshToken
revoke_token now t = record t { revoked_at = some now }

unfoldable pub revoke_chain : ℕ → ℕ → Db → Db
revoke_chain chain now db = record db {
  refresh_tokens =
      update_if (λ (t : RefreshToken). t.rotation_chain_id == chain && is_none t.revoked_at)
        (revoke_token now) db.refresh_tokens;
}

unfoldable pub revoke_for_session : ℕ → ℕ → Db → Db
revoke_for_session sid now db = record db {
  refresh_tokens =
      update_if (λ (t : RefreshToken). t.session_id == sid && is_none t.revoked_at)
        (revoke_token now) db.refresh_tokens;
}

-- `revoke_all_for_user_except_session`: the sub-select lists the user's other sessions.
unfoldable pub revoke_tokens_except_session : ℕ → ℕ → ℕ → Db → Db
revoke_tokens_except_session user keep now db = record db {
  refresh_tokens =
      update_if
        (λ (t : RefreshToken).
          any (λ (s : Session). s.id == t.session_id && (s.user_id == user && not (s.id == keep)))
            db.sessions
          && is_none t.revoked_at)
        (revoke_token now) db.refresh_tokens;
}
