-- ===== src/Iam/Tests.antt =====
-- The theorems about tokens and sessions, at small concrete inputs.
use oriion.Prelude.{
  ℕ, ◌+◌, ◌≤◌, ◌≡◌, refl, false, not, ◌&&◌, none, some, List, [], ◌∷◌, arith, err, is_ok,
}
use oriion.Iam.Tokens.{Db, Session, RefreshToken, find_by_hash, find_session}
use oriion.Iam.Auth.{token_reused, Draw, rotate_refresh, in_request}
use oriion.Iam.Auth.Rotation.{
  may_rotate, request_reused_keeps, rotate_refresh_succeeds, rotate_refresh_once,
}
use oriion.Iam.Auth.Chains.{
  AuthRequest, logs_in, refreshes, logs_out, serve_all, live_tokens, serve_all-one_live,
}

-- A stand-in for SHA-256 that tells the few plaintexts here apart.
abbrev digest : ℕ → ℕ
digest n = n + 1000

abbrev draw : Draw
draw = record {
  now = 50;
  session_id = 7;
  token_id = 2;
  plaintext = 22;
  chain_id = 9;
  refresh_ttl = 100;
}

abbrev fresh_token : RefreshToken
fresh_token = record {
  id = 1;
  session_id = 5;
  token_hash = 1011;
  rotation_chain_id = 4;
  expires_at = 20;
  used_at = none;
  rotated_to = none;
  revoked_at = none;
}

abbrev used_token : RefreshToken
used_token = record fresh_token { used_at = some 15; rotated_to = some 2 }

abbrev open_session : Session
open_session = record { id = 5; user_id = 3; expires_at = 20; revoked_at = none }

abbrev fresh_db : Db
fresh_db = record {
  sessions = open_session ∷ [];
  refresh_tokens = fresh_token ∷ [];
  audit_log = [];
}

abbrev used_db : Db
used_db = record { sessions = open_session ∷ []; refresh_tokens = used_token ∷ []; audit_log = [] }

request_reused_keeps_example :
    in_request (rotate_refresh digest draw false 11) used_db ≡ (err token_reused, used_db)
unfolding find_by_hash
request_reused_keeps_example = request_reused_keeps digest draw 11 used_db used_token refl refl

-- The token and its session expired at 20, and the clock reads 50.
rotate_refresh_succeeds_example :
    is_ok (rotate_refresh digest draw false 11 fresh_db).0
    ≡ (not false && may_rotate digest (find_by_hash (digest 11) fresh_db) fresh_db)
rotate_refresh_succeeds_example = rotate_refresh_succeeds digest draw false 11 fresh_db

rotate_refresh_once_example :
    (rotate_refresh digest draw false 11 (rotate_refresh digest draw false 11 fresh_db).1).0
    ≡ err token_reused
unfolding find_by_hash find_session rotate_refresh
rotate_refresh_once_example =
    rotate_refresh_once digest draw draw 11 fresh_db (record { session = 5; refresh_token = 22 })
      refl

abbrev requests : List AuthRequest
requests =
    logs_in draw 3 ∷ refreshes draw false 11 ∷ refreshes draw false 11 ∷ logs_out draw 22 ∷ []

serve_all-one_live_example : live_tokens 4 (serve_all digest requests fresh_db) ≤ 1
serve_all-one_live_example = serve_all-one_live digest 4 requests fresh_db (refl, tt) (omega arith)
