-- ===== src/Iam/SecondFactor.antt =====
-- iam/services/totp_service.py, and login and login_totp of auth_service.py. Codes, secrets, passwords
-- and tokens are numbers, and what pyotp, the KMS, Argon2, SHA-256 and the JWT library do with them are
-- the functions of Crypto.
pub mod Gate
use oriion.Prelude.{
  ℕ, String, Bool, true, false, not, ◌&&◌, Option, none, some, List, is_none, is_some,
  if◌then◌else◌, map, Result, ok, err,
}
use oriion.Iam.Auth.{Draw, TokenPair, issue_token_pair}
use oriion.Iam.Accounts.{
  User, TotpCredential, TotpBackupCode, Accounts, find_by_email, create_credential, find_by_user,
  find_active_by_user, confirm_credential, disable_credential, delete_for_user, add_batch,
  find_unused_by_hash, mark_code_used, delete_unused_for_credential,
}

pub data AccountError : Type 0 where
  rate_limited invalid_credentials email_not_verified challenge_invalid totp_invalid_code
        totp_not_enrolled totp_already_enabled totp_not_enabled token_not_found :
      AccountError

pub record Crypto : Type 0 where
  -- the lower case by which the database compares CITEXT
  pub lower : String → String
  -- SHA-256
  pub sha256 : ℕ → ℕ
  -- `str.strip`
  pub strip : ℕ → ℕ
  -- the KMS
  pub encrypt : ℕ → ℕ
  pub decrypt : ℕ → ℕ
  -- pyotp: whether the code is that of the secret in the window round a time
  pub totp_verify : ℕ → ℕ → ℕ → Bool
  -- Argon2
  pub password_digest : ℕ → ℕ
  pub password_verify : ℕ → ℕ → Bool
  -- the signed challenge of a user at a time, and its verification at a time
  pub issue_challenge : ℕ → ℕ → ℕ
  pub challenge_user : ℕ → ℕ → Option ℕ

-- What a login returns where nothing is raised.
pub data LoggedIn : Type 0 where
  token_pair : TokenPair → LoggedIn
  totp_challenge : ℕ → LoggedIn

module _ (crypto : Crypto) where
  unfoldable pub issue : Draw → ℕ → Accounts → TokenPair × Accounts
  issue d user db =
      let (pair, tokens) = issue_token_pair crypto.sha256 d user db.tokens in
      (pair, record db { tokens = tokens })

  -- `verify_for_login`, for the credential that was found.
  use_backup : ℕ → Option TotpBackupCode → Accounts → Bool × Accounts
  use_backup now none db = (false, db)
  use_backup now (some b) db = (true, mark_code_used b.id now db)

  verify_with : ℕ → ℕ → Option TotpCredential → Accounts → Bool × Accounts
  unfolding use_backup
  verify_with now code none db = (false, db)
  verify_with now code (some cred) db =
      if crypto.totp_verify (crypto.decrypt cred.secret_encrypted) code now
      then (true, db)
      else use_backup now (find_unused_by_hash cred.id (crypto.sha256 (crypto.strip code)) db) db

  unfoldable pub verify_for_login : ℕ → ℕ → ℕ → Accounts → Bool × Accounts
  unfolding verify_with
  verify_for_login now user code db = verify_with now code (find_active_by_user user db) db

  unfoldable pub is_enabled : ℕ → Accounts → Bool
  is_enabled user db = is_some (find_active_by_user user db)

  -- `enroll`: `secret` is the random one and `id` the new row's; what is returned is the secret.
  enroll_over : ℕ → ℕ → ℕ → Option TotpCredential → Accounts → Result AccountError ℕ × Accounts
  enroll_over id secret user none db =
      (ok secret, create_credential id user (crypto.encrypt secret) db)
  enroll_over id secret user (some old) db =
      if is_some old.confirmed_at && is_none old.disabled_at
      then (err totp_already_enabled, db)
      else (ok secret, create_credential id user (crypto.encrypt secret) (delete_for_user old db))

  unfoldable pub enroll : ℕ → ℕ → ℕ → Accounts → Result AccountError ℕ × Accounts
  unfolding enroll_over
  enroll id secret user db = enroll_over id secret user (find_by_user user db) db

  -- `confirm`: the codes are the new rows' ids and the random plaintexts, which are returned.
  confirm_with :
      ℕ
      → List (ℕ × ℕ)
      → ℕ
      → Option TotpCredential
      → Accounts
      → Result AccountError (List ℕ) × Accounts
  confirm_with now codes code none db = (err totp_not_enrolled, db)
  confirm_with now codes code (some cred) db =
      if is_some cred.disabled_at
      then (err totp_not_enrolled, db)
      else (if is_some cred.confirmed_at
          then (err totp_already_enabled, db)
          else (if not (crypto.totp_verify (crypto.decrypt cred.secret_encrypted) code now)
              then (err totp_invalid_code, db)
              else (
                ok (map (λ (c : ℕ × ℕ). c.1) codes),
                add_batch cred.id (map (λ (c : ℕ × ℕ). (c.0, crypto.sha256 c.1)) codes)
                    (confirm_credential cred.id now db),
              )))

  unfoldable pub confirm :
      ℕ → List (ℕ × ℕ) → ℕ → ℕ → Accounts → Result AccountError (List ℕ) × Accounts
  unfolding confirm_with
  confirm now codes user code db = confirm_with now codes code (find_by_user user db) db

  disabled_after : ℕ → TotpCredential → Bool × Accounts → Result AccountError Unit × Accounts
  disabled_after now cred (verified, db) =
      if verified
      then (ok tt, delete_unused_for_credential cred.id (disable_credential cred.id now db))
      else (err totp_invalid_code, db)

  disable_with : ℕ → ℕ → ℕ → Option TotpCredential → Accounts → Result AccountError Unit × Accounts
  unfolding disabled_after
  disable_with now user code none db = (err totp_not_enabled, db)
  disable_with now user code (some cred) db =
      disabled_after now cred (verify_for_login now user code db)

  unfoldable pub disable : ℕ → ℕ → ℕ → Accounts → Result AccountError Unit × Accounts
  unfolding disable_with
  disable now user code db = disable_with now user code (find_active_by_user user db) db

  -- What `login` does once the password is right.
  passed : Draw → ℕ → Accounts → Result AccountError LoggedIn × Accounts
  unfolding issue
  passed d user db =
      let (pair, db') = issue d user db in
      if is_enabled user db
      then (ok (totp_challenge (crypto.issue_challenge user d.now)), db)
      else (ok (token_pair pair), db')

  unfoldable pub password_matches : ℕ → Option ℕ → Bool
  password_matches password none = false
  password_matches password (some digest) = crypto.password_verify digest password

  login_as : Draw → Bool → ℕ → Option User → Accounts → Result AccountError LoggedIn × Accounts
  unfolding passed password_matches
  login_as d require_verification password none db = (err invalid_credentials, db)
  login_as d require_verification password (some user) db =
      if not (password_matches password user.password_hash)
      then (err invalid_credentials, db)
      else (if require_verification && is_none user.email_verified_at
          then (err email_not_verified, db)
          else passed d user.id db)

  -- `limited`: the rate limiter refused the address.
  unfoldable pub login :
      Draw → Bool → Bool → String → ℕ → Accounts → Result AccountError LoggedIn × Accounts
  unfolding login_as
  login d limited require_verification email password db =
      if limited
      then (err rate_limited, db)
      else login_as d require_verification password (find_by_email crypto.lower email db) db

  login_after : Draw → ℕ → Bool × Accounts → Result AccountError TokenPair × Accounts
  unfolding issue
  login_after d user (verified, db) =
      let (pair, db') = issue d user db in
      if verified then (ok pair, db') else (err totp_invalid_code, db)

  login_challenged : Draw → ℕ → Option ℕ → Accounts → Result AccountError TokenPair × Accounts
  unfolding login_after
  login_challenged d code none db = (err challenge_invalid, db)
  login_challenged d code (some user) db = login_after d user (verify_for_login d.now user code db)

  unfoldable pub login_totp :
      Draw → Bool → ℕ → ℕ → Accounts → Result AccountError TokenPair × Accounts
  unfolding login_challenged
  login_totp d limited challenge code db =
      if limited
      then (err rate_limited, db)
      else login_challenged d code (crypto.challenge_user challenge d.now) db
