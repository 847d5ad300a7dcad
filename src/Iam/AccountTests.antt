-- ===== src/Iam/AccountTests.antt =====
-- The theorems about accounts, at one user with a second factor, a magic link and a reset token.
use oriion.Prelude.{
  str_eq, if◌then◌else◌, ◌+◌, ◌≡◌, refl, true, false, not, ◌&&◌, none, some, [], ◌∷◌, ◌==◌, arith,
  ok, err, is_ok,
}
use oriion.Iam.Auth.{Draw}
use oriion.Iam.Accounts.{
  User, PasswordResetToken, Accounts, find_by_email, find_active_by_user, find_unused_by_hash,
}
use oriion.Iam.Accounts.Mailed.{find_active_link, find_reset}
use oriion.Iam.SecondFactor.{
  Crypto, totp_invalid_code, token_not_found, login, login_totp, verify_for_login, password_matches,
}
use oriion.Iam.SecondFactor.Gate.{mints, IsMinted, needs_no_more, login-mints, backup_code_once}
use oriion.Iam.MagicLink.{consume}
use oriion.Iam.MagicLink.Single.{Accepts, consume-Accepts, consume-once}
use oriion.Iam.Recovery.{reset_password}
use oriion.Iam.Recovery.Reset.{Secured, reset_password-Secured}

-- A code of the authenticator is its secret; a digest is 1000 more; a challenge is the user's id.
abbrev crypto : Crypto
crypto = record {
  lower = λ email. if str_eq email "Ada@example.org" then "ada@example.org" else email;
  sha256 = λ n. n + 1000;
  strip = λ n. n;
  encrypt = λ n. n;
  decrypt = λ n. n;
  totp_verify = λ secret code now. secret == code;
  password_digest = λ n. n + 1000;
  password_verify = λ digest n. digest == n + 1000;
  issue_challenge = λ user now. user;
  challenge_user = λ token now. some token;
}

abbrev ada : User
ada = record {
  id = 3;
  email = "ada@example.org";
  password_hash = some 1005;
  email_verified_at = some 1;
  deleted_at = none;
}

abbrev db : Accounts
db = record {
  tokens = record {
    sessions = record { id = 8; user_id = 3; expires_at = 900; revoked_at = none } ∷ [];
    refresh_tokens = [];
    audit_log = [];
  };
  users = ada ∷ [];
  totp_credentials =
      record {
        id = 4;
        user_id = 3;
        secret_encrypted = 77;
        confirmed_at = some 2;
        disabled_at = none;
      }
      ∷ [];
  backup_codes = record { id = 6; credential_id = 4; code_hash = 1042; used_at = none } ∷ [];
  magic_links =
      record { id = 5; user_id = 3; token_hash = 1021; expires_at = 400; used_at = none } ∷ [];
  email_verifications = [];
  password_resets =
      record {
        id = 2;
        user_id = 3;
        token_hash = 1031;
        reset_chain_id = 1;
        expires_at = 400;
        used_at = none;
        revoked_at = none;
      }
      ∷ [];
  mails = [];
}

abbrev draw : Draw
draw = record {
  now = 50;
  session_id = 9;
  token_id = 2;
  plaintext = 22;
  chain_id = 9;
  refresh_ttl = 100;
}

login-mints_example :
    let (r, db') = login crypto draw false true "Ada@example.org" 5 db in
    let found = find_by_email crypto.lower "Ada@example.org" db in
    (mints r ≡ (not false && needs_no_more crypto true 5 found db))
    × (mints r ≡ false → db' ≡ db)
    × IsMinted crypto draw found db (r, db')
login-mints_example = login-mints crypto draw false true "Ada@example.org" 5 db

-- The password is right, and is not enough.
ada_challenged : needs_no_more crypto true 5 (some ada) db ≡ false
unfolding find_active_by_user password_matches
ada_challenged = refl

ada_active :
    find_active_by_user 3 db
    ≡ some (record {
      id = 4;
      user_id = 3;
      secret_encrypted = 77;
      confirmed_at = some 2;
      disabled_at = none;
    })
unfolding find_active_by_user password_matches
ada_active = refl

backup_accepted : is_ok (login_totp crypto draw false 3 42 db).0 ≡ true
unfolding login_totp verify_for_login find_active_by_user find_unused_by_hash
backup_accepted = refl

backup_code_once_example :
    (login_totp crypto draw false 3 42 (login_totp crypto draw false 3 42 db).1).0
    ≡ err totp_invalid_code
backup_code_once_example =
    backup_code_once crypto draw draw false 3 3 42 3 db
      (record {
        id = 4;
        user_id = 3;
        secret_encrypted = 77;
        confirmed_at = some 2;
        disabled_at = none;
      })
      ada_active refl refl refl refl (omega arith) backup_accepted

consume-Accepts_example : Accepts draw (find_active_link 1021 db) db (consume crypto draw 21 db)
consume-Accepts_example = consume-Accepts crypto draw 21 db

link_accepted : is_ok (consume crypto draw 21 db).0 ≡ true
unfolding consume find_active_link
link_accepted = refl

consume-once_example :
    (consume crypto draw 21 (consume crypto draw 21 db).1).0 ≡ err token_not_found
consume-once_example = consume-once crypto draw draw 21 db (omega arith) link_accepted

reset_accepted : (reset_password crypto 60 31 6 db).0 ≡ ok tt
unfolding reset_password find_reset
reset_accepted = refl

reset_password-Secured_example :
    (row : PasswordResetToken) × (find_reset 1031 db ≡ some row)
    × Secured crypto 31 6 row (reset_password crypto 60 31 6 db).1
reset_password-Secured_example = reset_password-Secured crypto 60 31 6 db reset_accepted
