-- ===== src/Iam/Accounts.antt =====
-- The tables of accounts in iam/models.py, beside those of Iam.Tokens, and iam/repositories/
-- user_repository.py and totp_repository.py. Where the source asks for the one row of a unique key, the
-- first is taken.
pub mod Mailed
use oriion.Prelude.{
  ℕ, String, str_eq, Bool, not, ◌&&◌, Option, none, some, List, [], ◌∷◌, ◌++◌, map, ◌==◌, find,
  keep_if, update_if, is_none, is_some,
}
use oriion.Iam.Tokens.{Db}

-- A row of iam.users.
pub record User : Type 0 where
  pub id : ℕ
  pub email : String
  pub password_hash : Option ℕ
  pub email_verified_at : Option ℕ
  pub deleted_at : Option ℕ

pub record TotpCredential : Type 0 where
  pub id : ℕ
  pub user_id : ℕ
  pub secret_encrypted : ℕ
  pub confirmed_at : Option ℕ
  pub disabled_at : Option ℕ

pub record TotpBackupCode : Type 0 where
  pub id : ℕ
  pub credential_id : ℕ
  pub code_hash : ℕ
  pub used_at : Option ℕ

pub record MagicLinkToken : Type 0 where
  pub id : ℕ
  pub user_id : ℕ
  pub token_hash : ℕ
  pub expires_at : ℕ
  pub used_at : Option ℕ

pub record EmailVerificationToken : Type 0 where
  pub id : ℕ
  pub user_id : ℕ
  pub token_hash : ℕ
  pub expires_at : ℕ
  pub used_at : Option ℕ

pub record PasswordResetToken : Type 0 where
  pub id : ℕ
  pub user_id : ℕ
  pub token_hash : ℕ
  pub reset_chain_id : ℕ
  pub expires_at : ℕ
  pub used_at : Option ℕ
  pub revoked_at : Option ℕ

-- `tokens` holds the sessions, the refresh tokens and the audit log; `mails` what was sent, as the
-- address and the plaintext token.
pub record Accounts : Type 0 where
  pub tokens : Db
  pub users : List User
  pub totp_credentials : List TotpCredential
  pub backup_codes : List TotpBackupCode
  pub magic_links : List MagicLinkToken
  pub email_verifications : List EmailVerificationToken
  pub password_resets : List PasswordResetToken
  pub mails : List (String × ℕ)

abbrev pub on_tokens : (Db → Db) → Accounts → Accounts
on_tokens f db = record db { tokens = f db.tokens }

abbrev pub send_mail : String → ℕ → Accounts → Accounts
send_mail address plaintext db = record db { mails = db.mails ++ (address, plaintext) ∷ [] }

-- users
-- The column is CITEXT, which compares texts by their lower case: `lower` is the database's.
unfoldable pub find_by_email : (String → String) → String → Accounts → Option User
find_by_email lower email db =
    find (λ (u : User). str_eq (lower u.email) (lower email) && is_none u.deleted_at) db.users

unfoldable pub mark_email_verified : ℕ → ℕ → Accounts → Accounts
mark_email_verified user now db = record db {
  users =
      update_if (λ (u : User). u.id == user) (λ u. record u { email_verified_at = some now })
        db.users;
}

unfoldable pub update_password_hash : ℕ → ℕ → Accounts → Accounts
update_password_hash user new_hash db = record db {
  users =
      update_if (λ (u : User). u.id == user) (λ u. record u { password_hash = some new_hash })
        db.users;
}

-- totp_credentials
unfoldable pub create_credential : ℕ → ℕ → ℕ → Accounts → Accounts
create_credential id user secret db = record db {
  totp_credentials =
      db.totp_credentials
      ++ record {
        id = id;
        user_id = user;
        secret_encrypted = secret;
        confirmed_at = none;
        disabled_at = none;
      }
        ∷ [];
}

unfoldable pub find_by_user : ℕ → Accounts → Option TotpCredential
find_by_user user db = find (λ (c : TotpCredential). c.user_id == user) db.totp_credentials

-- A credential that gates login: confirmed and not disabled.
unfoldable pub find_active_by_user : ℕ → Accounts → Option TotpCredential
find_active_by_user user db =
    find
      (λ (c : TotpCredential). c.user_id == user && is_some c.confirmed_at && is_none c.disabled_at)
      db.totp_credentials

unfoldable pub confirm_credential : ℕ → ℕ → Accounts → Accounts
confirm_credential id now db = record db {
  totp_credentials =
      update_if (λ (c : TotpCredential). c.id == id) (λ c. record c { confirmed_at = some now })
        db.totp_credentials;
}

unfoldable pub disable_credential : ℕ → ℕ → Accounts → Accounts
disable_credential id now db = record db {
  totp_credentials =
      update_if (λ (c : TotpCredential). c.id == id) (λ c. record c { disabled_at = some now })
        db.totp_credentials;
}

-- The backup codes go with the credential, by the cascade of their foreign key.
unfoldable pub delete_for_user : TotpCredential → Accounts → Accounts
delete_for_user cred db = record db {
  totp_credentials =
      keep_if (λ (c : TotpCredential). not (c.user_id == cred.user_id)) db.totp_credentials;
  backup_codes = keep_if (λ (b : TotpBackupCode). not (b.credential_id == cred.id)) db.backup_codes;
}

-- backup_codes; a batch is given as the new rows' ids and hashes.
unfoldable pub add_batch : ℕ → List (ℕ × ℕ) → Accounts → Accounts
add_batch credential codes db = record db {
  backup_codes =
      db.backup_codes
      ++ map
          (λ (c : ℕ × ℕ). record {
            id = c.0;
            credential_id = credential;
            code_hash = c.1;
            used_at = none;
          })
          codes;
}

abbrev pub is_unused_code : ℕ → ℕ → TotpBackupCode → Bool
is_unused_code credential hash b =
    b.credential_id == credential && b.code_hash == hash && is_none b.used_at

unfoldable pub find_unused_by_hash : ℕ → ℕ → Accounts → Option TotpBackupCode
find_unused_by_hash credential hash db = find (is_unused_code credential hash) db.backup_codes

unfoldable pub mark_code_used : ℕ → ℕ → Accounts → Accounts
mark_code_used id now db = record db {
  backup_codes =
      update_if (λ (b : TotpBackupCode). b.id == id) (λ b. record b { used_at = some now })
        db.backup_codes;
}

unfoldable pub delete_unused_for_credential : ℕ → Accounts → Accounts
delete_unused_for_credential credential db = record db {
  backup_codes =
      keep_if (λ (b : TotpBackupCode). not (b.credential_id == credential && is_none b.used_at))
        db.backup_codes;
}
