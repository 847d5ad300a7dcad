-- ===== src/Iam/Recovery.antt =====
-- iam/services/account_recovery_service.py: email verification and password reset.
pub mod Reset
use oriion.Prelude.{
  ℕ, ◌+◌, String, Bool, Option, none, some, ltb, is_some, ◌||◌, if◌then◌else◌, Result, ok, err,
}
use oriion.Iam.Tokens.{audit, revoke_all_for_user}
use oriion.Iam.Accounts.{
  User, EmailVerificationToken, PasswordResetToken, Accounts, on_tokens, send_mail, find_by_email,
  mark_email_verified, update_password_hash,
}
use oriion.Iam.Accounts.Mailed.{
  find_active_verification, create_verification, mark_verification_used,
  revoke_unused_verifications, find_reset, create_reset, mark_reset_used, revoke_reset_chain,
  revoke_unused_resets,
}
use oriion.Iam.SecondFactor.{AccountError, rate_limited, token_not_found, Crypto}

-- EMAIL_VERIFICATION_TTL_SECONDS and PASSWORD_RESET_TTL_SECONDS.
abbrev pub email_verification_ttl : ℕ
email_verification_ttl = 86400

abbrev pub password_reset_ttl : ℕ
password_reset_ttl = 3600

module _ (crypto : Crypto) where
  verify_row : ℕ → Option EmailVerificationToken → Accounts → Result AccountError Unit × Accounts
  verify_row now none db = (err token_not_found, db)
  verify_row now (some row) db = if ltb row.expires_at now then (err token_not_found, db) else (
    ok tt,
    on_tokens (audit row.user_id "iam.user.email_verified" row.user_id)
        (mark_email_verified row.user_id now (mark_verification_used row.id now db)),
  )

  unfoldable pub verify_email : ℕ → ℕ → Accounts → Result AccountError Unit × Accounts
  unfolding verify_row
  verify_email now plaintext db =
      verify_row now (find_active_verification (crypto.sha256 plaintext) db) db

  resend_for : ℕ → ℕ → ℕ → Option User → Accounts → Accounts
  resend_for now id plaintext none db = db
  resend_for now id plaintext (some user) db =
      if is_some user.email_verified_at
      then db
      else send_mail user.email plaintext (
          create_verification id user.id (crypto.sha256 plaintext) (now + email_verification_ttl)
            (revoke_unused_verifications user.id now db))

  unfoldable pub resend_verification :
      ℕ → ℕ → ℕ → Bool → String → Accounts → Result AccountError Unit × Accounts
  unfolding resend_for
  resend_verification now id plaintext limited email db =
      if limited
      then (err rate_limited, db)
      else (ok tt, resend_for now id plaintext (find_by_email crypto.lower email db) db)

  -- `chain` is the new token's reset_chain_id.
  forgot_for : ℕ → ℕ → ℕ → ℕ → Option User → Accounts → Accounts
  forgot_for now id plaintext chain none db = db
  forgot_for now id plaintext chain (some user) db = send_mail user.email plaintext (
      create_reset id user.id (crypto.sha256 plaintext) chain (now + password_reset_ttl)
        (revoke_unused_resets user.id now db))

  unfoldable pub forgot_password :
      ℕ → ℕ → ℕ → ℕ → Bool → String → Accounts → Result AccountError Unit × Accounts
  unfolding forgot_for
  forgot_password now id plaintext chain limited email db =
      if limited
      then (err rate_limited, db)
      else (ok tt, forgot_for now id plaintext chain (find_by_email crypto.lower email db) db)

  -- A consumed token that is presented again.
  on_reset_reuse : ℕ → PasswordResetToken → Accounts → Result AccountError Unit × Accounts
  on_reset_reuse now row db = (
    err token_not_found,
    on_tokens (audit row.user_id "iam.auth.reset_reuse_detected" row.user_id) (
        on_tokens (revoke_all_for_user row.user_id now)
          (revoke_reset_chain row.reset_chain_id now db)),
  )

  apply_reset : ℕ → ℕ → PasswordResetToken → Accounts → Result AccountError Unit × Accounts
  apply_reset now new_password row db = (
    ok tt,
    on_tokens (audit row.user_id "iam.user.password_reset" row.user_id) (
        on_tokens (revoke_all_for_user row.user_id now) (
          mark_reset_used row.id now
            (update_password_hash row.user_id (crypto.password_digest new_password) db))),
  )

  reset_row : ℕ → ℕ → Option PasswordResetToken → Accounts → Result AccountError Unit × Accounts
  unfolding on_reset_reuse apply_reset
  reset_row now new_password none db = (err token_not_found, db)
  reset_row now new_password (some row) db =
      if is_some row.revoked_at || ltb row.expires_at now
      then (err token_not_found, db)
      else (if is_some row.used_at
          then on_reset_reuse now row db
          else apply_reset now new_password row db)

  unfoldable pub reset_password : ℕ → ℕ → ℕ → Accounts → Result AccountError Unit × Accounts
  unfolding reset_row
  reset_password now plaintext new_password db =
      reset_row now new_password (find_reset (crypto.sha256 plaintext) db) db
