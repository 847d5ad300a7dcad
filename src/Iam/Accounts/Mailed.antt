-- ===== src/Iam/Accounts/Mailed.antt =====
-- iam/repositories/magic_link_repository.py, password_reset_repository.py and
-- email_verification_repository.py: the tokens that are mailed.
use oriion.Prelude.{
  ℕ, Bool, ◌&&◌, Option, none, some, [], ◌∷◌, ◌++◌, ◌==◌, find, update_if, is_none,
}
use oriion.Iam.Accounts.{MagicLinkToken, EmailVerificationToken, PasswordResetToken, Accounts}

-- magic_links
abbrev pub is_active_link : ℕ → MagicLinkToken → Bool
is_active_link hash t = t.token_hash == hash && is_none t.used_at

unfoldable pub find_active_link : ℕ → Accounts → Option MagicLinkToken
find_active_link hash db = find (is_active_link hash) db.magic_links

unfoldable pub create_link : ℕ → ℕ → ℕ → ℕ → Accounts → Accounts
create_link id user hash expires db = record db {
  magic_links =
      db.magic_links
      ++ record { id = id; user_id = user; token_hash = hash; expires_at = expires; used_at = none }
        ∷ [];
}

unfoldable pub mark_link_used : ℕ → ℕ → Accounts → Accounts
mark_link_used id now db = record db {
  magic_links =
      update_if (λ (t : MagicLinkToken). t.id == id) (λ t. record t { used_at = some now })
        db.magic_links;
}

unfoldable pub revoke_unused_links : ℕ → ℕ → Accounts → Accounts
revoke_unused_links user now db = record db {
  magic_links =
      update_if (λ (t : MagicLinkToken). t.user_id == user && is_none t.used_at)
        (λ t. record t { used_at = some now }) db.magic_links;
}

-- email_verifications
unfoldable pub find_active_verification : ℕ → Accounts → Option EmailVerificationToken
find_active_verification hash db =
    find (λ (t : EmailVerificationToken). t.token_hash == hash && is_none t.used_at)
      db.email_verifications

unfoldable pub create_verification : ℕ → ℕ → ℕ → ℕ → Accounts → Accounts
create_verification id user hash expires db = record db {
  email_verifications =
      db.email_verifications
      ++ record { id = id; user_id = user; token_hash = hash; expires_at = expires; used_at = none }
        ∷ [];
}

unfoldable pub mark_verification_used : ℕ → ℕ → Accounts → Accounts
mark_verification_used id now db = record db {
  email_verifications =
      update_if (λ (t : EmailVerificationToken). t.id == id) (λ t. record t { used_at = some now })
        db.email_verifications;
}

unfoldable pub revoke_unused_verifications : ℕ → ℕ → Accounts → Accounts
revoke_unused_verifications user now db = record db {
  email_verifications =
      update_if (λ (t : EmailVerificationToken). t.user_id == user && is_none t.used_at)
        (λ t. record t { used_at = some now }) db.email_verifications;
}

-- password_resets
unfoldable pub find_reset : ℕ → Accounts → Option PasswordResetToken
find_reset hash db = find (λ (t : PasswordResetToken). t.token_hash == hash) db.password_resets

unfoldable pub create_reset : ℕ → ℕ → ℕ → ℕ → ℕ → Accounts → Accounts
create_reset id user hash chain expires db = record db {
  password_resets =
      db.password_resets
      ++ record {
        id = id;
        user_id = user;
        token_hash = hash;
        reset_chain_id = chain;
        expires_at = expires;
        used_at = none;
        revoked_at = none;
      }
        ∷ [];
}

unfoldable pub mark_reset_used : ℕ → ℕ → Accounts → Accounts
mark_reset_used id now db = record db {
  password_resets =
      update_if (λ (t : PasswordResetToken). t.id == id) (λ t. record t { used_at = some now })
        db.password_resets;
}

unfoldable pub revoke_reset_chain : ℕ → ℕ → Accounts → Accounts
revoke_reset_chain chain now db = record db {
  password_resets =
      update_if (λ (t : PasswordResetToken). t.reset_chain_id == chain && is_none t.revoked_at)
        (λ t. record t { revoked_at = some now }) db.password_resets;
}

-- A reset token that `forgot_password` puts out.
abbrev pub is_unused_reset : ℕ → PasswordResetToken → Bool
is_unused_reset user t = t.user_id == user && is_none t.used_at && is_none t.revoked_at

unfoldable pub revoke_unused_resets : ℕ → ℕ → Accounts → Accounts
revoke_unused_resets user now db = record db {
  password_resets =
      update_if (is_unused_reset user) (λ t. record t { revoked_at = some now }) db.password_resets;
}
