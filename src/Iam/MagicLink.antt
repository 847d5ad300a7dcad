-- ===== src/Iam/MagicLink.antt =====
-- iam/services/magic_link_service.py: passwordless login by a link that is mailed.
pub mod Single
use oriion.Prelude.{ℕ, ◌+◌, String, Bool, Option, none, some, ltb, if◌then◌else◌, Result, ok, err}
use oriion.Iam.Tokens.{audit}
use oriion.Iam.Auth.{Draw, TokenPair}
use oriion.Iam.Accounts.{User, MagicLinkToken, Accounts, on_tokens, send_mail, find_by_email}
use oriion.Iam.Accounts.Mailed.{find_active_link, create_link, mark_link_used, revoke_unused_links}
use oriion.Iam.SecondFactor.{AccountError, rate_limited, token_not_found, Crypto, issue}

abbrev pub magic_link_ttl : ℕ
magic_link_ttl = 900

module _ (crypto : Crypto) where
  -- `id` and `plaintext` are the new row's and the random token.
  request_for : ℕ → ℕ → ℕ → Option User → Accounts → Accounts
  request_for now id plaintext none db = db
  request_for now id plaintext (some user) db = send_mail user.email plaintext (
      create_link id user.id (crypto.sha256 plaintext) (now + magic_link_ttl)
        (revoke_unused_links user.id now db))

  unfoldable pub request :
      ℕ → ℕ → ℕ → Bool → String → Accounts → Result AccountError Unit × Accounts
  unfolding request_for
  request now id plaintext limited email db =
      if limited
      then (err rate_limited, db)
      else (ok tt, request_for now id plaintext (find_by_email crypto.lower email db) db)

  issue_ok : Draw → ℕ → Accounts → Result AccountError TokenPair × Accounts
  issue_ok d user db = let (pair, db') = issue crypto d user db in (ok pair, db')

  consume_row : Draw → Option MagicLinkToken → Accounts → Result AccountError TokenPair × Accounts
  unfolding issue_ok
  consume_row d none db = (err token_not_found, db)
  consume_row d (some row) db =
      if ltb row.expires_at d.now
      then (err token_not_found, db)
      else issue_ok d row.user_id (
          on_tokens (audit row.user_id "iam.auth.magic_link_login" row.user_id)
            (mark_link_used row.id d.now db))

  unfoldable pub consume : Draw → ℕ → Accounts → Result AccountError TokenPair × Accounts
  unfolding consume_row
  consume d plaintext db = consume_row d (find_active_link (crypto.sha256 plaintext) db) db
