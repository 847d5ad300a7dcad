-- ===== src/Iam/SecondFactor/Gate.antt =====
-- When a login mints tokens: the password, the second factor, and the backup codes.
use oriion.Prelude.{
  ℕ, ◌≤◌, ◌≡◌, refl, sym, ap, ◌∙◌, String, Bool, true, false, not, ◌&&◌, ◌||◌, Option, none, some,
  [], ◌∷◌, ◌++◌, ◌+◌, Bool-cases, ◌==◌, find, count_if, is_none, is_some, arith, Result, ok, err,
  is_ok, Option-cases, inl, inr,
}
use oriion.Prelude.Rows.{find-marked}
use oriion.Iam.Tokens.{audit, create_session, create_token}
use oriion.Iam.Auth.{Draw, issue_token_pair}
use oriion.Iam.Accounts.{
  User, TotpCredential, TotpBackupCode, Accounts, find_by_email, find_active_by_user,
  is_unused_code, find_unused_by_hash, mark_code_used,
}
use oriion.Iam.SecondFactor.{
  AccountError, totp_invalid_code, Crypto, LoggedIn, token_pair, totp_challenge, issue, use_backup,
  verify_with, verify_for_login, is_enabled, passed, password_matches, login_as, login, login_after,
  login_challenged, login_totp,
}

abbrev pub mints : Result AccountError LoggedIn → Bool
mints (ok (token_pair pair)) = true
mints (ok (totp_challenge token)) = false
mints (err e) = false

-- What a password alone is enough for.
abbrev pub needs_no_more : Crypto → Bool → ℕ → Option User → Accounts → Bool
needs_no_more crypto require_verification password none db = false
needs_no_more crypto require_verification password (some u) db =
    password_matches crypto password u.password_hash
    && (not require_verification || is_some u.email_verified_at)
    && is_none (find_active_by_user u.id db)

-- What the theorem says of a login's result, where the password is enough or not.
abbrev Mints : Bool → Accounts → Result AccountError LoggedIn × Accounts → Type 0
Mints enough db (r, db') = (mints r ≡ enough) × (mints r ≡ false → db' ≡ db)

passed-Mints :
    (crypto : Crypto) (d : Draw) (user : ℕ) (db : Accounts)
    → Mints (is_none (find_active_by_user user db)) db (passed crypto d user db)
unfolding passed is_enabled issue
passed-Mints crypto d user db = elim (Option-cases (find_active_by_user user db)) [
  | inl e ↦ rw e (refl, λ h. absurd (cc))
  | inr (c, e) ↦ rw e (refl, λ h. refl)
]

login_as-Mints :
    (crypto : Crypto) (d : Draw) (require_verification : Bool) (password : ℕ) (u : Option User)
    (db : Accounts)
    → Mints
        (needs_no_more crypto require_verification password u db)
        db
        (login_as crypto d require_verification password u db)
unfolding login_as
login_as-Mints crypto d require_verification password none db = (refl, λ h. refl)
login_as-Mints crypto d require_verification password (some u) db =
    ground (arith, passed-Mints crypto d u.id db)

-- What a login that mints has made: the session of the user, the refresh token of that session on the
-- chain that was drawn, and the pair that names both.
abbrev pub IsMinted :
    Crypto → Draw → Option User → Accounts → Result AccountError LoggedIn × Accounts → Type 0
IsMinted crypto d u db (err e, db') = Unit
IsMinted crypto d u db (ok (totp_challenge token), db') = Unit
IsMinted crypto d none db (ok (token_pair pair), db') = ⊥
IsMinted crypto d (some u) db (ok (token_pair pair), db') =
    (pair.session ≡ d.session_id)
    × (pair.refresh_token ≡ d.plaintext)
    × (db'.tokens.sessions
        ≡ db.tokens.sessions
          ++ record {
            id = d.session_id;
            user_id = u.id;
            expires_at = d.now + d.refresh_ttl;
            revoked_at = none;
          }
            ∷ [])
    × (db'.tokens.refresh_tokens
        ≡ db.tokens.refresh_tokens
          ++ record {
            id = d.token_id;
            session_id = d.session_id;
            token_hash = crypto.sha256 d.plaintext;
            rotation_chain_id = d.chain_id;
            expires_at = d.now + d.refresh_ttl;
            used_at = none;
            rotated_to = none;
            revoked_at = none;
          }
            ∷ [])

passed-IsMinted :
    (crypto : Crypto) (d : Draw) (u : User) (db : Accounts)
    → IsMinted crypto d (some u) db (passed crypto d u.id db)
unfolding passed issue issue_token_pair create_session create_token audit
passed-IsMinted crypto d u db = elim (Bool-cases (is_enabled crypto u.id db)) [
  | inl y ↦ rw y tt
  | inr n ↦ rw n (refl, refl, refl, refl)
]

login_as-IsMinted :
    (crypto : Crypto) (d : Draw) (require_verification : Bool) (password : ℕ) (u : Option User)
    (db : Accounts)
    → IsMinted crypto d u db (login_as crypto d require_verification password u db)
unfolding login_as
login_as-IsMinted crypto d require_verification password none db = tt
login_as-IsMinted crypto d require_verification password (some u) db =
    elim (Bool-cases (password_matches crypto password u.password_hash)) [
      | inr wrong ↦ rw wrong tt
      | inl right ↦ elim (Bool-cases (require_verification && is_none u.email_verified_at)) [
        | inl unverified ↦ rw (right, unverified) tt
        | inr verified ↦ rw (right, verified) (passed-IsMinted crypto d u db)
      ]
    ]

-- A password login mints exactly when the address is not limited, the account is there, its password is
-- right, its email is verified where that is asked for, and it has no active second factor. It has then
-- added one session, of that user, and one refresh token, of that session, and returns the pair of
-- them. In every other case the database is as before.
pub login-mints :
    (crypto : Crypto) (d : Draw) (limited require_verification : Bool) (email : String)
    (password : ℕ) (db : Accounts)
    → let (r, db') = login crypto d limited require_verification email password db in
      let found = find_by_email crypto.lower email db in
      (mints r ≡ (not limited && needs_no_more crypto require_verification password found db))
      × (mints r ≡ false → db' ≡ db)
      × IsMinted crypto d found db (r, db')
unfolding login
login-mints crypto d true require_verification email password db = (refl, λ h. refl, tt)
login-mints crypto d false require_verification email password db =
    let found = find_by_email crypto.lower email db in
    let (a, b) = login_as-Mints crypto d require_verification password found db in
    (a, b, login_as-IsMinted crypto d require_verification password found db)

-- The row that is marked is no longer found, where its hash is unique.
mark-find_unused :
    (credential hash now : ℕ) (db : Accounts) (b : TotpBackupCode)
    → count_if (λ (b : TotpBackupCode). b.code_hash == hash) db.backup_codes ≤ 1
    → find_unused_by_hash credential hash db ≡ some b
    → find_unused_by_hash credential hash (mark_code_used b.id now db) ≡ none
unfolding find_unused_by_hash mark_code_used
mark-find_unused credential hash now db b unique found =
    find-marked (λ (b : TotpBackupCode). b.code_hash == hash) (is_unused_code credential hash)
      (λ (x : TotpBackupCode). x.id == b.id) (λ x. record x { used_at = some now }) b
      db.backup_codes (λ x h. ground (arith, h)) (λ x. ground arith) unique found (ground arith)

module _ (crypto : Crypto) (code : ℕ) where
  abbrev pub digest_of : ℕ
  digest_of = crypto.sha256 (crypto.strip code)

  -- Where the code is no code of the authenticator, a success leaves no such unused backup code.
  verify-spends :
      (now user : ℕ) (db : Accounts) (cred : TotpCredential)
      → find_active_by_user user db ≡ some cred
      → crypto.totp_verify (crypto.decrypt cred.secret_encrypted) code now ≡ false
      → count_if (λ (b : TotpBackupCode). b.code_hash == digest_of) db.backup_codes ≤ 1
      → (verify_for_login crypto now user code db).0 ≡ true
      → let db' = (verify_for_login crypto now user code db).1 in
        (find_unused_by_hash cred.id digest_of db' ≡ none)
        × (db'.totp_credentials ≡ db.totp_credentials)
  unfolding verify_for_login verify_with use_backup
  verify-spends now user db cred active wrong unique h =
      elim (Option-cases (find_unused_by_hash cred.id digest_of db)) [
        | inl e ↦ absurd (ground (arith, active, wrong, e, h))
        | inr (b, e) ↦
            rw (active, wrong, e)
              (mark-find_unused cred.id digest_of now db b unique e, unfold mark_code_used in refl)
      ]

  -- With no active credential change, and neither a code of the authenticator nor an unused backup code,
  -- a verification fails.
  verify-refuses :
      (now user : ℕ) (db : Accounts) (cred : TotpCredential)
      → find_active_by_user user db ≡ some cred
      → crypto.totp_verify (crypto.decrypt cred.secret_encrypted) code now ≡ false
      → find_unused_by_hash cred.id digest_of db ≡ none
      → verify_for_login crypto now user code db ≡ (false, db)
  unfolding verify_for_login verify_with use_backup
  verify-refuses now user db cred active wrong none_left = rw (active, wrong, none_left) refl

find_active-congr :
    (user : ℕ) (db db' : Accounts)
    → db'.totp_credentials ≡ db.totp_credentials
    → find_active_by_user user db' ≡ find_active_by_user user db
unfolding find_active_by_user
find_active-congr user db db' e =
    ap
      (find (λ (c : TotpCredential).
        c.user_id == user && is_some c.confirmed_at && is_none c.disabled_at))
      e

login_after-accounts :
    (crypto : Crypto) (d : Draw) (user : ℕ) (r : Bool × Accounts)
    → let db' = (login_after crypto d user r).1 in
      (db'.backup_codes ≡ r.1.backup_codes) × (db'.totp_credentials ≡ r.1.totp_credentials)
unfolding login_after issue
login_after-accounts crypto d user (true, db) = (refl, refl)
login_after-accounts crypto d user (false, db) = (refl, refl)

login_after-ok :
    (crypto : Crypto) (d : Draw) (user : ℕ) (r : Bool × Accounts)
    → is_ok (login_after crypto d user r).0 ≡ r.0
unfolding login_after issue
login_after-ok crypto d user (true, db) = refl
login_after-ok crypto d user (false, db) = refl

find_unused-congr :
    (credential hash : ℕ) (db db' : Accounts)
    → db'.backup_codes ≡ db.backup_codes
    → find_unused_by_hash credential hash db' ≡ find_unused_by_hash credential hash db
unfolding find_unused_by_hash
find_unused-congr credential hash db db' e = ap (find (is_unused_code credential hash)) e

-- The second login, where the first went through its verification.
second_refused :
    (crypto : Crypto) (d d' : Draw) (code user : ℕ) (db : Accounts) (cred : TotpCredential)
    → find_active_by_user user db ≡ some cred
    → crypto.totp_verify (crypto.decrypt cred.secret_encrypted) code d.now ≡ false
    → crypto.totp_verify (crypto.decrypt cred.secret_encrypted) code d'.now ≡ false
    → count_if (λ (b : TotpBackupCode). b.code_hash == digest_of crypto code) db.backup_codes ≤ 1
    → is_ok (login_after crypto d user (verify_for_login crypto d.now user code db)).0 ≡ true
    → let db' = (login_after crypto d user (verify_for_login crypto d.now user code db)).1 in
      (login_after crypto d' user (verify_for_login crypto d'.now user code db')).0
      ≡ err totp_invalid_code
unfolding login_after
second_refused crypto d d' code user db cred active wrong wrong' unique h =
    let r = verify_for_login crypto d.now user code db in
    let db' = (login_after crypto d user r).1 in
    let (spent, same) =
      verify-spends crypto code d.now user db cred active wrong unique
        (sym (login_after-ok crypto d user r) ∙ h) in
    let (codes, creds) = login_after-accounts crypto d user r in
    let refused =
      verify-refuses crypto code d'.now user db' cred
        (find_active-congr user db db' (creds ∙ same) ∙ active) wrong'
        (find_unused-congr cred.id (digest_of crypto code) r.1 db' codes ∙ spent) in
    ap (λ (q : Bool × Accounts). (login_after crypto d' user q).0) refused

-- A user with a second factor, whose code is at neither time a code of the authenticator: if a login
-- with it succeeds, which takes an unused backup code, then a further login with the same code is
-- refused, whatever challenge of the user it comes with. Hashes of backup codes are unique.
pub backup_code_once :
    (crypto : Crypto) (d d' : Draw) (limited : Bool) (challenge challenge' code user : ℕ)
    (db : Accounts) (cred : TotpCredential)
    → find_active_by_user user db ≡ some cred
    → crypto.challenge_user challenge d.now ≡ some user
    → crypto.challenge_user challenge' d'.now ≡ some user
    → crypto.totp_verify (crypto.decrypt cred.secret_encrypted) code d.now ≡ false
    → crypto.totp_verify (crypto.decrypt cred.secret_encrypted) code d'.now ≡ false
    → count_if (λ (b : TotpBackupCode). b.code_hash == digest_of crypto code) db.backup_codes ≤ 1
    → is_ok (login_totp crypto d limited challenge code db).0 ≡ true
    → (login_totp crypto d' false challenge' code
        (login_totp crypto d limited challenge code db).1).0
      ≡ err totp_invalid_code
unfolding login_totp login_challenged
backup_code_once crypto d d' true challenge challenge' code user db cred active c c' wrong wrong'
      unique h =
    absurd (cc)
backup_code_once crypto d d' false challenge challenge' code user db cred active c c' wrong wrong'
      unique h =
    rw (c, c') (second_refused crypto d d' code user db cred active wrong wrong' unique (rw c at h))
