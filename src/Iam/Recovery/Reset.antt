-- ===== src/Iam/Recovery/Reset.antt =====
-- What a password reset leaves behind.
use oriion.Prelude.{
  ℕ, ◌≡◌, ◌≢◌, refl, sym, ap, ◌∙◌, String, Bool, true, false, ◌&&◌, none, some, List, [], ◌∷◌, ◌++◌,
  ◌==◌, find, count_if, update_if, is_none, is_some, arith, All, ok, err, Bool-cases, Option-cases,
  inl, inr,
}
use oriion.Prelude.Rows.{count_if-append, find-passes, find-update}
use oriion.Iam.Tokens.{
  Db, Session, RefreshToken, audit, find_session, find_by_hash, revoke_all_for_user, revoke_row,
}
use oriion.Iam.Auth.{Draw, TokenPair, rotate_refresh, in_request}
use oriion.Iam.Accounts.{User, PasswordResetToken, Accounts, find_by_email, update_password_hash}
use oriion.Iam.Accounts.Mailed.{
  find_reset, create_reset, mark_reset_used, is_unused_reset, revoke_unused_resets,
}
use oriion.Iam.SecondFactor.{token_not_found, Crypto}
use oriion.Iam.Recovery.{
  forgot_password, forgot_for, on_reset_reuse, apply_reset, reset_row, reset_password,
}

abbrev pub IsLockedOut : ℕ → Db → Type 0
IsLockedOut user db = All (λ s. s.user_id ≡ user → is_some s.revoked_at ≡ true) db.sessions

all_revoked :
    (user now : ℕ) (ss : List Session)
    → All
        (λ s. s.user_id ≡ user → is_some s.revoked_at ≡ true)
        (update_if (λ (s : Session). s.user_id == user && is_none s.revoked_at) (revoke_row now) ss)
all_revoked user now [] = tt
all_revoked user now (s ∷ ss) = (ground arith, all_revoked user now ss)

found-All :
    (P : Session → Type 0) (p : Session → Bool) (a : Session) (xs : List Session)
    → All P xs
    → find p xs ≡ some a
    → P a
found-All P p a [] h e = absurd (cc)
found-All P p a (x ∷ xs) h e = elim (Bool-cases (p x)) [
  | inl y ↦ let k : x ≡ a = ground (arith, y, e) in rw (sym k) h.0
  | inr n ↦ found-All P p a xs h.1 (ground (arith, n, e))
]

found_id : (sid : ℕ) (s : Session) (db : Db) → find_session sid db ≡ some s → s.id ≡ sid
unfolding find_session
found_id sid s db e = ground (arith, find-passes (λ (s : Session). s.id == sid) s db.sessions e)

-- A rotation goes through for a session that is there and not revoked.
module _ (hash : ℕ → ℕ) (d : Draw) (limited : Bool) (token : ℕ) (db : Db) (pair : TokenPair)
    (h : (rotate_refresh hash d limited token db).0 ≡ ok pair) where
  rotate-open_in :
      (old : RefreshToken)
      → find_by_hash (hash token) db ≡ some old
      → (s : Session) → find_session old.session_id db ≡ some s
      → (pair.session ≡ s.id) × (is_some s.revoked_at ≡ false)
  unfolding rotate_refresh
  rotate-open_in old found s there =
      (ground (arith, h, found, there), ground (arith, h, found, there))

  rotate-known : find_by_hash (hash token) db ≢ none
  unfolding rotate_refresh
  rotate-known e = ground (arith, h, e)

  rotate-has_session :
      (old : RefreshToken)
      → find_by_hash (hash token) db ≡ some old
      → find_session old.session_id db ≢ none
  unfolding rotate_refresh
  rotate-has_session old found e = ground (arith, h, found, e)

  rotate-open_session :
      (s : Session) × (find_session pair.session db ≡ some s) × (is_some s.revoked_at ≡ false)
  rotate-open_session = elim (Option-cases (find_by_hash (hash token) db)) [
    | inl unknown ↦ absurd (rotate-known unknown)
    | inr (old, found) ↦ elim (Option-cases (find_session old.session_id db)) [
      | inl missing ↦ absurd (rotate-has_session old found missing)
      | inr (s, there) ↦
          let (e, live) = rotate-open_in old found s there in
          (s, ap (λ n. find_session n db) (e ∙ found_id old.session_id s db there) ∙ there, live)
    ]
  ]

-- Who is locked out rotates no refresh token.
IsLockedOut-refuses :
    (hash : ℕ → ℕ) (user : ℕ) (d : Draw) (limited : Bool) (token : ℕ) (db : Db) (pair : TokenPair)
    → IsLockedOut user db
    → (rotate_refresh hash d limited token db).0 ≡ ok pair
    → (s : Session) × (find_session pair.session db ≡ some s) × (s.user_id ≢ user)
unfolding find_session
IsLockedOut-refuses hash user d limited token db pair locked h =
    let (s, there, live) = rotate-open_session hash d limited token db pair h in
    (
      s,
      there,
      λ mine.
          let gone =
            found-All (λ s. s.user_id ≡ user → is_some s.revoked_at ≡ true) _ s db.sessions locked
              there in
          absurd (ground (arith, gone mine, live)),
    )

-- A used reset token is never good again.
used_refused :
    (crypto : Crypto) (now plaintext new_password : ℕ) (db : Accounts) (row : PasswordResetToken)
    → find_reset (crypto.sha256 plaintext) db ≡ some row
    → is_some row.used_at ≡ true
    → (reset_password crypto now plaintext new_password db).0 ≡ err token_not_found
unfolding reset_password reset_row on_reset_reuse apply_reset
used_refused crypto now plaintext new_password db row found used = ground (arith, found, used)

passwords_set :
    (user digest : ℕ) (us : List User)
    → All
        (λ u. u.id ≡ user → u.password_hash ≡ some digest)
        (update_if (λ (u : User). u.id == user) (λ u. record u { password_hash = some digest }) us)
passwords_set user digest [] = tt
passwords_set user digest (u ∷ us) = (ground arith, passwords_set user digest us)

marked_reset :
    (hash now : ℕ) (db : Accounts) (row : PasswordResetToken)
    → find_reset hash db ≡ some row
    → find_reset hash (mark_reset_used row.id now db) ≡ some (record row { used_at = some now })
unfolding find_reset mark_reset_used
marked_reset hash now db row found = ground (
  arith,
  find-update (λ (t : PasswordResetToken). t.token_hash == hash)
      (λ (t : PasswordResetToken). t.id == row.id) (λ t. record t { used_at = some now }) row
      db.password_resets (λ x. refl) found,
)

-- The account is the new password's alone.
abbrev pub Secured : Crypto → ℕ → ℕ → PasswordResetToken → Accounts → Type 0
Secured crypto plaintext new_password row db' =
    All (λ u. u.id ≡ row.user_id → u.password_hash ≡ some (crypto.password_digest new_password))
      db'.users
    × ((d : Draw) (limited : Bool) (token : ℕ) (pair : TokenPair)
        → (rotate_refresh crypto.sha256 d limited token db'.tokens).0 ≡ ok pair
        → (s : Session) × (find_session pair.session db'.tokens ≡ some s)
          × (s.user_id ≢ row.user_id))
    × ((later other : ℕ)
        → (reset_password crypto later plaintext other db').0 ≡ err token_not_found)

apply_reset-Secured :
    (crypto : Crypto) (now plaintext new_password : ℕ) (db : Accounts) (row : PasswordResetToken)
    → find_reset (crypto.sha256 plaintext) db ≡ some row
    → Secured crypto plaintext new_password row (apply_reset crypto now new_password row db).1
unfolding apply_reset update_password_hash mark_reset_used revoke_all_for_user audit
apply_reset-Secured crypto now plaintext new_password db row found = (
  passwords_set row.user_id (crypto.password_digest new_password) db.users,
  λ d limited token pair h.
      IsLockedOut-refuses crypto.sha256 row.user_id d limited token _ pair
        (all_revoked row.user_id now db.tokens.sessions) h,
  λ later other.
      used_refused crypto later plaintext other (apply_reset crypto now new_password row db).1
        (record row { used_at = some now })
        (unfold find_reset mark_reset_used in
          marked_reset (crypto.sha256 plaintext) now db row found)
        refl,
)

reset-applies :
    (crypto : Crypto) (now plaintext new_password : ℕ) (db : Accounts)
    → (reset_password crypto now plaintext new_password db).0 ≡ ok tt
    → (row : PasswordResetToken) × (find_reset (crypto.sha256 plaintext) db ≡ some row)
      × (reset_password crypto now plaintext new_password db
          ≡ apply_reset crypto now new_password row db)
unfolding reset_password reset_row on_reset_reuse
reset-applies crypto now plaintext new_password db h =
    elim (Option-cases (find_reset (crypto.sha256 plaintext) db)) [
      | inl e ↦ absurd (ground (arith, e, h))
      | inr (row, e) ↦ (row, e, ground (arith, e, h))
    ]

-- A password reset that succeeds is for the owner of its token's row, and leaves the account to the new
-- password: every row of that user has its digest, a refresh that still succeeds, at any time and with
-- any token, is for a session of another user, and the reset token is refused from then on.
pub reset_password-Secured :
    (crypto : Crypto) (now plaintext new_password : ℕ) (db : Accounts)
    → (reset_password crypto now plaintext new_password db).0 ≡ ok tt
    → (row : PasswordResetToken) × (find_reset (crypto.sha256 plaintext) db ≡ some row)
      × Secured crypto plaintext new_password row
          (reset_password crypto now plaintext new_password db).1
reset_password-Secured crypto now plaintext new_password db h =
    let (row, found, e) = reset-applies crypto now plaintext new_password db h in
    (row, found, rw e (apply_reset-Secured crypto now plaintext new_password db row found))

-- A request that presents a consumed reset token is refused, and so rolled back: the database is as
-- before, the chain and the user's sessions are not revoked, and the audit log has no row of it.
pub request_reset_reuse_keeps :
    (crypto : Crypto) (now plaintext new_password : ℕ) (db : Accounts) (row : PasswordResetToken)
    → find_reset (crypto.sha256 plaintext) db ≡ some row
    → is_some row.used_at ≡ true
    → in_request (reset_password crypto now plaintext new_password) db ≡ (err token_not_found, db)
unfolding reset_password reset_row on_reset_reuse in_request
request_reset_reuse_keeps crypto now plaintext new_password db row found used =
    ground (arith, found, used)

none_unused :
    (user now : ℕ) (ts : List PasswordResetToken)
    → count_if
        (is_unused_reset user)
        (update_if (is_unused_reset user) (λ t. record t { revoked_at = some now }) ts)
      ≡ 0
none_unused user now [] = refl
none_unused user now (t ∷ ts) = ground (arith, none_unused user now ts)

count_if-appended :
    (q : PasswordResetToken → Bool) (xs : List PasswordResetToken) (x : PasswordResetToken)
    → count_if q xs ≡ 0
    → q x ≡ true
    → count_if q (xs ++ x ∷ []) ≡ 1
count_if-appended q xs x h k = ground (arith, h, k, count_if-append q xs (x ∷ []))

-- After a request for a reset, by an account's email and not limited, the account has exactly one reset
-- token that is neither used nor revoked.
pub forgot_password-one_unused :
    (crypto : Crypto) (now id plaintext chain : ℕ) (email : String) (db : Accounts) (user : User)
    → find_by_email crypto.lower email db ≡ some user
    → count_if
        (is_unused_reset user.id)
        (forgot_password crypto now id plaintext chain false email db).1.password_resets
      ≡ 1
unfolding forgot_password forgot_for create_reset revoke_unused_resets
forgot_password-one_unused crypto now id plaintext chain email db user found = rw found (
    count_if-appended (is_unused_reset user.id) _ _ (none_unused user.id now db.password_resets)
      (ground arith))
