-- ===== src/Iam/MagicLink/Single.antt =====
-- What a magic link lets in, and how often.
use oriion.Prelude.{
  ℕ, ◌+◌, ◌≤◌, ◌≡◌, refl, ap, ◌∙◌, Bool, true, false, not, Option, none, some, List, [], ◌∷◌, ◌++◌,
  ◌==◌, ltb, find, count_if, arith, Result, err, is_ok, Bool-cases, Option-cases, inl, inr,
}
use oriion.Prelude.Rows.{find-marked}
use oriion.Iam.Tokens.{Session, audit, create_session, create_token}
use oriion.Iam.Auth.{Draw, TokenPair, issue_token_pair}
use oriion.Iam.Accounts.{MagicLinkToken, Accounts, on_tokens}
use oriion.Iam.Accounts.Mailed.{is_active_link, find_active_link, mark_link_used}
use oriion.Iam.SecondFactor.{AccountError, token_not_found, Crypto, issue}
use oriion.Iam.MagicLink.{consume, consume_row, issue_ok}

-- The link is there, unused and not past its time.
abbrev pub is_good : ℕ → Option MagicLinkToken → Bool
is_good now none = false
is_good now (some row) = not (ltb row.expires_at now)

-- The sessions with a new one of the link's user.
abbrev pub with_session : Draw → Option MagicLinkToken → List Session → List Session
with_session d none ss = ss
with_session d (some row) ss =
    ss
    ++ record {
      id = d.session_id;
      user_id = row.user_id;
      expires_at = d.now + d.refresh_ttl;
      revoked_at = none;
    }
      ∷ []

-- What is accepted, and what it does.
abbrev pub Accepts :
    Draw → Option MagicLinkToken → Accounts → Result AccountError TokenPair × Accounts → Type 0
Accepts d link db (r, db') =
    (is_ok r ≡ is_good d.now link)
    × (is_ok r ≡ false → db' ≡ db)
    × (is_ok r ≡ true → db'.tokens.sessions ≡ with_session d link db.tokens.sessions)

issue_ok-Accepts :
    (crypto : Crypto) (d : Draw) (row : MagicLinkToken) (db : Accounts)
    → let db' =
        on_tokens
          (audit row.user_id "iam.auth.magic_link_login" row.user_id)
          (mark_link_used row.id d.now db) in
      is_ok (issue_ok crypto d row.user_id db').0 ≡ true
      × ((issue_ok crypto d row.user_id db').1.tokens.sessions
          ≡ with_session d (some row) db.tokens.sessions)
unfolding issue_ok issue issue_token_pair audit create_session create_token mark_link_used
issue_ok-Accepts crypto d row db = (refl, refl)

consume_row-Accepts :
    (crypto : Crypto) (d : Draw) (link : Option MagicLinkToken) (db : Accounts)
    → Accepts d link db (consume_row crypto d link db)
unfolding consume_row
consume_row-Accepts crypto d none db = (refl, (λ h. refl), λ h. refl)
consume_row-Accepts crypto d (some row) db = elim (Bool-cases (ltb row.expires_at d.now)) [
  | inl late ↦ rw late (refl, (λ h. refl), λ h. absurd (cc))
  | inr good ↦
      let (fine, made) = issue_ok-Accepts crypto d row db in
      rw good (fine, (λ h. absurd (cc)), λ h. made)
]

-- A link is accepted exactly when it is there, unused and not past its time: neither an enabled second
-- factor of its user nor the user's deletion has a say. What is accepted makes one session, of the
-- link's user; what is refused leaves the database as before.
pub consume-Accepts :
    (crypto : Crypto) (d : Draw) (plaintext : ℕ) (db : Accounts)
    → Accepts d (find_active_link (crypto.sha256 plaintext) db) db (consume crypto d plaintext db)
unfolding consume
consume-Accepts crypto d plaintext db =
    consume_row-Accepts crypto d (find_active_link (crypto.sha256 plaintext) db) db

mark-find_active :
    (hash now : ℕ) (db : Accounts) (row : MagicLinkToken)
    → count_if (λ (t : MagicLinkToken). t.token_hash == hash) db.magic_links ≤ 1
    → find_active_link hash db ≡ some row
    → find_active_link hash (mark_link_used row.id now db) ≡ none
unfolding find_active_link mark_link_used
mark-find_active hash now db row unique found =
    find-marked (λ (t : MagicLinkToken). t.token_hash == hash) (is_active_link hash)
      (λ (t : MagicLinkToken). t.id == row.id) (λ t. record t { used_at = some now }) row
      db.magic_links (λ x h. ground (arith, h)) (λ x. ground arith) unique found (ground arith)

consume_row-links :
    (crypto : Crypto) (d : Draw) (row : MagicLinkToken) (db : Accounts)
    → is_ok (consume_row crypto d (some row) db).0 ≡ true
    → (consume_row crypto d (some row) db).1.magic_links
      ≡ (mark_link_used row.id d.now db).magic_links
unfolding consume_row issue_ok issue issue_token_pair
consume_row-links crypto d row db h = elim (Bool-cases (ltb row.expires_at d.now)) [
  | inl late ↦ absurd (ground (arith, late, h))
  | inr good ↦ rw good refl
]

find_active-congr :
    (hash : ℕ) (db db' : Accounts)
    → db'.magic_links ≡ db.magic_links
    → find_active_link hash db' ≡ find_active_link hash db
unfolding find_active_link
find_active-congr hash db db' e = ap (find (is_active_link hash)) e

-- A link works once: after a success, the same link is refused at any later time. Hashes are unique.
pub consume-once :
    (crypto : Crypto) (d d' : Draw) (plaintext : ℕ) (db : Accounts)
    → count_if (λ (t : MagicLinkToken). t.token_hash == crypto.sha256 plaintext) db.magic_links ≤ 1
    → is_ok (consume crypto d plaintext db).0 ≡ true
    → (consume crypto d' plaintext (consume crypto d plaintext db).1).0 ≡ err token_not_found
unfolding consume
consume-once crypto d d' plaintext db unique h =
    elim (Option-cases (find_active_link (crypto.sha256 plaintext) db)) [
      | inl e ↦ absurd (unfold consume_row in ground (arith, e, h))
      | inr (row, e) ↦
          let h' : is_ok (consume_row crypto d (some row) db).0 ≡ true = rw e at h in
          let gone =
            find_active-congr (crypto.sha256 plaintext) (mark_link_used row.id d.now db)
              (consume_row crypto d (some row) db).1 (consume_row-links crypto d row db h')
            ∙ mark-find_active (crypto.sha256 plaintext) d.now db row unique e in
          rw e (rw gone (unfold consume_row in refl))
    ]
