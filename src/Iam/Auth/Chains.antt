-- ===== src/Iam/Auth/Chains.antt =====
-- Over any history of requests a rotation chain has at most one refresh token that still works.
use oriion.Prelude.{
  ℕ, ◌+◌, ◌≤◌, ◌≡◌, refl, Bool, false, ◌&&◌, none, some, List, [], ◌∷◌, ◌++◌, ◌==◌, arith, count_if,
  update_if, is_none, Option-cases, inl, inr,
}
use oriion.Prelude.Rows.{find-append, count_if-append, count_if-update_le, count_if-update_lt}
use oriion.Iam.Tokens.{
  Db, Session, RefreshToken, audit, create_session, find_session, revoke_session_row, create_token,
  find_by_hash, mark_used_and_link, revoke_chain, revoke_for_session, revoke_all_others_for_user,
  revoke_tokens_except_session, revoke_token,
}
use oriion.Iam.Auth.Rotation.{is_spent}
use oriion.Iam.Auth.{
  Draw, issue_token_pair, rotate_refresh, logout, revoke_session, revoke_all_other_sessions,
  in_request,
}

-- The token can still be exchanged, as far as its own row says.
abbrev pub is_live : ℕ → RefreshToken → Bool
is_live chain t = t.rotation_chain_id == chain && (is_none t.used_at && is_none t.revoked_at)

abbrev pub live_tokens : ℕ → Db → ℕ
live_tokens chain db = count_if (is_live chain) db.refresh_tokens

-- What reaches the service: a login that passed its checks, and the requests on tokens and sessions.
pub data AuthRequest : Type 0 where
  logs_in : Draw → ℕ → AuthRequest
  refreshes : Draw → Bool → ℕ → AuthRequest
  logs_out : Draw → ℕ → AuthRequest
  revokes : ℕ → ℕ → ℕ → AuthRequest
  revokes_others : ℕ → ℕ → ℕ → AuthRequest

module _ (hash : ℕ → ℕ) where
  -- A request in a transaction that no other overlaps; two refreshes that overlap are not modelled.
  unfoldable pub serve : AuthRequest → Db → Db
  serve (logs_in d user) db = (issue_token_pair hash d user db).1
  serve (refreshes d limited token) db = (in_request (rotate_refresh hash d limited token) db).1
  serve (logs_out d token) db = logout hash d token db
  serve (revokes now user sid) db = (in_request (revoke_session now user sid) db).1
  serve (revokes_others now user keep) db = revoke_all_other_sessions now user keep db

  unfoldable pub serve_all : List AuthRequest → Db → Db
  serve_all [] db = db
  serve_all (r ∷ rs) db = serve_all rs (serve r db)

  -- `uuid4` gave a login a chain that no stored token has.
  abbrev pub DrawsFresh : List AuthRequest → Db → Type 0
  DrawsFresh [] db = Unit
  DrawsFresh (logs_in d user ∷ rs) db =
      (count_if (λ (t : RefreshToken). t.rotation_chain_id == d.chain_id) db.refresh_tokens ≡ 0)
      × DrawsFresh rs (serve (logs_in d user) db)
  DrawsFresh (r ∷ rs) db = DrawsFresh rs (serve r db)

  module _ (chain : ℕ) where
    live_in_fresh :
        (c : ℕ) (ts : List RefreshToken)
        → count_if (λ (t : RefreshToken). t.rotation_chain_id == c) ts ≡ 0
        → chain ≡ c
        → count_if (is_live chain) ts ≡ 0
    live_in_fresh c [] h e = refl
    live_in_fresh c (t ∷ ts) h e = ground (arith, live_in_fresh c ts)

    live-logs_in :
        (d : Draw) (user : ℕ) (db : Db)
        → count_if (λ (t : RefreshToken). t.rotation_chain_id == d.chain_id) db.refresh_tokens ≡ 0
        → live_tokens chain db ≤ 1
        → live_tokens chain (issue_token_pair hash d user db).1 ≤ 1
    unfolding issue_token_pair create_session create_token audit
    live-logs_in d user db fresh h = ground (
      arith,
      count_if-append (is_live chain) db.refresh_tokens (
          record {
            id = d.token_id;
            session_id = d.session_id;
            token_hash = hash d.plaintext;
            rotation_chain_id = d.chain_id;
            expires_at = d.now + d.refresh_ttl;
            used_at = none;
            rotated_to = none;
            revoked_at = none;
          }
          ∷ []),
      live_in_fresh d.chain_id db.refresh_tokens fresh,
    )

    live-update_revoked :
        (m : RefreshToken → Bool) (now : ℕ) (ts : List RefreshToken)
        → count_if (is_live chain) (update_if m (revoke_token now) ts) ≤ count_if (is_live chain) ts
    live-update_revoked m now ts =
        count_if-update_le (is_live chain) m (revoke_token now) ts (λ x. ground arith)

    live-revoke_chain :
        (c now : ℕ) (db : Db) → live_tokens chain (revoke_chain c now db) ≤ live_tokens chain db
    unfolding revoke_chain
    live-revoke_chain c now db = live-update_revoked _ now db.refresh_tokens

    live-revoke_for_session :
        (c now : ℕ) (db : Db)
        → live_tokens chain (revoke_for_session c now db) ≤ live_tokens chain db
    unfolding revoke_for_session
    live-revoke_for_session c now db = live-update_revoked _ now db.refresh_tokens

    live-revoke_others :
        (user keep now : ℕ) (db : Db)
        → live_tokens chain (revoke_tokens_except_session user keep now db) ≤ live_tokens chain db
    unfolding revoke_tokens_except_session
    live-revoke_others user keep now db = live-update_revoked _ now db.refresh_tokens

    live-logout :
        (d : Draw) (token : ℕ) (db : Db)
        → live_tokens chain (logout hash d token db) ≤ live_tokens chain db
    unfolding logout revoke_session_row audit
    live-logout d token db = elim (Option-cases (find_by_hash (hash token) db)) [
      | inl unknown ↦ ground arith
      | inr (t, found) ↦ ground (
        arith,
        live-revoke_chain t.rotation_chain_id d.now (revoke_session_row t.session_id d.now db),
      )
    ]

    live-rotated :
        (d : Draw) (token : ℕ) (db : Db) (old : RefreshToken) (s : Session)
        → find_by_hash (hash token) db ≡ some old
        → is_spent old ≡ false
        → live_tokens chain (
            mark_used_and_link old.id d.token_id d.now (
              create_token d.token_id s.id
                (hash d.plaintext)
                old.rotation_chain_id
                (d.now + d.refresh_ttl)
                db))
          ≤ live_tokens chain db
    unfolding mark_used_and_link create_token find_by_hash
    live-rotated d token db old s found fresh =
        let new : List RefreshToken =
          record {
            id = d.token_id;
            session_id = s.id;
            token_hash = hash d.plaintext;
            rotation_chain_id = old.rotation_chain_id;
            expires_at = d.now + d.refresh_ttl;
            used_at = none;
            rotated_to = none;
            revoked_at = none;
          }
          ∷ [] in
        let m = λ (t : RefreshToken). t.id == old.id in
        let f =
          λ (t : RefreshToken). record t { used_at = some d.now; rotated_to = some d.token_id } in
        let p = λ (t : RefreshToken). t.token_hash == hash token in
        let found' = find-append p old db.refresh_tokens new found in
        ground (
          arith,
          count_if-append (is_live chain) db.refresh_tokens new,
          count_if-update_le (is_live chain) m f (db.refresh_tokens ++ new) (λ x. ground arith),
          count_if-update_lt (is_live chain) m p f old (db.refresh_tokens ++ new)
              (λ x. ground arith) found',
        )

    live-refreshes :
        (d : Draw) (limited : Bool) (token : ℕ) (db : Db)
        → live_tokens chain (in_request (rotate_refresh hash d limited token) db).1
          ≤ live_tokens chain db
    unfolding in_request rotate_refresh audit
    live-refreshes d limited token db = elim (Option-cases (find_by_hash (hash token) db)) [
      | inl unknown ↦ ground arith
      | inr (old, found) ↦ elim (Option-cases (find_session old.session_id db)) [
        | inl missing ↦ ground arith
        | inr (s, there) ↦ ground (arith, live-rotated d token db old s found)
      ]
    ]

    live-revokes :
        (now user sid : ℕ) (db : Db)
        → live_tokens chain db ≤ 1
        → live_tokens chain (in_request (revoke_session now user sid) db).1 ≤ 1
    unfolding in_request revoke_session audit revoke_session_row
    live-revokes now user sid db h =
        ground (arith, live-revoke_for_session sid now (revoke_session_row sid now db))

    live-revokes_others :
        (now user keep : ℕ) (db : Db)
        → live_tokens chain (revoke_all_other_sessions now user keep db) ≤ live_tokens chain db
    unfolding revoke_all_other_sessions audit revoke_all_others_for_user
    live-revokes_others now user keep db =
        live-revoke_others user keep now (revoke_all_others_for_user user keep now db)

    live-serve :
        (r : AuthRequest) (rs : List AuthRequest) (db : Db)
        → DrawsFresh (r ∷ rs) db
        → live_tokens chain db ≤ 1
        → (live_tokens chain (serve r db) ≤ 1) × DrawsFresh rs (serve r db)
    unfolding serve
    live-serve (logs_in d user) rs db f h = (live-logs_in d user db f.0 h, f.1)
    live-serve (refreshes d limited token) rs db f h =
        (omega (arith, live-refreshes d limited token db), f)
    live-serve (logs_out d token) rs db f h = (omega (arith, live-logout d token db), f)
    live-serve (revokes now user sid) rs db f h = (live-revokes now user sid db h, f)
    live-serve (revokes_others now user keep) rs db f h =
        (omega (arith, live-revokes_others now user keep db), f)

    -- From a database where the chain has at most one token that is neither used nor revoked, and
    -- whatever the requests, refused ones and replays included, it has at most one afterwards, if they
    -- come one after the other, none beginning before the one before it is committed, and each login
    -- draws a chain that no stored token has.
    pub serve_all-one_live :
        (rs : List AuthRequest) (db : Db)
        → DrawsFresh rs db
        → live_tokens chain db ≤ 1
        → live_tokens chain (serve_all rs db) ≤ 1
    unfolding serve_all
    serve_all-one_live [] db f h = h
    serve_all-one_live (r ∷ rs) db f h =
        let (one, f') = live-serve r rs db f h in serve_all-one_live rs (serve r db) f' one
