-- ===== src/Auth/Access.antt =====
-- auth.service.ts: what a user gets can be used.
use Prim.Native.Nat.{◌/◌}
use hau_cex.Common.{
  ℕ, ◌+◌, ◌<◌, ◌≡◌, refl, sym, subst, ap, ◌∙◌, true, false, List, [], ◌∷◌, ◌++◌, some, String, ltb,
  ==_iff, arith,
}
use hau_cex.Database.Schema.{Db, User, Session}
use hau_cex.Database.Table.{find_first, update_first, exists, find_first-update_self}
use hau_cex.Database.Tx.{ok}
use hau_cex.Auth.{
  JwtPayload, AuthPlatform, LoginDto, TokensResponse, Fresh, has_email, session_has_id, user_has_id,
  is_revoked, is_locked, revoke, refresh, login, new_session, set_login, generate_tokens,
  payload_of, response, info,
}
use hau_cex.Auth.Rotation.{find_first-last}

exists-update :
    (id i now : ℕ) (xs : List Session)
    → exists (session_has_id id) (update_first (session_has_id i) (revoke now) xs)
      ≡ exists (session_has_id id) xs
exists-update id i now [] = refl
exists-update id i now (x ∷ xs) = ground (arith, exists-update id i now xs)

module _ (auth : AuthPlatform) where
  -- What a refresh needs.
  refresh-accepts :
      (token : String) (fresh : Fresh) (db : Db) (p : JwtPayload) (s : Session) (u : User)
      → auth.verify fresh.now token ≡ some p
      → find_first (session_has_id p.session_id) db.sessions ≡ some s
      → is_revoked s ≡ false
      → ltb s.expires_at fresh.now ≡ false
      → auth.compare token s.refresh_token_hash ≡ true
      → find_first (user_has_id p.sub) db.users ≡ some u
      → is_locked u.status ≡ false
      → exists
          (session_has_id fresh.session_id)
          (update_first (session_has_id s.id) (revoke fresh.now) db.sessions)
        ≡ false
      → (refresh auth token fresh db).0
        ≡ ok (response auth (info u) (generate_tokens auth (info u) fresh))
  unfolding refresh
  refresh-accepts token fresh db p s u e f a b c g d n = ground (arith, e, f, a, b, c, g, d, n)

  login-at :
      (dto : LoginDto) (fresh : Fresh) (db : Db) (u : User) (r : TokensResponse)
      → find_first (has_email dto.email) db.users ≡ some u
      → (login auth dto fresh db).0 ≡ ok r
      → (is_locked u.status ≡ false)
        × (exists (session_has_id fresh.session_id) db.sessions ≡ false)
        × (r ≡ response auth (info u) (generate_tokens auth (info u) fresh))
        × ((login auth dto fresh db).1.sessions
            ≡ db.sessions ++ new_session u.id (generate_tokens auth (info u) fresh) ∷ [])
        × ((login auth dto fresh db).1.users
            ≡ update_first (user_has_id u.id) (set_login auth fresh.now) db.users)
  unfolding login
  login-at dto fresh db u r e h = ground (arith, e)

  -- The session of a new token, and its user, are what a refresh needs.
  fresh_session :
      (u v : User) (fresh later : Fresh) (sessions : List Session) (db : Db)
      → db.sessions ≡ sessions ++ new_session u.id (generate_tokens auth (info u) fresh) ∷ []
      → exists (session_has_id fresh.session_id) sessions ≡ false
      → find_first (user_has_id u.id) db.users ≡ some v
      → is_locked v.status ≡ false
      → later.now / 1000 < fresh.now / 1000 + auth.refresh_expires_in / 1000
      → exists (session_has_id later.session_id) db.sessions ≡ false
      → (refresh auth (generate_tokens auth (info u) fresh).refresh_token later db).0
        ≡ ok (response auth (info v) (generate_tokens auth (info v) later))
  fresh_session u v fresh later sessions db d unused found unlocked in_time apart =
      let tokens = generate_tokens auth (info u) fresh in
      let s = new_session u.id tokens in
      refresh-accepts tokens.refresh_token later db (payload_of (info u) fresh.session_id) s v
        (auth.verify-sign fresh.now later.now (payload_of (info u) fresh.session_id) in_time)
        (ap (find_first (session_has_id fresh.session_id)) d
          ∙ find_first-last auth fresh.session_id sessions s unused ((==_iff _ _).1 refl))
        refl (ground (arith, in_time)) (auth.compare-hash fresh.token_salt tokens.refresh_token)
        found unlocked (exists-update later.session_id s.id later.now db.sessions ∙ apart)

  -- The refresh token that a login answers with can be refreshed before the second in which it
  -- expires, if the user is found by his id and the next session's id is new.
  pub login-refresh :
      (dto : LoginDto) (fresh later : Fresh) (db : Db) (u : User) (r : TokensResponse)
      → find_first (has_email dto.email) db.users ≡ some u
      → find_first (user_has_id u.id) db.users ≡ some u
      → (login auth dto fresh db).0 ≡ ok r
      → later.now / 1000 < fresh.now / 1000 + auth.refresh_expires_in / 1000
      → exists (session_has_id later.session_id) (login auth dto fresh db).1.sessions ≡ false
      → (next : TokensResponse) × ((refresh auth r.refresh_token later
            (login auth dto fresh db).1).0
          ≡ ok next)
  login-refresh dto fresh later db u r e own h in_time apart =
      let (unlocked, unused, answer, sessions, users) = login-at dto fresh db u r e h in
      let v = set_login auth fresh.now u in
      (
        response auth (info v) (generate_tokens auth (info v) later),
        subst
            (λ x.
              (refresh auth x.refresh_token later (login auth dto fresh db).1).0
              ≡ ok (response auth (info v) (generate_tokens auth (info v) later)))
            (sym answer)
            (fresh_session u v fresh later db.sessions (login auth dto fresh db).1 sessions unused
              (ap (find_first (user_has_id u.id)) users
                ∙ find_first-update_self (user_has_id u.id) (set_login auth fresh.now) db.users u
                    (λ y. refl) own)
              unlocked in_time apart),
      )
