-- ===== src/Auth/Rotation.antt =====
-- auth.service.ts: a refresh token is used once, and not after a logout.
use hau_cex.Common.{
  ℕ, ◌+◌, ◌≡◌, ◌≢◌, refl, sym, subst, ap, ◌∙◌, true, false, not, ◌&&◌, List, [], ◌∷◌, ◌++◌, none,
  some, inl, inr, String, ==_iff, if◌then◌else◌, Option-cases, arith,
}
use hau_cex.Database.Schema.{Db, User, Session}
use hau_cex.Database.Table.{
  find_first, update_first, exists, find_first_holds, find_first-update_self,
  find_first-update_many,
}
use hau_cex.Database.Tx.{Error, ok, err}
use hau_cex.Auth.{
  JwtPayload, AuthPlatform, TokensResponse, Fresh, session_has_id, is_revoked, revoke, unauthorized,
  refresh, logout, user_has_id, new_session, generate_tokens, response, info,
}

module _ (auth : AuthPlatform) where
  -- A token whose session is revoked, or which cannot be read any more.
  abbrev Refused : String → Fresh → Db → Type 0
  Refused token fresh db =
      (message : String) × (refresh auth token fresh db ≡ (err (unauthorized message), db))

  abbrev IsDead : ℕ → Db → Type 0
  IsDead id db =
      (s : Session) × (find_first (session_has_id id) db.sessions ≡ some s) × (is_revoked s ≡ true)

  no_payload :
      (token : String) (fresh : Fresh) (db : Db)
      → auth.verify fresh.now token ≡ none
      → refresh auth token fresh db ≡ (err (unauthorized "Invalid refresh token"), db)
  unfolding refresh
  no_payload token fresh db e = ground arith

  dead_session :
      (token : String) (fresh : Fresh) (db : Db) (p : JwtPayload) (s : Session)
      → auth.verify fresh.now token ≡ some p
      → find_first (session_has_id p.session_id) db.sessions ≡ some s
      → is_revoked s ≡ true
      → refresh auth token fresh db ≡ (err (unauthorized "Session has been revoked"), db)
  unfolding refresh
  dead_session token fresh db p s e f r = ground (arith, e, f, r)

  -- A token is refused once its session is revoked.
  Refused-dead :
      (token : String) (t : ℕ) (p : JwtPayload) (again : Fresh) (db : Db)
      → auth.verify t token ≡ some p
      → IsDead p.session_id db
      → Refused token again db
  Refused-dead token t p again db e (s, f, r) = elim (Option-cases (auth.verify again.now token)) [
    | inl none_ ↦ ("Invalid refresh token", no_payload token again db none_)
    | inr (q, g) ↦ (
      "Session has been revoked",
      dead_session token again db q s g
          (ap (λ x. find_first (session_has_id x.session_id) db.sessions)
              (auth.verify-steady again.now t token q p g e)
            ∙ f)
          r,
    )
  ]

  no_session :
      (token : String) (fresh : Fresh) (db : Db) (p : JwtPayload) (r : TokensResponse)
      → auth.verify fresh.now token ≡ some p
      → find_first (session_has_id p.session_id) db.sessions ≡ none
      → (refresh auth token fresh db).0 ≢ ok r
  unfolding refresh
  no_session token fresh db p r e f h = ground arith

  no_user :
      (token : String) (fresh : Fresh) (db : Db) (p : JwtPayload) (s : Session) (r : TokensResponse)
      → auth.verify fresh.now token ≡ some p
      → find_first (session_has_id p.session_id) db.sessions ≡ some s
      → find_first (user_has_id p.sub) db.users ≡ none
      → (refresh auth token fresh db).0 ≢ ok r
  unfolding refresh
  no_user token fresh db p s r e f g h = ground arith

  abbrev rotated : Session → User → Fresh → Db → List Session
  rotated s u fresh db =
      update_first (session_has_id s.id) (revoke fresh.now) db.sessions
      ++ new_session u.id (generate_tokens auth (info u) fresh) ∷ []

  -- A refresh that succeeds, of the rows that it read.
  of_rows :
      (token : String) (fresh : Fresh) (db : Db) (p : JwtPayload) (s : Session) (u : User)
      (r : TokensResponse)
      → auth.verify fresh.now token ≡ some p
      → find_first (session_has_id p.session_id) db.sessions ≡ some s
      → find_first (user_has_id p.sub) db.users ≡ some u
      → (refresh auth token fresh db).0 ≡ ok r
      → ((refresh auth token fresh db).1.sessions ≡ rotated s u fresh db)
        × (exists
              (session_has_id fresh.session_id)
              (update_first (session_has_id s.id) (revoke fresh.now) db.sessions)
            ≡ false)
        × (r ≡ response auth (info u) (generate_tokens auth (info u) fresh))
  unfolding refresh
  of_rows token fresh db p s u r e f g h = ground arith

  find_first-append :
      (id : ℕ) (xs ys : List Session) (s : Session)
      → find_first (session_has_id id) xs ≡ some s
      → find_first (session_has_id id) (xs ++ ys) ≡ some s
  find_first-append id [] ys s h = cc
  find_first-append id (x ∷ xs) ys s h = ground (arith, find_first-append id xs ys s)

  pub find_first-last :
      (id : ℕ) (xs : List Session) (s : Session)
      → exists (session_has_id id) xs ≡ false
      → session_has_id id s ≡ true
      → find_first (session_has_id id) (xs ++ s ∷ []) ≡ some s
  find_first-last id [] s h k = rw k refl
  find_first-last id (x ∷ xs) s h k = ground (arith, find_first-last id xs s)

  -- What a refresh leaves: the session of its token is revoked, and the new one is there.
  record Rotates (token : String) (fresh : Fresh) (db : Db) (r : TokensResponse) : Type 0 where
    pub payload : JwtPayload
    pub user : User
    pub read : auth.verify fresh.now token ≡ some payload
    pub dead : IsDead payload.session_id (refresh auth token fresh db).1
    pub born :
        find_first (session_has_id fresh.session_id) (refresh auth token fresh db).1.sessions
        ≡ some (new_session user.id (generate_tokens auth (info user) fresh))
    pub answer : r ≡ response auth (info user) (generate_tokens auth (info user) fresh)

  Rotates-rows :
      (token : String) (fresh : Fresh) (db : Db) (p : JwtPayload) (s : Session) (u : User)
      (r : TokensResponse)
      → auth.verify fresh.now token ≡ some p
      → find_first (session_has_id p.session_id) db.sessions ≡ some s
      → find_first (user_has_id p.sub) db.users ≡ some u
      → (refresh auth token fresh db).0 ≡ ok r
      → Rotates token fresh db r
  Rotates-rows token fresh db p s u r e f g h =
      let (sessions, unused, answer) = of_rows token fresh db p s u r e f g h in
      let new = new_session u.id (generate_tokens auth (info u) fresh) in
      record {
        payload = p;
        user = u;
        read = e;
        dead = (
          revoke fresh.now s,
          ap (find_first (session_has_id p.session_id)) sessions
              ∙ find_first-append p.session_id _ (new ∷ []) (revoke fresh.now s) (
                  subst
                    (λ i.
                      find_first (session_has_id p.session_id)
                        (update_first (session_has_id i) (revoke fresh.now) db.sessions)
                      ≡ some (revoke fresh.now s))
                    (sym (
                      (==_iff _ _).0
                        (find_first_holds (session_has_id p.session_id) db.sessions s f)))
                    (find_first-update_self (session_has_id p.session_id) (revoke fresh.now)
                      db.sessions s (λ y. refl) f)),
          refl,
        );
        born =
            ap (find_first (session_has_id fresh.session_id)) sessions
            ∙ find_first-last fresh.session_id _ new unused ((==_iff _ _).1 refl);
        answer = answer;
      }

  rotates :
      (token : String) (fresh : Fresh) (db : Db) (r : TokensResponse)
      → (refresh auth token fresh db).0 ≡ ok r
      → Rotates token fresh db r
  rotates token fresh db r h = elim (Option-cases (auth.verify fresh.now token)) [
    | inl e ↦ absurd (err≢ok (ap (λ x. x.0) (sym (no_payload token fresh db e)) ∙ h))
    | inr (p, e) ↦ elim (Option-cases (find_first (session_has_id p.session_id) db.sessions)) [
      | inl f ↦ absurd (no_session token fresh db p r e f h)
      | inr (s, f) ↦ elim (Option-cases (find_first (user_has_id p.sub) db.users)) [
        | inl g ↦ absurd (no_user token fresh db p s r e f g h)
        | inr (u, g) ↦ Rotates-rows token fresh db p s u r e f g h
      ]
    ]
  ]
    where
      err≢ok : {e : Error} {a : TokensResponse} → err e ≢ ok a
      err≢ok h = ground arith

  -- A refresh that succeeds creates a session of the user it answers for, which is not revoked, keeps
  -- the hash of the new refresh token and ends when that does. The session of the old
  -- token is revoked: the old token is refused from then on, with no change to any table.
  pub refresh_once :
      (token : String) (fresh again : Fresh) (db : Db) (r : TokensResponse)
      → (refresh auth token fresh db).0 ≡ ok r
      → let after = (refresh auth token fresh db).1 in
        (find_first (session_has_id fresh.session_id) after.sessions
          ≡ some (record {
            id = fresh.session_id;
            user_id = r.user.id;
            refresh_token_hash = auth.hash fresh.token_salt r.refresh_token;
            expires_at = fresh.now + auth.refresh_expires_in;
            revoked_at = none;
          }))
        × ((message : String) × (refresh auth token again after
              ≡ (err (unauthorized message), after)))
  refresh_once token fresh again db r h =
      let t = rotates token fresh db r h in
      (
        t.born ∙ ap (λ x. some (session_of x)) (sym t.answer),
        Refused-dead token fresh.now t.payload again (refresh auth token fresh db).1 t.read t.dead,
      )
    where
      session_of : TokensResponse → Session
      session_of x = record {
        id = fresh.session_id;
        user_id = x.user.id;
        refresh_token_hash = auth.hash fresh.token_salt x.refresh_token;
        expires_at = fresh.now + auth.refresh_expires_in;
        revoked_at = none;
      }

  -- After a logout, every refresh token of the session is refused, with no change to any table.
  pub logout_refuses :
      (token : String) (t session_id now : ℕ) (p : JwtPayload) (again : Fresh) (db : Db)
      (s : Session)
      → auth.verify t token ≡ some p
      → p.session_id ≡ session_id
      → find_first (session_has_id session_id) db.sessions ≡ some s
      → let after = (logout auth session_id now db).1 in
        (message : String) × (refresh auth token again after ≡ (err (unauthorized message), after))
  unfolding logout
  logout_refuses token t session_id now p again db s e own f =
      Refused-dead token t p again (logout auth session_id now db).1 e (
        subst (λ i. IsDead i (logout auth session_id now db).1) (sym own)
          (
            logged_out s,
            find_first-update_many (session_has_id session_id)
                  (λ x. session_has_id session_id x && not (is_revoked x)) (revoke now) db.sessions
                  s (λ y. refl) f
                ∙ rw (find_first_holds (session_has_id session_id) db.sessions s f) refl,
            dead s,
          ))
    where
      logged_out : Session → Session
      logged_out x = if not (is_revoked x) then revoke now x else x

      dead : (x : Session) → is_revoked (logged_out x) ≡ true
      dead x = ground arith
