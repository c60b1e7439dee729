-- ===== src/Auth.antt =====
-- apps/backend/src/modules/auth/auth.service.ts: users, sessions and their tokens. bcrypt, the JWT
-- service and the configured times are parameters. No request runs in one transaction, so
-- what it has written stays when it throws later.
pub mod Rotation
pub mod Access
use Prim.Native.Nat.{◌/◌}
use hau_cex.Common.{
  ℕ, ◌+◌, ◌≡◌, ◌<◌, Bool, true, false, not, ◌&&◌, ◌||◌, List, [], ◌∷◌, ◌++◌, Option, none, some,
  String, str_eq, ltb, ◌==◌, if◌then◌else◌,
}
use hau_cex.Database.Schema.{Db, User, UserRole, UserStatus, Session}
use hau_cex.Database.Table.{find_first, update_first, update_many, exists}
use hau_cex.Database.Tx.{
  Tx, Error, ◌>>=◌, ◌>>◌, pure, throw, gets, or_throw, throw_if, modify, transaction,
}

pub data TokenType : Type 0 where
  access_type refresh_type : TokenType

-- `JwtRefreshPayload`.
pub record JwtPayload : Type 0 where
  pub sub : ℕ
  pub email : String
  pub role : UserRole
  pub session_id : ℕ

-- bcrypt with a salt, and `JwtService`: `sign` has a secret and a time to live for each type of
-- token; `verify` is that of a refresh token at a time. A password fits its hash, and what a token
-- says never changes. Times are milliseconds; a refresh token is issued at a whole second and is read
-- as long as the whole second of the reader is before the second in which it expires.
pub record AuthPlatform : Type 0 where
  pub hash : ℕ → String → String
  pub compare : String → String → Bool
  pub sign : TokenType → ℕ → JwtPayload → String
  pub verify : ℕ → String → Option JwtPayload
  pub refresh_expires_in : ℕ
  pub verify-steady :
      (t u : ℕ) (token : String) (p q : JwtPayload)
      → verify t token ≡ some p
      → verify u token ≡ some q
      → p ≡ q
  pub compare-hash : (salt : ℕ) (s : String) → compare s (hash salt s) ≡ true
  pub verify-sign :
      (then_ now : ℕ) (p : JwtPayload)
      → now / 1000 < then_ / 1000 + refresh_expires_in / 1000
      → verify now (sign TokenType.refresh_type then_ p) ≡ some p

-- `RegisterDto`, `LoginDto`; a `RefreshDto` is its token.
pub record RegisterDto : Type 0 where
  pub email : String
  pub password : String
  pub confirm_password : String
  pub full_name : Option String

pub record LoginDto : Type 0 where
  pub email : String
  pub password : String

-- `UserInfo`, `GeneratedTokens`, `TokensResponse`.
pub record UserInfo : Type 0 where
  pub id : ℕ
  pub email : String
  pub role : UserRole
  pub full_name : Option String

pub record GeneratedTokens : Type 0 where
  pub access_token : String
  pub refresh_token : String
  pub refresh_token_hash : String
  pub session_id : ℕ
  pub expires_at : ℕ

pub record TokensResponse : Type 0 where
  pub access_token : String
  pub refresh_token : String
  pub user : UserInfo

-- What a request draws: the ids, the salts and the time.
pub record Fresh : Type 0 where
  pub user_id : ℕ
  pub session_id : ℕ
  pub salt : ℕ
  pub token_salt : ℕ
  pub now : ℕ

abbrev pub has_email : String → User → Bool
has_email email u = str_eq u.email email

abbrev pub user_has_id : ℕ → User → Bool
user_has_id id u = u.id == id

abbrev pub session_has_id : ℕ → Session → Bool
session_has_id id s = s.id == id

abbrev pub is_locked : UserStatus → Bool
is_locked UserStatus.locked = true
is_locked UserStatus.active = false

abbrev pub is_revoked : Session → Bool
is_revoked s = is_set s.revoked_at
  where
    is_set : Option ℕ → Bool
    is_set none = false
    is_set (some t) = true

abbrev pub info : User → UserInfo
info u = record { id = u.id; email = u.email; role = u.role; full_name = u.full_name }

abbrev pub unauthorized : String → Error
unauthorized = Error.nest 401

abbrev pub forbidden : Error
forbidden = Error.nest 403 "Account has been locked"

abbrev pub revoke : ℕ → Session → Session
revoke now s = record s { revoked_at = some now }

abbrev pub revoke_session : ℕ → ℕ → Tx (Unit {0})
revoke_session id now =
    modify λ db. record db { sessions = update_first (session_has_id id) (revoke now) db.sessions }

abbrev pub new_session : ℕ → GeneratedTokens → Session
new_session user_id tokens = record {
  id = tokens.session_id;
  user_id = user_id;
  refresh_token_hash = tokens.refresh_token_hash;
  expires_at = tokens.expires_at;
  revoked_at = none;
}

abbrev create_session : Session → Tx (Unit {0})
create_session s = do
  taken ← gets (λ db. exists (session_has_id s.id) db.sessions)
  throw_if taken Error.unique_violation
  modify λ db. record db { sessions = db.sessions ++ s ∷ [] }

abbrev pub new_user : Fresh → RegisterDto → String → User
new_user fresh dto password_hash = record {
  id = fresh.user_id;
  email = dto.email;
  password_hash = password_hash;
  full_name = dto.full_name;
  role = UserRole.user;
  status = UserStatus.active;
  last_login_at = none;
}

abbrev same_user : User → User → Bool
same_user u v = v.id == u.id || str_eq v.email u.email

abbrev create_user : User → Tx (Unit {0})
create_user u = do
  taken ← gets (λ db. exists (same_user u) db.users)
  throw_if taken Error.unique_violation
  modify λ db. record db { users = db.users ++ u ∷ [] }

abbrev pub payload_of : UserInfo → ℕ → JwtPayload
payload_of user session_id = record {
  sub = user.id;
  email = user.email;
  role = user.role;
  session_id = session_id;
}

module _ (auth : AuthPlatform) where
  open auth use {hash, compare, sign, verify, refresh_expires_in}

  -- `_generateTokens`.
  abbrev pub generate_tokens : UserInfo → Fresh → GeneratedTokens
  generate_tokens user fresh =
      let payload = payload_of user fresh.session_id in
      let refresh_token = sign TokenType.refresh_type fresh.now payload in
      record {
        access_token = sign TokenType.access_type fresh.now payload;
        refresh_token = refresh_token;
        refresh_token_hash = hash fresh.token_salt refresh_token;
        session_id = fresh.session_id;
        expires_at = fresh.now + refresh_expires_in;
      }

  abbrev pub response : UserInfo → GeneratedTokens → TokensResponse
  response user tokens = record {
    access_token = tokens.access_token;
    refresh_token = tokens.refresh_token;
    user = user;
  }

  -- `_createSessionAndIssueTokens`.
  abbrev create_session_and_issue_tokens : UserInfo → Fresh → Tx TokensResponse
  create_session_and_issue_tokens user fresh = do
    let tokens = generate_tokens user fresh
    create_session (new_session user.id tokens)
    pure (response user tokens)

  -- `register`.
  unfoldable pub register : RegisterDto → Fresh → Tx TokensResponse
  register dto fresh = do
    throw_if (not (str_eq dto.password dto.confirm_password))
        (Error.nest 422 "Passwords do not match")
    existing ← gets (λ db. exists (has_email dto.email) db.users)
    throw_if existing (Error.nest 409 "Email already exists")
    let user = new_user fresh dto (hash fresh.salt dto.password)
    create_user user
    create_session_and_issue_tokens (info user) fresh

  abbrev pub set_login : ℕ → User → User
  set_login now u = record u { last_login_at = some now }

  -- `login`.
  unfoldable pub login : LoginDto → Fresh → Tx TokensResponse
  login dto fresh = do
    row ← gets (λ db. find_first (has_email dto.email) db.users)
    user ← or_throw row (unauthorized "Invalid credentials")
    throw_if (is_locked user.status) forbidden
    throw_if (not (compare dto.password user.password_hash)) (unauthorized "Invalid credentials")
    modify λ db. record db {
      users = update_first (user_has_id user.id) (set_login fresh.now) db.users;
    }
    create_session_and_issue_tokens (info user) fresh

  -- A refresh token that does not fit its session revokes the session.
  abbrev pub check_token : String → Session → ℕ → Tx (Unit {0})
  check_token token s now =
      if compare token s.refresh_token_hash
      then pure tt
      else (revoke_session s.id now >> throw (unauthorized "Invalid refresh token"))

  -- The transaction of `refresh`.
  abbrev pub rotate : ℕ → ℕ → Session → Tx (Unit {0})
  rotate old now s = transaction (revoke_session old now >> create_session s)

  -- `refresh`, of the token.
  unfoldable pub refresh : String → Fresh → Tx TokensResponse
  refresh token fresh = do
    payload ← or_throw (verify fresh.now token) (unauthorized "Invalid refresh token")
    row ← gets (λ db. find_first (session_has_id payload.session_id) db.sessions)
    session ← or_throw row (unauthorized "Session not found")
    throw_if (is_revoked session) (unauthorized "Session has been revoked")
    throw_if (ltb session.expires_at fresh.now) (unauthorized "Session expired")
    check_token token session fresh.now
    found ← gets (λ db. find_first (user_has_id payload.sub) db.users)
    user ← or_throw found Error.record_not_found
    throw_if (is_locked user.status) forbidden
    let tokens = generate_tokens (info user) fresh
    rotate session.id fresh.now (new_session user.id tokens)
    pure (response (info user) tokens)

  -- `logout`, which answers with a message.
  unfoldable pub logout : ℕ → ℕ → Tx (Unit {0})
  logout session_id now = modify λ db. record db {
    sessions =
        update_many (λ s. session_has_id session_id s && not (is_revoked s)) (revoke now)
          db.sessions;
  }

  -- `getMe`: the id, the email and the role.
  pub get_me : ℕ → Tx (ℕ × String × UserRole)
  get_me user_id = do
    row ← gets (λ db. find_first (user_has_id user_id) db.users)
    u ← or_throw row Error.record_not_found
    pure (u.id, u.email, u.role)
