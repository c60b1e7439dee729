-- ===== src/Tests/Auth.antt =====
-- A user who registers, logs in, refreshes the token and logs out.
use hau_cex.Common.{ℕ, ◌+◌, ◌≡◌, refl, some, none, false, [], ◌∷◌, String, ◌==◌, arith}
use hau_cex.Database.Schema.{Db, User, UserRole, UserStatus, Session}
use hau_cex.Database.Table.{exists, find_first}
use hau_cex.Database.Tx.{ok, err, Result}
use hau_cex.Auth.{
  RegisterDto, LoginDto, TokensResponse, Fresh, login, refresh, logout, unauthorized, info,
  response, generate_tokens, payload_of, session_has_id,
}
use hau_cex.Auth.Rotation.{refresh_once, logout_refuses}
use hau_cex.Auth.Access.{login-refresh}
use hau_cex.Tests.Tokens.{example_auth, encode, decode, read, write}
use hau_cex.Testing.{example_db}

abbrev anna : User
anna = record {
  id = 1;
  email = "anna@example.org";
  password_hash = "secret";
  full_name = none;
  role = UserRole.user;
  status = UserStatus.active;
  last_login_at = none;
}

abbrev dto : RegisterDto
dto = record {
  email = "anna@example.org";
  password = "secret";
  confirm_password = "secret";
  full_name = none;
}

abbrev credentials : LoginDto
credentials = record { email = "anna@example.org"; password = "secret" }

abbrev fresh : ℕ → Fresh
fresh session = record {
  user_id = 1;
  session_id = session;
  salt = 0;
  token_salt = 0;
  now = session;
}

abbrev known : Db
known = record example_db { users = anna ∷ [] }

abbrev logged_in : Result TokensResponse × Db
logged_in = login example_auth credentials (fresh 40) known

abbrev tokens : ℕ → TokensResponse
tokens session =
    response example_auth (info anna) (generate_tokens example_auth (info anna) (fresh session))

is_logged_in : logged_in.0 ≡ ok (tokens 40)
unfolding login
is_logged_in = refl

is_refreshed :
    (refresh example_auth (tokens 40).refresh_token (fresh 41) logged_in.1).0 ≡ ok (tokens 41)
unfolding login refresh encode decode read write
is_refreshed = refl

refresh_once_example :
    let after = (refresh example_auth (tokens 40).refresh_token (fresh 41) logged_in.1).1 in
    (find_first (session_has_id 41) after.sessions
      ≡ some (record {
        id = 41;
        user_id = 1;
        refresh_token_hash = (tokens 41).refresh_token;
        expires_at = (fresh 41).now + 100000;
        revoked_at = none;
      }))
    × ((message : String) × (refresh example_auth (tokens 40).refresh_token (fresh 42) after
          ≡ (err (unauthorized message), after)))
refresh_once_example =
    refresh_once example_auth (tokens 40).refresh_token (fresh 41) (fresh 42) logged_in.1
      (tokens 41) is_refreshed

is_read : decode (tokens 40).refresh_token ≡ some (payload_of (info anna) 40)
unfolding encode decode read write
is_read = refl

abbrev session : Session
session = record {
  id = 40;
  user_id = 1;
  refresh_token_hash = (tokens 40).refresh_token;
  expires_at = 100040;
  revoked_at = none;
}

abbrev open_session : Db
open_session = record known { sessions = session ∷ [] }

logout_refuses_example :
    let after = (logout example_auth 40 50 open_session).1 in
    (message : String) × (refresh example_auth (tokens 40).refresh_token (fresh 42) after
      ≡ (err (unauthorized message), after))
logout_refuses_example =
    logout_refuses example_auth (tokens 40).refresh_token 41 40 50 (payload_of (info anna) 40)
      (fresh 42) open_session session is_read refl refl

login_sessions : exists (λ s. s.id == 41) logged_in.1.sessions ≡ false
unfolding login
login_sessions = refl

login-refresh_example :
    (next : TokensResponse) × ((refresh example_auth
        (tokens 40).refresh_token
        (fresh 41)
        logged_in.1).0
      ≡ ok next)
login-refresh_example =
    login-refresh example_auth credentials (fresh 40) (fresh 41) known anna (tokens 40) refl refl
      is_logged_in (omega arith) login_sessions

-- Anna registers again with another password.
abbrev other_dto : RegisterDto
other_dto = record dto { password = "other"; confirm_password = "other" }
