-- ===== src/Tests/Tokens.antt =====
-- A token service for the tests: a token is its payload, written out and read back.
use Prim.Native.Char.{Char, char, code}
use Prim.Native.String.{[], ◌∷◌}
use hau_cex.Common.{
  ℕ, zero, suc, ◌≡◌, refl, sym, ◌∙◌, Option, none, some, some-injective, String, str_eq, str_eq_iff,
  ◌==◌, if◌then◌else◌,
}
use hau_cex.Database.Schema.{UserRole}
use hau_cex.Auth.{AuthPlatform, JwtPayload}

abbrev mark : Char
mark = char 97 tt

abbrev stop : Char
stop = char 98 tt

-- A number is as many marks, then a stop.
unfoldable pub write : ℕ → String → String
write zero s = stop ∷ s
write (suc n) s = mark ∷ write n s

unfoldable pub read : String → (ℕ → String → Option JwtPayload) → Option JwtPayload
read [] k = none
read (c ∷ s) k = let more = read s λ n. k (suc n) in if code c == 97 then more else k 0 s

read-write : (n : ℕ) (s : String) (k : ℕ → String → Option JwtPayload) → read (write n s) k ≡ k n s
unfolding read write
read-write zero s k = refl
read-write (suc n) s k = read-write n s λ m. k (suc m)

abbrev role_number : UserRole → ℕ
role_number UserRole.user = 0
role_number UserRole.admin = 1
role_number UserRole.system = 2

abbrev role_of : ℕ → UserRole
role_of zero = UserRole.user
role_of (suc zero) = UserRole.admin
role_of (suc (suc n)) = UserRole.system

role_back : (r : UserRole) → role_of (role_number r) ≡ r
role_back UserRole.user = refl
role_back UserRole.admin = refl
role_back UserRole.system = refl

unfoldable pub encode : JwtPayload → String
encode p = write p.sub (write p.session_id (write (role_number p.role) p.email))

unfoldable pub decode : String → Option JwtPayload
decode s = read s λ sub s. read s λ id s.
    read s λ r email. some (record { sub = sub; email = email; role = role_of r; session_id = id })

pub decode-encode : (p : JwtPayload) → decode (encode p) ≡ some p
unfolding decode encode
decode-encode p =
    read-write p.sub _ _
    ∙ (read-write p.session_id _ _
        ∙ (read-write (role_number p.role) _ _ ∙ rw (role_back p.role) refl))

-- A hash of a text is the text; a token never expires.
abbrev pub example_auth : AuthPlatform
example_auth = record {
  hash = λ salt s. s;
  compare = str_eq;
  sign = λ type time p. encode p;
  verify = λ time token. decode token;
  refresh_expires_in = 100000;
  verify-steady = λ t u token p q h k. some-injective _ _ (sym h ∙ k);
  compare-hash = λ salt s. (str_eq_iff s s).1 refl;
  verify-sign = λ then_ now p in_time. decode-encode p;
}
