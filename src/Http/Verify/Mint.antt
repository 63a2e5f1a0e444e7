-- ===== src/Http/Verify/Mint.antt =====
-- src/ngx_http_auth_webauthn_module.c, the session token and the answer of a sign-in.
use nginx_auth_webauthn.Base.{
  ℕ, ◌+◌, Bytes, length, codes, ◌==◌, if◌then◌else◌, Bool, true, false, Option, none, some, [],
  ◌++◌,
}
use nginx_auth_webauthn.Platform.{Nginx, Jwx}
use nginx_auth_webauthn.Redis.{decimal}
use nginx_auth_webauthn.Http.Conf.{LocConf}
use nginx_auth_webauthn.Http.Escape.{json_escape}
use nginx_auth_webauthn.Http.Response.{Response, plain, send_json}

-- A step that may end the request.
pub data Mint (A : Type 0) : Type 0 where
  go : A → Mint A
  stop : Response → Mint A

infixl 5 ◌>>=◌ ◌>>◌
abbrev pub ◌>>=◌ : {A B : Type 0} → Mint A → (A → Mint B) → Mint B
go a >>= f = f a
stop r >>= f = stop r

abbrev pub ◌>>◌ : {B : Type 0} → Mint (Unit {0}) → Mint B → Mint B
m >> k = m >>= λ _. k

-- Any failure is a 500.
abbrev pub some_or_500 : {A : Type 0} → Option A → Mint A
some_or_500 none = stop (plain 500)
some_or_500 (some a) = go a

abbrev pub room_or_500 : Bool → Mint (Unit {0})
room_or_500 true = go tt
room_or_500 false = stop (plain 500)

abbrev pub answer : Mint Response → Response
answer (go r) = r
answer (stop r) = r

-- The names by `cookie_samesite`, which the directive's table bounds.
abbrev pub samesite_name : ℕ → Bytes
samesite_name n = if n == 0 then codes "Strict" else if n == 1 then codes "Lax" else codes "None"

-- base64url of bytes in the pool
unfoldable pub b64url : Nginx → Bytes → Option Bytes
b64url ng src =
    if ng.pnalloc (ng.base64_encoded_length (length src))
    then some (ng.encode_base64url src)
    else none

unfoldable pub claims_text : LocConf → Bytes → Bytes → Bytes → ℕ → Bytes
claims_text conf sub id jti now =
    codes "{\"iss\":\"nginx-webauthn\",\"aud\":\""
    ++ (conf.rp_id
        ++ (codes "\",\"sub\":\""
            ++ (sub
                ++ (codes "\",\"cid\":\""
                    ++ (id
                        ++ (codes "\",\"iat\":"
                            ++ (decimal now
                                ++ (codes ",\"exp\":"
                                    ++ (decimal (now + conf.jwt_ttl)
                                        ++ (codes ",\"jti\":\"" ++ (jti ++ codes "\"}")))))))))))

unfoldable pub cookie_text : LocConf → Bytes → Bytes
cookie_text conf jwt =
    conf.cookie_name
    ++ (codes "="
        ++ (jwt
            ++ (codes "; HttpOnly; SameSite="
                ++ (samesite_name conf.cookie_samesite
                    ++ (codes "; Path="
                        ++ (conf.cookie_path
                            ++ ((if conf.cookie_secure then codes "; Secure" else [])
                                ++ ((if length conf.cookie_domain == 0
                                      then []
                                      else codes "; Domain=" ++ conf.cookie_domain)
                                    ++ (codes "; Max-Age=" ++ decimal conf.jwt_ttl)))))))))

unfoldable pub success_text : LocConf → Bytes → ℕ → Bytes
success_text conf sub now =
    codes "{\"ok\":true,\"user_id\":\""
    ++ (sub ++ (codes "\",\"exp\":" ++ (decimal (now + conf.jwt_ttl) ++ codes "}")))

module _ {Token Jwks Payload : Type 0} (jwx : Jwx Token Jwks Payload) (ng : Nginx) where
  -- `jti` is what RAND_bytes gave, or none.
  unfoldable pub mint : LocConf → Option Bytes → ℕ → Bytes → Bytes → Mint Response
  unfolding b64url claims_text cookie_text success_text
  mint conf jti now user_id id = do
    jti_raw ← some_or_500 jti
    jti_b64 ← some_or_500 (b64url ng jti_raw)
    sub ← some_or_500 (json_escape ng user_id)
    room_or_500 (ng.pnalloc (256 + length sub + length id + length conf.rp_id + length jti_b64))
    jwt ←
        some_or_500 (jwx.encode conf.jwt_alg (claims_text conf sub id jti_b64 now) conf.jwt_secret)
    room_or_500 (
        ng.pnalloc (
          length conf.cookie_name
          + length jwt
          + length conf.cookie_path
          + length conf.cookie_domain
          + 128))
    room_or_500 ng.list_push
    room_or_500 (ng.pnalloc (64 + length sub))
    go (send_json ng 200 (some (cookie_text conf jwt)) (success_text conf sub now))
