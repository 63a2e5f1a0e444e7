-- ===== src/Http/Verify/Granted.antt =====
-- What a sign-in has shown when it is answered by a session.
use nginx_auth_webauthn.Base.{
  ℕ, ◌+◌, Bytes, length, Bool, true, false, Option, none, some, ◌≡◌, ◌≢◌, refl, arith,
}
use nginx_auth_webauthn.Platform.{Nginx, Jwx}
use nginx_auth_webauthn.Http.Conf.{LocConf}
use nginx_auth_webauthn.Http.Escape.{json_escape}
use nginx_auth_webauthn.Http.Response.{Response, send_json, verify_fail}
use nginx_auth_webauthn.Http.Verify.Mint
use nginx_auth_webauthn.Http.Verify.Mint.{
  Mint, go, stop, some_or_500, room_or_500, answer, claims_text, cookie_text, b64url, mint,
}

-- An answer with the status 200 has the property, however the steps before it end.
record Grants (P : Response → Type 0) (m : Mint Response) : Type 0 where
  at : (answer m).code ≡ 200 → P (answer m)

module _ {P : Response → Type 0} where
  Grants-some :
      {A : Type 0} (o : Option A) {f : A → Mint Response}
      → ((a : A) → o ≡ some a → Grants P (f a))
      → Grants P (Mint.◌>>=◌ (some_or_500 o) f)
  Grants-some (some a) k = k a refl
  Grants-some none k = record { at = λ h. absurd (omega (arith, h)) }

  Grants-room : (b : Bool) {k : Mint Response} → Grants P k → Grants P (Mint.◌>>◌ (room_or_500 b) k)
  Grants-room true k = k
  Grants-room false k = record { at = λ h. absurd (omega (arith, h)) }

send_json-cookie :
    (ng : Nginx) (code : ℕ) (cookie : Option Bytes) (body : Bytes)
    → (send_json ng code cookie body).set_cookie ≡ cookie
unfolding send_json
send_json-cookie ng code cookie body = ground arith

pub verify_fail-code : (ng : Nginx) → (verify_fail ng).code ≢ 200
unfolding verify_fail
verify_fail-code ng h = ground arith

module _ {Token Jwks Payload : Type 0} (jwx : Jwx Token Jwks Payload) (ng : Nginx)
    (conf : LocConf) where
  -- The cookie carries a token of this location: its claims name the user and the credential.
  pub record IsSessionCookie (user_id id : Bytes) (now : ℕ) (cookie : Option Bytes) : Type 0 where
    pub sub : Bytes
    pub escaped : json_escape ng user_id ≡ some sub
    pub jti : Bytes
    pub token : Bytes
    pub encoded :
        jwx.encode conf.jwt_alg (claims_text conf sub id jti now) conf.jwt_secret ≡ some token
    pub sent : cookie ≡ some (cookie_text conf token)

  mint-Grants :
      (jti : Option Bytes) (now : ℕ) (user_id id : Bytes)
      → Grants
          (λ r. IsSessionCookie user_id id now r.set_cookie)
          (mint jwx ng conf jti now user_id id)
  unfolding mint
  mint-Grants jti now user_id id = Grants-some jti λ raw _. Grants-some (b64url ng raw) λ b64 _.
      Grants-some (json_escape ng user_id) λ sub escaped.
        Grants-room (ng.pnalloc (256 + length sub + length id + length conf.rp_id + length b64)) (
          Grants-some (jwx.encode conf.jwt_alg (claims_text conf sub id b64 now) conf.jwt_secret)
            λ token encoded.
              Grants-room
                (ng.pnalloc (
                  length conf.cookie_name
                  + length token
                  + length conf.cookie_path
                  + length conf.cookie_domain
                  + 128))
                (Grants-room ng.list_push (
                  Grants-room (ng.pnalloc (64 + length sub)) (record {
                    at = λ _. record {
                      sub = sub;
                      escaped = escaped;
                      jti = b64;
                      token = token;
                      encoded = encoded;
                      sent = send_json-cookie ng 200 _ _;
                    };
                  }))))

  pub mint-IsSessionCookie :
      (jti : Option Bytes) (now : ℕ) (user_id id : Bytes)
      → (answer (mint jwx ng conf jti now user_id id)).code ≡ 200
      → IsSessionCookie user_id id now (answer (mint jwx ng conf jti now user_id id)).set_cookie
  mint-IsSessionCookie jti now user_id id h = (mint-Grants jti now user_id id).at h
