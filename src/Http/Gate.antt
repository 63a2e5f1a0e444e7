-- ===== src/Http/Gate.antt =====
-- src/ngx_http_auth_webauthn_module.c, the access phase: a request passes with a session token in its cookie.
pub mod Session
pub mod Passes
use nginx_auth_webauthn.Base.{
  ℕ, ◌+◌, ◌*◌, Bytes, length, bytes_eq, codes, ltb, ◌==◌, if◌then◌else◌, Bool, true, false, not,
  Option, none, some, List, [], ◌∷◌, ◌++◌,
}
use nginx_auth_webauthn.Base.Word.{ℤ, pos, negsuc}
use nginx_auth_webauthn.Platform.{Nginx, Jwx}
use nginx_auth_webauthn.Http.Conf.{LocConf, jwt_hmac}
use nginx_auth_webauthn.Http.Escape.{json_escape}

-- The request: the value of the session cookie, the time, what a header's text evaluates to, and `ngx_pcalloc` of the context.
pub record Request : Type 0 where
  pub cookie : Option Bytes
  pub time : ℕ
  pub complex_value : Bytes → Option Bytes
  pub context_room : Bool

-- The context that the variables of the module read. `jwt_exp` and `has_exp` are one field.
pub record Context : Type 0 where
  pub user_id : Bytes
  pub credential_id : Bytes
  pub auth_status : Bytes
  pub jwt_exp : Option ℤ

abbrev pub no_context : Context
no_context = record {
  user_id = [];
  credential_id = [];
  auth_status = codes "unauthenticated";
  jwt_exp = none;
}

-- NGX_DECLINED, NGX_OK with the headers for the upstream, or an HTTP status with its Location.
pub data Access : Type 0 where
  skipped : Access
  passed : List (Bytes × Bytes × Bytes) → Access
  status : ℕ → Option Bytes → Access

-- A check of the gate: it goes on, or it ends the request with a status and the `auth_status` that was set.
pub data Check (A : Type 0) : Type 0 where
  go : A → Check A
  stop : Access → Bytes → Check A

infixl 5 ◌>>=◌ ◌>>◌
abbrev pub ◌>>=◌ : {A B : Type 0} → Check A → (A → Check B) → Check B
go a >>= f = f a
stop r s >>= f = stop r s

abbrev pub ◌>>◌ : {B : Type 0} → Check (Unit {0}) → Check B → Check B
m >> k = m >>= λ _. k

abbrev pub need : {A : Type 0} → Option A → Access → Bytes → Check A
need none r s = stop r s
need (some a) r s = go a

abbrev pub demand : Bool → Access → Bytes → Check (Unit {0})
demand true r s = go tt
demand false r s = stop r s

abbrev pub server_error : Access
server_error = status 500 none

-- `exp > ngx_time()`
abbrev pub after_time : ℕ → ℤ → Bool
after_time now (pos n) = ltb now n
after_time now (negsuc n) = false

module _ {Token Jwks Payload : Type 0} (jwx : Jwx Token Jwks Payload) (ng : Nginx) where
  -- A one-key set for an HMAC secret, or a key by name for a public key.
  unfoldable pub build_jwks : LocConf → Option Jwks
  build_jwks conf =
      if conf.jwt_alg_family == jwt_hmac
      then if ng.pnalloc (ng.base64_encoded_length (length conf.jwt_secret))
        then (if ng.pnalloc
              (64 + length (ng.encode_base64url conf.jwt_secret) + length conf.jwt_alg)
            then jwx.jwks_parse (
                codes "{\"keys\":[{\"kty\":\"oct\",\"k\":\""
                ++ (ng.encode_base64url conf.jwt_secret
                    ++ (codes "\",\"alg\":\"" ++ (conf.jwt_alg ++ codes "\"}]}"))))
            else none)
        else none
      else elim (json_escape ng conf.jwt_pub_pem) [
        | none ↦ none
        | some pem ↦
            if ng.pnalloc (24 + length pem)
            then jwx.jwks_parse_keyval (codes "{\"webauthn\":\"" ++ (pem ++ codes "\"}"))
            else none
      ]

  -- 401, or a redirection to the sign-in page.
  unfoldable pub unauthorized : LocConf → Access
  unauthorized conf =
      if length conf.signin_url == 0
      then status 401 none
      else if ng.list_push
      then status 302 (some conf.signin_url)
      else server_error

  -- Each header with its name in lower case.
  unfoldable pub apply_headers :
      (Bytes → Option Bytes) → List (Bytes × Bytes) → Option (List (Bytes × Bytes × Bytes))
  apply_headers eval [] = some []
  apply_headers eval ((name, text) ∷ rest) = elim (eval text) [
    | none ↦ none
    | some value ↦
        if ng.list_push
        then if ng.pnalloc (length name)
          then elim (apply_headers eval rest) [
            | none ↦ none
            | some hs ↦ some ((name, ng.strlow name, value) ∷ hs)
          ]
          else none
        else none
  ]

  -- The token of the cookie, verified, with its claims checked.
  unfoldable pub check_session : LocConf → Request → Check (Payload × ℤ)
  check_session conf req = do
    let invalid = codes "invalid"
    cookie ← need req.cookie (unauthorized conf) (codes "unauthenticated")
    token ← need (jwx.decode cookie) (unauthorized conf) invalid
    jwks ← need (build_jwks conf) server_error (codes "unauthenticated")
    demand (jwx.jws_verify token jwks) (unauthorized conf) invalid
    payload ← need (jwx.payload token) (unauthorized conf) invalid
    aud ← need (jwx.claim_string payload (codes "aud")) (unauthorized conf) invalid
    demand (bytes_eq aud conf.rp_id) (unauthorized conf) invalid
    iss ← need (jwx.claim_string payload (codes "iss")) (unauthorized conf) invalid
    demand (bytes_eq iss (codes "nginx-webauthn")) (unauthorized conf) invalid
    exp ← need (jwx.claim_integer payload (codes "exp")) (unauthorized conf) (codes "expired")
    demand (after_time req.time exp) (unauthorized conf) (codes "expired")
    go (payload, exp)

  -- A text claim that is there is copied into the context; without memory the request ends.
  unfoldable pub with_claim :
      Option Bytes
      → (Bytes → Context → Context)
      → Context
      → (Context → Access × Option Context)
      → Access × Option Context
  with_claim none put ctx k = k ctx
  with_claim (some text) put ctx k =
      if ng.pnalloc (length text) then k (put text ctx) else (server_error, some ctx)

  unfoldable pub finish : LocConf → Request → Context → Access × Option Context
  finish conf req ctx =
      let done = record ctx { auth_status = codes "authenticated" } in
      elim (apply_headers req.complex_value conf.set_headers) [
        | none ↦ (server_error, some done)
        | some headers ↦ (passed headers, some done)
      ]

  unfoldable pub admit : LocConf → Request → Check (Payload × ℤ) → Access × Option Context
  admit conf req (stop r s) = (r, some (record no_context { auth_status = s }))
  admit conf req (go (payload, exp)) =
      with_claim (jwx.claim_string payload (codes "sub"))
        (λ text ctx. record ctx { user_id = text }) (record no_context { jwt_exp = some exp })
        λ ctx.
          with_claim (jwx.claim_string payload (codes "cid"))
            (λ text c. record c { credential_id = text }) ctx (finish conf req)

  -- `auth_webauthn off` skips the gate. A gate without a secret is a server error.
  unfoldable pub access_handler : LocConf → Request → Access × Option Context
  access_handler conf req =
      if not conf.auth
      then (skipped, none)
      else if not req.context_room
      then (server_error, none)
      else if length conf.jwt_secret == 0
      then (server_error, some no_context)
      else admit conf req (check_session conf req)
