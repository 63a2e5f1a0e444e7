-- ===== src/Http/Verify.antt =====
-- src/ngx_http_auth_webauthn_module.c, the verify handler: the checks of a sign-in in their order, and the Redis commands between them.
pub mod Body
pub mod Mint
pub mod Granted
pub mod SignedIn
pub mod Spent
use nginx_auth_webauthn.Base.{
  ℕ, Bytes, length, ◌==◌, if◌then◌else◌, Bool, true, false, ◌||◌, Option, none, some, List, [], ◌∷◌,
}
use nginx_auth_webauthn.Base.Rc.{Rc, ok, declined, error}
use nginx_auth_webauthn.Base.Word.{pos}
use nginx_auth_webauthn.Platform.{Nginx, JsonLib, Jwx, Openssl, Command}
use nginx_auth_webauthn.Redis.{Client, Exec, ◌>>=◌, ◌>>◌, lift, redis_connect, redis_close}
use nginx_auth_webauthn.Challenge.{challenge_consume}
use nginx_auth_webauthn.Credential.{Credential, credential_get, credential_update_counter}
use nginx_auth_webauthn.Assertion.{AssertionCred, AssertionPolicy, assertion_verify}
use nginx_auth_webauthn.Http.Conf.{LocConf, uv_required, redis_conf}
use nginx_auth_webauthn.Http.Response.{Response, plain, verify_fail}
use nginx_auth_webauthn.Http.Verify.Body.{Buf, SignIn, read_body, parse_sign_in}
use nginx_auth_webauthn.Http.Verify.Mint.{answer, mint}

-- What a request brings from outside: its method and body, the random bytes for the token, and the time.
pub record VerifyRequest : Type 0 where
  pub is_post : Bool
  pub body : Option (List Buf)
  pub jti : Option Bytes
  pub time : ℕ

abbrev pub assertion_cred : Credential → AssertionCred
assertion_cred c = record { public_key = c.public_key; alg = c.alg; sign_count = c.sign_count }

abbrev pub policy_of : LocConf → List Bytes → Bytes → AssertionPolicy
policy_of conf origins challenge = record {
  rp_id = conf.rp_id;
  expected_challenge = challenge;
  allowed_origins = origins;
  require_uv = conf.user_verification == uv_required;
  clone_detection = conf.clone_detection;
}

module _ {Server Json Pkey Token Jwks Payload : Type 0} (js : JsonLib Json) (ssl : Openssl Pkey)
    (jwx : Jwx Token Jwks Payload) (ng : Nginx) (command : Command Server)
    (dial : Bytes → ℕ → Server → Option Server) (conf : LocConf) where
  -- The challenge is consumed first, then the record is read, then the assertion is verified.
  unfoldable pub check_sign_in : List Bytes → SignIn → Exec Server (Credential × ℕ)
  check_sign_in origins s = do
    challenge_consume ng command conf.redis_key_prefix s.challenge
    cred ← credential_get ng command conf.redis_key_prefix s.id
    count ← lift (
        assertion_verify ssl js ng s.assertion (assertion_cred cred)
          (policy_of conf origins s.challenge))
    lift (ok (cred, count))

  -- A failed update of the counter is passed over.
  unfoldable pub granted :
      VerifyRequest → SignIn → Credential × ℕ → Client Server → Response × Client Server
  granted req s (cred, count) c =
      let (_, c') =
        credential_update_counter ng command conf.redis_key_prefix s.id count (pos req.time) c in
      (answer (mint jwx ng conf req.jti req.time cred.user_id s.id), redis_close ng command c')

  unfoldable pub on_checked :
      VerifyRequest → SignIn → Rc (Credential × ℕ) → Client Server → Response × Client Server
  on_checked req s (ok found) c = granted req s found c
  on_checked req s declined c = (verify_fail ng, redis_close ng command c)
  on_checked req s error c = (verify_fail ng, redis_close ng command c)

  unfoldable pub on_connected :
      VerifyRequest → List Bytes → SignIn → Rc (Unit {0}) → Client Server → Response × Client Server
  on_connected req origins s (ok _) c =
      let (r, c') = check_sign_in origins s c in on_checked req s r c'
  on_connected req origins s declined c = (plain 500, c)
  on_connected req origins s error c = (plain 500, c)

  unfoldable pub on_parsed :
      VerifyRequest → List Bytes → Rc SignIn → Client Server → Response × Client Server
  on_parsed req origins (ok s) c =
      let (r, c') = redis_connect ng command dial (redis_conf conf) c in
      on_connected req origins s r c'
  on_parsed req origins declined c = (verify_fail ng, c)
  on_parsed req origins error c = (verify_fail ng, c)

  unfoldable pub on_body :
      VerifyRequest → List Bytes → Rc Bytes → Client Server → Response × Client Server
  on_body req origins (ok body) c = on_parsed req origins (parse_sign_in ng js body) c
  on_body req origins declined c = (verify_fail ng, c)
  on_body req origins error c = (verify_fail ng, c)

  -- Missing directives are a server error.
  unfoldable pub on_origins :
      VerifyRequest → Option (List Bytes) → Client Server → Response × Client Server
  on_origins req none c = (plain 500, c)
  on_origins req (some origins) c =
      if length conf.rp_id == 0 || length conf.redis_host == 0 || length conf.jwt_secret == 0
      then (plain 500, c)
      else on_body req origins (read_body ng req.body) c

  unfoldable pub verify_done : VerifyRequest → Client Server → Response × Client Server
  verify_done req c = on_origins req conf.origins c

  -- Only POST is allowed; nginx reads the body before it calls `verify_done`.
  unfoldable pub verify_content : VerifyRequest → Client Server → Response × Client Server
  unfolding verify_done
  verify_content req c = if req.is_post then verify_done req c else (plain 405, c)
