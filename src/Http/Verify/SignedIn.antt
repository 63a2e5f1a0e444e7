-- ===== src/Http/Verify/SignedIn.antt =====
-- A sign-in that is answered with the status 200, from the request to the session cookie.
use nginx_auth_webauthn.Base.{
  ℕ, Bytes, length, ◌==◌, if◌then◌else◌, Bool, true, false, ◌||◌, Option, none, some, List, ◌≡◌,
  ◌≢◌, refl, sym, ap, ◌∙◌, subst, arith,
}
use nginx_auth_webauthn.Base.Rc.{Rc, ok, declined, error, ok-injective}
use nginx_auth_webauthn.Platform.{Nginx, JsonLib, Jwx, Openssl, Command}
use nginx_auth_webauthn.Redis.{Client, lift, redis_connect}
use nginx_auth_webauthn.Redis.Flow.{exec_ok}
use nginx_auth_webauthn.Challenge.{challenge_consume}
use nginx_auth_webauthn.Credential.{Credential, credential_get}
use nginx_auth_webauthn.Assertion.{assertion_verify}
use nginx_auth_webauthn.Http.Conf.{LocConf, redis_conf}
use nginx_auth_webauthn.Http.Response.{Response, plain}
use nginx_auth_webauthn.Http.Verify.Body.{SignIn, read_body, parse_sign_in}
use nginx_auth_webauthn.Http.Verify.Granted.{
  IsSessionCookie, mint-IsSessionCookie, verify_fail-code,
}
use nginx_auth_webauthn.Http.Verify.{
  VerifyRequest, assertion_cred, policy_of, check_sign_in, granted, on_checked, on_connected,
  on_parsed, on_body, on_origins, verify_done,
}

plain_500 : (plain 500).code ≢ 200
plain_500 h = absurd (omega (arith, h))

module _ {Server Json Pkey Token Jwks Payload : Type 0} (js : JsonLib Json) (ssl : Openssl Pkey)
    (jwx : Jwx Token Jwks Payload) (ng : Nginx) (command : Command Server)
    (dial : Bytes → ℕ → Server → Option Server) (conf : LocConf) where
  -- The answer after a connection, with the checks that it rests on.
  pub record IsChecked (req : VerifyRequest) (origins : List Bytes) (s : SignIn) (c : Client Server)
      (cookie : Option Bytes) : Type 0 where
    pub consumed : (challenge_consume ng command conf.redis_key_prefix s.challenge c).0 ≡ ok tt
    pub cred : Credential
    pub found :
        (credential_get ng command conf.redis_key_prefix s.id
          (challenge_consume ng command conf.redis_key_prefix s.challenge c).1).0
        ≡ ok cred
    pub count : ℕ
    pub verified :
        assertion_verify ssl js ng s.assertion
          (assertion_cred cred)
          (policy_of conf origins s.challenge)
        ≡ ok count
    pub session : IsSessionCookie jwx ng conf cred.user_id s.id req.time cookie

  -- The request, from its body to the connection.
  pub record IsSignedIn (req : VerifyRequest) (c : Client Server) (cookie : Option Bytes)
      : Type 0 where
    pub origins : List Bytes
    pub has_origins : conf.origins ≡ some origins
    pub body : Bytes
    pub read : read_body ng req.body ≡ ok body
    pub sign_in : SignIn
    pub parsed : parse_sign_in ng js body ≡ ok sign_in
    pub connected : Client Server
    pub connects : redis_connect ng command dial (redis_conf conf) c ≡ (ok tt, connected)
    pub checked : IsChecked req origins sign_in connected cookie

  checked_parts :
      (origins : List Bytes) (s : SignIn) (c : Client Server) (found : Credential × ℕ)
      → (check_sign_in js ssl jwx ng command dial conf origins s c).0 ≡ ok found
      → ((challenge_consume ng command conf.redis_key_prefix s.challenge c).0 ≡ ok tt)
        × ((credential_get ng command conf.redis_key_prefix s.id
              (challenge_consume ng command conf.redis_key_prefix s.challenge c).1).0
            ≡ ok found.0)
        × (assertion_verify ssl js ng s.assertion
              (assertion_cred found.0)
              (policy_of conf origins s.challenge)
            ≡ ok found.1)
  unfolding check_sign_in
  checked_parts origins s c found h =
      let (_, consumed, h1, _) =
        exec_ok (challenge_consume ng command conf.redis_key_prefix s.challenge) _ c h in
      let c1 : Client Server =
        (challenge_consume ng command conf.redis_key_prefix s.challenge c).1 in
      let (cred, got, h2, _) =
        exec_ok (credential_get ng command conf.redis_key_prefix s.id) _ c1 h1 in
      let c2 : Client Server = (credential_get ng command conf.redis_key_prefix s.id c1).1 in
      let (count, verified, h3, _) =
        exec_ok
          (lift (
            assertion_verify ssl js ng s.assertion (assertion_cred cred)
              (policy_of conf origins s.challenge)))
          _ c2 h2 in
      let same : (cred, count) ≡ found = ok-injective h3 in
      (
        consumed,
        got ∙ ap (λ (f : Credential × ℕ). ok f.0) same,
        subst
            (λ (f : Credential × ℕ).
              assertion_verify ssl js ng s.assertion (assertion_cred f.0)
                (policy_of conf origins s.challenge)
              ≡ ok f.1)
            same verified,
      )

  -- Inversion of each stage by the status.
  on_checked-IsChecked :
      (req : VerifyRequest) (origins : List Bytes) (s : SignIn) (c c' : Client Server)
      (r : Rc (Credential × ℕ))
      → (check_sign_in js ssl jwx ng command dial conf origins s c).0 ≡ r
      → (on_checked js ssl jwx ng command dial conf req s r c').0.code ≡ 200
      → IsChecked req origins s c
          (on_checked js ssl jwx ng command dial conf req s r c').0.set_cookie
  unfolding on_checked granted
  on_checked-IsChecked req origins s c c' (ok (cred, count)) e h =
      let (consumed, found, verified) = checked_parts origins s c (cred, count) e in
      record {
        consumed = consumed;
        cred = cred;
        found = found;
        count = count;
        verified = verified;
        session = mint-IsSessionCookie jwx ng conf req.jti req.time cred.user_id s.id h;
      }
  on_checked-IsChecked req origins s c c' declined e h = absurd (verify_fail-code ng h)
  on_checked-IsChecked req origins s c c' error e h = absurd (verify_fail-code ng h)

  on_connected-IsChecked :
      (req : VerifyRequest) (origins : List Bytes) (s : SignIn) (r : Rc (Unit {0}))
      (c : Client Server)
      → (on_connected js ssl jwx ng command dial conf req origins s r c).0.code ≡ 200
      → (r ≡ ok tt)
        × IsChecked req origins s c
            (on_connected js ssl jwx ng command dial conf req origins s r c).0.set_cookie
  unfolding on_connected
  on_connected-IsChecked req origins s (ok u) c h = (
    refl,
    on_checked-IsChecked req origins s c _
        (check_sign_in js ssl jwx ng command dial conf origins s c).0 refl h,
  )
  on_connected-IsChecked req origins s declined c h = absurd (plain_500 h)
  on_connected-IsChecked req origins s error c h = absurd (plain_500 h)

  abbrev dialled : Client Server → Rc (Unit {0}) × Client Server
  dialled c = redis_connect ng command dial (redis_conf conf) c

  on_parsed-IsChecked :
      (req : VerifyRequest) (origins : List Bytes) (r : Rc SignIn) (c : Client Server)
      → (on_parsed js ssl jwx ng command dial conf req origins r c).0.code ≡ 200
      → (s : SignIn) × (r ≡ ok s)
        × ((dialled c).0 ≡ ok tt)
        × IsChecked req origins s
            (dialled c).1
            (on_parsed js ssl jwx ng command dial conf req origins r c).0.set_cookie
  unfolding on_parsed
  on_parsed-IsChecked req origins (ok s) c h =
      let (up, checked) = on_connected-IsChecked req origins s (dialled c).0 (dialled c).1 h in
      (s, refl, up, checked)
  on_parsed-IsChecked req origins declined c h = absurd (verify_fail-code ng h)
  on_parsed-IsChecked req origins error c h = absurd (verify_fail-code ng h)

  on_body-IsSignedIn :
      (req : VerifyRequest) (origins : List Bytes) (r : Rc Bytes) (c : Client Server)
      → conf.origins ≡ some origins
      → read_body ng req.body ≡ r
      → (on_body js ssl jwx ng command dial conf req origins r c).0.code ≡ 200
      → IsSignedIn req c (on_body js ssl jwx ng command dial conf req origins r c).0.set_cookie
  unfolding on_body
  on_body-IsSignedIn req origins (ok body) c o e h =
      let (s, parsed, up, checked) =
        on_parsed-IsChecked req origins (parse_sign_in ng js body) c h in
      record {
        origins = origins;
        has_origins = o;
        body = body;
        read = e;
        sign_in = s;
        parsed = parsed;
        connected = (dialled c).1;
        connects = ap (λ (r : Rc (Unit {0})). (r, (dialled c).1)) up;
        checked = checked;
      }
  on_body-IsSignedIn req origins declined c o e h = absurd (verify_fail-code ng h)
  on_body-IsSignedIn req origins error c o e h = absurd (verify_fail-code ng h)

  pub by_guard :
      (b : Bool) (req : VerifyRequest) (c : Client Server) (x : Response × Client Server)
      → (if b then (plain 500, c) else x).0.code ≡ 200
      → (b ≡ false) × ((if b then (plain 500, c) else x) ≡ x)
  by_guard true req c x h = absurd (plain_500 h)
  by_guard false req c x h = (refl, refl)

  on_origins-IsSignedIn :
      (req : VerifyRequest) (o : Option (List Bytes)) (c : Client Server)
      → conf.origins ≡ o
      → (on_origins js ssl jwx ng command dial conf req o c).0.code ≡ 200
      → IsSignedIn req c (on_origins js ssl jwx ng command dial conf req o c).0.set_cookie
  unfolding on_origins
  on_origins-IsSignedIn req none c o h = absurd (plain_500 h)
  on_origins-IsSignedIn req (some origins) c o h =
      let inner : Response × Client Server =
        on_body js ssl jwx ng command dial conf req origins (read_body ng req.body) c in
      let (_, same) =
        by_guard
          (length conf.rp_id == 0 || length conf.redis_host == 0 || length conf.jwt_secret == 0) req
          c inner h in
      subst (λ (x : Response × Client Server). IsSignedIn req c x.0.set_cookie) (sym same)
        (on_body-IsSignedIn req origins (read_body ng req.body) c o refl
          (subst (λ (x : Response × Client Server). x.0.code ≡ 200) same h))

  -- The verify handler answers 200 only where the body is a sign-in, its challenge was consumed on the connection, the record of its
  -- credential was read after that, and the assertion was verified with that record; and then the cookie carries a token of
  -- the record's user and the credential.
  pub verify_done-IsSignedIn :
      (req : VerifyRequest) (c : Client Server)
      → (verify_done js ssl jwx ng command dial conf req c).0.code ≡ 200
      → IsSignedIn req c (verify_done js ssl jwx ng command dial conf req c).0.set_cookie
  unfolding verify_done
  verify_done-IsSignedIn req c h = on_origins-IsSignedIn req conf.origins c refl h
