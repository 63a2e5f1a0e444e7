-- ===== src/Http/Verify/Spent.antt =====
-- What the verify handler leaves of a challenge's key in Redis.
use nginx_auth_webauthn.Base.{
  ℕ, Bytes, if◌then◌else◌, Bool, true, false, Option, none, some, List, ◌≡◌, inl, inr, refl, sym,
  subst, arith,
}
use nginx_auth_webauthn.Base.Rc.{Rc, ok, declined, error}
use nginx_auth_webauthn.Base.Word.{pos}
use nginx_auth_webauthn.Platform.{Nginx, JsonLib, Jwx, Openssl, Command}
use nginx_auth_webauthn.Keys.{challenge_name}
use nginx_auth_webauthn.Redis.{Client, redis_close}
use nginx_auth_webauthn.Redis.Laws.{
  StringLaws, if_server, Adds-lift, Adds-bind, Adds-bind-lift, Adds-rest,
}
use nginx_auth_webauthn.Redis.Connect.{DialLaws, Adds-redis_connect}
use nginx_auth_webauthn.Challenge.{challenge_consume}
use nginx_auth_webauthn.Challenge.Held.{is_kept, consume_present, consume_taken}
use nginx_auth_webauthn.Credential.{Credential, credential_get}
use nginx_auth_webauthn.Credential.Present.{Adds-credential_get, Adds-credential_update_counter}
use nginx_auth_webauthn.Assertion.{assertion_verify}
use nginx_auth_webauthn.Http.Conf.{LocConf, redis_conf}
use nginx_auth_webauthn.Http.Response.{Response, plain}
use nginx_auth_webauthn.Http.Verify.Body.{SignIn, read_body, sign_in_of}
use nginx_auth_webauthn.Http.Verify.{
  VerifyRequest, assertion_cred, policy_of, check_sign_in, granted, on_checked, on_connected,
  on_parsed, on_body, on_origins, verify_done, verify_content,
}
use nginx_auth_webauthn.Http.Verify.SignedIn.{IsSignedIn, by_guard, verify_done-IsSignedIn}

unheld : (after before : Bool) → (after ≡ true → before ≡ true) → before ≡ false → after ≡ false
unheld false before h e = refl
unheld true before h e = cc (h refl)

module _ {Server Json Pkey Token Jwks Payload : Type 0} (js : JsonLib Json) (ssl : Openssl Pkey)
    (jwx : Jwx Token Jwks Payload) (ng : Nginx) (command : Command Server)
    (dial : Bytes → ℕ → Server → Option Server) (conf : LocConf) (present : Server → Bytes → Bool)
    (laws : StringLaws command present) (opens : DialLaws dial present) where
  abbrev key : Bytes → Bytes
  key ch = challenge_name conf.redis_key_prefix ch

  on_checked_present :
      (req : VerifyRequest) (s : SignIn) (r : Rc (Credential × ℕ)) (c : Client Server) (j : Bytes)
      → present (on_checked js ssl jwx ng command dial conf req s r c).1.server j ≡ true
      → present c.server j ≡ true
  unfolding on_checked granted redis_close
  on_checked_present req s (ok (cred, count)) c j h = is_kept (
      (Adds-credential_update_counter ng command present laws conf.redis_key_prefix s.id count
          (pos req.time)).at
        c j h)
  on_checked_present req s declined c j h = h
  on_checked_present req s error c j h = h

  -- What is there at the end was there once the challenge was consumed.
  on_connected_present :
      (req : VerifyRequest) (origins : List Bytes) (s : SignIn) (c : Client Server) (j : Bytes)
      → present (on_connected js ssl jwx ng command dial conf req origins s (ok tt) c).1.server j
        ≡ true
      → present (challenge_consume ng command conf.redis_key_prefix s.challenge c).1.server j ≡ true
  unfolding on_connected check_sign_in
  on_connected_present req origins s c j h =
      Adds-rest ng command present laws
        (challenge_consume ng command conf.redis_key_prefix s.challenge) _ c j
        (λ _.
          Adds-bind ng command present laws (credential_get ng command conf.redis_key_prefix s.id) _
            (Adds-credential_get ng command present laws conf.redis_key_prefix s.id)
            λ cred.
              Adds-bind-lift ng command present laws
                (assertion_verify ssl js ng s.assertion (assertion_cred cred)
                  (policy_of conf origins s.challenge))
                _ λ count _. Adds-lift ng command present laws (ok (cred, count)))
        (on_checked_present req s _ _ j h)

  stopped_present :
      (req : VerifyRequest) (origins : List Bytes) (s : SignIn) (r : Rc (Unit {0}))
      (c : Client Server) (ch : Bytes)
      → present (on_connected js ssl jwx ng command dial conf req origins s r c).1.server (key ch)
        ≡ true
      → present c.server (key ch) ≡ true
  unfolding on_connected
  stopped_present req origins s (ok u) c ch h =
      consume_present ng command conf.redis_key_prefix present laws s.challenge ch c
        (on_connected_present req origins s c (key ch) h)
  stopped_present req origins s declined c ch h = h
  stopped_present req origins s error c ch h = h

  on_parsed_present :
      (req : VerifyRequest) (origins : List Bytes) (r : Rc SignIn) (c : Client Server) (ch : Bytes)
      → present (on_parsed js ssl jwx ng command dial conf req origins r c).1.server (key ch) ≡ true
      → present c.server (key ch) ≡ true
  unfolding on_parsed
  on_parsed_present req origins (ok s) c ch h = is_kept (
      (Adds-redis_connect ng command present laws dial opens (redis_conf conf)).at c (key ch)
        (stopped_present req origins s _ _ ch h))
  on_parsed_present req origins declined c ch h = h
  on_parsed_present req origins error c ch h = h

  on_body_present :
      (req : VerifyRequest) (origins : List Bytes) (r : Rc Bytes) (c : Client Server) (ch : Bytes)
      → present (on_body js ssl jwx ng command dial conf req origins r c).1.server (key ch) ≡ true
      → present c.server (key ch) ≡ true
  unfolding on_body
  on_body_present req origins (ok body) c ch h = on_parsed_present req origins _ c ch h
  on_body_present req origins declined c ch h = h
  on_body_present req origins error c ch h = h

  on_origins_present :
      (req : VerifyRequest) (o : Option (List Bytes)) (c : Client Server) (ch : Bytes)
      → present (on_origins js ssl jwx ng command dial conf req o c).1.server (key ch) ≡ true
      → present c.server (key ch) ≡ true
  unfolding on_origins
  on_origins_present req none c ch h = h
  on_origins_present req (some origins) c ch h =
      elim (if_server ng command present laws _ (plain 500, c)
        (on_body js ssl jwx ng command dial conf req origins (read_body ng req.body) c) (key ch)
        h) [ inl p ↦ p | inr p ↦ on_body_present req origins _ c ch p ]

  -- A sign-in request issues no challenge.
  pub verify_content_present :
      (req : VerifyRequest) (c : Client Server) (ch : Bytes)
      → present (verify_content js ssl jwx ng command dial conf req c).1.server (key ch) ≡ true
      → present c.server (key ch) ≡ true
  unfolding verify_content verify_done
  verify_content_present req c ch h =
      elim (if_server ng command present laws req.is_post
        (verify_done js ssl jwx ng command dial conf req c) (plain 405, c) (key ch) h) [
          | inl p ↦ on_origins_present req conf.origins c ch p
          | inr p ↦ p
        ]

  -- With the request read and the connection made, what is left of the handler.
  verify_done_step :
      (req : VerifyRequest) (c : Client Server) (cookie : Option Bytes)
      → (d : IsSignedIn js ssl jwx ng command dial conf req c cookie)
      → (verify_done js ssl jwx ng command dial conf req c).0.code ≡ 200
      → verify_done js ssl jwx ng command dial conf req c
        ≡ on_connected js ssl jwx ng command dial conf req d.origins d.sign_in (ok tt) d.connected
  unfolding verify_done on_origins on_body on_parsed
  verify_done_step req c cookie d h =
      rw (d.has_origins, d.read, d.parsed, d.connects)
        (by_guard js ssl jwx ng command dial conf _ req c _
          (rw (d.has_origins, d.read, d.parsed, d.connects) at h)).1

  -- On the connection: the challenge is there before the checks, and gone after the answer.
  connected_taken :
      (req : VerifyRequest) (origins : List Bytes) (s : SignIn) (c : Client Server)
      → (challenge_consume ng command conf.redis_key_prefix s.challenge c).0 ≡ ok tt
      → (present c.server (key s.challenge) ≡ true)
        × (present
              (on_connected js ssl jwx ng command dial conf req origins s (ok tt) c).1.server
              (key s.challenge)
            ≡ false)
  connected_taken req origins s c e =
      let (there, gone) =
        consume_taken ng command conf.redis_key_prefix present laws s.challenge c e in
      (there, unheld _ _ (on_connected_present req origins s c (key s.challenge)) gone)

  signed_in_taken :
      (req : VerifyRequest) (c : Client Server) (cookie : Option Bytes)
      → (d : IsSignedIn js ssl jwx ng command dial conf req c cookie)
      → (verify_done js ssl jwx ng command dial conf req c).0.code ≡ 200
      → (present c.server (key d.sign_in.challenge) ≡ true)
        × (present
              (verify_done js ssl jwx ng command dial conf req c).1.server
              (key d.sign_in.challenge)
            ≡ false)
  signed_in_taken req c cookie d h = rw (verify_done_step req c cookie d h) (
      let (there, gone) = connected_taken req d.origins d.sign_in d.connected d.checked.consumed in
      (
        is_kept (
            (Adds-redis_connect ng command present laws dial opens (redis_conf conf)).at c
              (key d.sign_in.challenge)
              (subst
                (λ (x : Rc (Unit {0}) × Client Server).
                  present x.1.server (key d.sign_in.challenge) ≡ true)
                (sym d.connects) there)),
        gone,
      ))

  same_sign_in :
      (req : VerifyRequest) (c : Client Server) (cookie : Option Bytes) (s : SignIn)
      → (d : IsSignedIn js ssl jwx ng command dial conf req c cookie)
      → sign_in_of ng js req.body ≡ ok s
      → d.sign_in ≡ s
  unfolding sign_in_of
  same_sign_in req c cookie s d e = cc (rw (d.read, d.parsed) at e)

  by_method :
      (b : Bool) (c : Client Server) (x : Response × Client Server)
      → (if b then x else (plain 405, c)).0.code ≡ 200
      → (if b then x else (plain 405, c)) ≡ x
  by_method true c x h = refl
  by_method false c x h = absurd (omega (arith, h))

  -- A sign-in takes the challenge that it names.
  pub verify_content_taken :
      (req : VerifyRequest) (c : Client Server) (s : SignIn)
      → sign_in_of ng js req.body ≡ ok s
      → (verify_content js ssl jwx ng command dial conf req c).0.code ≡ 200
      → (present c.server (key s.challenge) ≡ true)
        × (present (verify_content js ssl jwx ng command dial conf req c).1.server (key s.challenge)
            ≡ false)
  unfolding verify_content
  verify_content_taken req c s e h =
      let done : Response × Client Server = verify_done js ssl jwx ng command dial conf req c in
      let same : (if req.is_post then done else (plain 405, c)) ≡ done =
        by_method req.is_post c done h in
      let h' : done.0.code ≡ 200 =
        subst (λ (x : Response × Client Server). x.0.code ≡ 200) same h in
      let d = verify_done-IsSignedIn js ssl jwx ng command dial conf req c h' in
      subst
        (λ (x : Response × Client Server).
          (present c.server (key s.challenge) ≡ true)
          × (present x.1.server (key s.challenge) ≡ false))
        (sym same)
        (subst
          (λ (s : SignIn).
            (present c.server (key s.challenge) ≡ true)
            × (present done.1.server (key s.challenge) ≡ false))
          (same_sign_in req c _ s d e) (signed_in_taken req c _ d h'))
