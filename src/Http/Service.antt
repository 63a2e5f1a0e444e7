-- ===== src/Http/Service.antt =====
-- src/ngx_http_auth_webauthn_module.c, the two content handlers on one Redis server: what a run of requests can get.
use nginx_auth_webauthn.Base.{
  ℕ, ◌+◌, ◌≤◌, Bytes, bytes_eq, bytes_eq_iff, ◌==◌, ==_iff, if◌then◌else◌, Bool, true, false, ◌&&◌,
  Option, none, some, List, [], ◌∷◌, ◌≡◌, inl, inr, refl, sym, ◌∙◌, subst, arith, Bool-cases,
}
use nginx_auth_webauthn.Base.Rc.{Rc, ok, declined, error}
use nginx_auth_webauthn.Platform.{Nginx, JsonLib, Jwx, Openssl, Command}
use nginx_auth_webauthn.Keys.{challenge_name}
use nginx_auth_webauthn.Redis.{Client}
use nginx_auth_webauthn.Redis.Laws.{StringLaws}
use nginx_auth_webauthn.Redis.Connect.{DialLaws}
use nginx_auth_webauthn.Challenge.Held.{kept, paid, some-injective, drawn_now, held}
use nginx_auth_webauthn.Http.Conf.{LocConf}
use nginx_auth_webauthn.Http.Response.{Response}
use nginx_auth_webauthn.Http.Issue.{ChallengeRequest, challenge_content}
use nginx_auth_webauthn.Http.Issue.Stored.{challenge_content_present}
use nginx_auth_webauthn.Http.Verify.{VerifyRequest, verify_content}
use nginx_auth_webauthn.Http.Verify.Body.{SignIn, sign_in_of}
use nginx_auth_webauthn.Http.Verify.Spent.{verify_content_present, verify_content_taken}

-- A request to the location of either handler, or time that passes.
pub data Event : Type 0 where
  ask : ChallengeRequest → Event
  sign_in : VerifyRequest → Event
  elapse : ℕ → Event

-- How often one challenge was drawn.
abbrev pub is_draw : Bytes → Option Bytes → ℕ
is_draw ch none = 0
is_draw ch (some r) = if bytes_eq r ch then 1 else 0

unfoldable pub draws : Bytes → Event → ℕ
draws ch (ask req) = is_draw ch req.rand
draws ch (sign_in req) = 0
draws ch (elapse n) = 0

unfoldable pub drawn : Bytes → List Event → ℕ
unfolding draws
drawn ch [] = 0
drawn ch (e ∷ es) = draws ch e + drawn ch es

both : (a b : Bool) → (a && b) ≡ true → (a ≡ true) × (b ≡ true)
both a b h = ground (arith, Bool-cases a, Bool-cases b)

module _ {Server Json Pkey Token Jwks Payload : Type 0} (js : JsonLib Json) (ssl : Openssl Pkey)
    (jwx : Jwx Token Jwks Payload) (ng : Nginx) (command : Command Server)
    (dial : Bytes → ℕ → Server → Option Server) (wait : ℕ → Server → Server) (conf : LocConf) where
  -- Each request starts without a connection.
  abbrev new_client : Server → Client Server
  new_client s = record { connected = false; server = s }

  unfoldable pub serve : Event → Server → Option Response × Server
  serve (ask req) s =
      let (response, c) = challenge_content ng command dial conf req (new_client s) in
      (some response, c.server)
  serve (sign_in req) s =
      let (response, c) = verify_content js ssl jwx ng command dial conf req (new_client s) in
      (some response, c.server)
  serve (elapse n) s = (none, wait n s)

  -- A sign-in by one challenge: the status of a session, for a body that names it.
  unfoldable pub signs_in : Bytes → Rc SignIn → ℕ → Bool
  signs_in ch (ok s) code = bytes_eq s.challenge ch && (code == 200)
  signs_in ch declined code = false
  signs_in ch error code = false

  unfoldable pub gains : Bytes → Event → Server → ℕ
  unfolding signs_in
  gains ch (ask req) s = 0
  gains ch (sign_in req) s =
      if signs_in ch (sign_in_of ng js req.body)
        (verify_content js ssl jwx ng command dial conf req (new_client s)).0.code
      then 1
      else 0
  gains ch (elapse n) s = 0

  unfoldable pub sessions : Bytes → List Event → Server → ℕ
  unfolding gains serve
  sessions ch [] s = 0
  sessions ch (e ∷ es) s = gains ch e s + sessions ch es (serve e s).1

  module _ (present : Server → Bytes → Bool) (laws : StringLaws command present)
      (opens : DialLaws dial present)
      (fades : (n : ℕ) (s : Server) (j : Bytes)
        → present (wait n s) j ≡ true
        → present s j ≡ true) where
    signs_in_taken :
        (req : VerifyRequest) (c : Client Server) (ch : Bytes) (r : Rc SignIn)
        → sign_in_of ng js req.body ≡ r
        → signs_in ch r (verify_content js ssl jwx ng command dial conf req c).0.code ≡ true
        → (present c.server (challenge_name conf.redis_key_prefix ch) ≡ true)
          × (present
                (verify_content js ssl jwx ng command dial conf req c).1.server
                (challenge_name conf.redis_key_prefix ch)
              ≡ false)
    unfolding signs_in
    signs_in_taken req c ch (ok s) e h =
        let (named, code) = both _ _ h in
        subst
          (λ (ch : Bytes).
            (present c.server (challenge_name conf.redis_key_prefix ch) ≡ true)
            × (present (verify_content js ssl jwx ng command dial conf req c).1.server
                  (challenge_name conf.redis_key_prefix ch)
                ≡ false))
          ((bytes_eq_iff s.challenge ch).0 named)
          (verify_content_taken js ssl jwx ng command dial conf present laws opens req c s e
            ((==_iff _ 200).0 code))
    signs_in_taken req c ch declined e h = cc
    signs_in_taken req c ch error e h = cc

    abbrev held_now : Bytes → Server → ℕ
    held_now ch s = held ng command conf.redis_key_prefix present laws ch s

    -- One request: a session is paid for by what was held or drawn.
    balance :
        (ch : Bytes) (e : Event) (s : Server)
        → gains ch e s + held_now ch (serve e s).1 ≤ draws ch e + held_now ch s
    unfolding gains serve draws
    balance ch (ask req) s = asked req.rand refl
      where
        asked :
            (rand : Option Bytes)
            → req.rand ≡ rand
            → 0 + held_now ch (serve (ask req) s).1 ≤ is_draw ch rand + held_now ch s
        asked none e = kept _ _ 0 λ h.
            elim (challenge_content_present ng command dial conf present laws opens req ch
              (new_client s) h) [ inl p ↦ inl p | inr d ↦ cc ]
        asked (some r) e = kept _ _ _ λ h.
            elim (challenge_content_present ng command dial conf present laws opens req ch
              (new_client s) h) [
                | inl p ↦ inl p
                | inr d ↦ inr (drawn_now (some-injective (sym e ∙ d)))
              ]
    balance ch (sign_in req) s = paid _ _ _ (signs_in_taken req (new_client s) ch _ refl) (
        verify_content_present js ssl jwx ng command dial conf present laws opens req (new_client s)
          ch)
    balance ch (elapse n) s =
        kept _ _ 0 λ h. inl (fades n s (challenge_name conf.redis_key_prefix ch) h)

    -- For a server that keeps the string laws, connections that find no new string keys, and keys that only fade with time: through any
    -- requests to the two handlers in any order, the sign-ins answered 200 for a challenge are at most as many as it was
    -- drawn for a challenge request, and once more if its key was there at first.
    pub sessions-le-drawn :
        (ch : Bytes) (es : List Event) (s : Server)
        → sessions ch es s
          ≤ drawn ch es + (if present s (challenge_name conf.redis_key_prefix ch) then 1 else 0)
    unfolding sessions drawn
    sessions-le-drawn ch [] s = omega arith
    sessions-le-drawn ch (e ∷ es) s =
        omega (arith, balance ch e s, sessions-le-drawn ch es (serve e s).1)
