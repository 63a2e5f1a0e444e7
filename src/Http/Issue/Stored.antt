-- ===== src/Http/Issue/Stored.antt =====
-- What the challenge handler leaves of a challenge's key in Redis.
use nginx_auth_webauthn.Base.{
  ℕ, Bytes, length, ◌==◌, Bool, true, Option, none, some, List, [], ◌≡◌, ◌⊎◌, inl, inr, refl, sym,
}
use nginx_auth_webauthn.Base.Rc.{Rc, ok, declined, error, require}
use nginx_auth_webauthn.Base.Word.{ℤ, pos}
use nginx_auth_webauthn.Platform.{Nginx, Command}
use nginx_auth_webauthn.Keys.{challenge_name, rate_limit_name, index_key}
use nginx_auth_webauthn.Keys.Disjoint.{challenge_name_unique}
use nginx_auth_webauthn.Redis.{Client, redis_close, redis_connect, redis_incr_expire}
use nginx_auth_webauthn.Redis.Laws.{
  StringLaws, if_server, Adds, Adds-lift, Adds-bind, Adds-bind-lift, Adds-if, Adds-rest,
  Adds-redis_smembers, Adds-redis_incr_expire,
}
use nginx_auth_webauthn.Redis.Connect.{DialLaws, Adds-redis_connect}
use nginx_auth_webauthn.Challenge.{challenge_issue}
use nginx_auth_webauthn.Challenge.Held.{some-injective, is_kept, issue_present}
use nginx_auth_webauthn.Http.Conf.{LocConf, redis_conf}
use nginx_auth_webauthn.Http.RateLimit.{rate_limit, within}
use nginx_auth_webauthn.Http.Response.{plain}
use nginx_auth_webauthn.Http.Issue.{
  ChallengeRequest, allowed_creds, offer, on_offered, on_counted, on_open, challenge_content,
}

module _ {Server : Type 0} (ng : Nginx) (command : Command Server)
    (dial : Bytes → ℕ → Server → Option Server) (conf : LocConf) (present : Server → Bytes → Bool)
    (laws : StringLaws command present) (opens : DialLaws dial present) where
  abbrev key : Bytes → Bytes
  key ch = challenge_name conf.redis_key_prefix ch

  Adds-allowed_creds :
      (uid : Option Bytes)
      → Adds ng command present laws none (allowed_creds ng command dial conf uid)
  unfolding allowed_creds
  Adds-allowed_creds none = Adds-lift ng command present laws (ok [])
  Adds-allowed_creds (some raw) =
      Adds-if ng command present laws (length raw == 0) (Adds-lift ng command present laws (ok []))
        (Adds-bind-lift ng command present laws (require (ng.pnalloc (length raw)) error) _ λ _ _.
          Adds-bind-lift ng command present laws
            (index_key ng conf.redis_key_prefix (ng.unescape_uri raw)) _
            λ index _. Adds-redis_smembers ng command present laws index)

  offer_present :
      (req : ChallengeRequest) (ch : Bytes) (c : Client Server)
      → present (offer ng command dial conf req c).1.server (key ch) ≡ true
      → (present c.server (key ch) ≡ true) ⊎ (req.rand ≡ some ch)
  unfolding offer
  offer_present req ch c h =
      issue_present ng command conf.redis_key_prefix present laws req.rand (pos conf.challenge_ttl)
        ch c
        (Adds-rest ng command present laws
          (challenge_issue ng command req.rand conf.redis_key_prefix (pos conf.challenge_ttl)) _ c
          (key ch)
          (λ challenge.
            Adds-bind ng command present laws (allowed_creds ng command dial conf req.user_id) _
              (Adds-allowed_creds req.user_id)
              λ creds. Adds-lift ng command present laws (ok (challenge, creds)))
          h)

  on_offered-server :
      (r : Rc (Bytes × List Bytes)) (c : Client Server)
      → (on_offered ng command dial conf r c).1.server ≡ c.server
  unfolding on_offered redis_close
  on_offered-server (ok found) c = refl
  on_offered-server declined c = refl
  on_offered-server error c = refl

  on_counted_present :
      (req : ChallengeRequest) (ch : Bytes) (r : Rc (Unit {0})) (c : Client Server)
      → present (on_counted ng command dial conf req r c).1.server (key ch) ≡ true
      → (present c.server (key ch) ≡ true) ⊎ (req.rand ≡ some ch)
  unfolding on_counted redis_close
  on_counted_present req ch (ok u) c h = offer_present req ch c (rw on_offered-server at h)
  on_counted_present req ch declined c h = inl h
  on_counted_present req ch error c h = offer_present req ch c (rw on_offered-server at h)

  -- The counter of an address is no challenge.
  rate_limit_present :
      (max window : ℕ) (ip ch : Bytes) (c : Client Server)
      → present (rate_limit ng command conf.redis_key_prefix max window ip c).1.server (key ch)
        ≡ true
      → present c.server (key ch) ≡ true
  unfolding rate_limit
  rate_limit_present max window ip ch c h =
      let name : Bytes = rate_limit_name conf.redis_key_prefix ip in
      let counted : Rc ℤ × Client Server = redis_incr_expire ng command name window c in
      elim (if_server ng command present laws _ (ok tt, c) (within max counted.0, counted.1)
        (key ch) h) [
          | inl p ↦ p
          | inr q ↦
              elim ((Adds-redis_incr_expire ng command present laws name window).at c (key ch) q) [
                | inl p ↦ p
                | inr e ↦
                    absurd (
                      (challenge_name_unique conf.redis_key_prefix ch ip).3
                        (sym (some-injective e)))
              ]
        ]

  on_open_present :
      (req : ChallengeRequest) (ch : Bytes) (r : Rc (Unit {0})) (c : Client Server)
      → present (on_open ng command dial conf req r c).1.server (key ch) ≡ true
      → (present c.server (key ch) ≡ true) ⊎ (req.rand ≡ some ch)
  unfolding on_open
  on_open_present req ch (ok u) c h = elim (on_counted_present req ch _ _ h) [
    | inl p ↦ inl (rate_limit_present conf.rate_limit_max conf.rate_limit_window req.addr ch c p)
    | inr e ↦ inr e
  ]
  on_open_present req ch declined c h = inl h
  on_open_present req ch error c h = inl h

  -- The key of a challenge that is there after a request was there before, or the request drew it.
  pub challenge_content_present :
      (req : ChallengeRequest) (ch : Bytes) (c : Client Server)
      → present (challenge_content ng command dial conf req c).1.server (key ch) ≡ true
      → (present c.server (key ch) ≡ true) ⊎ (req.rand ≡ some ch)
  unfolding challenge_content
  challenge_content_present req ch c h =
      let opened : Rc (Unit {0}) × Client Server =
        redis_connect ng command dial (redis_conf conf) c in
      elim (if_server ng command present laws _ (plain 500, c)
        (on_open ng command dial conf req opened.0 opened.1) (key ch) h) [
          | inl p ↦ inl p
          | inr q ↦ elim (on_open_present req ch opened.0 opened.1 q) [
            | inl p ↦ inl (
                is_kept (
                  (Adds-redis_connect ng command present laws dial opens (redis_conf conf)).at c
                    (key ch) p))
            | inr e ↦ inr e
          ]
        ]
