-- ===== src/Http/Issue.antt =====
-- src/ngx_http_auth_webauthn_module.c, the challenge handler: a challenge for a browser, with the credentials of the user it names.
pub mod Body
pub mod Stored
use nginx_auth_webauthn.Base.{
  ℕ, ◌+◌, ◌*◌, Bytes, length, codes, ◌==◌, if◌then◌else◌, Bool, true, false, ◌||◌, Option, none,
  some, List, [], ◌∷◌, ◌++◌,
}
use nginx_auth_webauthn.Base.Rc.{Rc, ok, declined, error, require}
use nginx_auth_webauthn.Base.Word.{pos}
use nginx_auth_webauthn.Platform.{Nginx, Command}
use nginx_auth_webauthn.Keys.{index_key}
use nginx_auth_webauthn.Redis.{
  Client, Exec, ◌>>=◌, ◌>>◌, lift, decimal, redis_connect, redis_close, redis_smembers,
}
use nginx_auth_webauthn.Challenge.{challenge_issue}
use nginx_auth_webauthn.Http.Conf.{LocConf, redis_conf}
use nginx_auth_webauthn.Http.RateLimit.{rate_limit}
use nginx_auth_webauthn.Http.Response.{Response, plain}
use nginx_auth_webauthn.Http.Issue.Body.{offer_response}

-- What a request brings from outside: the address of the client, the raw argument `user_id`, and the random bytes for the challenge.
pub record ChallengeRequest : Type 0 where
  pub addr : Bytes
  pub user_id : Option Bytes
  pub rand : Option Bytes

module _ {Server : Type 0} (ng : Nginx) (command : Command Server)
    (dial : Bytes → ℕ → Server → Option Server) (conf : LocConf) where
  -- The percent-decoded user id names the index; no argument, or an empty one, names no credentials.
  unfoldable pub allowed_creds : Option Bytes → Exec Server (List Bytes)
  allowed_creds none = lift (ok [])
  allowed_creds (some raw) = if length raw == 0 then lift (ok []) else do
    lift (require (ng.pnalloc (length raw)) error)
    key ← lift (index_key ng conf.redis_key_prefix (ng.unescape_uri raw))
    redis_smembers ng command key

  unfoldable pub offer : ChallengeRequest → Exec Server (Bytes × List Bytes)
  unfolding allowed_creds
  offer req = do
    challenge ← challenge_issue ng command req.rand conf.redis_key_prefix (pos conf.challenge_ttl)
    creds ← allowed_creds req.user_id
    lift (ok (challenge, creds))

  unfoldable pub on_offered : Rc (Bytes × List Bytes) → Client Server → Response × Client Server
  unfolding offer_response
  on_offered (ok (challenge, creds)) c =
      (offer_response ng conf challenge creds, redis_close ng command c)
  on_offered declined c = (plain 500, redis_close ng command c)
  on_offered error c = (plain 500, redis_close ng command c)

  -- Only a quota that is used up stops the request.
  unfoldable pub on_counted :
      ChallengeRequest → Rc (Unit {0}) → Client Server → Response × Client Server
  unfolding offer on_offered
  on_counted req (ok _) c = let (r, c') = offer req c in on_offered r c'
  on_counted req declined c = (plain 429, redis_close ng command c)
  on_counted req error c = let (r, c') = offer req c in on_offered r c'

  unfoldable pub on_open :
      ChallengeRequest → Rc (Unit {0}) → Client Server → Response × Client Server
  unfolding on_counted
  on_open req (ok _) c =
      let (r, c') =
        rate_limit ng command conf.redis_key_prefix conf.rate_limit_max conf.rate_limit_window
          req.addr c in
      on_counted req r c'
  on_open req declined c = (plain 500, c)
  on_open req error c = (plain 500, c)

  unfoldable pub challenge_content : ChallengeRequest → Client Server → Response × Client Server
  unfolding on_open
  challenge_content req c =
      if length conf.rp_id == 0 || length conf.redis_host == 0
      then (plain 500, c)
      else let (r, c') = redis_connect ng command dial (redis_conf conf) c in on_open req r c'
