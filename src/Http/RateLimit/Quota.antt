-- ===== src/Http/RateLimit/Quota.antt =====
-- How many requests of one client address the limit lets through. The requests take no time.
use nginx_auth_webauthn.Base.{ℕ, zero, suc, ◌+◌, Bytes, Bool, Option}
use nginx_auth_webauthn.Base.Rc.{Rc, ok, declined, error}
use nginx_auth_webauthn.Platform.{Nginx, Command}
use nginx_auth_webauthn.Keys.{rate_limit_name}
use nginx_auth_webauthn.Redis.Counter.{CounterLaws, open_client}
use nginx_auth_webauthn.Http.RateLimit.{rate_limit}

is_pass : Rc (Unit {0}) → ℕ
is_pass (ok u) = 1
is_pass declined = 0
is_pass error = 0

module _ {Server : Type 0} (ng : Nginx) (command : Command Server) (prefix : Bytes) (max window : ℕ)
    (ip : Bytes) where
  -- The requests of one address, one after the other, each on a connection of its own: how many pass.
  pub passes : ℕ → Server → ℕ
  passes zero s = 0
  passes (suc k) s =
      let (r, c) = rate_limit ng command prefix max window ip (open_client s) in
      is_pass r + passes k c.server

  module _ (count : Server → Bytes → Option ℕ) (expires : Server → Bytes → Bool)
      (laws : CounterLaws command count expires) where
    abbrev key : Bytes
    key = rate_limit_name prefix ip
