-- ===== src/Http/RateLimit.antt =====
-- src/ngx_http_auth_webauthn_module.c, `rate_limit`: challenges for each client address, counted in Redis.
pub mod Quota
use nginx_auth_webauthn.Base.{
  ℕ, ◌-◌, ◌^◌, Bytes, length, ltb, ◌==◌, if◌then◌else◌, Bool, true, false, not, ◌||◌,
}
use nginx_auth_webauthn.Base.Rc.{Rc, ok, declined, error}
use nginx_auth_webauthn.Base.Word.{ℤ, pos, negsuc}
use nginx_auth_webauthn.Platform.{Nginx, Command}
use nginx_auth_webauthn.Keys.{rate_limit_name}
use nginx_auth_webauthn.Redis.{Exec, redis_incr_expire}

-- `(ngx_uint_t) count`
abbrev pub to_uint64 : ℤ → ℕ
to_uint64 (pos n) = n
to_uint64 (negsuc n) = 2 ^ 64 - 1 - n

-- A counter that could not be read lets the request pass.
pub within : ℕ → Rc ℤ → Rc (Unit {0})
within max (ok count) = if ltb max (to_uint64 count) then declined else ok tt
within max declined = ok tt
within max error = ok tt

-- No limit, or no memory for the key: the request passes uncounted.
unfoldable pub rate_limit :
    {Server : Type 0} → Nginx → Command Server → Bytes → ℕ → ℕ → Bytes → Exec Server (Unit {0})
rate_limit ng command prefix max window ip c =
    if max == 0 || not (ng.pnalloc (length (rate_limit_name prefix ip)))
    then (ok tt, c)
    else let (count, c') = redis_incr_expire ng command (rate_limit_name prefix ip) window c in
      (within max count, c')
