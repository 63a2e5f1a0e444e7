-- ===== src/Challenge.antt =====
-- src/ngx_auth_webauthn_challenge.c: one-time challenges in Redis.
pub mod Held
pub mod SingleUse
pub mod Lasting
use nginx_auth_webauthn.Base.{
  ℕ, ◌-◌, ◌^◌, Bytes, length, codes, ltb, leb, ◌==◌, if◌then◌else◌, Bool, true, false, not, ◌&&◌,
  Option, none, some,
}
use nginx_auth_webauthn.Base.Rc.{Rc, ok, declined, error, some_or}
use nginx_auth_webauthn.Base.Word.{ℤ, pos, negsuc}
use nginx_auth_webauthn.Platform.{Nginx, Command}
use nginx_auth_webauthn.Keys.{challenge_key}
use nginx_auth_webauthn.Redis.{Exec, ◌>>=◌, ◌>>◌, lift, redis_set_ex, redis_getdel}

abbrev pub challenge_len : ℕ
challenge_len = 32

abbrev pub uint32_max : ℕ
uint32_max = 2 ^ 32 - 1

-- A `time_t` that is neither `<= 0` nor above UINT32_MAX, as seconds.
unfoldable pub valid_ttl : ℤ → Option ℕ
valid_ttl (pos n) = if ltb 0 n && leb n uint32_max then some n else none
valid_ttl (negsuc n) = none

module _ {Server : Type 0} (ng : Nginx) (command : Command Server) where
  -- `rand` is what RAND_bytes gave: 32 bytes, or none.
  unfoldable pub challenge_issue : Option Bytes → Bytes → ℤ → Exec Server Bytes
  challenge_issue rand key_prefix ttl = do
    seconds ← lift (some_or (valid_ttl ttl) error)
    challenge ← lift (some_or rand error)
    key ← lift (challenge_key ng key_prefix challenge)
    redis_set_ex ng command key (codes "1") seconds
    lift (ok challenge)

  -- Found or not, the key is gone.
  unfoldable pub challenge_consume : Bytes → Bytes → Exec Server (Unit {0})
  challenge_consume key_prefix challenge =
      if not (length challenge == challenge_len) then lift declined else do
        key ← lift (challenge_key ng key_prefix challenge)
        found ← redis_getdel ng command key
        lift (if found then ok tt else declined)
