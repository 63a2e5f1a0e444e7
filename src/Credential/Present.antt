-- ===== src/Credential/Present.antt =====
-- src/ngx_auth_webauthn_credential.c: the string keys of a server that a call on a record meets.
use nginx_auth_webauthn.Base.{ℕ, Bytes, Bool, none}
use nginx_auth_webauthn.Base.Word.{ℤ}
use nginx_auth_webauthn.Platform.{Nginx, Command}
use nginx_auth_webauthn.Keys.{record_key}
use nginx_auth_webauthn.Redis.{redis_hgetall}
use nginx_auth_webauthn.Redis.Laws.{
  StringLaws, Adds, Adds-lift, Adds-bind, Adds-bind-lift, Adds-redis_hgetall, Adds-redis_hset,
}
use nginx_auth_webauthn.Credential.{credential_get, credential_update_counter}

module _ {Server : Type 0} (ng : Nginx) (command : Command Server) (present : Server → Bytes → Bool)
    (laws : StringLaws command present) (prefix : Bytes) where
  pub Adds-credential_get :
      (id : Bytes) → Adds ng command present laws none (credential_get ng command prefix id)
  unfolding credential_get
  Adds-credential_get id =
      Adds-bind-lift ng command present laws (record_key ng prefix id) _ λ name _.
        Adds-bind ng command present laws (redis_hgetall ng command name) _
          (Adds-redis_hgetall ng command present laws name)
          λ pairs. Adds-lift ng command present laws _

  pub Adds-credential_update_counter :
      (id : Bytes) (count : ℕ) (time : ℤ)
      → Adds ng command present laws none
          (credential_update_counter ng command prefix id count time)
  unfolding credential_update_counter
  Adds-credential_update_counter id count time =
      Adds-bind-lift ng command present laws (record_key ng prefix id) _
        λ name _. Adds-redis_hset ng command present laws name _
