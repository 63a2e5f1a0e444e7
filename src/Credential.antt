-- ===== src/Credential.antt =====
-- src/ngx_auth_webauthn_credential.c: credential records in Redis, a hash for each and a set of their ids for each user.
mod Number
mod Fields
pub mod Numeral
pub mod Record
pub mod Stored
pub mod Present
pub mod AnyOrder
pub mod Abstract
pub mod Refine
unfoldable pub use Number.{minus, scan, atoi64, print_int}
pub use Fields.{Credential, blank, fits_int32, aaguid_pairs}
unfoldable pub use Fields.{
  set_alg, set_sign_count, read_time, set_field, set_fields, parse_record, record_pairs,
}
use nginx_auth_webauthn.Base.{
  ℕ, ◌^◌, Bytes, bytes_eq, length, codes, ltb, ◌==◌, if◌then◌else◌, Bool, true, false, ◌||◌, Option,
  none, some, List, [], ◌∷◌, ◌++◌,
}
use nginx_auth_webauthn.Base.Rc.{Rc, ok, declined, error}
use nginx_auth_webauthn.Base.Word.{ℤ, pos, negsuc, int_eq}
use nginx_auth_webauthn.Platform.{Nginx, Command}
use nginx_auth_webauthn.Keys.{record_key, index_key}
use nginx_auth_webauthn.Redis.{
  Exec, ◌>>=◌, ◌>>◌, lift, decimal, redis_hgetall, redis_hset, redis_sadd, redis_srem, redis_del,
}

module _ {Server : Type 0} (ng : Nginx) (command : Command Server) where
  unfoldable pub credential_get : Bytes → Bytes → Exec Server Credential
  credential_get prefix id = do
    key ← lift (record_key ng prefix id)
    pairs ← redis_hgetall ng command key
    lift (parse_record id pairs)

  unfoldable pub credential_put : Bytes → Credential → Exec Server (Unit {0})
  credential_put prefix cred =
      if length cred.credential_id == 0 || length cred.user_id == 0 then lift error else do
        key ← lift (record_key ng prefix cred.credential_id)
        redis_hset ng command key (record_pairs cred)
        index ← lift (index_key ng prefix cred.user_id)
        redis_sadd ng command index cred.credential_id

  unfoldable pub credential_update_counter : Bytes → Bytes → ℕ → ℤ → Exec Server (Unit {0})
  credential_update_counter prefix id new_count last_used_at = do
    key ← lift (record_key ng prefix id)
    redis_hset ng command key (
        (codes "sign_count", decimal new_count)
        ∷ (codes "last_used_at", print_int last_used_at)
        ∷ [])

  -- The record is read first, for the user whose index holds its id.
  pub credential_delete : Bytes → Bytes → Exec Server (Unit {0})
  credential_delete prefix id = do
    cred ← credential_get prefix id
    key ← lift (record_key ng prefix id)
    redis_del ng command key
    if length cred.user_id == 0
        then lift (ok tt)
        else do index ← lift (index_key ng prefix cred.user_id); redis_srem ng command index id
