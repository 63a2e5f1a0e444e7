-- ===== src/Hash.antt =====
-- src/ngx_auth_webauthn_hash.c: SHA-256 through OpenSSL's one-shot digest.
pub mod Digest
use nginx_auth_webauthn.Base.{ℕ, Bytes, length, ◌==◌}
use nginx_auth_webauthn.Base.Rc.{Rc, ok, error, ◌>>=◌, ◌>>◌, require, some_or}
use nginx_auth_webauthn.Platform.{Openssl}
use nginx_auth_webauthn.Authdata.{sha256_len}

-- A digest of another length than 32 is an error, as a failed call is.
unfoldable pub hash_sha256 : {Pkey : Type 0} → Openssl Pkey → Bytes → Rc Bytes
hash_sha256 ssl input = do
  digest ← some_or (ssl.digest_sha256 input) error
  require (length digest == sha256_len) error
  ok digest
