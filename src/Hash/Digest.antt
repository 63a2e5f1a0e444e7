-- ===== src/Hash/Digest.antt =====
-- What a SHA-256 digest of the program is.
use nginx_auth_webauthn.Base.{Bytes, length, ◌≡◌, ◌↔◌, some, arith}
use nginx_auth_webauthn.Base.Rc.{ok}
use nginx_auth_webauthn.Platform.{Openssl}
use nginx_auth_webauthn.Hash.{hash_sha256}

module _ {Pkey : Type 0} (ssl : Openssl Pkey) where
  -- A digest that OpenSSL made, of the length of SHA-256.
  abbrev pub IsDigest : Bytes → Bytes → Type 0
  IsDigest input digest = (ssl.digest_sha256 input ≡ some digest) × (length digest ≡ 32)

  -- The hash is the digest that OpenSSL made, and no digest of another length.
  pub hash_sha256_iff :
      (input digest : Bytes) → (hash_sha256 ssl input ≡ ok digest) ↔ IsDigest input digest
  unfolding hash_sha256
  hash_sha256_iff input digest = ground arith
