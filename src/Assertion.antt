-- ===== src/Assertion.antt =====
-- src/ngx_auth_webauthn_assertion.c: the verification of an authentication assertion.
pub mod Counter
pub mod Signature
pub mod Valid
use Prim.Native.Nat.{bit_and, bit_or}
use nginx_auth_webauthn.Base.{
  ℕ, ◌+◌, Bytes, length, bytes_eq, codes, ltb, ◌==◌, if◌then◌else◌, Bool, true, false, not, ◌&&◌,
  ◌||◌, List, ◌++◌,
}
use nginx_auth_webauthn.Base.Rc.{Rc, ok, declined, error, ◌>>=◌, ◌>>◌, require, some_or}
use nginx_auth_webauthn.Base.Word.{ℤ, pos, negsuc, int_eq}
use nginx_auth_webauthn.Platform.{Nginx, JsonLib, Openssl, PkeyType, Md, ec, rsa, ed25519}
use nginx_auth_webauthn.Hash.{hash_sha256}
use nginx_auth_webauthn.Authdata
use nginx_auth_webauthn.Authdata.{sha256_len, flag_up, flag_uv, flag_at, flag_ed}
use nginx_auth_webauthn.Clientdata

abbrev pub clone_strict : ℕ
clone_strict = 0

abbrev pub clone_lax : ℕ
clone_lax = 1

abbrev pub clone_off : ℕ
clone_off = 2

pub record Assertion : Type 0 where
  pub authenticator_data : Bytes
  pub client_data_json : Bytes
  pub signature : Bytes

pub record AssertionCred : Type 0 where
  pub public_key : Bytes
  pub alg : ℤ
  pub sign_count : ℕ

pub record AssertionPolicy : Type 0 where
  pub rp_id : Bytes
  pub expected_challenge : Bytes
  pub allowed_origins : List Bytes
  pub require_uv : Bool
  pub clone_detection : ℕ

unfoldable pub check_counter : ℕ → ℕ → ℕ → Rc (Unit {0})
check_counter policy auth stored =
    if policy == clone_off
    then ok tt
    else if auth == 0 && stored == 0
    then ok tt
    else if ltb stored auth
    then ok tt
    else if policy == clone_lax
    then ok tt
    else declined

-- The `switch` on the COSE algorithm: -7 ES256, -257 RS256, -8 EdDSA.
unfoldable pub digest_for : ℤ → Rc (Md × PkeyType)
digest_for alg =
    if int_eq alg (negsuc 6)
    then ok (Md.sha256, ec)
    else if int_eq alg (negsuc 256)
    then ok (Md.sha256, rsa)
    else if int_eq alg (negsuc 7)
    then ok (Md.none, ed25519)
    else error

unfoldable pub same_type : PkeyType → PkeyType → Bool
same_type ec ec = true
same_type rsa rsa = true
same_type ed25519 ed25519 = true
same_type (PkeyType.other m) (PkeyType.other n) = m == n
same_type _ _ = false

-- What `EVP_DigestVerify` returned: 1 is a good signature, 0 a bad one, and all else an error.
unfoldable pub verdict : ℤ → Rc (Unit {0})
verdict ret = if int_eq ret (pos 1) then ok tt else if int_eq ret (pos 0) then declined else error

module _ {Pkey : Type 0} (ssl : Openssl Pkey) where
  -- The key is loaded and its type compared before any digest is made.
  unfoldable pub check_signature : AssertionCred → Bytes → Bytes → Rc (Unit {0})
  check_signature cred signed_data signature = do
    (md, want_type) ← digest_for cred.alg
    pkey ← some_or (ssl.d2i_pubkey cred.public_key) error
    require (same_type (ssl.base_id pkey) want_type) error
    require ssl.md_ctx_new error
    require (ssl.digest_verify_init md pkey) error
    verdict (ssl.digest_verify md pkey signature signed_data)

  -- The result is the counter of authData.
  unfoldable pub assertion_verify :
      {Json : Type 0} → JsonLib Json → Nginx → Assertion → AssertionCred → AssertionPolicy → Rc ℕ
  assertion_verify js ng assertion cred policy = do
    Clientdata.verify js ng assertion.client_data_json (codes "webauthn.get")
        policy.expected_challenge policy.allowed_origins
    ad ← Authdata.parse assertion.authenticator_data
    require (bit_and ad.flags (bit_or flag_at flag_ed) == 0) declined
    rp_id_hash ← hash_sha256 ssl policy.rp_id
    require (bytes_eq rp_id_hash ad.rp_id_hash) declined
    require (not (bit_and ad.flags flag_up == 0)) declined
    require (not (policy.require_uv && bit_and ad.flags flag_uv == 0)) declined
    check_counter policy.clone_detection ad.sign_count cred.sign_count
    require (ng.pnalloc (length assertion.authenticator_data + sha256_len)) error
    client_data_hash ← hash_sha256 ssl assertion.client_data_json
    check_signature cred (assertion.authenticator_data ++ client_data_hash) assertion.signature
    ok ad.sign_count
