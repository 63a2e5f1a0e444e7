-- ===== src/Http/Conf/Merge.antt =====
-- src/ngx_http_auth_webauthn_module.c, `create_loc_conf` and `merge_loc_conf`: what a location inherits, and its key.
pub mod Inherit
pub mod OnlyKey
use nginx_auth_webauthn.Base.{
  ℕ, Bytes, length, codes, ltb, ◌==◌, if◌then◌else◌, Bool, true, false, ◌&&◌, ◌||◌, Option, none,
  some, List, [],
}
use nginx_auth_webauthn.Base.Rc.{Rc, ok, declined, error, ◌>>=◌, ◌>>◌, require}
use nginx_auth_webauthn.Platform.{NginxConf, Pem}
use nginx_auth_webauthn.Http.Conf.{LocConf, RawConf, jwt_hmac, uv_preferred}
use nginx_auth_webauthn.Http.Conf.Key.{read_file, chomp, derive_pub_pem}

-- `ngx_conf_merge_*_value`
abbrev pub merged {ℓ} : {A : Type ℓ} → Option A → Option A → A → A
merged (some a) prev default = a
merged none (some a) default = a
merged none none default = default

-- The fields, without the key.
unfoldable pub merge_fields : RawConf → RawConf → LocConf
merge_fields prev conf = record {
  rp_id = merged conf.rp_id prev.rp_id [];
  rp_name = merged conf.rp_name prev.rp_name [];
  origins = merged conf.origins prev.origins none;
  challenge_ttl = merged conf.challenge_ttl prev.challenge_ttl 60;
  user_verification = merged conf.user_verification prev.user_verification uv_preferred;
  rate_limit_max = merged conf.rate_limit_max prev.rate_limit_max 0;
  rate_limit_window = merged conf.rate_limit_window prev.rate_limit_window 60;
  redis_url = merged conf.redis_url prev.redis_url [];
  redis_host = merged conf.redis_host prev.redis_host [];
  redis_port = merged conf.redis_port prev.redis_port 0;
  redis_password = merged conf.redis_password prev.redis_password [];
  redis_db = merged conf.redis_db prev.redis_db 0;
  redis_timeout = merged conf.redis_timeout prev.redis_timeout 100;
  redis_key_prefix = merged conf.redis_key_prefix prev.redis_key_prefix (codes "webauthn:");
  jwt_secret_file = merged conf.jwt_secret_file prev.jwt_secret_file [];
  jwt_secret = merged conf.jwt_secret prev.jwt_secret [];
  jwt_pub_pem = merged conf.jwt_pub_pem prev.jwt_pub_pem [];
  jwt_alg = merged conf.jwt_alg prev.jwt_alg (codes "HS256");
  jwt_alg_family = merged conf.jwt_alg_family prev.jwt_alg_family jwt_hmac;
  jwt_ttl = merged conf.jwt_ttl prev.jwt_ttl 3600;
  cookie_name = merged conf.cookie_name prev.cookie_name (codes "webauthn_session");
  cookie_domain = merged conf.cookie_domain prev.cookie_domain [];
  cookie_path = merged conf.cookie_path prev.cookie_path (codes "/");
  cookie_secure = merged conf.cookie_secure prev.cookie_secure true;
  cookie_samesite = merged conf.cookie_samesite prev.cookie_samesite 0;
  clone_detection = merged conf.clone_detection prev.clone_detection 0;
  auth = merged conf.auth prev.auth false;
  signin_url = merged conf.signin_url prev.signin_url [];
  set_headers = merged conf.set_headers prev.set_headers [];
  challenge_handler = merged conf.challenge_handler prev.challenge_handler false;
  verify_handler = merged conf.verify_handler prev.verify_handler false;
}

abbrev pub min_secret : ℕ
min_secret = 32

module _ {Pkey : Type 0} (ng : NginxConf) (pem : Pem Pkey) where
  -- An HMAC secret of its least length, or the public key of an asymmetric one.
  unfoldable pub keyed : LocConf → Bytes → Rc LocConf
  keyed conf text =
      if conf.jwt_alg_family == jwt_hmac
      then (let secret = chomp text in
          if ltb (length secret) min_secret
          then error
          else ok (record conf { jwt_secret = secret }))
      else derive_pub_pem ng pem text >>= λ pub_pem.
          ok (record conf { jwt_secret = text; jwt_pub_pem = pub_pem })

  -- The key is loaded where sessions are made or checked, and none is there yet.
  unfoldable pub load_key : LocConf → Rc LocConf
  unfolding keyed
  load_key conf =
      if (conf.auth || conf.verify_handler)
        && (length conf.jwt_secret == 0)
        && ltb 0 (length conf.jwt_secret_file)
      then read_file ng conf.jwt_secret_file >>= keyed conf
      else ok conf

  unfoldable pub merge_loc_conf : RawConf → RawConf → Rc LocConf
  unfolding merge_fields load_key
  merge_loc_conf prev conf = load_key (merge_fields prev conf)
