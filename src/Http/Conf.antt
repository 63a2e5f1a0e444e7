-- ===== src/Http/Conf.antt =====
-- src/ngx_http_auth_webauthn_module.c, the configuration of a location.
pub mod Key
pub mod Directives
pub mod Merge
pub mod Table
use nginx_auth_webauthn.Base.{ℕ, Bytes, Bool, Option, none, some, List}
use nginx_auth_webauthn.Redis.{RedisConf}

abbrev pub jwt_hmac : ℕ
jwt_hmac = 0

abbrev pub jwt_asym : ℕ
jwt_asym = 1

abbrev pub uv_required : ℕ
uv_required = 0

abbrev pub uv_preferred : ℕ
uv_preferred = 1

abbrev pub uv_discouraged : ℕ
uv_discouraged = 2

-- The values after merging. `origins` may be a NULL array, and a NULL array of headers is the empty list; a header to set is a name
-- and the text of its value. The times are seconds and milliseconds.
pub record LocConf : Type 0 where
  pub rp_id : Bytes
  pub rp_name : Bytes
  pub origins : Option (List Bytes)
  pub challenge_ttl : ℕ
  pub user_verification : ℕ
  pub rate_limit_max : ℕ
  pub rate_limit_window : ℕ
  pub redis_url : Bytes
  pub redis_host : Bytes
  pub redis_port : ℕ
  pub redis_password : Bytes
  pub redis_db : ℕ
  pub redis_timeout : ℕ
  pub redis_key_prefix : Bytes
  pub jwt_secret_file : Bytes
  pub jwt_secret : Bytes
  pub jwt_pub_pem : Bytes
  pub jwt_alg : Bytes
  pub jwt_alg_family : ℕ
  pub jwt_ttl : ℕ
  pub cookie_name : Bytes
  pub cookie_domain : Bytes
  pub cookie_path : Bytes
  pub cookie_secure : Bool
  pub cookie_samesite : ℕ
  pub clone_detection : ℕ
  pub auth : Bool
  pub signin_url : Bytes
  pub set_headers : List (Bytes × Bytes)
  pub challenge_handler : Bool
  pub verify_handler : Bool

-- What the directives of a location set, before merging: `none` is NGX_CONF_UNSET, or the NULL data of a text.
pub record RawConf : Type 0 where
  pub rp_id : Option Bytes
  pub rp_name : Option Bytes
  pub origins : Option (Option (List Bytes))
  pub challenge_ttl : Option ℕ
  pub user_verification : Option ℕ
  pub rate_limit_max : Option ℕ
  pub rate_limit_window : Option ℕ
  pub redis_url : Option Bytes
  pub redis_host : Option Bytes
  pub redis_port : Option ℕ
  pub redis_password : Option Bytes
  pub redis_db : Option ℕ
  pub redis_timeout : Option ℕ
  pub redis_key_prefix : Option Bytes
  pub jwt_secret_file : Option Bytes
  pub jwt_secret : Option Bytes
  pub jwt_pub_pem : Option Bytes
  pub jwt_alg : Option Bytes
  pub jwt_alg_family : Option ℕ
  pub jwt_ttl : Option ℕ
  pub cookie_name : Option Bytes
  pub cookie_domain : Option Bytes
  pub cookie_path : Option Bytes
  pub cookie_secure : Option Bool
  pub cookie_samesite : Option ℕ
  pub clone_detection : Option ℕ
  pub auth : Option Bool
  pub signin_url : Option Bytes
  pub set_headers : Option (List (Bytes × Bytes))
  pub challenge_handler : Option Bool
  pub verify_handler : Option Bool

abbrev pub create_loc_conf : RawConf
create_loc_conf = record {
  rp_id = none;
  rp_name = none;
  origins = none;
  challenge_ttl = none;
  user_verification = none;
  rate_limit_max = none;
  rate_limit_window = none;
  redis_url = none;
  redis_host = none;
  redis_port = none;
  redis_password = none;
  redis_db = none;
  redis_timeout = none;
  redis_key_prefix = none;
  jwt_secret_file = none;
  jwt_secret = none;
  jwt_pub_pem = none;
  jwt_alg = none;
  jwt_alg_family = none;
  jwt_ttl = none;
  cookie_name = none;
  cookie_domain = none;
  cookie_path = none;
  cookie_secure = none;
  cookie_samesite = none;
  clone_detection = none;
  auth = none;
  signin_url = none;
  set_headers = none;
  challenge_handler = none;
  verify_handler = none;
}

-- A merged configuration, as the parent of another.
abbrev pub settled : LocConf → RawConf
settled conf = record {
  rp_id = some conf.rp_id;
  rp_name = some conf.rp_name;
  origins = some conf.origins;
  challenge_ttl = some conf.challenge_ttl;
  user_verification = some conf.user_verification;
  rate_limit_max = some conf.rate_limit_max;
  rate_limit_window = some conf.rate_limit_window;
  redis_url = some conf.redis_url;
  redis_host = some conf.redis_host;
  redis_port = some conf.redis_port;
  redis_password = some conf.redis_password;
  redis_db = some conf.redis_db;
  redis_timeout = some conf.redis_timeout;
  redis_key_prefix = some conf.redis_key_prefix;
  jwt_secret_file = some conf.jwt_secret_file;
  jwt_secret = some conf.jwt_secret;
  jwt_pub_pem = some conf.jwt_pub_pem;
  jwt_alg = some conf.jwt_alg;
  jwt_alg_family = some conf.jwt_alg_family;
  jwt_ttl = some conf.jwt_ttl;
  cookie_name = some conf.cookie_name;
  cookie_domain = some conf.cookie_domain;
  cookie_path = some conf.cookie_path;
  cookie_secure = some conf.cookie_secure;
  cookie_samesite = some conf.cookie_samesite;
  clone_detection = some conf.clone_detection;
  auth = some conf.auth;
  signin_url = some conf.signin_url;
  set_headers = some conf.set_headers;
  challenge_handler = some conf.challenge_handler;
  verify_handler = some conf.verify_handler;
}

-- What the handlers hand to the Redis client.
abbrev pub redis_conf : LocConf → RedisConf
redis_conf conf = record {
  host = conf.redis_host;
  port = conf.redis_port;
  password = conf.redis_password;
  db = conf.redis_db;
}
