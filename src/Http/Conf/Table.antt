-- ===== src/Http/Conf/Table.antt =====
-- src/ngx_http_auth_webauthn_module.c, the directives of the module with their slots, its variables, and the registration of its
-- handlers. nginx's own slot functions are a parameter.
pub mod Bounded
pub mod KeyPair
use nginx_auth_webauthn.Base.{
  ℕ, Bytes, codes, get_or, Bool, true, false, if◌then◌else◌, Option, none, some, List, [], ◌∷◌,
}
use nginx_auth_webauthn.Base.Rc.{Rc, ok, error, ◌>>=◌}
use nginx_auth_webauthn.Platform.{NginxConf}
use nginx_auth_webauthn.Http.Conf.{RawConf, uv_required, uv_preferred, uv_discouraged}
use nginx_auth_webauthn.Http.Conf.Directives.{
  Parsed, set, conf_error, message, set_origin, set_set_header, set_redis, set_redis_password,
  set_jwt_alg, set_rate_limit,
}

pub data Directive : Type 0 where
  rp_id rp_name origin challenge_ttl user_verification challenge_rate_limit redis redis_password
        redis_db redis_timeout redis_key_prefix jwt_secret_file jwt_alg jwt_ttl jwt_cookie_name
        jwt_cookie_domain jwt_cookie_path jwt_cookie_secure jwt_cookie_samesite clone_detection
        auth_webauthn signin_url set_header challenge_handler verify_handler :
      Directive

abbrev pub clone_enum : List (Bytes × ℕ)
clone_enum = (codes "strict", 0) ∷ (codes "lax", 1) ∷ (codes "off", 2) ∷ []

abbrev pub samesite_enum : List (Bytes × ℕ)
samesite_enum = (codes "strict", 0) ∷ (codes "lax", 1) ∷ (codes "none", 2) ∷ []

abbrev pub uv_enum : List (Bytes × ℕ)
uv_enum =
    (codes "required", uv_required)
    ∷ (codes "preferred", uv_preferred)
    ∷ (codes "discouraged", uv_discouraged)
    ∷ []

-- The name of each, where it may stand, and its arguments.
pub record Contexts : Type 0 where
  pub in_main : Bool
  pub in_server : Bool
  pub in_location : Bool

pub data Arity : Type 0 where
  take1 take2 take12 one_more flag : Arity

abbrev anywhere : Contexts
anywhere = record { in_main = true; in_server = true; in_location = true }

abbrev below_main : Contexts
below_main = record { in_main = false; in_server = true; in_location = true }

abbrev location_only : Contexts
location_only = record { in_main = false; in_server = false; in_location = true }

pub record Entry : Type 0 where
  pub name : Bytes
  pub contexts : Contexts
  pub arity : Arity

abbrev row : Bytes → Contexts → Arity → Entry
row name contexts arity = record { name = name; contexts = contexts; arity = arity }

unfoldable pub entry_of : Directive → Entry
entry_of rp_id = row (codes "auth_webauthn_rp_id") anywhere take1
entry_of rp_name = row (codes "auth_webauthn_rp_name") anywhere take1
entry_of origin = row (codes "auth_webauthn_origin") anywhere one_more
entry_of challenge_ttl = row (codes "auth_webauthn_challenge_ttl") anywhere take1
entry_of user_verification = row (codes "auth_webauthn_user_verification") anywhere take1
entry_of challenge_rate_limit = row (codes "auth_webauthn_challenge_rate_limit") anywhere take12
entry_of redis = row (codes "auth_webauthn_redis") anywhere take1
entry_of redis_password = row (codes "auth_webauthn_redis_password") anywhere take1
entry_of redis_db = row (codes "auth_webauthn_redis_db") anywhere take1
entry_of redis_timeout = row (codes "auth_webauthn_redis_timeout") anywhere take1
entry_of redis_key_prefix = row (codes "auth_webauthn_redis_key_prefix") anywhere take1
entry_of jwt_secret_file = row (codes "auth_webauthn_jwt_secret_file") anywhere take1
entry_of jwt_alg = row (codes "auth_webauthn_jwt_alg") anywhere take1
entry_of jwt_ttl = row (codes "auth_webauthn_jwt_ttl") anywhere take1
entry_of jwt_cookie_name = row (codes "auth_webauthn_jwt_cookie_name") anywhere take1
entry_of jwt_cookie_domain = row (codes "auth_webauthn_jwt_cookie_domain") anywhere take1
entry_of jwt_cookie_path = row (codes "auth_webauthn_jwt_cookie_path") anywhere take1
entry_of jwt_cookie_secure = row (codes "auth_webauthn_jwt_cookie_secure") anywhere flag
entry_of jwt_cookie_samesite = row (codes "auth_webauthn_jwt_cookie_samesite") anywhere take1
entry_of clone_detection = row (codes "auth_webauthn_clone_detection") anywhere take1
entry_of auth_webauthn = row (codes "auth_webauthn") below_main flag
entry_of signin_url = row (codes "auth_webauthn_signin_url") below_main take1
entry_of set_header = row (codes "auth_webauthn_set_header") below_main take2
entry_of challenge_handler = row (codes "auth_webauthn_challenge_handler") location_only flag
entry_of verify_handler = row (codes "auth_webauthn_verify_handler") location_only flag

-- `ngx_conf_set_*_slot`: the field as it is, the argument, and the field as it becomes.
pub record Slots : Type 0 where
  pub str_slot : Option Bytes → Bytes → Parsed Bytes
  pub sec_slot : Option ℕ → Bytes → Parsed ℕ
  pub msec_slot : Option ℕ → Bytes → Parsed ℕ
  pub num_slot : Option ℕ → Bytes → Parsed ℕ
  pub enum_slot : List (Bytes × ℕ) → Option ℕ → Bytes → Parsed ℕ
  pub flag_slot : Option Bool → Bytes → Parsed Bool

-- A location: its configuration, and the content handler of the core module.
pub data Handler : Type 0 where
  challenge_content verify_content : Handler

pub record Location : Type 0 where
  pub conf : RawConf
  pub handler : Option Handler

unfoldable pub slot : {A : Type 0} → Parsed A → (A → Location) → Parsed Location
slot (set a) k = set (k a)
slot conf_error k = conf_error
slot (message text) k = message text

abbrev with_handler : Bool → Handler → Location → Location
with_handler true handler l = record l { handler = some handler }
with_handler false handler l = l

abbrev second : List Bytes → Option Bytes
second (a ∷ b ∷ values) = some b
second _ = none

module _ (ng : NginxConf) (slots : Slots) where
  -- A directive on a location, with its arguments.
  unfoldable pub run : Directive → List Bytes → Location → Parsed Location
  unfolding slot
  run d values l =
      let c = l.conf in
      let arg = get_or values 0 [] in
      let on_conf : Parsed RawConf → Parsed Location =
        λ r. slot r λ conf. record l { conf = conf } in
      elim d [
        | rp_id ↦
            slot (slots.str_slot c.rp_id arg) λ v. record l { conf = record c { rp_id = some v } }
        | rp_name ↦
            slot (slots.str_slot c.rp_name arg)
              λ v. record l { conf = record c { rp_name = some v } }
        | origin ↦ on_conf (set_origin ng values c)
        | challenge_ttl ↦
            slot (slots.sec_slot c.challenge_ttl arg)
              λ v. record l { conf = record c { challenge_ttl = some v } }
        | user_verification ↦
            slot (slots.enum_slot uv_enum c.user_verification arg)
              λ v. record l { conf = record c { user_verification = some v } }
        | challenge_rate_limit ↦ on_conf (set_rate_limit ng arg (second values) c)
        | redis ↦ on_conf (set_redis ng arg c)
        | redis_password ↦ on_conf (set_redis_password ng arg c)
        | redis_db ↦
            slot (slots.num_slot c.redis_db arg)
              λ v. record l { conf = record c { redis_db = some v } }
        | redis_timeout ↦
            slot (slots.msec_slot c.redis_timeout arg)
              λ v. record l { conf = record c { redis_timeout = some v } }
        | redis_key_prefix ↦
            slot (slots.str_slot c.redis_key_prefix arg)
              λ v. record l { conf = record c { redis_key_prefix = some v } }
        | jwt_secret_file ↦
            slot (slots.str_slot c.jwt_secret_file arg)
              λ v. record l { conf = record c { jwt_secret_file = some v } }
        | jwt_alg ↦ on_conf (set_jwt_alg ng arg c)
        | jwt_ttl ↦
            slot (slots.sec_slot c.jwt_ttl arg)
              λ v. record l { conf = record c { jwt_ttl = some v } }
        | jwt_cookie_name ↦
            slot (slots.str_slot c.cookie_name arg)
              λ v. record l { conf = record c { cookie_name = some v } }
        | jwt_cookie_domain ↦
            slot (slots.str_slot c.cookie_domain arg)
              λ v. record l { conf = record c { cookie_domain = some v } }
        | jwt_cookie_path ↦
            slot (slots.str_slot c.cookie_path arg)
              λ v. record l { conf = record c { cookie_path = some v } }
        | jwt_cookie_secure ↦
            slot (slots.flag_slot c.cookie_secure arg)
              λ v. record l { conf = record c { cookie_secure = some v } }
        | jwt_cookie_samesite ↦
            slot (slots.enum_slot samesite_enum c.cookie_samesite arg)
              λ v. record l { conf = record c { cookie_samesite = some v } }
        | clone_detection ↦
            slot (slots.enum_slot clone_enum c.clone_detection arg)
              λ v. record l { conf = record c { clone_detection = some v } }
        | auth_webauthn ↦
            slot (slots.flag_slot c.auth arg) λ v. record l { conf = record c { auth = some v } }
        | signin_url ↦
            slot (slots.str_slot c.signin_url arg)
              λ v. record l { conf = record c { signin_url = some v } }
        | set_header ↦ on_conf (set_set_header ng arg (get_or values 1 []) c)
        | challenge_handler ↦ slot (slots.flag_slot c.challenge_handler arg) λ v.
            with_handler v challenge_content
              (record l { conf = record c { challenge_handler = some v } })
        | verify_handler ↦ slot (slots.flag_slot c.verify_handler arg) λ v.
            with_handler v verify_content (record l { conf = record c { verify_handler = some v } })
      ]

-- The variables, with the number that their handler gets.
abbrev pub vars : List (Bytes × ℕ)
vars =
    (codes "webauthn_user_id", 0)
    ∷ (codes "webauthn_credential_id", 1)
    ∷ (codes "webauthn_auth_status", 2)
    ∷ (codes "webauthn_jwt_exp", 3)
    ∷ []

-- `add_variable` says whether nginx takes a variable of that name; what is taken is told in the order of taking.
unfoldable pub add_vars : (Bytes → Bool) → List (Bytes × ℕ) → Rc (List (Bytes × ℕ))
add_vars add_variable [] = ok []
add_vars add_variable ((name, data_of) ∷ rest) =
    let more = add_vars add_variable rest in
    if add_variable name then (more >>= λ taken. ok ((name, data_of) ∷ taken)) else error

unfoldable pub preconfiguration : (Bytes → Bool) → Rc (List (Bytes × ℕ))
unfolding add_vars
preconfiguration add_variable = add_vars add_variable vars

-- `add_handler` says whether the access phase takes the handler.
unfoldable pub postconfiguration : Bool → Rc (Unit {0})
postconfiguration add_handler = if add_handler then ok tt else error
