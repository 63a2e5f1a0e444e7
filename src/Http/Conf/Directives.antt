-- ===== src/Http/Conf/Directives.antt =====
-- src/ngx_http_auth_webauthn_module.c, the directive parsers: what each sets, and what it refuses.
pub mod Address
pub mod Algorithm
use nginx_auth_webauthn.Base.{
  ℕ, zero, suc, ◌+◌, ◌-◌, Bytes, bytes_eq, length, codes, drop, take, ltb, ◌==◌, if◌then◌else◌,
  Bool, true, false, ◌&&◌, ◌||◌, not, Option, none, some, List, [], ◌∷◌, ◌++◌,
}
use nginx_auth_webauthn.Base.Rc.{Rc, ok, declined, error}
use nginx_auth_webauthn.Platform.{NginxConf}
use nginx_auth_webauthn.Http.Conf.{RawConf, jwt_hmac, jwt_asym}
use nginx_auth_webauthn.Http.Conf.Key.{read_file, chomp}

-- NGX_CONF_OK with the configuration, NGX_CONF_ERROR, or a message; nginx stops at either of those.
pub data Parsed (A : Type 0) : Type 0 where
  set : A → Parsed A
  conf_error : Parsed A
  message : Bytes → Parsed A

-- The text that the C string functions see.
unfoldable pub c_text : Bytes → Bytes
c_text [] = []
c_text (b ∷ bs) = let rest = c_text bs in if b == 0 then [] else b ∷ rest

abbrev pub texts_of : Option (Option (List Bytes)) → List Bytes
texts_of none = []
texts_of (some none) = []
texts_of (some (some texts)) = texts

abbrev pub is_unset {ℓ} : {A : Type ℓ} → Option A → Bool
is_unset none = true
is_unset (some a) = false

abbrev pub length_of : Option Bytes → ℕ
length_of none = 0
length_of (some text) = length text

module _ (ng : NginxConf) where
  -- The arguments are pushed in their order to the array, which the first directive makes.
  unfoldable pub set_origin : List Bytes → RawConf → Parsed RawConf
  set_origin values conf =
      if is_unset conf.origins && not ng.array_create
      then conf_error
      else if not (length values == 0) && not ng.array_push
      then conf_error
      else set (record conf { origins = some (some (texts_of conf.origins ++ values)) })

  abbrev headers_of : Option (List (Bytes × Bytes)) → List (Bytes × Bytes)
  headers_of none = []
  headers_of (some headers) = headers

  unfoldable pub set_set_header : Bytes → Bytes → RawConf → Parsed RawConf
  set_set_header name value conf =
      if is_unset conf.set_headers && not ng.array_create
      then conf_error
      else if not ng.array_push || not (ng.compile_complex_value value)
      then conf_error
      else set
          (record conf { set_headers = some (headers_of conf.set_headers ++ ((name, value) ∷ [])) })

  unfoldable pub with_port : Bytes → Bytes → Option ℕ → RawConf → Parsed RawConf
  with_port url host none conf = message (codes "has an invalid port")
  with_port url host (some port) conf =
      if port == 0 || ltb 65535 port
      then message (codes "has an invalid port")
      else set
          (record conf { redis_url = some url; redis_host = some host; redis_port = some port })

  unfoldable pub split_address : Bytes → Option ℕ → RawConf → Parsed RawConf
  unfolding with_port
  split_address value none conf = message (codes "expects <host>:<port>")
  split_address value (some colon) conf =
      if colon == 0 || colon == length value - 1
      then message (codes "expects <host>:<port>")
      else with_port value (take colon value) (ng.atoi (drop (colon + 1) value)) conf

  -- <host>:<port>, split at the first colon.
  unfoldable pub set_redis : Bytes → RawConf → Parsed RawConf
  unfolding split_address
  set_redis value conf =
      if not (length_of conf.redis_host == 0)
      then message (codes "is duplicate")
      else split_address value (ng.strlchr value 58) conf

  unfoldable pub read_password : Rc Bytes → RawConf → Parsed RawConf
  read_password (ok text) conf = set (record conf { redis_password = some (chomp text) })
  read_password declined conf = conf_error
  read_password error conf = conf_error

  -- The password, or the path of its file after `file:`.
  unfoldable pub set_redis_password : Bytes → RawConf → Parsed RawConf
  unfolding read_password c_text
  set_redis_password value conf =
      if bytes_eq (take 5 (c_text value)) (codes "file:")
      then read_password (read_file ng (drop 5 value)) conf
      else set (record conf { redis_password = some value })

  unfoldable pub set_jwt_alg : Bytes → RawConf → Parsed RawConf
  unfolding c_text
  set_jwt_alg value conf =
      if bytes_eq (c_text value) (codes "HS256")
      then set (record conf { jwt_alg_family = some jwt_hmac; jwt_alg = some value })
      else if bytes_eq (c_text value) (codes "RS256") || bytes_eq (c_text value) (codes "ES256")
      then set (record conf { jwt_alg_family = some jwt_asym; jwt_alg = some value })
      else message (codes "must be one of HS256, RS256, ES256")

  unfoldable pub with_window : ℕ → Option Bytes → RawConf → Parsed RawConf
  with_window max none conf = set (record conf { rate_limit_max = some max })
  with_window max (some text) conf = elim (ng.parse_time text) [
    | none ↦ message (codes "has an invalid <window>")
    | some window ↦
        if window == 0
        then message (codes "has an invalid <window>")
        else set (record conf { rate_limit_max = some max; rate_limit_window = some window })
  ]

  unfoldable pub with_max : Option ℕ → Option Bytes → RawConf → Parsed RawConf
  unfolding with_window
  with_max none window conf = message (codes "expects \"off\" or a positive <max> count")
  with_max (some max) window conf =
      if max == 0
      then message (codes "expects \"off\" or a positive <max> count")
      else with_window max window conf

  -- off | <max> [<window>]
  unfoldable pub set_rate_limit : Bytes → Option Bytes → RawConf → Parsed RawConf
  unfolding with_max c_text
  set_rate_limit value window conf =
      if is_unset window && bytes_eq (c_text value) (codes "off")
      then set (record conf { rate_limit_max = some 0 })
      else with_max (ng.atoi value) window conf
