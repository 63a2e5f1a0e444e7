-- ===== src/Http/Response.antt =====
-- src/ngx_http_auth_webauthn_module.c, what a content handler answers.
use nginx_auth_webauthn.Base.{ℕ, Bytes, length, codes, if◌then◌else◌, Option, none, some}
use nginx_auth_webauthn.Platform.{Nginx}

-- A status with a JSON body, or the status alone, whose page nginx makes; and the Set-Cookie header, if one was pushed.
pub record Response : Type 0 where
  pub code : ℕ
  pub set_cookie : Option Bytes
  pub body : Option Bytes

abbrev pub plain : ℕ → Response
plain code = record { code = code; set_cookie = none; body = none }

-- Without a buffer the status is 500. A header that was pushed before stays.
unfoldable pub send_json : Nginx → ℕ → Option Bytes → Bytes → Response
send_json ng code cookie body =
    if ng.pnalloc (length body)
    then record { code = code; set_cookie = cookie; body = some body }
    else record { code = 500; set_cookie = cookie; body = none }

unfoldable pub verify_fail : Nginx → Response
unfolding send_json
verify_fail ng = send_json ng 401 none (codes "{\"ok\":false,\"error\":\"E_ASSERTION\"}")
