-- ===== src/Http/Variable.antt =====
-- src/ngx_http_auth_webauthn_module.c, the variables that a request shows.
use nginx_auth_webauthn.Base.{ℕ, Bytes, length, codes, ◌==◌, if◌then◌else◌, Option, none, some}
use nginx_auth_webauthn.Base.Rc.{Rc, ok, error}
use nginx_auth_webauthn.Base.Word.{ℤ}
use nginx_auth_webauthn.Platform.{Nginx}
use nginx_auth_webauthn.Credential.{print_int}
use nginx_auth_webauthn.Http.Gate.{Context}

-- NGX_TIME_T_LEN on a 64-bit platform.
abbrev pub time_t_len : ℕ
time_t_len = 20

-- A value of no bytes is not found.
abbrev pub found : Bytes → Rc (Option Bytes)
found value = if length value == 0 then ok none else ok (some value)

unfoldable pub expiry : Nginx → Option ℤ → Rc (Option Bytes)
expiry ng none = ok none
expiry ng (some exp) = if ng.pnalloc time_t_len then found (print_int exp) else error

-- By the variable's number: the user, the credential, the status, the expiry; without a context only the status is there. `none` is
-- not found.
unfoldable pub variable : Nginx → Option Context → ℕ → Rc (Option Bytes)
unfolding expiry
variable ng none n = if n == 2 then ok (some (codes "unauthenticated")) else ok none
variable ng (some ctx) n =
    if n == 0
    then found ctx.user_id
    else if n == 1
    then found ctx.credential_id
    else if n == 2
    then found ctx.auth_status
    else if n == 3
    then expiry ng ctx.jwt_exp
    else ok none
