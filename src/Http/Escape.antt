-- ===== src/Http/Escape.antt =====
-- src/ngx_http_auth_webauthn_module.c, `json_escape`: the contents of a JSON string.
pub mod Read
use nginx_auth_webauthn.Base.{
  ℕ, ◌+◌, ◌-◌, ◌*◌, ◌/◌, ◌%◌, Bytes, length, ltb, ◌==◌, if◌then◌else◌, Option, none, some, [], ◌∷◌,
  ◌++◌,
}
use nginx_auth_webauthn.Platform.{Nginx}

-- `hex[d]`
abbrev pub hex_digit : ℕ → ℕ
hex_digit d = if ltb d 10 then b'0' + d else b'a' + (d - 10)

-- The bytes that one byte becomes.
unfoldable pub escape_byte : ℕ → Bytes
escape_byte c =
    if c == b'"'
    then b'\\' ∷ b'"' ∷ []
    else if c == b'\\'
    then b'\\' ∷ b'\\' ∷ []
    else if c == 10
    then b'\\' ∷ b'n' ∷ []
    else if c == 13
    then b'\\' ∷ b'r' ∷ []
    else if c == 9
    then b'\\' ∷ b't' ∷ []
    else if ltb c 0x20
    then b'\\' ∷ b'u' ∷ b'0' ∷ b'0' ∷ hex_digit (c / 16 % 16) ∷ hex_digit (c % 16) ∷ []
    else c ∷ []

unfoldable pub escape : Bytes → Bytes
escape [] = []
escape (c ∷ cs) = escape_byte c ++ escape cs

-- Written into six bytes for each byte of the source; `none` is a NULL pointer.
unfoldable pub json_escape : Nginx → Bytes → Option Bytes
json_escape ng src =
    if length src == 0
    then some []
    else if ng.pnalloc (length src * 6)
    then some (escape src)
    else none
