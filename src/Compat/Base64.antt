-- ===== src/Compat/Base64.antt =====
-- tools/admin/ngx_compat/ngx_compat.c: base64url.
pub mod Fits
pub mod RoundTrip
use nginx_auth_webauthn.Base.{
  ℕ, ◌+◌, ◌-◌, ◌*◌, ◌/◌, ◌%◌, ◌^◌, Bytes, codes, get_or, leb, ◌==◌, if◌then◌else◌, ◌&&◌, Bool, true,
  false, Option, none, some, [], ◌∷◌,
}

abbrev pub basis : Bytes
basis = codes "ABCDEFGHIJKLMNOPQRSTUVWXYZabcdefghijklmnopqrstuvwxyz0123456789-_"

unfoldable pub char_of : ℕ → ℕ
char_of n = get_or basis n 0

-- Three bytes make four characters. The shifts and masks are written as quotients and remainders, and `|` of disjoint bits as a sum.
unfoldable pub encode_base64url : Bytes → Bytes
unfolding char_of
encode_base64url [] = []
encode_base64url (a ∷ []) = char_of (a / 4 % 64) ∷ char_of (a % 4 * 16) ∷ []
encode_base64url (a ∷ b ∷ []) =
    char_of (a / 4 % 64) ∷ char_of (a % 4 * 16 + b / 16) ∷ char_of (b % 16 * 4) ∷ []
encode_base64url (a ∷ b ∷ c ∷ s) =
    char_of (a / 4 % 64)
    ∷ char_of (a % 4 * 16 + b / 16)
    ∷ char_of (b % 16 * 4 + c / 64)
    ∷ char_of (c % 64)
    ∷ encode_base64url s

-- The value of a character; `none` is -1.
unfoldable pub b64url_char : ℕ → Option ℕ
b64url_char c =
    if leb b'A' c && leb c b'Z'
    then some (c - b'A')
    else if leb b'a' c && leb c b'z'
    then some (c - b'a' + 26)
    else if leb b'0' c && leb c b'9'
    then some (c - b'0' + 52)
    else if c == b'-'
    then some 62
    else if c == b'_'
    then some 63
    else none

-- `bits` of the low end of `buf` are not written yet. `buf` is an int that is never masked; it is kept here as its 32 bits, which is what
-- two's complement wrapping gives where the shift overflows.
unfoldable pub shift_in : ℕ → ℕ → ℕ
shift_in buf v = (buf * 64 + v) % 2 ^ 32

unfoldable pub low_byte : ℕ → ℕ → ℕ
low_byte buf bits = buf / 2 ^ bits % 256

unfoldable pub write_byte : ℕ → Option Bytes → Option Bytes
write_byte b none = none
write_byte b (some out) = some (b ∷ out)

-- `bits` and `buf` after a character of the value v: eight bits are written as soon as there are as many.
unfoldable pub bits_after : ℕ → ℕ
bits_after bits = if leb 8 (bits + 6) then bits + 6 - 8 else bits + 6

unfoldable pub emit : ℕ → ℕ → Option Bytes → Option Bytes
unfolding bits_after low_byte write_byte
emit bits buf rest =
    if leb 8 (bits + 6) then write_byte (low_byte buf (bits_after bits)) rest else rest

abbrev pub value_of : Option ℕ → ℕ
value_of none = 0
value_of (some v) = v

abbrev pub is_none : Option ℕ → Bool
is_none none = true
is_none (some v) = false

-- Padding is passed over, and any other character ends the call.
unfoldable pub decode_from : ℕ → ℕ → Bytes → Option Bytes
unfolding b64url_char shift_in bits_after emit
decode_from bits buf [] = some []
decode_from bits buf (ch ∷ s) =
    let v = b64url_char ch in
    let pad = ch == b'=' in
    let buf' = if pad then buf else shift_in buf (value_of v) in
    let rest = decode_from (if pad then bits else bits_after bits) buf' s in
    if pad then rest else if is_none v then none else emit bits buf' rest

unfoldable pub decode_base64url : Bytes → Option Bytes
unfolding decode_from
decode_base64url s = decode_from 0 0 s
