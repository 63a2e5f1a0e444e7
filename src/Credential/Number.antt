-- ===== src/Credential/Number.antt =====
-- src/ngx_auth_webauthn_credential.c, the numbers in a record: `atoi64`, and what `snprintf` writes.
use nginx_auth_webauthn.Base.{
  ℕ, zero, suc, ◌+◌, ◌-◌, ◌*◌, ◌/◌, ◌^◌, Bytes, length, [], ◌∷◌, ltb, ◌==◌, if◌then◌else◌, ◌||◌,
}
use nginx_auth_webauthn.Base.Rc.{Rc, ok, error, ◌>>=◌}
use nginx_auth_webauthn.Base.Word.{ℤ, pos, negsuc}
use nginx_auth_webauthn.Redis.{decimal}

-- `-(int64_t) acc` for acc up to 2^63. At 2^63 the C expression overflows; the value here is the wrapped one.
unfoldable pub minus : ℕ → ℤ
minus zero = pos 0
minus (suc n) = negsuc n

-- The loop over the digits: `acc` never passes `limit`.
unfoldable pub scan : ℕ → ℕ → Bytes → Rc ℕ
scan limit acc [] = ok acc
scan limit acc (c ∷ cs) =
    let rest = scan limit (acc * 10 + (c - b'0')) cs in
    if ltb c b'0' || ltb b'9' c
    then error
    else if ltb ((limit - (c - b'0')) / 10) acc
    then error
    else rest

-- A negative number has the limit 2^63, a positive one 2^63 - 1.
unfoldable pub atoi64 : Bytes → Rc ℤ
atoi64 [] = error
atoi64 (c ∷ cs) =
    if c == b'-'
    then (if length cs == 0 then error else scan (2 ^ 63) 0 cs >>= λ acc. ok (minus acc))
    else scan (2 ^ 63 - 1) 0 (c ∷ cs) >>= λ acc. ok (pos acc)

-- "%d" and "%lld"
unfoldable pub print_int : ℤ → Bytes
print_int (pos n) = decimal n
print_int (negsuc n) = b'-' ∷ decimal (suc n)
