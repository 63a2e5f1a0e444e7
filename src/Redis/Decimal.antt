-- ===== src/Redis/Decimal.antt =====
-- Decimal digits: what `snprintf` writes for "%lu".
use nginx_auth_webauthn.Base.{ℕ, zero, suc, ◌+◌, ◌/◌, ◌%◌, Bytes, [], ◌∷◌, ltb, if◌then◌else◌}

-- The lowest digit is put in front of those above it.
unfoldable pub decimal_rounds : ℕ → ℕ → Bytes → Bytes
decimal_rounds zero n digits = digits
decimal_rounds (suc rounds) n digits =
    let rest = decimal_rounds rounds (n / 10) ((b'0' + n % 10) ∷ digits) in
    if ltb n 10 then (b'0' + n % 10) ∷ digits else rest

-- Twenty digits hold every 64-bit number.
unfoldable pub decimal : ℕ → Bytes
unfolding decimal_rounds
decimal n = decimal_rounds 20 n []
