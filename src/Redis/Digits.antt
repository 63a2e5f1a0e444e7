-- ===== src/Redis/Digits.antt =====
-- How long the digits of a number may be.
use nginx_auth_webauthn.Base.{
  ℕ, zero, suc, ◌+◌, ◌/◌, ◌%◌, ◌≤◌, Bytes, length, ltb, [], ◌∷◌, arith, Bool-cases,
}
use nginx_auth_webauthn.Redis.{decimal_rounds, decimal}

length-decimal_rounds : (k n : ℕ) (ds : Bytes) → length (decimal_rounds k n ds) ≤ k + length ds
unfolding decimal_rounds
length-decimal_rounds zero n ds = omega arith
length-decimal_rounds (suc k) n ds =
    ground (arith, length-decimal_rounds k (n / 10) ((b'0' + n % 10) ∷ ds), Bool-cases (ltb n 10))

pub length-decimal : (n : ℕ) → length (decimal n) ≤ 20
unfolding decimal
length-decimal n = length-decimal_rounds 20 n []
