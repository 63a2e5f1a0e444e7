-- ===== src/Authdata/Reject.antt =====
-- What the parser of authenticatorData refuses, and what it does not look at.
use Prim.Native.Nat.{bit_and}
use nginx_auth_webauthn.Base.{
  ℕ, ◌+◌, ◌*◌, ◌≤◌, ◌<◌, Bytes, length, get_or, ltb, ◌==◌, if◌then◌else◌, Bool, true, false, ◌≡◌,
  refl, ◌⊎◌, ◌↔◌, inl, inr, ◌≢◌, ◌++◌, arith, IsByte, All, get_or-IsByte, get_or-append, take_first,
  length-append,
}
use nginx_auth_webauthn.Base.Rc.{Rc, ok, declined, error}
use nginx_auth_webauthn.Authdata.{Authdata, parse, attested, prefix, flag_at}
use nginx_auth_webauthn.Authdata.Layout.{be16_sum, parse-prefix}

-- Shorter than the fixed prefix, or the AT flag is set and the attested data ends early.
abbrev pub IsTruncated : Bytes → Type 0
IsTruncated d =
    (length d < 37)
    ⊎ ((bit_and (get_or d 32 0) flag_at ≢ 0)
        × ((length d < 55) ⊎ (length d < 55 + (get_or d 53 0 * 256 + get_or d 54 0))))

attested_refuses :
    (d : Bytes) (out : Authdata)
    → All IsByte d
    → (attested d out ≡ declined)
      ↔ ((length d < 55) ⊎ (length d < 55 + (get_or d 53 0 * 256 + get_or d 54 0)))
unfolding attested
attested_refuses d out bytes =
    ground (arith, be16_sum (get_or d 53 0) (get_or d 54 0) (get_or-IsByte d 54 bytes))

attested-ne-error : (d : Bytes) (out : Authdata) → attested d out ≢ error
unfolding attested
attested-ne-error d out = ground arith

-- Two guards before a last step.
guarded :
    (b c : Bool) (out : Authdata) (r : Rc Authdata) {P Q R : Type 0}
    → (b ≡ true) ↔ P
    → (c ≡ false) ↔ Q
    → (r ≡ declined) ↔ R
    → ((if b then declined else if c then ok out else r) ≡ declined) ↔ (P ⊎ (Q × R))
guarded true c out r p q s = (λ _. inl (p.0 refl), λ _. refl)
guarded false true out r p q s = (λ h. cc h, elim [ inl x ↦ cc (p.1 x) | inr (x, y) ↦ cc (q.1 x) ])
guarded false false out r p q s =
    (λ h. inr (q.0 refl, s.0 h), elim [ inl x ↦ cc (p.1 x) | inr (x, y) ↦ s.1 y ])

guarded_never_error :
    (b c : Bool) (out : Authdata) (r : Rc Authdata)
    → r ≢ error
    → (if b then declined else if c then ok out else r) ≢ error
guarded_never_error b c out r h = ground arith

ltb-lt : (a b : ℕ) → (ltb a b ≡ true) ↔ (a < b)
ltb-lt a b = ground arith

zero_test : (n : ℕ) → ((n == 0) ≡ false) ↔ (n ≢ 0)
zero_test n = ground arith

-- Of the inputs that are bytes, the parser declines exactly the truncated ones, and it never reports an error.
pub parse_refuses :
    (d : Bytes) → All IsByte d → ((parse d ≡ declined) ↔ IsTruncated d) × (parse d ≢ error)
parse_refuses d bytes =
    unfold parse in
    (
      guarded _ _ _ _ (ltb-lt (length d) 37) (zero_test (bit_and (prefix d).flags flag_at))
          (attested_refuses d (prefix d) bytes),
      guarded_never_error _ _ _ _ (attested-ne-error d (prefix d)),
    )

prefix-append : (d rest : Bytes) → 37 ≤ length d → prefix (d ++ rest) ≡ prefix d
unfolding prefix
prefix-append d rest long = cc (
  take_first 32 d rest (omega arith),
  get_or-append d rest 32 0 (omega arith),
  get_or-append d rest 33 0 (omega arith),
  get_or-append d rest 34 0 (omega arith),
  get_or-append d rest 35 0 (omega arith),
  get_or-append d rest 36 0 (omega arith),
)

-- Where the input has 37 bytes and the AT flag is clear, bytes after it are neither refused nor read.
pub parse-append :
    (d rest : Bytes)
    → 37 ≤ length d
    → bit_and (get_or d 32 0) flag_at ≡ 0
    → (parse (d ++ rest) ≡ ok (prefix d)) × (parse d ≡ ok (prefix d))
unfolding prefix
parse-append d rest long clear = (
  parse-prefix (d ++ rest) (prefix-append d rest long) (omega (arith, length-append d rest)) clear,
  parse-prefix d refl long clear,
)
