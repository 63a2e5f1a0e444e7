-- ===== src/Admin/Hex.antt =====
-- tools/admin/auth_webauthn_admin_show.c, an AAGUID as it is shown.
use nginx_auth_webauthn.Base.{
  ℕ, ◌+◌, ◌-◌, ◌*◌, ◌/◌, ◌%◌, ◌<◌, Bytes, IsByte, All, ltb, ◌==◌, if◌then◌else◌, ◌||◌, Bool, false,
  [], ◌∷◌, ◌≡◌, refl, ap, arith, inl, inr, Bool-cases,
}

abbrev hex_digit : ℕ → ℕ
hex_digit n = if ltb n 10 then b'0' + n else b'a' + (n - 10)

-- The dashes stand before the bytes 4, 6, 8 and 10.
abbrev has_dash : ℕ → Bool
has_dash i = i == 4 || i == 6 || i == 8 || i == 10

unfoldable pub aaguid_fmt : ℕ → Bytes → Bytes
aaguid_fmt i [] = []
aaguid_fmt i (g ∷ gs) =
    let digits = hex_digit (g / 16) ∷ hex_digit (g % 16) ∷ aaguid_fmt (i + 1) gs in
    if has_dash i then b'-' ∷ digits else digits

-- A reading of the text: two digits for each byte, and no dash.
abbrev value_of : ℕ → ℕ
value_of c = if ltb c b'a' then c - b'0' else c - b'a' + 10

unfoldable pub unformatted : Bytes → Bytes
unformatted (hi ∷ lo ∷ cs) =
    let rest = unformatted cs in
    let shifted = unformatted (lo ∷ cs) in
    if hi == b'-' then shifted else (value_of hi * 16 + value_of lo) ∷ rest
unformatted _ = []

value_of-hex_digit : (n : ℕ) → n < 16 → value_of (hex_digit n) ≡ n
value_of-hex_digit n h = ground arith

not_dash : (n : ℕ) → n < 16 → (hex_digit n == b'-') ≡ false
not_dash n h = ground arith

byte_back : (hi lo : ℕ) (g : ℕ) → hi ≡ g / 16 → lo ≡ g % 16 → hi * 16 + lo ≡ g
byte_back hi lo g h l = omega (arith, h, l)

dash_back : (c : ℕ) (cs : Bytes) → unformatted (b'-' ∷ c ∷ cs) ≡ unformatted (c ∷ cs)
unfolding unformatted
dash_back c cs = refl

digits_back :
    (g : ℕ) (cs : Bytes)
    → g < 256
    → unformatted (hex_digit (g / 16) ∷ hex_digit (g % 16) ∷ cs) ≡ g ∷ unformatted cs
unfolding unformatted
digits_back g cs h = rw (not_dash (g / 16) (omega (arith, h))) (
    rw (value_of-hex_digit (g / 16) (omega (arith, h))) (
      rw (value_of-hex_digit (g % 16) (omega arith))
        (ap (λ b. b ∷ unformatted cs) (byte_back _ _ g refl refl))))

-- The text of an AAGUID is read back as the AAGUID: distinct ones are shown as distinct texts.
pub unformatted-aaguid_fmt : (i : ℕ) (g : Bytes) → All IsByte g → unformatted (aaguid_fmt i g) ≡ g
unfolding aaguid_fmt
unformatted-aaguid_fmt i [] h = unfold unformatted in refl
unformatted-aaguid_fmt i (g ∷ gs) (b, bs) = elim (Bool-cases (has_dash i)) [
  | inl e ↦ rw e (
      rw (dash_back (hex_digit (g / 16)) (hex_digit (g % 16) ∷ aaguid_fmt (i + 1) gs)) (
        rw (digits_back g (aaguid_fmt (i + 1) gs) b)
          (ap (λ l. g ∷ l) (unformatted-aaguid_fmt (i + 1) gs bs))))
  | inr e ↦ rw e (
      rw (digits_back g (aaguid_fmt (i + 1) gs) b)
        (ap (λ l. g ∷ l) (unformatted-aaguid_fmt (i + 1) gs bs)))
]
