-- ===== src/Compat/Base64/RoundTrip.antt =====
-- What is encoded is decoded again.
use nginx_auth_webauthn.Base.{
  ℕ, zero, suc, ◌+◌, ◌*◌, ◌/◌, ◌%◌, ◌<◌, Bytes, IsByte, All, ◌==◌, ==_iff, not, inl, inr, ◌&&◌,
  Bool, true, false, Option, none, some, [], ◌∷◌, ◌≡◌, ◌≢◌, refl, ap, ◌∙◌, arith, Bool-cases,
}
use nginx_auth_webauthn.Compat.Base64.{
  char_of, encode_base64url, b64url_char, shift_in, low_byte, write_byte, bits_after, emit,
  decode_from, decode_base64url,
}

-- Each of the 64 characters is read as its number, and is no padding.
abbrev is_value : ℕ → Option ℕ → Bool
is_value v none = false
is_value v (some w) = w == v

abbrev Read : ℕ → Type 0
Read v = (b64url_char (char_of v) ≡ some v) × ((char_of v == b'=') ≡ false)

abbrev reads : ℕ → Bool
unfolding char_of b64url_char
reads v = is_value v (b64url_char (char_of v)) && not (char_of v == b'=')

reads-Read : (v : ℕ) → reads v ≡ true → Read v
unfolding reads b64url_char
reads-Read v h = value (b64url_char (char_of v)) (char_of v == b'=') h
  where
    value :
        (o : Option ℕ) (pad : Bool)
        → (is_value v o && not pad) ≡ true
        → (o ≡ some v) × (pad ≡ false)
    value none pad h = cc
    value (some w) true h = ground (arith, h)
    value (some w) false h = (ap some ((==_iff w v).0 (ground (arith, h))), refl)

abbrev all_below : ℕ → (ℕ → Bool) → Bool
all_below zero f = true
all_below (suc n) f = f n && all_below n f

all_below-lt : (n : ℕ) (f : ℕ → Bool) (v : ℕ) → all_below n f ≡ true → v < n → f v ≡ true
all_below-lt zero f v h lt = absurd (omega arith)
all_below-lt (suc n) f v h lt = elim (Bool-cases (v == n)) [
  | inl same ↦ rw ((==_iff v n).0 same) (ground (arith, h, Bool-cases (f n)))
  | inr other ↦
      let apart : v ≢ n = λ e. cc ((==_iff v n).1 e, other) in
      all_below-lt n f v (ground (arith, h, Bool-cases (f n))) (omega (arith, lt, apart))
]

all-Read : (v : ℕ) → v < 64 → Read v
unfolding char_of b64url_char
all-Read v h = reads-Read v (all_below-lt 64 reads v refl h)

-- The three bytes that four characters give, whatever is left in the buffer.
four_bytes :
    (buf p q r s : ℕ)
    → q < 64
    → r < 64
    → s < 64
    → (low_byte (shift_in (shift_in buf p) q) 4 ≡ p % 64 * 4 + q / 16)
      × (low_byte (shift_in (shift_in (shift_in buf p) q) r) 2 ≡ q % 16 * 16 + r / 4)
      × (low_byte (shift_in (shift_in (shift_in (shift_in buf p) q) r) s) 0 ≡ r % 4 * 64 + s)
unfolding low_byte shift_in
four_bytes buf p q r s hq hr hs = (omega arith, omega arith, omega arith)

-- One character of the alphabet.
decode_char :
    (bits buf v : ℕ) (s : Bytes)
    → v < 64
    → decode_from bits buf (char_of v ∷ s)
      ≡ emit bits (shift_in buf v) (decode_from (bits_after bits) (shift_in buf v) s)
unfolding decode_from
decode_char bits buf v s h = let (value, pad) = all-Read v h in rw (value, pad) refl

module _ (buf v : ℕ) (s : Bytes) (h : v < 64) where
  at_0 : decode_from 0 buf (char_of v ∷ s) ≡ decode_from 6 (shift_in buf v) s
  unfolding emit bits_after
  at_0 = decode_char 0 buf v s h

  at_6 :
      decode_from 6 buf (char_of v ∷ s)
      ≡ write_byte (low_byte (shift_in buf v) 4) (decode_from 4 (shift_in buf v) s)
  unfolding emit bits_after
  at_6 = decode_char 6 buf v s h

  at_4 :
      decode_from 4 buf (char_of v ∷ s)
      ≡ write_byte (low_byte (shift_in buf v) 2) (decode_from 2 (shift_in buf v) s)
  unfolding emit bits_after
  at_4 = decode_char 4 buf v s h

  at_2 :
      decode_from 2 buf (char_of v ∷ s)
      ≡ write_byte (low_byte (shift_in buf v) 0) (decode_from 0 (shift_in buf v) s)
  unfolding emit bits_after
  at_2 = decode_char 2 buf v s h

written :
    (b b' : ℕ) (r : Option Bytes) (s : Bytes) → b ≡ b' → r ≡ some s → write_byte b r ≡ some (b' ∷ s)
unfolding write_byte
written b b' r s e h = rw (e, h) refl

ends : (bits buf : ℕ) → decode_from bits buf [] ≡ some []
unfolding decode_from
ends bits buf = refl

decode-encode :
    (s : Bytes) (buf : ℕ) → All IsByte s → decode_from 0 buf (encode_base64url s) ≡ some s
unfolding encode_base64url
decode-encode [] buf h = ends 0 buf
decode-encode (a ∷ []) buf (ha, _) =
    at_0 buf (a / 4 % 64) _ (omega arith)
    ∙ at_6 _ (a % 4 * 16) [] (omega arith)
    ∙ written _ a _ []
        (omega (
          arith,
          (four_bytes buf (a / 4 % 64) (a % 4 * 16) 0 0 (omega arith) (omega arith)
              (omega arith)).0,
        ))
        (ends 4 _)
decode-encode (a ∷ b ∷ []) buf (ha, (hb, _)) =
    let p : ℕ = a / 4 % 64 in
    let q : ℕ = a % 4 * 16 + b / 16 in
    let r : ℕ = b % 16 * 4 in
    let (first, second, _) = four_bytes buf p q r 0 (omega arith) (omega arith) (omega arith) in
    at_0 buf p _ (omega arith)
    ∙ at_6 _ q _ (omega arith)
    ∙ written _ a _ _ (first ∙ omega arith)
        (at_4 _ r [] (omega arith) ∙ written _ b _ [] (second ∙ omega arith) (ends 2 _))
decode-encode (a ∷ b ∷ c ∷ s) buf (ha, (hb, (hc, hs))) =
    let p : ℕ = a / 4 % 64 in
    let q : ℕ = a % 4 * 16 + b / 16 in
    let r : ℕ = b % 16 * 4 + c / 64 in
    let t : ℕ = c % 64 in
    let (first, second, third) = four_bytes buf p q r t (omega arith) (omega arith) (omega arith) in
    at_0 buf p _ (omega arith)
    ∙ at_6 _ q _ (omega arith)
    ∙ written _ a _ _ (first ∙ omega arith) (
        at_4 _ r _ (omega arith)
        ∙ written _ b _ _ (second ∙ omega arith) (
            at_2 _ t _ (omega arith)
            ∙ written _ c _ s (third ∙ omega arith) (decode-encode s _ hs)))

-- Every byte string is decoded from its encoding.
pub decode_base64url-encode_base64url :
    (s : Bytes) → All IsByte s → decode_base64url (encode_base64url s) ≡ some s
unfolding decode_base64url
decode_base64url-encode_base64url s h = decode-encode s 0 h
