-- ===== src/Compat/Base64/Fits.antt =====
-- The buffers of base64url, as the length macros size them.
use nginx_auth_webauthn.Base.{
  ℕ, suc, ◌+◌, ◌*◌, ◌/◌, ◌≤◌, Bytes, length, leb, ◌==◌, Option, none, some, [], ◌∷◌, ◌≡◌, refl,
  subst, inl, inr, arith, Bool-cases,
}
use nginx_auth_webauthn.Compat.Base64.{
  encode_base64url, b64url_char, shift_in, low_byte, write_byte, bits_after, emit, value_of,
  is_none, decode_from, decode_base64url,
}

abbrev pub base64_encoded_length : ℕ → ℕ
base64_encoded_length len = (len + 2) / 3 * 4

abbrev pub base64_decoded_length : ℕ → ℕ
base64_decoded_length len = (len + 3) / 4 * 3

length-encode : (s : Bytes) → length (encode_base64url s) ≤ base64_encoded_length (length s)
unfolding encode_base64url
length-encode [] = omega arith
length-encode (a ∷ []) = omega arith
length-encode (a ∷ b ∷ []) = omega arith
length-encode (a ∷ b ∷ c ∷ s) = omega (arith, length-encode s)

some-injective : {A : Type 0} {a b : A} → some a ≡ some b → a ≡ b
some-injective h = cc

-- What is written, counted in bits: six for each character.
length-emit :
    (bits buf : ℕ) (rest : Option Bytes) (out : Bytes) (n : ℕ)
    → ((r : Bytes) → rest ≡ some r → 8 * length r ≤ bits_after bits + 6 * n)
    → emit bits buf rest ≡ some out
    → 8 * length out ≤ bits + 6 * suc n
unfolding emit bits_after write_byte
length-emit bits buf none out n ih h = elim (Bool-cases (leb 8 (bits + 6))) [
  | inl full ↦ cc (rw full at h)
  | inr few ↦ cc (rw few at h)
]
length-emit bits buf (some r) out n ih h = elim (Bool-cases (leb 8 (bits + 6))) [
  | inl full ↦
      let same : low_byte buf (bits_after bits) ∷ r ≡ out = cc (rw full at h) in
      subst (λ (o : Bytes). 8 * length o ≤ bits + 6 * suc n) same (ground (arith, ih r refl, full))
  | inr few ↦
      let same : r ≡ out = cc (rw few at h) in
      subst (λ (o : Bytes). 8 * length o ≤ bits + 6 * suc n) same (ground (arith, ih r refl, few))
]

length-decode_from :
    (s : Bytes) (bits buf : ℕ) (out : Bytes)
    → decode_from bits buf s ≡ some out
    → 8 * length out ≤ bits + 6 * length s
unfolding decode_from
length-decode_from [] bits buf out h = ground (arith, h)
length-decode_from (ch ∷ s) bits buf out h = elim (Bool-cases (ch == b'=')) [
  | inl pad ↦ omega (arith, length-decode_from s bits buf out (rw pad at h))
  | inr char ↦ elim (Bool-cases (is_none (b64url_char ch))) [
    | inl bad ↦ cc (rw (char, bad) at h)
    | inr good ↦
        length-emit bits (shift_in buf (value_of (b64url_char ch))) _ out (length s)
          (λ r e. length-decode_from s (bits_after bits) _ r e) (rw (char, good) at h)
  ]
]

-- An encoding fits the buffer that the macro sizes, and so does what is decoded.
pub base64url_fits :
    (s out : Bytes)
    → (length (encode_base64url s) ≤ (length s + 2) / 3 * 4)
      × (decode_base64url s ≡ some out → length out ≤ (length s + 3) / 4 * 3)
unfolding decode_base64url
base64url_fits s out = (length-encode s, λ h. omega (arith, length-decode_from s 0 0 out h))
