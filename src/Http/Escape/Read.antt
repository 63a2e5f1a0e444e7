-- ===== src/Http/Escape/Read.antt =====
-- What an escaped text is as the contents of a JSON string (RFC 8259, section 7).
use nginx_auth_webauthn.Base.{
  ℕ, ◌+◌, ◌*◌, ◌/◌, ◌%◌, ◌≤◌, ◌<◌, Bytes, length, length-append, ltb, ◌==◌, true, false, [], ◌∷◌,
  ◌++◌, ◌≡◌, ◌≢◌, inl, inr, sym, arith, Bool-cases, ==_iff, ltb-false, subst,
}
use nginx_auth_webauthn.Http.Escape.{hex_digit, escape_byte, escape}

-- The strings of JSON with what they stand for, byte by byte: an unescaped character, an escape of two, or \u00hh.
pub data Reads : Bytes → Bytes → Type 0 where
  end : Reads [] []
  plain :
      (c : ℕ) {s t : Bytes} → 0x20 ≤ c → c ≢ b'"' → c ≢ b'\\' → Reads s t → Reads (c ∷ s) (c ∷ t)
  quote : {s t : Bytes} → Reads s t → Reads (b'\\' ∷ b'"' ∷ s) (b'"' ∷ t)
  backslash : {s t : Bytes} → Reads s t → Reads (b'\\' ∷ b'\\' ∷ s) (b'\\' ∷ t)
  newline : {s t : Bytes} → Reads s t → Reads (b'\\' ∷ b'n' ∷ s) (10 ∷ t)
  return : {s t : Bytes} → Reads s t → Reads (b'\\' ∷ b'r' ∷ s) (13 ∷ t)
  tab : {s t : Bytes} → Reads s t → Reads (b'\\' ∷ b't' ∷ s) (9 ∷ t)
  unicode :
      (h l : ℕ) {s t : Bytes}
      → h < 16
      → l < 16
      → Reads s t
      → Reads (b'\\' ∷ b'u' ∷ b'0' ∷ b'0' ∷ hex_digit h ∷ hex_digit l ∷ s) ((h * 16 + l) ∷ t)

halves : (c : ℕ) → ltb c 0x20 ≡ true → c / 16 % 16 * 16 + c % 16 ≡ c
halves c low = ground arith

differs : (c k : ℕ) → (c == k) ≡ false → c ≢ k
differs c k h = ground arith

escape_byte-Reads : (c : ℕ) (s t : Bytes) → Reads s t → Reads (escape_byte c ++ s) (c ∷ t)
unfolding escape_byte
escape_byte-Reads c s t r = elim (Bool-cases (c == b'"')) [
  | inl e ↦ rw e (is b'"' e (quote r))
  | inr n1 ↦ rw n1 (elim (Bool-cases (c == b'\\')) [
    | inl e ↦ rw e (is b'\\' e (backslash r))
    | inr n2 ↦ rw n2 (elim (Bool-cases (c == 10)) [
      | inl e ↦ rw e (is 10 e (newline r))
      | inr n3 ↦ rw n3 (elim (Bool-cases (c == 13)) [
        | inl e ↦ rw e (is 13 e (return r))
        | inr n4 ↦ rw n4 (elim (Bool-cases (c == 9)) [
          | inl e ↦ rw e (is 9 e (tab r))
          | inr n5 ↦ rw n5 (elim (Bool-cases (ltb c 0x20)) [
            | inl low ↦ rw low (
                subst (λ k. Reads (escaped ++ s) (k ∷ t)) (halves c low)
                  (unicode (c / 16 % 16) (c % 16) (omega arith) (omega arith) r))
            | inr high ↦
                rw high (plain c (ltb-false c 0x20 high) (differs c _ n1) (differs c _ n2) r)
          ])
        ])
      ])
    ])
  ])
]
  where
    escaped : Bytes
    escaped = b'\\' ∷ b'u' ∷ b'0' ∷ b'0' ∷ hex_digit (c / 16 % 16) ∷ hex_digit (c % 16) ∷ []

    is : (k : ℕ) {u : Bytes} → (c == k) ≡ true → Reads u (k ∷ t) → Reads u (c ∷ t)
    is k {u} e = subst (λ n. Reads u (n ∷ t)) (sym ((==_iff c k).0 e))

-- Of any byte string, the escaped text is the contents of a JSON string that stands for them.
pub escape-Reads : (src : Bytes) → Reads (escape src) src
unfolding escape
escape-Reads [] = end
escape-Reads (c ∷ cs) = escape_byte-Reads c (escape cs) cs (escape-Reads cs)

escape_byte-length : (c : ℕ) → length (escape_byte c) ≤ 6
unfolding escape_byte
escape_byte-length c = ground arith

-- The escaped text fits the six bytes for each byte that are allocated.
pub length-escape : (src : Bytes) → length (escape src) ≤ length src * 6
unfolding escape
length-escape [] = omega arith
length-escape (c ∷ cs) =
    omega (arith, length-append (escape_byte c) (escape cs), escape_byte-length c, length-escape cs)
