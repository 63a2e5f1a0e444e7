-- ===== src/Credential/Numeral.antt =====
-- Which texts are numbers of a record, and that a number survives being written and read.
use nginx_auth_webauthn.Base.{
  ℕ, zero, suc, ◌+◌, ◌-◌, ◌*◌, ◌/◌, ◌%◌, ◌^◌, ◌≤◌, ◌<◌, Bytes, length, All, [], ◌∷◌, ltb, ◌==◌,
  if◌then◌else◌, ◌||◌, true, false, ◌≡◌, ◌↔◌, inl, inr, refl, ==_iff, sym, ap, ◌∙◌, arith,
  Bool-cases, subst,
}
use nginx_auth_webauthn.Base.Rc.{Rc, ok, error, ◌>>=◌, bind_ok, error_guard, ok-injective}
use nginx_auth_webauthn.Base.Word.{ℤ, pos, negsuc}
use nginx_auth_webauthn.Redis.{decimal, decimal_rounds}
use nginx_auth_webauthn.Credential.{scan, atoi64, print_int, minus}

abbrev pub IsDigit : ℕ → Type 0
IsDigit c = (b'0' ≤ c) × (c ≤ b'9')

-- The number that digits continue `acc` to.
pub value : ℕ → Bytes → ℕ
value acc [] = acc
value acc (c ∷ cs) = value (acc * 10 + (c - b'0')) cs

abbrev pub Int64 : ℤ → Type 0
Int64 (pos n) = n < 2 ^ 63
Int64 (negsuc n) = n < 2 ^ 63

-- One or more digits, after a minus sign or none.
pub data IsNumeral : Bytes → ℤ → Type 0 where
  unsigned :
      (c : ℕ) (cs : Bytes) → All IsDigit (c ∷ cs) → IsNumeral (c ∷ cs) (pos (value 0 (c ∷ cs)))
  signed :
      (c : ℕ) (cs : Bytes)
      → All IsDigit (c ∷ cs)
      → IsNumeral (b'-' ∷ (c ∷ cs)) (minus (value 0 (c ∷ cs)))

value_grows : (acc : ℕ) (cs : Bytes) → acc ≤ value acc cs
unfolding value
value_grows acc [] = omega arith
value_grows acc (c ∷ cs) = omega (arith, value_grows (acc * 10 + (c - b'0')) cs)

-- The guard against the overflow is exact.
guard_exact :
    (limit acc d : ℕ) → d ≤ 9 → 9 ≤ limit → (acc ≤ (limit - d) / 10) ↔ (acc * 10 + d ≤ limit)
guard_exact limit acc d h k = ground arith

-- One round: a digit that leaves room, and the rest.
round_iff :
    (limit acc c n : ℕ) (rest : Rc ℕ)
    → 9 ≤ limit
    → ((if ltb c b'0' || ltb b'9' c
          then error
          else if ltb ((limit - (c - b'0')) / 10) acc
          then error
          else rest)
        ≡ ok n)
      ↔ (IsDigit c × (acc * 10 + (c - b'0') ≤ limit) × (rest ≡ ok n))
round_iff limit acc c n rest h = ground (arith, guard_exact limit acc (c - b'0'))

scan_iff :
    (limit acc : ℕ) (cs : Bytes) (n : ℕ)
    → 9 ≤ limit
    → acc ≤ limit
    → (scan limit acc cs ≡ ok n) ↔ (All IsDigit cs × (value acc cs ≡ n) × (n ≤ limit))
unfolding scan value
scan_iff limit acc [] n h k = ground arith
scan_iff limit acc (c ∷ cs) n h k = (
  λ e.
      let (d, room, r) = (round_iff limit acc c n _ h).0 e in
      let (ds, v, l) = (scan_iff limit (acc * 10 + (c - b'0')) cs n h room).0 r in ((d, ds), v, l),
  λ (dds, v, l).
      let room : acc * 10 + (c - b'0') ≤ limit =
        omega (arith, value_grows (acc * 10 + (c - b'0')) cs, v, l) in
      (round_iff limit acc c n _ h).1
        (dds.0, room, (scan_iff limit (acc * 10 + (c - b'0')) cs n h room).1 (dds.1, v, l)),
)

shorter : (k n : ℕ) → n < 10 ^ suc k → n / 10 < 10 ^ k
shorter k n h = omega arith

decimal_rounds-value :
    (k n : ℕ) (ds : Bytes) → n < 10 ^ k → value 0 (decimal_rounds k n ds) ≡ value n ds
unfolding decimal_rounds value
decimal_rounds-value zero n ds h = ap (λ a. value a ds) (omega arith)
decimal_rounds-value (suc k) n ds h = elim (Bool-cases (ltb n 10)) [
  | inl small ↦ rw small (ap (λ a. value a ds) (ground arith))
  | inr large ↦ rw large (
      decimal_rounds-value k (n / 10) ((b'0' + n % 10) ∷ ds) (shorter k n h)
      ∙ ap (λ a. value a ds) (omega arith))
]

decimal_rounds-digits :
    (k n : ℕ) (ds : Bytes) → All IsDigit ds → All IsDigit (decimal_rounds k n ds)
unfolding decimal_rounds
decimal_rounds-digits zero n ds h = h
decimal_rounds-digits (suc k) n ds h =
    let digit : IsDigit (b'0' + n % 10) = (omega arith, omega arith) in
    elim (Bool-cases (ltb n 10)) [
      | inl small ↦ rw small (digit, h)
      | inr large ↦ rw large (decimal_rounds-digits k (n / 10) ((b'0' + n % 10) ∷ ds) (digit, h))
    ]

decimal-nonempty :
    (k n : ℕ) (c : ℕ) (ds : Bytes) → (d : ℕ) × (es : Bytes) × (decimal_rounds k n (c ∷ ds) ≡ d ∷ es)
unfolding decimal_rounds
decimal-nonempty zero n c ds = (c, ds, refl)
decimal-nonempty (suc k) n c ds = elim (Bool-cases (ltb n 10)) [
  | inl small ↦ rw small (_, _, refl)
  | inr large ↦ rw large (decimal-nonempty k (n / 10) (b'0' + n % 10) (c ∷ ds))
]

decimal_rounds-nonempty : (n : ℕ) → (d : ℕ) × (es : Bytes) × (decimal_rounds 20 n [] ≡ d ∷ es)
unfolding decimal_rounds
decimal_rounds-nonempty n = elim (Bool-cases (ltb n 10)) [
  | inl small ↦ rw small (_, _, refl)
  | inr large ↦ rw large (decimal-nonempty 19 (n / 10) (b'0' + n % 10) [])
]

-- What "%lu" writes: digits, at least one, that stand for the number.
pub decimal_lem :
    (n : ℕ)
    → n < 2 ^ 64
    → (d : ℕ) × (es : Bytes) × (decimal n ≡ d ∷ es) × All IsDigit (d ∷ es) × (value 0 (d ∷ es) ≡ n)
unfolding decimal
decimal_lem n h =
    let (d, es, e) = decimal_rounds-nonempty n in
    (
      d,
      es,
      e,
      subst (All IsDigit) e (decimal_rounds-digits 20 n [] tt),
      sym (ap (value 0) e) ∙ decimal_rounds-value 20 n [] (omega arith) ∙ (unfold value in refl),
    )

Int64-minus : (n : ℕ) → n ≤ 2 ^ 63 → Int64 (minus n)
unfolding minus
Int64-minus zero h = omega arith
Int64-minus (suc n) h = omega arith

minus-Int64 : (n : ℕ) → Int64 (minus n) → n ≤ 2 ^ 63
unfolding minus
minus-Int64 zero h = omega arith
minus-Int64 (suc n) h = omega arith

atoi64-IsNumeral : (s : Bytes) (v : ℤ) → atoi64 s ≡ ok v → IsNumeral s v × Int64 v
unfolding atoi64
atoi64-IsNumeral [] v e = cc
atoi64-IsNumeral (c ∷ cs) v e = elim (Bool-cases (c == b'-')) [
  | inl minus_sign ↦ negative cs minus_sign (rw minus_sign at e)
  | inr digit ↦
      let (n, m, r) =
        bind_ok (scan (2 ^ 63 - 1) 0 (c ∷ cs)) (λ acc. ok (pos acc)) (rw digit at e) in
      let (ds, same, l) = (scan_iff (2 ^ 63 - 1) 0 (c ∷ cs) n (omega arith) (omega arith)).0 m in
      subst (λ v. IsNumeral (c ∷ cs) v × Int64 v) (ok-injective r)
        (subst (λ k. IsNumeral (c ∷ cs) (pos k)) same (unsigned c cs ds), omega arith)
]
  where
    negative :
        (cs : Bytes)
        → (c == b'-') ≡ true
        → (if length cs == 0 then error else scan (2 ^ 63) 0 cs >>= λ acc. ok (minus acc)) ≡ ok v
        → IsNumeral (c ∷ cs) v × Int64 v
    negative [] minus_sign e = cc
    negative (d ∷ ds) minus_sign e =
        let (n, m, r) =
          bind_ok (scan (2 ^ 63) 0 (d ∷ ds)) (λ acc. ok (minus acc))
            ((error_guard (length (d ∷ ds) == 0) _ e).1) in
        let (digits, same, l) = (scan_iff (2 ^ 63) 0 (d ∷ ds) n (omega arith) (omega arith)).0 m in
        subst (λ k. IsNumeral (k ∷ d ∷ ds) v × Int64 v) (sym ((==_iff c b'-').0 minus_sign))
          (subst (λ v. IsNumeral (b'-' ∷ d ∷ ds) v × Int64 v) (ok-injective r)
            (
              subst (λ k. IsNumeral (b'-' ∷ d ∷ ds) (minus k)) same (signed d ds digits),
              Int64-minus n l,
            ))

not_minus : (c : ℕ) → IsDigit c → (c == b'-') ≡ false
not_minus c d = ground arith

not_empty : (n : ℕ) → (suc n == 0) ≡ false
not_empty n = ground arith

IsNumeral-atoi64 : (s : Bytes) (v : ℤ) → IsNumeral s v → Int64 v → atoi64 s ≡ ok v
unfolding atoi64
IsNumeral-atoi64 s v (unsigned c cs ds) h = rw (not_minus c ds.0) (
    rw
      ((scan_iff (2 ^ 63 - 1) 0 (c ∷ cs) _ (omega arith) (omega arith)).1
        (ds, refl, omega (arith, h)))
      refl)
IsNumeral-atoi64 s v (signed c cs ds) h = rw (not_empty (length cs)) (
    rw ((scan_iff (2 ^ 63) 0 (c ∷ cs) _ (omega arith) (omega arith)).1 (ds, refl, minus-Int64 _ h))
      refl)

-- A text is read as `v` exactly where it is a numeral for `v`, and `v` fits an int64_t.
pub atoi64_iff : (s : Bytes) (v : ℤ) → (atoi64 s ≡ ok v) ↔ (IsNumeral s v × Int64 v)
atoi64_iff s v = (atoi64-IsNumeral s v, λ (n, h). IsNumeral-atoi64 s v n h)

-- What `snprintf` writes of an int64_t is read as that number.
pub atoi64-print_int : (v : ℤ) → Int64 v → atoi64 (print_int v) ≡ ok v
unfolding print_int
atoi64-print_int (pos n) h =
    let (d, es, e, ds, same) = decimal_lem n (omega arith) in
    rw e (
      IsNumeral-atoi64 (d ∷ es) (pos n)
        (subst (λ k. IsNumeral (d ∷ es) (pos k)) same (unsigned d es ds)) h)
atoi64-print_int (negsuc n) h =
    let (d, es, e, ds, same) = decimal_lem (suc n) (omega arith) in
    rw e (
      IsNumeral-atoi64 (b'-' ∷ d ∷ es) (negsuc n)
        (subst (IsNumeral (b'-' ∷ d ∷ es)) (ap minus same ∙ unfold minus in refl) (signed d es ds))
        h)
