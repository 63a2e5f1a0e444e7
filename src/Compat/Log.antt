-- ===== src/Compat/Log.antt =====
-- tools/admin/ngx_compat/ngx_compat.c, `ngx_compat_log_error`: nginx's conversions written as those of the C library, in a buffer of 512 bytes.
use nginx_auth_webauthn.Base.{
  ℕ, zero, suc, ◌+◌, ◌-◌, ◌≤◌, ◌<◌, Bytes, length, length-append, codes, ltb, ◌==◌, if◌then◌else◌,
  Bool, true, false, not, ◌&&◌, ◌||◌, Option, none, some, [], ◌∷◌, ◌++◌, ◌≡◌, inl, inr, refl, subst,
  arith, Bool-cases,
}

abbrev starts_size : Bytes → Bool
starts_size [] = false
starts_size (c ∷ cs) = c == b'z' || c == b'i'

-- What is written for a '%', from what follows it, and how much of that is used up; `none` is the end of the format.
unfoldable pub conversion : Bytes → Option (Bytes × ℕ)
conversion [] = none
conversion (c ∷ cs) =
    if c == b'u' && starts_size cs
    then some (codes "%zu", 2)
    else if starts_size (c ∷ cs)
    then some (codes "%zd", 1)
    else some (b'%' ∷ c ∷ [], 1)

abbrev piece : ℕ → Bytes → Option (Bytes × ℕ)
piece c cs = if c == b'%' then conversion cs else some (c ∷ [], 0)

-- The last four bytes of the buffer are kept free.
abbrev pub log_room : ℕ
log_room = 512 - 4

unfoldable pub continued : ℕ → (ℕ → ℕ → Bytes) → Option (Bytes × ℕ) → Bytes
continued n again none = []
continued n again (some (text, used)) = text ++ again (n + length text) used

-- The loop, with the bytes that are written, those that are used up already, and the format from here on.
unfoldable pub rewritten : ℕ → ℕ → Bytes → Bytes
unfolding conversion continued
rewritten n skip [] = []
rewritten n (suc skip) (c ∷ cs) = rewritten n skip cs
rewritten n zero (c ∷ cs) =
    if ltb n log_room then continued n (λ m used. rewritten m used cs) (piece c cs) else []

-- The format that is passed to the C library, where the message is logged at all.
unfoldable pub log_error : Option ℕ → ℕ → Bytes → Option Bytes
unfolding rewritten
log_error none level fmt = none
log_error (some log_level) level fmt =
    if ltb log_level level then none else some (rewritten 0 0 fmt)

-- No '%' stands at the end, without a byte that it converts.
unfoldable pub is_whole : Bytes → Bool
is_whole [] = true
is_whole (c ∷ []) = not (c == b'%')
is_whole (c ∷ d ∷ cs) =
    let after = is_whole cs in let next = is_whole (d ∷ cs) in if c == b'%' then after else next

-- A piece is short, and what stands after it decides whether the whole ends well.
record IsPiece (text : Bytes) : Type 0 where
  pub short : length text ≤ 3
  pub whole : (rest : Bytes) → is_whole rest ≡ true → is_whole (text ++ rest) ≡ true

is_whole-plain :
    (c : ℕ) (rest : Bytes) → (c == b'%') ≡ false → is_whole rest ≡ true → is_whole (c ∷ rest) ≡ true
unfolding is_whole
is_whole-plain c [] e h = rw e refl
is_whole-plain c (d ∷ rest) e h = rw e h

is_whole-percent : (c : ℕ) (rest : Bytes) → is_whole rest ≡ true → is_whole (b'%' ∷ c ∷ rest) ≡ true
unfolding is_whole
is_whole-percent c rest h = h

plain-IsPiece : (c : ℕ) → (c == b'%') ≡ false → IsPiece (c ∷ [])
plain-IsPiece c e = record { short = omega arith; whole = λ rest. is_whole-plain c rest e }

two-IsPiece : (c : ℕ) → IsPiece (b'%' ∷ c ∷ [])
two-IsPiece c = record { short = omega arith; whole = λ rest. is_whole-percent c rest }

three-IsPiece : (c : ℕ) → (c == b'%') ≡ false → IsPiece (b'%' ∷ b'z' ∷ c ∷ [])
three-IsPiece c e = record {
  short = omega arith;
  whole = λ rest h. is_whole-percent b'z' (c ∷ rest) (is_whole-plain c rest e h);
}

text_of : {a b : Bytes} {m n : ℕ} → ◌≡◌ {A = Option (Bytes × ℕ)} (some (a, m)) (some (b, n)) → a ≡ b
text_of h = cc

conversion-IsPiece : (cs text : Bytes) (used : ℕ) → conversion cs ≡ some (text, used) → IsPiece text
unfolding conversion
conversion-IsPiece [] text used h = cc
conversion-IsPiece (c ∷ cs) text used h = elim (Bool-cases (c == b'u' && starts_size cs)) [
  | inl e ↦ subst IsPiece (text_of (rw e at h)) (three-IsPiece b'u' refl)
  | inr e ↦ elim (Bool-cases (starts_size (c ∷ cs))) [
    | inl e2 ↦ subst IsPiece (text_of (rw e2 at (rw e at h))) (three-IsPiece b'd' refl)
    | inr e2 ↦ subst IsPiece (text_of (rw e2 at (rw e at h))) (two-IsPiece c)
  ]
]

piece-IsPiece : (c : ℕ) (cs text : Bytes) (used : ℕ) → piece c cs ≡ some (text, used) → IsPiece text
piece-IsPiece c cs text used h = elim (Bool-cases (c == b'%')) [
  | inl e ↦ conversion-IsPiece cs text used (rw e at h)
  | inr e ↦ subst IsPiece (text_of (rw e at h)) (plain-IsPiece c e)
]

abbrev Fits : ℕ → Bytes → Type 0
Fits n out = (n + length out ≤ 510) × (is_whole out ≡ true)

continued_lem :
    (n : ℕ) (again : ℕ → ℕ → Bytes) (r : Option (Bytes × ℕ))
    → n < 508
    → ((text : Bytes) (used : ℕ) → r ≡ some (text, used) → IsPiece text)
    → ((m used : ℕ) → m ≤ 510 → Fits m (again m used))
    → Fits n (continued n again r)
unfolding continued is_whole
continued_lem n again none room pieces fits = (omega (arith, room), refl)
continued_lem n again (some (text, used)) room pieces fits =
    let p : IsPiece text = pieces text used refl in
    let (short, whole) = fits (n + length text) used (omega (arith, room, p.short)) in
    (
      omega (arith, short, length-append text (again (n + length text) used)),
      p.whole (again (n + length text) used) whole,
    )

rewritten_lem : (n skip : ℕ) (fmt : Bytes) → n ≤ 510 → Fits n (rewritten n skip fmt)
unfolding rewritten is_whole
rewritten_lem n skip [] h = (omega (arith, h), refl)
rewritten_lem n (suc skip) (c ∷ cs) h = rewritten_lem n skip cs h
rewritten_lem n zero (c ∷ cs) h = elim (Bool-cases (ltb n log_room)) [
  | inl e ↦ rw e (
      continued_lem n (λ m used. rewritten m used cs) (piece c cs) (ground (arith, e))
        (λ text used. piece-IsPiece c cs text used) λ m used. rewritten_lem m used cs)
  | inr e ↦ rw e (omega (arith, h), refl)
]

-- Whatever the format is, what the C library gets of it leaves the buffer of 512 bytes room for the NUL, and has no '%' at its end
-- without a byte that it converts.
pub log_error_fits :
    (log_level : Option ℕ) (level : ℕ) (fmt out : Bytes)
    → log_error log_level level fmt ≡ some out
    → (length out < 512) × (is_whole out ≡ true)
unfolding log_error
log_error_fits none level fmt out h = cc
log_error_fits (some log_level) level fmt out h = elim (Bool-cases (ltb log_level level)) [
  | inl e ↦ cc (rw e at h)
  | inr e ↦
      let (short, whole) = rewritten_lem 0 0 fmt (omega arith) in
      subst (λ out. (length out < 512) × (is_whole out ≡ true)) (some-injective (rw e at h))
        (omega (arith, short), whole)
]
  where
    some-injective : {a b : Bytes} → some a ≡ some b → a ≡ b
    some-injective h = cc
