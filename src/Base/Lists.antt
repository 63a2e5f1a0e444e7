-- ===== src/Base/Lists.antt =====
-- Byte strings: lists of numbers, measured and cut by native numbers, and literal texts as bytes.
use Prim.Native.Nat.{ℕ, zero, suc, ◌+◌, ◌-◌, ◌<◌, ◌≤◌, min}
use Prim.Native.Char.{code}
use Prim.Native.String.{String}
use mathlib.Core.Path.{◌≡◌, refl, ap, sym, ◌∙◌}
use mathlib.Core.Logic.{◌↔◌}
use mathlib.Core.Bool.{Bool, true, false, ◌&&◌}
use mathlib.Core.List.{List, [], ◌∷◌, ◌++◌}
use native.Mathlib.Omega.{arith}
use nginx_auth_webauthn.Base.Tests.{◌==◌}

suc_add : (n i : ℕ) → suc n + i ≡ suc (n + i)
suc_add n i = omega arith

module _ {ℓ} {A : Type ℓ} where
  abbrev pub length : List A → ℕ
  length [] = 0
  length (x ∷ xs) = suc (length xs)

  abbrev pub get_or : List A → ℕ → A → A
  get_or [] i d = d
  get_or (x ∷ xs) zero d = x
  get_or (x ∷ xs) (suc i) d = get_or xs i d

  abbrev pub take : ℕ → List A → List A
  take zero xs = []
  take (suc n) [] = []
  take (suc n) (x ∷ xs) = x ∷ take n xs

  abbrev pub drop : ℕ → List A → List A
  drop zero xs = xs
  drop (suc n) [] = []
  drop (suc n) (x ∷ xs) = drop n xs

  abbrev pub replicate : ℕ → A → List A
  replicate zero a = []
  replicate (suc n) a = a ∷ replicate n a

  pub length-append : (xs ys : List A) → length (xs ++ ys) ≡ length xs + length ys
  length-append [] ys = omega arith
  length-append (x ∷ xs) ys = omega (arith, length-append xs ys)

  pub length-take : (n : ℕ) (xs : List A) → length (take n xs) ≡ min n (length xs)
  length-take zero xs = omega arith
  length-take (suc n) [] = omega arith
  length-take (suc n) (x ∷ xs) = omega (arith, length-take n xs)

  pub length-drop : (n : ℕ) (xs : List A) → length (drop n xs) ≡ length xs - n
  length-drop zero xs = omega arith
  length-drop (suc n) [] = omega arith
  length-drop (suc n) (x ∷ xs) = omega (arith, length-drop n xs)

  pub take-append-drop : (n : ℕ) (xs : List A) → take n xs ++ drop n xs ≡ xs
  take-append-drop zero xs = refl
  take-append-drop (suc n) [] = refl
  take-append-drop (suc n) (x ∷ xs) = rw (take-append-drop n xs)

  pub take-append : (xs ys : List A) → take (length xs) (xs ++ ys) ≡ xs
  take-append [] ys = refl
  take-append (x ∷ xs) ys = ap (λ l. x ∷ l) (take-append xs ys)

  pub drop-append : (xs ys : List A) → drop (length xs) (xs ++ ys) ≡ ys
  drop-append [] ys = refl
  drop-append (x ∷ xs) ys = drop-append xs ys

  abbrev pub All {κ} : (A → Type κ) → List A → Type κ
  All P [] = Unit {κ}
  All P (x ∷ xs) = P x × All P xs

module _ {ℓ} {A : Type ℓ} where
  -- Reading and cutting past a first part of known length.
  pub get_or_past :
      (xs ys : List A) (n i : ℕ) (d : A)
      → length xs ≡ n
      → get_or (xs ++ ys) (n + i) d ≡ get_or ys i d
  get_or_past [] ys zero i d h = ground arith
  get_or_past [] ys (suc n) i d h = absurd (omega arith)
  get_or_past (x ∷ xs) ys zero i d h = absurd (omega arith)
  get_or_past (x ∷ xs) ys (suc n) i d h =
      ap (λ k. get_or (x ∷ (xs ++ ys)) k d) (suc_add n i) ∙ get_or_past xs ys n i d (omega arith)

  pub drop_past : (xs ys : List A) (n i : ℕ) → length xs ≡ n → drop (n + i) (xs ++ ys) ≡ drop i ys
  drop_past [] ys zero i h = ground arith
  drop_past [] ys (suc n) i h = absurd (omega arith)
  drop_past (x ∷ xs) ys zero i h = absurd (omega arith)
  drop_past (x ∷ xs) ys (suc n) i h =
      ap (λ k. drop k (x ∷ (xs ++ ys))) (suc_add n i) ∙ drop_past xs ys n i (omega arith)

  pub take_part : (xs ys : List A) (n : ℕ) → length xs ≡ n → take n (xs ++ ys) ≡ xs
  take_part [] ys zero h = refl
  take_part [] ys (suc n) h = absurd (omega arith)
  take_part (x ∷ xs) ys zero h = absurd (omega arith)
  take_part (x ∷ xs) ys (suc n) h = ap (λ l. x ∷ l) (take_part xs ys n (omega arith))

  pub get_or-append :
      (xs ys : List A) (i : ℕ) (d : A) → i < length xs → get_or (xs ++ ys) i d ≡ get_or xs i d
  get_or-append [] ys i d h = elim h [ ]
  get_or-append (x ∷ xs) ys zero d h = refl
  get_or-append (x ∷ xs) ys (suc i) d h = get_or-append xs ys i d (omega arith)

  pub take_first : (n : ℕ) (xs ys : List A) → n ≤ length xs → take n (xs ++ ys) ≡ take n xs
  take_first zero xs ys h = refl
  take_first (suc n) [] ys h = elim h [ ]
  take_first (suc n) (x ∷ xs) ys h = ap (λ l. x ∷ l) (take_first n xs ys (omega arith))

  pub take_past :
      (xs ys : List A) (n i : ℕ) → length xs ≡ n → take (n + i) (xs ++ ys) ≡ xs ++ take i ys
  take_past [] ys zero i h = ground arith
  take_past [] ys (suc n) i h = absurd (omega arith)
  take_past (x ∷ xs) ys zero i h = absurd (omega arith)
  take_past (x ∷ xs) ys (suc n) i h =
      ap (λ k. take k (x ∷ (xs ++ ys))) (suc_add n i)
      ∙ ap (λ l. x ∷ l) (take_past xs ys n i (omega arith))

  pub drop_cons :
      (xs : List A) (n : ℕ) (d : A) → n < length xs → drop n xs ≡ get_or xs n d ∷ drop (suc n) xs
  drop_cons [] n d h = elim h [ ]
  drop_cons (x ∷ xs) zero d h = refl
  drop_cons (x ∷ xs) (suc n) d h = drop_cons xs n d (omega arith)

  pub drop-drop : (n m : ℕ) (xs : List A) → drop m (drop n xs) ≡ drop (n + m) xs
  drop-drop zero m xs = ground arith
  drop-drop (suc n) zero [] = ap (λ k. drop k []) (sym (suc_add n zero))
  drop-drop (suc n) (suc m) [] = ap (λ k. drop k []) (sym (suc_add n (suc m)))
  drop-drop (suc n) m (x ∷ xs) = drop-drop n m xs ∙ ap (λ k. drop k (x ∷ xs)) (sym (suc_add n m))

-- A byte string: an `ngx_str_t`, or a pointer with a length.
abbrev pub Bytes : Type 0
Bytes = List ℕ

abbrev pub IsByte : ℕ → Type 0
IsByte b = b < 256

-- The bytes of an ASCII text.
abbrev pub codes : String → Bytes
codes String.[] = []
codes (String.◌∷◌ c s) = code c ∷ codes s

-- `a->len == b->len` and an equal `memcmp`.
unfoldable pub bytes_eq : Bytes → Bytes → Bool
bytes_eq [] [] = true
bytes_eq [] (y ∷ ys) = false
bytes_eq (x ∷ xs) [] = false
bytes_eq (x ∷ xs) (y ∷ ys) = x == y && bytes_eq xs ys

pub bytes_eq_iff : (a b : Bytes) → (bytes_eq a b ≡ true) ↔ (a ≡ b)
unfolding bytes_eq
bytes_eq_iff [] [] = ground arith
bytes_eq_iff [] (y ∷ ys) = ground arith
bytes_eq_iff (x ∷ xs) [] = ground arith
bytes_eq_iff (x ∷ xs) (y ∷ ys) = ground (arith, bytes_eq_iff xs ys)

-- A read past the end gives the default 0, which is a byte too.
pub get_or-IsByte : (xs : Bytes) (i : ℕ) → All IsByte xs → get_or xs i 0 < 256
get_or-IsByte [] i h = omega arith
get_or-IsByte (x ∷ xs) zero h = h.0
get_or-IsByte (x ∷ xs) (suc i) h = get_or-IsByte xs i h.1
