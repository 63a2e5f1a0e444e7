-- ===== src/Http/Conf/Key/Chomp.antt =====
-- What `chomp` takes from the end of a text.
use nginx_auth_webauthn.Base.{
  ℕ, zero, suc, ◌≤◌, ◌<◌, Bytes, length, length-take, get_or, take, ◌==◌, true, false, ◌≡◌, ◌≢◌,
  ◌⊎◌, inl, inr, ==_iff, sym, ap, ◌∙◌, subst, arith, Bool-cases,
}
use nginx_auth_webauthn.Http.Conf.Key.{is_newline, chomped, chomp}

-- The longest beginning of a text that does not end in a newline, where only newlines follow it.
pub record IsChomped (s r : Bytes) : Type 0 where
  pub start : r ≡ take (length r) s
  pub fits : length r ≤ length s
  pub only_newlines : (i : ℕ) → length r ≤ i → i < length s → is_newline (get_or s i 0) ≡ true
  pub no_newline : (j : ℕ) → length r ≡ suc j → is_newline (get_or s j 0) ≡ false

==-cases : (i n : ℕ) → (i ≡ n) ⊎ (i ≢ n)
==-cases i n = elim (Bool-cases (i == n)) [
  | inl e ↦ inl ((==_iff i n).0 e)
  | inr e ↦ inr λ same. cc ((==_iff i n).1 same, e)
]

suc-injective : {i n : ℕ} → suc i ≡ suc n → i ≡ n
suc-injective h = omega (arith, h)

chomped-le : (s : Bytes) (n : ℕ) → chomped s n ≤ n
unfolding chomped
chomped-le s zero = omega arith
chomped-le s (suc n) = ground (arith, chomped-le s n, Bool-cases (is_newline (get_or s n 0)))

chomped-newlines :
    (s : Bytes) (n i : ℕ) → chomped s n ≤ i → i < n → is_newline (get_or s i 0) ≡ true
unfolding chomped
chomped-newlines s zero i from to = absurd (omega arith)
chomped-newlines s (suc n) i from to = elim (Bool-cases (is_newline (get_or s n 0))) [
  | inl nl ↦ elim (==-cases i n) [
    | inl last ↦ rw last nl
    | inr other ↦ chomped-newlines s n i (rw nl at from) (omega (arith, other, to))
  ]
  | inr other ↦ absurd (omega (arith, rw other at from, to))
]

chomped-last : (s : Bytes) (n j : ℕ) → chomped s n ≡ suc j → is_newline (get_or s j 0) ≡ false
unfolding chomped
chomped-last s zero j e = absurd (omega arith)
chomped-last s (suc n) j e = elim (Bool-cases (is_newline (get_or s n 0))) [
  | inl nl ↦ chomped-last s n j (rw nl at e)
  | inr other ↦ subst (λ k. is_newline (get_or s k 0) ≡ false) (suc-injective (rw other at e)) other
]

-- `chomp` cuts every newline and carriage return at the end of a text, and no more.
pub chomp-IsChomped : (s : Bytes) → IsChomped s (chomp s)
unfolding chomp
chomp-IsChomped s =
    let len : length (take (chomped s (length s)) s) ≡ chomped s (length s) =
      omega (arith, length-take (chomped s (length s)) s, chomped-le s (length s)) in
    record {
      start = sym (ap (λ k. take k s) len);
      fits = omega (arith, len, chomped-le s (length s));
      only_newlines = λ i from to. chomped-newlines s (length s) i (omega (arith, from, len)) to;
      no_newline = λ j e. chomped-last s (length s) j (sym len ∙ e);
    }
