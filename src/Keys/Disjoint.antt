-- ===== src/Keys/Disjoint.antt =====
-- Distinct objects have distinct keys, whatever bytes they contain.
use nginx_auth_webauthn.Base.{
  Bytes, length, codes, drop, ◌++◌, ◌≡◌, ◌≢◌, ap, sym, ◌∙◌, arith, drop-append, take-append, take,
  length-append,
}
use nginx_auth_webauthn.Keys.{challenge_name, record_name, index_name, rate_limit_name}

append-injective : (p a b : Bytes) → p ++ a ≡ p ++ b → a ≡ b
append-injective p a b h = sym (drop-append p a) ∙ ap (drop (length p)) h ∙ drop-append p b

same_length : (a b s : Bytes) → a ++ s ≡ b ++ s → length a ≡ length b
same_length a b s h = omega (arith, ap length h, length-append a s, length-append b s)

-- Two texts that are equal with one ending are equal.
append_last : (a b s : Bytes) → a ++ s ≡ b ++ s → a ≡ b
append_last a b s h =
    sym (take-append a s)
    ∙ ap (λ n. take n (a ++ s)) (same_length a b s h)
    ∙ ap (take (length b)) h
    ∙ take-append b s

-- Under one prefix a challenge's key is that of no other challenge, and of no record, index or counter.
pub challenge_name_unique :
    (p a b : Bytes)
    → (challenge_name p a ≡ challenge_name p b → a ≡ b)
      × (challenge_name p a ≢ record_name p b)
      × (challenge_name p a ≢ index_name p b)
      × (challenge_name p a ≢ rate_limit_name p b)
challenge_name_unique p a b = (
  λ h. append-injective (codes "chal:") a b (append-injective p _ _ h),
  λ h. ground (arith, append-injective p _ _ h),
  λ h. ground (arith, append-injective p _ _ h),
  λ h. ground (arith, append-injective p _ _ h),
)

-- Under one prefix, credentials have distinct records and users distinct indexes, and no record is an index.
pub stored_name_unique :
    (p a b : Bytes)
    → (record_name p a ≡ record_name p b → a ≡ b)
      × (index_name p a ≡ index_name p b → a ≡ b)
      × (record_name p a ≢ index_name p b)
stored_name_unique p a b = (
  λ h. append-injective (codes "cred:") a b (append-injective p _ _ h),
  λ h.
      append_last a b (codes ":creds")
        (append-injective (codes "user:") _ _ (append-injective p _ _ h)),
  λ h. ground (arith, append-injective p _ _ h),
)
