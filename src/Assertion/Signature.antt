-- ===== src/Assertion/Signature.antt =====
-- The signature check of an assertion: what a good signature is, and the errors before it.
use nginx_auth_webauthn.Base.{Bytes, ◌≡◌, ◌↔◌, inl, inr, true, some, arith, Bool-cases, subst₂}
use nginx_auth_webauthn.Base.Rc.{Rc, ok, some_or_ok, bind_ok, require_passed, error-ne-ok}
use nginx_auth_webauthn.Base.Word.{ℤ, pos, negsuc, int_eq, int_eq_iff}
use nginx_auth_webauthn.Platform.{Openssl, PkeyType, Md, ec, rsa, ed25519}
use nginx_auth_webauthn.Assertion.{AssertionCred, digest_for, same_type, verdict, check_signature}

-- The algorithms of the COSE registry that the program verifies, with digest and key type.
pub data Algorithm : ℤ → Md → PkeyType → Type 0 where
  es256 : {alg : ℤ} → alg ≡ negsuc 6 → Algorithm alg Md.sha256 ec
  eddsa : {alg : ℤ} → alg ≡ negsuc 7 → Algorithm alg Md.none ed25519
  rs256 : {alg : ℤ} → alg ≡ negsuc 256 → Algorithm alg Md.sha256 rsa

same_type_iff : (a b : PkeyType) → (same_type a b ≡ true) ↔ (a ≡ b)
unfolding same_type
same_type_iff ec b = ground arith
same_type_iff _ b = ground arith

pub verdict_iff : (ret : ℤ) → (verdict ret ≡ ok tt) ↔ (ret ≡ pos 1)
unfolding verdict
verdict_iff ret = ground (arith, int_eq_iff ret (pos 1), int_eq_iff ret (pos 0))

-- An equation between choices carries the family over.
picks :
    {alg : ℤ} {md n : Md} {t u : PkeyType}
    → Algorithm alg n u
    → ◌≡◌ {A = Rc (Md × PkeyType)} (ok (n, u)) (ok (md, t))
    → Algorithm alg md t
picks {alg} a e = subst₂ (Algorithm alg) (ground arith) (ground arith) a

digest_for-Algorithm :
    (alg : ℤ) {md : Md} {t : PkeyType} → digest_for alg ≡ ok (md, t) → Algorithm alg md t
unfolding digest_for
digest_for-Algorithm alg h = elim (Bool-cases (int_eq alg (negsuc 6))) [
  | inl a ↦ picks (es256 ((int_eq_iff _ _).0 a)) (ground arith)
  | inr na ↦ elim (Bool-cases (int_eq alg (negsuc 256))) [
    | inl b ↦ picks (rs256 ((int_eq_iff _ _).0 b)) (ground arith)
    | inr nb ↦ elim (Bool-cases (int_eq alg (negsuc 7))) [
      | inl c ↦ picks (eddsa ((int_eq_iff _ _).0 c)) (ground arith)
      | inr nc ↦ absurd (ground arith)
    ]
  ]
]

Algorithm-digest_for :
    {alg : ℤ} {md : Md} {t : PkeyType} → Algorithm alg md t → digest_for alg ≡ ok (md, t)
unfolding digest_for
Algorithm-digest_for (es256 e) = rw e
Algorithm-digest_for (eddsa e) = rw e
Algorithm-digest_for (rs256 e) = rw e

module _ {Pkey : Type 0} (ssl : Openssl Pkey) where
  -- The stored key is of the type that the stored algorithm needs, and OpenSSL accepts the signature under it.
  pub record IsSignedBy (cred : AssertionCred) (signed_data signature : Bytes) : Type 0 where
    pub md : Md
    pub type : PkeyType
    pub algorithm : Algorithm cred.alg md type
    pub pkey : Pkey
    pub loaded : ssl.d2i_pubkey cred.public_key ≡ some pkey
    pub matches : ssl.base_id pkey ≡ type
    pub started : ssl.digest_verify_init md pkey ≡ true
    pub verified : ssl.digest_verify md pkey signature signed_data ≡ pos 1

  -- Where a digest context can be made, the check passes exactly for an algorithm of the three, a stored key that loads and has
  -- the type of that algorithm, and a signature that OpenSSL accepts under it.
  pub check_signature_iff :
      (cred : AssertionCred) (signed_data signature : Bytes)
      → ssl.md_ctx_new ≡ true
      → (check_signature ssl cred signed_data signature ≡ ok tt)
        ↔ IsSignedBy cred signed_data signature
  unfolding check_signature
  check_signature_iff cred signed_data signature room = (
    λ h.
        let ((md, type), alg, h1) = bind_ok (digest_for cred.alg) _ h in
        let (pkey, loaded, h2) = some_or_ok (ssl.d2i_pubkey cred.public_key) _ _ error-ne-ok h1 in
        let (matches, h3) =
          require_passed (same_type (ssl.base_id pkey) type) _ _ (error-ne-ok tt) h2 in
        let (_, h4) = require_passed ssl.md_ctx_new _ _ (error-ne-ok tt) h3 in
        let (started, h5) =
          require_passed (ssl.digest_verify_init md pkey) _ _ (error-ne-ok tt) h4 in
        record {
          md = md;
          type = type;
          algorithm = digest_for-Algorithm cred.alg alg;
          pkey = pkey;
          loaded = loaded;
          matches = (same_type_iff (ssl.base_id pkey) type).0 matches;
          started = started;
          verified = (verdict_iff (ssl.digest_verify md pkey signature signed_data)).0 h5;
        },
    λ (h : IsSignedBy cred signed_data signature). ground (
      arith,
      Algorithm-digest_for h.algorithm,
      same_type_iff (ssl.base_id h.pkey) h.type,
      verdict_iff (ssl.digest_verify h.md h.pkey signature signed_data),
    ),
  )
