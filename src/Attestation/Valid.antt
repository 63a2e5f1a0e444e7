-- ===== src/Attestation/Valid.antt =====
-- Which attestations a registration accepts.
use Prim.Native.Nat.{bit_and}
use nginx_auth_webauthn.Base.{
  ℕ, ◌+◌, Bytes, length, bytes_eq, bytes_eq_iff, codes, ◌==◌, true, false, not, ◌||◌, ◌++◌, ◌≡◌,
  ◌≢◌, ◌↔◌, inl, inr, refl, sym, ap, ◌∙◌, subst, arith, Bool-cases,
}
use nginx_auth_webauthn.Base.Rc.{
  Rc, ok, bind_ok, require_passed, declined-ne-ok, error-ne-ok, ok-injective, declined_guard,
}
use nginx_auth_webauthn.Base.Word.{ℤ, pos, int_eq, int_eq_iff}
use nginx_auth_webauthn.Platform.{Nginx, Cbor, Openssl, Md}
use nginx_auth_webauthn.Hash.{hash_sha256}
use nginx_auth_webauthn.Authdata
use nginx_auth_webauthn.Authdata.{Authdata, flag_at}
use nginx_auth_webauthn.Cose.{cose_to_pkey, alg_es256, alg_eddsa, alg_rs256}
use nginx_auth_webauthn.Cose.Valid.{IsCoseKey, cose_to_pkey_iff}
use nginx_auth_webauthn.Assertion.Signature.{verdict_iff}
use nginx_auth_webauthn.Hash.Digest.{IsDigest, hash_sha256_iff}
use nginx_auth_webauthn.Attestation.{
  Attestation, att_none, packed_digest, verify_packed, by_format, attestation_verify,
}

-- The digest that goes with an algorithm.
pub data DigestOf : ℤ → Md → Type 0 where
  es256 : {alg : ℤ} → alg ≡ alg_es256 → DigestOf alg Md.sha256
  rs256 : {alg : ℤ} → alg ≡ alg_rs256 → DigestOf alg Md.sha256
  eddsa : {alg : ℤ} → alg ≡ alg_eddsa → DigestOf alg Md.none

made : {alg : ℤ} {m md : Md} → DigestOf alg m → ◌≡◌ {A = Rc Md} (ok m) (ok md) → DigestOf alg md
made {alg} d e = subst (DigestOf alg) (ok-injective e) d

packed_digest-DigestOf : (alg : ℤ) (md : Md) → packed_digest alg ≡ ok md → DigestOf alg md
unfolding packed_digest
packed_digest-DigestOf alg md h = elim (Bool-cases (int_eq alg alg_es256)) [
  | inl a ↦ made (es256 ((int_eq_iff _ _).0 a)) (ground arith)
  | inr na ↦ elim (Bool-cases (int_eq alg alg_rs256)) [
    | inl b ↦ made (rs256 ((int_eq_iff _ _).0 b)) (ground arith)
    | inr nb ↦ elim (Bool-cases (int_eq alg alg_eddsa)) [
      | inl c ↦ made (eddsa ((int_eq_iff _ _).0 c)) (ground arith)
      | inr nc ↦ absurd (ground arith)
    ]
  ]
]

DigestOf-packed_digest : (alg : ℤ) (md : Md) → DigestOf alg md → packed_digest alg ≡ ok md
unfolding packed_digest
DigestOf-packed_digest alg md (es256 e) = rw e
DigestOf-packed_digest alg md (rs256 e) = rw e
DigestOf-packed_digest alg md (eddsa e) = rw e

module _ {Item Pkey : Type 0} (cbor : Cbor Item) (ng : Nginx) (ssl : Openssl Pkey) where
  -- Self-attestation: the key of authData, with the algorithm of the statement, signed authData and the hash.
  pub record IsSelfSigned (att : Attestation) (ad : Authdata) (client_data_hash : Bytes)
      : Type 0 where
    pub has_sig : length att.att_sig ≢ 0
    pub attests : bit_and ad.flags flag_at ≢ 0
    pub has_key : length ad.cose_public_key ≢ 0
    pub pkey : Pkey
    pub key : IsCoseKey cbor ssl ad.cose_public_key pkey att.att_alg
    pub md : Md
    pub digest : DigestOf att.att_alg md
    pub started : ssl.digest_verify_init md pkey ≡ true
    pub verified : ssl.digest_verify md pkey att.att_sig (att.auth_data ++ client_data_hash) ≡ pos 1

  verify_packed_iff :
      (att : Attestation) (ad : Authdata) (cdh : Bytes)
      → ((n : ℕ) → ng.pnalloc n ≡ true)
      → ssl.md_ctx_new ≡ true
      → (verify_packed cbor ng ssl att ad cdh ≡ ok tt) ↔ IsSelfSigned att ad cdh
  unfolding verify_packed
  verify_packed_iff att ad cdh room ctx = (
    λ h.
        let (sig, h1) = require_passed (not (length att.att_sig == 0)) _ _ (declined-ne-ok tt) h in
        let (at, h2) =
          require_passed (not (bit_and ad.flags flag_at == 0 || length ad.cose_public_key == 0)) _ _
            (declined-ne-ok tt) h1 in
        let ((pkey, key_alg), key, h3) = bind_ok (cose_to_pkey cbor ssl ad.cose_public_key) _ h2 in
        let (same, h4) = require_passed (int_eq att.att_alg key_alg) _ _ (declined-ne-ok tt) h3 in
        let (md, digest, h5) = bind_ok (packed_digest key_alg) _ h4 in
        let (_, h6) =
          require_passed (ng.pnalloc (length att.auth_data + length cdh)) _ _ (error-ne-ok tt) h5 in
        let (_, h7) = require_passed ssl.md_ctx_new _ _ (error-ne-ok tt) h6 in
        let (started, h8) =
          require_passed (ssl.digest_verify_init md pkey) _ _ (error-ne-ok tt) h7 in
        let alg : att.att_alg ≡ key_alg = (int_eq_iff att.att_alg key_alg).0 same in
        record {
          has_sig = ground (arith, sig);
          attests = ground (arith, at);
          has_key = ground (arith, at);
          pkey = pkey;
          key =
              subst (IsCoseKey cbor ssl ad.cose_public_key pkey) (sym alg)
                ((cose_to_pkey_iff cbor ssl _ pkey key_alg).0 key);
          md = md;
          digest = subst (λ a. DigestOf a md) (sym alg) (packed_digest-DigestOf key_alg md digest);
          started = started;
          verified = (verdict_iff _).0 h8;
        },
    λ (h : IsSelfSigned att ad cdh). ground (
      arith,
      h.has_sig,
      h.attests,
      h.has_key,
      (cose_to_pkey_iff cbor ssl ad.cose_public_key h.pkey att.att_alg).1 h.key,
      (int_eq_iff att.att_alg att.att_alg).1 refl,
      DigestOf-packed_digest att.att_alg h.md h.digest,
      room (length att.auth_data + length cdh),
      ctx,
      h.started,
      (verdict_iff (ssl.digest_verify h.md h.pkey att.att_sig (att.auth_data ++ cdh))).1 h.verified,
    ),
  )

  -- The format "none", or, where it is demanded less strictly, packed self-attestation without certificates.
  pub data IsFormat (att : Attestation) (ad : Authdata) (client_data_hash : Bytes) (demand : ℕ)
      : Type 0 where
    none_format : att.fmt ≡ codes "none" → IsFormat att ad client_data_hash demand
    packed_format :
        att.fmt ≡ codes "packed"
        → demand ≢ att_none
        → att.has_x5c ≡ false
        → IsSelfSigned att ad client_data_hash
        → IsFormat att ad client_data_hash demand

  pub record IsAttested (att : Attestation) (rp_id client_data_hash : Bytes) (demand : ℕ)
      : Type 0 where
    pub auth_data : Authdata
    pub parsed : Authdata.parse att.auth_data ≡ ok auth_data
    pub relying_party : IsDigest ssl rp_id auth_data.rp_id_hash
    pub format : IsFormat att auth_data client_data_hash demand

  by_format_iff :
      (att : Attestation) (ad : Authdata) (cdh : Bytes) (demand : ℕ)
      → ((n : ℕ) → ng.pnalloc n ≡ true)
      → ssl.md_ctx_new ≡ true
      → (by_format cbor ng ssl att ad cdh demand ≡ ok tt) ↔ IsFormat att ad cdh demand
  unfolding by_format
  by_format_iff att ad cdh demand room ctx = (
    λ h. elim (Bool-cases (bytes_eq att.fmt (codes "none"))) [
      | inl is_none ↦ none_format ((bytes_eq_iff _ _).0 is_none)
      | inr other ↦
          let (demanded, h1) = declined_guard (demand == att_none) _ (rw other at h) in
          let (packed, h2) = declined_guard (not (bytes_eq att.fmt (codes "packed"))) _ h1 in
          let (plain, h3) = declined_guard att.has_x5c _ h2 in
          packed_format ((bytes_eq_iff _ _).0 (ground (arith, packed))) (ground (arith, demanded))
            plain ((verify_packed_iff att ad cdh room ctx).0 h3)
    ],
    by_format-IsFormat,
  )
    where
      by_format-IsFormat :
          IsFormat att ad cdh demand → by_format cbor ng ssl att ad cdh demand ≡ ok tt
      by_format-IsFormat (none_format e) = rw ((bytes_eq_iff att.fmt (codes "none")).1 e) refl
      by_format-IsFormat (packed_format e d x s) = ground (
        arith,
        bytes_eq_iff att.fmt (codes "none"),
        (bytes_eq_iff att.fmt (codes "packed")).1 e,
        d,
        x,
        (verify_packed_iff att ad cdh room ctx).1 s,
      )

  -- Where the pool and the digest context can be allocated, an attestation is accepted exactly where its authData parses,
  -- carries the digest of the expected relying party, and the format is "none", or, unless "none" is demanded, packed
  -- self-attestation without certificates.
  pub attestation_verify_iff :
      (att : Attestation) (rp_id cdh : Bytes) (demand : ℕ)
      → ((n : ℕ) → ng.pnalloc n ≡ true)
      → ssl.md_ctx_new ≡ true
      → (attestation_verify cbor ng ssl att rp_id cdh demand ≡ ok tt)
        ↔ IsAttested att rp_id cdh demand
  unfolding attestation_verify
  attestation_verify_iff att rp_id cdh demand room ctx = (
    λ h.
        let (ad, parsed, h1) = bind_ok (Authdata.parse att.auth_data) _ h in
        let (rp, is_rp, h2) = bind_ok (hash_sha256 ssl rp_id) _ h1 in
        let (same, h3) = require_passed (bytes_eq ad.rp_id_hash rp) _ _ (declined-ne-ok tt) h2 in
        record {
          auth_data = ad;
          parsed = parsed;
          relying_party =
              (hash_sha256_iff ssl rp_id _).0
                (is_rp ∙ ap ok (sym ((bytes_eq_iff ad.rp_id_hash rp).0 same)));
          format = (by_format_iff att ad cdh demand room ctx).0 h3;
        },
    λ (h : IsAttested att rp_id cdh demand). ground (
      arith,
      h.parsed,
      (hash_sha256_iff ssl rp_id h.auth_data.rp_id_hash).1 h.relying_party,
      (bytes_eq_iff h.auth_data.rp_id_hash h.auth_data.rp_id_hash).1 refl,
      (by_format_iff att h.auth_data cdh demand room ctx).1 h.format,
    ),
  )
