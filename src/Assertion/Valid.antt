-- ===== src/Assertion/Valid.antt =====
-- The verification of an assertion against the list of what WebAuthn level 2, section 7.2 demands.
use Prim.Native.Nat.{bit_and, bit_or}
use nginx_auth_webauthn.Base.{
  ℕ, ◌+◌, Bytes, length, bytes_eq, bytes_eq_iff, codes, ◌==◌, ==_iff, Bool, true, false, not, ◌&&◌,
  ◌≡◌, ◌≢◌, ◌↔◌, refl, ap, sym, ◌∙◌, ◌++◌, arith,
}
use nginx_auth_webauthn.Base.Rc.{
  ok, bind_ok, require_passed, declined-ne-ok, error-ne-ok, ok-injective,
}
use nginx_auth_webauthn.Platform.{Nginx, JsonLib, Openssl}
use nginx_auth_webauthn.Hash.{hash_sha256}
use nginx_auth_webauthn.Hash.Digest.{IsDigest, hash_sha256_iff}
use nginx_auth_webauthn.Authdata
use nginx_auth_webauthn.Authdata.{Authdata, sha256_len, flag_up, flag_uv, flag_at, flag_ed}
use nginx_auth_webauthn.Clientdata
use nginx_auth_webauthn.Clientdata.Valid.{IsAccepted, verify_iff}
use nginx_auth_webauthn.Assertion.{
  Assertion, AssertionCred, AssertionPolicy, check_counter, check_signature, assertion_verify,
}
use nginx_auth_webauthn.Assertion.Counter.{CounterAllowed, check_counter_iff}
use nginx_auth_webauthn.Assertion.Signature.{IsSignedBy, check_signature_iff}

module _ {Pkey Json : Type 0} (ssl : Openssl Pkey) (js : JsonLib Json) (ng : Nginx) where
  pub record IsAuthentic (a : Assertion) (cred : AssertionCred) (policy : AssertionPolicy)
      (count : ℕ) : Type 0 where
    pub client :
        IsAccepted js ng a.client_data_json
          (codes "webauthn.get")
          policy.expected_challenge
          policy.allowed_origins
    pub auth_data : Authdata
    pub parsed : Authdata.parse a.authenticator_data ≡ ok auth_data
    pub bare : bit_and auth_data.flags (bit_or flag_at flag_ed) ≡ 0
    pub relying_party : IsDigest ssl policy.rp_id auth_data.rp_id_hash
    pub user_present : bit_and auth_data.flags flag_up ≢ 0
    pub user_verified : policy.require_uv ≡ true → bit_and auth_data.flags flag_uv ≢ 0
    pub counter : CounterAllowed policy.clone_detection auth_data.sign_count cred.sign_count
    pub client_data_hash : Bytes
    pub hashed : IsDigest ssl a.client_data_json client_data_hash
    pub signed : IsSignedBy ssl cred (a.authenticator_data ++ client_data_hash) a.signature
    pub counted : count ≡ auth_data.sign_count

  uv_iff :
      (need : Bool) (flags : ℕ)
      → (not (need && bit_and flags flag_uv == 0) ≡ true)
        ↔ (need ≡ true → bit_and flags flag_uv ≢ 0)
  uv_iff true flags = ground arith
  uv_iff false flags = (λ _ h. cc h, λ _. refl)

  up_iff : (n : ℕ) → (not (n == 0) ≡ true) ↔ (n ≢ 0)
  up_iff n = ground arith

  -- Where the pool and the digest context can be allocated, the verifier accepts exactly the authentic assertions:
  -- accepted client data, bare authData of the relying party with the flags that the policy asks for, an allowed counter,
  -- and a signature of the stored key; and its result is the counter of authData.
  pub assertion_verify_iff :
      (a : Assertion) (cred : AssertionCred) (policy : AssertionPolicy) (count : ℕ)
      → ((n : ℕ) → ng.pnalloc n ≡ true)
      → ssl.md_ctx_new ≡ true
      → (assertion_verify ssl js ng a cred policy ≡ ok count) ↔ IsAuthentic a cred policy count
  unfolding assertion_verify
  assertion_verify_iff a cred policy count room ctx = (
    λ h.
        let (_, client, h1) =
          bind_ok
            (Clientdata.verify js ng a.client_data_json (codes "webauthn.get")
              policy.expected_challenge policy.allowed_origins)
            _ h in
        let (ad, parsed, h2) = bind_ok (Authdata.parse a.authenticator_data) _ h1 in
        let (bare, h3) =
          require_passed (bit_and ad.flags (bit_or flag_at flag_ed) == 0) _ _ (declined-ne-ok tt)
            h2 in
        let (rp, is_rp, h4) = bind_ok (hash_sha256 ssl policy.rp_id) _ h3 in
        let (same_rp, h5) = require_passed (bytes_eq rp ad.rp_id_hash) _ _ (declined-ne-ok tt) h4 in
        let (up, h6) =
          require_passed (not (bit_and ad.flags flag_up == 0)) _ _ (declined-ne-ok tt) h5 in
        let (uv, h7) =
          require_passed (not (policy.require_uv && bit_and ad.flags flag_uv == 0)) _ _
            (declined-ne-ok tt) h6 in
        let (_, counter, h8) =
          bind_ok (check_counter policy.clone_detection ad.sign_count cred.sign_count) _ h7 in
        let (_, h9) =
          require_passed (ng.pnalloc (length a.authenticator_data + sha256_len)) _ _
            (error-ne-ok tt) h8 in
        let (cdh, is_cdh, h10) = bind_ok (hash_sha256 ssl a.client_data_json) _ h9 in
        let (_, signed, h11) =
          bind_ok (check_signature ssl cred (a.authenticator_data ++ cdh) a.signature) _ h10 in
        record {
          client = (verify_iff js ng _ _ _ _ room).0 client;
          auth_data = ad;
          parsed = parsed;
          bare = (==_iff _ _).0 bare;
          relying_party =
              (hash_sha256_iff ssl policy.rp_id _).0
                (is_rp ∙ ap ok ((bytes_eq_iff rp ad.rp_id_hash).0 same_rp));
          user_present = (up_iff _).0 up;
          user_verified = (uv_iff policy.require_uv ad.flags).0 uv;
          counter = (check_counter_iff _ _ _).0.0 counter;
          client_data_hash = cdh;
          hashed = (hash_sha256_iff ssl a.client_data_json cdh).0 is_cdh;
          signed = (check_signature_iff ssl cred _ _ ctx).0 signed;
          counted = sym (ok-injective h11);
        },
    λ (h : IsAuthentic a cred policy count). ground (
      arith,
      (verify_iff js ng _ _ _ _ room).1 h.client,
      h.parsed,
      h.bare,
      (hash_sha256_iff ssl policy.rp_id h.auth_data.rp_id_hash).1 h.relying_party,
      (bytes_eq_iff h.auth_data.rp_id_hash h.auth_data.rp_id_hash).1 refl,
      (up_iff (bit_and h.auth_data.flags flag_up)).1 h.user_present,
      (uv_iff policy.require_uv h.auth_data.flags).1 h.user_verified,
      (check_counter_iff policy.clone_detection h.auth_data.sign_count cred.sign_count).0.1
          h.counter,
      room (length a.authenticator_data + sha256_len),
      (hash_sha256_iff ssl a.client_data_json h.client_data_hash).1 h.hashed,
      (check_signature_iff ssl cred (a.authenticator_data ++ h.client_data_hash) a.signature ctx).1
          h.signed,
    ),
  )
