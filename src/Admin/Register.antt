-- ===== src/Admin/Register.antt =====
-- What the registration of a credential has shown, and what it leaves in Redis.
use Prim.Native.Nat.{bit_and}
use nginx_auth_webauthn.Base.{
  ℕ, Bytes, IsByte, All, length, codes, ltb, if◌then◌else◌, Bool, true, false, Option, none, some,
  ◌≡◌, ◌≢◌, refl, sym, ap, subst, arith,
}
use nginx_auth_webauthn.Base.Rc.{
  Rc, ok, declined, error, bind_ok, some_or_ok, require_passed, error-ne-ok, ok-injective,
}
use nginx_auth_webauthn.Base.Word.{ℤ, pos}
use nginx_auth_webauthn.Platform.{Nginx, JsonLib, Openssl, Cbor, Command}
use nginx_auth_webauthn.Authdata
use nginx_auth_webauthn.Authdata.{Authdata, flag_at}
use nginx_auth_webauthn.Authdata.Sound.{encode-parse}
use nginx_auth_webauthn.Hash.{hash_sha256}
use nginx_auth_webauthn.Attestation.{Attestation, attestation_parse, attestation_verify}
use nginx_auth_webauthn.Cose.{LabelValues, cose_to_pkey, cose_to_der}
use nginx_auth_webauthn.Cose.Valid.{IsKey, es256, eddsa, rs256, cose_to_pkey_iff}
use nginx_auth_webauthn.Redis.{Client}
use nginx_auth_webauthn.Credential.{
  Credential, fits_int32, credential_put, parse_record, record_pairs,
}
use nginx_auth_webauthn.Credential.Numeral.{Int64}
use nginx_auth_webauthn.Credential.Record.{IsUsable}
use nginx_auth_webauthn.Credential.Stored.{parse_record-record_pairs}
use nginx_auth_webauthn.Admin.{
  AdminConf, RegisterArgs, text_or_empty, demand_of, decode_member, attested_credential,
  credential_of, prepare, admin_connect, exit_of, ex_ok, ex_usage, store, on_prepared, on_demand,
  cmd_register,
}

some-injective : {A : Type 0} {a b : A} → some a ≡ some b → a ≡ b
some-injective h = cc

module _ {Server Json Item Pkey : Type 0} (js : JsonLib Json) (cbor : Cbor Item)
    (ssl : Openssl Pkey) (ng : Nginx) (command : Command Server)
    (dial : Bytes → ℕ → Server → Option Server) (conf : AdminConf) where
  -- The steps from the response file to a credential.
  pub record IsPrepared (args : RegisterArgs) (demand : ℕ) (cred : Credential) : Type 0 where
    pub client_data : Bytes
    pub att_obj : Bytes
    pub att : Attestation
    pub att_parsed : attestation_parse cbor ng att_obj ≡ ok att
    pub ad : Authdata
    pub ad_parsed : Authdata.parse att.auth_data ≡ ok ad
    pub attested : attested_credential js cbor ssl ng command dial conf ad ≡ true
    pub cdh : Bytes
    pub hashed : hash_sha256 ssl client_data ≡ ok cdh
    pub verified : attestation_verify cbor ng ssl att (text_or_empty args.rp_id) cdh demand ≡ ok tt
    pub der : Bytes
    pub alg : ℤ
    pub key : cose_to_der cbor ssl ng ad.cose_public_key ≡ ok (der, alg)
    pub made : cred ≡ credential_of js cbor ssl ng command dial conf args ad der alg

  prepare-IsPrepared :
      (args : RegisterArgs) (demand : ℕ) (cred : Credential)
      → prepare js cbor ssl ng command dial conf args demand ≡ ok cred
      → IsPrepared args demand cred
  unfolding prepare
  prepare-IsPrepared args demand cred h =
      let (body, _, h1) = bind_ok args.body _ h in
      let (json, _, h2) = some_or_ok (js.parse_untrusted body) error _ error-ne-ok h1 in
      let (response, _, h3) =
        some_or_ok (js.object_get json (codes "response")) error _ error-ne-ok h2 in
      let (_, h4) = require_passed (js.is_object response) error _ (error-ne-ok tt) h3 in
      let (client_data, _, h5) =
        bind_ok (decode_member js cbor ssl ng command dial conf response (codes "clientDataJSON")) _
          h4 in
      let (att_obj, _, h6) =
        bind_ok
          (decode_member js cbor ssl ng command dial conf response (codes "attestationObject")) _
          h5 in
      let (att, att_parsed, h7) = bind_ok (attestation_parse cbor ng att_obj) _ h6 in
      let (ad, ad_parsed, h8) = bind_ok (Authdata.parse att.auth_data) _ h7 in
      let (attested, h9) =
        require_passed (attested_credential js cbor ssl ng command dial conf ad) error _
          (error-ne-ok tt) h8 in
      let (cdh, hashed, h10) = bind_ok (hash_sha256 ssl client_data) _ h9 in
      let (_, verified, h11) =
        bind_ok (attestation_verify cbor ng ssl att (text_or_empty args.rp_id) cdh demand) _ h10 in
      let ((der, alg), key, h12) = bind_ok (cose_to_der cbor ssl ng ad.cose_public_key) _ h11 in
      let (_, h13) =
        require_passed (ng.pnalloc (ng.base64_encoded_length (length ad.credential_id))) error _
          (error-ne-ok tt) h12 in
      record {
        client_data = client_data;
        att_obj = att_obj;
        att = att;
        att_parsed = att_parsed;
        ad = ad;
        ad_parsed = ad_parsed;
        attested = attested;
        cdh = cdh;
        hashed = hashed;
        verified = verified;
        der = der;
        alg = alg;
        key = key;
        made = sym (ok-injective h13);
      }

  -- The algorithm of a decoded key, and its DER form.
  alg_ranges :
      (l : LabelValues Item) (pkey : Pkey) (alg : ℤ)
      → IsKey cbor ssl l pkey alg
      → (fits_int32 alg ≡ true) × (alg ≢ pos 0)
  alg_ranges l pkey alg (es256 x y e _ _ _ _ _ _ _ _) = rw e (refl, λ h. cc)
  alg_ranges l pkey alg (eddsa x e _ _ _ _ _ _) = rw e (refl, λ h. cc)
  alg_ranges l pkey alg (rs256 n x e _ _ _ _ _) = rw e (refl, λ h. cc)

  key_usable :
      (cose der : Bytes) (alg : ℤ)
      → cose_to_der cbor ssl ng cose ≡ ok (der, alg)
      → (fits_int32 alg ≡ true) × (alg ≢ pos 0) × (length der ≢ 0)
  unfolding cose_to_der
  key_usable cose der alg h =
      let ((pkey, alg'), decoded, h1) = bind_ok (cose_to_pkey cbor ssl cose) _ h in
      let (der', _, h2) = some_or_ok (ssl.i2d_pubkey pkey) error _ error-ne-ok h1 in
      let (long, h3) = require_passed (ltb 0 (length der')) error _ (error-ne-ok tt) h2 in
      let (_, h4) = require_passed (ng.pnalloc (length der')) error _ (error-ne-ok tt) h3 in
      let same : (der', alg') ≡ (der, alg) = ok-injective h4 in
      let (fits, nonzero) =
        alg_ranges _ pkey alg' ((cose_to_pkey_iff cbor ssl cose pkey alg').0 decoded).key in
      subst (λ (r : Bytes × ℤ). (fits_int32 r.1 ≡ true) × (r.1 ≢ pos 0) × (length r.0 ≢ 0)) same
        (fits, nonzero, λ e. absurd (ground (arith, long, e)))

  has_at :
      (ad : Authdata)
      → attested_credential js cbor ssl ng command dial conf ad ≡ true
      → bit_and ad.flags flag_at ≢ 0
  has_at ad h e = ground (arith, h, e)

  prepared-IsUsable :
      (args : RegisterArgs) (demand : ℕ) (cred : Credential)
      → (p : IsPrepared args demand cred) → All IsByte p.att.auth_data
      → Int64 (pos args.time)
      → IsUsable cred
  prepared-IsUsable args demand cred p bytes now =
      let (fits, nonzero, long) = key_usable p.ad.cose_public_key p.der p.alg p.key in
      let (formed, _) = encode-parse p.att.auth_data bytes p.ad_parsed in
      subst IsUsable (sym p.made) (record {
        typed = record {
          alg_range = fits;
          count_range = formed.count;
          created_range = now;
          used_range = omega arith;
          aaguid_length = λ bytes e.
              subst (λ (b : Bytes). length b ≡ 16) (some-injective e)
                (formed.attested (has_at p.ad p.attested)).0;
        };
        has_key = long;
        has_alg = nonzero;
      })

  -- What a registration has done: a credential made of an attestation that was verified for the relying party, which Redis has
  -- accepted, and whose fields are read back as that credential.
  pub record IsRegistered (args : RegisterArgs) (c : Client Server) : Type 0 where
    pub demand : ℕ
    pub demanded : demand_of args.require_attestation ≡ some demand
    pub cred : Credential
    pub prepared : IsPrepared args demand cred
    pub connected : Client Server
    pub connects : admin_connect js cbor ssl ng command dial conf c ≡ (ok tt, connected)
    pub put : (credential_put ng command conf.key_prefix cred connected).0 ≡ ok tt
    pub reads_back : parse_record cred.credential_id (record_pairs cred) ≡ ok cred

  exit_of-ok : (r : Rc (Unit {0})) → exit_of js cbor ssl ng command dial conf r ≡ 0 → r ≡ ok tt
  exit_of-ok (ok u) h = refl
  exit_of-ok declined h = absurd (omega (arith, h))
  exit_of-ok error h = absurd (omega (arith, h))

  store-put :
      (cred : Credential) (r : Rc (Unit {0})) (c : Client Server)
      → (store js cbor ssl ng command dial conf cred r c).0 ≡ 0
      → (r ≡ ok tt) × ((credential_put ng command conf.key_prefix cred c).0 ≡ ok tt)
  unfolding store
  store-put cred (ok u) c h = (refl, exit_of-ok _ h)
  store-put cred declined c h = absurd (omega (arith, h))
  store-put cred error c h = absurd (omega (arith, h))

  on_prepared-stored :
      (r : Rc Credential) (c : Client Server)
      → (on_prepared js cbor ssl ng command dial conf r c).0 ≡ 0
      → (cred : Credential) × (r ≡ ok cred)
        × (connected : Client Server) × (admin_connect js cbor ssl ng command dial conf c
            ≡ (ok tt, connected))
        × ((credential_put ng command conf.key_prefix cred connected).0 ≡ ok tt)
  unfolding on_prepared
  on_prepared-stored (ok cred) c h =
      let opened : Rc (Unit {0}) × Client Server =
        admin_connect js cbor ssl ng command dial conf c in
      let (up, put) = store-put cred opened.0 opened.1 h in
      (cred, refl, opened.1, ap (λ (r : Rc (Unit {0})). (r, opened.1)) up, put)
  on_prepared-stored declined c h = absurd (omega (arith, h))
  on_prepared-stored error c h = absurd (omega (arith, h))

  on_demand-IsRegistered :
      (args : RegisterArgs) (d : Option ℕ) (c : Client Server)
      → demand_of args.require_attestation ≡ d
      → ((input : Bytes) (att : Attestation)
          → attestation_parse cbor ng input ≡ ok att
          → All IsByte att.auth_data)
      → Int64 (pos args.time)
      → (on_demand js cbor ssl ng command dial conf args d c).0 ≡ 0
      → IsRegistered args c
  unfolding on_demand
  on_demand-IsRegistered args none c d bytes now h = absurd (omega (arith, h))
  on_demand-IsRegistered args (some demand) c d bytes now h =
      let (cred, made, connected, connects, put) = on_prepared-stored _ c h in
      let p = prepare-IsPrepared args demand cred made in
      record {
        demand = demand;
        demanded = d;
        cred = cred;
        prepared = p;
        connected = connected;
        connects = connects;
        put = put;
        reads_back =
            parse_record-record_pairs cred
              (prepared-IsUsable args demand cred p (bytes p.att_obj p.att p.att_parsed) now);
      }

  by_options :
      (b : Bool) (c : Client Server) (x : ℕ × Client Server)
      → (if b then (ex_usage, c) else x).0 ≡ 0
      → x.0 ≡ 0
  by_options true c x h = absurd (omega (arith, h))
  by_options false c x h = h

  -- Where authenticatorData is bytes and the time is in its range: the command succeeds only with a credential that is made of an
  -- attestation verified for the relying party at the demanded level, and that Redis has stored; and its fields are read back as
  -- that credential.
  pub cmd_register-IsRegistered :
      (args : RegisterArgs) (c : Client Server)
      → ((input : Bytes) (att : Attestation)
          → attestation_parse cbor ng input ≡ ok att
          → All IsByte att.auth_data)
      → Int64 (pos args.time)
      → (cmd_register js cbor ssl ng command dial conf args c).0 ≡ ex_ok
      → IsRegistered args c
  unfolding cmd_register
  cmd_register-IsRegistered args c bytes now h =
      on_demand-IsRegistered args (demand_of args.require_attestation) c refl bytes now
        (by_options _ c _ h)
