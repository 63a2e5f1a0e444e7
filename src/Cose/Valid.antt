-- ===== src/Cose/Valid.antt =====
-- Which COSE keys the decoder accepts, and the algorithms that it can return.
use nginx_auth_webauthn.Base.{
  Bytes, length, codes, ◌==◌, ==_iff, true, ◌&&◌, Option, some, ◌∷◌, ◌++◌, ◌≡◌, ◌↔◌, inl, inr, refl,
  sym, ap, ◌∙◌, subst, subst₂, arith,
}
use nginx_auth_webauthn.Base.Rc.{
  Rc, ok, declined, ◌>>◌, require, some_or_ok, bind_ok, require_passed, declined-ne-ok, error-ne-ok,
  some_or-error, if_cases,
}
use nginx_auth_webauthn.Base.Word.{ℤ, int_eq, int_eq_iff}
use nginx_auth_webauthn.Platform.{Cbor, Openssl, Loaded}
use nginx_auth_webauthn.Cose.{
  LabelValues, no_labels, cose_int, cose_bytes, collect, ec2_pkey, okp_pkey, rsa_pkey, key_of,
  cose_to_pkey, alg_es256, alg_eddsa, alg_rs256, kty_ec2, kty_okp, kty_rsa, crv_p256, crv_ed25519,
}
use nginx_auth_webauthn.Cose.Labels.{last_values, collect_lem}

module _ {Item Pkey : Type 0} (cbor : Cbor Item) (ssl : Openssl Pkey) where
  abbrev IntAt : Option Item → ℤ → Type 0
  IntAt o v = cose_int cbor o ≡ ok v

  abbrev BytesAt : Option Item → Bytes → Type 0
  BytesAt o b = cose_bytes cbor o ≡ ok b

  -- The three kinds of key: label 1 names the type, label 3 the algorithm, and -1, -2, -3 hold the parts.
  pub data IsKey (l : LabelValues Item) (pkey : Pkey) (alg : ℤ) : Type 0 where
    es256 :
        (x y : Bytes)
        → alg ≡ alg_es256
        → IntAt l.v_kty kty_ec2
        → IntAt l.v_alg alg_es256
        → IntAt l.v_m1 crv_p256
        → BytesAt l.v_m2 x
        → BytesAt l.v_m3 y
        → length x ≡ 32
        → length y ≡ 32
        → ssl.ec_public_key (codes "prime256v1") (0x04 ∷ (x ++ y)) ≡ some pkey
        → IsKey l pkey alg
    eddsa :
        (x : Bytes)
        → alg ≡ alg_eddsa
        → IntAt l.v_kty kty_okp
        → IntAt l.v_alg alg_eddsa
        → IntAt l.v_m1 crv_ed25519
        → BytesAt l.v_m2 x
        → length x ≡ 32
        → ssl.ed25519_public_key x ≡ some pkey
        → IsKey l pkey alg
    rs256 :
        (n e : Bytes)
        → alg ≡ alg_rs256
        → IntAt l.v_kty kty_rsa
        → IntAt l.v_alg alg_rs256
        → BytesAt l.v_m1 n
        → BytesAt l.v_m2 e
        → ssl.rsa_public_key n e ≡ some pkey
        → IsKey l pkey alg

  es256-IsKey :
      (l : LabelValues Item) (pkey : Pkey)
      → IntAt l.v_kty kty_ec2
      → IntAt l.v_alg alg_es256
      → ec2_pkey cbor ssl l.v_m1 l.v_m2 l.v_m3 ≡ ok pkey
      → IsKey l pkey alg_es256
  unfolding ec2_pkey
  es256-IsKey l pkey k a h =
      let (crv, is_crv, h1) = bind_ok (cose_int cbor l.v_m1) _ h in
      let (p256, h2) = require_passed (int_eq crv crv_p256) _ _ (declined-ne-ok tt) h1 in
      let (x, is_x, h3) = bind_ok (cose_bytes cbor l.v_m2) _ h2 in
      let (y, is_y, h4) = bind_ok (cose_bytes cbor l.v_m3) _ h3 in
      let (lx, h5) = require_passed (length x == 32) _ _ (declined-ne-ok tt) h4 in
      let (ly, h6) = require_passed (length y == 32) _ _ (declined-ne-ok tt) h5 in
      es256 x y refl k a (is_crv ∙ ap ok ((int_eq_iff crv crv_p256).0 p256)) is_x is_y
        ((==_iff _ _).0 lx) ((==_iff _ _).0 ly) ((some_or-error _ pkey).0 h6)

  eddsa-IsKey :
      (l : LabelValues Item) (pkey : Pkey)
      → IntAt l.v_kty kty_okp
      → IntAt l.v_alg alg_eddsa
      → okp_pkey cbor ssl l.v_m1 l.v_m2 ≡ ok pkey
      → IsKey l pkey alg_eddsa
  unfolding okp_pkey
  eddsa-IsKey l pkey k a h =
      let (crv, is_crv, h1) = bind_ok (cose_int cbor l.v_m1) _ h in
      let (ed, h2) = require_passed (int_eq crv crv_ed25519) _ _ (declined-ne-ok tt) h1 in
      let (x, is_x, h3) = bind_ok (cose_bytes cbor l.v_m2) _ h2 in
      let (lx, h4) = require_passed (length x == 32) _ _ (declined-ne-ok tt) h3 in
      eddsa x refl k a (is_crv ∙ ap ok ((int_eq_iff crv crv_ed25519).0 ed)) is_x ((==_iff _ _).0 lx)
        ((some_or-error _ pkey).0 h4)

  rs256-IsKey :
      (l : LabelValues Item) (pkey : Pkey)
      → IntAt l.v_kty kty_rsa
      → IntAt l.v_alg alg_rs256
      → rsa_pkey cbor ssl l.v_m1 l.v_m2 ≡ ok pkey
      → IsKey l pkey alg_rs256
  unfolding rsa_pkey
  rs256-IsKey l pkey k a h =
      let (n, is_n, h1) = bind_ok (cose_bytes cbor l.v_m1) _ h in
      let (e, is_e, h2) = bind_ok (cose_bytes cbor l.v_m2) _ h1 in
      rs256 n e refl k a is_n is_e ((some_or-error _ pkey).0 h2)

  -- One arm of the `switch`: the key type is `k`, and the guard leaves one algorithm.
  arm :
      {kty alg k want : ℤ} (l : LabelValues Item) (pkey : Pkey) {m : Rc Pkey}
      → IntAt l.v_kty kty
      → IntAt l.v_alg alg
      → int_eq kty k ≡ true
      → (require (int_eq alg want) declined >> m) ≡ ok pkey
      → (IntAt l.v_kty k → IntAt l.v_alg want → m ≡ ok pkey → IsKey l pkey want)
      → IsKey l pkey alg
  arm {kty} {alg} {k} {want} l pkey isk isa ek h made =
      let (ea, h1) = require_passed (int_eq alg want) _ _ (declined-ne-ok tt) h in
      let same : alg ≡ want = (int_eq_iff alg want).0 ea in
      subst (IsKey l pkey) (sym same)
        (made (isk ∙ ap ok ((int_eq_iff kty k).0 ek)) (isa ∙ ap ok same) h1)

  key_of-IsKey :
      (kty alg : ℤ) (l : LabelValues Item) (pkey : Pkey)
      → IntAt l.v_kty kty
      → IntAt l.v_alg alg
      → key_of cbor ssl kty alg l ≡ ok pkey
      → IsKey l pkey alg
  unfolding key_of
  key_of-IsKey kty alg l pkey k a h = elim (if_cases (int_eq kty kty_ec2) _ _ h) [
    | inl (e, h1) ↦ arm l pkey k a e h1 (es256-IsKey l pkey)
    | inr (_, h1) ↦ elim (if_cases (int_eq kty kty_okp) _ _ h1) [
      | inl (e, h2) ↦ arm l pkey k a e h2 (eddsa-IsKey l pkey)
      | inr (_, h2) ↦ elim (if_cases (int_eq kty kty_rsa) _ _ h2) [
        | inl (e, h3) ↦ arm l pkey k a e h3 (rs256-IsKey l pkey)
        | inr (_, h3) ↦ absurd (declined-ne-ok pkey h3)
      ]
    ]
  ]

  IsKey-key_of :
      (kty alg : ℤ) (l : LabelValues Item) (pkey : Pkey)
      → IntAt l.v_kty kty
      → IntAt l.v_alg alg
      → IsKey l pkey alg
      → key_of cbor ssl kty alg l ≡ ok pkey
  unfolding key_of ec2_pkey okp_pkey rsa_pkey
  IsKey-key_of kty alg l pkey k a (es256 x y e ek ea em1 em2 em3 lx ly made) =
      ground (arith, int_eq_iff kty kty_ec2, int_eq_iff alg alg_es256)
  IsKey-key_of kty alg l pkey k a (eddsa x e ek ea em1 em2 lx made) = ground arith
  IsKey-key_of kty alg l pkey k a (rs256 n x e ek ea em1 em2 made) = ground arith

  IsKey-kty :
      (l : LabelValues Item) {pkey : Pkey} {alg : ℤ}
      → IsKey l pkey alg
      → (kty : ℤ) × IntAt l.v_kty kty × IntAt l.v_alg alg
  IsKey-kty l (es256 x y e k a _ _ _ _ _ _) = (kty_ec2, k, a ∙ ap ok (sym e))
  IsKey-kty l (eddsa x e k a _ _ _ _) = (kty_okp, k, a ∙ ap ok (sym e))
  IsKey-kty l (rs256 n x e k a _ _ _) = (kty_rsa, k, a ∙ ap ok (sym e))

  pub record IsCoseKey (cose : Bytes) (pkey : Pkey) (alg : ℤ) : Type 0 where
    pub loaded : Loaded Item
    pub loads : cbor.load cose ≡ some loaded
    pub whole : loaded.no_error ≡ true
    pub map : cbor.isa_map loaded.root ≡ true
    pub key : IsKey (last_values cbor (cbor.map_pairs loaded.root)) pkey alg

  -- The decoder returns a key and an algorithm exactly for the inputs that load as a map of an ES256, EdDSA or RS256 key,
  -- the last entry of each label counting.
  pub cose_to_pkey_iff :
      (cose : Bytes) (pkey : Pkey) (alg : ℤ)
      → (cose_to_pkey cbor ssl cose ≡ ok (pkey, alg)) ↔ IsCoseKey cose pkey alg
  unfolding cose_to_pkey
  cose_to_pkey_iff cose pkey alg = (
    λ h.
        let (loaded, loads, h1) = some_or_ok (cbor.load cose) _ _ error-ne-ok h in
        let (whole, h2) =
          require_passed (loaded.no_error && cbor.isa_map loaded.root) _ _ (error-ne-ok tt) h1 in
        let l : LabelValues Item = collect cbor (cbor.map_pairs loaded.root) no_labels in
        let (kty, is_kty, h3) = bind_ok (cose_int cbor l.v_kty) _ h2 in
        let (alg_id, is_alg, h4) = bind_ok (cose_int cbor l.v_alg) _ h3 in
        let (key, is_key, h5) = bind_ok (key_of cbor ssl kty alg_id l) _ h4 in
        record {
          loaded = loaded;
          loads = loads;
          whole = ground arith;
          map = ground arith;
          key =
              subst (λ v. IsKey v pkey alg) (collect_lem cbor (cbor.map_pairs loaded.root))
                (subst₂ (IsKey l) (ground arith) (ground arith)
                  (key_of-IsKey kty alg_id l key is_kty is_alg is_key));
        },
    λ (h : IsCoseKey cose pkey alg).
        let l : LabelValues Item = last_values cbor (cbor.map_pairs h.loaded.root) in
        let (kty, k, a) = IsKey-kty l h.key in
        ground (
          arith,
          h.loads,
          h.whole,
          h.map,
          collect_lem cbor (cbor.map_pairs h.loaded.root),
          IsKey-key_of kty alg l pkey k a h.key,
        ),
  )
