-- ===== src/Cose.antt =====
-- src/ngx_auth_webauthn_cose.c: from a COSE_Key in CBOR to an OpenSSL public key, and to DER.
pub mod Labels
pub mod Valid
use nginx_auth_webauthn.Base.{
  ℕ, ◌<◌, Bytes, length, codes, ltb, ◌==◌, if◌then◌else◌, Bool, true, false, ◌&&◌, Option, none,
  some, List, [], ◌∷◌, ◌++◌,
}
use nginx_auth_webauthn.Base.Rc.{Rc, ok, declined, error, ◌>>=◌, ◌>>◌, require, some_or}
use nginx_auth_webauthn.Base.Word.{ℤ, pos, negsuc, int_eq, to_int64, minus_one_minus}
use nginx_auth_webauthn.Platform.{Nginx, Cbor, Openssl}

abbrev pub label_kty : ℤ
label_kty = pos 1

abbrev pub label_alg : ℤ
label_alg = pos 3

abbrev pub kty_okp : ℤ
kty_okp = pos 1

abbrev pub kty_ec2 : ℤ
kty_ec2 = pos 2

abbrev pub kty_rsa : ℤ
kty_rsa = pos 3

abbrev pub crv_p256 : ℤ
crv_p256 = pos 1

abbrev pub crv_ed25519 : ℤ
crv_ed25519 = pos 6

abbrev pub alg_es256 : ℤ
alg_es256 = negsuc 6

abbrev pub alg_eddsa : ℤ
alg_eddsa = negsuc 7

abbrev pub alg_rs256 : ℤ
alg_rs256 = negsuc 256

-- The value items that the loop over the map collects: labels 1, 3, -1, -2 and -3.
pub record LabelValues (Item : Type 0) : Type 0 where
  pub v_kty : Option Item
  pub v_alg : Option Item
  pub v_m1 : Option Item
  pub v_m2 : Option Item
  pub v_m3 : Option Item

abbrev pub no_labels : {Item : Type 0} → LabelValues Item
no_labels = record { v_kty = none; v_alg = none; v_m1 = none; v_m2 = none; v_m3 = none }

-- The `switch` on one key.
unfoldable pub assign : {Item : Type 0} → ℤ → Item → LabelValues Item → LabelValues Item
assign key value l =
    if int_eq key label_kty
    then record l { v_kty = some value }
    else if int_eq key label_alg
    then record l { v_alg = some value }
    else if int_eq key (negsuc 0)
    then record l { v_m1 = some value }
    else if int_eq key (negsuc 1)
    then record l { v_m2 = some value }
    else if int_eq key (negsuc 2)
    then record l { v_m3 = some value }
    else l

module _ {Item : Type 0} (cbor : Cbor Item) where
  -- `none` is a NULL item.
  unfoldable pub cose_int : Option Item → Rc ℤ
  cose_int none = declined
  cose_int (some item) =
      if cbor.isa_uint item
      then ok (to_int64 (cbor.get_int item))
      else if cbor.isa_negint item
      then ok (minus_one_minus (to_int64 (cbor.get_int item)))
      else declined

  unfoldable pub cose_bytes : Option Item → Rc Bytes
  cose_bytes none = declined
  cose_bytes (some item) =
      if cbor.isa_bytestring item && cbor.bytestring_is_definite item
      then ok (cbor.bytestring item)
      else declined

  -- One round: a key that is no integer is skipped.
  unfoldable pub collect_pair : Item × Item → LabelValues Item → LabelValues Item
  collect_pair (key, value) l = elim (cose_int (some key)) [
    | ok label ↦ assign label value l
    | declined ↦ l
    | error ↦ l
  ]

  unfoldable pub collect : List (Item × Item) → LabelValues Item → LabelValues Item
  collect [] l = l
  collect (pair ∷ pairs) l = collect pairs (collect_pair pair l)

  module _ {Pkey : Type 0} (ssl : Openssl Pkey) where
    -- The point is 0x04 || X || Y.
    pub ec2_pkey : Option Item → Option Item → Option Item → Rc Pkey
    ec2_pkey crv x_item y_item = do
      crv_id ← cose_int crv
      require (int_eq crv_id crv_p256) declined
      x ← cose_bytes x_item
      y ← cose_bytes y_item
      require (length x == 32) declined
      require (length y == 32) declined
      some_or (ssl.ec_public_key (codes "prime256v1") (0x04 ∷ (x ++ y))) error

    unfoldable pub okp_pkey : Option Item → Option Item → Rc Pkey
    okp_pkey crv x_item = do
      crv_id ← cose_int crv
      require (int_eq crv_id crv_ed25519) declined
      x ← cose_bytes x_item
      require (length x == 32) declined
      some_or (ssl.ed25519_public_key x) error

    pub rsa_pkey : Option Item → Option Item → Rc Pkey
    rsa_pkey n_item e_item = do
      n ← cose_bytes n_item
      e ← cose_bytes e_item
      some_or (ssl.rsa_public_key n e) error

    -- The `switch` on the key type, each with the one algorithm that it allows.
    unfoldable pub key_of : ℤ → ℤ → LabelValues Item → Rc Pkey
    key_of kty alg_id l =
        if int_eq kty kty_ec2
        then (require (int_eq alg_id alg_es256) declined >> ec2_pkey l.v_m1 l.v_m2 l.v_m3)
        else if int_eq kty kty_okp
        then (require (int_eq alg_id alg_eddsa) declined >> okp_pkey l.v_m1 l.v_m2)
        else if int_eq kty kty_rsa
        then (require (int_eq alg_id alg_rs256) declined >> rsa_pkey l.v_m1 l.v_m2)
        else declined

    -- The key and its algorithm. An accepted algorithm fits an `int`.
    unfoldable pub cose_to_pkey : Bytes → Rc (Pkey × ℤ)
    cose_to_pkey cose = do
      loaded ← some_or (cbor.load cose) error
      require (loaded.no_error && cbor.isa_map loaded.root) error
      let l = collect (cbor.map_pairs loaded.root) no_labels
      kty ← cose_int l.v_kty
      alg_id ← cose_int l.v_alg
      pkey ← key_of kty alg_id l
      ok (pkey, alg_id)

    -- The DER SubjectPublicKeyInfo of the key.
    unfoldable pub cose_to_der : Nginx → Bytes → Rc (Bytes × ℤ)
    cose_to_der ng cose = do
      (pkey, alg) ← cose_to_pkey cose
      der ← some_or (ssl.i2d_pubkey pkey) error
      require (ltb 0 (length der)) error
      require (ng.pnalloc (length der)) error
      ok (der, alg)
