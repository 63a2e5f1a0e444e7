-- ===== src/Credential/Record.antt =====
-- Reading a credential's hash: what a record that is accepted is like, and that one that was written is read back.
use nginx_auth_webauthn.Base.{
  ◌^◌, ◌<◌, Bytes, bytes_eq, length, codes, ltb, ◌==◌, if◌then◌else◌, true, ◌||◌, Option, some,
  List, [], ◌∷◌, ◌≡◌, ◌≢◌, inl, inr, refl, ==_iff, ◌∙◌, arith, Bool-cases, subst,
}
use nginx_auth_webauthn.Base.Rc.{
  Rc, ok, declined, error, bind_ok, declined_guard, if_cases, ok-injective,
}
use nginx_auth_webauthn.Base.Word.{ℤ, pos, negsuc, int_eq, int_eq_iff}
use nginx_auth_webauthn.Credential.Numeral.{Int64, atoi64_iff}
use nginx_auth_webauthn.Credential.{
  Credential, blank, fits_int32, set_alg, set_sign_count, read_time, set_field, set_fields,
  parse_record, atoi64,
}

some-injective : {A : Type 0} {a b : A} → some a ≡ some b → a ≡ b
some-injective h = cc

-- The numbers are in the ranges of their C types, and an AAGUID has 16 bytes.
pub record IsTyped (c : Credential) : Type 0 where
  pub alg_range : fits_int32 c.alg ≡ true
  pub count_range : c.sign_count < 2 ^ 32
  pub created_range : Int64 c.created_at
  pub used_range : Int64 c.last_used_at
  pub aaguid_length : (bytes : Bytes) → c.aaguid ≡ some bytes → length bytes ≡ 16

-- What the authentication needs of a record: a public key, and an algorithm that is not 0.
pub record IsUsable (c : Credential) : Type 0 where
  pub typed : IsTyped c
  pub has_key : length c.public_key ≢ 0
  pub has_alg : c.alg ≢ pos 0

-- A record with one more field is typed again.
set_alg-IsTyped : (r : Rc ℤ) (c d : Credential) → IsTyped c → set_alg r c ≡ ok d → IsTyped d
unfolding set_alg
set_alg-IsTyped (ok v) c d t h = elim (Bool-cases (fits_int32 v)) [
  | inl fits ↦ subst IsTyped (ok-injective (rw fits at h)) (record {
    alg_range = fits;
    count_range = t.count_range;
    created_range = t.created_range;
    used_range = t.used_range;
    aaguid_length = t.aaguid_length;
  })
  | inr over ↦ cc (rw over at h)
]
set_alg-IsTyped declined c d t h = cc
set_alg-IsTyped error c d t h = cc

set_sign_count-IsTyped :
    (r : Rc ℤ) (c d : Credential) → IsTyped c → set_sign_count r c ≡ ok d → IsTyped d
unfolding set_sign_count
set_sign_count-IsTyped (ok (pos n)) c d t h = elim (Bool-cases (ltb n (2 ^ 32))) [
  | inl fits ↦ subst IsTyped (ok-injective (rw fits at h)) (record {
    alg_range = t.alg_range;
    count_range = ground (arith, fits);
    created_range = t.created_range;
    used_range = t.used_range;
    aaguid_length = t.aaguid_length;
  })
  | inr over ↦ cc (rw over at h)
]
set_sign_count-IsTyped (ok (negsuc n)) c d t h = cc
set_sign_count-IsTyped declined c d t h = cc
set_sign_count-IsTyped error c d t h = cc

read_time-Int64 : (val : Bytes) (old : ℤ) → Int64 old → Int64 (read_time (atoi64 val) old)
read_time-Int64 val old h = by_read (atoi64 val) refl
  where
    by_read : (r : Rc ℤ) → atoi64 val ≡ r → Int64 (read_time r old)
    by_read (ok v) e = unfold read_time in ((atoi64_iff val v).0 e).1
    by_read declined e = unfold read_time in h
    by_read error e = unfold read_time in h

aaguid_set :
    (val bytes : Bytes) (old : Option Bytes)
    → ((b : Bytes) → old ≡ some b → length b ≡ 16)
    → (if length val == 16 then some val else old) ≡ some bytes
    → length bytes ≡ 16
aaguid_set val bytes old h e = elim (Bool-cases (length val == 16)) [
  | inl same ↦
      subst (λ b. length b ≡ 16) (some-injective (rw same at e)) ((==_iff (length val) 16).0 same)
  | inr other ↦ h bytes (rw other at e)
]

retype :
    {c d : Credential}
    → IsTyped c
    → c.alg ≡ d.alg
    → c.sign_count ≡ d.sign_count
    → c.created_at ≡ d.created_at
    → c.last_used_at ≡ d.last_used_at
    → c.aaguid ≡ d.aaguid
    → IsTyped d
retype {c} {d} t a s m l g = record {
  alg_range = subst (λ v. fits_int32 v ≡ true) a t.alg_range;
  count_range = subst (λ n. n < 2 ^ 32) s t.count_range;
  created_range = subst Int64 m t.created_range;
  used_range = subst Int64 l t.used_range;
  aaguid_length = λ bytes e. t.aaguid_length bytes (g ∙ e);
}

blank-IsTyped : (id : Bytes) → IsTyped (blank id)
blank-IsTyped id = record {
  alg_range = refl;
  count_range = omega arith;
  created_range = omega arith;
  used_range = omega arith;
  aaguid_length = λ bytes e. cc;
}

-- The last four fields.
set_rest-IsTyped :
    (name val : Bytes) (c d : Credential)
    → IsTyped c
    → (if bytes_eq name (codes "created_at")
        then ok (record c { created_at = read_time (atoi64 val) c.created_at })
        else if bytes_eq name (codes "last_used_at")
        then ok (record c { last_used_at = read_time (atoi64 val) c.last_used_at })
        else if bytes_eq name (codes "aaguid")
        then ok (record c { aaguid = if length val == 16 then some val else c.aaguid })
        else if bytes_eq name (codes "transports")
        then ok (record c { transports = val })
        else ok c)
      ≡ ok d
    → IsTyped d
set_rest-IsTyped name val c d t h = elim (if_cases (bytes_eq name (codes "created_at")) _ _ h) [
  | inl (_, e) ↦ subst IsTyped (ok-injective e) (record {
    alg_range = t.alg_range;
    count_range = t.count_range;
    created_range = read_time-Int64 val c.created_at t.created_range;
    used_range = t.used_range;
    aaguid_length = t.aaguid_length;
  })
  | inr (_, h1) ↦ elim (if_cases (bytes_eq name (codes "last_used_at")) _ _ h1) [
    | inl (_, e) ↦ subst IsTyped (ok-injective e) (record {
      alg_range = t.alg_range;
      count_range = t.count_range;
      created_range = t.created_range;
      used_range = read_time-Int64 val c.last_used_at t.used_range;
      aaguid_length = t.aaguid_length;
    })
    | inr (_, h2) ↦ elim (if_cases (bytes_eq name (codes "aaguid")) _ _ h2) [
      | inl (_, e) ↦ subst IsTyped (ok-injective e) (record {
        alg_range = t.alg_range;
        count_range = t.count_range;
        created_range = t.created_range;
        used_range = t.used_range;
        aaguid_length = λ bytes. aaguid_set val bytes c.aaguid t.aaguid_length;
      })
      | inr (_, h3) ↦ elim (if_cases (bytes_eq name (codes "transports")) _ _ h3) [
        | inl (_, e) ↦ subst IsTyped (ok-injective e) (retype t refl refl refl refl refl)
        | inr (_, e) ↦ subst IsTyped (ok-injective e) t
      ]
    ]
  ]
]

set_field-IsTyped :
    (name val : Bytes) (c d : Credential) → IsTyped c → set_field name val c ≡ ok d → IsTyped d
unfolding set_field
set_field-IsTyped name val c d t h = elim (if_cases (bytes_eq name (codes "user_id")) _ _ h) [
  | inl (_, e) ↦ subst IsTyped (ok-injective e) (retype t refl refl refl refl refl)
  | inr (_, h1) ↦ elim (if_cases (bytes_eq name (codes "public_key")) _ _ h1) [
    | inl (_, e) ↦ subst IsTyped (ok-injective e) (retype t refl refl refl refl refl)
    | inr (_, h2) ↦ elim (if_cases (bytes_eq name (codes "alg")) _ _ h2) [
      | inl (_, e) ↦ set_alg-IsTyped (atoi64 val) c d t e
      | inr (_, h3) ↦ elim (if_cases (bytes_eq name (codes "sign_count")) _ _ h3) [
        | inl (_, e) ↦ set_sign_count-IsTyped (atoi64 val) c d t e
        | inr (_, h4) ↦ set_rest-IsTyped name val c d t h4
      ]
    ]
  ]
]

set_fields-IsTyped :
    (pairs : List (Bytes × Bytes)) (c d : Credential)
    → IsTyped c
    → set_fields pairs c ≡ ok d
    → IsTyped d
unfolding set_fields
set_fields-IsTyped [] c d t h = subst IsTyped (ok-injective h) t
set_fields-IsTyped ((name, val) ∷ pairs) c d t h =
    let (next, e, h1) = bind_ok (set_field name val c) (set_fields pairs) h in
    set_fields-IsTyped pairs next d (set_field-IsTyped name val c next t e) h1

-- Whatever the fields of a hash are, a record that is accepted has numbers in the ranges of their types, an AAGUID of 16
-- bytes or none, a public key, and an algorithm other than 0.
pub parse_record-IsUsable :
    (id : Bytes) (pairs : List (Bytes × Bytes)) (c : Credential)
    → parse_record id pairs ≡ ok c
    → IsUsable c
unfolding parse_record
parse_record-IsUsable id pairs c h =
    let (_, h1) = declined_guard (length pairs == 0) _ h in
    let (d, e, h2) = bind_ok (set_fields pairs (blank id)) _ h1 in
    let (g, h3) = declined_guard (length d.public_key == 0 || int_eq d.alg (pos 0)) _ h2 in
    let t : IsTyped d = set_fields-IsTyped pairs (blank id) d (blank-IsTyped id) e in
    subst IsUsable (ok-injective h3) (record {
      typed = t;
      has_key = ground arith;
      has_alg = ground (arith, int_eq_iff d.alg (pos 0));
    })
