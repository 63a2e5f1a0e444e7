-- ===== src/Authdata/Layout.antt =====
-- The wire format of authenticatorData (the layout comment of src/ngx_auth_webauthn_authdata.h), and the parser
-- against it.
use Prim.Native.Nat.{bit_and}
use nginx_auth_webauthn.Base.{
  ℕ, ◌+◌, ◌*◌, ◌/◌, ◌%◌, ◌^◌, ◌≤◌, ◌<◌, Bytes, length, get_or, take, drop, replicate, ◌==◌,
  if◌then◌else◌, ◌≡◌, refl, sym, ap, ◌∙◌, ap₂, inl, inr, ◌≢◌, [], ◌∷◌, ◌++◌, arith, drop_cons,
  take-append-drop, drop_past, drop-append, get_or_past, take_part, length-append, Bool-cases,
  drop-drop,
}
use nginx_auth_webauthn.Base.Rc.{ok}
use nginx_auth_webauthn.Base.Word.{bit_or_fields}
use nginx_auth_webauthn.Authdata.{Authdata, parse, prefix, be32, be16, flag_at}

abbrev pub be32_bytes : ℕ → Bytes
be32_bytes n = n / 2 ^ 24 % 256 ∷ n / 2 ^ 16 % 256 ∷ n / 2 ^ 8 % 256 ∷ n % 256 ∷ []

abbrev pub be16_bytes : ℕ → Bytes
be16_bytes n = n / 2 ^ 8 ∷ n % 256 ∷ []

-- The layout: rpIdHash | flags | signCount | (aaguid | length | credentialId | credentialPublicKey)
abbrev pub encode : Authdata → Bytes
encode ad =
    ad.rp_id_hash
    ++ (ad.flags
        ∷ (be32_bytes ad.sign_count
            ++ (if bit_and ad.flags flag_at == 0
                then []
                else ad.aaguid
                  ++ (be16_bytes (length ad.credential_id)
                      ++ (ad.credential_id ++ ad.cose_public_key)))))

pub be32_sum :
    (a b c d : ℕ)
    → a < 256
    → b < 256
    → c < 256
    → d < 256
    → be32 a b c d ≡ a * 2 ^ 24 + b * 2 ^ 16 + c * 2 ^ 8 + d
be32_sum a b c d ha hb hc hd = ground (
  arith,
  bit_or_fields 24 a (b * 2 ^ 16),
  bit_or_fields 16 (a * 256 + b) (c * 2 ^ 8),
  bit_or_fields 8 (a * 2 ^ 16 + b * 256 + c) d,
)

pub be16_sum : (a b : ℕ) → b < 256 → be16 a b ≡ a * 256 + b
be16_sum a b h = bit_or_fields 8 a b h

be32-be32_bytes :
    (n : ℕ)
    → n < 2 ^ 32
    → be32 (n / 2 ^ 24 % 256) (n / 2 ^ 16 % 256) (n / 2 ^ 8 % 256) (n % 256) ≡ n
be32-be32_bytes n h =
    omega (arith, be32_sum (n / 2 ^ 24 % 256) (n / 2 ^ 16 % 256) (n / 2 ^ 8 % 256) (n % 256))

pub be32_bytes-be32 :
    (a b c d : ℕ)
    → a < 256
    → b < 256
    → c < 256
    → d < 256
    → be32_bytes (be32 a b c d) ≡ a ∷ b ∷ c ∷ d ∷ []
be32_bytes-be32 a b c d ha hb hc hd = rw (be32_sum a b c d ha hb hc hd) (ground arith)

be16-be16_bytes : (n : ℕ) → be16 (n / 2 ^ 8) (n % 256) ≡ n
be16-be16_bytes n = omega (arith, be16_sum (n / 2 ^ 8) (n % 256))

-- What a parsed value can be: the fields have their widths, and without the AT flag nothing is attested.
pub record IsWellFormed (ad : Authdata) : Type 0 where
  pub hash : length ad.rp_id_hash ≡ 32
  pub flags : ad.flags < 256
  pub count : ad.sign_count < 2 ^ 32
  pub clear :
      bit_and ad.flags flag_at ≡ 0
      → (ad.aaguid ≡ replicate 16 0) × (ad.credential_id ≡ []) × (ad.cose_public_key ≡ [])
  pub attested :
      bit_and ad.flags flag_at ≢ 0 → (length ad.aaguid ≡ 16) × (length ad.credential_id < 2 ^ 16)

split : (k : ℕ) → 37 + k ≡ 32 + (5 + k)
split k = omega arith

-- The fixed prefix of any input that begins with a hash, a flags byte and a counter.
module _ (h : Bytes) (f n : ℕ) (tail : Bytes) (hash : length h ≡ 32) (count : n < 2 ^ 32) where
  abbrev input : Bytes
  input = h ++ (f ∷ (be32_bytes n ++ tail))

  length-input : length input ≡ 37 + length tail
  length-input = omega (arith, length-append h (f ∷ (be32_bytes n ++ tail)))

  prefix-input : prefix input ≡ record {
    rp_id_hash = h;
    flags = f;
    sign_count = n;
    aaguid = replicate 16 0;
    credential_id = [];
    cose_public_key = [];
  }
  unfolding prefix
  prefix-input = cc (
    take_part h (f ∷ (be32_bytes n ++ tail)) 32 hash,
    get_or_past h (f ∷ (be32_bytes n ++ tail)) 32 0 0 hash,
    get_or_past h (f ∷ (be32_bytes n ++ tail)) 32 1 0 hash,
    get_or_past h (f ∷ (be32_bytes n ++ tail)) 32 2 0 hash,
    get_or_past h (f ∷ (be32_bytes n ++ tail)) 32 3 0 hash,
    get_or_past h (f ∷ (be32_bytes n ++ tail)) 32 4 0 hash,
    be32-be32_bytes n count,
  )

  drop-input : (k : ℕ) → drop (37 + k) input ≡ drop k tail
  drop-input k =
      ap (λ m. drop m input) (split k)
      ∙ drop_past h (f ∷ (be32_bytes n ++ tail)) 32 (5 + k) hash
      ∙ drop_past (f ∷ be32_bytes n) tail 5 k refl

  get_or-input : (k : ℕ) → get_or input (37 + k) 0 ≡ get_or tail k 0
  get_or-input k =
      ap (λ m. get_or input m 0) (split k)
      ∙ get_or_past h (f ∷ (be32_bytes n ++ tail)) 32 (5 + k) 0 hash
      ∙ get_or_past (f ∷ be32_bytes n) tail 5 k 0 refl

-- The two accepting branches of the parser, over any input.
pub parse-prefix :
    (d : Bytes) {out : Authdata}
    → prefix d ≡ out
    → 37 ≤ length d
    → bit_and out.flags flag_at ≡ 0
    → parse d ≡ ok out
unfolding parse
parse-prefix d e long z =
    rw (← e) (ground (arith, ap (λ (o : Authdata). bit_and o.flags flag_at) e))

parse-attested :
    (d : Bytes) (n : ℕ) {out : Authdata} {ag cid cose : Bytes}
    → prefix d ≡ out
    → bit_and out.flags flag_at ≢ 0
    → be16 (get_or d 53 0) (get_or d 54 0) ≡ n
    → 55 + n ≤ length d
    → take 16 (drop 37 d) ≡ ag
    → take n (drop 55 d) ≡ cid
    → drop n (drop 55 d) ≡ cose
    → parse d ≡ ok (record out { aaguid = ag; credential_id = cid; cose_public_key = cose })
unfolding parse
parse-attested d n e nz len long ea ei ec =
    ground (arith, ap (λ (o : Authdata). bit_and o.flags flag_at) e)

parse_clear :
    (ad : Authdata) (rest : Bytes)
    → IsWellFormed ad
    → bit_and ad.flags flag_at ≡ 0
    → parse (ad.rp_id_hash ++ (ad.flags ∷ (be32_bytes ad.sign_count ++ rest))) ≡ ok ad
parse_clear ad rest w z =
    parse-prefix (input ad.rp_id_hash ad.flags ad.sign_count rest w.hash w.count)
      (prefix-input ad.rp_id_hash ad.flags ad.sign_count rest w.hash w.count
        ∙ ground (arith, w.clear z))
      (omega (arith, length-input ad.rp_id_hash ad.flags ad.sign_count rest w.hash w.count)) z

abbrev tail_of : Authdata → Bytes
tail_of ad =
    ad.aaguid ++ (be16_bytes (length ad.credential_id) ++ (ad.credential_id ++ ad.cose_public_key))

abbrev attested_input : Authdata → Bytes
attested_input ad = ad.rp_id_hash ++ (ad.flags ∷ (be32_bytes ad.sign_count ++ tail_of ad))

length-tail_of :
    (ad : Authdata)
    → length (tail_of ad)
      ≡ length ad.aaguid + 2 + (length ad.credential_id + length ad.cose_public_key)
length-tail_of ad = omega (
  arith,
  length-append ad.aaguid
      (be16_bytes (length ad.credential_id) ++ (ad.credential_id ++ ad.cose_public_key)),
  length-append ad.credential_id ad.cose_public_key,
)

parse_attested :
    (ad : Authdata)
    → IsWellFormed ad
    → bit_and ad.flags flag_at ≢ 0
    → parse (attested_input ad) ≡ ok ad
parse_attested ad w nz =
    parse-attested (attested_input ad) n (prefix-input h ad.flags ad.sign_count tail w.hash w.count)
      nz
      (ap₂ be16 (at 16 ∙ get_or_past ag after 16 0 0 ag16)
          (at 17 ∙ get_or_past ag after 16 1 0 ag16)
        ∙ be16-be16_bytes n)
      (omega
        (arith, length-input h ad.flags ad.sign_count tail w.hash w.count, length-tail_of ad, ag16))
      (ap (take 16) (cut 0) ∙ take_part ag after 16 ag16)
      (ap (take n) here ∙ take_part ad.credential_id ad.cose_public_key n refl)
      (ap (drop n) here ∙ drop-append ad.credential_id ad.cose_public_key)
  where
    h : Bytes
    h = ad.rp_id_hash

    n : ℕ
    n = length ad.credential_id

    ag : Bytes
    ag = ad.aaguid

    tail : Bytes
    tail = tail_of ad

    after : Bytes
    after = be16_bytes n ++ (ad.credential_id ++ ad.cose_public_key)

    ag16 : length ag ≡ 16
    ag16 = (w.attested nz).0

    at : (k : ℕ) → get_or (attested_input ad) (37 + k) 0 ≡ get_or tail k 0
    at k = get_or-input h ad.flags ad.sign_count tail w.hash w.count k

    cut : (k : ℕ) → drop (37 + k) (attested_input ad) ≡ drop k tail
    cut k = drop-input h ad.flags ad.sign_count tail w.hash w.count k

    here : drop 55 (attested_input ad) ≡ ad.credential_id ++ ad.cose_public_key
    here = cut 18 ∙ drop_past ag after 16 2 ag16

-- The parser reads back what the layout writes of a well-formed value, with or without attested credential data.
pub parse-encode : (ad : Authdata) → IsWellFormed ad → parse (encode ad) ≡ ok ad
parse-encode ad w = elim (Bool-cases (bit_and ad.flags flag_at == 0)) [
  | inl z ↦ rw z (parse_clear ad [] w (ground arith))
  | inr nz ↦ rw nz (parse_attested ad w (ground arith))
]

-- The bytes of an input of 37 bytes at least, field by field.
pub prefix_bytes :
    (d : Bytes)
    → 37 ≤ length d
    → d
      ≡ take 32 d
        ++ (get_or d 32 0
            ∷ get_or d 33 0
            ∷ get_or d 34 0
            ∷ get_or d 35 0
            ∷ get_or d 36 0
            ∷ drop 37 d)
prefix_bytes d long =
    sym (take-append-drop 32 d)
    ∙ ap (λ l. take 32 d ++ l)
        (cc (
          drop_cons d 32 0 (omega arith),
          drop_cons d 33 0 (omega arith),
          drop_cons d 34 0 (omega arith),
          drop_cons d 35 0 (omega arith),
          drop_cons d 36 0 (omega arith),
        ))

-- The attested data after the prefix, field by field.
pub attested_bytes :
    (d : Bytes) (n : ℕ)
    → 55 ≤ length d
    → drop 37 d
      ≡ take 16 (drop 37 d)
        ++ (get_or d 53 0 ∷ get_or d 54 0 ∷ (take n (drop 55 d) ++ drop n (drop 55 d)))
attested_bytes d n long =
    sym (take-append-drop 16 (drop 37 d))
    ∙ ap (λ l. take 16 (drop 37 d) ++ l)
        (cc (
          drop-drop 37 16 d,
          drop_cons d 53 0 (omega arith),
          drop_cons d 54 0 (omega arith),
          take-append-drop n (drop 55 d),
        ))
