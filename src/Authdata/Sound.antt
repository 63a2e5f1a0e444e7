-- ===== src/Authdata/Sound.antt =====
-- Every accepted input is the layout of the value that the parser returns.
use Prim.Native.Nat.{bit_and}
use nginx_auth_webauthn.Base.{
  ℕ, ◌+◌, ◌*◌, ◌^◌, ◌≤◌, ◌<◌, Bytes, length, get_or, take, drop, ◌==◌, if◌then◌else◌, false, ◌≡◌,
  refl, sym, ap, ap₂, ◌∙◌, ◌⊎◌, inl, inr, ◌≢◌, [], ◌∷◌, ◌++◌, arith, IsByte, All, get_or-IsByte,
  take_past, length-take, length-drop,
}
use nginx_auth_webauthn.Base.Rc.{ok}
use nginx_auth_webauthn.Authdata.{Authdata, parse, attested, prefix, be32, be16, flag_at}
use nginx_auth_webauthn.Authdata.Layout.{
  encode, be32_bytes, be16_bytes, IsWellFormed, prefix_bytes, attested_bytes, be32_bytes-be32,
  be32_sum, be16_sum,
}

abbrev id_len : Bytes → ℕ
id_len d = be16 (get_or d 53 0) (get_or d 54 0)

abbrev with_attested : Bytes → Authdata
with_attested d = record (prefix d) {
  aaguid = take 16 (drop 37 d);
  credential_id = take (id_len d) (drop 55 d);
  cose_public_key = drop (id_len d) (drop 55 d);
}

attested_cases :
    (d : Bytes) {ad : Authdata}
    → attested d (prefix d) ≡ ok ad
    → (55 ≤ length d) × (55 + id_len d ≤ length d) × (ad ≡ with_attested d)
unfolding attested
attested_cases d h = ground arith

parse_cases :
    (d : Bytes) {ad : Authdata}
    → parse d ≡ ok ad
    → (37 ≤ length d)
      × (((bit_and (prefix d).flags flag_at ≡ 0) × (ad ≡ prefix d))
          ⊎ ((bit_and (prefix d).flags flag_at ≢ 0) × (attested d (prefix d) ≡ ok ad)))
parse_cases d h = unfold parse in ground arith

prefix-IsWellFormed :
    (d : Bytes)
    → All IsByte d
    → 37 ≤ length d
    → bit_and (get_or d 32 0) flag_at ≡ 0
    → IsWellFormed (prefix d)
unfolding prefix
prefix-IsWellFormed d bytes long z = record {
  hash = omega (arith, length-take 32 d);
  flags = get_or-IsByte d 32 bytes;
  count = omega (
    arith,
    be32_sum (get_or d 33 0) (get_or d 34 0) (get_or d 35 0) (get_or d 36 0),
    get_or-IsByte d 33 bytes,
    get_or-IsByte d 34 bytes,
    get_or-IsByte d 35 bytes,
    get_or-IsByte d 36 bytes,
  );
  clear = λ _. (refl, refl, refl);
  attested = λ nz. absurd (nz z);
}

id_len_sum : (d : Bytes) → All IsByte d → id_len d ≡ get_or d 53 0 * 256 + get_or d 54 0
id_len_sum d bytes = be16_sum _ _ (get_or-IsByte d 54 bytes)

count_bytes :
    (d : Bytes)
    → All IsByte d
    → be32_bytes (be32 (get_or d 33 0) (get_or d 34 0) (get_or d 35 0) (get_or d 36 0))
      ≡ get_or d 33 0 ∷ get_or d 34 0 ∷ get_or d 35 0 ∷ get_or d 36 0 ∷ []
count_bytes d bytes =
    be32_bytes-be32 _ _ _ _ (get_or-IsByte d 33 bytes) (get_or-IsByte d 34 bytes)
      (get_or-IsByte d 35 bytes) (get_or-IsByte d 36 bytes)

count_bound :
    (d : Bytes)
    → All IsByte d
    → be32 (get_or d 33 0) (get_or d 34 0) (get_or d 35 0) (get_or d 36 0) < 2 ^ 32
count_bound d bytes = omega (
  arith,
  be32_sum (get_or d 33 0) (get_or d 34 0) (get_or d 35 0) (get_or d 36 0),
  get_or-IsByte d 33 bytes,
  get_or-IsByte d 34 bytes,
  get_or-IsByte d 35 bytes,
  get_or-IsByte d 36 bytes,
)

with_attested-IsWellFormed :
    (d : Bytes)
    → All IsByte d
    → bit_and (prefix d).flags flag_at ≢ 0
    → 55 + id_len d ≤ length d
    → IsWellFormed (with_attested d)
unfolding prefix
with_attested-IsWellFormed d bytes set long = record {
  hash = omega (arith, length-take 32 d);
  flags = get_or-IsByte d 32 bytes;
  count = count_bound d bytes;
  clear = λ z. absurd (set z);
  attested = λ _. (
    omega (arith, length-take 16 (drop 37 d), length-drop 37 d),
    omega (
      arith,
      length-take (id_len d) (drop 55 d),
      length-drop 55 d,
      id_len_sum d bytes,
      get_or-IsByte d 53 bytes,
      get_or-IsByte d 54 bytes,
    ),
  );
}

-- The bytes that a parsed value came from: the whole input with the AT flag, its prefix without.
abbrev pub consumed : Authdata → Bytes → Bytes
consumed ad d = if bit_and ad.flags flag_at == 0 then take 37 d else d

take_37 :
    (d : Bytes)
    → 37 ≤ length d
    → take 37 d
      ≡ take 32 d
        ++ (get_or d 32 0 ∷ get_or d 33 0 ∷ get_or d 34 0 ∷ get_or d 35 0 ∷ get_or d 36 0 ∷ [])
take_37 d long =
    ap (take 37) (prefix_bytes d long)
    ∙ take_past (take 32 d) _ 32 5 (omega (arith, length-take 32 d))

id_length : (d : Bytes) → 55 + id_len d ≤ length d → length (take (id_len d) (drop 55 d)) ≡ id_len d
id_length d long = omega (arith, length-take (id_len d) (drop 55 d), length-drop 55 d)

id_bytes :
    (d : Bytes)
    → All IsByte d
    → 55 + id_len d ≤ length d
    → be16_bytes (length (take (id_len d) (drop 55 d))) ≡ get_or d 53 0 ∷ get_or d 54 0 ∷ []
id_bytes d bytes long =
    ap be16_bytes (id_length d long)
    ∙ rw (id_len_sum d bytes) (ground (arith, get_or-IsByte d 54 bytes))

false_of_ne : {n : ℕ} → n ≢ 0 → (n == 0) ≡ false
false_of_ne h = ground arith

encode-prefix :
    (d : Bytes)
    → All IsByte d
    → 37 ≤ length d
    → bit_and (prefix d).flags flag_at ≡ 0
    → encode (prefix d) ≡ consumed (prefix d) d
unfolding prefix
encode-prefix d bytes long z = rw (z, count_bytes d bytes, take_37 d long)

encode-with_attested :
    (d : Bytes)
    → All IsByte d
    → bit_and (prefix d).flags flag_at ≢ 0
    → 55 + id_len d ≤ length d
    → encode (with_attested d) ≡ consumed (with_attested d) d
unfolding prefix
encode-with_attested d bytes set long = rw (false_of_ne set) (
    ap₂ (λ c t. take 32 d ++ (get_or d 32 0 ∷ (c ++ t))) (count_bytes d bytes)
      (ap
          (λ i.
            take 16 (drop 37 d)
            ++ (i ++ (take (id_len d) (drop 55 d) ++ drop (id_len d) (drop 55 d))))
          (id_bytes d bytes long)
        ∙ sym (attested_bytes d (id_len d) (omega arith)))
    ∙ sym (prefix_bytes d (omega arith)))

-- If the parser accepts an input of bytes, the value that it returns is well formed, and its layout is what was consumed: the
-- first 37 bytes where the AT flag is clear, and the whole input where it is set.
pub encode-parse :
    (d : Bytes) {ad : Authdata}
    → All IsByte d
    → parse d ≡ ok ad
    → IsWellFormed ad × (encode ad ≡ consumed ad d)
unfolding prefix
encode-parse d bytes h =
    let (long, form) = parse_cases d h in
    elim form [
      | inl (z, e) ↦ rw e (prefix-IsWellFormed d bytes long z, encode-prefix d bytes long z)
      | inr (set, accepted) ↦
          let (_, fits, e) = attested_cases d accepted in
          rw e (with_attested-IsWellFormed d bytes set fits, encode-with_attested d bytes set fits)
    ]
