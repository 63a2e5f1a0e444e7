-- ===== src/Authdata.antt =====
-- src/ngx_auth_webauthn_authdata.c: the parser of authenticatorData.
pub mod Layout
pub mod Sound
pub mod Reject
use Prim.Native.Nat.{bit_or, bit_and}
use nginx_auth_webauthn.Base.{
  ℕ, ◌+◌, ◌*◌, ◌-◌, ◌%◌, ◌^◌, Bytes, length, get_or, take, drop, ltb, ◌==◌, if◌then◌else◌, [],
  replicate,
}
use nginx_auth_webauthn.Base.Rc.{Rc, ok, declined}

abbrev pub sha256_len : ℕ
sha256_len = 32

abbrev pub min_len : ℕ
min_len = 37

abbrev pub aaguid_len : ℕ
aaguid_len = 16

abbrev pub flag_up : ℕ
flag_up = 0x01

abbrev pub flag_uv : ℕ
flag_uv = 0x04

abbrev pub flag_at : ℕ
flag_at = 0x40

abbrev pub flag_ed : ℕ
flag_ed = 0x80

-- The borrowed views into the input are the bytes that they show.
pub record Authdata : Type 0 where
  pub rp_id_hash : Bytes
  pub flags : ℕ
  pub sign_count : ℕ
  pub aaguid : Bytes
  pub credential_id : Bytes
  pub cose_public_key : Bytes

-- `(uint32_t) b << k`
abbrev shl32 : ℕ → ℕ → ℕ
shl32 b k = b * 2 ^ k % 2 ^ 32

-- The 4-byte big-endian uint32 at p.
abbrev pub be32 : ℕ → ℕ → ℕ → ℕ → ℕ
be32 b0 b1 b2 b3 = bit_or (bit_or (bit_or (shl32 b0 24) (shl32 b1 16)) (shl32 b2 8)) b3

-- The 2-byte big-endian length.
abbrev pub be16 : ℕ → ℕ → ℕ
be16 b0 b1 = bit_or (b0 * 2 ^ 8) b1

-- `ngx_memzero`, then the fixed prefix: rpIdHash (32) | flags (1) | signCount (4).
unfoldable pub prefix : Bytes → Authdata
prefix d = record {
  rp_id_hash = take sha256_len d;
  flags = get_or d 32 0;
  sign_count = be32 (get_or d 33 0) (get_or d 34 0) (get_or d 35 0) (get_or d 36 0);
  aaguid = replicate aaguid_len 0;
  credential_id = [];
  cose_public_key = [];
}

-- attestedCredentialData: aaguid (16) | credentialIdLength (2) | credentialId | credentialPublicKey.
-- `offset` is 37 + 16 + 2 at the comparison with the length of the credential id.
unfoldable pub attested : Bytes → Authdata → Rc Authdata
attested d out =
    let cred_id_len = be16 (get_or d 53 0) (get_or d 54 0) in
    if ltb (length d) (min_len + aaguid_len + 2)
    then declined
    else if ltb (length d - 55) cred_id_len
    then declined
    else ok (record out {
      aaguid = take aaguid_len (drop min_len d);
      credential_id = take cred_id_len (drop 55 d);
      cose_public_key = drop cred_id_len (drop 55 d);
    })

unfoldable pub parse : Bytes → Rc Authdata
unfolding prefix attested
parse d =
    let out = prefix d in
    if ltb (length d) min_len
    then declined
    else if bit_and out.flags flag_at == 0
    then ok out
    else attested d out
