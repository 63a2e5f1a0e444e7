-- ===== src/Credential/Fields.antt =====
-- src/ngx_auth_webauthn_credential.c, a credential and the fields of its hash: reading them, and writing them.
use nginx_auth_webauthn.Base.{
  ℕ, ◌^◌, Bytes, bytes_eq, length, codes, ltb, ◌==◌, if◌then◌else◌, Bool, ◌||◌, Option, none, some,
  List, [], ◌∷◌, ◌++◌,
}
use nginx_auth_webauthn.Base.Rc.{Rc, ok, declined, error, ◌>>=◌}
use nginx_auth_webauthn.Base.Word.{ℤ, pos, negsuc, int_eq}
use nginx_auth_webauthn.Redis.{decimal}
use nginx_auth_webauthn.Credential.Number.{atoi64, print_int}

-- `aaguid` and `has_aaguid` are one field: 16 bytes, or none.
pub record Credential : Type 0 where
  pub credential_id : Bytes
  pub user_id : Bytes
  pub public_key : Bytes
  pub alg : ℤ
  pub sign_count : ℕ
  pub created_at : ℤ
  pub last_used_at : ℤ
  pub aaguid : Option Bytes
  pub transports : Bytes

-- The zeroed record, with its id.
abbrev pub blank : Bytes → Credential
blank id = record {
  credential_id = id;
  user_id = [];
  public_key = [];
  alg = pos 0;
  sign_count = 0;
  created_at = pos 0;
  last_used_at = pos 0;
  aaguid = none;
  transports = [];
}

-- `v < INT32_MIN || v > INT32_MAX`, negated
abbrev pub fits_int32 : ℤ → Bool
fits_int32 (pos n) = ltb n (2 ^ 31)
fits_int32 (negsuc n) = ltb n (2 ^ 31)

-- An algorithm or a counter that is no number in its range makes the record unusable.
unfoldable pub set_alg : Rc ℤ → Credential → Rc Credential
set_alg (ok v) c = if fits_int32 v then ok (record c { alg = v }) else declined
set_alg declined c = declined
set_alg error c = declined

unfoldable pub set_sign_count : Rc ℤ → Credential → Rc Credential
set_sign_count (ok (pos n)) c =
    if ltb n (2 ^ 32) then ok (record c { sign_count = n }) else declined
set_sign_count (ok (negsuc n)) c = declined
set_sign_count declined c = declined
set_sign_count error c = declined

-- A time that is no number is passed over.
unfoldable pub read_time : Rc ℤ → ℤ → ℤ
read_time (ok v) old = v
read_time declined old = old
read_time error old = old

abbrev pub aaguid_len : ℕ
aaguid_len = 16

-- One field of the hash; an unknown one is passed over.
unfoldable pub set_field : Bytes → Bytes → Credential → Rc Credential
set_field name val c =
    if bytes_eq name (codes "user_id")
    then ok (record c { user_id = val })
    else if bytes_eq name (codes "public_key")
    then ok (record c { public_key = val })
    else if bytes_eq name (codes "alg")
    then set_alg (atoi64 val) c
    else if bytes_eq name (codes "sign_count")
    then set_sign_count (atoi64 val) c
    else if bytes_eq name (codes "created_at")
    then ok (record c { created_at = read_time (atoi64 val) c.created_at })
    else if bytes_eq name (codes "last_used_at")
    then ok (record c { last_used_at = read_time (atoi64 val) c.last_used_at })
    else if bytes_eq name (codes "aaguid")
    then ok (record c { aaguid = if length val == aaguid_len then some val else c.aaguid })
    else if bytes_eq name (codes "transports")
    then ok (record c { transports = val })
    else ok c

unfoldable pub set_fields : List (Bytes × Bytes) → Credential → Rc Credential
set_fields [] c = ok c
set_fields ((name, val) ∷ pairs) c = set_field name val c >>= set_fields pairs

-- The record that the fields of a hash make up.
unfoldable pub parse_record : Bytes → List (Bytes × Bytes) → Rc Credential
parse_record id pairs =
    if length pairs == 0
    then declined
    else set_fields pairs (blank id) >>= λ c.
        if length c.public_key == 0 || int_eq c.alg (pos 0) then declined else ok c

abbrev pub aaguid_pairs : Option Bytes → List (Bytes × Bytes)
aaguid_pairs none = []
aaguid_pairs (some bytes) = (codes "aaguid", bytes) ∷ []

-- The fields as they are written. No number is longer than the 24 bytes of its buffer.
unfoldable pub record_pairs : Credential → List (Bytes × Bytes)
record_pairs c =
    (codes "user_id", c.user_id)
    ∷ (codes "public_key", c.public_key)
    ∷ (codes "alg", print_int c.alg)
    ∷ (codes "sign_count", decimal c.sign_count)
    ∷ (codes "created_at", print_int c.created_at)
    ∷ (codes "last_used_at", print_int c.last_used_at)
    ∷ ((if length c.transports == 0 then [] else (codes "transports", c.transports) ∷ [])
        ++ aaguid_pairs c.aaguid)
