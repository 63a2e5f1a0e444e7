-- ===== src/Attestation.antt =====
-- src/ngx_auth_webauthn_attestation.c: the attestation object of a registration, read and verified.
pub mod Object
pub mod Valid
use Prim.Native.Nat.{bit_and}
use nginx_auth_webauthn.Base.{
  ℕ, ◌+◌, Bytes, length, bytes_eq, codes, ltb, ◌==◌, if◌then◌else◌, Bool, true, false, not, ◌&&◌,
  ◌||◌, Option, none, some, List, [], ◌∷◌, ◌++◌,
}
use nginx_auth_webauthn.Base.Rc.{Rc, ok, declined, error, ◌>>=◌, ◌>>◌, require, some_or}
use nginx_auth_webauthn.Base.Word.{ℤ, pos, negsuc, int_eq, to_int64, to_int32, minus_one_minus}
use nginx_auth_webauthn.Platform.{Nginx, Cbor, Openssl, Md}
use nginx_auth_webauthn.Hash.{hash_sha256}
use nginx_auth_webauthn.Authdata
use nginx_auth_webauthn.Authdata.{Authdata, flag_at}
use nginx_auth_webauthn.Cose.{cose_to_pkey, alg_es256, alg_eddsa, alg_rs256}
use nginx_auth_webauthn.Assertion.{verdict}

pub record Attestation : Type 0 where
  pub fmt : Bytes
  pub auth_data : Bytes
  pub att_sig : Bytes
  pub att_alg : ℤ
  pub has_x5c : Bool

-- The items that the loop over the object collects.
pub record Entries (Item : Type 0) : Type 0 where
  pub v_fmt : Option Item
  pub v_auth_data : Option Item
  pub v_att_stmt : Option Item

abbrev pub no_entries : {Item : Type 0} → Entries Item
no_entries = record { v_fmt = none; v_auth_data = none; v_att_stmt = none }

-- What a registration demands: 0 is fmt "none" alone, and any other value packed self-attestation too.
abbrev pub att_none : ℕ
att_none = 0

-- The `switch` on the algorithm of the key.
pub packed_digest : ℤ → Rc Md
packed_digest alg =
    if int_eq alg alg_es256 || int_eq alg alg_rs256
    then ok Md.sha256
    else if int_eq alg alg_eddsa
    then ok Md.none
    else declined

module _ {Item : Type 0} (cbor : Cbor Item) (ng : Nginx) where
  unfoldable pub attestation_int : Item → Rc ℤ
  attestation_int item =
      if cbor.isa_uint item
      then ok (to_int64 (cbor.get_int item))
      else if cbor.isa_negint item
      then ok (minus_one_minus (to_int64 (cbor.get_int item)))
      else declined

  unfoldable pub str_eq : Item → Bytes → Bool
  str_eq item literal =
      cbor.isa_string item && cbor.string_is_definite item && bytes_eq (cbor.string item) literal

  -- A copy into the pool; the empty string takes no memory.
  unfoldable pub copy : Bytes → Rc Bytes
  copy src = if length src == 0 then ok src else if ng.pnalloc (length src) then ok src else error

  unfoldable pub set_att_alg : Rc ℤ → Attestation → Attestation
  set_att_alg (ok alg) out = record out { att_alg = to_int32 alg }
  set_att_alg declined out = out
  set_att_alg error out = out

  unfoldable pub set_att_sig : Item → Attestation → Rc Attestation
  set_att_sig v out =
      if not (cbor.isa_bytestring v) || not (cbor.bytestring_is_definite v)
      then declined
      else copy (cbor.bytestring v) >>= λ s. ok (record out { att_sig = s })

  unfoldable pub stmt_pair : Item × Item → Attestation → Rc Attestation
  stmt_pair (k, v) out =
      if str_eq k (codes "alg")
      then ok (set_att_alg (attestation_int v) out)
      else if str_eq k (codes "sig")
      then set_att_sig v out
      else if str_eq k (codes "x5c")
      then ok (
          if cbor.isa_array v && ltb 0 (cbor.array_size v)
          then record out { has_x5c = true }
          else out)
      else ok out

  unfoldable pub stmt_pairs : List (Item × Item) → Attestation → Rc Attestation
  stmt_pairs [] out = ok out
  stmt_pairs (pair ∷ pairs) out = stmt_pair pair out >>= stmt_pairs pairs

  -- `none` is an object without attStmt.
  unfoldable pub parse_stmt : Option Item → Attestation → Rc Attestation
  parse_stmt none out = ok out
  parse_stmt (some stmt) out =
      if cbor.isa_map stmt then stmt_pairs (cbor.map_pairs stmt) out else declined

  unfoldable pub entry : Item × Item → Entries Item → Entries Item
  entry (k, v) e =
      if str_eq k (codes "fmt")
      then record e { v_fmt = some v }
      else if str_eq k (codes "authData")
      then record e { v_auth_data = some v }
      else if str_eq k (codes "attStmt")
      then record e { v_att_stmt = some v }
      else e

  unfoldable pub entries : List (Item × Item) → Entries Item → Entries Item
  entries [] e = e
  entries (pair ∷ pairs) e = entries pairs (entry pair e)

  unfoldable pub is_text : Item → Bool
  is_text v = cbor.isa_string v && cbor.string_is_definite v

  unfoldable pub is_bytes : Item → Bool
  is_bytes v = cbor.isa_bytestring v && cbor.bytestring_is_definite v

  -- One item that fills the whole input.
  unfoldable pub attestation_parse : Bytes → Rc Attestation
  attestation_parse input = do
    loaded ← some_or (cbor.load input) declined
    require (loaded.no_error && loaded.read == length input && cbor.isa_map loaded.root) declined
    let e = entries (cbor.map_pairs loaded.root) no_entries
    v_fmt ← some_or e.v_fmt declined
    require (is_text v_fmt) declined
    v_auth_data ← some_or e.v_auth_data declined
    require (is_bytes v_auth_data) declined
    fmt ← copy (cbor.string v_fmt)
    auth_data ← copy (cbor.bytestring v_auth_data)
    parse_stmt e.v_att_stmt (record {
      fmt = fmt;
      auth_data = auth_data;
      att_sig = [];
      att_alg = pos 0;
      has_x5c = false;
    })

  module _ {Pkey : Type 0} (ssl : Openssl Pkey) where
    -- The signature is over authData || clientDataHash, under the key that authData carries.
    pub verify_packed : Attestation → Authdata → Bytes → Rc (Unit {0})
    verify_packed att ad client_data_hash = do
      require (not (length att.att_sig == 0)) declined
      require (not (bit_and ad.flags flag_at == 0 || length ad.cose_public_key == 0)) declined
      (pkey, key_alg) ← cose_to_pkey cbor ssl ad.cose_public_key
      require (int_eq att.att_alg key_alg) declined
      md ← packed_digest key_alg
      require (ng.pnalloc (length att.auth_data + length client_data_hash)) error
      require ssl.md_ctx_new error
      require (ssl.digest_verify_init md pkey) error
      verdict (ssl.digest_verify md pkey att.att_sig (att.auth_data ++ client_data_hash))

    unfoldable pub by_format : Attestation → Authdata → Bytes → ℕ → Rc (Unit {0})
    by_format att ad client_data_hash demand =
        if bytes_eq att.fmt (codes "none")
        then ok tt
        else if demand == att_none
        then declined
        else if not (bytes_eq att.fmt (codes "packed"))
        then declined
        else if att.has_x5c
        then declined
        else verify_packed att ad client_data_hash

    -- The relying party is compared whatever the format is.
    unfoldable pub attestation_verify : Attestation → Bytes → Bytes → ℕ → Rc (Unit {0})
    attestation_verify att expected_rp_id client_data_hash demand = do
      ad ← Authdata.parse att.auth_data
      rp_id_hash ← hash_sha256 ssl expected_rp_id
      require (bytes_eq ad.rp_id_hash rp_id_hash) declined
      by_format att ad client_data_hash demand
