-- ===== src/Tests/Admin.antt =====
-- The registration of a credential with a "none" attestation.
use nginx_auth_webauthn.Base.{
  Bytes, IsByte, All, bytes_eq, codes, replicate, length, ltb, ==_iff, ◌++◌, ◌&&◌, Bool, true,
  false, none, some, List, [], ◌∷◌, ◌≡◌, refl, subst, arith, Bool-cases,
}
use nginx_auth_webauthn.Base.Rc.{ok, ok-injective}
use nginx_auth_webauthn.Platform.{JsonLib}
use nginx_auth_webauthn.Base.Word.{pos}
use nginx_auth_webauthn.Attestation.{
  Attestation, attestation_parse, entries, entry, str_eq, is_text, is_bytes, copy, parse_stmt,
}
use nginx_auth_webauthn.Redis.{Client}
use nginx_auth_webauthn.Admin.{AdminConf, RegisterArgs, cmd_register}
use nginx_auth_webauthn.Admin.Register.{IsRegistered, cmd_register-IsRegistered}
use nginx_auth_webauthn.Admin.{
  admin_connect, decode_member, demand_of, on_demand, on_prepared, prepare, store,
}
use nginx_auth_webauthn.Attestation.{
  attestation_int, attestation_verify, by_format, set_att_alg, set_att_sig, stmt_pair, stmt_pairs,
}
use nginx_auth_webauthn.Authdata
use nginx_auth_webauthn.Cose.{
  assign, collect, collect_pair, cose_bytes, cose_int, cose_to_der, cose_to_pkey, key_of, okp_pkey,
}
use nginx_auth_webauthn.Credential.{record_pairs}
use nginx_auth_webauthn.Credential.{print_int}
use nginx_auth_webauthn.Credential.{credential_put}
use nginx_auth_webauthn.Hash.{hash_sha256}
use nginx_auth_webauthn.Keys.{index_key, record_key}
use nginx_auth_webauthn.Redis.{
  authenticate, closing, decimal, decimal_rounds, exec, exec_with, hset_argv, on_dialled, or_close,
  redis_close, redis_connect, redis_hset, redis_sadd, reply_failed, select_db, set_op, status_read,
  with_ctx, with_number,
}
use nginx_auth_webauthn.Tests.Doubles.{
  test_nginx, test_openssl, test_cbor, TestItem, pair, end, flat_json,
}
use nginx_auth_webauthn.Tests.Service.{test_dial}
use nginx_auth_webauthn.Tests.Server.{test_command}

abbrev test_auth_data : Bytes
test_auth_data = replicate 32 0 ++ (0x41 ∷ 0 ∷ 0 ∷ 0 ∷ 5 ∷ (replicate 16 3 ++ (0 ∷ 1 ∷ 9 ∷ 1 ∷ [])))

-- One map that is the attestation object and the key.
abbrev test_object : TestItem
test_object = TestItem.map (
    pair (TestItem.string (codes "fmt")) (TestItem.string (codes "none")) (
      pair (TestItem.string (codes "authData")) (TestItem.bytestring test_auth_data) (
        pair (TestItem.uint 1) (TestItem.uint 1) (
          pair (TestItem.uint 3) (TestItem.negint 7) (
            pair (TestItem.negint 0) (TestItem.uint 6)
              (pair (TestItem.negint 1) (TestItem.bytestring (replicate 32 5)) end))))))

abbrev test_response : JsonLib Bytes
test_response = flat_json (
    (codes "response", [])
    ∷ (codes "clientDataJSON", codes "{}")
    ∷ (codes "attestationObject", codes "o")
    ∷ [])

abbrev test_conf : AdminConf
test_conf = record {
  redis_host = codes "redis";
  redis_port = 6379;
  redis_password = [];
  redis_db = 0;
  redis_timeout_ms = 100;
  key_prefix = codes "webauthn:";
}

abbrev test_args : RegisterArgs
test_args = record {
  user_id = some (codes "alice");
  response_file = some (codes "-");
  rp_id = some (codes "example.com");
  require_attestation = none;
  transports = none;
  body = ok (codes "{}");
  time = 1700000000;
}

abbrev test_client : Client (List Bytes)
test_client = record { connected = false; server = [] }

abbrev are_bytes : Bytes → Bool
are_bytes [] = true
are_bytes (b ∷ bs) = ltb b 256 && are_bytes bs

are_bytes-All : (s : Bytes) → are_bytes s ≡ true → All IsByte s
are_bytes-All [] h = tt
are_bytes-All (b ∷ bs) h = (
  ground (arith, h, Bool-cases (ltb b 256)),
  are_bytes-All bs (ground (arith, h, Bool-cases (ltb b 256))),
)

abbrev test_attestation : Attestation
test_attestation = record {
  fmt = codes "none";
  auth_data = test_auth_data;
  att_sig = [];
  att_alg = pos 0;
  has_x5c = false;
}

test_bytes :
    (input : Bytes) (att : Attestation)
    → attestation_parse (test_cbor test_object) test_nginx input ≡ ok att
    → All IsByte att.auth_data
unfolding attestation_parse entries entry str_eq bytes_eq is_text is_bytes copy parse_stmt
test_bytes input att h =
    let same : ok test_attestation ≡ ok att =
      rw ((==_iff (length input) (length input)).1 refl) at h in
    subst (λ (a : Attestation). All IsByte a.auth_data) (ok-injective same)
      (are_bytes-All test_auth_data refl)

test_registered :
    (cmd_register test_response
      (test_cbor test_object)
      test_openssl
      test_nginx
      test_command
      test_dial
      test_conf
      test_args
      test_client).0
    ≡ 0
unfolding cmd_register bytes_eq attestation_parse copy entries entry is_bytes is_text parse_stmt
    str_eq admin_connect decode_member demand_of on_demand on_prepared prepare store attestation_int
    attestation_verify by_format set_att_alg set_att_sig stmt_pair stmt_pairs Authdata.attested
    Authdata.parse Authdata.prefix assign collect collect_pair cose_bytes cose_int cose_to_der
    cose_to_pkey key_of okp_pkey record_pairs print_int credential_put hash_sha256 index_key
    record_key authenticate closing decimal decimal_rounds exec exec_with hset_argv on_dialled
    or_close redis_close redis_connect redis_hset redis_sadd reply_failed select_db set_op
    status_read with_ctx with_number
test_registered = refl

cmd_register-IsRegistered_example :
    IsRegistered test_response
      (test_cbor test_object)
      test_openssl
      test_nginx
      test_command
      test_dial
      test_conf
      test_args
      test_client
cmd_register-IsRegistered_example =
    cmd_register-IsRegistered test_response (test_cbor test_object) test_openssl test_nginx
      test_command test_dial test_conf test_args test_client test_bytes (omega arith)
      test_registered
