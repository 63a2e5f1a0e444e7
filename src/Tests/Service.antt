-- ===== src/Tests/Service.antt =====
-- A challenge and the sign-in that uses it, on one server.
use nginx_auth_webauthn.Base.{
  bytes_eq, ℕ, ◌+◌, ◌≤◌, Bytes, codes, replicate, ◌++◌, if◌then◌else◌, true, false, Option, some,
  List, [], ◌∷◌, ◌≡◌, refl,
}
use nginx_auth_webauthn.Assertion.{
  assertion_verify, check_counter, check_signature, digest_for, same_type, verdict,
}
use nginx_auth_webauthn.Authdata
use nginx_auth_webauthn.Challenge.{challenge_consume}
use nginx_auth_webauthn.Clientdata
use nginx_auth_webauthn.Credential.{
  parse_record, read_time, set_alg, set_field, set_fields, set_sign_count,
}
use nginx_auth_webauthn.Credential.{atoi64, minus, print_int, scan}
use nginx_auth_webauthn.Credential.{credential_get, credential_update_counter}
use nginx_auth_webauthn.Hash.{hash_sha256}
use nginx_auth_webauthn.Http.Response.{send_json, verify_fail}
use nginx_auth_webauthn.Http.Verify.Body.{
  any_in_file, b64url_field, concat, parse_object, parse_sign_in, read_body,
}
use nginx_auth_webauthn.Http.Verify.Mint.{b64url, claims_text, cookie_text, mint, success_text}
use nginx_auth_webauthn.Http.Verify.{
  check_sign_in, granted, on_body, on_checked, on_connected, on_origins, on_parsed,
}
use nginx_auth_webauthn.Keys.{challenge_key, record_key}
use nginx_auth_webauthn.Redis.{
  authenticate, closing, count_replies, decimal, decimal_rounds, dup, dup_pairs, exec, exec_with,
  getdel_read, hgetall_read, hset_argv, is_string, on_dialled, or_close, redis_close, redis_connect,
  redis_getdel, redis_hgetall, redis_hset, reply_failed, select_db, status_read, with_ctx,
  with_number,
}
use nginx_auth_webauthn.Http.Escape.{json_escape, escape, escape_byte}
use nginx_auth_webauthn.Keys.{challenge_name}
use nginx_auth_webauthn.Redis.{Client}
use nginx_auth_webauthn.Redis.Connect.{DialLaws}
use nginx_auth_webauthn.Http.Verify.{VerifyRequest, verify_done}
use nginx_auth_webauthn.Http.Verify.SignedIn.{IsSignedIn, verify_done-IsSignedIn}
use nginx_auth_webauthn.Http.Issue.{ChallengeRequest}
use nginx_auth_webauthn.Http.Service.{ask, sign_in, drawn, sessions, sessions-le-drawn}
use nginx_auth_webauthn.Tests.Doubles.{test_nginx, test_jwx, test_location, test_openssl, flat_json}
use nginx_auth_webauthn.Tests.Server.{test_command, test_laws, holds}

abbrev test_challenge : Bytes
test_challenge = replicate 32 7

abbrev test_members : List (Bytes × Bytes)
test_members =
    (codes "id", codes "AQID")
    ∷ (codes "response", [])
    ∷ (codes "clientDataJSON", codes "{}")
    ∷ (codes "authenticatorData", replicate 32 0 ++ (1 ∷ 0 ∷ 0 ∷ 0 ∷ 5 ∷ []))
    ∷ (codes "signature", 1 ∷ [])
    ∷ (codes "type", codes "webauthn.get")
    ∷ (codes "challenge", test_challenge)
    ∷ (codes "origin", codes "https://example.com")
    ∷ []

abbrev pub test_dial : Bytes → ℕ → List Bytes → Option (List Bytes)
test_dial host port s = some s

test_opens : DialLaws test_dial holds
test_opens = record { keeps = λ host port s t j e h. cc }

abbrev test_verify : VerifyRequest
test_verify = record {
  is_post = true;
  body = some ((codes "{}", false) ∷ []);
  jti = some (replicate 16 1);
  time = 1700000000;
}

abbrev test_ask : ChallengeRequest
test_ask = record { addr = codes "::1"; user_id = some (codes "alice"); rand = some test_challenge }

-- The server after the challenge was issued.
abbrev issued : Client (List Bytes)
issued = record {
  connected = false;
  server = challenge_name (codes "webauthn:") test_challenge ∷ [];
}

test_signed_in :
    (verify_done
      (flat_json test_members)
      test_openssl
      test_jwx
      test_nginx
      test_command
      test_dial
      test_location
      test_verify
      issued).0.code
    ≡ 200
unfolding verify_done bytes_eq assertion_verify check_counter check_signature digest_for same_type
    verdict Authdata.parse Authdata.prefix challenge_consume Clientdata.allowed
    Clientdata.get_string Clientdata.is_cross_origin Clientdata.verify parse_record read_time
    set_alg set_field set_fields set_sign_count atoi64 minus print_int scan credential_get
    credential_update_counter hash_sha256 send_json verify_fail any_in_file b64url_field concat
    parse_object parse_sign_in read_body b64url claims_text cookie_text mint success_text
    check_sign_in granted on_body on_checked on_connected on_origins on_parsed challenge_key
    record_key authenticate closing count_replies decimal decimal_rounds dup dup_pairs exec
    exec_with getdel_read hgetall_read hset_argv is_string on_dialled or_close redis_close
    redis_connect redis_getdel redis_hgetall redis_hset reply_failed select_db status_read with_ctx
    with_number json_escape escape escape_byte
test_signed_in = refl

verify_done-IsSignedIn_example :
    IsSignedIn
      (flat_json test_members)
      test_openssl
      test_jwx
      test_nginx
      test_command
      test_dial
      test_location
      test_verify
      issued
      (verify_done
        (flat_json test_members)
        test_openssl
        test_jwx
        test_nginx
        test_command
        test_dial
        test_location
        test_verify
        issued).0.set_cookie
verify_done-IsSignedIn_example =
    verify_done-IsSignedIn (flat_json test_members) test_openssl test_jwx test_nginx test_command
      test_dial test_location test_verify issued test_signed_in

sessions-le-drawn_example :
    sessions
      (flat_json test_members)
      test_openssl
      test_jwx
      test_nginx
      test_command
      test_dial
      (λ n s. s)
      test_location
      test_challenge
      (ask test_ask ∷ sign_in test_verify ∷ sign_in test_verify ∷ [])
      []
    ≤ drawn test_challenge (ask test_ask ∷ sign_in test_verify ∷ sign_in test_verify ∷ [])
      + (if holds [] (challenge_name (codes "webauthn:") test_challenge) then 1 else 0)
sessions-le-drawn_example =
    sessions-le-drawn (flat_json test_members) test_openssl test_jwx test_nginx test_command
      test_dial (λ n s. s) test_location holds test_laws test_opens (λ n s j h. h) test_challenge
      (ask test_ask ∷ sign_in test_verify ∷ sign_in test_verify ∷ []) []
