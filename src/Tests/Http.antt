-- ===== src/Tests/Http.antt =====
-- The gate, the rate limit, and the escaping of JSON strings.
use nginx_auth_webauthn.Base.{Bytes, codes, bytes_eq, true, false, some, [], ◌∷◌, ◌≡◌, ◌↔◌, refl}
use nginx_auth_webauthn.Base.Word.{ℤ, pos}
use nginx_auth_webauthn.Keys.{rate_limit_name}
use nginx_auth_webauthn.Http.Escape.{escape}
use nginx_auth_webauthn.Http.Escape.Read.{Reads, escape-Reads}
use nginx_auth_webauthn.Http.Gate.{
  Request, passed, go, access_handler, check_session, build_jwks, admit, with_claim, finish,
  apply_headers,
}
use nginx_auth_webauthn.Http.Gate.Session.{IsSession, check_session_iff}
use nginx_auth_webauthn.Http.Gate.Passes.{session_context, access_handler-passed}
use nginx_auth_webauthn.Tests.Doubles.{test_nginx, test_jwx, test_location}
use nginx_auth_webauthn.Tests.Counters.{Counters, no_counters, put}

escape-Reads_example : Reads (escape (codes "a\"b\\")) (codes "a\"b\\")
escape-Reads_example = escape-Reads (codes "a\"b\\")

abbrev test_request : Request
test_request = record {
  cookie = some (codes "token");
  time = 99;
  complex_value = λ text. some text;
  context_room = true;
}

check_session_iff_example :
    (check_session test_jwx test_nginx test_location test_request ≡ go (codes "token", pos 100))
    ↔ IsSession test_jwx test_nginx test_location test_request (codes "token") (pos 100)
check_session_iff_example =
    check_session_iff test_jwx test_nginx test_location test_request (codes "token") (pos 100)

test_passed :
    (access_handler test_jwx test_nginx test_location test_request).0
    ≡ passed ((codes "X-User", codes "X-User", codes "u") ∷ [])
unfolding access_handler check_session build_jwks admit with_claim finish apply_headers bytes_eq
test_passed = refl

access_handler-passed_example :
    (true ≡ true)
    × (payload : Bytes) × (exp : ℤ) × IsSession test_jwx test_nginx test_location test_request
        payload exp
    × ((access_handler test_jwx test_nginx test_location test_request).1
        ≡ some (session_context test_jwx test_nginx payload exp))
access_handler-passed_example =
    access_handler-passed test_jwx test_nginx test_location test_request
      ((codes "X-User", codes "X-User", codes "u") ∷ []) test_passed

-- A key with the counter 2 and no expiry.
abbrev two_before : Counters
two_before = put (rate_limit_name (codes "w:") (codes "::1")) (2, false) no_counters
