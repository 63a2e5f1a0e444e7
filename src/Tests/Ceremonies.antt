-- ===== src/Tests/Ceremonies.antt =====
-- An assertion, an attestation, client data, counters and challenges.
use nginx_auth_webauthn.Base.{
  ◌+◌, ◌≤◌, Bytes, codes, replicate, ◌++◌, ◌≡◌, ◌≢◌, ◌↔◌, ltb, false, some, List, [], ◌∷◌, refl,
  true, ap, get_or,
}
use nginx_auth_webauthn.Base.Rc.{ok}
use nginx_auth_webauthn.Base.Word.{pos, negsuc}
use nginx_auth_webauthn.Clientdata
use nginx_auth_webauthn.Clientdata.Valid.{IsAccepted, verify_iff}
use nginx_auth_webauthn.Assertion.{
  Assertion, AssertionCred, AssertionPolicy, assertion_verify, clone_strict,
}
use nginx_auth_webauthn.Assertion.Counter.{Grows, count_all, count_all-Grows}
use nginx_auth_webauthn.Assertion.Valid.{IsAuthentic, assertion_verify_iff}
use nginx_auth_webauthn.Attestation.{Attestation, attestation_parse, attestation_verify}
use nginx_auth_webauthn.Attestation.Object.{IsObject, attestation_parse_iff}
use nginx_auth_webauthn.Attestation.Valid.{IsAttested, attestation_verify_iff}
use nginx_auth_webauthn.Challenge.{valid_ttl}
use nginx_auth_webauthn.Challenge.Lasting.{elapsed, after_events, issued-accepted}
use nginx_auth_webauthn.Challenge.SingleUse.{
  Event, issue, consume, hit, save, elapse, step, accepted, drawn, accepted-le-drawn,
}
use nginx_auth_webauthn.Tests.Doubles.{
  test_nginx, test_json, test_openssl, test_cbor, TestItem, pair, end,
}
use nginx_auth_webauthn.Tests.Server.{holds, test_command, test_laws}
use nginx_auth_webauthn.Tests.Clock.{clock_command, clock_wait, clock_left, clock_laws}
use nginx_auth_webauthn.Challenge.Held.{some-injective}

abbrev test_challenge : Bytes
test_challenge = replicate 32 7

abbrev test_members : List (Bytes × Bytes)
test_members =
    (codes "type", codes "webauthn.get")
    ∷ (codes "challenge", test_challenge)
    ∷ (codes "origin", codes "https://example.com")
    ∷ []

abbrev test_assertion : Assertion
test_assertion = record {
  authenticator_data = replicate 32 0 ++ (1 ∷ 0 ∷ 0 ∷ 0 ∷ 5 ∷ []);
  client_data_json = codes "{}";
  signature = 1 ∷ [];
}

abbrev test_cred : AssertionCred
test_cred = record { public_key = 4 ∷ []; alg = negsuc 6; sign_count = 4 }

abbrev test_policy : AssertionPolicy
test_policy = record {
  rp_id = codes "example.com";
  expected_challenge = test_challenge;
  allowed_origins = codes "https://example.com" ∷ [];
  require_uv = false;
  clone_detection = clone_strict;
}

assertion_verify_iff_example :
    (assertion_verify test_openssl
        (test_json test_members)
        test_nginx
        test_assertion
        test_cred
        test_policy
      ≡ ok 5)
    ↔ IsAuthentic test_openssl
        (test_json test_members)
        test_nginx
        test_assertion
        test_cred
        test_policy
        5
assertion_verify_iff_example =
    assertion_verify_iff test_openssl (test_json test_members) test_nginx test_assertion test_cred
      test_policy 5 (λ n. refl) refl

verify_iff_example :
    (Clientdata.verify
        (test_json test_members)
        test_nginx
        (codes "{}")
        (codes "webauthn.get")
        test_challenge
        (codes "https://example.com" ∷ [])
      ≡ ok tt)
    ↔ IsAccepted
        (test_json test_members)
        test_nginx
        (codes "{}")
        (codes "webauthn.get")
        test_challenge
        (codes "https://example.com" ∷ [])
verify_iff_example =
    verify_iff (test_json test_members) test_nginx (codes "{}") (codes "webauthn.get")
      test_challenge (codes "https://example.com" ∷ []) (λ n. refl)

count_all-Grows_example : Grows 3 (count_all clone_strict 3 (4 ∷ 4 ∷ 9 ∷ 2 ∷ []))
count_all-Grows_example = count_all-Grows (4 ∷ 4 ∷ 9 ∷ 2 ∷ []) 3

abbrev test_attestation : Attestation
test_attestation = record {
  fmt = codes "none";
  auth_data = replicate 37 0;
  att_sig = [];
  att_alg = pos 0;
  has_x5c = false;
}

attestation_verify_iff_example :
    (attestation_verify
        (test_cbor (TestItem.map end))
        test_nginx
        test_openssl
        test_attestation
        (codes "example.com")
        (replicate 32 0)
        0
      ≡ ok tt)
    ↔ IsAttested
        (test_cbor (TestItem.map end))
        test_nginx
        test_openssl
        test_attestation
        (codes "example.com")
        (replicate 32 0)
        0
attestation_verify_iff_example =
    attestation_verify_iff (test_cbor (TestItem.map end)) test_nginx test_openssl test_attestation
      (codes "example.com") (replicate 32 0) 0 (λ n. refl) refl

abbrev test_object : TestItem
test_object = TestItem.map (
    pair (TestItem.string (codes "fmt")) (TestItem.string (codes "none"))
      (pair (TestItem.string (codes "authData")) (TestItem.bytestring (replicate 37 0)) end))

attestation_parse_iff_example :
    (attestation_parse (test_cbor test_object) test_nginx (1 ∷ 2 ∷ []) ≡ ok test_attestation)
    ↔ IsObject (test_cbor test_object) test_nginx (1 ∷ 2 ∷ []) test_attestation
attestation_parse_iff_example =
    attestation_parse_iff (test_cbor test_object) test_nginx (1 ∷ 2 ∷ []) test_attestation
      (λ n. refl)

-- Issued once, and presented three times.
abbrev test_events : List Event
test_events =
    issue (some test_challenge) (pos 60)
    ∷ consume test_challenge
    ∷ consume test_challenge
    ∷ elapse 5
    ∷ consume test_challenge
    ∷ []

accepted-le-drawn_example :
    accepted test_nginx test_command (λ n s. s) (codes "webauthn:") test_challenge test_events []
    ≤ drawn test_nginx test_command (λ n s. s) (codes "webauthn:") test_challenge test_events + 0
accepted-le-drawn_example =
    accepted-le-drawn test_nginx test_command (λ n s. s) (codes "webauthn:") holds test_laws
      (λ n s j h. h) test_challenge test_events []

abbrev other_challenge : Bytes
other_challenge = replicate 32 9

-- What runs before an issued challenge comes back.
abbrev between_events : List Event
between_events =
    hit (codes "10.0.0.1") 60
    ∷ elapse 30
    ∷ consume other_challenge
    ∷ issue (some other_challenge) (pos 60)
    ∷ elapse 5
    ∷ save (codes "AQID") ((codes "sign_count", codes "5") ∷ [])
    ∷ []

test_ttl : valid_ttl (pos 60) ≡ some 60
unfolding valid_ttl
test_ttl = refl

others : other_challenge ≢ test_challenge
others same = cc (ap (λ d. get_or d 0 0) same)

issued-accepted_example :
    (step test_nginx clock_command clock_wait (codes "webauthn:") (consume test_challenge) (
      after_events test_nginx clock_command clock_wait
        (codes "webauthn:")
        (λ n. refl)
        clock_left
        clock_laws
        between_events
        (step test_nginx clock_command clock_wait
          (codes "webauthn:")
          (issue (some test_challenge) (pos 60))
          (λ k. 0)).1)).0
    ≡ ltb (elapsed between_events) 60
issued-accepted_example =
    issued-accepted test_nginx clock_command clock_wait (codes "webauthn:") (λ n. refl) clock_left
      clock_laws test_challenge (pos 60) 60 between_events (λ k. 0) refl test_ttl
      (tt, (tt, (others, ((λ same. others (some-injective same)), (tt, (tt, tt))))))

-- 35 of the 60 seconds are over.
in_time : ltb (elapsed between_events) 60 ≡ true
unfolding elapsed
in_time = refl
