-- ===== src/Tests/Formats.antt =====
-- authData, COSE keys and CBOR integers.
use nginx_auth_webauthn.Base.{
  Bytes, replicate, All, IsByte, ◌++◌, ◌≡◌, ◌≢◌, ◌↔◌, List, [], ◌∷◌, refl, arith,
}
use nginx_auth_webauthn.Base.Rc.{ok, declined, error}
use nginx_auth_webauthn.Base.Word.{negsuc}
use nginx_auth_webauthn.Authdata.{Authdata, parse, prefix}
use nginx_auth_webauthn.Authdata.Layout.{encode, IsWellFormed, parse-encode}
use nginx_auth_webauthn.Authdata.Sound.{consumed, encode-parse}
use nginx_auth_webauthn.Authdata.Reject.{IsTruncated, parse_refuses, parse-append}
use nginx_auth_webauthn.Cose.{no_labels, collect, cose_to_pkey}
use nginx_auth_webauthn.Cose.Labels.{last_values, collect_lem}
use nginx_auth_webauthn.Cose.Valid.{IsCoseKey, cose_to_pkey_iff}
use nginx_auth_webauthn.Tests.Doubles.{test_cbor, test_openssl, TestItem, pair, end}

abbrev test_authdata : Authdata
test_authdata = record {
  rp_id_hash = replicate 32 9;
  flags = 0x41;
  sign_count = 258;
  aaguid = replicate 16 1;
  credential_id = 1 ∷ 2 ∷ 3 ∷ [];
  cose_public_key = 0xa0 ∷ [];
}

test_authdata-IsWellFormed : IsWellFormed test_authdata
test_authdata-IsWellFormed = record {
  hash = refl;
  flags = omega arith;
  count = omega arith;
  clear = λ h. absurd (omega (arith, h));
  attested = λ h. (refl, omega arith);
}

parse-encode_example : parse (encode test_authdata) ≡ ok test_authdata
parse-encode_example = parse-encode test_authdata test_authdata-IsWellFormed

abbrev test_prefix : Bytes
test_prefix = replicate 37 1

test_prefix-IsByte : All IsByte test_prefix
test_prefix-IsByte = ground arith

encode-parse_example :
    IsWellFormed (prefix test_prefix)
    × (encode (prefix test_prefix) ≡ consumed (prefix test_prefix) test_prefix)
encode-parse_example =
    encode-parse test_prefix test_prefix-IsByte ((parse-append test_prefix [] (omega arith) refl).1)

parse_refuses_example :
    ((parse (1 ∷ 2 ∷ 3 ∷ []) ≡ declined) ↔ IsTruncated (1 ∷ 2 ∷ 3 ∷ []))
    × (parse (1 ∷ 2 ∷ 3 ∷ []) ≢ error)
parse_refuses_example =
    parse_refuses (1 ∷ 2 ∷ 3 ∷ []) (omega arith, (omega arith, (omega arith, tt)))

parse-append_example :
    (parse (test_prefix ++ (8 ∷ 9 ∷ [])) ≡ ok (prefix test_prefix))
    × (parse test_prefix ≡ ok (prefix test_prefix))
parse-append_example = parse-append test_prefix (8 ∷ 9 ∷ []) (omega arith) refl

-- An Ed25519 key whose label 3 is there twice.
abbrev test_pairs : List (TestItem × TestItem)
test_pairs =
    (TestItem.uint 1, TestItem.uint 1)
    ∷ (TestItem.uint 3, TestItem.negint 6)
    ∷ (TestItem.uint 3, TestItem.negint 7)
    ∷ []

collect_lem_example :
    collect (test_cbor (TestItem.map end)) test_pairs no_labels
    ≡ last_values (test_cbor (TestItem.map end)) test_pairs
collect_lem_example = collect_lem (test_cbor (TestItem.map end)) test_pairs

abbrev test_key : TestItem
test_key = TestItem.map (
    pair (TestItem.uint 1) (TestItem.uint 1) (
      pair (TestItem.uint 3) (TestItem.negint 7) (
        pair (TestItem.negint 0) (TestItem.uint 6)
          (pair (TestItem.negint 1) (TestItem.bytestring (replicate 32 5)) end))))

cose_to_pkey_iff_example :
    (cose_to_pkey (test_cbor test_key) test_openssl (1 ∷ []) ≡ ok (replicate 32 5, negsuc 7))
    ↔ IsCoseKey (test_cbor test_key) test_openssl (1 ∷ []) (replicate 32 5) (negsuc 7)
cose_to_pkey_iff_example =
    cose_to_pkey_iff (test_cbor test_key) test_openssl (1 ∷ []) (replicate 32 5) (negsuc 7)
