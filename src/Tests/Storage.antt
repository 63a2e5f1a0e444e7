-- ===== src/Tests/Storage.antt =====
-- Keys, numbers and credential records.
use nginx_auth_webauthn.Base.{
  Bytes, codes, replicate, ◌≡◌, ◌↔◌, some, none, true, false, bytes_eq, List, [], ◌∷◌, refl, arith,
}
use nginx_auth_webauthn.Base.Rc.{ok}
use nginx_auth_webauthn.Base.Word.{pos, negsuc}
use nginx_auth_webauthn.Credential.{Credential, parse_record, record_pairs, atoi64}
use nginx_auth_webauthn.Credential.Numeral.{IsNumeral, Int64, atoi64_iff}
use nginx_auth_webauthn.Redis.{Client}
use nginx_auth_webauthn.Redis.Values.{lookup}
use nginx_auth_webauthn.Credential.AnyOrder.{record_of, parse_record_lem}
use nginx_auth_webauthn.Credential.Abstract.{Registry}
use nginx_auth_webauthn.Credential.Refine.{
  Call, get, put, update_counter, delete, run_abstractly, run_concretely, StandsFor,
}
use nginx_auth_webauthn.Credential.Refine.Run.{run_concretely-run_abstractly}
use nginx_auth_webauthn.Tests.Doubles.{test_nginx}
use nginx_auth_webauthn.Tests.Store.{Held, nothing, store_command, store_value, store_laws}
use nginx_auth_webauthn.Credential.Record.{IsUsable, IsTyped}
use nginx_auth_webauthn.Credential.Stored.{parse_record-record_pairs}

atoi64_iff_example :
    (atoi64 (codes "-42") ≡ ok (negsuc 41))
    ↔ (IsNumeral (codes "-42") (negsuc 41) × Int64 (negsuc 41))
atoi64_iff_example = atoi64_iff (codes "-42") (negsuc 41)

abbrev pub test_credential : Credential
test_credential = record {
  credential_id = codes "AQID";
  user_id = codes "alice";
  public_key = 0x30 ∷ [];
  alg = negsuc 6;
  sign_count = 17;
  created_at = pos 1700000000;
  last_used_at = pos 0;
  aaguid = some (replicate 16 3);
  transports = codes "usb,nfc";
}

test_credential-IsTyped : IsTyped test_credential
test_credential-IsTyped = record {
  alg_range = refl;
  count_range = omega arith;
  created_range = omega arith;
  used_range = omega arith;
  aaguid_length = λ bytes h. ground (arith, h);
}

pub test_credential-IsUsable : IsUsable test_credential
test_credential-IsUsable = record {
  typed = test_credential-IsTyped;
  has_key = λ h. absurd (omega (arith, h));
  has_alg = λ h. cc;
}

parse_record-record_pairs_example :
    parse_record (codes "AQID") (record_pairs test_credential) ≡ ok test_credential
parse_record-record_pairs_example =
    parse_record-record_pairs test_credential test_credential-IsUsable

-- The fields in an order of their own, with one that the program does not know.
abbrev shuffled : List (Bytes × Bytes)
shuffled =
    (codes "alg", codes "-8")
    ∷ (codes "note", codes "spare")
    ∷ (codes "public_key", codes "key")
    ∷ (codes "sign_count", codes "4")
    ∷ []

parse_record_lem_example :
    parse_record (codes "AQID") shuffled ≡ record_of (codes "AQID") (lookup shuffled)
parse_record_lem_example =
    parse_record_lem (codes "AQID") shuffled (unfold bytes_eq in (refl, (refl, (refl, (refl, tt)))))

abbrev pub empty_server : Client (Bytes → Held)
empty_server = record { connected = true; server = λ k. nothing }

abbrev pub empty_registry : Registry
empty_registry = record { creds = λ id. none; index = λ user id. false }

pub empty-StandsFor :
    StandsFor test_nginx store_command
      (codes "w:")
      (λ n. refl)
      store_value
      store_laws
      empty_server
      empty_registry
empty-StandsFor = record {
  live = refl;
  creds =
      λ id. (λ name. none, refl, record { no_key = refl; no_aaguid = refl; no_transports = refl });
  index = λ user. refl;
}

abbrev test_calls : List Call
test_calls =
    put test_credential
    ∷ update_counter (codes "AQID") 18 (pos 1700000001)
    ∷ get (codes "AQID")
    ∷ delete (codes "AQID")
    ∷ get (codes "AQID")
    ∷ []

run_concretely-run_abstractly_example :
    ((run_concretely test_nginx store_command (codes "w:") test_calls empty_server).0
      ≡ (run_abstractly test_calls empty_registry).0)
    × StandsFor test_nginx store_command
        (codes "w:")
        (λ n. refl)
        store_value
        store_laws
        (run_concretely test_nginx store_command (codes "w:") test_calls empty_server).1
        (run_abstractly test_calls empty_registry).1
run_concretely-run_abstractly_example =
    run_concretely-run_abstractly test_nginx store_command (codes "w:") (λ n. refl) store_value
      store_laws test_calls empty_server empty_registry
      (test_credential-IsUsable, ((omega arith, omega arith), (tt, (tt, (tt, tt))))) empty-StandsFor
