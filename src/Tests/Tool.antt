-- ===== src/Tests/Tool.antt =====
-- The commands of the admin tool on one registered credential, and its options.
use nginx_auth_webauthn.Base.{
  ℕ, Bytes, codes, length, ltb, if◌then◌else◌, true, false, Option, none, some, List, [], ◌∷◌, ◌≡◌,
  refl, map, replicate, arith,
}
use nginx_auth_webauthn.Base.Rc.{ok, error}
use nginx_auth_webauthn.Redis.{Client, redis_connect, on_dialled, authenticate, select_db}
use nginx_auth_webauthn.Redis.Values.{is_member}
use nginx_auth_webauthn.Credential.Abstract.{Registry, found}
use nginx_auth_webauthn.Credential.Refine.{put, run_abstractly, run_concretely, StandsFor, removed}
use nginx_auth_webauthn.Credential.Refine.Run.{run_concretely-run_abstractly}
use nginx_auth_webauthn.Admin.{AdminConf, admin_connect}
use nginx_auth_webauthn.Admin.Options.{go, redis, redis_timeout, own, common, Event, scan_options}
use nginx_auth_webauthn.Admin.Options.Ranges.{IsInRange, scan_options-IsInRange}
use nginx_auth_webauthn.Admin.Source.{Files, file_max, read_source}
use nginx_auth_webauthn.Admin.Source.Whole.{read_source_lem}
use nginx_auth_webauthn.Admin.Hex.{aaguid_fmt, unformatted, unformatted-aaguid_fmt}
use nginx_auth_webauthn.Admin.Main.{OnlyOpt, only, take_only, first_conf}
use nginx_auth_webauthn.Admin.Manage.{row_of, cmd_list, cmd_show, cmd_revoke, show_read}
use nginx_auth_webauthn.Admin.Told.{Connects, exit_for, cmd_list_lem, cmd_show_lem, cmd_revoke_lem}
use nginx_auth_webauthn.Tests.Doubles.{test_nginx, test_openssl, test_cbor, TestItem, flat_json}
use nginx_auth_webauthn.Tests.Storage.{
  test_credential, test_credential-IsUsable, empty_server, empty_registry, empty-StandsFor,
}
use nginx_auth_webauthn.Tests.Store.{Held, store_command, store_value, store_laws}

unformatted-aaguid_fmt_example :
    unformatted (aaguid_fmt 0 (0x1f ∷ 0 ∷ 255 ∷ 7 ∷ 0xa0 ∷ [])) ≡ 0x1f ∷ 0 ∷ 255 ∷ 7 ∷ 0xa0 ∷ []
unformatted-aaguid_fmt_example =
    unformatted-aaguid_fmt 0 (0x1f ∷ 0 ∷ 255 ∷ 7 ∷ 0xa0 ∷ [])
      (omega arith, (omega arith, (omega arith, (omega arith, (omega arith, tt)))))

aaguid_fmt_zeros : aaguid_fmt 0 (replicate 16 0) ≡ codes "00000000-0000-0000-0000-000000000000"
unfolding aaguid_fmt
aaguid_fmt_zeros = refl

read_source_lem_example :
    read_source test_nginx (record { rest = codes "{}"; fails = false })
    ≡ some (
        if ltb (length (codes "{}")) file_max
        then (if false then error else ok (codes "{}"))
        else error)
read_source_lem_example = read_source_lem test_nginx (λ n. refl) false (codes "{}")

abbrev no_files : Files
no_files = record { stdin = record { rest = []; fails = false }; fopen = λ path. none }

abbrev test_events : List (Event OnlyOpt)
test_events =
    common redis (codes "redis:6379")
    ∷ own only (codes "alice")
    ∷ common redis_timeout (codes "250")
    ∷ []

abbrev tool_conf : AdminConf
tool_conf = record {
  redis_host = codes "redis";
  redis_port = 6379;
  redis_password = [];
  redis_db = 0;
  redis_timeout_ms = 250;
  key_prefix = codes "webauthn:";
}

first-IsInRange : IsInRange first_conf
first-IsInRange = record {
  port = omega arith;
  db = omega arith;
  timeout = omega arith;
  address = (λ z. refl, λ z. refl);
}

test_scan :
    scan_options test_nginx no_files take_only test_events first_conf none
    ≡ go tool_conf (some (codes "alice"))
unfolding scan_options
test_scan = refl

scan_options-IsInRange_example : IsInRange tool_conf
scan_options-IsInRange_example =
    scan_options-IsInRange test_nginx no_files take_only test_events first_conf tool_conf none
      (some (codes "alice")) first-IsInRange test_scan

-- A server on which a credential was registered.
abbrev registered : Registry
registered = (run_abstractly (put test_credential ∷ []) empty_registry).1

abbrev holding : Client (Bytes → Held)
holding =
    (run_concretely test_nginx store_command (codes "w:") (put test_credential ∷ []) empty_server).1

holding-StandsFor :
    StandsFor test_nginx store_command
      (codes "w:")
      (λ n. refl)
      store_value
      store_laws
      holding
      registered
holding-StandsFor =
    (run_concretely-run_abstractly test_nginx store_command (codes "w:") (λ n. refl) store_value
      store_laws (put test_credential ∷ []) empty_server empty_registry
      (test_credential-IsUsable, tt) empty-StandsFor).1

abbrev store_dial : Bytes → ℕ → (Bytes → Held) → Option (Bytes → Held)
store_dial host port s = some s

abbrev store_conf : AdminConf
store_conf = record tool_conf { key_prefix = codes "w:" }

holding-Connects :
    Connects
      (flat_json [])
      (test_cbor (TestItem.uint 0))
      test_openssl
      test_nginx
      store_command
      store_dial
      (λ n. refl)
      store_value
      store_laws
      store_conf
      holding
      registered
unfolding admin_connect redis_connect on_dialled authenticate select_db
holding-Connects =
    (refl, record { live = refl; creds = holding-StandsFor.creds; index = holding-StandsFor.index })

cmd_list_lem_example :
    (ids : List Bytes) × ((id : Bytes) → is_member ids id ≡ registered.index (codes "alice") id)
    × ((cmd_list
          (flat_json [])
          (test_cbor (TestItem.uint 0))
          test_openssl
          test_nginx
          store_command
          store_dial
          (go store_conf (some (codes "alice")))
          holding).0
        ≡ (0, map (λ id. row_of id (found (registered.creds id))) ids))
cmd_list_lem_example =
    cmd_list_lem (flat_json []) (test_cbor (TestItem.uint 0)) test_openssl test_nginx store_command
      store_dial (λ n. refl) store_value store_laws store_conf (codes "alice") holding registered
      holding-Connects

cmd_show_lem_example :
    (cmd_show
      (flat_json [])
      (test_cbor (TestItem.uint 0))
      test_openssl
      test_nginx
      store_command
      store_dial
      (go store_conf (some (codes "AQID")))
      holding).0
    ≡ show_read
        (flat_json [])
        (test_cbor (TestItem.uint 0))
        test_openssl
        test_nginx
        store_command
        store_dial
        (codes "AQID")
        (found (registered.creds (codes "AQID")))
cmd_show_lem_example =
    cmd_show_lem (flat_json []) (test_cbor (TestItem.uint 0)) test_openssl test_nginx store_command
      store_dial (λ n. refl) store_value store_laws store_conf (codes "AQID") holding registered
      holding-Connects

cmd_revoke_lem_example :
    ((cmd_revoke
        (flat_json [])
        (test_cbor (TestItem.uint 0))
        test_openssl
        test_nginx
        store_command
        store_dial
        (go store_conf (some (codes "AQID")))
        holding).0
      ≡ exit_for
          (flat_json [])
          (test_cbor (TestItem.uint 0))
          test_openssl
          test_nginx
          store_command
          store_dial
          (λ n. refl)
          store_value
          store_laws
          store_conf
          (registered.creds (codes "AQID")))
    × StandsFor test_nginx store_command
        (codes "w:")
        (λ n. refl)
        store_value
        store_laws
        (record (cmd_revoke
          (flat_json [])
          (test_cbor (TestItem.uint 0))
          test_openssl
          test_nginx
          store_command
          store_dial
          (go store_conf (some (codes "AQID")))
          holding).1 { connected = true })
        (removed (codes "AQID") (registered.creds (codes "AQID")) registered).1
cmd_revoke_lem_example =
    cmd_revoke_lem (flat_json []) (test_cbor (TestItem.uint 0)) test_openssl test_nginx
      store_command store_dial (λ n. refl) store_value store_laws store_conf (codes "AQID") holding
      registered holding-Connects
