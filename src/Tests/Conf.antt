-- ===== src/Tests/Conf.antt =====
-- The configuration of a location, its key file and the Redis address; and the buffers of the handlers.
use nginx_auth_webauthn.Http.Conf.Table.{Directive, Slots, Handler, slot, run}
use nginx_auth_webauthn.Http.Conf.Table.Bounded.{
  IsValue, created, directive, merge_loc_conf-chooses,
}
use nginx_auth_webauthn.Base.{
  ◌+◌, ◌≤◌, ◌==◌, Bytes, bytes_eq, length, codes, replicate, ◌++◌, true, some, none, List, ℕ,
  if◌then◌else◌, inl, inr, Bool-cases, [], ◌∷◌, ◌≡◌, refl, arith,
}
use nginx_auth_webauthn.Base.Rc.{ok}
use nginx_auth_webauthn.Platform.{NginxConf, Pem}
use nginx_auth_webauthn.Http.Conf.{LocConf, RawConf, create_loc_conf, settled}
use nginx_auth_webauthn.Http.Conf.Merge.{merge_fields, keyed, load_key, merge_loc_conf}
use nginx_auth_webauthn.Http.Conf.Key.{read_file, chomped, chomp}
use nginx_auth_webauthn.Http.Conf.Table.KeyPair.{IsPair, merge_loc_conf-IsPair}
use nginx_auth_webauthn.Http.Conf.Merge.Inherit.{merge_loc_conf-keeps_secret}
use nginx_auth_webauthn.Http.Conf.Directives.{Parsed, set, message, c_text, set_jwt_alg, set_redis}
use nginx_auth_webauthn.Http.Conf.Directives.Address.{
  IsAddress, set_redis_reads, set_redis-IsAddress,
}
use nginx_auth_webauthn.Http.Conf.Directives.Algorithm.{
  IsAlgorithm, create, algorithm, IsBuilt-IsAlgorithm,
}
use nginx_auth_webauthn.Http.Issue.Body.{offer_text, offer_size}
use nginx_auth_webauthn.Http.Verify.Mint.{claims_text, cookie_text, success_text}
use nginx_auth_webauthn.Http.Bounds.{length-offer_text, length-mint_texts}
use nginx_auth_webauthn.Tests.Doubles.{test_location}

-- Every file holds one line, the first colon is the sixth byte, and every number is 6379.
abbrev key_line : Bytes
key_line = replicate 32 65 ++ (13 ∷ 10 ∷ [])

abbrev test_ng : NginxConf
test_ng = record {
  pnalloc = λ n. true;
  array_create = true;
  array_push = true;
  atoi = λ s. some 6379;
  parse_time = λ s. some 60;
  strlchr = λ s b. some 5;
  compile_complex_value = λ s. true;
  full_name = λ path. some path;
  open_file = λ path. some (record { size = some 34; read = λ n. some key_line });
}

abbrev test_pem : Pem Bytes
test_pem = record {
  mem_buf = λ text. true;
  read_private_key = λ text. some text;
  mem = true;
  write_pubkey = λ key. some key;
}

-- A location with an algorithm and a key file of its own.
abbrev own_key : RawConf
own_key = record create_loc_conf {
  jwt_secret_file = some (codes "own.pem");
  jwt_alg = some (codes "RS256");
  jwt_alg_family = some 1;
}

merge_loc_conf-keeps_secret_example :
    (merge_loc_conf test_ng test_pem (settled test_location) own_key
      ≡ ok (merge_fields (settled test_location) own_key))
    × ((merge_fields (settled test_location) own_key).jwt_secret ≡ test_location.jwt_secret)
    × ((merge_fields (settled test_location) own_key).jwt_pub_pem ≡ test_location.jwt_pub_pem)
merge_loc_conf-keeps_secret_example =
    merge_loc_conf-keeps_secret test_ng test_pem test_location own_key (λ h. cc) refl refl

test_redis_read :
    set_redis test_ng (codes "redis:6379") create_loc_conf
    ≡ set (record create_loc_conf {
      redis_url = some (codes "redis:6379");
      redis_host = some (codes "redis");
      redis_port = some 6379;
    })
test_redis_read =
    set_redis_reads test_ng create_loc_conf (codes "redis") (codes "6379") 6379 refl (λ h. cc)
      (λ h. cc) refl refl (omega arith) (omega arith)

set_redis-IsAddress_example :
    IsAddress (codes "redis:6379") create_loc_conf (record create_loc_conf {
      redis_url = some (codes "redis:6379");
      redis_host = some (codes "redis");
      redis_port = some 6379;
    })
set_redis-IsAddress_example =
    set_redis-IsAddress test_ng (codes "redis:6379") create_loc_conf _ (λ i h. ground (arith, h))
      test_redis_read

test_algorithm :
    set_jwt_alg test_ng (codes "ES256") create_loc_conf
    ≡ set (record create_loc_conf { jwt_alg = some (codes "ES256"); jwt_alg_family = some 1 })
unfolding set_jwt_alg c_text bytes_eq
test_algorithm = refl

abbrev es_conf : RawConf
es_conf = record create_loc_conf { jwt_alg = some (codes "ES256"); jwt_alg_family = some 1 }

test_merged :
    merge_loc_conf test_ng test_pem create_loc_conf es_conf
    ≡ ok (merge_fields create_loc_conf es_conf)
unfolding merge_loc_conf load_key merge_fields
test_merged = refl

IsBuilt-IsAlgorithm_example :
    IsAlgorithm
      (merge_fields create_loc_conf es_conf).jwt_alg
      (merge_fields create_loc_conf es_conf).jwt_alg_family
IsBuilt-IsAlgorithm_example =
    IsBuilt-IsAlgorithm test_ng test_pem create_loc_conf es_conf
      (merge_fields create_loc_conf es_conf) create
      (algorithm (codes "ES256") create_loc_conf es_conf create test_algorithm) test_merged

length-offer_text_example :
    length (offer_text test_location (codes "AAAA") (codes "AQID" ∷ codes "BAUG" ∷ []))
    ≤ offer_size test_location (codes "AAAA") (codes "AQID" ∷ codes "BAUG" ∷ [])
length-offer_text_example =
    length-offer_text test_location (codes "AAAA") (codes "AQID" ∷ codes "BAUG" ∷ [])

length-mint_texts_example :
    (length (claims_text test_location (codes "alice") (codes "AQID") (codes "BAUG") 1700000000)
      ≤ 256 + 5 + 4 + 11 + 4)
    × (length (cookie_text test_location (codes "jwt")) ≤ 16 + 3 + 1 + 0 + 128)
    × (length (success_text test_location (codes "alice") 1700000000) ≤ 64 + 5)
length-mint_texts_example =
    length-mint_texts test_location (codes "alice") (codes "AQID") (codes "BAUG") (codes "jwt")
      1700000000

-- Slots that set what they are given, and look a name up in the table of an enumeration.
abbrev named_value : List (Bytes × ℕ) → Bytes → Parsed ℕ
named_value [] arg = message (codes "invalid value")
named_value ((name, v) ∷ rest) arg =
    let other = named_value rest arg in if bytes_eq arg name then set v else other

abbrev test_slots : Slots
test_slots = record {
  str_slot = λ old arg. set arg;
  sec_slot = λ old arg. set 1;
  msec_slot = λ old arg. set 1;
  num_slot = λ old arg. set 1;
  enum_slot = λ table old arg. named_value table arg;
  flag_slot = λ old arg. set (bytes_eq arg (codes "on"));
}

test_named :
    (table : List (Bytes × ℕ)) (arg : Bytes) (n : ℕ)
    → named_value table arg ≡ set n
    → IsValue table n
test_named [] arg n h = cc
test_named ((name, v) ∷ rest) arg n h = elim (Bool-cases (bytes_eq arg name)) [
  | inl e ↦ inl (cc (rw e at h))
  | inr e ↦ inr (test_named rest arg n (rw e at h))
]

abbrev lax_conf : RawConf
lax_conf = record create_loc_conf { cookie_samesite = some 1 }

test_lax :
    run test_ng test_slots Directive.jwt_cookie_samesite
      (codes "lax" ∷ [])
      (record { conf = create_loc_conf; handler = none })
    ≡ set (record { conf = lax_conf; handler = none })
unfolding run slot bytes_eq
test_lax = refl

-- A verify handler is the content handler of its location.
test_verify_handler :
    run test_ng test_slots Directive.verify_handler
      (codes "on" ∷ [])
      (record { conf = create_loc_conf; handler = none })
    ≡ set (record {
      conf = record create_loc_conf { verify_handler = some true };
      handler = some Handler.verify_content;
    })
unfolding run slot bytes_eq
test_verify_handler = refl

merge_loc_conf-chooses_example :
    ((merge_fields create_loc_conf lax_conf).user_verification ≤ 2)
    × ((merge_fields create_loc_conf lax_conf).cookie_samesite ≤ 2)
    × ((merge_fields create_loc_conf lax_conf).clone_detection ≤ 2)
unfolding merge_loc_conf load_key
merge_loc_conf-chooses_example =
    merge_loc_conf-chooses test_ng test_slots (λ table old arg n h. test_named table arg n h)
      test_pem create_loc_conf lax_conf (merge_fields create_loc_conf lax_conf) created
      (directive Directive.jwt_cookie_samesite (codes "lax" ∷ [])
        (record { conf = create_loc_conf; handler = none })
        (record { conf = lax_conf; handler = none }) created test_lax)
      refl

-- No text is no key; any other is its own key, and its own public key.
abbrev strict_pem : Pem Bytes
strict_pem = record test_pem {
  read_private_key = λ text. if length text == 0 then none else some text;
}

abbrev named_key : RawConf
named_key = record create_loc_conf { jwt_secret_file = some (codes "jwt.key") }

abbrev used_key : RawConf
used_key = record named_key { auth = some true }

test_named_key :
    run test_ng test_slots Directive.jwt_secret_file
      (codes "jwt.key" ∷ [])
      (record { conf = create_loc_conf; handler = none })
    ≡ set (record { conf = named_key; handler = none })
unfolding run slot
test_named_key = refl

test_used_key :
    run test_ng test_slots Directive.auth_webauthn
      (codes "on" ∷ [])
      (record { conf = named_key; handler = none })
    ≡ set (record { conf = used_key; handler = none })
unfolding run slot bytes_eq
test_used_key = refl

abbrev first_loaded : LocConf
unfolding merge_fields
first_loaded = record (merge_fields create_loc_conf used_key) { jwt_secret = replicate 32 65 }

test_loaded : merge_loc_conf test_ng strict_pem create_loc_conf used_key ≡ ok first_loaded
unfolding merge_loc_conf merge_fields load_key keyed read_file chomp chomped
test_loaded = refl

merge_loc_conf-IsPair_example :
    IsPair test_ng strict_pem first_loaded.jwt_secret first_loaded.jwt_pub_pem
merge_loc_conf-IsPair_example =
    merge_loc_conf-IsPair test_ng strict_pem refl test_slots
      (λ table old arg n h. test_named table arg n h) create_loc_conf used_key first_loaded created
      (directive Directive.auth_webauthn (codes "on" ∷ [])
        (record { conf = named_key; handler = none }) (record { conf = used_key; handler = none })
        (directive Directive.jwt_secret_file (codes "jwt.key" ∷ [])
          (record { conf = create_loc_conf; handler = none })
          (record { conf = named_key; handler = none }) created test_named_key)
        test_used_key)
      test_loaded
