-- ===== src/Tests/Doubles.antt =====
-- Stand-ins for nginx core, the JSON and CBOR libraries, and OpenSSL.
use nginx_auth_webauthn.Base.{
  ℕ, Bytes, codes, length, bytes_eq, replicate, if◌then◌else◌, Bool, true, false, Option, none,
  some, List, [], ◌∷◌,
}
use nginx_auth_webauthn.Http.Conf.{LocConf}
use nginx_auth_webauthn.Base.Word.{pos}
use nginx_auth_webauthn.Platform.{Nginx, JsonLib, Jwx, Openssl, Cbor, ec}

-- Memory enough, and a base64url that is the identity.
abbrev pub test_nginx : Nginx
test_nginx = record {
  pnalloc = λ n. true;
  base64_decoded_length = λ n. n;
  decode_base64url = λ s. some s;
  base64_encoded_length = λ n. n;
  encode_base64url = λ s. s;
  list_push = true;
  strlow = λ s. s;
  unescape_uri = λ s. s;
}

-- The defaults of a location with Redis on this host.
abbrev pub test_location : LocConf
test_location = record {
  rp_id = codes "example.com";
  rp_name = [];
  origins = some (codes "https://example.com" ∷ []);
  challenge_ttl = 60;
  user_verification = 1;
  rate_limit_max = 0;
  rate_limit_window = 60;
  redis_url = codes "redis:6379";
  redis_host = codes "redis";
  redis_port = 6379;
  redis_password = [];
  redis_db = 0;
  redis_timeout = 100;
  redis_key_prefix = codes "webauthn:";
  jwt_secret_file = codes "jwt.key";
  jwt_secret = codes "secret";
  jwt_pub_pem = [];
  jwt_alg = codes "HS256";
  jwt_alg_family = 0;
  jwt_ttl = 3600;
  cookie_name = codes "webauthn_session";
  cookie_domain = [];
  cookie_path = codes "/";
  cookie_secure = true;
  cookie_samesite = 0;
  clone_detection = 0;
  auth = true;
  signin_url = [];
  set_headers = (codes "X-User", codes "u") ∷ [];
  challenge_handler = true;
  verify_handler = true;
}

pub data TestJson : Type 0 where
  text : Bytes → TestJson
  object : List (Bytes × Bytes) → TestJson

abbrev pub lookup : List (Bytes × Bytes) → Bytes → Option TestJson
lookup [] key = none
lookup ((k, v) ∷ members) key =
    let rest = lookup members key in if bytes_eq k key then some (text v) else rest

abbrev pub member : TestJson → Bytes → Option TestJson
member (text s) key = none
member (object members) key = lookup members key

abbrev pub text_of : TestJson → Option Bytes
text_of (text s) = some s
text_of (object members) = none

abbrev pub is_object_of : TestJson → Bool
is_object_of (text s) = false
is_object_of (object members) = true

-- Every input is the one document.
abbrev pub test_json : List (Bytes × Bytes) → JsonLib TestJson
test_json members = record {
  parse_untrusted = λ input. some (object members);
  is_object = is_object_of;
  object_get = member;
  object_get_string = λ node key. elim (member node key) [ none ↦ none | some n ↦ text_of n ];
  string = text_of;
  boolean = λ node. none;
}

-- A key is its DER form; every signature is good.
abbrev pub test_openssl : Openssl Bytes
test_openssl = record {
  digest_sha256 = λ input. some (replicate 32 0);
  d2i_pubkey = λ der. some der;
  i2d_pubkey = λ key. some key;
  base_id = λ key. ec;
  md_ctx_new = true;
  digest_verify_init = λ md key. true;
  digest_verify = λ md key signature signed. pos 1;
  ec_public_key = λ group point. some point;
  rsa_public_key = λ n e. some n;
  ed25519_public_key = λ x. some x;
}

mutual
  pub data TestItem : Type 0 where
    uint : ℕ → TestItem
    negint : ℕ → TestItem
    bytestring : Bytes → TestItem
    string : Bytes → TestItem
    map : TestPairs → TestItem

  pub data TestPairs : Type 0 where
    end : TestPairs
    pair : TestItem → TestItem → TestPairs → TestPairs

abbrev pub pairs_of : TestPairs → List (TestItem × TestItem)
pairs_of end = []
pairs_of (pair k v rest) = (k, v) ∷ pairs_of rest

-- Every input is one encoded item.
abbrev pub test_cbor : TestItem → Cbor TestItem
test_cbor root = record {
  load = λ input. some (record { root = root; no_error = true; read = length input });
  isa_uint = λ item. elim item [ TestItem.uint n ↦ true | _ ↦ false ];
  isa_negint = λ item. elim item [ TestItem.negint n ↦ true | _ ↦ false ];
  get_int = λ item. elim item [ TestItem.uint n ↦ n | TestItem.negint n ↦ n | _ ↦ 0 ];
  isa_bytestring = λ item. elim item [ TestItem.bytestring b ↦ true | _ ↦ false ];
  bytestring_is_definite = λ item. true;
  bytestring = λ item. elim item [ TestItem.bytestring b ↦ b | _ ↦ [] ];
  isa_string = λ item. elim item [ TestItem.string s ↦ true | _ ↦ false ];
  string_is_definite = λ item. true;
  string = λ item. elim item [ TestItem.string s ↦ s | _ ↦ [] ];
  isa_map = λ item. elim item [ TestItem.map ps ↦ true | _ ↦ false ];
  map_pairs = λ item. elim item [ TestItem.map ps ↦ pairs_of ps | _ ↦ [] ];
  isa_array = λ item. false;
  array_size = λ item. 0;
}

-- Tokens, keys and payloads are texts: the claims `aud`, `iss` and `sub` are fixed, and the token expires at 100.
abbrev pub claim : Bytes → Option Bytes
claim name =
    if bytes_eq name (codes "aud")
    then some (codes "example.com")
    else if bytes_eq name (codes "iss")
    then some (codes "nginx-webauthn")
    else if bytes_eq name (codes "sub")
    then some (codes "alice")
    else none

abbrev pub test_jwx : Jwx Bytes Bytes Bytes
test_jwx = record {
  decode = λ text. some text;
  jwks_parse = λ doc. some doc;
  jwks_parse_keyval = λ doc. some doc;
  jws_verify = λ token key. true;
  payload = λ token. some token;
  claim_string = λ payload name. claim name;
  claim_integer = λ payload name. some (pos 100);
  encode = λ alg claims secret. some claims;
}

-- Every node has these members, and a node is its text.
abbrev pub find : List (Bytes × Bytes) → Bytes → Option Bytes
find [] key = none
find ((k, v) ∷ members) key = let rest = find members key in if bytes_eq k key then some v else rest

abbrev pub flat_json : List (Bytes × Bytes) → JsonLib Bytes
flat_json members = record {
  parse_untrusted = λ input. some input;
  is_object = λ node. true;
  object_get = λ node key. find members key;
  object_get_string = λ node key. find members key;
  string = λ node. some node;
  boolean = λ node. none;
}
