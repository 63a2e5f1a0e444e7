-- ===== src/Admin.antt =====
-- tools/admin: the command that registers a credential, from its arguments to Redis.
pub mod Source
pub mod Options
pub mod Register
pub mod Manage
pub mod Main
pub mod Told
pub mod Hex
pub use Options.{AdminConf, ex_ok, ex_fail, ex_usage}
use nginx_auth_webauthn.Base.{
  ℕ, Bytes, bytes_eq, length, codes, ◌==◌, if◌then◌else◌, Bool, true, false, not, ◌||◌, Option,
  none, some, List, [], ◌∷◌,
}
use nginx_auth_webauthn.Base.Rc.{Rc, ok, declined, error, ◌>>=◌, ◌>>◌, require, some_or}
use nginx_auth_webauthn.Base.Word.{ℤ, pos}
use Prim.Native.Nat.{bit_and}
use nginx_auth_webauthn.Platform.{Nginx, JsonLib, Openssl, Cbor, Command}
use nginx_auth_webauthn.Authdata
use nginx_auth_webauthn.Authdata.{Authdata, flag_at}
use nginx_auth_webauthn.Hash.{hash_sha256}
use nginx_auth_webauthn.Attestation.{Attestation, attestation_parse, attestation_verify}
use nginx_auth_webauthn.Cose.{cose_to_der}
use nginx_auth_webauthn.Redis.{Client, RedisConf, redis_connect, redis_close}
use nginx_auth_webauthn.Credential.{Credential, credential_put}

abbrev pub att_packed : ℕ
att_packed = 1

-- The options of the command; `body` is what was read of the response file, and `time` the present.
pub record RegisterArgs : Type 0 where
  pub user_id : Option Bytes
  pub response_file : Option Bytes
  pub rp_id : Option Bytes
  pub require_attestation : Option Bytes
  pub transports : Option Bytes
  pub body : Rc Bytes
  pub time : ℕ

abbrev pub is_given : Option Bytes → Bool
is_given none = false
is_given (some text) = true

abbrev pub text_or_empty : Option Bytes → Bytes
text_or_empty none = []
text_or_empty (some text) = text

-- The demanded level; `none` is an argument that is neither.
unfoldable pub demand_of : Option Bytes → Option ℕ
demand_of none = some 0
demand_of (some text) =
    if bytes_eq text (codes "packed")
    then some att_packed
    else if bytes_eq text (codes "none")
    then some 0
    else none

module _ {Server Json Item Pkey : Type 0} (js : JsonLib Json) (cbor : Cbor Item)
    (ssl : Openssl Pkey) (ng : Nginx) (command : Command Server)
    (dial : Bytes → ℕ → Server → Option Server) (conf : AdminConf) where
  unfoldable pub decode_member : Json → Bytes → Rc Bytes
  decode_member obj key = do
    node ← some_or (js.object_get obj key) error
    enc ← some_or (js.string node) error
    require (ng.pnalloc (ng.base64_decoded_length (length enc))) error
    some_or (ng.decode_base64url enc) error

  abbrev pub attested_credential : Authdata → Bool
  attested_credential ad = not (
      bit_and ad.flags flag_at == 0
      || length ad.credential_id == 0
      || length ad.cose_public_key == 0)

  abbrev pub credential_of : RegisterArgs → Authdata → Bytes → ℤ → Credential
  credential_of args ad der alg = record {
    credential_id = ng.encode_base64url ad.credential_id;
    user_id = text_or_empty args.user_id;
    public_key = der;
    alg = alg;
    sign_count = ad.sign_count;
    created_at = pos args.time;
    last_used_at = pos 0;
    aaguid = some ad.aaguid;
    transports = text_or_empty args.transports;
  }

  -- From the response file to the credential; every failure ends the command alike.
  unfoldable pub prepare : RegisterArgs → ℕ → Rc Credential
  unfolding decode_member
  prepare args demand = do
    body ← args.body
    json ← some_or (js.parse_untrusted body) error
    response ← some_or (js.object_get json (codes "response")) error
    require (js.is_object response) error
    client_data ← decode_member response (codes "clientDataJSON")
    att_obj ← decode_member response (codes "attestationObject")
    att ← attestation_parse cbor ng att_obj
    ad ← Authdata.parse att.auth_data
    require (attested_credential ad) error
    cdh ← hash_sha256 ssl client_data
    attestation_verify cbor ng ssl att (text_or_empty args.rp_id) cdh demand
    (der, alg) ← cose_to_der cbor ssl ng ad.cose_public_key
    require (ng.pnalloc (ng.base64_encoded_length (length ad.credential_id))) error
    ok (credential_of args ad der alg)

  unfoldable pub admin_connect : Client Server → Rc (Unit {0}) × Client Server
  admin_connect c =
      if length conf.redis_host == 0 || conf.redis_port == 0
      then (error, c)
      else redis_connect ng command dial
          (record {
            host = conf.redis_host;
            port = conf.redis_port;
            password = conf.redis_password;
            db = conf.redis_db;
          })
          c

  abbrev pub exit_of : Rc (Unit {0}) → ℕ
  exit_of (ok _) = ex_ok
  exit_of declined = ex_fail
  exit_of error = ex_fail

  unfoldable pub store : Credential → Rc (Unit {0}) → Client Server → ℕ × Client Server
  store cred (ok _) c =
      let (r, c') = credential_put ng command conf.key_prefix cred c in
      (exit_of r, redis_close ng command c')
  store cred declined c = (ex_fail, c)
  store cred error c = (ex_fail, c)

  unfoldable pub on_prepared : Rc Credential → Client Server → ℕ × Client Server
  unfolding admin_connect store
  on_prepared (ok cred) c = let (r, c') = admin_connect c in store cred r c'
  on_prepared declined c = (ex_fail, c)
  on_prepared error c = (ex_fail, c)

  unfoldable pub on_demand : RegisterArgs → Option ℕ → Client Server → ℕ × Client Server
  unfolding prepare on_prepared
  on_demand args none c = (ex_usage, c)
  on_demand args (some demand) c = on_prepared (prepare args demand) c

  -- After the options are parsed: the three required ones, the level, the response, and the store.
  unfoldable pub cmd_register : RegisterArgs → Client Server → ℕ × Client Server
  unfolding on_demand demand_of
  cmd_register args c =
      if not (is_given args.user_id)
        || not (is_given args.response_file)
        || not (is_given args.rp_id)
      then (ex_usage, c)
      else on_demand args (demand_of args.require_attestation) c
