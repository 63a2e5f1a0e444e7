-- ===== src/Platform.antt =====
-- The code that the program calls and the repository does not hold: nginx core, the JSON, CBOR and JOSE libraries,
-- OpenSSL and hiredis. Each is a record of operations, an argument of the definitions that use it.
use nginx_auth_webauthn.Base.{ℕ, Bool, Option, List, Bytes}
use nginx_auth_webauthn.Base.Word.{ℤ}

-- nginx core. `pnalloc n` says whether the pool serves a request for n bytes, and `list_push` whether a header list takes one more
-- element; where they do not, the call returns NULL.
pub record Nginx : Type 0 where
  pub pnalloc : ℕ → Bool
  pub base64_decoded_length : ℕ → ℕ
  pub decode_base64url : Bytes → Option Bytes
  pub base64_encoded_length : ℕ → ℕ
  pub encode_base64url : Bytes → Bytes
  pub list_push : Bool
  pub strlow : Bytes → Bytes
  pub unescape_uri : Bytes → Bytes

-- nxe_json: `none` is a NULL node, or a return code other than NGX_OK.
pub record JsonLib (Json : Type 0) : Type 0 where
  pub parse_untrusted : Bytes → Option Json
  pub is_object : Json → Bool
  pub object_get : Json → Bytes → Option Json
  pub object_get_string : Json → Bytes → Option Bytes
  pub string : Json → Option Bytes
  pub boolean : Json → Option Bool

-- nxe_jwx: `none` is a NULL result, or a return code other than NGX_OK.
pub record Jwx (Token Jwks Payload : Type 0) : Type 0 where
  pub decode : Bytes → Option Token
  pub jwks_parse : Bytes → Option Jwks
  pub jwks_parse_keyval : Bytes → Option Jwks
  pub jws_verify : Token → Jwks → Bool
  pub payload : Token → Option Payload
  pub claim_string : Payload → Bytes → Option Bytes
  pub claim_integer : Payload → Bytes → Option ℤ
  pub encode : Bytes → Bytes → Bytes → Option Bytes

-- OpenSSL's key types, and the digest of a signature: SHA-256, or none for Ed25519.
pub data PkeyType : Type 0 where
  ec rsa ed25519 : PkeyType
  other : ℕ → PkeyType

pub data Md : Type 0 where
  sha256 none : Md

-- OpenSSL: `none` is a NULL result, or a return code other than 1.
pub record Openssl (Pkey : Type 0) : Type 0 where
  pub digest_sha256 : Bytes → Option Bytes
  pub d2i_pubkey : Bytes → Option Pkey
  pub i2d_pubkey : Pkey → Option Bytes
  pub base_id : Pkey → PkeyType
  pub md_ctx_new : Bool
  pub digest_verify_init : Md → Pkey → Bool
  pub digest_verify : Md → Pkey → Bytes → Bytes → ℤ
  -- `OSSL_PARAM_BLD_*`, `EVP_PKEY_fromdata` and `EVP_PKEY_new_raw_public_key`.
  pub ec_public_key : Bytes → Bytes → Option Pkey
  pub rsa_public_key : Bytes → Bytes → Option Pkey
  pub ed25519_public_key : Bytes → Option Pkey

-- libcbor. `load` is NULL, or the first item of the input, whether it was read with no error, and the bytes read.
-- `get_int` is the uint64 of an integer item: n for an unsigned one, and n for -1 - n.
pub record Loaded (Item : Type 0) : Type 0 where
  pub root : Item
  pub no_error : Bool
  pub read : ℕ

pub record Cbor (Item : Type 0) : Type 0 where
  pub load : Bytes → Option (Loaded Item)
  pub isa_uint : Item → Bool
  pub isa_negint : Item → Bool
  pub get_int : Item → ℕ
  pub isa_bytestring : Item → Bool
  pub bytestring_is_definite : Item → Bool
  pub bytestring : Item → Bytes
  pub isa_string : Item → Bool
  pub string_is_definite : Item → Bool
  pub string : Item → Bytes
  pub isa_map : Item → Bool
  pub map_pairs : Item → List (Item × Item)
  pub isa_array : Item → Bool
  pub array_size : Item → ℕ

-- hiredis: a reply, and `redisCommandArgv`, whose NULL is a connection-level error. The server, with the connection to it, is a
-- state that each command changes.
mutual
  pub data Reply : Type 0 where
    string : Bytes → Reply
    status : Bytes → Reply
    error_reply : Bytes → Reply
    integer : ℤ → Reply
    nil : Reply
    array : Replies → Reply

  pub data Replies : Type 0 where
    end : Replies
    element : Reply → Replies → Replies

abbrev pub Command : Type 0 → Type 0
Command Server = List Bytes → Server → Option Reply × Server

-- nginx core as its configuration is read: arrays, numbers, times and variables of directives, and files. `atoi` is NGX_ERROR for what is
-- no number, and `strlchr` the offset of the first such byte. A file is opened by its full name; its size may not be told, and a
-- read of so many bytes gives those that came.
pub record NginxFile : Type 0 where
  pub size : Option ℕ
  pub read : ℕ → Option Bytes

pub record NginxConf : Type 0 where
  pub pnalloc : ℕ → Bool
  pub array_create : Bool
  pub array_push : Bool
  pub atoi : Bytes → Option ℕ
  pub parse_time : Bytes → Option ℕ
  pub strlchr : Bytes → ℕ → Option ℕ
  pub compile_complex_value : Bytes → Bool
  pub full_name : Bytes → Option Bytes
  pub open_file : Bytes → Option NginxFile

-- OpenSSL's PEM: a private key from its text, and the text of its public key.
pub record Pem (Pkey : Type 0) : Type 0 where
  pub mem_buf : Bytes → Bool
  pub read_private_key : Bytes → Option Pkey
  pub mem : Bool
  pub write_pubkey : Pkey → Option Bytes
