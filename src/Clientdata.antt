-- ===== src/Clientdata.antt =====
-- src/ngx_auth_webauthn_clientdata.c: the checks on clientDataJSON.
pub mod Valid
use nginx_auth_webauthn.Base.{
  ℕ, Bytes, length, bytes_eq, codes, ◌==◌, if◌then◌else◌, Bool, true, false, not, ◌&&◌, ◌||◌,
  Option, some, none, List, [], ◌∷◌,
}
use nginx_auth_webauthn.Base.Rc.{Rc, ok, declined, error, ◌>>=◌, ◌>>◌, require, some_or}
use nginx_auth_webauthn.Platform.{Nginx, JsonLib}

-- The loop over the allow-list, left at the first match.
unfoldable pub allowed : Bytes → List Bytes → Bool
allowed origin [] = false
allowed origin (o ∷ os) = if bytes_eq origin o then true else allowed origin os

module _ {Json : Type 0} (js : JsonLib Json) where
  -- Both failures, no such member and no string, are NGX_DECLINED.
  unfoldable pub get_string : Json → Bytes → Rc Bytes
  get_string root key = do
    node ← some_or (js.object_get root key) declined
    some_or (js.string node) declined

  -- The member is there, it is a boolean, and it is true.
  unfoldable pub is_cross_origin : Json → Bool
  is_cross_origin root = elim (js.object_get root (codes "crossOrigin")) [
    | none ↦ false
    | some node ↦ elim (js.boolean node) [ none ↦ false | some flag ↦ flag ]
  ]

  -- The challenge is compared by its length first, then by its bytes.
  unfoldable pub verify : Nginx → Bytes → Bytes → Bytes → List Bytes → Rc (Unit {0})
  verify ng input expected_type expected_challenge allowed_origins = do
    root ← some_or (js.parse_untrusted input) declined
    type ← get_string root (codes "type")
    require (bytes_eq type expected_type) declined
    challenge_b64 ← get_string root (codes "challenge")
    require (ng.pnalloc (ng.base64_decoded_length (length challenge_b64))) error
    challenge ← some_or (ng.decode_base64url challenge_b64) declined
    require (length challenge == length expected_challenge && bytes_eq challenge expected_challenge)
        declined
    origin ← get_string root (codes "origin")
    require (allowed origin allowed_origins) declined
    require (not (is_cross_origin root)) declined
