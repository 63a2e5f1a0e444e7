-- ===== src/Http/Verify/Body.antt =====
-- src/ngx_http_auth_webauthn_module.c, what the verify handler reads of the request: the body, and the assertion in it.
use nginx_auth_webauthn.Base.{
  ℕ, ◌*◌, Bytes, length, codes, ltb, ◌==◌, Bool, false, not, ◌||◌, Option, none, some, List, [],
  ◌∷◌, ◌++◌,
}
use nginx_auth_webauthn.Base.Rc.{Rc, ok, error, ◌>>=◌, ◌>>◌, require, some_or}
use nginx_auth_webauthn.Platform.{Nginx, JsonLib}
use nginx_auth_webauthn.Assertion.{Assertion}

abbrev pub max_body : ℕ
max_body = 64 * 1024

-- A buffer of the body: its bytes, and whether it is in a file.
abbrev pub Buf : Type 0
Buf = Bytes × Bool

unfoldable pub any_in_file : List Buf → Bool
any_in_file [] = false
any_in_file ((bytes, in_file) ∷ bufs) = in_file || any_in_file bufs

unfoldable pub concat : List Buf → Bytes
concat [] = []
concat ((bytes, in_file) ∷ bufs) = bytes ++ concat bufs

-- What the client sent: the credential id, the assertion, and the challenge that its client data names.
pub record SignIn : Type 0 where
  pub id : Bytes
  pub assertion : Assertion
  pub challenge : Bytes

module _ (ng : Nginx) where
  -- `none` is a request without a body.
  unfoldable pub read_body : Option (List Buf) → Rc Bytes
  unfolding any_in_file concat
  read_body none = error
  read_body (some bufs) = do
    require (not (any_in_file bufs)) error
    let body = concat bufs
    require (not (length body == 0 || ltb max_body (length body))) error
    require (ng.pnalloc (length body)) error
    ok body

  module _ {Json : Type 0} (js : JsonLib Json) where
    -- A text field that is not empty, decoded.
    unfoldable pub b64url_field : Json → Bytes → Rc Bytes
    b64url_field obj name = do
      enc ← some_or (js.object_get_string obj name) error
      require (not (length enc == 0)) error
      require (ng.pnalloc (ng.base64_decoded_length (length enc))) error
      some_or (ng.decode_base64url enc) error

    unfoldable pub parse_object : Bytes → Rc Json
    parse_object input = do
      root ← some_or (js.parse_untrusted input) error
      require (js.is_object root) error
      ok root

    -- Every failure is answered alike.
    unfoldable pub parse_sign_in : Bytes → Rc SignIn
    parse_sign_in body = do
      root ← parse_object body
      id ← some_or (js.object_get_string root (codes "id")) error
      require (not (length id == 0)) error
      response ← some_or (js.object_get root (codes "response")) error
      require (js.is_object response) error
      client_data_json ← b64url_field response (codes "clientDataJSON")
      authenticator_data ← b64url_field response (codes "authenticatorData")
      signature ← b64url_field response (codes "signature")
      cdj ← parse_object client_data_json
      challenge_b64 ← some_or (js.object_get_string cdj (codes "challenge")) error
      require (ng.pnalloc (ng.base64_decoded_length (length challenge_b64))) error
      challenge ← some_or (ng.decode_base64url challenge_b64) error
      ok (record {
        id = id;
        assertion = record {
          authenticator_data = authenticator_data;
          client_data_json = client_data_json;
          signature = signature;
        };
        challenge = challenge;
      })

    -- The body as a sign-in.
    unfoldable pub sign_in_of : Option (List Buf) → Rc SignIn
    unfolding read_body parse_sign_in
    sign_in_of bufs = read_body bufs >>= parse_sign_in
