-- ===== src/Http/Issue/Body.antt =====
-- src/ngx_http_auth_webauthn_module.c, the answer of the challenge handler.
use nginx_auth_webauthn.Base.{
  ℕ, ◌+◌, ◌*◌, Bytes, length, codes, ◌==◌, if◌then◌else◌, none, List, [], ◌∷◌, ◌++◌,
}
use nginx_auth_webauthn.Platform.{Nginx}
use nginx_auth_webauthn.Redis.{decimal}
use nginx_auth_webauthn.Http.Conf.{LocConf}
use nginx_auth_webauthn.Http.Response.{Response, send_json}
use nginx_auth_webauthn.Http.Verify.Mint.{
  Mint, go, ◌>>=◌, ◌>>◌, answer, some_or_500, room_or_500, b64url,
}

-- The names by `user_verification`, which the directive's table bounds.
abbrev pub uv_name : ℕ → Bytes
uv_name n =
    if n == 0 then codes "required" else if n == 1 then codes "preferred" else codes "discouraged"

unfoldable pub cred_text : Bytes → Bytes
cred_text id = codes "{\"type\":\"public-key\",\"id\":\"" ++ (id ++ codes "\"}")

-- A comma before each but the first.
unfoldable pub more_creds : List Bytes → Bytes
unfolding cred_text
more_creds [] = []
more_creds (id ∷ ids) = codes "," ++ (cred_text id ++ more_creds ids)

unfoldable pub creds_text : List Bytes → Bytes
unfolding cred_text more_creds
creds_text [] = []
creds_text (id ∷ ids) = cred_text id ++ more_creds ids

unfoldable pub offer_text : LocConf → Bytes → List Bytes → Bytes
unfolding creds_text
offer_text conf b64 creds =
    codes "{\"challenge\":\""
    ++ (b64
        ++ (codes "\",\"rpId\":\""
            ++ (conf.rp_id
                ++ (codes "\",\"timeout\":"
                    ++ (decimal (conf.challenge_ttl * 1000)
                        ++ (codes ",\"userVerification\":\""
                            ++ (uv_name conf.user_verification
                                ++ (codes "\",\"allowCredentials\":["
                                    ++ (creds_text creds ++ codes "]}")))))))))

abbrev pub total_length : List Bytes → ℕ
total_length [] = 0
total_length (id ∷ ids) = length id + total_length ids

abbrev pub allowcred_overhead : ℕ
allowcred_overhead = 32

unfoldable pub offer_size : LocConf → Bytes → List Bytes → ℕ
offer_size conf b64 creds =
    160
    + length b64
    + length conf.rp_id
    + length (uv_name conf.user_verification)
    + length creds * allowcred_overhead
    + total_length creds

unfoldable pub offer_steps : Nginx → LocConf → Bytes → List Bytes → Mint Response
unfolding offer_text offer_size b64url
offer_steps ng conf challenge creds = do
  b64 ← some_or_500 (b64url ng challenge)
  room_or_500 (ng.pnalloc (offer_size conf b64 creds))
  go (send_json ng 200 none (offer_text conf b64 creds))

unfoldable pub offer_response : Nginx → LocConf → Bytes → List Bytes → Response
unfolding offer_steps
offer_response ng conf challenge creds = answer (offer_steps ng conf challenge creds)
