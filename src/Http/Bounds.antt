-- ===== src/Http/Bounds.antt =====
-- src/ngx_http_auth_webauthn_module.c, the buffers that `ngx_sprintf` and `ngx_cpymem` fill.
use nginx_auth_webauthn.Redis.Digits.{length-decimal}
use nginx_auth_webauthn.Base.{
  ℕ, ◌+◌, ◌*◌, ◌≤◌, Bytes, length, length-append, codes, ◌==◌, if◌then◌else◌, Bool, List, [], ◌∷◌,
  ◌++◌, arith, Bool-cases,
}
use nginx_auth_webauthn.Http.Conf.{LocConf}
use nginx_auth_webauthn.Http.Issue.Body.{
  cred_text, more_creds, creds_text, offer_text, total_length, offer_size,
}
use nginx_auth_webauthn.Http.Verify.Mint.{samesite_name, claims_text, cookie_text, success_text}

length-cred_text : (id : Bytes) → length (cred_text id) ≤ 29 + length id
unfolding cred_text
length-cred_text id = omega (arith, length-append id (codes "\"}"))

length-more_creds :
    (ids : List Bytes) → length (more_creds ids) ≤ length ids * 32 + total_length ids
unfolding more_creds
length-more_creds [] = omega arith
length-more_creds (id ∷ ids) = omega (
  arith,
  length-append (cred_text id) (more_creds ids),
  length-cred_text id,
  length-more_creds ids,
)

length-creds_text :
    (ids : List Bytes) → length (creds_text ids) ≤ length ids * 32 + total_length ids
unfolding creds_text
length-creds_text [] = omega arith
length-creds_text (id ∷ ids) = omega (
  arith,
  length-append (cred_text id) (more_creds ids),
  length-cred_text id,
  length-more_creds ids,
)

length-domain_text :
    (domain : Bytes)
    → length (if length domain == 0 then [] else codes "; Domain=" ++ domain) ≤ 9 + length domain
length-domain_text domain =
    ground (arith, length-append (codes "; Domain=") domain, Bool-cases (length domain == 0))

length-secure_text : (secure : Bool) → length (if secure then codes "; Secure" else []) ≤ 8
length-secure_text secure = ground (arith, Bool-cases secure)

length-samesite_name : (n : ℕ) → length (samesite_name n) ≤ 6
length-samesite_name n = ground (arith, Bool-cases (n == 0), Bool-cases (n == 1))

-- The body of a challenge fits its buffer, for any number of credentials.
pub length-offer_text :
    (conf : LocConf) (b64 : Bytes) (creds : List Bytes)
    → length (offer_text conf b64 creds) ≤ offer_size conf b64 creds
unfolding offer_text offer_size
length-offer_text conf b64 creds =
    simp length-append
      (omega (arith, length-creds_text creds, length-decimal (conf.challenge_ttl * 1000)))

-- The claims, the cookie and the answer of a sign-in fit their buffers.
pub length-mint_texts :
    (conf : LocConf) (sub id jti jwt : Bytes) (now : ℕ)
    → (length (claims_text conf sub id jti now)
        ≤ 256 + length sub + length id + length conf.rp_id + length jti)
      × (length (cookie_text conf jwt)
          ≤ length conf.cookie_name
            + length jwt
            + length conf.cookie_path
            + length conf.cookie_domain
            + 128)
      × (length (success_text conf sub now) ≤ 64 + length sub)
unfolding claims_text cookie_text success_text
length-mint_texts conf sub id jti jwt now = (
  simp length-append (omega (arith, length-decimal now, length-decimal (now + conf.jwt_ttl))),
  simp length-append (
      omega (
        arith,
        length-decimal conf.jwt_ttl,
        length-samesite_name conf.cookie_samesite,
        length-secure_text conf.cookie_secure,
        length-domain_text conf.cookie_domain,
      )),
  simp length-append (omega (arith, length-decimal (now + conf.jwt_ttl))),
)
