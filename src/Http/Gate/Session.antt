-- ===== src/Http/Gate/Session.antt =====
-- Which requests the gate lets through.
use nginx_auth_webauthn.Base.{
  Bytes, bytes_eq, bytes_eq_iff, codes, Bool, true, false, Option, none, some, ◌≡◌, ◌↔◌, refl, ap,
  ◌∙◌, subst, arith,
}
use nginx_auth_webauthn.Base.Word.{ℤ}
use nginx_auth_webauthn.Platform.{Nginx, Jwx}
use nginx_auth_webauthn.Http.Conf.{LocConf}
use nginx_auth_webauthn.Http.Gate.{
  Request, Access, Check, go, ◌>>=◌, ◌>>◌, need, demand, after_time, build_jwks, check_session,
}

need_go :
    {A B : Type 0} {b : B} (o : Option A) (r : Access) (s : Bytes) (f : A → Check B)
    → (need o r s >>= f) ≡ go b
    → (a : A) × (o ≡ some a) × (f a ≡ go b)
need_go (some a) r s f h = (a, refl, h)
need_go none r s f h = cc

demand_go :
    {B : Type 0} {b : B} (t : Bool) (r : Access) (s : Bytes) (k : Check B)
    → (demand t r s >> k) ≡ go b
    → (t ≡ true) × (k ≡ go b)
demand_go true r s k h = (refl, h)
demand_go false r s k h = cc

go-injective : {A : Type 0} {a b : A} → go a ≡ go b → a ≡ b
go-injective h = cc

module _ {Token Jwks Payload : Type 0} (jwx : Jwx Token Jwks Payload) (ng : Nginx) where
  -- A session token: signed with the key of this location, minted for its relying party, and not expired.
  pub record IsSession (conf : LocConf) (req : Request) (payload : Payload) (exp : ℤ) : Type 0 where
    pub cookie : Bytes
    pub sent : req.cookie ≡ some cookie
    pub token : Token
    pub decoded : jwx.decode cookie ≡ some token
    pub jwks : Jwks
    pub key : build_jwks jwx ng conf ≡ some jwks
    pub signed : jwx.jws_verify token jwks ≡ true
    pub has_payload : jwx.payload token ≡ some payload
    pub audience : jwx.claim_string payload (codes "aud") ≡ some conf.rp_id
    pub issuer : jwx.claim_string payload (codes "iss") ≡ some (codes "nginx-webauthn")
    pub has_exp : jwx.claim_integer payload (codes "exp") ≡ some exp
    pub later : after_time req.time exp ≡ true

  -- The checks go on exactly with a cookie whose token decodes, is signed with the key of this location, names its relying
  -- party and the issuer, and expires later than now; and they yield the token's payload and expiry.
  pub check_session_iff :
      (conf : LocConf) (req : Request) (payload : Payload) (exp : ℤ)
      → (check_session jwx ng conf req ≡ go (payload, exp)) ↔ IsSession conf req payload exp
  unfolding check_session
  check_session_iff conf req payload exp = (
    λ h.
        let (cookie, sent, h1) = need_go req.cookie _ _ _ h in
        let (token, decoded, h2) = need_go (jwx.decode cookie) _ _ _ h1 in
        let (jwks, key, h3) = need_go (build_jwks jwx ng conf) _ _ _ h2 in
        let (signed, h4) = demand_go (jwx.jws_verify token jwks) _ _ _ h3 in
        let (found, has_payload, h5) = need_go (jwx.payload token) _ _ _ h4 in
        let (aud, has_aud, h6) = need_go (jwx.claim_string found (codes "aud")) _ _ _ h5 in
        let (same_aud, h7) = demand_go (bytes_eq aud conf.rp_id) _ _ _ h6 in
        let (iss, has_iss, h8) = need_go (jwx.claim_string found (codes "iss")) _ _ _ h7 in
        let (same_iss, h9) = demand_go (bytes_eq iss (codes "nginx-webauthn")) _ _ _ h8 in
        let (e, has_exp, h10) = need_go (jwx.claim_integer found (codes "exp")) _ _ _ h9 in
        let (later, h11) = demand_go (after_time req.time e) _ _ _ h10 in
        subst (λ (p : Payload × ℤ). IsSession conf req p.0 p.1) (go-injective h11)
          (record {
            cookie = cookie;
            sent = sent;
            token = token;
            decoded = decoded;
            jwks = jwks;
            key = key;
            signed = signed;
            has_payload = has_payload;
            audience = has_aud ∙ ap some ((bytes_eq_iff aud conf.rp_id).0 same_aud);
            issuer = has_iss ∙ ap some ((bytes_eq_iff iss (codes "nginx-webauthn")).0 same_iss);
            has_exp = has_exp;
            later = later;
          }),
    λ (h : IsSession conf req payload exp). ground (
      arith,
      h.sent,
      h.decoded,
      h.key,
      h.signed,
      h.has_payload,
      h.audience,
      h.issuer,
      h.has_exp,
      h.later,
      (bytes_eq_iff conf.rp_id conf.rp_id).1 refl,
      (bytes_eq_iff (codes "nginx-webauthn") (codes "nginx-webauthn")).1 refl,
    ),
  )
