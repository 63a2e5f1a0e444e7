-- ===== src/Http/Gate/Passes.antt =====
-- What a request that passes the gate has shown, and what the variables of the module then hold.
use nginx_auth_webauthn.Base.{
  Bytes, length, bytes_eq, codes, ◌==◌, if◌then◌else◌, Bool, true, false, not, Option, none, some,
  List, [], ◌≡◌, refl, ◌∙◌, arith, Option-cases,
}
use nginx_auth_webauthn.Base.Word.{ℤ}
use nginx_auth_webauthn.Platform.{Nginx, Jwx}
use nginx_auth_webauthn.Http.Conf.{LocConf}
use nginx_auth_webauthn.Http.Gate.{
  Request, Context, no_context, Access, skipped, passed, status, Check, go, stop, ◌>>=◌, ◌>>◌, need,
  demand, server_error, after_time, build_jwks, unauthorized, check_session, with_claim, finish,
  admit, access_handler,
}
use nginx_auth_webauthn.Http.Gate.Session.{IsSession, check_session_iff}

abbrev is_status : Access → Bool
is_status (status code location) = true
is_status skipped = false
is_status (passed headers) = false

-- A check that ends the request ends it with an HTTP status.
data Stops {A : Type 0} : Check A → Type 0 where
  goes : (a : A) → Stops (go a)
  ends : (r : Access) (s : Bytes) → is_status r ≡ true → Stops (stop r s)

need-Stops :
    {A B : Type 0} (o : Option A) (r : Access) (s : Bytes) {f : A → Check B}
    → is_status r ≡ true
    → ((a : A) → Stops (f a))
    → Stops (need o r s >>= f)
need-Stops none r s e k = ends _ _ e
need-Stops (some a) r s e k = k a

demand-Stops :
    {B : Type 0} (t : Bool) (r : Access) (s : Bytes) {k : Check B}
    → is_status r ≡ true
    → Stops k
    → Stops (demand t r s >> k)
demand-Stops true r s e k = k
demand-Stops false r s e k = ends _ _ e

-- The guards before the session is looked at.
guards :
    (auth room empty : Bool) (inner : Access × Option Context)
    (headers : List (Bytes × Bytes × Bytes))
    → (if not auth
        then (skipped, none)
        else if not room
        then (server_error, none)
        else if empty
        then (server_error, some no_context)
        else inner).0
      ≡ passed headers
    → (auth ≡ true)
      × (inner.0 ≡ passed headers)
      × ((if not auth
            then (skipped, none)
            else if not room
            then (server_error, none)
            else if empty
            then (server_error, some no_context)
            else inner).1
          ≡ inner.1)
guards true true false inner headers h = (refl, h, refl)
guards true true true inner headers h = cc
guards true false empty inner headers h = cc
guards false room empty inner headers h = cc

-- The text of a claim, or none.
abbrev pub text_or_empty : Option Bytes → Bytes
text_or_empty none = []
text_or_empty (some text) = text

module _ {Token Jwks Payload : Type 0} (jwx : Jwx Token Jwks Payload) (ng : Nginx) where
  unauthorized-status : (conf : LocConf) → is_status (unauthorized jwx ng conf) ≡ true
  unfolding unauthorized
  unauthorized-status conf = ground arith

  check_session-Stops : (conf : LocConf) (req : Request) → Stops (check_session jwx ng conf req)
  unfolding check_session
  check_session-Stops conf req =
      let u : is_status (unauthorized jwx ng conf) ≡ true = unauthorized-status conf in
      need-Stops req.cookie _ _ u λ cookie. need-Stops (jwx.decode cookie) _ _ u λ token.
        need-Stops (build_jwks jwx ng conf) _ _ refl λ jwks.
          demand-Stops (jwx.jws_verify token jwks) _ _ u (
            need-Stops (jwx.payload token) _ _ u λ payload.
              need-Stops (jwx.claim_string payload (codes "aud")) _ _ u λ aud.
                demand-Stops (bytes_eq aud conf.rp_id) _ _ u (
                  need-Stops (jwx.claim_string payload (codes "iss")) _ _ u λ iss.
                    demand-Stops (bytes_eq iss (codes "nginx-webauthn")) _ _ u (
                      need-Stops (jwx.claim_integer payload (codes "exp")) _ _ u
                        λ exp. demand-Stops (after_time req.time exp) _ _ u (goes (payload, exp)))))

  abbrev pub session_context : Payload → ℤ → Context
  session_context payload exp = record {
    user_id = text_or_empty (jwx.claim_string payload (codes "sub"));
    credential_id = text_or_empty (jwx.claim_string payload (codes "cid"));
    auth_status = codes "authenticated";
    jwt_exp = some exp;
  }

  admit-passed :
      (conf : LocConf) (req : Request) (payload : Payload) (exp : ℤ)
      (headers : List (Bytes × Bytes × Bytes))
      → (admit jwx ng conf req (go (payload, exp))).0 ≡ passed headers
      → (admit jwx ng conf req (go (payload, exp))).1 ≡ some (session_context payload exp)
  unfolding admit with_claim finish
  admit-passed conf req payload exp headers h = ground (
    arith,
    Option-cases (jwx.claim_string payload (codes "sub")),
    Option-cases (jwx.claim_string payload (codes "cid")),
  )

  admit-IsSession :
      (conf : LocConf) (req : Request) (m : Check (Payload × ℤ))
      (headers : List (Bytes × Bytes × Bytes))
      → Stops m
      → (admit jwx ng conf req m).0 ≡ passed headers
      → (payload : Payload) × (exp : ℤ) × (m ≡ go (payload, exp))
        × ((admit jwx ng conf req m).1 ≡ some (session_context payload exp))
  unfolding admit
  admit-IsSession conf req (go (payload, exp)) headers s h =
      (payload, exp, refl, admit-passed conf req payload exp headers h)
  admit-IsSession conf req (stop r s) headers (ends _ _ e) h = cc (rw h at e)

  -- If the gate lets a request pass, it is on, the request carries a session token of this location that has not expired, and
  -- the variables hold the claims of that token.
  pub access_handler-passed :
      (conf : LocConf) (req : Request) (headers : List (Bytes × Bytes × Bytes))
      → (access_handler jwx ng conf req).0 ≡ passed headers
      → (conf.auth ≡ true)
        × (payload : Payload) × (exp : ℤ) × IsSession jwx ng conf req payload exp
        × ((access_handler jwx ng conf req).1 ≡ some (session_context payload exp))
  unfolding access_handler
  access_handler-passed conf req headers h =
      let (on, h1, same) =
        guards conf.auth req.context_room (length conf.jwt_secret == 0)
          (admit jwx ng conf req (check_session jwx ng conf req)) headers h in
      let (payload, exp, e, ctx) =
        admit-IsSession conf req (check_session jwx ng conf req) headers
          (check_session-Stops conf req) h1 in
      (on, payload, exp, (check_session_iff jwx ng conf req payload exp).0 e, same ∙ ctx)
