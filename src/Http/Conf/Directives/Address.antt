-- ===== src/Http/Conf/Directives/Address.antt =====
-- The Redis address that `auth_webauthn_redis` takes.
use nginx_auth_webauthn.Base.{
  ℕ, ◌+◌, ◌-◌, ◌≤◌, ◌<◌, Bytes, length, drop, take, take-append, length-take, drop_past,
  length-append, ltb, ◌==◌, if◌then◌else◌, Bool, true, false, ◌||◌, not, Option, none, some, [],
  ◌∷◌, ◌++◌, ◌≡◌, ◌≢◌, refl, sym, ap, arith,
}
use nginx_auth_webauthn.Platform.{NginxConf}
use nginx_auth_webauthn.Http.Conf.{RawConf}
use nginx_auth_webauthn.Http.Conf.Directives.{
  Parsed, set, message, length_of, with_port, split_address, set_redis,
}

-- The host and the port in the configuration, from the text of the directive.
pub record IsAddress (value : Bytes) (conf conf' : RawConf) : Type 0 where
  pub host : Bytes
  pub port : ℕ
  pub host_set : host ≢ []
  pub host_start : host ≡ take (length host) value
  pub low : 1 ≤ port
  pub high : port ≤ 65535
  pub sets :
      conf' ≡ record conf { redis_url = some value; redis_host = some host; redis_port = some port }

set-injective : {A : Type 0} {a b : A} → set a ≡ set b → a ≡ b
set-injective h = cc

nonempty : (s : Bytes) → s ≢ [] → 1 ≤ length s
nonempty [] h = absurd (h refl)
nonempty (b ∷ s) h = omega arith

taken :
    (n : ℕ) (s : Bytes)
    → n ≢ 0
    → n < length s
    → (take n s ≢ []) × (take n s ≡ take (length (take n s)) s)
taken n s nonzero within =
    let len : length (take n s) ≡ n = omega (arith, length-take n s, within) in
    (
      λ e. absurd (omega (arith, len, ap (λ (l : Bytes). length l) e, nonzero)),
      sym (ap (λ k. take k s) len),
    )

-- A directive that passed a guard.
accepted :
    (b : Bool) (text : Bytes) (x : Parsed RawConf) {conf : RawConf}
    → (if b then message text else x) ≡ set conf
    → (b ≡ false) × (x ≡ set conf)
accepted true text x h = cc
accepted false text x h = (refl, h)

module _ (ng : NginxConf) where
  port_sets :
      (value host : Bytes) (port : ℕ) (conf : RawConf)
      → 1 ≤ port
      → port ≤ 65535
      → with_port ng value host (some port) conf
        ≡ set
            (record conf { redis_url = some value; redis_host = some host; redis_port = some port })
  unfolding with_port
  port_sets value host port conf low high = ground (arith, low, high)

  in_the_middle :
      (host digits : Bytes)
      → host ≢ []
      → digits ≢ []
      → (length host == 0 || length host == length (host ++ (58 ∷ digits)) - 1) ≡ false
  in_the_middle host digits h d =
      ground (arith, nonempty host h, nonempty digits d, length-append host (58 ∷ digits))

  -- A host and a port of 1 to 65535 are read back from <host>:<port>, where the colon is found behind the host and the digits are
  -- the port.
  pub set_redis_reads :
      (conf : RawConf) (host digits : Bytes) (port : ℕ)
      → conf.redis_host ≡ none
      → host ≢ []
      → digits ≢ []
      → ng.strlchr (host ++ (58 ∷ digits)) 58 ≡ some (length host)
      → ng.atoi digits ≡ some port
      → 1 ≤ port
      → port ≤ 65535
      → set_redis ng (host ++ (58 ∷ digits)) conf
        ≡ set (record conf {
          redis_url = some (host ++ (58 ∷ digits));
          redis_host = some host;
          redis_port = some port;
        })
  unfolding set_redis split_address with_port
  set_redis_reads conf host digits port unset h d colon number low high =
      rw
        (
          unset,
          colon,
          in_the_middle host digits h d,
          take-append host (58 ∷ digits),
          drop_past host (58 ∷ digits) (length host) 1 refl,
          number,
        )
        (port_sets (host ++ (58 ∷ digits)) host port (record conf { redis_host = none }) low high)

  with_port-IsAddress :
      (value host : Bytes) (p : Option ℕ) (conf conf' : RawConf)
      → host ≢ []
      → host ≡ take (length host) value
      → with_port ng value host p conf ≡ set conf'
      → IsAddress value conf conf'
  unfolding with_port
  with_port-IsAddress value host none conf conf' h start e = cc
  with_port-IsAddress value host (some port) conf conf' h start e =
      let (bad, same) = accepted (port == 0 || ltb 65535 port) _ _ e in
      record {
        host = host;
        port = port;
        host_set = h;
        host_start = start;
        low = ground (arith, bad);
        high = ground (arith, bad);
        sets = sym (set-injective same);
      }

  split_address-IsAddress :
      (value : Bytes) (colon : Option ℕ) (conf conf' : RawConf)
      → ((i : ℕ) → colon ≡ some i → i < length value)
      → split_address ng value colon conf ≡ set conf'
      → IsAddress value conf conf'
  unfolding split_address
  split_address-IsAddress value none conf conf' found e = cc
  split_address-IsAddress value (some i) conf conf' found e =
      let (bad, same) = accepted (i == 0 || i == length value - 1) _ _ e in
      let (some_host, start) = taken i value (λ zero. ground (arith, bad, zero)) (found i refl) in
      with_port-IsAddress value (take i value) (ng.atoi (drop (i + 1) value)) conf conf' some_host
        start same

  -- Where a colon is found inside the text: what the directive accepts has a host that is not empty and a port of 1 to 65535, and
  -- the host is a beginning of the text.
  pub set_redis-IsAddress :
      (value : Bytes) (conf conf' : RawConf)
      → ((i : ℕ) → ng.strlchr value 58 ≡ some i → i < length value)
      → set_redis ng value conf ≡ set conf'
      → IsAddress value conf conf'
  unfolding set_redis
  set_redis-IsAddress value conf conf' found e =
      split_address-IsAddress value (ng.strlchr value 58) conf conf' found
        (accepted (not (length_of conf.redis_host == 0)) _ _ e).1
