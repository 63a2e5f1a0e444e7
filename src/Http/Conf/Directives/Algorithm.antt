-- ===== src/Http/Conf/Directives/Algorithm.antt =====
-- The algorithm of the session tokens and its family, from the directive through merging.
use nginx_auth_webauthn.Base.{
  ℕ, Bytes, bytes_eq, bytes_eq_iff, codes, if◌then◌else◌, Bool, true, false, Option, none, some,
  List, ◌≡◌, ◌⊎◌, inl, inr, refl, ap, subst, arith, Bool-cases,
}
use nginx_auth_webauthn.Base.Rc.{Rc, ok, declined, error}
use nginx_auth_webauthn.Platform.{NginxConf, Pem}
use nginx_auth_webauthn.Http.Conf.{LocConf, RawConf, create_loc_conf, settled, jwt_hmac, jwt_asym}
use nginx_auth_webauthn.Http.Conf.Merge.OnlyKey.{OnlyKey, load_key-OnlyKey}
use nginx_auth_webauthn.Http.Conf.Merge.{merged, merge_fields, load_key, merge_loc_conf}
use nginx_auth_webauthn.Http.Conf.Directives.{
  set, c_text, set_origin, set_set_header, set_redis, split_address, with_port, set_redis_password,
  read_password, set_jwt_alg, set_rate_limit, with_max, with_window,
}

-- HS256 is the one algorithm of its family, RS256 and ES256 are the asymmetric ones.
pub IsAlgorithm : Bytes → ℕ → Type 0
IsAlgorithm alg family =
    ((c_text alg ≡ codes "HS256") × (family ≡ jwt_hmac))
    ⊎ (((c_text alg ≡ codes "RS256") ⊎ (c_text alg ≡ codes "ES256")) × (family ≡ jwt_asym))

-- Both are unset, or they agree.
pub data Agree : Option Bytes → Option ℕ → Type 0 where
  unset : Agree none none
  given : {alg : Bytes} {family : ℕ} → IsAlgorithm alg family → Agree (some alg) (some family)

merged-IsAlgorithm :
    {a b : Option Bytes} {f g : Option ℕ}
    → Agree a f
    → Agree b g
    → IsAlgorithm (merged a b (codes "HS256")) (merged f g jwt_hmac)
unfolding c_text IsAlgorithm
merged-IsAlgorithm (given i) q = i
merged-IsAlgorithm unset (given i) = i
merged-IsAlgorithm unset unset = inl (refl, refl)

abbrev SameAlgorithm : RawConf → RawConf → Type 0
SameAlgorithm conf conf' =
    (conf'.jwt_alg ≡ conf.jwt_alg) × (conf'.jwt_alg_family ≡ conf.jwt_alg_family)

set-injective : {A : Type 0} {a b : A} → set a ≡ set b → a ≡ b
set-injective h = cc

by_name :
    (value : Bytes) (conf : RawConf) (family : ℕ)
    → IsAlgorithm value family
    → {conf' : RawConf}
    → set (record conf { jwt_alg_family = some family; jwt_alg = some value }) ≡ set conf'
    → Agree conf'.jwt_alg conf'.jwt_alg_family
by_name value conf family i h =
    subst (λ (c : RawConf). Agree c.jwt_alg c.jwt_alg_family) (set-injective h) (given i)

set_jwt_alg-Agree :
    (ng : NginxConf) (value : Bytes) (conf conf' : RawConf)
    → set_jwt_alg ng value conf ≡ set conf'
    → Agree conf'.jwt_alg conf'.jwt_alg_family
unfolding set_jwt_alg IsAlgorithm
set_jwt_alg-Agree ng value conf conf' h =
    elim (Bool-cases (bytes_eq (c_text value) (codes "HS256"))) [
      | inl hs ↦ by_name value conf jwt_hmac (inl ((bytes_eq_iff _ _).0 hs, refl)) (rw hs at h)
      | inr other ↦ elim (Bool-cases (bytes_eq (c_text value) (codes "RS256"))) [
        | inl rs ↦
            by_name value conf jwt_asym (inr (inl ((bytes_eq_iff _ _).0 rs), refl))
              (rw (other, rs) at h)
        | inr no_rs ↦ elim (Bool-cases (bytes_eq (c_text value) (codes "ES256"))) [
          | inl es ↦
              by_name value conf jwt_asym (inr (inr ((bytes_eq_iff _ _).0 es), refl))
                (rw (other, no_rs, es) at h)
          | inr no_es ↦ cc (rw (other, no_rs, no_es) at h)
        ]
      ]
    ]

module _ (ng : NginxConf) where
  keeps_redis :
      (value : Bytes) (conf conf' : RawConf)
      → set_redis ng value conf ≡ set conf'
      → SameAlgorithm conf conf'
  unfolding set_redis split_address with_port
  keeps_redis value conf conf' h = ground (arith, h)

  keeps_origin :
      (values : List Bytes) (conf conf' : RawConf)
      → set_origin ng values conf ≡ set conf'
      → SameAlgorithm conf conf'
  unfolding set_origin
  keeps_origin value conf conf' h = ground (arith, h)

  keeps_header :
      (name value : Bytes) (conf conf' : RawConf)
      → set_set_header ng name value conf ≡ set conf'
      → SameAlgorithm conf conf'
  unfolding set_set_header
  keeps_header name value conf conf' h = ground (arith, h)

  keeps_limit :
      (value : Bytes) (window : Option Bytes) (conf conf' : RawConf)
      → set_rate_limit ng value window conf ≡ set conf'
      → SameAlgorithm conf conf'
  unfolding set_rate_limit with_max with_window
  keeps_limit value window conf conf' h = ground (arith, h)

  keeps_password :
      (value : Bytes) (conf conf' : RawConf)
      → set_redis_password ng value conf ≡ set conf'
      → SameAlgorithm conf conf'
  unfolding set_redis_password
  keeps_password value conf conf' h = read _ _ h
    where
      read :
          (b : Bool) (r : Rc Bytes)
          → (if b
              then read_password ng r conf
              else set (record conf { redis_password = some value }))
            ≡ set conf'
          → SameAlgorithm conf conf'
      read true (ok text) h = ground (arith, h)
      read true declined h = cc
      read true error h = cc
      read false r h = ground (arith, h)

module _ {Pkey : Type 0} (ng : NginxConf) (pem : Pem Pkey) where
  -- How a configuration comes about: directives on a new one, in any order, and the merging of a location into its parent. nginx's own
  -- slot functions set one field of another name.
  pub data IsBuilt : RawConf → Type 0 where
    create : IsBuilt create_loc_conf
    slot : (c c' : RawConf) → IsBuilt c → SameAlgorithm c c' → IsBuilt c'
    origin :
        (values : List Bytes) (c c' : RawConf)
        → IsBuilt c
        → set_origin ng values c ≡ set c'
        → IsBuilt c'
    header :
        (name value : Bytes) (c c' : RawConf)
        → IsBuilt c
        → set_set_header ng name value c ≡ set c'
        → IsBuilt c'
    redis :
        (value : Bytes) (c c' : RawConf) → IsBuilt c → set_redis ng value c ≡ set c' → IsBuilt c'
    password :
        (value : Bytes) (c c' : RawConf)
        → IsBuilt c
        → set_redis_password ng value c ≡ set c'
        → IsBuilt c'
    algorithm :
        (value : Bytes) (c c' : RawConf) → IsBuilt c → set_jwt_alg ng value c ≡ set c' → IsBuilt c'
    limit :
        (value : Bytes) (window : Option Bytes) (c c' : RawConf)
        → IsBuilt c
        → set_rate_limit ng value window c ≡ set c'
        → IsBuilt c'
    merge :
        (prev c : RawConf) (loc : LocConf)
        → IsBuilt prev
        → IsBuilt c
        → merge_loc_conf ng pem prev c ≡ ok loc
        → IsBuilt (settled loc)

  kept :
      (c c' : RawConf)
      → SameAlgorithm c c'
      → Agree c.jwt_alg c.jwt_alg_family
      → Agree c'.jwt_alg c'.jwt_alg_family
  kept c c' (alg, family) a = rw (alg, family) a

  -- The key has no part in it.
  abbrev Same : LocConf → LocConf → Type 0
  Same conf loaded = (loaded.jwt_alg ≡ conf.jwt_alg) × (loaded.jwt_alg_family ≡ conf.jwt_alg_family)

  load_key-Same : (conf loaded : LocConf) → load_key ng pem conf ≡ ok loaded → Same conf loaded
  load_key-Same conf loaded h =
      let only : OnlyKey ng pem conf loaded = load_key-OnlyKey ng pem conf loaded h in
      (ap (λ (l : LocConf). l.jwt_alg) only, ap (λ (l : LocConf). l.jwt_alg_family) only)

  merge_loc_conf-IsAlgorithm :
      (prev c : RawConf) (loc : LocConf)
      → Agree prev.jwt_alg prev.jwt_alg_family
      → Agree c.jwt_alg c.jwt_alg_family
      → merge_loc_conf ng pem prev c ≡ ok loc
      → IsAlgorithm loc.jwt_alg loc.jwt_alg_family
  unfolding merge_loc_conf merge_fields
  merge_loc_conf-IsAlgorithm prev c loc p a h =
      let (alg, family) = load_key-Same (merge_fields prev c) loc h in
      rw (alg, family) (merged-IsAlgorithm a p)

  pub IsBuilt-Agree : (c : RawConf) → IsBuilt c → Agree c.jwt_alg c.jwt_alg_family
  IsBuilt-Agree _ create = unset
  IsBuilt-Agree _ (slot b c b' s) = kept b c s (IsBuilt-Agree b b')
  IsBuilt-Agree _ (origin values b c b' e) =
      kept b c (keeps_origin ng values b c e) (IsBuilt-Agree b b')
  IsBuilt-Agree _ (header name value b c b' e) =
      kept b c (keeps_header ng name value b c e) (IsBuilt-Agree b b')
  IsBuilt-Agree _ (redis value b c b' e) =
      kept b c (keeps_redis ng value b c e) (IsBuilt-Agree b b')
  IsBuilt-Agree _ (password value b c b' e) =
      kept b c (keeps_password ng value b c e) (IsBuilt-Agree b b')
  IsBuilt-Agree _ (algorithm value b c b' e) = set_jwt_alg-Agree ng value b c e
  IsBuilt-Agree _ (limit value window b c b' e) =
      kept b c (keeps_limit ng value window b c e) (IsBuilt-Agree b b')
  IsBuilt-Agree _ (merge prev b loc p b' e) =
      given (merge_loc_conf-IsAlgorithm prev b loc (IsBuilt-Agree prev p) (IsBuilt-Agree b b') e)

  -- However a configuration comes about: the one that a location is merged to has HS256 with the HMAC family, or RS256 or ES256 with the
  -- asymmetric one.
  pub IsBuilt-IsAlgorithm :
      (prev c : RawConf) (loc : LocConf)
      → IsBuilt prev
      → IsBuilt c
      → merge_loc_conf ng pem prev c ≡ ok loc
      → IsAlgorithm loc.jwt_alg loc.jwt_alg_family
  IsBuilt-IsAlgorithm prev c loc p b h =
      merge_loc_conf-IsAlgorithm prev c loc (IsBuilt-Agree prev p) (IsBuilt-Agree c b) h
