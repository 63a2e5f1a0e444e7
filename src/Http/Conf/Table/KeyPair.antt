-- ===== src/Http/Conf/Table/KeyPair.antt =====
-- The secret of a location and the public key beside it, through the directives and merging.
use nginx_auth_webauthn.Base.{
  ◌≤◌, Bytes, length, ltb-false, ◌==◌, ◌&&◌, ◌||◌, Bool, true, false, Option, none, some, List, [],
  ◌∷◌, ◌≡◌, ◌⊎◌, inl, inr, refl, subst, arith, Bool-cases, bytes_eq, take, drop, codes,
}
use nginx_auth_webauthn.Base.Rc.{Rc, ok, declined, error, bind_ok, error_guard, ok-injective}
use nginx_auth_webauthn.Platform.{NginxConf, Pem}
use nginx_auth_webauthn.Http.Conf.{LocConf, RawConf, jwt_hmac}
use nginx_auth_webauthn.Http.Conf.Merge.{merged, merge_fields, keyed, load_key, merge_loc_conf}
use nginx_auth_webauthn.Http.Conf.Merge.OnlyKey.{needs_key}
use nginx_auth_webauthn.Http.Conf.Key.{read_file, derive_pub_pem}
use nginx_auth_webauthn.Http.Conf.Table.Bounded.{IsConfigured, EnumLaw, created, directive, merge}
use nginx_auth_webauthn.Http.Conf.Directives.{
  Parsed, set, conf_error, message, c_text, set_origin, set_set_header, set_redis, split_address,
  with_port, set_redis_password, read_password, set_jwt_alg, set_rate_limit, with_max, with_window,
}
use nginx_auth_webauthn.Http.Conf.Table.{
  Directive, rp_id, rp_name, origin, challenge_ttl, user_verification, challenge_rate_limit, redis,
  redis_password, redis_db, redis_timeout, redis_key_prefix, jwt_secret_file, jwt_alg, jwt_ttl,
  jwt_cookie_name, jwt_cookie_domain, jwt_cookie_path, jwt_cookie_secure, jwt_cookie_samesite,
  clone_detection, auth_webauthn, signin_url, set_header, challenge_handler, verify_handler, Slots,
  Location, Handler, challenge_content, verify_content, with_handler, slot, run,
}

-- A change that leaves the key as it is.
abbrev KeepsKey : RawConf → RawConf → Type 0
KeepsKey c d = (d.jwt_secret ≡ c.jwt_secret) × (d.jwt_pub_pem ≡ c.jwt_pub_pem)

set-injective : {A : Type 0} {a b : A} → set a ≡ set b → a ≡ b
set-injective h = cc

by_slot :
    {A : Type 0} (o : Location) (r : Parsed A) (k : A → Location) (l : Location)
    → slot r k ≡ set l
    → ((a : A) → r ≡ set a → KeepsKey o.conf (k a).conf)
    → KeepsKey o.conf l.conf
unfolding slot
by_slot o (set a) k l h f =
    subst (λ (l : Location). KeepsKey o.conf l.conf) (set-injective h) (f a refl)
by_slot o conf_error k l h f = cc
by_slot o (message text) k l h f = cc

same_key : (v : Bool) (h : Handler) (l : Location) → KeepsKey l.conf (with_handler v h l).conf
same_key true h l = (refl, refl)
same_key false h l = (refl, refl)

module _ (ng : NginxConf) where
  origin-KeepsKey :
      (values : List Bytes) (c d : RawConf) → set_origin ng values c ≡ set d → KeepsKey c d
  unfolding set_origin
  origin-KeepsKey values c d h = ground (arith, h)

  header-KeepsKey :
      (name value : Bytes) (c d : RawConf) → set_set_header ng name value c ≡ set d → KeepsKey c d
  unfolding set_set_header
  header-KeepsKey name value c d h = ground (arith, h)

  redis-KeepsKey : (value : Bytes) (c d : RawConf) → set_redis ng value c ≡ set d → KeepsKey c d
  unfolding set_redis split_address with_port
  redis-KeepsKey value c d h = ground (arith, h)

  limit-KeepsKey :
      (value : Bytes) (window : Option Bytes) (c d : RawConf)
      → set_rate_limit ng value window c ≡ set d
      → KeepsKey c d
  unfolding set_rate_limit with_max with_window
  limit-KeepsKey value window c d h = ground (arith, h)

  alg-KeepsKey : (value : Bytes) (c d : RawConf) → set_jwt_alg ng value c ≡ set d → KeepsKey c d
  unfolding set_jwt_alg
  alg-KeepsKey value c d h = ground (arith, h)

  read-KeepsKey : (r : Rc Bytes) (c d : RawConf) → read_password ng r c ≡ set d → KeepsKey c d
  unfolding read_password
  read-KeepsKey (ok text) c d h = ground (arith, h)
  read-KeepsKey declined c d h = cc
  read-KeepsKey error c d h = cc

  password-KeepsKey :
      (value : Bytes) (c d : RawConf) → set_redis_password ng value c ≡ set d → KeepsKey c d
  unfolding set_redis_password
  password-KeepsKey value c d h =
      elim (Bool-cases (bytes_eq (take 5 (c_text value)) (codes "file:"))) [
        | inl e ↦ read-KeepsKey (read_file ng (drop 5 value)) c d (rw e at h)
        | inr e ↦ unfold read_password in ground (arith, rw e at h)
      ]

  module _ (slots : Slots) where
    -- No directive sets the key: only its file is named.
    run-KeepsKey :
        (d : Directive) (values : List Bytes) (l m : Location)
        → run ng slots d values l ≡ set m
        → KeepsKey l.conf m.conf
    unfolding run
    run-KeepsKey rp_id values l m h = by_slot l _ _ m h λ v e. (refl, refl)
    run-KeepsKey rp_name values l m h = by_slot l _ _ m h λ v e. (refl, refl)
    run-KeepsKey origin values l m h = by_slot l _ _ m h λ c e. origin-KeepsKey values l.conf c e
    run-KeepsKey challenge_ttl values l m h = by_slot l _ _ m h λ v e. (refl, refl)
    run-KeepsKey user_verification values l m h = by_slot l _ _ m h λ v e. (refl, refl)
    run-KeepsKey challenge_rate_limit values l m h =
        by_slot l _ _ m h λ c e. limit-KeepsKey _ _ l.conf c e
    run-KeepsKey redis values l m h = by_slot l _ _ m h λ c e. redis-KeepsKey _ l.conf c e
    run-KeepsKey redis_password values l m h =
        by_slot l _ _ m h λ c e. password-KeepsKey _ l.conf c e
    run-KeepsKey redis_db values l m h = by_slot l _ _ m h λ v e. (refl, refl)
    run-KeepsKey redis_timeout values l m h = by_slot l _ _ m h λ v e. (refl, refl)
    run-KeepsKey redis_key_prefix values l m h = by_slot l _ _ m h λ v e. (refl, refl)
    run-KeepsKey jwt_secret_file values l m h = by_slot l _ _ m h λ v e. (refl, refl)
    run-KeepsKey jwt_alg values l m h = by_slot l _ _ m h λ c e. alg-KeepsKey _ l.conf c e
    run-KeepsKey jwt_ttl values l m h = by_slot l _ _ m h λ v e. (refl, refl)
    run-KeepsKey jwt_cookie_name values l m h = by_slot l _ _ m h λ v e. (refl, refl)
    run-KeepsKey jwt_cookie_domain values l m h = by_slot l _ _ m h λ v e. (refl, refl)
    run-KeepsKey jwt_cookie_path values l m h = by_slot l _ _ m h λ v e. (refl, refl)
    run-KeepsKey jwt_cookie_secure values l m h = by_slot l _ _ m h λ v e. (refl, refl)
    run-KeepsKey jwt_cookie_samesite values l m h = by_slot l _ _ m h λ v e. (refl, refl)
    run-KeepsKey clone_detection values l m h = by_slot l _ _ m h λ v e. (refl, refl)
    run-KeepsKey auth_webauthn values l m h = by_slot l _ _ m h λ v e. (refl, refl)
    run-KeepsKey signin_url values l m h = by_slot l _ _ m h λ v e. (refl, refl)
    run-KeepsKey set_header values l m h = by_slot l _ _ m h λ c e. header-KeepsKey _ _ l.conf c e
    run-KeepsKey challenge_handler values l m h = by_slot l _ _ m h λ v e.
        same_key v challenge_content
          (record l { conf = record l.conf { challenge_handler = some v } })
    run-KeepsKey verify_handler values l m h = by_slot l _ _ m h λ v e.
        same_key v verify_content (record l { conf = record l.conf { verify_handler = some v } })

module _ {Pkey : Type 0} (ng : NginxConf) (pem : Pem Pkey) where
  -- No public key beside no secret or one of at least 32 bytes, or the public key of the private key that the secret is.
  pub IsPair : Bytes → Bytes → Type 0
  IsPair secret pub_pem =
      ((pub_pem ≡ []) × ((secret ≡ []) ⊎ (32 ≤ length secret)))
      ⊎ (derive_pub_pem ng pem secret ≡ ok pub_pem)

  -- Both are unset, or they are a pair.
  data Paired : Option Bytes → Option Bytes → Type 0 where
    unset : Paired none none
    given : {secret pub_pem : Bytes} → IsPair secret pub_pem → Paired (some secret) (some pub_pem)

  merged-IsPair :
      {a b f g : Option Bytes} → Paired a f → Paired b g → IsPair (merged a b []) (merged f g [])
  unfolding IsPair
  merged-IsPair (given i) q = i
  merged-IsPair unset (given i) = i
  merged-IsPair unset unset = inl (refl, inl refl)

  module _ (no_key : pem.read_private_key [] ≡ none) where
    none_derived : (text : Bytes) → (derive_pub_pem ng pem [] ≡ ok text) → ⊥
    unfolding derive_pub_pem
    none_derived text h = elim (Bool-cases (pem.mem_buf [])) [
      | inl on ↦ cc (rw (on, no_key) at h)
      | inr off ↦ cc (rw off at h)
    ]

    -- Without a secret there is no public key.
    bare : (pub_pem : Bytes) → IsPair [] pub_pem → pub_pem ≡ []
    unfolding IsPair
    bare pub_pem (inl (e, s)) = e
    bare pub_pem (inr derived) = absurd (none_derived pub_pem derived)

    keyed-IsPair :
        (conf loaded : LocConf) (text : Bytes)
        → conf.jwt_pub_pem ≡ []
        → keyed ng pem conf text ≡ ok loaded
        → IsPair loaded.jwt_secret loaded.jwt_pub_pem
    unfolding keyed IsPair
    keyed-IsPair conf loaded text empty h = elim (Bool-cases (conf.jwt_alg_family == jwt_hmac)) [
      | inl hmac ↦
          let (long, same) = error_guard _ _ (rw hmac at h) in
          subst (λ (l : LocConf). IsPair l.jwt_secret l.jwt_pub_pem) (ok-injective same)
            (inl (empty, inr (ltb-false _ 32 long)))
      | inr asym ↦
          let (pub_pem, derived, same) =
            bind_ok (derive_pub_pem ng pem text)
              (λ pub_pem. ok (record conf { jwt_secret = text; jwt_pub_pem = pub_pem }))
              (rw asym at h) in
          subst (λ (l : LocConf). IsPair l.jwt_secret l.jwt_pub_pem) (ok-injective same)
            (inr derived)
    ]

    empty_secret : (conf : LocConf) → needs_key ng pem conf ≡ true → conf.jwt_secret ≡ []
    empty_secret conf h = by_length conf.jwt_secret (conf.auth || conf.verify_handler) _ h
      where
        by_length :
            (s : Bytes) (used named : Bool) → (used && (length s == 0) && named) ≡ true → s ≡ []
        by_length [] used named h = refl
        by_length (b ∷ s) used named h =
            absurd (ground (arith, h, Bool-cases used, Bool-cases named))

    load_key-IsPair :
        (conf loaded : LocConf)
        → IsPair conf.jwt_secret conf.jwt_pub_pem
        → load_key ng pem conf ≡ ok loaded
        → IsPair loaded.jwt_secret loaded.jwt_pub_pem
    unfolding load_key
    load_key-IsPair conf loaded i h = elim (Bool-cases (needs_key ng pem conf)) [
      | inl needed ↦
          let (text, read, made) =
            bind_ok (read_file ng conf.jwt_secret_file) (keyed ng pem conf) (rw needed at h) in
          keyed-IsPair conf loaded text
            (bare conf.jwt_pub_pem
              (subst (λ s. IsPair s conf.jwt_pub_pem) (empty_secret conf needed) i))
            made
      | inr ready ↦
          subst (λ (l : LocConf). IsPair l.jwt_secret l.jwt_pub_pem) (ok-injective (rw ready at h))
            i
    ]

    merge-IsPair :
        (prev conf : RawConf) (loc : LocConf)
        → Paired prev.jwt_secret prev.jwt_pub_pem
        → Paired conf.jwt_secret conf.jwt_pub_pem
        → merge_loc_conf ng pem prev conf ≡ ok loc
        → IsPair loc.jwt_secret loc.jwt_pub_pem
    unfolding merge_loc_conf merge_fields
    merge-IsPair prev conf loc p c h =
        load_key-IsPair (merge_fields prev conf) loc (merged-IsPair c p) h

    module _ (slots : Slots) (law : EnumLaw slots) where
      configured :
          (c : RawConf) → IsConfigured ng slots law pem c → Paired c.jwt_secret c.jwt_pub_pem
      configured _ created = unset
      configured _ (directive d values l m c e) =
          let (secret, pub_pem) = run-KeepsKey ng slots d values l m e in
          rw (secret, pub_pem) (configured l.conf c)
      configured _ (merge prev conf loc p c e) =
          given (merge-IsPair prev conf loc (configured prev p) (configured conf c) e)

      -- Where an empty text is no private key: whatever directives a location and its parents have, in whatever order, the location
      -- that is merged has no public key, and no secret or one of at least 32 bytes, or it has the public key of the private key that its secret is.
      pub merge_loc_conf-IsPair :
          (prev conf : RawConf) (loc : LocConf)
          → IsConfigured ng slots law pem prev
          → IsConfigured ng slots law pem conf
          → merge_loc_conf ng pem prev conf ≡ ok loc
          → IsPair loc.jwt_secret loc.jwt_pub_pem
      merge_loc_conf-IsPair prev conf loc p c h =
          merge-IsPair prev conf loc (configured prev p) (configured conf c) h
