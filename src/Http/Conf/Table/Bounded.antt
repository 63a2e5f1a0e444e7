-- ===== src/Http/Conf/Table/Bounded.antt =====
-- The choices that a configuration holds are among those of the directives' tables.
use nginx_auth_webauthn.Base.{
  ℕ, ◌≤◌, Bytes, Bool, true, false, Option, none, some, List, [], ◌∷◌, ◌≡◌, ◌⊎◌, inl, inr, refl,
  sym, ap, subst, arith, Bool-cases, bytes_eq, take, drop, codes,
}
use nginx_auth_webauthn.Base.Rc.{Rc, ok, declined, error}
use nginx_auth_webauthn.Platform.{NginxConf, Pem}
use nginx_auth_webauthn.Http.Conf.{LocConf, RawConf, create_loc_conf, settled}
use nginx_auth_webauthn.Http.Conf.Merge.OnlyKey.{OnlyKey, load_key-OnlyKey}
use nginx_auth_webauthn.Http.Conf.Merge.{merged, merge_fields, merge_loc_conf}
use nginx_auth_webauthn.Http.Conf.Key.{read_file}
use nginx_auth_webauthn.Http.Conf.Directives.{
  Parsed, set, conf_error, message, c_text, set_origin, set_set_header, set_redis, split_address,
  with_port, set_redis_password, read_password, set_jwt_alg, set_rate_limit, with_max, with_window,
}
use nginx_auth_webauthn.Http.Conf.Table.{
  Directive, rp_id, rp_name, origin, challenge_ttl, user_verification, challenge_rate_limit, redis,
  redis_password, redis_db, redis_timeout, redis_key_prefix, jwt_secret_file, jwt_alg, jwt_ttl,
  jwt_cookie_name, jwt_cookie_domain, jwt_cookie_path, jwt_cookie_secure, jwt_cookie_samesite,
  clone_detection, auth_webauthn, signin_url, set_header, challenge_handler, verify_handler, Slots,
  Location, Handler, challenge_content, verify_content, with_handler, slot, run,
}

-- A choice that is made is one of three.
abbrev pub Chosen : Option ℕ → Type 0
Chosen o = (n : ℕ) → o ≡ some n → n ≤ 2

pub record IsBounded (c : RawConf) : Type 0 where
  pub verification : Chosen c.user_verification
  pub samesite : Chosen c.cookie_samesite
  pub clone : Chosen c.clone_detection

-- nginx's slot of an enumeration sets the number of a name of its table.
abbrev pub IsValue : List (Bytes × ℕ) → ℕ → Type 0
IsValue [] n = ⊥
IsValue ((name, v) ∷ rest) n = (n ≡ v) ⊎ IsValue rest n

abbrev pub EnumLaw : Slots → Type 0
EnumLaw slots =
    (table : List (Bytes × ℕ)) (old : Option ℕ) (arg : Bytes) (n : ℕ)
    → slots.enum_slot table old arg ≡ set n
    → IsValue table n

some-injective : {A : Type 0} {a b : A} → some a ≡ some b → a ≡ b
some-injective h = cc

set-injective : {A : Type 0} {a b : A} → set a ≡ set b → a ≡ b
set-injective h = cc

by_slot :
    {A : Type 0} (r : Parsed A) (k : A → Location) (l : Location)
    → slot r k ≡ set l
    → ((a : A) → r ≡ set a → IsBounded (k a).conf)
    → IsBounded l.conf
unfolding slot
by_slot (set a) k l h f = subst (λ (l : Location). IsBounded l.conf) (set-injective h) (f a refl)
by_slot conf_error k l h f = cc
by_slot (message text) k l h f = cc

-- A change that leaves the three choices as they are.
abbrev Keeps : RawConf → RawConf → Type 0
Keeps c d =
    (d.user_verification ≡ c.user_verification)
    × (d.cookie_samesite ≡ c.cookie_samesite)
    × (d.clone_detection ≡ c.clone_detection)

kept-IsBounded : (c d : RawConf) → IsBounded c → Keeps c d → IsBounded d
kept-IsBounded c d b (v, s, k) = record {
  verification = subst Chosen (sym v) b.verification;
  samesite = subst Chosen (sym s) b.samesite;
  clone = subst Chosen (sym k) b.clone;
}

module _ (ng : NginxConf) where
  origin-Keeps : (values : List Bytes) (c d : RawConf) → set_origin ng values c ≡ set d → Keeps c d
  unfolding set_origin
  origin-Keeps values c d h = ground (arith, h)

  header-Keeps :
      (name value : Bytes) (c d : RawConf) → set_set_header ng name value c ≡ set d → Keeps c d
  unfolding set_set_header
  header-Keeps name value c d h = ground (arith, h)

  redis-Keeps : (value : Bytes) (c d : RawConf) → set_redis ng value c ≡ set d → Keeps c d
  unfolding set_redis split_address with_port
  redis-Keeps value c d h = ground (arith, h)

  limit-Keeps :
      (value : Bytes) (window : Option Bytes) (c d : RawConf)
      → set_rate_limit ng value window c ≡ set d
      → Keeps c d
  unfolding set_rate_limit with_max with_window
  limit-Keeps value window c d h = ground (arith, h)

  alg-Keeps : (value : Bytes) (c d : RawConf) → set_jwt_alg ng value c ≡ set d → Keeps c d
  unfolding set_jwt_alg
  alg-Keeps value c d h = ground (arith, h)

  read-Keeps : (r : Rc Bytes) (c d : RawConf) → read_password ng r c ≡ set d → Keeps c d
  unfolding read_password
  read-Keeps (ok text) c d h = ground (arith, h)
  read-Keeps declined c d h = cc
  read-Keeps error c d h = cc

  password-Keeps :
      (value : Bytes) (c d : RawConf) → set_redis_password ng value c ≡ set d → Keeps c d
  unfolding set_redis_password
  password-Keeps value c d h =
      elim (Bool-cases (bytes_eq (take 5 (c_text value)) (codes "file:"))) [
        | inl e ↦ read-Keeps (read_file ng (drop 5 value)) c d (rw e at h)
        | inr e ↦ unfold read_password in ground (arith, rw e at h)
      ]

  module _ (slots : Slots) (law : EnumLaw slots) where
    enum_bounded :
        (a b c : Bytes) (old : Option ℕ) (arg : Bytes) (n : ℕ)
        → slots.enum_slot ((a, 0) ∷ (b, 1) ∷ (c, 2) ∷ []) old arg ≡ set n
        → Chosen (some n)
    enum_bounded a b c old arg n h m e = ground (arith, law _ old arg n h, e)

    same_choices :
        (v : Bool) (h : Handler) (l : Location)
        → IsBounded l.conf
        → IsBounded (with_handler v h l).conf
    same_choices true h l b = b
    same_choices false h l b = b

    run-IsBounded :
        (d : Directive) (values : List Bytes) (l m : Location)
        → IsBounded l.conf
        → run ng slots d values l ≡ set m
        → IsBounded m.conf
    unfolding run
    run-IsBounded rp_id values l m b h =
        by_slot _ _ m h
          λ v e. record { verification = b.verification; samesite = b.samesite; clone = b.clone }
    run-IsBounded rp_name values l m b h =
        by_slot _ _ m h
          λ v e. record { verification = b.verification; samesite = b.samesite; clone = b.clone }
    run-IsBounded origin values l m b h =
        by_slot _ _ m h λ c e. kept-IsBounded l.conf c b (origin-Keeps values l.conf c e)
    run-IsBounded challenge_ttl values l m b h =
        by_slot _ _ m h
          λ v e. record { verification = b.verification; samesite = b.samesite; clone = b.clone }
    run-IsBounded user_verification values l m b h = by_slot _ _ m h λ v e. record {
      verification = enum_bounded _ _ _ _ _ v e;
      samesite = b.samesite;
      clone = b.clone;
    }
    run-IsBounded challenge_rate_limit values l m b h =
        by_slot _ _ m h λ c e. kept-IsBounded l.conf c b (limit-Keeps _ _ l.conf c e)
    run-IsBounded redis values l m b h =
        by_slot _ _ m h λ c e. kept-IsBounded l.conf c b (redis-Keeps _ l.conf c e)
    run-IsBounded redis_password values l m b h =
        by_slot _ _ m h λ c e. kept-IsBounded l.conf c b (password-Keeps _ l.conf c e)
    run-IsBounded redis_db values l m b h =
        by_slot _ _ m h
          λ v e. record { verification = b.verification; samesite = b.samesite; clone = b.clone }
    run-IsBounded redis_timeout values l m b h =
        by_slot _ _ m h
          λ v e. record { verification = b.verification; samesite = b.samesite; clone = b.clone }
    run-IsBounded redis_key_prefix values l m b h =
        by_slot _ _ m h
          λ v e. record { verification = b.verification; samesite = b.samesite; clone = b.clone }
    run-IsBounded jwt_secret_file values l m b h =
        by_slot _ _ m h
          λ v e. record { verification = b.verification; samesite = b.samesite; clone = b.clone }
    run-IsBounded jwt_alg values l m b h =
        by_slot _ _ m h λ c e. kept-IsBounded l.conf c b (alg-Keeps _ l.conf c e)
    run-IsBounded jwt_ttl values l m b h =
        by_slot _ _ m h
          λ v e. record { verification = b.verification; samesite = b.samesite; clone = b.clone }
    run-IsBounded jwt_cookie_name values l m b h =
        by_slot _ _ m h
          λ v e. record { verification = b.verification; samesite = b.samesite; clone = b.clone }
    run-IsBounded jwt_cookie_domain values l m b h =
        by_slot _ _ m h
          λ v e. record { verification = b.verification; samesite = b.samesite; clone = b.clone }
    run-IsBounded jwt_cookie_path values l m b h =
        by_slot _ _ m h
          λ v e. record { verification = b.verification; samesite = b.samesite; clone = b.clone }
    run-IsBounded jwt_cookie_secure values l m b h =
        by_slot _ _ m h
          λ v e. record { verification = b.verification; samesite = b.samesite; clone = b.clone }
    run-IsBounded jwt_cookie_samesite values l m b h = by_slot _ _ m h λ v e. record {
      verification = b.verification;
      samesite = enum_bounded _ _ _ _ _ v e;
      clone = b.clone;
    }
    run-IsBounded clone_detection values l m b h = by_slot _ _ m h λ v e. record {
      verification = b.verification;
      samesite = b.samesite;
      clone = enum_bounded _ _ _ _ _ v e;
    }
    run-IsBounded auth_webauthn values l m b h =
        by_slot _ _ m h
          λ v e. record { verification = b.verification; samesite = b.samesite; clone = b.clone }
    run-IsBounded signin_url values l m b h =
        by_slot _ _ m h
          λ v e. record { verification = b.verification; samesite = b.samesite; clone = b.clone }
    run-IsBounded set_header values l m b h =
        by_slot _ _ m h λ c e. kept-IsBounded l.conf c b (header-Keeps _ _ l.conf c e)
    run-IsBounded challenge_handler values l m b h = by_slot _ _ m h λ v e.
        same_choices v challenge_content
          (record l { conf = record l.conf { challenge_handler = some v } })
          (record { verification = b.verification; samesite = b.samesite; clone = b.clone })
    run-IsBounded verify_handler values l m b h = by_slot _ _ m h λ v e.
        same_choices v verify_content
          (record l { conf = record l.conf { verify_handler = some v } })
          (record { verification = b.verification; samesite = b.samesite; clone = b.clone })

    merged_bounded :
        (a b : Option ℕ) (default : ℕ) → Chosen a → Chosen b → default ≤ 2 → merged a b default ≤ 2
    merged_bounded (some n) b default ha hb h = ha n refl
    merged_bounded none (some n) default ha hb h = hb n refl
    merged_bounded none none default ha hb h = h

    -- How the configuration of a location comes about: directives in any order, on a new configuration or on one that was merged
    -- into its parent.
    pub data IsConfigured {Pkey : Type 0} (pem : Pem Pkey) : RawConf → Type 0 where
      created : IsConfigured pem create_loc_conf
      directive :
          (d : Directive) (values : List Bytes) (l m : Location)
          → IsConfigured pem l.conf
          → run ng slots d values l ≡ set m
          → IsConfigured pem m.conf
      merge :
          (prev conf : RawConf) (merged_conf : LocConf)
          → IsConfigured pem prev
          → IsConfigured pem conf
          → merge_loc_conf ng pem prev conf ≡ ok merged_conf
          → IsConfigured pem (settled merged_conf)

    module _ {Pkey : Type 0} (pem : Pem Pkey) where
      merge-Chosen :
          (prev conf : RawConf) (merged_conf : LocConf)
          → IsBounded prev
          → IsBounded conf
          → merge_loc_conf ng pem prev conf ≡ ok merged_conf
          → (merged_conf.user_verification ≤ 2)
            × (merged_conf.cookie_samesite ≤ 2)
            × (merged_conf.clone_detection ≤ 2)
      unfolding merge_loc_conf merge_fields
      merge-Chosen prev conf merged_conf p c h =
          let only : OnlyKey ng pem (merge_fields prev conf) merged_conf =
            load_key-OnlyKey ng pem (merge_fields prev conf) merged_conf h in
          (
            subst (λ n. n ≤ 2) (sym (ap (λ (l : LocConf). l.user_verification) only))
                (merged_bounded conf.user_verification prev.user_verification 1 c.verification
                  p.verification (omega arith)),
            subst (λ n. n ≤ 2) (sym (ap (λ (l : LocConf). l.cookie_samesite) only))
                (merged_bounded conf.cookie_samesite prev.cookie_samesite 0 c.samesite p.samesite
                  (omega arith)),
            subst (λ n. n ≤ 2) (sym (ap (λ (l : LocConf). l.clone_detection) only))
                (merged_bounded conf.clone_detection prev.clone_detection 0 c.clone p.clone
                  (omega arith)),
          )

      IsConfigured-IsBounded : (c : RawConf) → IsConfigured pem c → IsBounded c
      IsConfigured-IsBounded _ created = record {
        verification = λ n e. cc;
        samesite = λ n e. cc;
        clone = λ n e. cc;
      }
      IsConfigured-IsBounded _ (directive d values l m c e) =
          run-IsBounded d values l m (IsConfigured-IsBounded l.conf c) e
      IsConfigured-IsBounded _ (merge prev conf merged_conf p c e) =
          let (v, s, k) =
            merge-Chosen prev conf merged_conf (IsConfigured-IsBounded prev p)
              (IsConfigured-IsBounded conf c) e in
          record {
            verification = λ n h. omega (arith, some-injective h, v);
            samesite = λ n h. omega (arith, some-injective h, s);
            clone = λ n h. omega (arith, some-injective h, k);
          }

      -- Where nginx's slot of an enumeration sets a value of its table: whatever directives a location and its parents
      -- have, in whatever order, the location that is merged has one of the three user verifications, clone detections and
      -- SameSite values, so the table of the SameSite names is read within its bounds.
      pub merge_loc_conf-chooses :
          (prev conf : RawConf) (merged_conf : LocConf)
          → IsConfigured pem prev
          → IsConfigured pem conf
          → merge_loc_conf ng pem prev conf ≡ ok merged_conf
          → (merged_conf.user_verification ≤ 2)
            × (merged_conf.cookie_samesite ≤ 2)
            × (merged_conf.clone_detection ≤ 2)
      merge_loc_conf-chooses prev conf merged_conf p c h =
          merge-Chosen prev conf merged_conf (IsConfigured-IsBounded prev p)
            (IsConfigured-IsBounded conf c) h
