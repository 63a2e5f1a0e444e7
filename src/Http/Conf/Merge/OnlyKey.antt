-- ===== src/Http/Conf/Merge/OnlyKey.antt =====
-- Loading the key of a location changes the key and nothing else.
use nginx_auth_webauthn.Base.{
  Bytes, length, ltb, ◌==◌, ◌&&◌, ◌||◌, Bool, ◌≡◌, inl, inr, refl, subst, Bool-cases,
}
use nginx_auth_webauthn.Base.Rc.{ok, bind_ok, error_guard, ok-injective}
use nginx_auth_webauthn.Platform.{NginxConf, Pem}
use nginx_auth_webauthn.Http.Conf.{LocConf, jwt_hmac}
use nginx_auth_webauthn.Http.Conf.Key.{read_file, derive_pub_pem}
use nginx_auth_webauthn.Http.Conf.Merge.{keyed, load_key}

module _ {Pkey : Type 0} (ng : NginxConf) (pem : Pem Pkey) where
  abbrev pub OnlyKey : LocConf → LocConf → Type 0
  OnlyKey conf loaded =
      loaded ≡ record conf { jwt_secret = loaded.jwt_secret; jwt_pub_pem = loaded.jwt_pub_pem }

  keyed-OnlyKey :
      (conf loaded : LocConf) (text : Bytes)
      → keyed ng pem conf text ≡ ok loaded
      → OnlyKey conf loaded
  unfolding keyed
  keyed-OnlyKey conf loaded text h = elim (Bool-cases (conf.jwt_alg_family == jwt_hmac)) [
    | inl hmac ↦
        let (long, e') = error_guard _ _ (rw hmac at h) in
        subst (OnlyKey conf) (ok-injective e') refl
    | inr asym ↦
        let (pub_pem, derived, e') =
          bind_ok (derive_pub_pem ng pem text)
            (λ pub_pem. ok (record conf { jwt_secret = text; jwt_pub_pem = pub_pem }))
            (rw asym at h) in
        subst (OnlyKey conf) (ok-injective e') refl
  ]

  abbrev pub needs_key : LocConf → Bool
  needs_key conf =
      (conf.auth || conf.verify_handler)
      && (length conf.jwt_secret == 0)
      && ltb 0 (length conf.jwt_secret_file)

  pub load_key-OnlyKey :
      (conf loaded : LocConf) → load_key ng pem conf ≡ ok loaded → OnlyKey conf loaded
  unfolding load_key
  load_key-OnlyKey conf loaded h = elim (Bool-cases (needs_key conf)) [
    | inl needed ↦
        let (text, read, e') =
          bind_ok (read_file ng conf.jwt_secret_file) (keyed ng pem conf) (rw needed at h) in
        keyed-OnlyKey conf loaded text e'
    | inr ready ↦ subst (OnlyKey conf) (ok-injective (rw ready at h)) refl
  ]
