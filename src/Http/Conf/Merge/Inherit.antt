-- ===== src/Http/Conf/Merge/Inherit.antt =====
-- What a location gets from its parent.
use nginx_auth_webauthn.Base.{
  Bytes, length, ltb, ◌==◌, false, ◌&&◌, ◌||◌, none, [], ◌∷◌, ◌≡◌, ◌≢◌, refl, arith, Bool-cases,
}
use nginx_auth_webauthn.Base.Rc.{ok}
use nginx_auth_webauthn.Platform.{NginxConf, Pem}
use nginx_auth_webauthn.Http.Conf.{LocConf, RawConf, create_loc_conf, settled}
use nginx_auth_webauthn.Http.Conf.Merge.{merge_fields, load_key, merge_loc_conf}

secret_set : (s : Bytes) → s ≢ [] → (length s == 0) ≡ false
secret_set [] h = absurd (h refl)
secret_set (b ∷ s) h = ground arith

module _ {Pkey : Type 0} (ng : NginxConf) (pem : Pem Pkey) where
  -- A location without directives gets the configuration of its parent, and reads no file where the parent has its key or has no use
  -- of one.
  pub merge_loc_conf-inherits :
      (conf : LocConf)
      → ((conf.auth || conf.verify_handler)
          && (length conf.jwt_secret == 0)
          && ltb 0 (length conf.jwt_secret_file))
        ≡ false
      → merge_loc_conf ng pem (settled conf) create_loc_conf ≡ ok conf
  unfolding merge_loc_conf load_key merge_fields
  merge_loc_conf-inherits conf h = rw h

  load_key_done :
      (conf : LocConf) → (length conf.jwt_secret == 0) ≡ false → load_key ng pem conf ≡ ok conf
  unfolding load_key
  load_key_done conf h = rw h (ground (arith, Bool-cases (conf.auth || conf.verify_handler)))

  -- A parent's loaded secret is the child's, with the parent's public key, whatever file and algorithm the child names.
  pub merge_loc_conf-keeps_secret :
      (prev : LocConf) (conf : RawConf)
      → prev.jwt_secret ≢ []
      → conf.jwt_secret ≡ none
      → conf.jwt_pub_pem ≡ none
      → merge_loc_conf ng pem (settled prev) conf ≡ ok (merge_fields (settled prev) conf)
        × ((merge_fields (settled prev) conf).jwt_secret ≡ prev.jwt_secret)
        × ((merge_fields (settled prev) conf).jwt_pub_pem ≡ prev.jwt_pub_pem)
  unfolding merge_loc_conf load_key merge_fields
  merge_loc_conf-keeps_secret prev conf h s p = (
    load_key_done (merge_fields (settled prev) conf) (rw s (secret_set prev.jwt_secret h)),
    rw s refl,
    rw p refl,
  )
