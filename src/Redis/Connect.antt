-- ===== src/Redis/Connect.antt =====
-- The Redis client, `redis_connect`: the string keys that a connection finds.
use nginx_auth_webauthn.Base.{
  ℕ, Bytes, if◌then◌else◌, Bool, true, false, Option, none, some, ◌≡◌, ◌⊎◌, inl, inr, refl,
}
use nginx_auth_webauthn.Base.Rc.{Rc, ok, declined, error}
use nginx_auth_webauthn.Platform.{Nginx, Command}
use nginx_auth_webauthn.Redis.{
  Client, Exec, RedisConf, ◌>>◌, with_number, redis_close, redis_connect, on_dialled, closing,
  or_close, authenticate, select_db,
}
use nginx_auth_webauthn.Redis.Laws.{StringLaws, Adds, Adds-bind, adds_rules}

-- A new connection finds no string key that was not there.
pub record DialLaws {Server : Type 0} (dial : Bytes → ℕ → Server → Option Server)
    (present : Server → Bytes → Bool) : Type 0 where
  pub keeps :
      (host : Bytes) (port : ℕ) (s t : Server) (j : Bytes)
      → dial host port s ≡ some t
      → present t j ≡ true
      → present s j ≡ true

module _ {Server : Type 0} (ng : Nginx) (command : Command Server) (present : Server → Bytes → Bool)
    (laws : StringLaws command present) where
  closing-server :
      (r : Rc (Unit {0})) (c : Client Server) → (closing ng command r c).1.server ≡ c.server
  unfolding closing redis_close
  closing-server (ok u) c = refl
  closing-server declined c = refl
  closing-server error c = refl

  Adds-or_close :
      (m : Exec Server (Unit {0}))
      → Adds ng command present laws none m
      → Adds ng command present laws none (or_close ng command m)
  unfolding or_close
  Adds-or_close m a = record { at = λ c j h. a.at c j (rw closing-server at h) }

  Adds-authenticate :
      (conf : RedisConf) → Adds ng command present laws none (authenticate ng command conf)
  unfolding authenticate
  Adds-authenticate conf = search (adds_rules, Adds-or_close)

  Adds-select_db :
      (conf : RedisConf) → Adds ng command present laws none (select_db ng command conf)
  unfolding select_db with_number
  Adds-select_db conf = search (adds_rules, Adds-or_close)

  module _ (dial : Bytes → ℕ → Server → Option Server) (opens : DialLaws dial present) where
    on_dialled-present :
        (conf : RedisConf) (c : Client Server) (r : Option Server) (j : Bytes)
        → dial conf.host conf.port c.server ≡ r
        → present (on_dialled ng command conf c r).1.server j ≡ true
        → present c.server j ≡ true
    unfolding on_dialled
    on_dialled-present conf c none j e h = h
    on_dialled-present conf c (some s) j e h = kept (opened.at _ j h)
      where
        opened :
            Adds ng command present laws none
              (authenticate ng command conf >> select_db ng command conf)
        opened =
            Adds-bind ng command present laws (authenticate ng command conf)
              (λ _. select_db ng command conf) (Adds-authenticate conf) λ _. Adds-select_db conf

        kept : (present s j ≡ true) ⊎ (none ≡ some j) → present c.server j ≡ true
        kept (inl p) = opens.keeps conf.host conf.port c.server s j e p
        kept (inr e) = cc

    pub Adds-redis_connect :
        (conf : RedisConf) → Adds ng command present laws none (redis_connect ng command dial conf)
    unfolding redis_connect
    Adds-redis_connect conf = record { at = λ c j h. inl (started c j _ h) }
      where
        started :
            (c : Client Server) (j : Bytes) (b : Bool)
            → present
                (if b
                  then (error, c)
                  else on_dialled ng command conf c (dial conf.host conf.port c.server)).1.server
                j
              ≡ true
            → present c.server j ≡ true
        started c j true h = h
        started c j false h = on_dialled-present conf c _ j refl h
