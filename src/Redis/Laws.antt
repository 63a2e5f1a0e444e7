-- ===== src/Redis/Laws.antt =====
-- What the program relies on of a Redis server, for string keys: which commands can make one appear, and what GETDEL
-- does. Stated for the commands that the client sends; an error or a lost reply promises nothing more.
use nginx_auth_webauthn.Base.{
  ℕ, Bytes, codes, Bool, true, false, Option, none, some, List, [], ◌∷◌, ◌≡◌, ◌⊎◌, inl, inr,
  if◌then◌else◌, refl, Bool-cases,
}
use nginx_auth_webauthn.Base.Rc.{Rc, ok, declined, error}
use nginx_auth_webauthn.Platform.{Nginx, Command, Reply}
use nginx_auth_webauthn.Redis.{
  Client, Exec, after, ◌>>=◌, lift, with_ctx, exec, exec_with, incr_script, redis_hset,
  redis_hgetall, redis_smembers, redis_incr_expire, redis_set_ex, redis_getdel, getdel_read,
  with_number,
}

-- The commands, each with the string key that it may create.
pub data IsSent : List Bytes → Option Bytes → Type 0 where
  set : (k v n : Bytes) → IsSent (codes "SET" ∷ k ∷ v ∷ codes "EX" ∷ n ∷ []) (some k)
  eval : (k n : Bytes) → IsSent (codes "EVAL" ∷ incr_script ∷ codes "1" ∷ k ∷ n ∷ []) (some k)
  getdel : (k : Bytes) → IsSent (codes "GETDEL" ∷ k ∷ []) none
  hset : (k : Bytes) (fields : List Bytes) → IsSent (codes "HSET" ∷ k ∷ fields) none
  hgetall : (k : Bytes) → IsSent (codes "HGETALL" ∷ k ∷ []) none
  del : (k : Bytes) → IsSent (codes "DEL" ∷ k ∷ []) none
  sadd : (k m : Bytes) → IsSent (codes "SADD" ∷ k ∷ m ∷ []) none
  srem : (k m : Bytes) → IsSent (codes "SREM" ∷ k ∷ m ∷ []) none
  smembers : (k : Bytes) → IsSent (codes "SMEMBERS" ∷ k ∷ []) none
  auth : (password : Bytes) → IsSent (codes "AUTH" ∷ password ∷ []) none
  select : (n : Bytes) → IsSent (codes "SELECT" ∷ n ∷ []) none
  expire : (k n : Bytes) → IsSent (codes "EXPIRE" ∷ k ∷ n ∷ []) none

-- `present s k`: the server holds a string under k that has not expired.
pub record StringLaws {Server : Type 0} (command : Command Server) (present : Server → Bytes → Bool)
    : Type 0 where
  pub frame :
      (argv : List Bytes) (w : Option Bytes) (s : Server) (j : Bytes)
      → IsSent argv w
      → present (command argv s).1 j ≡ true
      → (present s j ≡ true) ⊎ (w ≡ some j)
  pub getdel_found :
      (k v : Bytes) (s : Server)
      → (command (codes "GETDEL" ∷ k ∷ []) s).0 ≡ some (Reply.string v)
      → (present s k ≡ true) × (present (command (codes "GETDEL" ∷ k ∷ []) s).1 k ≡ false)

module _ {Server : Type 0} (ng : Nginx) (command : Command Server) (present : Server → Bytes → Bool)
    (laws : StringLaws command present) where
  -- A call creates no string key but, perhaps, `w`.
  pub record Adds {A : Type 0} (w : Option Bytes) (m : Exec Server A) : Type 0 where
    pub at :
        (c : Client Server) (j : Bytes)
        → present (m c).1.server j ≡ true
        → (present c.server j ≡ true) ⊎ (w ≡ some j)

  pub Adds-lift : {A : Type 0} {w : Option Bytes} (r : Rc A) → Adds w (lift {S = Server} r)
  Adds-lift r = record { at = λ c j h. inl h }

  pub Adds-exec_with :
      {A : Type 0} {w : Option Bytes} (read : Option Reply → Rc A) (argv : List Bytes)
      → IsSent argv w
      → Adds w (exec_with ng command read argv)
  unfolding exec_with exec
  Adds-exec_with read argv sent = record { at = λ c j h. laws.frame argv _ c.server j sent h }

  pub if_server :
      {A : Type 0} (b : Bool) (x y : A × Client Server) (j : Bytes)
      → present (if b then x else y).1.server j ≡ true
      → (present x.1.server j ≡ true) ⊎ (present y.1.server j ≡ true)
  if_server true x y j h = inl h
  if_server false x y j h = inr h

  pub Adds-with_ctx :
      {A : Type 0} {w : Option Bytes} (m : Exec Server A)
      → Adds w m
      → Adds w (with_ctx ng command m)
  unfolding with_ctx
  Adds-with_ctx m a = record {
    at = λ c j h. elim (if_server c.connected (m c) (error, c) j h) [
      | inl p ↦ a.at c j p
      | inr p ↦ inl p
    ];
  }

  pub Adds-bind :
      {A B : Type 0} {w : Option Bytes} (m : Exec Server A) (f : A → Exec Server B)
      → Adds w m
      → ((a : A) → Adds w (f a))
      → Adds w (m >>= f)
  Adds-bind {A} {B} {w} m f am af = record { at = λ c j h. step c j (m c).0 refl h }
    where
      chain :
          (c : Client Server) (j : Bytes)
          → (present (m c).1.server j ≡ true) ⊎ (w ≡ some j)
          → (present c.server j ≡ true) ⊎ (w ≡ some j)
      chain c j (inl p) = am.at c j p
      chain c j (inr e) = inr e

      step :
          (c : Client Server) (j : Bytes) (r : Rc A)
          → (m c).0 ≡ r
          → present ((m >>= f) c).1.server j ≡ true
          → (present c.server j ≡ true) ⊎ (w ≡ some j)
      step c j (ok a) e h = chain c j ((af a).at (m c).1 j (rw e at h))
      step c j declined e h = am.at c j (rw e at h)
      step c j error e h = am.at c j (rw e at h)

  -- The rest of the call may use what the pure step returned.
  pub Adds-bind-lift :
      {A B : Type 0} {w : Option Bytes} (r : Rc A) (f : A → Exec Server B)
      → ((a : A) → r ≡ ok a → Adds w (f a))
      → Adds w (lift r >>= f)
  Adds-bind-lift (ok a) f af = record { at = (af a refl).at }
  Adds-bind-lift declined f af = record { at = λ c j h. inl h }
  Adds-bind-lift error f af = record { at = λ c j h. inl h }

  pub Adds-if :
      {A : Type 0} {w : Option Bytes} (b : Bool) {m k : Exec Server A}
      → Adds w m
      → Adds w k
      → Adds w (if b then m else k)
  Adds-if true am ak = am
  Adds-if false am ak = ak

  pub ruleset adds_rules = (
    Adds-lift, Adds-exec_with, Adds-with_ctx, Adds-bind, Adds-if, set, eval, getdel, hset, hgetall,
    del, auth, select, sadd, srem, smembers, expire,
  )

  -- What the steps after a first one leave is what that one left.
  pub Adds-rest :
      {A B : Type 0} (m : Exec Server A) (f : A → Exec Server B) (c : Client Server) (j : Bytes)
      → ((a : A) → Adds none (f a))
      → present ((m >>= f) c).1.server j ≡ true
      → present (m c).1.server j ≡ true
  Adds-rest {A} m f c j af h = step (m c).0 h
    where
      kept : (present (m c).1.server j ≡ true) ⊎ (none ≡ some j) → present (m c).1.server j ≡ true
      kept (inl p) = p
      kept (inr e) = cc

      step :
          (r : Rc A)
          → present (after r f (m c).1).1.server j ≡ true
          → present (m c).1.server j ≡ true
      step (ok a) h = kept ((af a).at (m c).1 j h)
      step declined h = h
      step error h = h

  pub Adds-redis_hgetall : (k : Bytes) → Adds none (redis_hgetall ng command k)
  unfolding redis_hgetall
  Adds-redis_hgetall k = search adds_rules

  pub Adds-redis_smembers : (k : Bytes) → Adds none (redis_smembers ng command k)
  unfolding redis_smembers
  Adds-redis_smembers k = search adds_rules

  pub Adds-redis_set_ex : (k v : Bytes) (n : ℕ) → Adds (some k) (redis_set_ex ng command k v n)
  unfolding redis_set_ex with_number
  Adds-redis_set_ex k v n = search adds_rules

  pub Adds-redis_hset :
      (k : Bytes) (pairs : List (Bytes × Bytes)) → Adds none (redis_hset ng command k pairs)
  unfolding redis_hset
  Adds-redis_hset k pairs = search adds_rules

  pub Adds-redis_incr_expire :
      (k : Bytes) (n : ℕ) → Adds (some k) (redis_incr_expire ng command k n)
  unfolding redis_incr_expire with_number
  Adds-redis_incr_expire k n = search adds_rules

  pub Adds-redis_getdel : (k : Bytes) → Adds none (redis_getdel ng command k)
  unfolding redis_getdel
  Adds-redis_getdel k = search adds_rules

  getdel_read-string :
      (r : Option Reply) → getdel_read r ≡ ok true → (v : Bytes) × (r ≡ some (Reply.string v))
  unfolding getdel_read
  getdel_read-string none h = cc
  getdel_read-string (some (Reply.string v)) h = (v, refl)
  getdel_read-string (some (Reply.error_reply m)) h = cc
  getdel_read-string (some (Reply.status m)) h = cc
  getdel_read-string (some (Reply.integer n)) h = cc
  getdel_read-string (some Reply.nil) h = cc
  getdel_read-string (some (Reply.array rs)) h = cc

  -- What a positive GETDEL says of the key, before and after it.
  pub getdel_taken :
      (k : Bytes) (c : Client Server)
      → (redis_getdel ng command k c).0 ≡ ok true
      → (present c.server k ≡ true) × (present (redis_getdel ng command k c).1.server k ≡ false)
  unfolding redis_getdel with_ctx exec_with exec
  getdel_taken k c h = elim (Bool-cases c.connected) [
    | inl on ↦
        let (v, e) = getdel_read-string _ (rw on at h) in rw on (laws.getdel_found k v c.server e)
    | inr off ↦ cc (rw off at h)
  ]
