-- ===== src/Redis/Lasting.antt =====
-- What the program relies on of a Redis server for a string key with an expiry: SET..EX makes one, GETDEL returns one whose time is
-- not up, time uses it up, and a command on another key leaves it as it is.
use nginx_auth_webauthn.Base.{
  ℕ, ◌^◌, ◌-◌, ◌<◌, Bytes, codes, Bool, true, false, Option, none, some, List, [], ◌∷◌, ◌≡◌, ◌≢◌,
  if◌then◌else◌, refl, ◌∙◌,
}
use nginx_auth_webauthn.Base.Rc.{Rc, ok, declined, error}
use nginx_auth_webauthn.Platform.{Nginx, Command, Reply}
use nginx_auth_webauthn.Redis.{
  Client, Exec, after, ◌>>=◌, lift, with_ctx, exec, exec_with, incr_script, decimal,
}

-- The commands that touch one key.
pub data IsOn : List Bytes → Bytes → Type 0 where
  set : (k v n : Bytes) → IsOn (codes "SET" ∷ k ∷ v ∷ codes "EX" ∷ n ∷ []) k
  eval : (k n : Bytes) → IsOn (codes "EVAL" ∷ incr_script ∷ codes "1" ∷ k ∷ n ∷ []) k
  getdel : (k : Bytes) → IsOn (codes "GETDEL" ∷ k ∷ []) k
  hset : (k : Bytes) (fields : List Bytes) → IsOn (codes "HSET" ∷ k ∷ fields) k

-- Seconds that are over.
abbrev pub run_down : ℕ → Option ℕ → Option ℕ
run_down t none = none
run_down t (some n) = some (n - t)

-- `left s k`: the seconds that a string under k lasts, 0 where nothing is there; none for a key that does not expire, or is of
-- another type.
pub record LastingLaws {Server : Type 0} (command : Command Server) (wait : ℕ → Server → Server)
    (left : Server → Bytes → Option ℕ) : Type 0 where
  pub elsewhere :
      (argv : List Bytes) (k j : Bytes) (s : Server)
      → IsOn argv k
      → k ≢ j
      → left (command argv s).1 j ≡ left s j
  pub stores :
      (k v : Bytes) (n : ℕ) (s : Server)
      → 0 < n
      → n < 2 ^ 32
      → ((m : Bytes) × ((command (codes "SET" ∷ k ∷ v ∷ codes "EX" ∷ decimal n ∷ []) s).0
            ≡ some (Reply.status m)))
        × (left (command (codes "SET" ∷ k ∷ v ∷ codes "EX" ∷ decimal n ∷ []) s).1 k ≡ some n)
  pub passes : (t : ℕ) (s : Server) (j : Bytes) → left (wait t s) j ≡ run_down t (left s j)
  pub returns :
      (k : Bytes) (n : ℕ) (s : Server)
      → left s k ≡ some n
      → 0 < n
      → (v : Bytes) × ((command (codes "GETDEL" ∷ k ∷ []) s).0 ≡ some (Reply.string v))
  pub misses :
      (k : Bytes) (s : Server)
      → left s k ≡ some 0
      → (command (codes "GETDEL" ∷ k ∷ []) s).0 ≡ some Reply.nil

module _ {Server : Type 0} (ng : Nginx) (command : Command Server) (wait : ℕ → Server → Server)
    (left : Server → Bytes → Option ℕ) (laws : LastingLaws command wait left) (j : Bytes) where
  -- A call that leaves the key j as it is.
  pub record Spares {A : Type 0} (m : Exec Server A) : Type 0 where
    pub at : (c : Client Server) → left (m c).1.server j ≡ left c.server j

  pub Spares-lift : {A : Type 0} (r : Rc A) → Spares (lift {S = Server} r)
  Spares-lift r = record { at = λ c. refl }

  pub Spares-exec_with :
      {A : Type 0} (read : Option Reply → Rc A) (argv : List Bytes) (k : Bytes)
      → IsOn argv k
      → k ≢ j
      → Spares (exec_with ng command read argv)
  unfolding exec_with exec
  Spares-exec_with read argv k on ne = record { at = λ c. laws.elsewhere argv k j c.server on ne }

  pub Spares-if :
      {A : Type 0} (b : Bool) {m n : Exec Server A}
      → Spares m
      → Spares n
      → Spares (if b then m else n)
  Spares-if true sm sn = sm
  Spares-if false sm sn = sn

  pub Spares-with_ctx : {A : Type 0} (m : Exec Server A) → Spares m → Spares (with_ctx ng command m)
  unfolding with_ctx
  Spares-with_ctx m s = record { at = λ c. by_connection c.connected c }
    where
      by_connection :
          (b : Bool) (c : Client Server)
          → left (if b then m c else (error, c)).1.server j ≡ left c.server j
      by_connection true c = s.at c
      by_connection false c = refl

  pub Spares-bind :
      {A B : Type 0} (m : Exec Server A) (f : A → Exec Server B)
      → Spares m
      → ((a : A) → Spares (f a))
      → Spares (m >>= f)
  Spares-bind {A} {B} m f sm sf = record { at = λ c. rest (m c).0 (m c).1 ∙ sm.at c }
    where
      rest : (r : Rc A) (c : Client Server) → left (after r f c).1.server j ≡ left c.server j
      rest (ok a) c = (sf a).at c
      rest declined c = refl
      rest error c = refl

  pub Spares-bind-lift :
      {A B : Type 0} (r : Rc A) (f : A → Exec Server B)
      → ((a : A) → r ≡ ok a → Spares (f a))
      → Spares (lift r >>= f)
  Spares-bind-lift (ok a) f sf = record { at = (sf a refl).at }
  Spares-bind-lift declined f sf = record { at = λ c. refl }
  Spares-bind-lift error f sf = record { at = λ c. refl }
