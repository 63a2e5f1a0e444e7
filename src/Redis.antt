-- ===== src/Redis.antt =====
-- src/ngx_auth_webauthn_redis.c: one function for each command of the client.
mod Decimal
pub mod Script
mod Reading
pub mod Laws
pub mod Counter
pub mod Flow
pub mod Connect
pub mod Values
pub mod Effects
pub mod Lasting
pub mod Digits
unfoldable pub use Decimal.{decimal_rounds, decimal}
unfoldable pub use Reading.{
  reply_failed, word_size, count_replies, hset_argv, is_string, incr_statements, incr_script,
  status_read, integer_read, getdel_read, dup, dup_pairs, hgetall_read, dup_members, smembers_read,
}
use nginx_auth_webauthn.Base.{
  ℕ, ◌+◌, ◌*◌, ◌/◌, ◌%◌, ◌≤◌, Bytes, length, codes, ltb, leb, ◌==◌, if◌then◌else◌, Bool, true,
  false, not, ◌&&◌, ◌||◌, Option, none, some, List, [], ◌∷◌, ◌++◌,
}
use nginx_auth_webauthn.Base.Rc.{Rc, ok, declined, error, require}
use nginx_auth_webauthn.Base.Word.{ℤ}
use nginx_auth_webauthn.Platform.{Nginx, Command, Reply}

-- A client handle: whether `ctx` is set, and the server behind it.
pub record Client (Server : Type 0) : Type 0 where
  pub connected : Bool
  pub server : Server

-- A call on the handle: its return code with its results, and the state after it.
abbrev pub Exec : Type 0 → Type 0 → Type 0
Exec Server A = Client Server → Rc A × Client Server

abbrev pub after : {S A B : Type 0} → Rc A → (A → Exec S B) → Exec S B
after (ok a) f c = f a c
after declined f c = (declined, c)
after error f c = (error, c)

infixl 5 ◌>>=◌ ◌>>◌
abbrev pub ◌>>=◌ : {S A B : Type 0} → Exec S A → (A → Exec S B) → Exec S B
◌>>=◌ m f c = after (m c).0 f (m c).1

abbrev pub ◌>>◌ : {S B : Type 0} → Exec S (Unit {0}) → Exec S B → Exec S B
m >> k = m >>= λ _. k

abbrev pub lift : {S A : Type 0} → Rc A → Exec S A
lift r c = (r, c)

-- The number buffers hold 32 bytes with the NUL.
abbrev pub numbuf : ℕ
numbuf = 32

-- `timeout_ms` only bounds the waiting, and has no part in the model.
pub record RedisConf : Type 0 where
  pub host : Bytes
  pub port : ℕ
  pub password : Bytes
  pub db : ℕ

module _ {Server : Type 0} (ng : Nginx) (command : Command Server) where
  -- `redis->ctx == NULL` is an error before anything is sent.
  unfoldable pub with_ctx : {A : Type 0} → Exec Server A → Exec Server A
  with_ctx m c = if c.connected then m c else (error, c)

  unfoldable pub exec : List Bytes → Client Server → Option Reply × Client Server
  exec argv c = let (reply, s) = command argv c.server in (reply, record c { server = s })

  -- One command, and what is read of its reply.
  unfoldable pub exec_with : {A : Type 0} → (Option Reply → Rc A) → List Bytes → Exec Server A
  unfolding exec
  exec_with read argv c = let (reply, c') = exec argv c in (read reply, c')

  -- A number that does not fit the buffer is an error before anything is sent.
  unfoldable pub with_number : {A : Type 0} → ℕ → (Bytes → Exec Server A) → Exec Server A
  with_number n k =
      let digits = decimal n in if leb numbuf (length digits) then lift error else k digits

  -- HSET key field value field value ...; without pairs nothing is sent.
  unfoldable pub redis_hset : Bytes → List (Bytes × Bytes) → Exec Server (Unit {0})
  redis_hset key pairs = with_ctx (
      if length pairs == 0
      then lift (ok tt)
      else if ng.pnalloc ((2 + length pairs * 2) * word_size)
      then exec_with status_read (codes "HSET" ∷ key ∷ hset_argv pairs)
      else lift error)

  unfoldable pub redis_hgetall : Bytes → Exec Server (List (Bytes × Bytes))
  redis_hgetall key = with_ctx (exec_with (hgetall_read ng) (codes "HGETALL" ∷ key ∷ []))

  unfoldable pub redis_del : Bytes → Exec Server (Unit {0})
  redis_del key = with_ctx (exec_with status_read (codes "DEL" ∷ key ∷ []))

  -- The shared body of SADD and SREM.
  unfoldable pub set_op : Bytes → Bytes → Bytes → Exec Server (Unit {0})
  set_op cmd key member = with_ctx (exec_with status_read (cmd ∷ key ∷ member ∷ []))

  unfoldable pub redis_sadd : Bytes → Bytes → Exec Server (Unit {0})
  unfolding set_op
  redis_sadd key member = set_op (codes "SADD") key member

  unfoldable pub redis_srem : Bytes → Bytes → Exec Server (Unit {0})
  unfolding set_op
  redis_srem key member = set_op (codes "SREM") key member

  unfoldable pub redis_smembers : Bytes → Exec Server (List Bytes)
  redis_smembers key = with_ctx (exec_with (smembers_read ng) (codes "SMEMBERS" ∷ key ∷ []))

  pub redis_expire : Bytes → ℕ → Exec Server (Unit {0})
  redis_expire key seconds =
      with_ctx
        (with_number seconds λ digits. exec_with status_read (codes "EXPIRE" ∷ key ∷ digits ∷ []))

  -- EVAL script 1 key seconds: the counter after the increment.
  unfoldable pub redis_incr_expire : Bytes → ℕ → Exec Server ℤ
  redis_incr_expire key seconds = with_ctx (
      with_number seconds λ digits.
        exec_with integer_read (codes "EVAL" ∷ incr_script ∷ codes "1" ∷ key ∷ digits ∷ []))

  -- SET key value EX seconds
  unfoldable pub redis_set_ex : Bytes → Bytes → ℕ → Exec Server (Unit {0})
  redis_set_ex key value seconds = with_ctx (
      with_number seconds
        λ digits. exec_with status_read (codes "SET" ∷ key ∷ value ∷ codes "EX" ∷ digits ∷ []))

  -- Whether the key was there: a present one returns its string, an absent one nil.
  unfoldable pub redis_getdel : Bytes → Exec Server Bool
  redis_getdel key = with_ctx (exec_with getdel_read (codes "GETDEL" ∷ key ∷ []))

  unfoldable pub redis_close : Client Server → Client Server
  redis_close c = record c { connected = false }

  -- AUTH and SELECT, each closing the handle where it fails.
  unfoldable pub closing : Rc (Unit {0}) → Client Server → Rc (Unit {0}) × Client Server
  unfolding redis_close
  closing (ok u) c = (ok tt, c)
  closing declined c = (error, redis_close c)
  closing error c = (error, redis_close c)

  unfoldable pub or_close : Exec Server (Unit {0}) → Exec Server (Unit {0})
  unfolding closing
  or_close m c = closing (m c).0 (m c).1

  unfoldable pub authenticate : RedisConf → Exec Server (Unit {0})
  unfolding or_close
  authenticate conf =
      if length conf.password == 0
      then lift (ok tt)
      else or_close (exec_with status_read (codes "AUTH" ∷ conf.password ∷ []))

  unfoldable pub select_db : RedisConf → Exec Server (Unit {0})
  unfolding or_close
  select_db conf =
      if conf.db == 0
      then lift (ok tt)
      else or_close
          (with_number conf.db λ digits. exec_with status_read (codes "SELECT" ∷ digits ∷ []))

  -- What follows hiredis's connect: `none` is a NULL context, or one that holds an error.
  unfoldable pub on_dialled :
      RedisConf → Client Server → Option Server → Rc (Unit {0}) × Client Server
  unfolding authenticate select_db
  on_dialled conf c none = (error, record c { connected = false })
  on_dialled conf c (some s) =
      (authenticate conf >> select_db conf) (record { connected = true; server = s })

  -- `dial` is hiredis's connect: the server behind the new connection, or none.
  unfoldable pub redis_connect :
      (Bytes → ℕ → Server → Option Server) → RedisConf → Exec Server (Unit {0})
  unfolding on_dialled
  redis_connect dial conf c =
      if length conf.host == 0
        || not (ng.pnalloc (3 * word_size))
        || not (ng.pnalloc (length conf.host + 1))
      then (error, c)
      else on_dialled conf c (dial conf.host conf.port c.server)
