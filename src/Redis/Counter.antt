-- ===== src/Redis/Counter.antt =====
-- What the program relies on of a Redis server for counters, and what the script of `redis_incr_expire` makes of it.
use nginx_auth_webauthn.Base.{
  ℕ, suc, ◌<◌, ◌^◌, Bytes, codes, if◌then◌else◌, Bool, true, not, Option, some, [], ◌∷◌, ◌≡◌,
}
use nginx_auth_webauthn.Base.Word.{ℤ, pos}
use nginx_auth_webauthn.Platform.{Nginx, Command, Reply}
use nginx_auth_webauthn.Redis.Script.{
  keys_1, argv_1, ScriptCall, int_below, run_script, run_call, script_text,
}
use nginx_auth_webauthn.Redis.{Client, incr_statements, decimal}

-- `count s k`: the integer that the string under k spells, 0 where nothing is there; none for any other value. `expires s k`: the
-- key has an expiry. EVAL does what the statements do that its text spells, here those of the client's script, where they come
-- to an integer; INCR adds one below the largest int64; TTL only looks, and is negative for a key without expiry; EXPIRE
-- with a positive time gives it one.
pub record CounterLaws {Server : Type 0} (command : Command Server)
    (count : Server → Bytes → Option ℕ) (expires : Server → Bytes → Bool) : Type 0 where
  pub evals :
      (k n : Bytes) (m : ℤ) (s : Server)
      → (run_script command k n incr_statements (pos 0) s).0 ≡ some (Reply.integer m)
      → command (codes "EVAL" ∷ script_text incr_statements ∷ codes "1" ∷ k ∷ n ∷ []) s
        ≡ run_script command k n incr_statements (pos 0) s
  pub increments :
      (k : Bytes) (n : ℕ) (s : Server)
      → count s k ≡ some n
      → suc n < 2 ^ 63
      → ((command (codes "INCR" ∷ k ∷ []) s).0 ≡ some (Reply.integer (pos (suc n))))
        × (count (command (codes "INCR" ∷ k ∷ []) s).1 k ≡ some (suc n))
  pub looks :
      (k : Bytes) (n : ℕ) (s : Server)
      → count s k ≡ some (suc n)
      → (t : ℤ) × ((command (codes "TTL" ∷ k ∷ []) s).0 ≡ some (Reply.integer t))
        × (int_below t 0 ≡ not (expires s k))
        × ((command (codes "TTL" ∷ k ∷ []) s).1 ≡ s)
  pub prolongs :
      (k : Bytes) (n seconds : ℕ) (s : Server)
      → count s k ≡ some (suc n)
      → 0 < seconds
      → seconds < 2 ^ 32
      → (r : ℤ) × ((command (codes "EXPIRE" ∷ k ∷ decimal seconds ∷ []) s).0
          ≡ some (Reply.integer r))
        × (count (command (codes "EXPIRE" ∷ k ∷ decimal seconds ∷ []) s).1 k ≡ some (suc n))
        × (expires (command (codes "EXPIRE" ∷ k ∷ decimal seconds ∷ []) s).1 k ≡ true)

abbrev pub open_client : {Server : Type 0} → Server → Client Server
open_client s = record { connected = true; server = s }

module _ {Server : Type 0} (ng : Nginx) (command : Command Server)
    (count : Server → Bytes → Option ℕ) (expires : Server → Bytes → Bool)
    (laws : CounterLaws command count expires) where
  -- What the script leaves: its reply is the number, and so is the counter, which has an expiry.
  abbrev Counts : Bytes → ℕ → Option Reply × Server → Type 0
  Counts k n r =
      (r.0 ≡ some (Reply.integer (pos n))) × (count r.1 k ≡ some n) × (expires r.1 k ≡ true)

  abbrev incr_call : ScriptCall
  incr_call = record { name = codes "INCR"; params = keys_1 ∷ [] }

  abbrev ttl_call : ScriptCall
  ttl_call = record { name = codes "TTL"; params = keys_1 ∷ [] }

  abbrev expire_call : ScriptCall
  expire_call = record { name = codes "EXPIRE"; params = keys_1 ∷ argv_1 ∷ [] }

  -- The end of the script, from its condition on.
  abbrev ending : Bytes → ℕ → ℕ → Bool → Server → Option Reply × Server
  ending k n seconds holds s =
      if holds
      then run_call command k (decimal seconds) expire_call s
          (λ r s'. (some (Reply.integer (pos n)), s'))
      else (some (Reply.integer (pos n)), s)
