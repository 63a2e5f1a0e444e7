-- ===== src/Credential/Refine.antt =====
-- src/ngx_auth_webauthn_credential.c: its calls on a server, and their counterparts on a map of credentials with a set of ids for
-- each user.
pub mod Steps
pub mod Run
use nginx_auth_webauthn.Base.{
  ℕ, ◌^◌, ◌<◌, Bytes, bytes_eq, bytes_eq_iff, length, codes, ◌==◌, if◌then◌else◌, true, false, not,
  ◌&&◌, ◌||◌, Option, none, some, List, [], ◌∷◌, ◌≡◌, inl, inr, refl, sym, ◌∙◌, ap, ap₂, subst,
  Bool-cases, All,
}
use nginx_auth_webauthn.Base.Rc.{Rc, ok, declined, error}
use nginx_auth_webauthn.Base.Word.{ℤ}
use nginx_auth_webauthn.Platform.{Nginx, Command}
use nginx_auth_webauthn.Keys.{record_name, index_name, record_key, index_key}
use nginx_auth_webauthn.Keys.Disjoint.{stored_name_unique}
use nginx_auth_webauthn.Redis.{
  Client, Exec, ◌>>=◌, lift, redis_hgetall, redis_hset, redis_sadd, redis_srem, redis_del,
}
use nginx_auth_webauthn.Redis.Values.{
  StoreLaws, Value, Fields, Members, hash_of, set_of, with_fields,
}
use nginx_auth_webauthn.Redis.Effects.{
  then_step, Leaves, hset_effect, hgetall_effect, del_effect, sadd_effect, srem_effect,
}
use nginx_auth_webauthn.Credential.{
  Credential, record_pairs, credential_get, credential_put, credential_update_counter,
  credential_delete,
}
use nginx_auth_webauthn.Credential.Numeral.{Int64}
use nginx_auth_webauthn.Credential.Record.{IsUsable}
use nginx_auth_webauthn.Credential.AnyOrder.{record_of, parse_record_lem}
use nginx_auth_webauthn.Credential.Abstract.{
  Registry, merged, found, IsEntry, IsEntry-found, put-IsEntry, counted, counted-IsEntry,
}

-- The calls, and their abstract counterparts.
pub data Call : Type 0 where
  get : Bytes → Call
  put : Credential → Call
  update_counter : Bytes → ℕ → ℤ → Call
  delete : Bytes → Call

pub data Answer : Type 0 where
  credential : Rc Credential → Answer
  status : Rc (Unit {0}) → Answer

-- What the types of C, and the checks of the registration, ensure of the arguments.
abbrev pub IsCall : Call → Type 0
IsCall (get id) = Unit {0}
IsCall (put c) = IsUsable c
IsCall (update_counter id count time) = (count < 2 ^ 32) × Int64 time
IsCall (delete id) = Unit {0}

abbrev pub set_entry : Bytes → Option Credential → Registry → Registry
set_entry id entry m = record m { creds = λ j. if bytes_eq id j then entry else m.creds j }

abbrev pub set_index : Bytes → Members → Registry → Registry
set_index user members m = record m { index = λ u. if bytes_eq user u then members else m.index u }

abbrev pub removed : Bytes → Option Credential → Registry → Rc (Unit {0}) × Registry
removed id none m = (declined, m)
removed id (some c) m = (
  ok tt,
  (if length c.user_id == 0
      then set_entry id none m
      else set_index c.user_id (λ x. not (bytes_eq id x) && m.index c.user_id x)
          (set_entry id none m)),
)

unfoldable pub abstractly : Call → Registry → Answer × Registry
abstractly (get id) m = (credential (found (m.creds id)), m)
abstractly (put c) m =
    if length c.credential_id == 0 || length c.user_id == 0 then (status error, m) else (
      status (ok tt),
      set_index c.user_id (λ x. bytes_eq c.credential_id x || m.index c.user_id x)
          (set_entry c.credential_id (some (merged (m.creds c.credential_id) c)) m),
    )
abstractly (update_counter id count time) m =
    (status (ok tt), set_entry id (counted count time (m.creds id)) m)
abstractly (delete id) m = let (r, n) = removed id (m.creds id) m in (status r, n)

unfoldable pub run_abstractly : List Call → Registry → List Answer × Registry
unfolding abstractly
run_abstractly [] m = ([], m)
run_abstractly (call ∷ calls) m =
    let (a, n) = abstractly call m in let (answers, o) = run_abstractly calls n in (a ∷ answers, o)

module _ {Server : Type 0} (ng : Nginx) (command : Command Server) (prefix : Bytes) where
  unfoldable pub concretely : Call → Client Server → Answer × Client Server
  concretely (get id) c = let (r, d) = credential_get ng command prefix id c in (credential r, d)
  concretely (put cred) c = let (r, d) = credential_put ng command prefix cred c in (status r, d)
  concretely (update_counter id count time) c =
      let (r, d) = credential_update_counter ng command prefix id count time c in (status r, d)
  concretely (delete id) c = let (r, d) = credential_delete ng command prefix id c in (status r, d)

  unfoldable pub run_concretely : List Call → Client Server → List Answer × Client Server
  unfolding concretely
  run_concretely [] c = ([], c)
  run_concretely (call ∷ calls) c =
      let (a, d) = concretely call c in
      let (answers, e) = run_concretely calls d in (a ∷ answers, e)

  module _ (memory : (n : ℕ) → ng.pnalloc n ≡ true) (value : Server → Bytes → Value)
      (laws : StoreLaws command value) where
    -- The server stands for the map: the hash of each id for its entry, the set of each user for the index.
    pub record StandsFor (c : Client Server) (m : Registry) : Type 0 where
      pub live : c.connected ≡ true
      pub creds :
          (id : Bytes)
          → (f : Fields) × (hash_of (value c.server (record_name prefix id)) ≡ some f)
            × IsEntry id f (m.creds id)
      pub index :
          (user : Bytes) → set_of (value c.server (index_name prefix user)) ≡ some (m.index user)
