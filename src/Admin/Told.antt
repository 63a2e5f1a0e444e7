-- ===== src/Admin/Told.antt =====
-- What the commands list, show and revoke tell of the registered credentials, and what revoke leaves of them.
use nginx_auth_webauthn.Base.{
  ℕ, Bytes, true, Option, none, some, List, [], ◌∷◌, ◌≡◌, refl, ◌∙◌, ap, ap₂, map,
}
use nginx_auth_webauthn.Base.Rc.{ok}
use nginx_auth_webauthn.Platform.{Nginx, JsonLib, Openssl, Cbor, Command}
use nginx_auth_webauthn.Keys.{index_name}
use nginx_auth_webauthn.Redis.{Client, redis_close}
use nginx_auth_webauthn.Redis.Values.{StoreLaws, Value, is_member}
use nginx_auth_webauthn.Redis.Effects.{smembers_effect}
use nginx_auth_webauthn.Credential.{Credential, credential_get}
use nginx_auth_webauthn.Credential.Abstract.{Registry, found}
use nginx_auth_webauthn.Credential.Refine.{StandsFor, removed}
use nginx_auth_webauthn.Credential.Refine.Steps.{get-Matches, only_read, index_key_lem}
use nginx_auth_webauthn.Credential.Refine.Run.{delete-Matches}
use nginx_auth_webauthn.Admin.{AdminConf, admin_connect, ex_ok, ex_fail, exit_of}
use nginx_auth_webauthn.Admin.Options.{go}
use nginx_auth_webauthn.Admin.Manage.{
  row_of, list_rows, on_members, list_from, list_index, cmd_list, show_read, show_from, cmd_show,
  revoke_from, cmd_revoke,
}

module _ {Server Json Item Pkey : Type 0} (js : JsonLib Json) (cbor : Cbor Item)
    (ssl : Openssl Pkey) (ng : Nginx) (command : Command Server)
    (dial : Bytes → ℕ → Server → Option Server) (memory : (n : ℕ) → ng.pnalloc n ≡ true)
    (value : Server → Bytes → Value) (laws : StoreLaws command value) (conf : AdminConf) where
  -- A connection to a server that stands for these credentials.
  abbrev pub Stands : Client Server → Registry → Type 0
  Stands = StandsFor ng command conf.key_prefix memory value laws

  abbrev pub Connects : Client Server → Registry → Type 0
  Connects c m =
      ((admin_connect js cbor ssl ng command dial conf c).0 ≡ ok tt)
      × Stands (admin_connect js cbor ssl ng command dial conf c).1 m

  abbrev pub exit_for : Option Credential → ℕ
  exit_for none = ex_fail
  exit_for (some cred) = ex_ok

  exit_for_lem :
      (id : Bytes) (o : Option Credential) (m : Registry)
      → exit_of js cbor ssl ng command dial conf (removed id o m).0 ≡ exit_for o
  exit_for_lem id none m = refl
  exit_for_lem id (some cred) m = refl

  list_rows_lem :
      (ids : List Bytes) (c : Client Server) (m : Registry)
      → Stands c m
      → ((list_rows js cbor ssl ng command dial conf.key_prefix ids c).0
          ≡ map (λ id. row_of id (found (m.creds id))) ids)
        × Stands (list_rows js cbor ssl ng command dial conf.key_prefix ids c).1 m
  unfolding list_rows
  list_rows_lem [] c m s = (refl, s)
  list_rows_lem (id ∷ ids) c m s =
      let (r, t) = get-Matches ng command conf.key_prefix memory value laws id c m s in
      let (rs, ts) = list_rows_lem ids (credential_get ng command conf.key_prefix id c).1 m t in
      (ap₂ (λ r rows. row_of id r ∷ rows) r rs, ts)

  -- Where memory suffices and the tool connects to a server that stands for a map of credentials, list prints a line
  -- for each id of the user's index, and of no other id: the credential that is registered under the id, or that it is
  -- missing.
  pub cmd_list_lem :
      (user : Bytes) (c : Client Server) (m : Registry)
      → Connects c m
      → (ids : List Bytes) × ((id : Bytes) → is_member ids id ≡ m.index user id)
        × ((cmd_list js cbor ssl ng command dial (go conf (some user)) c).0
            ≡ (ex_ok, map (λ id. row_of id (found (m.creds id))) ids))
  unfolding cmd_list list_index list_from on_members
  cmd_list_lem user c m (on, s) =
      let (ids, r, same, live, all) =
        smembers_effect ng memory command value laws (index_name conf.key_prefix user)
          (admin_connect js cbor ssl ng command dial conf c).1 (m.index user) s.live
          (s.index user) in
      let (rows, t) =
        list_rows_lem ids _ m
          (only_read ng command conf.key_prefix memory value laws _ _ m s live all) in
      (
        ids,
        same,
        rw (index_key_lem ng command conf.key_prefix memory value laws user)
            (rw on (rw r (ap (λ rows. (ex_ok, rows)) rows))),
      )

  -- Where the tool connects, show succeeds with the members of the credential that is registered under the id, and fails where there is none.
  pub cmd_show_lem :
      (id : Bytes) (c : Client Server) (m : Registry)
      → Connects c m
      → (cmd_show js cbor ssl ng command dial (go conf (some id)) c).0
        ≡ show_read js cbor ssl ng command dial id (found (m.creds id))
  unfolding cmd_show show_from
  cmd_show_lem id c m (on, s) = rw on (
      ap (show_read js cbor ssl ng command dial id)
        (get-Matches ng command conf.key_prefix memory value laws id _ m s).0)

  -- Where memory suffices and the tool connects to a server that stands for a map of credentials, revoke succeeds
  -- exactly on the id of a registered credential. Then the credential is gone, and its id from the index of its user;
  -- otherwise nothing has changed.
  pub cmd_revoke_lem :
      (id : Bytes) (c : Client Server) (m : Registry)
      → Connects c m
      → ((cmd_revoke js cbor ssl ng command dial (go conf (some id)) c).0 ≡ exit_for (m.creds id))
        × Stands
            (record (cmd_revoke js cbor ssl ng command dial (go conf (some id)) c).1 {
              connected = true;
            })
            (removed id (m.creds id) m).1
  unfolding cmd_revoke revoke_from redis_close
  cmd_revoke_lem id c m (on, s) =
      let (r, t) = delete-Matches ng command conf.key_prefix memory value laws id _ m s in
      rw on (
        ap (exit_of js cbor ssl ng command dial conf) r ∙ exit_for_lem id (m.creds id) m,
        record { live = refl; creds = t.creds; index = t.index },
      )
