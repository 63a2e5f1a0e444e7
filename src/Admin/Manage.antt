-- ===== src/Admin/Manage.antt =====
-- tools/admin: the commands list, show and revoke. What is printed is data here: the rows of the list and the members that are
-- shown, without the layout of the text.
use nginx_auth_webauthn.Base.{
  ℕ, zero, suc, Bytes, length, ◌==◌, if◌then◌else◌, Option, none, some, List, [], ◌∷◌,
}
use mathlib.Core.Option
use nginx_auth_webauthn.Base.Rc.{Rc, ok, declined, error}
use nginx_auth_webauthn.Base.Word.{ℤ, pos, negsuc}
use nginx_auth_webauthn.Platform.{Nginx, JsonLib, Openssl, Cbor, Command}
use nginx_auth_webauthn.Keys.{index_key}
use nginx_auth_webauthn.Redis.{Client, redis_close, redis_smembers}
use nginx_auth_webauthn.Credential.{Credential, credential_get, credential_delete}
use nginx_auth_webauthn.Admin.Options.{Scanned, stop, go, alg_name}
use nginx_auth_webauthn.Admin.Hex.{aaguid_fmt}
use nginx_auth_webauthn.Admin.{AdminConf, admin_connect, ex_ok, ex_fail, ex_usage, exit_of}

-- A time that is not positive is shown as "-".
abbrev pub shown_time : ℤ → Option ℕ
shown_time (pos zero) = none
shown_time (pos (suc n)) = some (suc n)
shown_time (negsuc n) = none

-- A line of the list: a credential, or an id whose record is gone or cannot be read.
pub data Row : Type 0 where
  listed : Bytes → Bytes → ℕ → Option ℕ → Row
  missing : Bytes → Row

abbrev pub row_of : Bytes → Rc Credential → Row
row_of id (ok cred) = listed id (alg_name cred.alg) cred.sign_count (shown_time cred.created_at)
row_of id declined = missing id
row_of id error = missing id

pub record Shown : Type 0 where
  pub credential_id : Bytes
  pub user_id : Bytes
  pub name : Bytes
  pub alg : ℤ
  pub sign_count : ℕ
  pub created_at : Option ℕ
  pub last_used_at : Option ℕ
  pub aaguid : Option Bytes
  pub transports : Option Bytes
  pub key_length : ℕ

abbrev pub shown : Bytes → Credential → Shown
shown id cred = record {
  credential_id = id;
  user_id = cred.user_id;
  name = alg_name cred.alg;
  alg = cred.alg;
  sign_count = cred.sign_count;
  created_at = shown_time cred.created_at;
  last_used_at = shown_time cred.last_used_at;
  aaguid = Option.map (aaguid_fmt 0) cred.aaguid;
  transports = if length cred.transports == 0 then none else some cred.transports;
  key_length = length cred.public_key;
}

-- The exit code with the output, and the state of the connection.
abbrev pub Outcome : Type 0 → Type 0 → Type 0
Outcome Server Output = (ℕ × Output) × Client Server

module _ {Server Json Item Pkey : Type 0} (js : JsonLib Json) (cbor : Cbor Item)
    (ssl : Openssl Pkey) (ng : Nginx) (command : Command Server)
    (dial : Bytes → ℕ → Server → Option Server) where
  unfoldable pub list_rows : Bytes → List Bytes → Client Server → List Row × Client Server
  list_rows prefix [] c = ([], c)
  list_rows prefix (id ∷ ids) c =
      let (r, d) = credential_get ng command prefix id c in
      let (rows, e) = list_rows prefix ids d in (row_of id r ∷ rows, e)

  unfoldable pub on_members : Bytes → Rc (List Bytes) → Client Server → Outcome Server (List Row)
  unfolding list_rows
  on_members prefix (ok members) c =
      let (rows, d) = list_rows prefix members c in ((ex_ok, rows), redis_close ng command d)
  on_members prefix declined c = ((ex_fail, []), redis_close ng command c)
  on_members prefix error c = ((ex_fail, []), redis_close ng command c)

  unfoldable pub list_from :
      AdminConf → Bytes → Rc (Unit {0}) → Client Server → Outcome Server (List Row)
  unfolding on_members
  list_from conf index (ok _) c =
      let (r, d) = redis_smembers ng command index c in on_members conf.key_prefix r d
  list_from conf index declined c = ((ex_fail, []), c)
  list_from conf index error c = ((ex_fail, []), c)

  unfoldable pub list_index : AdminConf → Rc Bytes → Client Server → Outcome Server (List Row)
  unfolding list_from
  list_index conf (ok index) c =
      let (r, d) = admin_connect js cbor ssl ng command dial conf c in list_from conf index r d
  list_index conf declined c = ((ex_fail, []), c)
  list_index conf error c = ((ex_fail, []), c)

  -- The command, from the options that were read; `none` is a user that is not given.
  unfoldable pub cmd_list : Scanned (Option Bytes) → Client Server → Outcome Server (List Row)
  unfolding list_index
  cmd_list (stop code) c = ((code, []), c)
  cmd_list (go conf none) c = ((ex_usage, []), c)
  cmd_list (go conf (some user)) c = list_index conf (index_key ng conf.key_prefix user) c

  unfoldable pub show_read : Bytes → Rc Credential → ℕ × Option Shown
  show_read id (ok cred) = (ex_ok, some (shown id cred))
  show_read id declined = (ex_fail, none)
  show_read id error = (ex_fail, none)

  unfoldable pub show_from :
      AdminConf → Bytes → Rc (Unit {0}) → Client Server → Outcome Server (Option Shown)
  unfolding show_read
  show_from conf id (ok _) c =
      let (r, d) = credential_get ng command conf.key_prefix id c in
      (show_read id r, redis_close ng command d)
  show_from conf id declined c = ((ex_fail, none), c)
  show_from conf id error c = ((ex_fail, none), c)

  unfoldable pub cmd_show : Scanned (Option Bytes) → Client Server → Outcome Server (Option Shown)
  unfolding show_from
  cmd_show (stop code) c = ((code, none), c)
  cmd_show (go conf none) c = ((ex_usage, none), c)
  cmd_show (go conf (some id)) c =
      let (r, d) = admin_connect js cbor ssl ng command dial conf c in show_from conf id r d

  unfoldable pub revoke_from : AdminConf → Bytes → Rc (Unit {0}) → Client Server → ℕ × Client Server
  revoke_from conf id (ok _) c =
      let (r, d) = credential_delete ng command conf.key_prefix id c in
      (exit_of js cbor ssl ng command dial conf r, redis_close ng command d)
  revoke_from conf id declined c = (ex_fail, c)
  revoke_from conf id error c = (ex_fail, c)

  unfoldable pub cmd_revoke : Scanned (Option Bytes) → Client Server → ℕ × Client Server
  unfolding revoke_from
  cmd_revoke (stop code) c = (code, c)
  cmd_revoke (go conf none) c = (ex_usage, c)
  cmd_revoke (go conf (some id)) c =
      let (r, d) = admin_connect js cbor ssl ng command dial conf c in revoke_from conf id r d
