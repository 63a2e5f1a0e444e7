-- ===== src/Admin/Main.antt =====
-- tools/admin/auth_webauthn_admin_main.c, `main`: the command of the first argument, with the rest of them.
use nginx_auth_webauthn.Base.{
  ℕ, Bytes, bytes_eq, codes, if◌then◌else◌, Bool, not, ◌||◌, Option, none, some, List, [], ◌∷◌,
}
use nginx_auth_webauthn.Base.Rc.{error}
use nginx_auth_webauthn.Platform.{Nginx, JsonLib, Openssl, Cbor, Command}
use nginx_auth_webauthn.Redis.{Client}
use nginx_auth_webauthn.Admin.Source.{Files, admin_read_file}
use nginx_auth_webauthn.Admin.Options.{Event, Scanned, stop, go, scan_options}
use nginx_auth_webauthn.Admin.Manage.{Row, Shown, cmd_list, cmd_show, cmd_revoke}
use nginx_auth_webauthn.Admin.{
  AdminConf, RegisterArgs, cmd_register, text_or_empty, ex_ok, ex_fail, ex_usage,
}

-- The options of register; `origin` is taken and not used.
pub data RegisterOpt : Type 0 where
  user_id response_file rp_id require_attestation origin transports : RegisterOpt

unfoldable pub take_register : RegisterOpt → Bytes → RegisterArgs → RegisterArgs
take_register user_id arg args = record args { user_id = some arg }
take_register response_file arg args = record args { response_file = some arg }
take_register rp_id arg args = record args { rp_id = some arg }
take_register require_attestation arg args = record args { require_attestation = some arg }
take_register origin arg args = args
take_register transports arg args = record args { transports = some arg }

-- The one option of each of the other commands.
pub data OnlyOpt : Type 0 where
  only : OnlyOpt

abbrev pub take_only : OnlyOpt → Bytes → Option Bytes → Option Bytes
take_only only arg args = some arg

-- `getopt_long` on the arguments of a command, with its table of options.
pub record Getopt : Type 0 where
  pub register : List Bytes → List (Event RegisterOpt)
  pub with_only : Bytes → List Bytes → List (Event OnlyOpt)

pub data Printed : Type 0 where
  nothing usage version : Printed
  rows : List Row → Printed
  detail : Option Shown → Printed

abbrev pub first_conf : AdminConf
first_conf = record {
  redis_host = [];
  redis_port = 0;
  redis_password = [];
  redis_db = 0;
  redis_timeout_ms = 100;
  key_prefix = codes "webauthn:";
}

module _ {Server Json Item Pkey : Type 0} (js : JsonLib Json) (cbor : Cbor Item)
    (ssl : Openssl Pkey) (ng : Nginx) (command : Command Server)
    (dial : Bytes → ℕ → Server → Option Server) (getopt : Getopt) (files : Files) (time : ℕ) where
  abbrev no_args : RegisterArgs
  no_args = record {
    user_id = none;
    response_file = none;
    rp_id = none;
    require_attestation = none;
    transports = none;
    body = error;
    time = time;
  }

  -- The response file is read once the options are known.
  unfoldable pub register_scanned : Scanned RegisterArgs → Client Server → ℕ × Client Server
  register_scanned (stop code) c = (code, c)
  register_scanned (go conf args) c =
      cmd_register js cbor ssl ng command dial conf
        (record args { body = admin_read_file ng files (text_or_empty args.response_file) }) c

  unfoldable pub only_option : Bytes → List Bytes → Scanned (Option Bytes)
  only_option option args =
      scan_options ng files take_only (getopt.with_only option args) first_conf none

  unfoldable pub dispatch : Bytes → List Bytes → Client Server → (ℕ × Printed) × Client Server
  unfolding register_scanned only_option
  dispatch cmd args c =
      if bytes_eq cmd (codes "register")
      then (let (code, d) =
            register_scanned
              (scan_options ng files take_register (getopt.register args) first_conf no_args) c in
          ((code, nothing), d))
      else if bytes_eq cmd (codes "revoke")
      then (let (code, d) =
            cmd_revoke js cbor ssl ng command dial (only_option (codes "credential-id") args) c in
          ((code, nothing), d))
      else if bytes_eq cmd (codes "list")
      then (let ((code, out), d) =
            cmd_list js cbor ssl ng command dial (only_option (codes "user-id") args) c in
          ((code, rows out), d))
      else if bytes_eq cmd (codes "show")
      then (let ((code, out), d) =
            cmd_show js cbor ssl ng command dial (only_option (codes "credential-id") args) c in
          ((code, detail out), d))
      else ((ex_usage, usage), c)

  -- `argv`, without the program's own name; `pool` says whether the pool is there.
  unfoldable pub main : Bool → List Bytes → Client Server → (ℕ × Printed) × Client Server
  unfolding dispatch
  main pool [] c = ((ex_usage, usage), c)
  main pool (cmd ∷ args) c =
      if bytes_eq cmd (codes "-h") || bytes_eq cmd (codes "--help")
      then ((ex_ok, usage), c)
      else if bytes_eq cmd (codes "-V") || bytes_eq cmd (codes "--version")
      then ((ex_ok, version), c)
      else if not pool
      then ((ex_fail, nothing), c)
      else dispatch cmd args c
