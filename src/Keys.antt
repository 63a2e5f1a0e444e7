-- ===== src/Keys.antt =====
-- The Redis keys of the program: {prefix}chal:{challenge} (src/ngx_auth_webauthn_challenge.c), {prefix}cred:{id} and
-- {prefix}user:{id}:creds (src/ngx_auth_webauthn_credential.c), and {prefix}ratelimit:challenge:{ip} (src/ngx_http_auth_webauthn_module.c).
pub mod Disjoint
use nginx_auth_webauthn.Base.{Bytes, length, codes, ◌++◌}
use nginx_auth_webauthn.Base.Rc.{Rc, ok, error, ◌>>=◌, ◌>>◌, require}
use nginx_auth_webauthn.Platform.{Nginx}

abbrev pub challenge_name : Bytes → Bytes → Bytes
challenge_name prefix raw = prefix ++ (codes "chal:" ++ raw)

abbrev pub record_name : Bytes → Bytes → Bytes
record_name prefix cid = prefix ++ (codes "cred:" ++ cid)

abbrev pub index_name : Bytes → Bytes → Bytes
index_name prefix uid = prefix ++ (codes "user:" ++ (uid ++ codes ":creds"))

abbrev pub rate_limit_name : Bytes → Bytes → Bytes
rate_limit_name prefix ip = prefix ++ (codes "ratelimit:challenge:" ++ ip)

module _ (ng : Nginx) where
  -- A key is written into memory of its own length.
  abbrev allocated : Bytes → Rc Bytes
  allocated name = require (ng.pnalloc (length name)) error >> ok name

  unfoldable pub challenge_key : Bytes → Bytes → Rc Bytes
  challenge_key prefix raw = allocated (challenge_name prefix raw)

  unfoldable pub record_key : Bytes → Bytes → Rc Bytes
  record_key prefix cid = allocated (record_name prefix cid)

  unfoldable pub index_key : Bytes → Bytes → Rc Bytes
  index_key prefix uid = allocated (index_name prefix uid)
