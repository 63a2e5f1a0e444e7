-- ===== src/Http/Conf/Key.antt =====
-- src/ngx_http_auth_webauthn_module.c, the files that the configuration names: a password, a secret or a key.
pub mod Chomp
use nginx_auth_webauthn.Base.{
  ℕ, zero, suc, Bytes, length, get_or, take, ◌==◌, if◌then◌else◌, Bool, true, false, not, ◌||◌,
  Option, none, some, List, [], ◌∷◌,
}
use nginx_auth_webauthn.Base.Rc.{Rc, ok, declined, error, ◌>>=◌, ◌>>◌, require, some_or}
use nginx_auth_webauthn.Platform.{NginxConf, Pem}

-- A file is read in one call, which has to give as many bytes as its size.
unfoldable pub read_file : NginxConf → Bytes → Rc Bytes
read_file ng path = do
  full ← some_or (ng.full_name path) error
  file ← some_or (ng.open_file full) error
  len ← some_or file.size error
  require (ng.pnalloc len) error
  bytes ← some_or (file.read len) error
  require (length bytes == len) error
  ok bytes

abbrev pub is_newline : ℕ → Bool
is_newline b = b == 10 || b == 13

-- The length without the newlines at the end, from the length `n` down.
unfoldable pub chomped : Bytes → ℕ → ℕ
chomped s zero = zero
chomped s (suc n) = let rest = chomped s n in if is_newline (get_or s n 0) then rest else suc n

unfoldable pub chomp : Bytes → Bytes
unfolding chomped
chomp s = take (chomped s (length s)) s

unfoldable pub derive_pub_pem : {Pkey : Type 0} → NginxConf → Pem Pkey → Bytes → Rc Bytes
derive_pub_pem ng pem priv = do
  require (pem.mem_buf priv) error
  pkey ← some_or (pem.read_private_key priv) error
  require pem.mem error
  text ← some_or (pem.write_pubkey pkey) error
  require (ng.pnalloc (length text)) error
  ok text
