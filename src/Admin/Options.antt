-- ===== src/Admin/Options.antt =====
-- tools/admin/auth_webauthn_admin_main.c, the options that all commands share, and how a command reads its options.
pub mod Ranges
use nginx_auth_webauthn.Base.{
  ℕ, zero, suc, ◌+◌, ◌-◌, ◌*◌, ◌^◌, Bytes, length, take, drop, ltb, leb, ◌==◌, if◌then◌else◌, Bool,
  true, false, not, ◌&&◌, ◌||◌, Option, none, some, List, [], ◌∷◌, ◌++◌, bytes_eq, codes,
}
use Prim.Native.Nat.{min}
use nginx_auth_webauthn.Base.Rc.{Rc, ok, declined, error, ◌>>=◌, ◌>>◌, require, some_or}
use nginx_auth_webauthn.Base.Word.{ℤ, pos, negsuc, int_eq}
use nginx_auth_webauthn.Platform.{Nginx}
use nginx_auth_webauthn.Credential.{minus}
use nginx_auth_webauthn.Http.Conf.Key.{chomp}
use nginx_auth_webauthn.Admin.Source.{Files, admin_read_file}

abbrev pub ex_ok : ℕ
ex_ok = 0

abbrev pub ex_fail : ℕ
ex_fail = 1

abbrev pub ex_usage : ℕ
ex_usage = 2

-- The common options.
pub record AdminConf : Type 0 where
  pub redis_host : Bytes
  pub redis_port : ℕ
  pub redis_password : Bytes
  pub redis_db : ℕ
  pub redis_timeout_ms : ℕ
  pub key_prefix : Bytes

-- `strtol` in base 10: blanks, a sign, and the digits, as far as they go. `end` is what follows them, or the whole text where there
-- are none. The value is kept to the range of a long.
abbrev is_space : ℕ → Bool
is_space c = c == b' ' || (leb 9 c && leb c 13)

abbrev is_digit : ℕ → Bool
is_digit c = leb b'0' c && leb c b'9'

unfoldable pub skip_spaces : Bytes → Bytes
skip_spaces [] = []
skip_spaces (c ∷ cs) = let rest = skip_spaces cs in if is_space c then rest else c ∷ cs

pub record Long : Type 0 where
  pub value : ℤ
  pub end : Bytes

unfoldable pub digits_from : ℕ → Bytes → ℕ × Bytes
digits_from acc [] = (acc, [])
digits_from acc (c ∷ cs) =
    let rest = digits_from (acc * 10 + (c - b'0')) cs in if is_digit c then rest else (acc, c ∷ cs)

abbrev starts_digit : Bytes → Bool
starts_digit [] = false
starts_digit (c ∷ cs) = is_digit c

unfoldable pub signed : Bool → Bytes → Bytes → Long
unfolding digits_from
signed negative digits whole =
    let (n, rest) = digits_from 0 digits in
    if starts_digit digits
    then record {
      value = if negative then minus (min n (2 ^ 63)) else pos (min n (2 ^ 63 - 1));
      end = rest;
    }
    else record { value = pos 0; end = whole }

unfoldable pub after_spaces : Bytes → Bytes → Long
unfolding signed
after_spaces [] whole = signed false [] whole
after_spaces (c ∷ cs) whole =
    if c == b'-'
    then signed true cs whole
    else if c == b'+'
    then signed false cs whole
    else signed false (c ∷ cs) whole

unfoldable pub strtol : Bytes → Long
unfolding skip_spaces after_spaces
strtol text = after_spaces (skip_spaces text) text

-- `strtol`, for a text that it reads to its end, and a value from `low` to `high`.
abbrev pub in_range : ℕ → ℕ → ℤ → Bool
in_range low high (pos n) = leb low n && leb n high
in_range low high (negsuc n) = false

abbrev pub magnitude : ℤ → ℕ
magnitude (pos n) = n
magnitude (negsuc n) = suc n

unfoldable pub number_in : ℕ → ℕ → Bytes → Rc ℕ
unfolding strtol
number_in low high text =
    let l = strtol text in
    if length l.end == 0 && in_range low high l.value then ok (magnitude l.value) else error

-- `strrchr` for the last colon: what stands before it, and after it.
unfoldable pub at_last_colon : Bytes → Option (Bytes × Bytes)
at_last_colon [] = none
at_last_colon (c ∷ cs) = elim (at_last_colon cs) [
  | some (before, after) ↦ some (c ∷ before, after)
  | none ↦ if c == b':' then some ([], cs) else none
]

unfoldable pub host_port : Option (Bytes × Bytes) → AdminConf → Rc AdminConf
unfolding number_in
host_port none conf = error
host_port (some (host, port)) conf =
    if length host == 0 || length port == 0
    then error
    else number_in 1 65535 port >>= λ n. ok (record conf { redis_host = host; redis_port = n })

pub data CommonOpt : Type 0 where
  redis redis_password redis_db redis_timeout key_prefix : CommonOpt

module _ (ng : Nginx) (files : Files) where
  -- A password is the text itself, or in the file that it names, without the newlines at the end.
  unfoldable pub password_of : Bytes → Rc Bytes
  password_of text =
      if bytes_eq (take 5 text) (codes "file:")
      then (admin_read_file ng files (drop 5 text) >>= λ file. ok (chomp file))
      else ok text

  unfoldable pub parse_common_opt : CommonOpt → Bytes → AdminConf → Rc AdminConf
  unfolding at_last_colon host_port number_in password_of
  parse_common_opt redis arg conf = host_port (at_last_colon arg) conf
  parse_common_opt redis_password arg conf =
      password_of arg >>= λ password. ok (record conf { redis_password = password })
  parse_common_opt redis_db arg conf =
      number_in 0 65535 arg >>= λ n. ok (record conf { redis_db = n })
  parse_common_opt redis_timeout arg conf =
      number_in 0 600000 arg >>= λ n. ok (record conf { redis_timeout_ms = n })
  parse_common_opt key_prefix arg conf = ok (record conf { key_prefix = arg })

-- What `getopt_long` returns, one after the other: an option of the command, a common one, --help, or what it does not know.
pub data Event (Opt : Type 0) : Type 0 where
  own : Opt → Bytes → Event Opt
  common : CommonOpt → Bytes → Event Opt
  help unknown : Event Opt

-- A command that ends while it reads its options, or the options that it has read.
pub data Scanned (Args : Type 0) : Type 0 where
  stop : ℕ → Scanned Args
  go : AdminConf → Args → Scanned Args

unfoldable pub after_common :
    {Args : Type 0} → (AdminConf → Scanned Args) → Rc AdminConf → Scanned Args
after_common rest (ok conf) = rest conf
after_common rest _ = stop ex_usage

module _ (ng : Nginx) (files : Files) {Opt Args : Type 0}
    (take_own : Opt → Bytes → Args → Args) where
  unfoldable pub scan_options : List (Event Opt) → AdminConf → Args → Scanned Args
  unfolding parse_common_opt after_common
  scan_options [] conf args = go conf args
  scan_options (own opt arg ∷ events) conf args = scan_options events conf (take_own opt arg args)
  scan_options (common opt arg ∷ events) conf args =
      after_common (λ next. scan_options events next args) (parse_common_opt ng files opt arg conf)
  scan_options (help ∷ events) conf args = stop ex_ok
  scan_options (unknown ∷ events) conf args = stop ex_usage

-- The display name of an algorithm.
unfoldable pub alg_name : ℤ → Bytes
alg_name alg =
    if int_eq alg (negsuc 6)
    then codes "ES256"
    else if int_eq alg (negsuc 7)
    then codes "EdDSA"
    else if int_eq alg (negsuc 256)
    then codes "RS256"
    else codes "unknown"
