-- ===== src/Admin/Source.antt =====
-- tools/admin/auth_webauthn_admin_main.c, reading a whole file into a buffer that doubles.
pub mod Whole
use nginx_auth_webauthn.Base.{
  ℕ, zero, suc, ◌+◌, ◌-◌, ◌*◌, ◌^◌, Bytes, length, take, drop, leb, ◌==◌, if◌then◌else◌, Bool,
  Option, none, some, [], ◌++◌, bytes_eq, codes,
}
use mathlib.Core.Option
use nginx_auth_webauthn.Base.Rc.{Rc, ok, error, ◌>>=◌, ◌>>◌, require, some_or}
use nginx_auth_webauthn.Platform.{Nginx}

abbrev pub file_max : ℕ
file_max = 16 * 1024 * 1024

abbrev pub read_chunk : ℕ
read_chunk = 65536

-- An open stream: what it holds from here on, and whether a read error ends it.
pub record Source : Type 0 where
  pub rest : Bytes
  pub fails : Bool

-- What `fopen` finds, and the standard input.
pub record Files : Type 0 where
  pub stdin : Source
  pub fopen : Bytes → Option Source

-- The buffer with its capacity; its length is that of what was read.
pub record Buffer : Type 0 where
  pub cap : ℕ
  pub text : Bytes

module _ (ng : Nginx) where
  -- A full buffer is doubled, up to the limit.
  unfoldable pub grown : Buffer → Rc Buffer
  grown b =
      if length b.text == b.cap
      then (if leb file_max b.cap
          then error
          else require (ng.pnalloc (b.cap * 2)) error >> ok (record b { cap = b.cap * 2 }))
      else ok b

  -- `fread` gives what fits, or what there is. Where it gives nothing, the stream has ended or failed.
  unfoldable pub read_into :
      (Buffer → Source → Option (Rc Buffer)) → Buffer → Source → Option (Rc Buffer)
  read_into again b s =
      let n = length (take (b.cap - length b.text) s.rest) in
      if n == 0
      then some (if s.fails then error else ok b)
      else again (record b { text = b.text ++ take n s.rest }) (record s { rest = drop n s.rest })

  unfoldable pub on_grown :
      (Buffer → Source → Option (Rc Buffer)) → Rc Buffer → Source → Option (Rc Buffer)
  unfolding read_into
  on_grown again (ok b) s = read_into again b s
  on_grown again _ s = some error

  -- The loop, with the rounds that are left; `none` is a loop that has not ended yet.
  unfoldable pub read_rounds : ℕ → Buffer → Source → Option (Rc Buffer)
  unfolding grown on_grown
  read_rounds zero b s = none
  read_rounds (suc rounds) b s = on_grown (read_rounds rounds) (grown b) s

  -- The NUL byte takes one byte more than a full buffer.
  unfoldable pub terminated : Buffer → Rc Bytes
  terminated b =
      if length b.text == b.cap
      then require (ng.pnalloc (b.cap + 1)) error >> ok b.text
      else ok b.text

  unfoldable pub read_source : Source → Option (Rc Bytes)
  unfolding read_rounds terminated
  read_source s =
      if ng.pnalloc read_chunk
      then Option.map (λ r. r >>= terminated)
          (read_rounds 11 (record { cap = read_chunk; text = [] }) s)
      else some error

  abbrev ended : Option (Rc Bytes) → Rc Bytes
  ended (some r) = r
  ended none = error

  -- "-" is the standard input.
  unfoldable pub admin_read_file : Files → Bytes → Rc Bytes
  unfolding read_source
  admin_read_file files path = do
    s ← some_or (if bytes_eq path (codes "-") then some files.stdin else files.fopen path) error
    ended (read_source s)
