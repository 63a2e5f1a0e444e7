-- ===== src/Redis/Reading.antt =====
-- How src/ngx_auth_webauthn_redis.c reads a reply, and how it lays out the arguments of HSET.
use nginx_auth_webauthn.Base.{
  ℕ, ◌+◌, ◌*◌, ◌/◌, Bytes, length, codes, ◌==◌, if◌then◌else◌, Bool, true, false, Option, none,
  some, List, [], ◌∷◌,
}
use nginx_auth_webauthn.Base.Rc.{Rc, ok, error, ◌>>=◌}
use nginx_auth_webauthn.Base.Word.{ℤ}
use nginx_auth_webauthn.Platform.{Nginx, Reply, Replies}
use nginx_auth_webauthn.Redis.Script.{
  keys_1, argv_1, c_is, below, either, Statement, local_c, call_if, return_c, script_text,
}

-- `reply == NULL || reply->type == REDIS_REPLY_ERROR`
unfoldable pub reply_failed : Option Reply → Bool
reply_failed none = true
reply_failed (some (Reply.error_reply message)) = true
reply_failed (some r) = false

-- Pointers and `size_t` take 8 bytes.
abbrev pub word_size : ℕ
word_size = 8

-- `reply->elements`
unfoldable pub count_replies : Replies → ℕ
count_replies Replies.end = 0
count_replies (Replies.element r rest) = count_replies rest + 1

-- The field and value arguments, in turn.
unfoldable pub hset_argv : List (Bytes × Bytes) → List Bytes
hset_argv [] = []
hset_argv ((name, value) ∷ pairs) = name ∷ value ∷ hset_argv pairs

unfoldable pub is_string : Option Reply → Bool
is_string (some (Reply.string value)) = true
is_string _ = false

-- The server-side script: INCR, and a TTL where the counter is fresh or has none.
unfoldable pub incr_statements : List Statement
incr_statements =
    local_c (record { name = codes "INCR"; params = keys_1 ∷ [] })
    ∷ call_if (either (c_is 1) (below (record { name = codes "TTL"; params = keys_1 ∷ [] }) 0))
        (record { name = codes "EXPIRE"; params = keys_1 ∷ argv_1 ∷ [] })
    ∷ return_c
    ∷ []

unfoldable pub incr_script : Bytes
unfolding script_text incr_statements
incr_script = script_text incr_statements

-- Of most commands only the success is read.
unfoldable pub status_read : Option Reply → Rc (Unit {0})
unfolding reply_failed
status_read reply = if reply_failed reply then error else ok tt

-- A present key returns its string, an absent one nil.
unfoldable pub getdel_read : Option Reply → Rc Bool
unfolding reply_failed is_string
getdel_read reply = if reply_failed reply then error else ok (is_string reply)

-- Any reply but an integer is an error.
unfoldable pub integer_read : Option Reply → Rc ℤ
integer_read (some (Reply.integer n)) = ok n
integer_read _ = error

module _ (ng : Nginx) where
  -- A copy of a string into the pool; the empty one takes no memory.
  unfoldable pub dup : Bytes → Rc Bytes
  dup src = if length src == 0 then ok src else if ng.pnalloc (length src) then ok src else error

  -- Two elements at a time; a last odd one is dropped. An element that is no string is an error.
  unfoldable pub dup_pairs : Replies → Rc (List (Bytes × Bytes))
  dup_pairs (Replies.element (Reply.string name) (Replies.element (Reply.string value) rest)) = do
    n ← dup name
    v ← dup value
    ps ← dup_pairs rest
    ok ((n, v) ∷ ps)
  dup_pairs (Replies.element _ (Replies.element _ rest)) = error
  dup_pairs _ = ok []

  -- The array of a HGETALL reply. A missing key is an empty array, and any other type reads as one.
  unfoldable pub hgetall_read : Option Reply → Rc (List (Bytes × Bytes))
  unfolding reply_failed count_replies dup_pairs
  hgetall_read (some (Reply.array elements)) =
      if count_replies elements == 0
      then ok []
      else if ng.pnalloc (count_replies elements / 2 * (4 * word_size))
      then dup_pairs elements
      else error
  hgetall_read reply = if reply_failed reply then error else ok []

  unfoldable pub dup_members : Replies → Rc (List Bytes)
  dup_members Replies.end = ok []
  dup_members (Replies.element (Reply.string member) rest) = do
    m ← dup member
    ms ← dup_members rest
    ok (m ∷ ms)
  dup_members (Replies.element _ rest) = error

  unfoldable pub smembers_read : Option Reply → Rc (List Bytes)
  unfolding reply_failed count_replies dup_members
  smembers_read (some (Reply.array elements)) =
      if count_replies elements == 0
      then ok []
      else if ng.pnalloc (count_replies elements * (2 * word_size))
      then dup_members elements
      else error
  smembers_read reply = if reply_failed reply then error else ok []
