-- ===== src/Tests/Server.antt =====
-- A Redis server that holds string keys in a list, and keeps the laws that the program relies on.
use nginx_auth_webauthn.Base.{
  String, Bytes, bytes_eq, bytes_eq_iff, codes, get_or, if◌then◌else◌, Bool, true, false, ◌||◌,
  Option, none, some, List, [], ◌∷◌, ◌≡◌, ◌⊎◌, inl, inr, refl, arith, Bool-cases,
}
use nginx_auth_webauthn.Base.Word.{pos}
use nginx_auth_webauthn.Platform.{Command, Reply, Replies, element, end}
use nginx_auth_webauthn.Redis.Laws.{
  StringLaws, IsSent, set, eval, getdel, hset, hgetall, del, auth, select, sadd, srem, smembers,
  expire,
}

abbrev pub holds : List Bytes → Bytes → Bool
holds [] k = false
holds (x ∷ xs) k = bytes_eq x k || holds xs k

abbrev pub without : Bytes → List Bytes → List Bytes
without k [] = []
without k (x ∷ xs) = let rest = without k xs in if bytes_eq x k then rest else x ∷ rest

-- Every record is this one, and every user has the credential AQID.
abbrev field : String → String → Replies → Replies
field name value rest =
    element (Reply.string (codes name)) (element (Reply.string (codes value)) rest)

abbrev stored_record : Replies
stored_record =
    field "user_id" "alice"
      (field "public_key" "key" (field "alg" "-7" (field "sign_count" "4" end)))

abbrev pub test_command : Command (List Bytes)
test_command (cmd ∷ k ∷ rest) s =
    if bytes_eq cmd (codes "SET")
    then (some (Reply.status (codes "OK")), k ∷ s)
    else if bytes_eq cmd (codes "EVAL")
    then (some (Reply.integer (pos 1)), get_or rest 1 [] ∷ s)
    else if bytes_eq cmd (codes "GETDEL")
    then ((if holds s k then some (Reply.string []) else some Reply.nil), without k s)
    else if bytes_eq cmd (codes "HGETALL")
    then (some (Reply.array stored_record), s)
    else if bytes_eq cmd (codes "SMEMBERS")
    then (some (Reply.array (element (Reply.string (codes "AQID")) end)), s)
    else (some (Reply.integer (pos 1)), s)
test_command _ s = (none, s)

without-holds :
    (k : Bytes) (s : List Bytes) (j : Bytes) → holds (without k s) j ≡ true → holds s j ≡ true
without-holds k [] j h = h
without-holds k (x ∷ xs) j h = ground (arith, without-holds k xs j)

without-gone : (k : Bytes) (s : List Bytes) → holds (without k s) k ≡ false
without-gone k [] = refl
without-gone k (x ∷ xs) = ground (arith, without-gone k xs)

created :
    (k : Bytes) (s : List Bytes) (j : Bytes)
    → holds (k ∷ s) j ≡ true
    → (holds s j ≡ true) ⊎ (some k ≡ some j)
created k s j h = ground (arith, bytes_eq_iff k j)

test_frame :
    (argv : List Bytes) (w : Option Bytes) (s : List Bytes) (j : Bytes)
    → IsSent argv w
    → holds (test_command argv s).1 j ≡ true
    → (holds s j ≡ true) ⊎ (w ≡ some j)
unfolding bytes_eq
test_frame argv w s j (set k v n) h = created k s j h
test_frame argv w s j (eval k n) h = created k s j h
test_frame argv w s j (getdel k) h = inl (without-holds k s j h)
test_frame argv w s j (hset k fields) h = inl h
test_frame argv w s j (hgetall k) h = inl h
test_frame argv w s j (del k) h = inl h
test_frame argv w s j (auth k) h = inl h
test_frame argv w s j (select k) h = inl h
test_frame argv w s j (sadd k m) h = inl h
test_frame argv w s j (srem k m) h = inl h
test_frame argv w s j (smembers k) h = inl h
test_frame argv w s j (expire k n) h = inl h

test_found :
    (k v : Bytes) (s : List Bytes)
    → (test_command (codes "GETDEL" ∷ k ∷ []) s).0 ≡ some (Reply.string v)
    → (holds s k ≡ true) × (holds (test_command (codes "GETDEL" ∷ k ∷ []) s).1 k ≡ false)
unfolding bytes_eq
test_found k v s h = elim (Bool-cases (holds s k)) [
  | inl found ↦ (found, without-gone k s)
  | inr absent ↦ cc (rw absent at h)
]

pub test_laws : StringLaws test_command holds
test_laws = record { frame = test_frame; getdel_found = test_found }
