-- ===== src/Redis/Values.antt =====
-- What the program relies on of a Redis server, for the hashes of its records and the sets of its indexes: the value of a key,
-- and what each command does to it, as Redis documents the commands.
use nginx_auth_webauthn.Base.{
  Bytes, bytes_eq, codes, if◌then◌else◌, Bool, false, not, ◌&&◌, ◌||◌, Option, none, some, List, [],
  ◌∷◌, ◌≡◌, ◌≢◌,
}
use nginx_auth_webauthn.Base.Word.{ℤ}
use nginx_auth_webauthn.Platform.{Command, Reply, Replies}
use nginx_auth_webauthn.Redis.{hset_argv}

-- The fields of a hash, and the members of a set, by name.
abbrev pub Fields : Type 0
Fields = Bytes → Option Bytes

abbrev pub Members : Type 0
Members = Bytes → Bool

-- `other` is a key of another type, whose commands answer with an error.
pub data Value : Type 0 where
  absent : Value
  hash : Fields → Value
  set : Members → Value
  other : Value

-- A missing key is an empty hash and an empty set.
abbrev pub hash_of : Value → Option Fields
hash_of absent = some λ name. none
hash_of (hash f) = some f
hash_of (set g) = none
hash_of other = none

abbrev pub set_of : Value → Option Members
set_of absent = some λ m. false
set_of (hash f) = none
set_of (set g) = some g
set_of other = none

-- HSET, one field after the other.
abbrev pub with_field : Bytes → Bytes → Fields → Fields
with_field name value f m = if bytes_eq name m then some value else f m

abbrev pub with_fields : List (Bytes × Bytes) → Fields → Fields
with_fields [] f = f
with_fields ((name, value) ∷ pairs) f = with_fields pairs (with_field name value f)

-- A list of fields, each of which it names once.
abbrev pub lookup : List (Bytes × Bytes) → Fields
lookup [] m = none
lookup ((name, value) ∷ pairs) m =
    let rest = lookup pairs m in if bytes_eq name m then some value else rest

abbrev pub IsUnique : List (Bytes × Bytes) → Type 0
IsUnique [] = Unit {0}
IsUnique ((name, value) ∷ pairs) = (lookup pairs name ≡ none) × IsUnique pairs

abbrev pub pair_replies : List (Bytes × Bytes) → Replies
pair_replies [] = Replies.end
pair_replies ((name, value) ∷ pairs) =
    Replies.element (Reply.string name) (Replies.element (Reply.string value) (pair_replies pairs))

abbrev pub member_replies : List Bytes → Replies
member_replies [] = Replies.end
member_replies (m ∷ ms) = Replies.element (Reply.string m) (member_replies ms)

abbrev pub is_member : List Bytes → Members
is_member [] m = false
is_member (x ∷ xs) m = let rest = is_member xs m in bytes_eq x m || rest

-- Each command, where the connection lives: its reply, the new value of its key, and the values of the others.
pub record StoreLaws {Server : Type 0} (command : Command Server) (value : Server → Bytes → Value)
    : Type 0 where
  pub hset :
      (k : Bytes) (pair : Bytes × Bytes) (pairs : List (Bytes × Bytes)) (s : Server) (f : Fields)
      → hash_of (value s k) ≡ some f
      → ((n : ℤ) × ((command (codes "HSET" ∷ k ∷ hset_argv (pair ∷ pairs)) s).0
            ≡ some (Reply.integer n)))
        × (hash_of (value (command (codes "HSET" ∷ k ∷ hset_argv (pair ∷ pairs)) s).1 k)
            ≡ some (with_fields (pair ∷ pairs) f))
  pub hset_others :
      (k : Bytes) (args : List Bytes) (s : Server) (j : Bytes)
      → k ≢ j
      → value (command (codes "HSET" ∷ k ∷ args) s).1 j ≡ value s j
  pub hgetall :
      (k : Bytes) (s : Server) (f : Fields)
      → hash_of (value s k) ≡ some f
      → (pairs : List (Bytes × Bytes)) × ((command (codes "HGETALL" ∷ k ∷ []) s).0
          ≡ some (Reply.array (pair_replies pairs)))
        × IsUnique pairs
        × ((name : Bytes) → lookup pairs name ≡ f name)
  pub hgetall_all :
      (k : Bytes) (s : Server) (j : Bytes)
      → value (command (codes "HGETALL" ∷ k ∷ []) s).1 j ≡ value s j
  pub del :
      (k : Bytes) (s : Server)
      → ((n : ℤ) × ((command (codes "DEL" ∷ k ∷ []) s).0 ≡ some (Reply.integer n)))
        × (value (command (codes "DEL" ∷ k ∷ []) s).1 k ≡ absent)
  pub del_others :
      (k : Bytes) (s : Server) (j : Bytes)
      → k ≢ j
      → value (command (codes "DEL" ∷ k ∷ []) s).1 j ≡ value s j
  pub sadd :
      (k m : Bytes) (s : Server) (g : Members)
      → set_of (value s k) ≡ some g
      → ((n : ℤ) × ((command (codes "SADD" ∷ k ∷ m ∷ []) s).0 ≡ some (Reply.integer n)))
        × (set_of (value (command (codes "SADD" ∷ k ∷ m ∷ []) s).1 k)
            ≡ some λ x. bytes_eq m x || g x)
  pub sadd_others :
      (k m : Bytes) (s : Server) (j : Bytes)
      → k ≢ j
      → value (command (codes "SADD" ∷ k ∷ m ∷ []) s).1 j ≡ value s j
  pub srem :
      (k m : Bytes) (s : Server) (g : Members)
      → set_of (value s k) ≡ some g
      → ((n : ℤ) × ((command (codes "SREM" ∷ k ∷ m ∷ []) s).0 ≡ some (Reply.integer n)))
        × (set_of (value (command (codes "SREM" ∷ k ∷ m ∷ []) s).1 k)
            ≡ some λ x. not (bytes_eq m x) && g x)
  pub srem_others :
      (k m : Bytes) (s : Server) (j : Bytes)
      → k ≢ j
      → value (command (codes "SREM" ∷ k ∷ m ∷ []) s).1 j ≡ value s j
  pub smembers :
      (k : Bytes) (s : Server) (g : Members)
      → set_of (value s k) ≡ some g
      → (members : List Bytes) × ((command (codes "SMEMBERS" ∷ k ∷ []) s).0
          ≡ some (Reply.array (member_replies members)))
        × ((m : Bytes) → is_member members m ≡ g m)
  pub smembers_all :
      (k : Bytes) (s : Server) (j : Bytes)
      → value (command (codes "SMEMBERS" ∷ k ∷ []) s).1 j ≡ value s j
