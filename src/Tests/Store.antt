-- ===== src/Tests/Store.antt =====
-- A Redis server that holds hashes and sets, and keeps the laws of its values.
use nginx_auth_webauthn.Base.{
  Bytes, bytes_eq, bytes_eq_iff, codes, if◌then◌else◌, Bool, true, false, not, ◌&&◌, ◌||◌, Option,
  none, some, List, [], ◌∷◌, ◌≡◌, ◌≢◌, inl, inr, refl, sym, ◌∙◌, ap, subst, arith, Bool-cases,
}
use nginx_auth_webauthn.Base.Word.{pos}
use nginx_auth_webauthn.Platform.{Command, Reply, Replies}
use nginx_auth_webauthn.Redis.{hset_argv}
use nginx_auth_webauthn.Redis.Values.{
  Fields, Members, Value, absent, hash, hash_of, set_of, with_fields, lookup, IsUnique,
  pair_replies, member_replies, is_member, StoreLaws,
}

pub data Held : Type 0 where
  nothing : Held
  fields : List (Bytes × Bytes) → Held
  members : List Bytes → Held

abbrev pub value_of : Held → Value
value_of nothing = absent
value_of (fields pairs) = hash (lookup pairs)
value_of (members ms) = Value.set (is_member ms)

-- The newest value of a field stands first.
abbrev written : List (Bytes × Bytes) → List (Bytes × Bytes) → List (Bytes × Bytes)
written [] old = old
written (p ∷ pairs) old = written pairs (p ∷ old)

abbrev without_field : Bytes → List (Bytes × Bytes) → List (Bytes × Bytes)
without_field k [] = []
without_field k ((name, v) ∷ pairs) =
    let rest = without_field k pairs in if bytes_eq k name then rest else (name, v) ∷ rest

abbrev distinct : List (Bytes × Bytes) → List (Bytes × Bytes)
distinct [] = []
distinct ((name, v) ∷ pairs) = (name, v) ∷ without_field name (distinct pairs)

abbrev without_member : Bytes → List Bytes → List Bytes
without_member k [] = []
without_member k (m ∷ ms) =
    let rest = without_member k ms in if bytes_eq k m then rest else m ∷ rest

abbrev pairs_of : List Bytes → List (Bytes × Bytes)
pairs_of (name ∷ v ∷ rest) = (name, v) ∷ pairs_of rest
pairs_of _ = []

abbrev put_at : Bytes → Held → (Bytes → Held) → Bytes → Held
put_at k held s j = if bytes_eq k j then held else s j

abbrev done : Option Reply
done = some (Reply.integer (pos 1))

abbrev wrong_type : Option Reply
wrong_type = some (Reply.error_reply (codes "WRONGTYPE"))

abbrev hset_held : List Bytes → Held → Option Reply × Held
hset_held args nothing = (done, fields (written (pairs_of args) []))
hset_held args (fields old) = (done, fields (written (pairs_of args) old))
hset_held args (members ms) = (wrong_type, members ms)

abbrev hgetall_reply : Held → Option Reply
hgetall_reply nothing = some (Reply.array Replies.end)
hgetall_reply (fields pairs) = some (Reply.array (pair_replies (distinct pairs)))
hgetall_reply (members ms) = wrong_type

abbrev sadd_held : List Bytes → Held → Option Reply × Held
sadd_held (m ∷ args) nothing = (done, members (m ∷ []))
sadd_held (m ∷ args) (members ms) = (done, members (m ∷ ms))
sadd_held args held = (wrong_type, held)

abbrev srem_held : List Bytes → Held → Option Reply × Held
srem_held (m ∷ args) nothing = (done, nothing)
srem_held (m ∷ args) (members ms) = (done, members (without_member m ms))
srem_held args held = (wrong_type, held)

abbrev smembers_reply : Held → Option Reply
smembers_reply nothing = some (Reply.array Replies.end)
smembers_reply (fields pairs) = wrong_type
smembers_reply (members ms) = some (Reply.array (member_replies ms))

abbrev at_key :
    Bytes → (Held → Option Reply × Held) → (Bytes → Held) → Option Reply × (Bytes → Held)
at_key k run s = let (r, held) = run (s k) in (r, put_at k held s)

abbrev pub store_command : Command (Bytes → Held)
store_command (cmd ∷ k ∷ args) s =
    if bytes_eq cmd (codes "HSET")
    then at_key k (hset_held args) s
    else if bytes_eq cmd (codes "HGETALL")
    then (hgetall_reply (s k), s)
    else if bytes_eq cmd (codes "DEL")
    then (done, put_at k nothing s)
    else if bytes_eq cmd (codes "SADD")
    then at_key k (sadd_held args) s
    else if bytes_eq cmd (codes "SREM")
    then at_key k (srem_held args) s
    else if bytes_eq cmd (codes "SMEMBERS")
    then (smembers_reply (s k), s)
    else (done, s)
store_command _ s = (none, s)

abbrev pub store_value : (Bytes → Held) → Bytes → Value
store_value s k = value_of (s k)

bytes_eq_refl : (k : Bytes) → bytes_eq k k ≡ true
bytes_eq_refl k = (bytes_eq_iff k k).1 refl

bytes_eq_other : (k j : Bytes) → k ≢ j → bytes_eq k j ≡ false
bytes_eq_other k j h = ground (arith, bytes_eq_iff k j, h)

put_here : (k : Bytes) (held : Held) (s : Bytes → Held) → put_at k held s k ≡ held
put_here k held s = rw (bytes_eq_refl k) refl

put_there :
    (k j : Bytes) (held : Held) (s : Bytes → Held)
    → k ≢ j
    → value_of (put_at k held s j) ≡ store_value s j
put_there k j held s h = rw (bytes_eq_other k j h) refl

pairs_of-hset_argv : (pairs : List (Bytes × Bytes)) → pairs_of (hset_argv pairs) ≡ pairs
unfolding hset_argv
pairs_of-hset_argv [] = refl
pairs_of-hset_argv ((name, v) ∷ pairs) = ap (λ rest. (name, v) ∷ rest) (pairs_of-hset_argv pairs)

some-injective : {A : Type 0} {a b : A} → some a ≡ some b → a ≡ b
some-injective h = cc

lookup-written :
    (pairs old : List (Bytes × Bytes)) → lookup (written pairs old) ≡ with_fields pairs (lookup old)
lookup-written [] old = refl
lookup-written ((name, v) ∷ pairs) old = lookup-written pairs ((name, v) ∷ old)

lookup-without_here :
    (k : Bytes) (pairs : List (Bytes × Bytes)) → lookup (without_field k pairs) k ≡ none
lookup-without_here k [] = refl
lookup-without_here k ((name, v) ∷ pairs) = elim (Bool-cases (bytes_eq k name)) [
  | inl e ↦ rw e (lookup-without_here k pairs)
  | inr e ↦ rw e (
      rw (bytes_eq_other name k λ h. cc ((bytes_eq_iff k name).1 (sym h), e))
        (lookup-without_here k pairs))
]

lookup-without_there :
    (k m : Bytes) (pairs : List (Bytes × Bytes))
    → bytes_eq k m ≡ false
    → lookup (without_field k pairs) m ≡ lookup pairs m
lookup-without_there k m [] h = refl
lookup-without_there k m ((name, v) ∷ pairs) h = elim (Bool-cases (bytes_eq k name)) [
  | inl e ↦ rw e (
      rw (subst (λ n. bytes_eq n m ≡ false) ((bytes_eq_iff k name).0 e) h)
        (lookup-without_there k m pairs h))
  | inr e ↦
      rw e (ap (λ o. if bytes_eq name m then some v else o) (lookup-without_there k m pairs h))
]

without_field-IsUnique :
    (k : Bytes) (pairs : List (Bytes × Bytes)) → IsUnique pairs → IsUnique (without_field k pairs)
without_field-IsUnique k [] u = tt
without_field-IsUnique k ((name, v) ∷ pairs) (fresh, u) = elim (Bool-cases (bytes_eq k name)) [
  | inl e ↦ rw e (without_field-IsUnique k pairs u)
  | inr e ↦ rw e (lookup-without_there k name pairs e ∙ fresh, without_field-IsUnique k pairs u)
]

distinct-IsUnique : (pairs : List (Bytes × Bytes)) → IsUnique (distinct pairs)
distinct-IsUnique [] = tt
distinct-IsUnique ((name, v) ∷ pairs) = (
  lookup-without_here name (distinct pairs),
  without_field-IsUnique name (distinct pairs) (distinct-IsUnique pairs),
)

lookup-distinct :
    (pairs : List (Bytes × Bytes)) (m : Bytes) → lookup (distinct pairs) m ≡ lookup pairs m
lookup-distinct [] m = refl
lookup-distinct ((name, v) ∷ pairs) m = elim (Bool-cases (bytes_eq name m)) [
  | inl e ↦ rw e refl
  | inr e ↦ rw e (lookup-without_there name m (distinct pairs) e ∙ lookup-distinct pairs m)
]

absorb : (a b : Bool) → (not a && b) ≡ (not a && (a || b))
absorb true b = refl
absorb false b = refl

is_member-without :
    (k : Bytes) (ms : List Bytes) (x : Bytes)
    → is_member (without_member k ms) x ≡ (not (bytes_eq k x) && is_member ms x)
is_member-without k [] x = ground arith
is_member-without k (m ∷ ms) x = elim (Bool-cases (bytes_eq k m)) [
  | inl e ↦ rw e (
      rw (sym ((bytes_eq_iff k m).0 e))
        (is_member-without k ms x ∙ absorb (bytes_eq k x) (is_member ms x)))
  | inr e ↦ rw e (elim (Bool-cases (bytes_eq m x)) [
    | inl n ↦ rw n (rw (subst (λ m. bytes_eq k m ≡ false) ((bytes_eq_iff m x).0 n) e) refl)
    | inr n ↦ rw n (is_member-without k ms x)
  ])
]

store_hset :
    (k : Bytes) (pair : Bytes × Bytes) (pairs : List (Bytes × Bytes)) (held : Held) (f : Fields)
    → hash_of (value_of held) ≡ some f
    → ((hset_held (hset_argv (pair ∷ pairs)) held).0 ≡ done)
      × (hash_of (value_of (hset_held (hset_argv (pair ∷ pairs)) held).1)
          ≡ some (with_fields (pair ∷ pairs) f))
store_hset k pair pairs nothing f h = (
  refl,
  ap some (
      ap lookup (ap (λ ps. written ps []) (pairs_of-hset_argv (pair ∷ pairs)))
      ∙ lookup-written (pair ∷ pairs) []
      ∙ ap (with_fields (pair ∷ pairs)) (some-injective h)),
)
store_hset k pair pairs (fields old) f h = (
  refl,
  ap some (
      ap lookup (ap (λ ps. written ps old) (pairs_of-hset_argv (pair ∷ pairs)))
      ∙ lookup-written (pair ∷ pairs) old
      ∙ ap (with_fields (pair ∷ pairs)) (some-injective h)),
)
store_hset k pair pairs (members ms) f h = cc

store_sadd :
    (m : Bytes) (held : Held) (g : Members)
    → set_of (value_of held) ≡ some g
    → ((sadd_held (m ∷ []) held).0 ≡ done)
      × (set_of (value_of (sadd_held (m ∷ []) held).1) ≡ some λ x. bytes_eq m x || g x)
store_sadd m nothing g h = (refl, ap (λ g. some λ x. bytes_eq m x || g x) (some-injective h))
store_sadd m (fields ps) g h = cc
store_sadd m (members ms) g h = (refl, ap (λ g. some λ x. bytes_eq m x || g x) (some-injective h))

store_srem :
    (m : Bytes) (held : Held) (g : Members)
    → set_of (value_of held) ≡ some g
    → ((srem_held (m ∷ []) held).0 ≡ done)
      × (set_of (value_of (srem_held (m ∷ []) held).1) ≡ some λ x. not (bytes_eq m x) && g x)
store_srem m nothing g h = (
  refl,
  ap some (λ i x. is_member-without m [] x i)
      ∙ ap (λ g. some λ x. not (bytes_eq m x) && g x) (some-injective h),
)
store_srem m (fields ps) g h = cc
store_srem m (members ms) g h = (
  refl,
  ap some (λ i x. is_member-without m ms x i)
      ∙ ap (λ g. some λ x. not (bytes_eq m x) && g x) (some-injective h),
)

store_hgetall :
    (held : Held) (f : Fields)
    → hash_of (value_of held) ≡ some f
    → (pairs : List (Bytes × Bytes)) × (hgetall_reply held
        ≡ some (Reply.array (pair_replies pairs)))
      × IsUnique pairs
      × ((name : Bytes) → lookup pairs name ≡ f name)
store_hgetall nothing f h = ([], refl, tt, λ name. ap (λ g. g name) (some-injective h))
store_hgetall (fields ps) f h = (
  distinct ps,
  refl,
  distinct-IsUnique ps,
  λ name. lookup-distinct ps name ∙ ap (λ g. g name) (some-injective h),
)
store_hgetall (members ms) f h = cc

store_smembers :
    (held : Held) (g : Members)
    → set_of (value_of held) ≡ some g
    → (ms : List Bytes) × (smembers_reply held ≡ some (Reply.array (member_replies ms)))
      × ((m : Bytes) → is_member ms m ≡ g m)
store_smembers nothing g h = ([], refl, λ m. ap (λ f. f m) (some-injective h))
store_smembers (fields ps) g h = cc
store_smembers (members ms) g h = (ms, refl, λ m. ap (λ f. f m) (some-injective h))

pub store_laws : StoreLaws store_command store_value
unfolding bytes_eq
store_laws = record {
  hset = λ k pair pairs s f h.
      let (r, v) = store_hset k pair pairs (s k) f h in
      ((pos 1, r), ap (λ held. hash_of (value_of held)) (put_here k _ s) ∙ v);
  hset_others = λ k args s j h. put_there k j _ s h;
  hgetall = λ k s f h. store_hgetall (s k) f h;
  hgetall_all = λ k s j. refl;
  del = λ k s. ((pos 1, refl), ap value_of (put_here k nothing s));
  del_others = λ k s j h. put_there k j nothing s h;
  sadd = λ k m s g h.
      let (r, v) = store_sadd m (s k) g h in
      ((pos 1, r), ap (λ held. set_of (value_of held)) (put_here k _ s) ∙ v);
  sadd_others = λ k m s j h. put_there k j _ s h;
  srem = λ k m s g h.
      let (r, v) = store_srem m (s k) g h in
      ((pos 1, r), ap (λ held. set_of (value_of held)) (put_here k _ s) ∙ v);
  srem_others = λ k m s j h. put_there k j _ s h;
  smembers = λ k s g h. store_smembers (s k) g h;
  smembers_all = λ k s j. refl;
}
