-- ===== src/Redis/Effects.antt =====
-- src/ngx_auth_webauthn_redis.c on a server that keeps the laws of its values: where the connection lives and memory suffices, what
-- each call returns, and what it does to the values.
use nginx_auth_webauthn.Base.{
  ℕ, ◌*◌, ◌+◌, Bytes, bytes_eq, length, codes, ◌==◌, if◌then◌else◌, true, not, ◌&&◌, ◌||◌, some,
  Option, List, [], ◌∷◌, ◌≡◌, ◌≢◌, inl, inr, suc, subst, refl, sym, arith, Bool-cases, ==_iff,
}
use nginx_auth_webauthn.Base.Rc.{Rc, ok}
use nginx_auth_webauthn.Base.Word.{ℤ}
use nginx_auth_webauthn.Platform.{Nginx, Command, Reply}
use nginx_auth_webauthn.Redis.{
  Client, Exec, ◌>>=◌, with_ctx, exec, exec_with, redis_hset, redis_hgetall, redis_del, redis_sadd,
  redis_srem, redis_smembers, set_op, hset_argv, status_read, reply_failed, hgetall_read,
  smembers_read, dup, dup_pairs, dup_members, count_replies,
}
use nginx_auth_webauthn.Redis.Values.{
  StoreLaws, Value, Fields, Members, absent, hash_of, set_of, with_fields, lookup, IsUnique,
  pair_replies, member_replies, is_member,
}

-- A step whose result is known gives way to what follows it.
pub then_step :
    {S A B : Type 0} (m : Exec S A) (f : A → Exec S B) (c : Client S) {a : A}
    → (m c).0 ≡ ok a
    → (m >>= f) c ≡ f a (m c).1
then_step m f c e = rw e refl

module _ (ng : Nginx) (memory : (n : ℕ) → ng.pnalloc n ≡ true) where
  dup_lem : (b : Bytes) → dup ng b ≡ ok b
  unfolding dup
  dup_lem b = elim (Bool-cases (length b == 0)) [
    | inl e ↦ rw e refl
    | inr e ↦ rw e (rw (memory (length b)) refl)
  ]

  dup_pairs_lem : (pairs : List (Bytes × Bytes)) → dup_pairs ng (pair_replies pairs) ≡ ok pairs
  unfolding dup_pairs
  dup_pairs_lem [] = refl
  dup_pairs_lem ((name, v) ∷ pairs) =
      rw (dup_lem name) (rw (dup_lem v) (rw (dup_pairs_lem pairs) refl))

  dup_members_lem : (ms : List Bytes) → dup_members ng (member_replies ms) ≡ ok ms
  unfolding dup_members
  dup_members_lem [] = refl
  dup_members_lem (m ∷ ms) = rw (dup_lem m) (rw (dup_members_lem ms) refl)

  hgetall_read_lem :
      (pairs : List (Bytes × Bytes))
      → hgetall_read ng (some (Reply.array (pair_replies pairs))) ≡ ok pairs
  unfolding hgetall_read
  hgetall_read_lem [] = unfold count_replies in refl
  hgetall_read_lem (p ∷ pairs) = elim (Bool-cases (count_replies (pair_replies (p ∷ pairs)) == 0)) [
    | inl e ↦ absurd (unfold count_replies in omega (arith, (==_iff _ 0).0 e))
    | inr e ↦ rw e (rw (memory _) (dup_pairs_lem (p ∷ pairs)))
  ]

  smembers_read_lem :
      (ms : List Bytes) → smembers_read ng (some (Reply.array (member_replies ms))) ≡ ok ms
  unfolding smembers_read
  smembers_read_lem [] = unfold count_replies in refl
  smembers_read_lem (m ∷ ms) = elim (Bool-cases (count_replies (member_replies (m ∷ ms)) == 0)) [
    | inl e ↦ absurd (unfold count_replies in omega (arith, (==_iff _ 0).0 e))
    | inr e ↦ rw e (rw (memory _) (dup_members_lem (m ∷ ms)))
  ]

  module _ {Server : Type 0} (command : Command Server) (value : Server → Bytes → Value)
      (laws : StoreLaws command value) where
    -- What a call that succeeds on the key k leaves: a live connection, a value of k, and the other values as they were.
    pub record Leaves (k : Bytes) (c d : Client Server) (P : Value → Type 0) : Type 0 where
      pub live : d.connected ≡ true
      pub here : P (value d.server k)
      pub elsewhere : (j : Bytes) → k ≢ j → value d.server j ≡ value c.server j

    abbrev pub Effect :
        (k : Bytes) {A : Type 0} (m : Exec Server A) (c : Client Server) (a : A)
        (P : Value → Type 0)
        → Type 0
    Effect k m c a P = ((m c).0 ≡ ok a) × Leaves k c (m c).1 P

    effect :
        {A : Type 0} (k : Bytes) (read : Option Reply → Rc A) (argv : List Bytes)
        (c : Client Server) (a : A) (P : Value → Type 0) (m : Exec Server A)
        → c.connected ≡ true
        → m c ≡ exec_with ng command read argv c
        → read (command argv c.server).0 ≡ ok a
        → P (value (command argv c.server).1 k)
        → ((j : Bytes) → k ≢ j → value (command argv c.server).1 j ≡ value c.server j)
        → Effect k m c a P
    unfolding exec_with exec
    effect k read argv c a P m on e r p q =
        subst (λ out. (out.0 ≡ ok a) × Leaves k c out.1 P) (sym e)
          (r, record { live = on; here = p; elsewhere = q })

    status_ok : {r : Option Reply} {n : ℤ} → r ≡ some (Reply.integer n) → status_read r ≡ ok tt
    unfolding status_read reply_failed
    status_ok h = rw h refl

    if_suc : {A : Type 0} (n : ℕ) (r s : A) → (if suc n == 0 then r else s) ≡ s
    if_suc n r s = ground arith

    pub hset_effect :
        (k : Bytes) (pair : Bytes × Bytes) (pairs : List (Bytes × Bytes)) (c : Client Server)
        (f : Fields)
        → c.connected ≡ true
        → hash_of (value c.server k) ≡ some f
        → Effect k
            (redis_hset ng command k (pair ∷ pairs))
            c
            tt
            λ v. hash_of v ≡ some (with_fields (pair ∷ pairs) f)
    hset_effect k pair pairs c f on h =
        let ((n, replied), here) = laws.hset k pair pairs c.server f h in
        effect k status_read (codes "HSET" ∷ k ∷ hset_argv (pair ∷ pairs)) c tt _
          (redis_hset ng command k (pair ∷ pairs)) on
          (unfold redis_hset with_ctx in
            rw on (
              rw (if_suc {A = Exec Server (Unit {0})} (length pairs) _ _)
                (rw (memory ((2 + suc (length pairs) * 2) * 8)) refl)))
          (status_ok replied) here (laws.hset_others k (hset_argv (pair ∷ pairs)) c.server)

    pub hgetall_effect :
        (k : Bytes) (c : Client Server) (f : Fields)
        → c.connected ≡ true
        → hash_of (value c.server k) ≡ some f
        → (pairs : List (Bytes × Bytes)) × ((redis_hgetall ng command k c).0 ≡ ok pairs)
          × IsUnique pairs
          × ((name : Bytes) → lookup pairs name ≡ f name)
          × ((redis_hgetall ng command k c).1.connected ≡ true)
          × ((j : Bytes) → value (redis_hgetall ng command k c).1.server j ≡ value c.server j)
    unfolding redis_hgetall with_ctx exec_with exec
    hgetall_effect k c f on h =
        let (pairs, replied, unique, same) = laws.hgetall k c.server f h in
        (
          pairs,
          rw on (rw replied (hgetall_read_lem pairs)),
          unique,
          same,
          rw on refl,
          rw on (laws.hgetall_all k c.server),
        )

    pub del_effect :
        (k : Bytes) (c : Client Server)
        → c.connected ≡ true
        → Effect k (redis_del ng command k) c tt (λ v. v ≡ absent)
    del_effect k c on =
        let ((n, replied), here) = laws.del k c.server in
        effect k status_read (codes "DEL" ∷ k ∷ []) c tt _ (redis_del ng command k) on
          (unfold redis_del with_ctx in rw on refl) (status_ok replied) here
          (laws.del_others k c.server)

    pub sadd_effect :
        (k m : Bytes) (c : Client Server) (g : Members)
        → c.connected ≡ true
        → set_of (value c.server k) ≡ some g
        → Effect k (redis_sadd ng command k m) c tt λ v. set_of v ≡ some λ x. bytes_eq m x || g x
    sadd_effect k m c g on h =
        let ((n, replied), here) = laws.sadd k m c.server g h in
        effect k status_read (codes "SADD" ∷ k ∷ m ∷ []) c tt _ (redis_sadd ng command k m) on
          (unfold redis_sadd set_op with_ctx in rw on refl) (status_ok replied) here
          (laws.sadd_others k m c.server)

    pub srem_effect :
        (k m : Bytes) (c : Client Server) (g : Members)
        → c.connected ≡ true
        → set_of (value c.server k) ≡ some g
        → Effect k
            (redis_srem ng command k m)
            c
            tt
            λ v. set_of v ≡ some λ x. not (bytes_eq m x) && g x
    srem_effect k m c g on h =
        let ((n, replied), here) = laws.srem k m c.server g h in
        effect k status_read (codes "SREM" ∷ k ∷ m ∷ []) c tt _ (redis_srem ng command k m) on
          (unfold redis_srem set_op with_ctx in rw on refl) (status_ok replied) here
          (laws.srem_others k m c.server)

    pub smembers_effect :
        (k : Bytes) (c : Client Server) (g : Members)
        → c.connected ≡ true
        → set_of (value c.server k) ≡ some g
        → (ms : List Bytes) × ((redis_smembers ng command k c).0 ≡ ok ms)
          × ((m : Bytes) → is_member ms m ≡ g m)
          × ((redis_smembers ng command k c).1.connected ≡ true)
          × ((j : Bytes) → value (redis_smembers ng command k c).1.server j ≡ value c.server j)
    unfolding redis_smembers with_ctx exec_with exec
    smembers_effect k c g on h =
        let (ms, replied, same) = laws.smembers k c.server g h in
        (
          ms,
          rw on (rw replied (smembers_read_lem ms)),
          same,
          rw on refl,
          rw on (laws.smembers_all k c.server),
        )
