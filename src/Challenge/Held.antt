-- ===== src/Challenge/Held.antt =====
-- The string key of a challenge in Redis, before and after the calls that issue and consume it.
use nginx_auth_webauthn.Base.{
  ℕ, ◌+◌, ◌≤◌, Bytes, length, codes, bytes_eq, bytes_eq_iff, ◌==◌, if◌then◌else◌, Bool, true, false,
  not, Option, none, some, ◌≡◌, ◌⊎◌, inl, inr, refl, ap, subst, arith, Bool-cases, sym, ◌∙◌,
}
use nginx_auth_webauthn.Base.Rc.{Rc, ok, declined, error, some_or, ok-injective}
use nginx_auth_webauthn.Base.Word.{ℤ}
use nginx_auth_webauthn.Platform.{Nginx, Command}
use nginx_auth_webauthn.Keys.{challenge_key, challenge_name}
use nginx_auth_webauthn.Keys.Disjoint.{challenge_name_unique}
use nginx_auth_webauthn.Redis.{Client, Exec, ◌>>=◌, lift, redis_set_ex, redis_getdel}
use nginx_auth_webauthn.Redis.Laws.{
  StringLaws, Adds, Adds-lift, Adds-bind, Adds-bind-lift, Adds-if, Adds-redis_set_ex,
  Adds-redis_getdel, getdel_taken,
}
use nginx_auth_webauthn.Challenge.{challenge_issue, challenge_consume, valid_ttl}

-- What is held after a call was held before, unless `n` counts it.
pub kept :
    (after before : Bool) (n : ℕ)
    → (after ≡ true → (before ≡ true) ⊎ (n ≡ 1))
    → 0 + (if after then 1 else 0) ≤ n + (if before then 1 else 0)
kept false before n h = omega arith
kept true true n h = omega arith
kept true false n h = elim (h refl) [ inl e ↦ cc | inr e ↦ omega (arith, e) ]

-- An acceptance takes what was held.
pub paid :
    (accepted after before : Bool)
    → (accepted ≡ true → (before ≡ true) × (after ≡ false))
    → (after ≡ true → before ≡ true)
    → (if accepted then 1 else 0) + (if after then 1 else 0) ≤ 0 + (if before then 1 else 0)
paid accepted after before h k =
    ground (arith, Bool-cases accepted, Bool-cases after, Bool-cases before)

pub some-injective : {A : Type 0} {a b : A} → some a ≡ some b → a ≡ b
some-injective h = cc

pub drawn_now : {r c : Bytes} → r ≡ c → ◌≡◌ {A = ℕ} (if bytes_eq r c then 1 else 0) 1
drawn_now {r} {c} e = rw ((bytes_eq_iff r c).1 e)

pub is_kept : {A : Type 0} {b : Bool} {j : A} → (b ≡ true) ⊎ (none ≡ some j) → b ≡ true
is_kept (inl p) = p
is_kept (inr e) = cc

module _ {Server : Type 0} (ng : Nginx) (command : Command Server) (prefix : Bytes)
    (present : Server → Bytes → Bool) (laws : StringLaws command present) where
  abbrev pub held : Bytes → Server → ℕ
  held c s = if present s (challenge_name prefix c) then 1 else 0

  challenge_key-name :
      (raw key : Bytes) → challenge_key ng prefix raw ≡ ok key → key ≡ challenge_name prefix raw
  unfolding challenge_key
  challenge_key-name raw key h = ground arith

  pub Adds-issue :
      (raw : Bytes) (ttl : ℤ)
      → Adds ng command present laws
          (some (challenge_name prefix raw))
          (challenge_issue ng command (some raw) prefix ttl)
  unfolding challenge_issue
  Adds-issue raw ttl =
      Adds-bind-lift ng command present laws (some_or (valid_ttl ttl) error) _ λ seconds _.
        Adds-bind-lift ng command present laws (ok raw) _ λ c same.
          Adds-bind-lift ng command present laws (challenge_key ng prefix c) _ λ key named.
            Adds-bind ng command present laws (redis_set_ex ng command key (codes "1") seconds) _
              (subst
                (λ k.
                  Adds ng command present laws (some k)
                    (redis_set_ex ng command key (codes "1") seconds))
                (challenge_key-name c key named
                  ∙ ap (challenge_name prefix) (sym (ok-injective same)))
                (Adds-redis_set_ex ng command present laws key (codes "1") seconds))
              λ _. Adds-lift ng command present laws (ok c)

  -- Without random bytes nothing is sent.
  pub issue_nothing :
      (ttl : ℤ) (c : Client Server) → (challenge_issue ng command none prefix ttl c).1 ≡ c
  unfolding challenge_issue
  issue_nothing ttl c = ground arith

  pub Adds-consume :
      (c : Bytes) → Adds ng command present laws none (challenge_consume ng command prefix c)
  unfolding challenge_consume
  Adds-consume c =
      Adds-if ng command present laws (not (length c == 32))
        (Adds-lift ng command present laws declined)
        (Adds-bind-lift ng command present laws (challenge_key ng prefix c) _ λ key _.
          Adds-bind ng command present laws (redis_getdel ng command key) _
            (Adds-redis_getdel ng command present laws key)
            λ found. Adds-lift ng command present laws (if found then ok tt else declined))

  abbrev accept_at : Bytes → Exec Server (Unit {0})
  accept_at key = redis_getdel ng command key >>= λ found. lift (if found then ok tt else declined)

  -- The same from the key on.
  taken_at :
      (key : Bytes) (h : Client Server)
      → (accept_at key h).0 ≡ ok tt
      → (present h.server key ≡ true) × (present (accept_at key h).1.server key ≡ false)
  taken_at key h e = by_reply (redis_getdel ng command key h).0 refl e
    where
      by_reply :
          (r : Rc Bool)
          → (redis_getdel ng command key h).0 ≡ r
          → (accept_at key h).0 ≡ ok tt
          → (present h.server key ≡ true) × (present (accept_at key h).1.server key ≡ false)
      by_reply (ok true) same e = rw same (getdel_taken ng command present laws key h same)
      by_reply (ok false) same e = cc (rw same at e)
      by_reply declined same e = cc (rw same at e)
      by_reply error same e = cc (rw same at e)

  -- An accepted challenge was there, and is there no more.
  pub consume_taken :
      (c : Bytes) (h : Client Server)
      → (challenge_consume ng command prefix c h).0 ≡ ok tt
      → (present h.server (challenge_name prefix c) ≡ true)
        × (present (challenge_consume ng command prefix c h).1.server (challenge_name prefix c)
            ≡ false)
  unfolding challenge_consume
  consume_taken c h e = elim (Bool-cases (not (length c == 32))) [
    | inl bad ↦ cc (rw bad at e)
    | inr fits ↦ rw fits (at_key (challenge_key ng prefix c) refl (rw fits at e))
  ]
    where
      at_key :
          (k : Rc Bytes)
          → challenge_key ng prefix c ≡ k
          → ((lift k >>= accept_at) h).0 ≡ ok tt
          → (present h.server (challenge_name prefix c) ≡ true)
            × (present ((lift k >>= accept_at) h).1.server (challenge_name prefix c) ≡ false)
      at_key (ok key) same e =
          subst (λ n. (present h.server n ≡ true) × (present (accept_at key h).1.server n ≡ false))
            (challenge_key-name c key same) (taken_at key h e)
      at_key declined same e = cc
      at_key error same e = cc

  -- A key that is there after a challenge was issued was there before, or was drawn.
  pub issue_present :
      (rand : Option Bytes) (ttl : ℤ) (c : Bytes) (h : Client Server)
      → present (challenge_issue ng command rand prefix ttl h).1.server (challenge_name prefix c)
        ≡ true
      → (present h.server (challenge_name prefix c) ≡ true) ⊎ (rand ≡ some c)
  issue_present none ttl c h e =
      inl (subst (λ k. present k.server (challenge_name prefix c) ≡ true) (issue_nothing ttl h) e)
  issue_present (some r) ttl c h e = elim ((Adds-issue r ttl).at h (challenge_name prefix c) e) [
    | inl p ↦ inl p
    | inr e ↦ inr (ap some ((challenge_name_unique prefix r c).0 (some-injective e)))
  ]

  pub consume_present :
      (d c : Bytes) (h : Client Server)
      → present (challenge_consume ng command prefix d h).1.server (challenge_name prefix c) ≡ true
      → present h.server (challenge_name prefix c) ≡ true
  consume_present d c h e = is_kept ((Adds-consume d).at h (challenge_name prefix c) e)
