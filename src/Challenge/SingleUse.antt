-- ===== src/Challenge/SingleUse.antt =====
-- A challenge is consumed at most once for each time that it was issued, whatever requests run against the same server, in
-- any order and on any worker: the effect of each of them on the server is one command.
use nginx_auth_webauthn.Base.{
  ℕ, ◌+◌, ◌≤◌, Bytes, bytes_eq, bytes_eq_iff, if◌then◌else◌, Bool, true, false, ◌&&◌, Option, none,
  some, List, [], ◌∷◌, ◌≡◌, inl, inr, refl, subst, arith, Bool-cases, sym,
}
use nginx_auth_webauthn.Base.Rc.{Rc, ok, declined, error}
use nginx_auth_webauthn.Base.Word.{ℤ}
use nginx_auth_webauthn.Platform.{Nginx, Command}
use nginx_auth_webauthn.Keys.{challenge_name, record_name, rate_limit_name}
use nginx_auth_webauthn.Keys.Disjoint.{challenge_name_unique}
use nginx_auth_webauthn.Redis.{Client, redis_hset, redis_incr_expire}
use nginx_auth_webauthn.Redis.Laws.{StringLaws, Adds-redis_hset, Adds-redis_incr_expire}
use nginx_auth_webauthn.Challenge.{challenge_issue, challenge_consume}
use nginx_auth_webauthn.Challenge.Held.{
  kept, paid, is_kept, some-injective, drawn_now, held, issue_present, consume_present,
  consume_taken,
}

-- The requests that touch the server: a challenge is issued with what RAND_bytes gave, one is consumed, a rate-limit counter is
-- bumped, a credential's fields are written; and time passes.
pub data Event : Type 0 where
  issue : Option Bytes → ℤ → Event
  consume : Bytes → Event
  hit : Bytes → ℕ → Event
  save : Bytes → List (Bytes × Bytes) → Event
  elapse : ℕ → Event

unfoldable pub is_ok : {A : Type 0} → Rc A → Bool
is_ok (ok a) = true
is_ok declined = false
is_ok error = false

is_ok-true : (r : Rc (Unit {0})) → is_ok r ≡ true → r ≡ ok tt
unfolding is_ok
is_ok-true (ok u) h = refl
is_ok-true declined h = cc
is_ok-true error h = cc

module _ {Server : Type 0} (ng : Nginx) (command : Command Server) (wait : ℕ → Server → Server)
    (prefix : Bytes) where
  abbrev pub open_client : Server → Client Server
  open_client s = record { connected = true; server = s }

  -- Each request on a connection of its own: whether a challenge was accepted, and the server after it.
  unfoldable pub step : Event → Server → Bool × Server
  unfolding is_ok
  step (issue rand ttl) s =
      (false, (challenge_issue ng command rand prefix ttl (open_client s)).1.server)
  step (consume c) s =
      let (r, after) = challenge_consume ng command prefix c (open_client s) in
      (is_ok r, after.server)
  step (hit ip n) s =
      (false, (redis_incr_expire ng command (rate_limit_name prefix ip) n (open_client s)).1.server)
  step (save id fields) s =
      (false, (redis_hset ng command (record_name prefix id) fields (open_client s)).1.server)
  step (elapse n) s = (false, wait n s)

  -- How often one challenge was drawn, and how often it was accepted.
  pub draws : Bytes → Event → ℕ
  draws c (issue (some r) ttl) = if bytes_eq r c then 1 else 0
  draws c _ = 0

  pub drawn : Bytes → List Event → ℕ
  drawn c [] = 0
  drawn c (e ∷ es) = draws c e + drawn c es

  pub names : Bytes → Event → Bool
  names c (consume d) = bytes_eq d c
  names c _ = false

  pub accepted : Bytes → List Event → Server → ℕ
  accepted c [] s = 0
  accepted c (e ∷ es) s = (if names c e && (step e s).0 then 1 else 0) + accepted c es (step e s).1

  module _ (present : Server → Bytes → Bool) (laws : StringLaws command present)
      (fades : (n : ℕ) (s : Server) (j : Bytes)
        → present (wait n s) j ≡ true
        → present s j ≡ true) where
    -- One request: an acceptance is paid for by what was held or drawn.
    balance :
        (c : Bytes) (e : Event) (s : Server)
        → (if names c e && (step e s).0 then 1 else 0)
            + held ng command prefix present laws c (step e s).1
          ≤ draws c e + held ng command prefix present laws c s
    unfolding step draws names
    balance c (issue none ttl) s = kept _ _ 0 λ h.
        elim (issue_present ng command prefix present laws none ttl c (open_client s) h) [
          | inl p ↦ inl p
          | inr e ↦ cc
        ]
    balance c (issue (some r) ttl) s = kept _ _ _ λ h.
        elim (issue_present ng command prefix present laws (some r) ttl c (open_client s) h) [
          | inl p ↦ inl p
          | inr e ↦ inr (drawn_now (some-injective e))
        ]
    balance c (consume d) s = elim (Bool-cases (bytes_eq d c)) [
      | inl same ↦ rw same (
          paid _ _ _
            (λ h.
              subst
                (λ d.
                  (present s (challenge_name prefix c) ≡ true)
                  × (present (challenge_consume ng command prefix d (open_client s)).1.server
                        (challenge_name prefix c)
                      ≡ false))
                (sym ((bytes_eq_iff d c).0 same))
                (consume_taken ng command prefix present laws c (open_client s) (
                  subst (λ d. (challenge_consume ng command prefix d (open_client s)).0 ≡ ok tt)
                    ((bytes_eq_iff d c).0 same) (is_ok-true _ h))))
            (consume_present ng command prefix present laws d c (open_client s)))
      | inr other ↦ rw other (
          kept _ _ 0
            λ h. inl (consume_present ng command prefix present laws d c (open_client s) h))
    ]
    balance c (hit ip n) s = kept _ _ 0 λ h.
        elim ((Adds-redis_incr_expire ng command present laws (rate_limit_name prefix ip) n).at
          (open_client s) (challenge_name prefix c) h) [
            | inl p ↦ inl p
            | inr e ↦ absurd ((challenge_name_unique prefix c ip).3 (sym (some-injective e)))
          ]
    balance c (save id fields) s = kept _ _ 0 λ h. inl (
        is_kept (
          (Adds-redis_hset ng command present laws (record_name prefix id) fields).at
            (open_client s) (challenge_name prefix c) h))
    balance c (elapse n) s = kept _ _ 0 λ h. inl (fades n s (challenge_name prefix c) h)

    -- For a server that keeps the string laws and lets keys only fade with time: from any state of it, and through any
    -- requests in any order, a challenge is accepted at most as often as it was drawn, and once more if it was held at first.
    pub accepted-le-drawn :
        (c : Bytes) (es : List Event) (s : Server)
        → accepted c es s ≤ drawn c es + held ng command prefix present laws c s
    unfolding accepted drawn
    accepted-le-drawn c [] s = omega arith
    accepted-le-drawn c (e ∷ es) s =
        omega (arith, balance c e s, accepted-le-drawn c es (step e s).1)
