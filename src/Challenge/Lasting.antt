-- ===== src/Challenge/Lasting.antt =====
-- How long a challenge that was issued is accepted, where nobody else consumes it.
use nginx_auth_webauthn.Base.{
  ℕ, ◌+◌, ◌*◌, ◌-◌, ◌^◌, ◌<◌, Bytes, length, codes, ltb, leb, ◌==◌, ==_iff, if◌then◌else◌, Bool,
  true, false, not, ◌&&◌, Option, none, some, List, [], ◌∷◌, All, ◌≡◌, ◌≢◌, inl, inr, refl, sym, ap,
  ◌∙◌, subst, arith, Bool-cases,
}
use nginx_auth_webauthn.Base.Rc.{ok, declined, error, some_or, ok-injective}
use nginx_auth_webauthn.Base.Word.{ℤ, pos, negsuc}
use nginx_auth_webauthn.Platform.{Nginx, Command}
use nginx_auth_webauthn.Keys.{challenge_key, challenge_name, record_name, rate_limit_name}
use nginx_auth_webauthn.Keys.Disjoint.{challenge_name_unique}
use nginx_auth_webauthn.Redis.{
  Exec, numbuf, decimal, with_ctx, with_number, exec, exec_with, redis_set_ex, redis_getdel,
  redis_hset, redis_incr_expire, status_read, integer_read, getdel_read, is_string, reply_failed,
  hset_argv, word_size,
}
use nginx_auth_webauthn.Redis.Digits.{length-decimal}
use nginx_auth_webauthn.Redis.Lasting.{
  LastingLaws, run_down, set, eval, getdel, hset, Spares, Spares-lift, Spares-exec_with, Spares-if,
  Spares-with_ctx, Spares-bind, Spares-bind-lift,
}
use nginx_auth_webauthn.Challenge.{challenge_issue, challenge_consume, valid_ttl}
use nginx_auth_webauthn.Challenge.SingleUse.{
  Event, issue, consume, hit, save, elapse, step, open_client, is_ok,
}

-- How long requests take: only an `elapse` lets time pass.
abbrev pub seconds_of : Event → ℕ
seconds_of (issue rand ttl) = 0
seconds_of (consume d) = 0
seconds_of (hit ip n) = 0
seconds_of (save id fields) = 0
seconds_of (elapse n) = n

unfoldable pub elapsed : List Event → ℕ
elapsed [] = 0
elapsed (e ∷ es) = seconds_of e + elapsed es

unspent : (n : ℕ) → some n ≡ some (n - 0)
unspent n = ap some (omega arith)

some_or_ok : (rand : Option Bytes) (r : Bytes) → some_or rand error ≡ ok r → rand ≡ some r
some_or_ok none r h = cc
some_or_ok (some x) r h = ap some (ok-injective h)

module _ {Server : Type 0} (ng : Nginx) (command : Command Server) (wait : ℕ → Server → Server)
    (prefix : Bytes) (memory : (n : ℕ) → ng.pnalloc n ≡ true) (left : Server → Bytes → Option ℕ)
    (laws : LastingLaws command wait left) where
  challenge_key_lem : (c : Bytes) → challenge_key ng prefix c ≡ ok (challenge_name prefix c)
  unfolding challenge_key
  challenge_key_lem c = rw (memory (length (challenge_name prefix c))) refl

  -- SET and GETDEL on a live connection.
  set_lem :
      (k v : Bytes) (n : ℕ) (s : Server)
      → 0 < n
      → n < 2 ^ 32
      → ((redis_set_ex ng command k v n (open_client ng command wait prefix s)).0 ≡ ok tt)
        × (left (redis_set_ex ng command k v n (open_client ng command wait prefix s)).1.server k
            ≡ some n)
  unfolding redis_set_ex with_ctx with_number exec_with exec
  set_lem k v n s positive small = elim (Bool-cases (leb numbuf (length (decimal n)))) [
    | inl long ↦ absurd (ground (arith, length-decimal n, long))
    | inr fits ↦
        let ((m, replied), here) = laws.stores k v n s positive small in
        rw fits (unfold status_read reply_failed in (rw replied refl), here)
  ]

  getdel_lem :
      (k : Bytes) (n : ℕ) (s : Server)
      → left s k ≡ some n
      → (redis_getdel ng command k (open_client ng command wait prefix s)).0 ≡ ok (ltb 0 n)
  unfolding redis_getdel with_ctx exec_with exec getdel_read is_string reply_failed
  getdel_lem k n s h = elim (Bool-cases (ltb 0 n)) [
    | inl more ↦
        let (v, replied) = laws.returns k n s h (ground (arith, more)) in rw (replied, more) refl
    | inr over ↦
        let replied = laws.misses k s (subst (λ m. left s k ≡ some m) (ground (arith, over)) h) in
        rw (replied, over) refl
  ]

  valid_ttl_range : (ttl : ℤ) (n : ℕ) → valid_ttl ttl ≡ some n → (0 < n) × (n < 2 ^ 32)
  unfolding valid_ttl
  valid_ttl_range (pos m) n h = elim (Bool-cases (ltb 0 m && leb m (2 ^ 32 - 1))) [
    | inl valid ↦ ground (arith, valid, rw valid at h)
    | inr out ↦ cc (rw out at h)
  ]
  valid_ttl_range (negsuc m) n h = cc

  -- The challenge is stored.
  issued :
      (c : Bytes) (ttl : ℤ) (n : ℕ) (s : Server)
      → valid_ttl ttl ≡ some n
      → left
          (challenge_issue ng command
            (some c)
            prefix
            ttl
            (open_client ng command wait prefix s)).1.server
          (challenge_name prefix c)
        ≡ some n
  unfolding challenge_issue
  issued c ttl n s v =
      let (positive, small) = valid_ttl_range ttl n v in
      let (r, here) = set_lem (challenge_name prefix c) (codes "1") n s positive small in
      rw v (rw (challenge_key_lem c) (rw r here))

  consumed :
      (c : Bytes) (n : ℕ) (s : Server)
      → length c ≡ 32
      → left s (challenge_name prefix c) ≡ some n
      → (challenge_consume ng command prefix c (open_client ng command wait prefix s)).0
        ≡ (if ltb 0 n then ok tt else declined)
  unfolding challenge_consume
  consumed c n s l h =
      rw ((==_iff (length c) 32).1 l)
        (rw (challenge_key_lem c) (rw (getdel_lem (challenge_name prefix c) n s h) refl))

  -- The other requests leave the key of the challenge.
  module _ (c : Bytes) where
    abbrev Leaves : {A : Type 0} → Exec Server A → Type 0
    Leaves = Spares ng command wait left laws (challenge_name prefix c)

    set_ex-Leaves :
        (k v : Bytes) (n : ℕ) → k ≢ challenge_name prefix c → Leaves (redis_set_ex ng command k v n)
    unfolding redis_set_ex with_number
    set_ex-Leaves k v n ne = Spares-with_ctx ng command wait left laws _ _ (
        Spares-if ng command wait left laws _ (leb numbuf (length (decimal n)))
          (Spares-lift ng command wait left laws _ error)
          (Spares-exec_with ng command wait left laws _ status_read _ k (set k v (decimal n)) ne))

    issue-Leaves :
        (rand : Option Bytes) (ttl : ℤ)
        → rand ≢ some c
        → Leaves (challenge_issue ng command rand prefix ttl)
    unfolding challenge_issue
    issue-Leaves rand ttl ne =
        Spares-bind-lift ng command wait left laws _ (some_or (valid_ttl ttl) error) _ λ seconds _.
          Spares-bind-lift ng command wait left laws _ (some_or rand error) _ λ r drawn.
            Spares-bind-lift ng command wait left laws _ (challenge_key ng prefix r) _ λ key named.
              Spares-bind ng command wait left laws _
                (redis_set_ex ng command key (codes "1") seconds) _
                (set_ex-Leaves key (codes "1") seconds λ same. ne (
                  some_or_ok rand r drawn
                  ∙ ap some (
                      (challenge_name_unique prefix r c).0
                        (ok-injective (sym (challenge_key_lem r) ∙ named) ∙ same))))
                λ _. Spares-lift ng command wait left laws _ (ok r)

    getdel-Leaves : (k : Bytes) → k ≢ challenge_name prefix c → Leaves (redis_getdel ng command k)
    unfolding redis_getdel
    getdel-Leaves k ne =
        Spares-with_ctx ng command wait left laws _ _
          (Spares-exec_with ng command wait left laws _ getdel_read _ k (getdel k) ne)

    consume-Leaves : (d : Bytes) → d ≢ c → Leaves (challenge_consume ng command prefix d)
    unfolding challenge_consume
    consume-Leaves d ne =
        Spares-if ng command wait left laws _ (not (length d == 32))
          (Spares-lift ng command wait left laws _ declined)
          (Spares-bind-lift ng command wait left laws _ (challenge_key ng prefix d) _ λ key named.
            Spares-bind ng command wait left laws _ (redis_getdel ng command key) _
              (getdel-Leaves key λ same. ne (
                (challenge_name_unique prefix d c).0
                  (ok-injective (sym (challenge_key_lem d) ∙ named) ∙ same)))
              λ found. Spares-lift ng command wait left laws _ (if found then ok tt else declined))

    hit-Leaves :
        (ip : Bytes) (n : ℕ) → Leaves (redis_incr_expire ng command (rate_limit_name prefix ip) n)
    unfolding redis_incr_expire with_number
    hit-Leaves ip n = Spares-with_ctx ng command wait left laws _ _ (
        Spares-if ng command wait left laws _ (leb numbuf (length (decimal n)))
          (Spares-lift ng command wait left laws _ error)
          (Spares-exec_with ng command wait left laws _ integer_read _ _
            (eval (rate_limit_name prefix ip) (decimal n))
            λ same. (challenge_name_unique prefix c ip).3 (sym same)))

    save-Leaves :
        (id : Bytes) (fields : List (Bytes × Bytes))
        → Leaves (redis_hset ng command (record_name prefix id) fields)
    unfolding redis_hset
    save-Leaves id fields = Spares-with_ctx ng command wait left laws _ _ (
        Spares-if ng command wait left laws _ (length fields == 0)
          (Spares-lift ng command wait left laws _ (ok tt))
          (Spares-if ng command wait left laws _ (ng.pnalloc ((2 + length fields * 2) * word_size))
            (Spares-exec_with ng command wait left laws _ status_read _ _
              (hset (record_name prefix id) (hset_argv fields))
              λ same. (challenge_name_unique prefix c id).1 (sym same))
            (Spares-lift ng command wait left laws _ error)))

    -- A request that neither consumes the challenge nor draws it again.
    abbrev pub IsSparing : Event → Type 0
    IsSparing (issue rand ttl) = rand ≢ some c
    IsSparing (consume d) = d ≢ c
    IsSparing (hit ip n) = Unit {0}
    IsSparing (save id fields) = Unit {0}
    IsSparing (elapse n) = Unit {0}

    step_spares :
        (e : Event) (n : ℕ) (s : Server)
        → IsSparing e
        → left s (challenge_name prefix c) ≡ some n
        → left (step ng command wait prefix e s).1 (challenge_name prefix c)
          ≡ some (n - seconds_of e)
    unfolding step
    step_spares (issue rand ttl) n s v h = (issue-Leaves rand ttl v).at _ ∙ h ∙ unspent n
    step_spares (consume d) n s v h = (consume-Leaves d v).at _ ∙ h ∙ unspent n
    step_spares (hit ip m) n s v h = (hit-Leaves ip m).at _ ∙ h ∙ unspent n
    step_spares (save id fields) n s v h = (save-Leaves id fields).at _ ∙ h ∙ unspent n
    step_spares (elapse t) n s v h = laws.passes t s (challenge_name prefix c) ∙ ap (run_down t) h

  -- The server after some requests.
  pub after_events : List Event → Server → Server
  after_events [] s = s
  after_events (e ∷ es) s = after_events es (step ng command wait prefix e s).1

  spared :
      (c : Bytes) (es : List Event) (n : ℕ) (s : Server)
      → All (IsSparing c) es
      → left s (challenge_name prefix c) ≡ some n
      → left (after_events es s) (challenge_name prefix c) ≡ some (n - elapsed es)
  unfolding after_events elapsed
  spared c [] n s v h = h ∙ unspent n
  spared c (e ∷ es) n s (v, vs) h =
      spared c es _ _ vs (step_spares c e n s v h) ∙ ap some (omega arith)

  is_ok_found : (b : Bool) → is_ok (if b then ok tt else declined) ≡ b
  unfolding is_ok
  is_ok_found true = refl
  is_ok_found false = refl

  -- Where memory suffices and the server answers and keeps a key for the seconds that it was given: a challenge of 32 bytes that was issued for a valid time is
  -- accepted when it comes back before that time is over, and not after, whatever requests ran in between, if none of them
  -- consumed it or drew it again.
  pub issued-accepted :
      (c : Bytes) (ttl : ℤ) (n : ℕ) (es : List Event) (s : Server)
      → length c ≡ 32
      → valid_ttl ttl ≡ some n
      → All (IsSparing c) es
      → (step ng command wait prefix
          (consume c)
          (after_events es (step ng command wait prefix (issue (some c) ttl) s).1)).0
        ≡ ltb (elapsed es) n
  unfolding step
  issued-accepted c ttl n es s l v vs =
      rw (consumed c _ _ l (spared c es n _ vs (issued c ttl n s v))) (is_ok_found _ ∙ ground arith)
