-- ===== src/Tests/Clock.antt =====
-- A Redis server whose string keys have the seconds that they last, and keeps the laws that the program relies on.
use nginx_auth_webauthn.Base.{
  ℕ, ◌-◌, ◌^◌, ◌<◌, Bytes, bytes_eq, bytes_eq_iff, codes, get_or, ltb, if◌then◌else◌, true, Option,
  none, some, List, [], ◌∷◌, ◌≡◌, ◌≢◌, inl, inr, refl, ap, arith, Bool-cases,
}
use nginx_auth_webauthn.Base.Rc.{Rc, ok, declined, error}
use nginx_auth_webauthn.Base.Word.{ℤ, pos, negsuc}
use nginx_auth_webauthn.Platform.{Command, Reply}
use nginx_auth_webauthn.Redis.{decimal}
use nginx_auth_webauthn.Redis.Lasting.{LastingLaws, IsOn}
use nginx_auth_webauthn.Credential.{atoi64}
use nginx_auth_webauthn.Credential.Stored.{atoi64-decimal}

abbrev pub Clock : Type 0
Clock = Bytes → ℕ

abbrev put : Bytes → ℕ → Clock → Clock
put k n s j = if bytes_eq k j then n else s j

abbrev positive : Rc ℤ → Option ℕ
positive (ok (pos n)) = if ltb 0 n then some n else none
positive (ok (negsuc n)) = none
positive declined = none
positive error = none

-- SET with an expiry that is no positive number is refused.
abbrev set_for : Bytes → Option ℕ → Clock → Option Reply × Clock
set_for k none s = (some (Reply.error_reply (codes "ERR invalid expire time")), s)
set_for k (some n) s = (some (Reply.status (codes "OK")), put k n s)

abbrev pub clock_command : Command Clock
clock_command (cmd ∷ k ∷ rest) s =
    if bytes_eq cmd (codes "SET")
    then set_for k (positive (atoi64 (get_or rest 2 []))) s
    else if bytes_eq cmd (codes "EVAL")
    then (some (Reply.integer (pos 1)), put (get_or rest 1 []) 60 s)
    else if bytes_eq cmd (codes "GETDEL")
    then ((if ltb 0 (s k) then some (Reply.string (codes "1")) else some Reply.nil), put k 0 s)
    else (some (Reply.integer (pos 1)), s)
clock_command _ s = (none, s)

abbrev pub clock_wait : ℕ → Clock → Clock
clock_wait t s k = s k - t

abbrev pub clock_left : Clock → Bytes → Option ℕ
clock_left s k = some (s k)

put-other : (k j : Bytes) (n : ℕ) (s : Clock) → k ≢ j → put k n s j ≡ s j
put-other k j n s ne = elim (Bool-cases (bytes_eq k j)) [
  | inl e ↦ absurd (ne ((bytes_eq_iff k j).0 e))
  | inr e ↦ rw e refl
]

set_for-other : (k j : Bytes) (n : Option ℕ) (s : Clock) → k ≢ j → (set_for k n s).1 j ≡ s j
set_for-other k j none s ne = refl
set_for-other k j (some n) s ne = put-other k j n s ne

clock_elsewhere :
    (argv : List Bytes) (k j : Bytes) (s : Clock)
    → IsOn argv k
    → k ≢ j
    → clock_left (clock_command argv s).1 j ≡ clock_left s j
unfolding bytes_eq
clock_elsewhere argv k j s (IsOn.set key v n) ne =
    ap some (set_for-other key j (positive (atoi64 n)) s ne)
clock_elsewhere argv k j s (IsOn.eval key n) ne = ap some (put-other key j 60 s ne)
clock_elsewhere argv k j s (IsOn.getdel key) ne = ap some (put-other key j 0 s ne)
clock_elsewhere argv k j s (IsOn.hset key fields) ne = refl

clock_stores :
    (k v : Bytes) (n : ℕ) (s : Clock)
    → 0 < n
    → n < 2 ^ 32
    → ((m : Bytes) × ((clock_command (codes "SET" ∷ k ∷ v ∷ codes "EX" ∷ decimal n ∷ []) s).0
          ≡ some (Reply.status m)))
      × (clock_left (clock_command (codes "SET" ∷ k ∷ v ∷ codes "EX" ∷ decimal n ∷ []) s).1 k
          ≡ some n)
unfolding bytes_eq
clock_stores k v n s more small =
    rw (atoi64-decimal n small, positive_test n more)
      ((codes "OK", refl), ap some (rw ((bytes_eq_iff k k).1 refl) refl))
  where
    positive_test : (n : ℕ) → 0 < n → ltb 0 n ≡ true
    positive_test n h = ground arith

clock_returns :
    (k : Bytes) (n : ℕ) (s : Clock)
    → clock_left s k ≡ some n
    → 0 < n
    → (v : Bytes) × ((clock_command (codes "GETDEL" ∷ k ∷ []) s).0 ≡ some (Reply.string v))
unfolding bytes_eq
clock_returns k n s h more = (codes "1", ground (arith, h, more))

clock_misses :
    (k : Bytes) (s : Clock)
    → clock_left s k ≡ some 0
    → (clock_command (codes "GETDEL" ∷ k ∷ []) s).0 ≡ some Reply.nil
unfolding bytes_eq
clock_misses k s h = ground (arith, h)

pub clock_laws : LastingLaws clock_command clock_wait clock_left
clock_laws = record {
  elsewhere = clock_elsewhere;
  stores = clock_stores;
  passes = λ t s j. refl;
  returns = clock_returns;
  misses = clock_misses;
}
