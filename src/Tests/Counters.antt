-- ===== src/Tests/Counters.antt =====
-- A Redis server that holds counters, each with or without an expiry, and keeps the laws that the program relies on.
use nginx_auth_webauthn.Base.{
  ℕ, zero, suc, ◌^◌, ◌<◌, Bytes, bytes_eq, bytes_eq_iff, codes, get_or, if◌then◌else◌, Bool, true,
  false, not, ◌++◌, Option, none, some, [], ◌∷◌, ◌≡◌, refl, ap, ◌∙◌, arith,
}
use nginx_auth_webauthn.Base.Rc.{Rc, ok, declined, error}
use nginx_auth_webauthn.Base.Word.{ℤ, pos, negsuc}
use nginx_auth_webauthn.Platform.{Command, Reply}
use nginx_auth_webauthn.Redis.{decimal, incr_statements, incr_script}
use nginx_auth_webauthn.Redis.Script.{
  script_text, arguments, run_call, run_condition, run_script, int_below,
}
use nginx_auth_webauthn.Redis.Counter.{CounterLaws}
use nginx_auth_webauthn.Credential.{atoi64}
use nginx_auth_webauthn.Credential.Stored.{atoi64-decimal}

-- The number under each key, 0 where nothing is there, and whether the key has an expiry.
abbrev pub Counters : Type 0
Counters = Bytes → ℕ × Bool

abbrev pub no_counters : Counters
no_counters k = (0, false)

abbrev pub put : Bytes → ℕ × Bool → Counters → Counters
put k n s j = if bytes_eq k j then n else s j

abbrev ttl : ℕ × Bool → ℤ
ttl (n, true) = pos 60
ttl (zero, false) = negsuc 1
ttl (suc n, false) = negsuc 0

-- A time that is over removes the key.
abbrev expire : Bytes → Rc ℤ → Counters → Option Reply × Counters
expire k (ok (pos zero)) s = (some (Reply.integer (pos 1)), put k (0, false) s)
expire k (ok (pos (suc n))) s = (some (Reply.integer (pos 1)), put k ((s k).0, true) s)
expire k (ok (negsuc n)) s = (some (Reply.integer (pos 1)), put k (0, false) s)
expire k declined s = (some (Reply.error_reply (codes "ERR value is not an integer")), s)
expire k error s = (some (Reply.error_reply (codes "ERR value is not an integer")), s)

abbrev single : Command Counters
single (cmd ∷ k ∷ rest) s =
    if bytes_eq cmd (codes "INCR")
    then (some (Reply.integer (pos (suc (s k).0))), put k (suc (s k).0, (s k).1) s)
    else if bytes_eq cmd (codes "TTL")
    then (some (Reply.integer (ttl (s k))), s)
    else if bytes_eq cmd (codes "EXPIRE")
    then expire k (atoi64 (get_or rest 0 [])) s
    else (some (Reply.error_reply (codes "ERR unknown command")), s)
single _ s = (none, s)

abbrev pub counting : Command Counters
counting (cmd ∷ k ∷ rest) s =
    if bytes_eq cmd (codes "EVAL")
    then if bytes_eq k (script_text incr_statements)
      then run_script single (get_or rest 1 []) (get_or rest 2 []) incr_statements (pos 0) s
      else (some (Reply.error_reply (codes "ERR unknown script")), s)
    else single (cmd ∷ k ∷ rest) s
counting argv s = single argv s

abbrev pub count : Counters → Bytes → Option ℕ
count s k = some (s k).0

abbrev pub expires : Counters → Bytes → Bool
expires s k = (s k).1

put_here : (k : Bytes) (n : ℕ × Bool) (s : Counters) → put k n s k ≡ n
put_here k n s = rw ((bytes_eq_iff k k).1 refl) refl

number : (m n : ℕ) → some m ≡ some n → m ≡ n
number m n h = cc

counting_runs :
    (k n : Bytes) (s : Counters)
    → run_script single k n incr_statements (pos 0) s
      ≡ run_script counting k n incr_statements (pos 0) s
unfolding run_script run_condition run_call arguments incr_statements bytes_eq
counting_runs k n s = refl

counting_evals :
    (k n : Bytes) (s : Counters)
    → counting (codes "EVAL" ∷ script_text incr_statements ∷ codes "1" ∷ k ∷ n ∷ []) s
      ≡ run_script counting k n incr_statements (pos 0) s
unfolding bytes_eq
counting_evals k n s =
    rw ((bytes_eq_iff (script_text incr_statements) (script_text incr_statements)).1 refl)
      (counting_runs k n s)

ttl_sign : (n : ℕ) (b : Bool) → int_below (ttl (suc n, b)) 0 ≡ not b
ttl_sign n true = refl
ttl_sign n false = refl

counting_looks :
    (k : Bytes) (n : ℕ) (s : Counters)
    → count s k ≡ some (suc n)
    → (t : ℤ) × ((counting (codes "TTL" ∷ k ∷ []) s).0 ≡ some (Reply.integer t))
      × (int_below t 0 ≡ not (expires s k))
      × ((counting (codes "TTL" ∷ k ∷ []) s).1 ≡ s)
unfolding bytes_eq
counting_looks k n s h =
    (ttl (s k), refl, ap (λ m. int_below (ttl (m, (s k).1)) 0) (number _ _ h) ∙ ttl_sign n _, refl)

counting_increments :
    (k : Bytes) (n : ℕ) (s : Counters)
    → count s k ≡ some n
    → suc n < 2 ^ 63
    → ((counting (codes "INCR" ∷ k ∷ []) s).0 ≡ some (Reply.integer (pos (suc n))))
      × (count (counting (codes "INCR" ∷ k ∷ []) s).1 k ≡ some (suc n))
unfolding bytes_eq
counting_increments k n s h room = (
  ap (λ m. some (Reply.integer (pos (suc m)))) (number _ _ h),
  ap (λ (e : ℕ × Bool). some e.0) (put_here k _ s) ∙ ap (λ m. some (suc m)) (number _ _ h),
)

counting_prolongs :
    (k : Bytes) (n seconds : ℕ) (s : Counters)
    → count s k ≡ some (suc n)
    → 0 < seconds
    → seconds < 2 ^ 32
    → (r : ℤ) × ((counting (codes "EXPIRE" ∷ k ∷ decimal seconds ∷ []) s).0
        ≡ some (Reply.integer r))
      × (count (counting (codes "EXPIRE" ∷ k ∷ decimal seconds ∷ []) s).1 k ≡ some (suc n))
      × (expires (counting (codes "EXPIRE" ∷ k ∷ decimal seconds ∷ []) s).1 k ≡ true)
unfolding bytes_eq
counting_prolongs k n zero s h positive small = absurd (omega (arith, positive))
counting_prolongs k n (suc m) s h positive small = rw (atoi64-decimal (suc m) small) (
  pos 1,
  refl,
  ap (λ (e : ℕ × Bool). some e.0) (put_here k _ s) ∙ h,
  ap (λ (e : ℕ × Bool). e.1) (put_here k _ s),
)

pub counting_laws : CounterLaws counting count expires
counting_laws = record {
  evals = λ k n m s h. counting_evals k n s;
  increments = counting_increments;
  looks = counting_looks;
  prolongs = counting_prolongs;
}

-- The text is that of the source.
the_script :
    incr_script
    ≡ codes "local c = redis.call('INCR', KEYS[1])"
      ++ (10 ∷ codes "if c == 1 or redis.call('TTL', KEYS[1]) < 0 then")
      ++ (10 ∷ codes "  redis.call('EXPIRE', KEYS[1], ARGV[1])")
      ++ (10 ∷ codes "end")
      ++ (10 ∷ codes "return c")
unfolding incr_script script_text incr_statements decimal
the_script = refl
