-- ===== src/Assertion/Counter.antt =====
-- Clone detection by the signature counter (`check_counter` of src/ngx_auth_webauthn_assertion.c).
use nginx_auth_webauthn.Base.{ℕ, ◌<◌, ◌≡◌, ◌↔◌, ◌⊎◌, List, [], ◌∷◌, arith}
use nginx_auth_webauthn.Base.Rc.{ok, declined, error}
use nginx_auth_webauthn.Assertion.{check_counter, clone_strict, clone_lax, clone_off}

-- What each policy allows: `off` and `lax` all counters, any other only a counter that grows, or none at all.
abbrev pub CounterAllowed : ℕ → ℕ → ℕ → Type 0
CounterAllowed policy auth stored =
    (policy ≡ clone_off) ⊎ (policy ≡ clone_lax) ⊎ ((auth ≡ 0) × (stored ≡ 0)) ⊎ (stored < auth)

-- For every policy value, the check passes exactly the counters that the policy allows, and declines exactly the others.
pub check_counter_iff :
    (policy auth stored : ℕ)
    → ((check_counter policy auth stored ≡ ok tt) ↔ CounterAllowed policy auth stored)
      × ((check_counter policy auth stored ≡ declined) ↔ (¬ CounterAllowed policy auth stored))
unfolding check_counter
check_counter_iff policy auth stored = (ground arith, ground arith)

-- The counters of successive assertions: each accepted one is stored, as the verify handler does, and a
-- refused one leaves what is stored.
pub count_all : ℕ → ℕ → List ℕ → List ℕ
count_all policy stored [] = []
count_all policy stored (auth ∷ rest) = elim (check_counter policy auth stored) [
  | ok _ ↦ auth ∷ count_all policy auth rest
  | declined ↦ count_all policy stored rest
  | error ↦ count_all policy stored rest
]

-- Above `floor`, and growing, unless the authenticator has no counter.
abbrev pub Grows : ℕ → List ℕ → Type 0
Grows floor [] = Unit
Grows floor (c ∷ cs) = ((floor < c) ⊎ ((floor ≡ 0) × (c ≡ 0))) × Grows c cs

-- Under the strict policy, whatever counters arrive one after the other, each accepted one is above the counter
-- stored before it, unless both are 0.
pub count_all-Grows :
    (arrivals : List ℕ) (stored : ℕ) → Grows stored (count_all clone_strict stored arrivals)
unfolding count_all check_counter
count_all-Grows [] stored = tt
count_all-Grows (auth ∷ rest) stored =
    ground (arith, count_all-Grows rest auth, count_all-Grows rest stored)
