-- ===== src/Compat/Pool/Blocks.antt =====
-- Where the blocks of a pool go.
use nginx_auth_webauthn.Base.{
  ℕ, ◌+◌, ◌==◌, if◌then◌else◌, Bool, true, false, Option, none, some, List, [], ◌∷◌, ◌++◌, ◌≡◌,
  refl, arith, Bool-cases, inl, inr,
}
use nginx_auth_webauthn.Compat.Pool.{
  Large, Cleanup, Pool, new_pool, Done, palloc, unlink, unlinked, pfree, pool_cleanup_add, cleaned,
  released, destroy_pool,
}

-- How often a block stands in a list.
abbrev pub is : ℕ → ℕ → ℕ
is a b = if a == b then 1 else 0

abbrev pub times : ℕ → List ℕ → ℕ
times a [] = 0
times a (b ∷ bs) = is a b + times a bs

times-append : (a : ℕ) (xs ys : List ℕ) → times a (xs ++ ys) ≡ times a xs + times a ys
times-append a [] ys = omega arith
times-append a (x ∷ xs) ys = omega (arith, times-append a xs ys)

abbrev pub given : ℕ → Option ℕ → ℕ
given a none = 0
given a (some b) = is a b

-- A use of the pool, with what malloc gives to its calls.
pub data Call : Type 0 where
  alloc : Option ℕ → Option ℕ → Call
  free : ℕ → Call
  add : Bool → Option ℕ → Option ℕ → Call

-- The second malloc is not called where the first gave NULL, or for no size.
abbrev pub mallocs : ℕ → Call → ℕ
mallocs a (alloc none _) = 0
mallocs a (alloc (some p) node) = is a p + given a node
mallocs a (free p) = 0
mallocs a (add sized none memory) = 0
mallocs a (add true (some node) memory) = is a node + given a memory
mallocs a (add false (some node) memory) = is a node

unfoldable pub run_call : Call → Pool → Done
run_call (alloc p node) pool = palloc p node pool
run_call (free p) pool = pfree p pool
run_call (add sized node memory) pool = pool_cleanup_add sized node memory pool

-- The memory that the cleanups hold.
unfoldable pub held_memory : ℕ → List Cleanup → ℕ
held_memory a [] = 0
held_memory a (c ∷ cs) = given a c.memory + held_memory a cs

abbrev owned : ℕ → Pool → ℕ
owned a pool = times a (destroy_pool pool) + held_memory a pool.cleanup

abbrev part : ℕ → Option Large → ℕ
part a none = 0
part a (some l) = is a l.alloc + is a l.node

unlink-released :
    (a p : ℕ) (ls : List Large)
    → times a (released ls) ≡ part a (unlink p ls).0 + times a (released (unlink p ls).1)
unfolding unlink released
unlink-released a p [] = refl
unlink-released a p (l ∷ ls) = elim (Bool-cases (l.alloc == p)) [
  | inl found ↦ rw found (omega arith)
  | inr other ↦ rw other (omega (arith, unlink-released a p ls))
]

-- Every list of the pool, counted.
owned-parts :
    (a : ℕ) (pool : Pool)
    → owned a pool
      ≡ times a (cleaned pool.cleanup)
        + held_memory a pool.cleanup
        + times a (released pool.large)
        + is a pool.block
unfolding destroy_pool
owned-parts a pool = omega (
  arith,
  times-append a (cleaned pool.cleanup) (released pool.large ++ (pool.block ∷ [])),
  times-append a (released pool.large) (pool.block ∷ []),
)

palloc_balance :
    (a : ℕ) (p node : Option ℕ) (pool : Pool)
    → mallocs a (alloc p node) + owned a pool
      ≡ times a (palloc p node pool).freed + owned a (palloc p node pool).pool
unfolding palloc released
palloc_balance a none _ pool = omega arith
palloc_balance a (some p) none pool = omega arith
palloc_balance a (some p) (some node) pool = omega (
  arith,
  owned-parts a pool,
  owned-parts a (record pool { large = record { alloc = p; node = node } ∷ pool.large }),
)

unlinked_balance :
    (a : ℕ) (r : Option Large × List Large) (pool : Pool)
    → times a (released pool.large) ≡ part a r.0 + times a (released r.1)
    → owned a pool ≡ times a (unlinked r pool).freed + owned a (unlinked r pool).pool
unfolding unlinked
unlinked_balance a (none, rest) pool h = omega arith
unlinked_balance a (some l, rest) pool h =
    omega (arith, h, owned-parts a pool, owned-parts a (record pool { large = rest }))

pfree_balance :
    (a p : ℕ) (pool : Pool)
    → 0 + owned a pool ≡ times a (pfree p pool).freed + owned a (pfree p pool).pool
unfolding pfree
pfree_balance a p pool =
    omega (arith, unlinked_balance a (unlink p pool.large) pool (unlink-released a p pool.large))

add_balance :
    (a : ℕ) (sized : Bool) (node memory : Option ℕ) (pool : Pool)
    → mallocs a (add sized node memory) + owned a pool
      ≡ times a (pool_cleanup_add sized node memory pool).freed
        + owned a (pool_cleanup_add sized node memory pool).pool
unfolding pool_cleanup_add cleaned held_memory
add_balance a true none memory pool = omega arith
add_balance a false none memory pool = omega arith
add_balance a true (some node) none pool = omega arith
add_balance a true (some node) (some memory) pool = omega (
  arith,
  owned-parts a pool,
  owned-parts a (record pool {
    cleanup = record { node = node; memory = some memory; handler = none } ∷ pool.cleanup;
  }),
)
add_balance a false (some node) memory pool = omega (
  arith,
  owned-parts a pool,
  owned-parts a (record pool {
    cleanup = record { node = node; memory = none; handler = none } ∷ pool.cleanup;
  }),
)

-- One call: what malloc gave is freed, or owned by the pool.
call_balance :
    (a : ℕ) (call : Call) (pool : Pool)
    → mallocs a call + owned a pool
      ≡ times a (run_call call pool).freed + owned a (run_call call pool).pool
unfolding run_call
call_balance a (alloc p node) pool = palloc_balance a p node pool
call_balance a (free p) pool = pfree_balance a p pool
call_balance a (add sized node memory) pool = add_balance a sized node memory pool

-- A run of calls: how often malloc gave a block, how often it was freed, and the pool at the end.
unfoldable pub got : ℕ → List Call → ℕ
got a [] = 0
got a (c ∷ cs) = mallocs a c + got a cs

unfoldable pub freed_by : ℕ → List Call → Pool → ℕ
unfolding run_call
freed_by a [] pool = 0
freed_by a (c ∷ cs) pool = times a (run_call c pool).freed + freed_by a cs (run_call c pool).pool

unfoldable pub run : List Call → Pool → Pool
unfolding run_call
run [] pool = pool
run (c ∷ cs) pool = run cs (run_call c pool).pool

run_balance :
    (a : ℕ) (cs : List Call) (pool : Pool)
    → got a cs + owned a pool ≡ freed_by a cs pool + owned a (run cs pool)
unfolding got freed_by run
run_balance a [] pool = omega arith
run_balance a (c ∷ cs) pool =
    omega (arith, call_balance a c pool, run_balance a cs (run_call c pool).pool)

-- Through any calls on a new pool and its destruction, a block is freed exactly as often as malloc gave it, save for the memory of a
-- cleanup, which nothing frees.
pub destroy_pool-frees :
    (a block : ℕ) (cs : List Call)
    → (if a == block then 1 else 0) + got a cs
      ≡ freed_by a cs (new_pool block)
        + times a (destroy_pool (run cs (new_pool block)))
        + held_memory a (run cs (new_pool block)).cleanup
unfolding destroy_pool cleaned released held_memory
destroy_pool-frees a block cs = omega (arith, run_balance a cs (new_pool block))
