-- ===== src/Compat/Pool.antt =====
-- tools/admin/ngx_compat/ngx_compat.c: the pool. An operation takes what its calls of malloc give, and tells which blocks it frees.
pub mod Blocks
use nginx_auth_webauthn.Base.{
  ℕ, ◌==◌, if◌then◌else◌, Bool, true, false, Option, none, some, List, [], ◌∷◌, ◌++◌,
}

-- An allocation: the block, and the node that holds it in the list.
pub record Large : Type 0 where
  pub alloc : ℕ
  pub node : ℕ

pub record Cleanup : Type 0 where
  pub node : ℕ
  pub memory : Option ℕ
  pub handler : Option ℕ

pub record Pool : Type 0 where
  pub block : ℕ
  pub large : List Large
  pub cleanup : List Cleanup

abbrev pub new_pool : ℕ → Pool
new_pool block = record { block = block; large = []; cleanup = [] }

-- What an operation returns: whether it succeeded, the pool after it, and the blocks freed.
pub record Done : Type 0 where
  pub ok : Bool
  pub pool : Pool
  pub freed : List ℕ

unfoldable pub palloc : Option ℕ → Option ℕ → Pool → Done
palloc none _ pool = record { ok = false; pool = pool; freed = [] }
palloc (some p) none pool = record { ok = false; pool = pool; freed = p ∷ [] }
palloc (some p) (some node) pool = record {
  ok = true;
  pool = record pool { large = record { alloc = p; node = node } ∷ pool.large };
  freed = [];
}

-- The first node with the block, and the list without it.
unfoldable pub unlink : ℕ → List Large → Option Large × List Large
unlink p [] = (none, [])
unlink p (l ∷ ls) =
    let (found, rest) = unlink p ls in if l.alloc == p then (some l, ls) else (found, l ∷ rest)

unfoldable pub unlinked : Option Large × List Large → Pool → Done
unlinked (none, rest) pool = record { ok = false; pool = pool; freed = [] }
unlinked (some l, rest) pool = record {
  ok = true;
  pool = record pool { large = rest };
  freed = l.alloc ∷ l.node ∷ [];
}

unfoldable pub pfree : ℕ → Pool → Done
unfolding unlink unlinked
pfree p pool = unlinked (unlink p pool.large) pool

abbrev pushed : ℕ → Option ℕ → Pool → Done
pushed node memory pool = record {
  ok = true;
  pool = record pool {
    cleanup = record { node = node; memory = memory; handler = none } ∷ pool.cleanup;
  };
  freed = [];
}

-- Memory only for a size that is not 0.
unfoldable pub pool_cleanup_add : Bool → Option ℕ → Option ℕ → Pool → Done
pool_cleanup_add sized none memory pool = record { ok = false; pool = pool; freed = [] }
pool_cleanup_add true (some node) none pool = record { ok = false; pool = pool; freed = node ∷ [] }
pool_cleanup_add true (some node) (some memory) pool = pushed node (some memory) pool
pool_cleanup_add false (some node) memory pool = pushed node none pool

-- The handlers run in the order of the list, which has the latest first; each node is freed after its handler.
unfoldable pub cleaned : List Cleanup → List ℕ
cleaned [] = []
cleaned (c ∷ cs) = c.node ∷ cleaned cs

unfoldable pub handled : List Cleanup → List (ℕ × Option ℕ)
handled [] = []
handled (c ∷ cs) =
    let rest = handled cs in elim c.handler [ none ↦ rest | some h ↦ (h, c.memory) ∷ rest ]

unfoldable pub released : List Large → List ℕ
released [] = []
released (l ∷ ls) = l.alloc ∷ l.node ∷ released ls

unfoldable pub destroy_pool : Pool → List ℕ
unfolding cleaned released
destroy_pool pool = cleaned pool.cleanup ++ (released pool.large ++ (pool.block ∷ []))
