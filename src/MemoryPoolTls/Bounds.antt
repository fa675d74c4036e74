-- ===== src/MemoryPoolTls/Bounds.antt =====
-- The number of chunks over sequences of calls.
use login_server_chat.Prelude.{ℕ, ◌+◌, ◌≤◌, some, ◌≡◌, sym, subst, arith}
use login_server_chat.MemoryPoolTls.{PoolTls, Supply, chunk_alloc, alloc_tls, free_tls}
use login_server_chat.MemoryPoolTls.Limit.{
  counts, IsLimited, AreLimited, chunk_alloc-IsLimited, alloc_tls-AreLimited, free_tls-counts,
}

-- A call of `Alloc` that gives a block, or of `Free`, of any thread, or the `ChunkAlloc` of a call of `Alloc`
-- that gives none, after which that thread has a null pointer while others go on.
pub data PoolCall : PoolTls → PoolTls → Type 0 where
  allocates :
      (p q : PoolTls) (thread block : ℕ) (s s' : Supply)
      → alloc_tls p thread s s' ≡ some (block, q)
      → PoolCall p q
  fails : (p : PoolTls) (s : Supply) → (chunk_alloc p s).0 ≡ 0 → PoolCall p (chunk_alloc p s).1
  frees :
      (p : PoolTls) (thread block fresh spare : ℕ)
      → PoolCall p (free_tls p thread block fresh spare).1

pub data PoolCalls (p : PoolTls) : PoolTls → Type 0 where
  no_call : PoolCalls p p
  then_call : {q r : PoolTls} → PoolCalls p q → PoolCall q r → PoolCalls p r

PoolCall-IsLimited :
    {p q : PoolTls} (initial limit : ℕ)
    → PoolCall p q
    → IsLimited initial limit (counts p)
    → IsLimited initial limit (counts q)
PoolCall-IsLimited initial limit (allocates p q thread block s s' e) l =
    subst (AreLimited initial limit) e (alloc_tls-AreLimited initial limit p thread s s' l)
PoolCall-IsLimited initial limit (fails p s e) l = chunk_alloc-IsLimited p initial limit s l
PoolCall-IsLimited initial limit (frees p thread block fresh spare) l =
    subst (IsLimited initial limit) (sym (free_tls-counts p thread block fresh spare)) l

-- Whatever blocks the threads allocate and free, in any order, and whatever calls of `ChunkAlloc` give no
-- chunk: the pool never has more chunks than the initial ones and `_addAllocMax` more.
pub PoolCalls-IsLimited :
    {p q : PoolTls} (initial limit : ℕ)
    → PoolCalls p q
    → IsLimited initial limit (counts p)
    → IsLimited initial limit (counts q) × (q.total_chunk ≤ initial + limit)
PoolCalls-IsLimited {p} {q} initial limit calls l =
    let l' = all calls in (l', omega (arith, l'.added, l'.same))
  where
    all : {r : PoolTls} → PoolCalls p r → IsLimited initial limit (counts r)
    all no_call = l
    all (then_call before call) = PoolCall-IsLimited initial limit call (all before)
