-- ===== src/MemoryPoolTls/Setup.antt =====
-- The constructor of `MemoryPoolTLS` (LoginServer_Chat/MemoryPoolTLS.h).
use login_server_chat.Prelude.{
  assign, ℕ, zero, suc, ◌+◌, ◌-◌, ◌*◌, ◌/◌, ◌%◌, ◌^◌, ◌<◌, ◌≤◌, ◌==◌, ltb, ◌&&◌, if◌then◌else◌,
  Bool, Bool-cases, Option, none, some, ◌≡◌, inl, inr, refl, sym, subst, ◌∙◌, arith,
}
use login_server_chat.MemoryPool.{Block}
use login_server_chat.MemoryPoolTls.{num_of_block_in_chunk, PoolTls, fill_chunk}
use login_server_chat.MemoryPoolTls.Limit.{counts, IsLimited, fill_chunk-counts}
use login_server_chat.MemoryPoolTls.Bounds.{PoolCalls, PoolCalls-IsLimited}

-- What the constructor finds: the code of the pool, the blocks in memory, the array of blocks that it
-- gets, 0 for none, with the size of a block, and the chunks that the chunk manager hands out.
pub record Found : Type 0 where
  pub my_code : ℕ
  pub memory : ℕ → Block
  pub block_pool : ℕ
  pub block_size : ℕ
  pub chunk_at : ℕ → ℕ

unfoldable pub chunk_cnt : ℕ → ℕ
chunk_cnt block_num = (block_num + (num_of_block_in_chunk - 1)) % 2 ^ 64 / num_of_block_in_chunk

-- The loop over the initial chunks from the i-th on, with `left` rounds to go.
unfoldable pub init_chunks : ℕ → ℕ → Found → PoolTls → PoolTls
init_chunks zero i found p = p
init_chunks (suc left) i found p =
    let chunk = found.chunk_at i in
    let first_block = found.block_pool + num_of_block_in_chunk * i * found.block_size in
    let filled = fill_chunk num_of_block_in_chunk first_block found.block_size chunk p in
    init_chunks left (i + 1) found (record filled {
      chunks =
          assign filled.chunks chunk
            (record (filled.chunks chunk) { next = filled.free_stack_top });
      free_stack_top = chunk;
    })

-- The pool before the loop. The chunks have been constructed, and no thread has one.
unfoldable pub bare_pool : Found → ℕ → ℕ → PoolTls
bare_pool found init_chunk_cnt max_chunk_cnt = record {
  blocks = found.memory;
  chunks = λ c. record { next = 0; free_stack_top = 0; size = 0 };
  tls_chunk = λ thread. 0;
  free_stack_top = 0;
  add_alloc_cnt = 2 ^ 64 - 1;
  add_alloc_max = max_chunk_cnt - init_chunk_cnt;
  total_chunk = init_chunk_cnt;
  use_chunk = 0;
  my_code = found.my_code;
}

-- `none` when the constructor throws. `supported` says whether the address space is the expected one.
unfoldable pub new_pool_tls : Bool → Found → ℕ → ℕ → Option PoolTls
new_pool_tls supported found init_block_num max_block_limit =
    let bare = bare_pool found (chunk_cnt init_block_num) (chunk_cnt max_block_limit) in
    if supported
    then (if ltb max_block_limit init_block_num
        then none
        else if init_block_num == 0 && max_block_limit == 0
        then none
        else if init_block_num == 0
        then some bare
        else if found.block_pool == 0
        then none
        else some (init_chunks (chunk_cnt init_block_num) 0 found bare))
    else none

init_chunks-counts :
    (left i : ℕ) (found : Found) (p : PoolTls) → counts (init_chunks left i found p) ≡ counts p
unfolding init_chunks
init_chunks-counts zero i found p = refl
init_chunks-counts (suc left) i found p =
    init_chunks-counts left (i + 1) found _
    ∙ fill_chunk-counts num_of_block_in_chunk _ found.block_size (found.chunk_at i) p

bare_pool-IsLimited :
    (found : Found) (initial max_chunk_cnt : ℕ)
    → initial ≤ max_chunk_cnt
    → max_chunk_cnt < 2 ^ 64 - 1
    → IsLimited initial (max_chunk_cnt - initial) (counts (bare_pool found initial max_chunk_cnt))
unfolding bare_pool
bare_pool-IsLimited found initial max_chunk_cnt le small = omega arith

chunk_cnt_le : (m n : ℕ) → m ≤ n → n < 2 ^ 64 - 400 → chunk_cnt m ≤ chunk_cnt n
unfolding chunk_cnt
chunk_cnt_le m n le small = omega arith

chunk_cnt_small : (n : ℕ) → chunk_cnt n < 2 ^ 64 - 1
unfolding chunk_cnt
chunk_cnt_small n = omega arith

abbrev AreStarted : ℕ → ℕ → Option PoolTls → Type 0
AreStarted initial max_chunk_cnt none = Unit {0}
AreStarted initial max_chunk_cnt (some p) =
    (initial ≤ max_chunk_cnt) × IsLimited initial (max_chunk_cnt - initial) (counts p)

new_pool_tls-AreStarted :
    (supported : Bool) (found : Found) (m n : ℕ)
    → n < 2 ^ 64 - 400
    → AreStarted (chunk_cnt m) (chunk_cnt n) (new_pool_tls supported found m n)
unfolding new_pool_tls
new_pool_tls-AreStarted supported found m n small = elim (Bool-cases supported) [
  | inr old ↦ rw old tt
  | inl fits ↦ elim (Bool-cases (ltb n m)) [
    | inl larger ↦ rw (fits, larger) tt
    | inr in_order ↦
        let le = chunk_cnt_le m n (ground arith) small in
        let l = bare_pool-IsLimited found (chunk_cnt m) (chunk_cnt n) le (chunk_cnt_small n) in
        elim (Bool-cases (m == 0 && n == 0)) [
          | inl wrong ↦ rw (fits, in_order, wrong) tt
          | inr right ↦ elim (Bool-cases (m == 0)) [
            | inl nothing ↦ rw (fits, in_order, right, nothing) (le, l)
            | inr blocks ↦ elim (Bool-cases (found.block_pool == 0)) [
              | inl no_memory ↦ rw (fits, in_order, right, blocks, no_memory) tt
              | inr there ↦
                  rw (fits, in_order, right, blocks, there)
                    (
                      le,
                      subst (IsLimited (chunk_cnt m) (chunk_cnt n - chunk_cnt m))
                          (sym (
                            init_chunks-counts (chunk_cnt m) 0 found
                              (bare_pool found (chunk_cnt m) (chunk_cnt n))))
                          l,
                    )
            ]
          ]
        ]
  ]
]

-- A pool that the constructor makes for at most so many blocks, fewer than 2 ^ 64 - 400, after whatever
-- calls of `Alloc` that give a block, calls of `ChunkAlloc` that give no chunk, which may count on, and
-- calls of `Free`, of any threads: the blocks of all its chunks are fewer than 400 more than the limit,
-- which is rounded up to whole chunks.
pub PoolCalls-new_pool_tls :
    (supported : Bool) (found : Found) (init_block_num max_block_limit : ℕ) {p q : PoolTls}
    → max_block_limit < 2 ^ 64 - 400
    → new_pool_tls supported found init_block_num max_block_limit ≡ some p
    → PoolCalls p q
    → q.total_chunk * num_of_block_in_chunk < max_block_limit + num_of_block_in_chunk
unfolding chunk_cnt
PoolCalls-new_pool_tls supported found m n small made calls =
    let started =
      subst (AreStarted (chunk_cnt m) (chunk_cnt n)) made
        (new_pool_tls-AreStarted supported found m n small) in
    let bound = (PoolCalls-IsLimited (chunk_cnt m) (chunk_cnt n - chunk_cnt m) calls started.1).1 in
    omega (arith, bound, started.0, small)
