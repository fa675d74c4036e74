-- ===== src/MemoryPoolTls/Tests.antt =====
-- A small pool, and each theorem there.
use login_server_chat.Prelude.{◌*◌, ◌<◌, ◌+◌, ◌-◌, ◌^◌, true, some, ◌≡◌, refl, arith}
use login_server_chat.MemoryPoolTls.Setup.{
  Found, new_pool_tls, bare_pool, chunk_cnt, PoolCalls-new_pool_tls,
}
use login_server_chat.MemoryPoolTls.{num_of_block_in_chunk, PoolTls, Supply, alloc_tls, free_tls}
use login_server_chat.MemoryPoolTls.Reuse.{IsInUse, alloc_tls-free_tls}
use login_server_chat.MemoryPoolTls.Bounds.{no_call, then_call, allocates, frees}

-- A pool that allows two chunks more, whose blocks are all in use.
abbrev pool : PoolTls
pool = record {
  blocks = λ a. record { pre_code = 5; next = 0; post_code = 5 };
  chunks = λ c. record { next = 0; free_stack_top = 0; size = 0 };
  tls_chunk = λ thread. 0;
  free_stack_top = 0;
  add_alloc_cnt = 2 ^ 64 - 1;
  add_alloc_max = 2;
  total_chunk = 0;
  use_chunk = 0;
  my_code = 5;
}

abbrev supply : Supply
supply = record { block_arr = 4096; block_size = 64; chunk = 128 }

in_use : IsInUse pool 16
in_use = record { code = omega arith; pre = refl; post = refl }

abbrev freed : PoolTls
freed = (free_tls pool 3 16 32 64).1

alloc_tls-free_tls_example :
    ((free_tls pool 3 16 32 64).0 ≡ true)
    × ((q : PoolTls) × (alloc_tls freed 3 supply supply ≡ some (16, q)) × IsInUse q 16)
alloc_tls-free_tls_example =
    alloc_tls-free_tls 3 32 64 supply supply in_use (λ chunk. omega arith) (omega arith)
      (omega arith)

-- The same run, for the tests below.
reuse :
    ((free_tls pool 3 16 32 64).0 ≡ true)
    × ((q : PoolTls) × (alloc_tls freed 3 supply supply ≡ some (16, q)) × IsInUse q 16)
reuse =
    alloc_tls-free_tls 3 32 64 supply supply in_use (λ chunk. omega arith) (omega arith)
      (omega arith)

abbrev reused : PoolTls
reused = reuse.1.0

abbrev found : Found
found = record {
  my_code = 5;
  memory = λ a. record { pre_code = 5; next = 0; post_code = 5 };
  block_pool = 0;
  block_size = 64;
  chunk_at = λ i. 128;
}

-- The constructor makes the pool, for no block at first and 800 at most.
pool_made : new_pool_tls true found 0 800 ≡ some pool
unfolding new_pool_tls bare_pool chunk_cnt
pool_made = refl

PoolCalls-new_pool_tls_example :
    reused.total_chunk * num_of_block_in_chunk < 800 + num_of_block_in_chunk
PoolCalls-new_pool_tls_example = PoolCalls-new_pool_tls true found 0 800 (omega arith) pool_made (
    then_call (then_call no_call (frees pool 3 16 32 64))
      (allocates freed reused 3 16 supply supply reuse.1.1))
