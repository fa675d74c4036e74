-- ===== src/MemoryPool/Tests.antt =====
-- A pool with the block 64 in use and the blocks 128 and 192 free.
use login_server_chat.Prelude.{
  ℕ, ◌+◌, ◌*◌, ◌-◌, ◌^◌, ◌≤◌, ◌<◌, ◌==◌, if◌then◌else◌, [], ◌∷◌, some, true, false, ◌≡◌, ◌≢◌, refl,
  arith,
}
use login_server_chat.MemoryPool.{
  Block, Pool, pop, alloc, alloc_from, free, set_block, complement, init_blocks, align_up, new_pool,
}
use login_server_chat.MemoryPool.Stack.{Holds}
use login_server_chat.MemoryPool.Codes.{HasFreeTop, free_twice, free-alloc}
use login_server_chat.MemoryPool.Limit.{begun, allocs, frees, PoolRun-new_pool}
use login_server_chat.MemoryPool.Setup.{block_list, new_pool-Holds}

abbrev some_blocks : ℕ → Block
some_blocks a =
    if a == 64
    then record { pre_code = 9; next = 0; post_code = 9 }
    else if a == 128
    then record { pre_code = 9; next = 192; post_code = 2 ^ 64 - 10 }
    else record { pre_code = 9; next = 0; post_code = 2 ^ 64 - 10 }

-- The counter in the top is 3.
abbrev pool : Pool
pool = record {
  blocks = some_blocks;
  free_stack_top = 128 + 3 * 2 ^ 47;
  add_alloc_cnt = 2 ^ 64 - 1;
  add_alloc_max = 0;
  use_cnt = 1;
  total_cnt = 3;
  my_code = 9;
}

alloc-pool : ((alloc pool 0).0 ≡ 128) × ((alloc pool 0).1.free_stack_top ≡ 192 + 4 * 2 ^ 47)
unfolding alloc alloc_from pop set_block complement
alloc-pool = (refl, refl)

pool-Holds : Holds pool (128 ∷ 192 ∷ [])
pool-Holds = (refl, omega arith, omega arith, (refl, omega arith, omega arith, refl))

taken : (free pool 64).0 ≡ true
unfolding free
taken = refl

free_twice_example : free (free pool 64).1 64 ≡ (false, (free pool 64).1)
free_twice_example = free_twice pool 64 taken

pool-HasFreeTop : HasFreeTop pool
unfolding complement
pool-HasFreeTop = record { code_small = omega arith; front = refl; behind = refl }

pool-gives : (alloc pool 0).0 ≢ 0
pool-gives = λ e. omega (arith, alloc-pool.0)

-- Another pool, with the code 11.
free-alloc_example :
    let (node, p') = alloc pool 0 in
    let q' : Pool = record pool { blocks = p'.blocks; my_code = 11 } in
    ((free p' node).0 ≡ true) × (free q' node ≡ (false, q'))
free-alloc_example =
    free-alloc pool (record pool { my_code = 11 }) 0 pool-HasFreeTop pool-gives (λ e. omega arith)

-- Three blocks of 64 bytes of at most four, at 65536.
abbrev made : Pool
made = init_blocks 3 65536 64 0 (record {
  blocks = some_blocks;
  free_stack_top = 0;
  add_alloc_cnt = 2 ^ 64 - 1;
  add_alloc_max = 1;
  use_cnt = 0;
  total_cnt = 3;
  my_code = 9;
})

made_lem : new_pool some_blocks 0x00007FFFFFFEFFFF 8 65536 8 64 3 4 ≡ some made
unfolding new_pool align_up
made_lem = refl

-- Four calls of `Alloc` and one of `Free`, of a block that is not in use.
PoolRun-new_pool_example :
    (free (alloc (alloc (alloc (alloc made 0).1 0).1 0).1 131072).1 7).1.total_cnt ≤ 4
PoolRun-new_pool_example =
    PoolRun-new_pool some_blocks 0x00007FFFFFFEFFFF 8 65536 8 64 3 4 (omega arith) made_lem
      (frees 7 (allocs 131072 (allocs 0 (allocs 0 (allocs 0 begun)))))

below : (0 < align_up 65536 8) × (align_up 65536 8 + 64 * 3 < 2 ^ 47)
unfolding align_up
below = (omega arith, omega arith)

new_pool-Holds_example :
    (p : Pool) × (new_pool some_blocks 0x00007FFFFFFEFFFF 8 65536 8 64 3 4 ≡ some p)
    × Holds p (block_list 3 (align_up 65536 8) 64 0 [])
    × (p.total_cnt ≡ 3)
new_pool-Holds_example =
    new_pool-Holds some_blocks 8 65536 8 64 3 4 (omega arith) (omega arith) (omega arith)
      (omega arith) below.0 below.1 (λ e. ground arith)
