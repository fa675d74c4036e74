-- ===== src/MemoryPool/Setup.antt =====
-- The constructor of `MemoryPool` (LoginServer_Chat/MemoryPool.h) and its free stack.
use login_server_chat.Prelude.{
  ℕ, zero, suc, ltb, le→ltb, false, some, ◌+◌, ◌-◌, ◌*◌, ◌%◌, ◌^◌, ◌≤◌, ◌<◌, ◌==◌, List, [], ◌∷◌,
  ◌≡◌, ◌≢◌, refl, subst, ap, arith,
}
use login_server_chat.MemoryPool.{
  Block, Pool, set_block, complement, init_blocks, align_up, new_pool,
}
use login_server_chat.MemoryPool.Stack.{IsChain, Holds, IsNotIn, set_block-IsChain, set_block_here}

-- The addresses of the blocks from the index `i` on, each after those before.
abbrev pub block_list : ℕ → ℕ → ℕ → ℕ → List ℕ → List ℕ
block_list zero block_pool stride i bs = bs
block_list (suc left) block_pool stride i bs =
    block_list left block_pool stride (i + 1) ((block_pool + stride * i) ∷ bs)

abbrev AllUnder : ℕ → List ℕ → Type 0
AllUnder a [] = Unit {0}
AllUnder a (b ∷ bs) = (b < a) × AllUnder a bs

AllUnder-IsNotIn : (a : ℕ) (bs : List ℕ) → AllUnder a bs → IsNotIn a bs
AllUnder-IsNotIn a [] u = tt
AllUnder-IsNotIn a (b ∷ bs) u = ((λ e. omega (arith, u.0)), AllUnder-IsNotIn a bs u.1)

AllUnder-le : (a c : ℕ) (bs : List ℕ) → a ≤ c → AllUnder a bs → AllUnder c bs
AllUnder-le a c [] le u = tt
AllUnder-le a c (b ∷ bs) le u = (omega (arith, u.0), AllUnder-le a c bs le u.1)

next_index : (stride i : ℕ) → stride * (i + 1) ≡ stride * i + stride
next_index stride i = omega arith

init_blocks-Holds :
    (left block_pool stride i : ℕ) (bs : List ℕ) (p : Pool)
    → 0 < block_pool
    → 0 < stride
    → block_pool + stride * (i + left) < 2 ^ 47
    → AllUnder (block_pool + stride * i) bs
    → p.free_stack_top < 2 ^ 47
    → Holds p bs
    → Holds (init_blocks left block_pool stride i p) (block_list left block_pool stride i bs)
unfolding init_blocks
init_blocks-Holds zero block_pool stride i bs p pos step low under top holds = holds
init_blocks-Holds (suc left) block_pool stride i bs p pos step low under top holds =
    let a = block_pool + stride * i in
    let b : Block = record {
      pre_code = p.my_code;
      next = p.free_stack_top;
      post_code = complement p.my_code;
    } in
    let n : stride * (i + 1) ≡ stride * i + stride = next_index stride i in
    let m : stride * (i + suc left) ≡ stride * (i + 1 + left) =
      ap (λ k. stride * k) (omega arith) in
    let le : a < 2 ^ 47 = omega (arith, low) in
    let untagged : p.free_stack_top % 2 ^ 47 ≡ p.free_stack_top = omega (arith, top) in
    init_blocks-Holds left block_pool stride (i + 1) (a ∷ bs)
      (record (set_block p a b) { free_stack_top = a }) pos step (omega (arith, low, m))
      (
        omega (arith, n, step),
        AllUnder-le a (block_pool + stride * (i + 1)) bs (omega (arith, n)) under,
      )
      le
      (
        omega (arith, le),
        omega (arith, pos),
        le,
        rw (set_block_here p a b) (
            set_block-IsChain p a b p.free_stack_top bs (AllUnder-IsNotIn a bs under)
              (subst (λ x. IsChain p.blocks x bs) untagged holds)),
      )

init_blocks-total_cnt :
    (left block_pool stride i : ℕ) (p : Pool)
    → (init_blocks left block_pool stride i p).total_cnt ≡ p.total_cnt
unfolding init_blocks set_block
init_blocks-total_cnt zero block_pool stride i p = refl
init_blocks-total_cnt (suc left) block_pool stride i p =
    init_blocks-total_cnt left block_pool stride (i + 1) _

-- The constructor, when the system is as it expects, the numbers of blocks are in order, there are
-- blocks at first, fewer than 2 ^ 31 of them, for which its `int` index is enough, and `VirtualAlloc` has memory for them below 2 ^ 47: its free stack holds these blocks,
-- the last one first.
pub new_pool-Holds :
    (memory : ℕ → Block) (secure_code alloc_addr align stride init max : ℕ)
    → 0 < init
    → init < 2 ^ 31
    → init ≤ max
    → 0 < stride
    → 0 < align_up alloc_addr align
    → align_up alloc_addr align + stride * init < 2 ^ 47
    → alloc_addr ≢ 0
    → (p : Pool) × (new_pool memory 0x00007FFFFFFEFFFF secure_code alloc_addr align stride init max
        ≡ some p)
      × Holds p (block_list init (align_up alloc_addr align) stride 0 [])
      × (p.total_cnt ≡ init)
unfolding new_pool
new_pool-Holds memory secure_code alloc_addr align stride init max pos small le step base low
      there =
    let bare : Pool = record {
      blocks = memory;
      free_stack_top = 0;
      add_alloc_cnt = 2 ^ 64 - 1;
      add_alloc_max = max - init;
      use_cnt = 0;
      total_cnt = init;
      my_code = (secure_code + 1) % 2 ^ 64;
    } in
    let enough : ltb max init ≡ false = le→ltb max init le in
    let some_ : (init == 0) ≡ false = ground arith in
    let found : (alloc_addr == 0) ≡ false = ground arith in
    rw (enough, some_, found)
      (
        init_blocks init (align_up alloc_addr align) stride 0 bare,
        refl,
        init_blocks-Holds init (align_up alloc_addr align) stride 0 [] bare base step
            (omega (arith, low)) tt (omega arith) refl,
        init_blocks-total_cnt init (align_up alloc_addr align) stride 0 bare,
      )
