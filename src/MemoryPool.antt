-- ===== src/MemoryPool.antt =====
-- `MemoryPool` (LoginServer_Chat/MemoryPool.h) in the mode with checks: the free stack with its tagged
-- top, the codes around a block, and the limit on additional blocks. A function is a run of one call.
pub mod Stack
pub mod Codes
pub mod Limit
pub mod Setup
mod Tests
use login_server_chat.Prelude.{
  ℕ, zero, suc, ◌+◌, ◌-◌, ◌*◌, ◌/◌, ◌%◌, ◌^◌, ◌==◌, ltb, if◌then◌else◌, Bool, true, false, Option,
  none, some,
}

-- `BLOCK`, without its data.
pub record Block : Type 0 where
  pub pre_code : ℕ
  pub next : ℕ
  pub post_code : ℕ

-- A block stands at its address; 0 is the null pointer. The top of the stack has a counter in its
-- upper 17 bits.
pub record Pool : Type 0 where
  pub blocks : ℕ → Block
  pub free_stack_top : ℕ
  pub add_alloc_cnt : ℕ
  pub add_alloc_max : ℕ
  pub use_cnt : ℕ
  pub total_cnt : ℕ
  pub my_code : ℕ

unfoldable pub set_block : Pool → ℕ → Block → Pool
set_block p a b = record p { blocks = λ c. if c == a then b else p.blocks c }

-- `~` on 64 bits.
unfoldable pub complement : ℕ → ℕ
complement code = 2 ^ 64 - 1 - code

unfoldable pub push : Pool → ℕ → Pool
push p node =
    let bk_top = p.free_stack_top in
    let p' = set_block p node (record (p.blocks node) { next = bk_top % 2 ^ 47 }) in
    record p' { free_stack_top = node + bk_top / 2 ^ 47 * 2 ^ 47 }

-- The addresses are below 2 ^ 47, so that `|` is `+`.
unfoldable pub pop : Pool → Option (ℕ × Pool)
pop p =
    let idx = p.free_stack_top / 2 ^ 47 + 1 in
    let pop_node = p.free_stack_top % 2 ^ 47 in
    if pop_node == 0
    then none
    else some
        (pop_node, record p { free_stack_top = (p.blocks pop_node).next + idx * 2 ^ 47 % 2 ^ 64 })

-- An additional block: `fresh` is what the block allocator returns.
unfoldable pub alloc_more : Pool → ℕ → ℕ × Pool
alloc_more p fresh =
    let my_num = (p.add_alloc_cnt + 1) % 2 ^ 64 in
    let p' : Pool = record p { add_alloc_cnt = my_num } in
    if my_num == p.add_alloc_max
    then (0, p')
    else if ltb p.add_alloc_max my_num
    then (0, record p { add_alloc_cnt = (my_num + (2 ^ 64 - 1)) % 2 ^ 64 })
    else if fresh == 0
    then (0, p')
    else (
      fresh,
      set_block
          (record p' { total_cnt = (p.total_cnt + 1) % 2 ^ 64; use_cnt = (p.use_cnt + 1) % 2 ^ 64 })
          fresh (record { pre_code = p.my_code; next = 0; post_code = p.my_code }),
    )

unfoldable pub alloc_from : Pool → ℕ → Option (ℕ × Pool) → ℕ × Pool
alloc_from p fresh none = alloc_more p fresh
alloc_from p fresh (some (pop_node, p')) =
    let b = p'.blocks pop_node in
    (
      pop_node,
      set_block (record p' { use_cnt = (p'.use_cnt + 1) % 2 ^ 64 }) pop_node
          (record b { post_code = complement b.post_code }),
    )

-- The address that `Alloc` returns, 0 for null, and the pool.
unfoldable pub alloc : Pool → ℕ → ℕ × Pool
alloc p fresh = alloc_from p fresh (pop p)

unfoldable pub free : Pool → ℕ → Bool × Pool
free p node =
    let b = p.blocks node in
    if b.pre_code == b.post_code
    then (if b.pre_code == p.my_code
        then (
          true,
          push
              (set_block (record p { use_cnt = (p.use_cnt + (2 ^ 64 - 1)) % 2 ^ 64 }) node
                (record b { post_code = complement b.post_code }))
              node,
        )
        else (false, p))
    else (false, p)

-- The loop of the constructor, with the rounds that are left. Its index is an `int`, so that there are
-- less than 2 ^ 31 rounds.
unfoldable pub init_blocks : ℕ → ℕ → ℕ → ℕ → Pool → Pool
init_blocks zero block_pool stride i p = p
init_blocks (suc left) block_pool stride i p =
    let a = block_pool + stride * i in
    let b : Block = record {
      pre_code = p.my_code;
      next = p.free_stack_top;
      post_code = complement p.my_code;
    } in
    init_blocks left block_pool stride (i + 1) (record (set_block p a b) { free_stack_top = a })

unfoldable pub align_up : ℕ → ℕ → ℕ
align_up addr align = align * ((addr + align - 1) / align)

-- The constructor; `none` is a `throw`. `max_address` is what the system says, `alloc_addr` what
-- `VirtualAlloc` returns, 0 for null, and `align` and `stride` are those of `BLOCK`.
unfoldable pub new_pool : (ℕ → Block) → ℕ → ℕ → ℕ → ℕ → ℕ → ℕ → ℕ → Option Pool
new_pool memory max_address secure_code alloc_addr align stride init_block_num max_block_limit =
    let bare : Pool = record {
      blocks = memory;
      free_stack_top = 0;
      add_alloc_cnt = 2 ^ 64 - 1;
      add_alloc_max = max_block_limit - init_block_num;
      use_cnt = 0;
      total_cnt = init_block_num;
      my_code = (secure_code + 1) % 2 ^ 64;
    } in
    if max_address == 0x00007FFFFFFEFFFF
    then (if ltb max_block_limit init_block_num
        then none
        else if init_block_num == 0
        then (if max_block_limit == 0 then none else some bare)
        else if alloc_addr == 0
        then none
        else some (init_blocks init_block_num (align_up alloc_addr align) stride 0 bare))
    else none
