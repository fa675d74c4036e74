-- ===== src/MemoryPoolTls.antt =====
-- `MemoryPoolTLS` (LoginServer_Chat/MemoryPoolTLS.h) in the mode with checks: chunks of blocks, one
-- for each thread, and the stack of full chunks. A function is a run of one call.
pub mod Reuse
pub mod Limit
pub mod Bounds
pub mod Setup
mod Tests
use login_server_chat.Prelude.{
  assign, ℕ, zero, suc, ◌+◌, ◌-◌, ◌*◌, ◌/◌, ◌%◌, ◌^◌, ◌==◌, ltb, if◌then◌else◌, Bool, true, false,
  Option, none, some,
}
use login_server_chat.MemoryPool.{Block, complement}

abbrev pub num_of_block_in_chunk : ℕ
num_of_block_in_chunk = 400

-- `_freeStackTop` is the address of a block, `_next` that of a chunk.
pub record Chunk : Type 0 where
  pub next : ℕ
  pub free_stack_top : ℕ
  pub size : ℕ

-- Blocks and chunks stand at their addresses; 0 is the null pointer. `tls_chunk` is what `TlsGetValue`
-- returns in each thread. The top of the stack of chunks has a counter in its upper 17 bits.
pub record PoolTls : Type 0 where
  pub blocks : ℕ → Block
  pub chunks : ℕ → Chunk
  pub tls_chunk : ℕ → ℕ
  pub free_stack_top : ℕ
  pub add_alloc_cnt : ℕ
  pub add_alloc_max : ℕ
  pub total_chunk : ℕ
  pub use_chunk : ℕ
  pub my_code : ℕ

-- What a call of `ChunkAlloc` gets: an array of blocks from the additional allocator, with the size of
-- a block, and an empty chunk from the chunk manager.
pub record Supply : Type 0 where
  pub block_arr : ℕ
  pub block_size : ℕ
  pub chunk : ℕ

unfoldable pub chunk_push : PoolTls → ℕ → ℕ → Bool × PoolTls
chunk_push p chunk block =
    let c = p.chunks chunk in
    if c.size == num_of_block_in_chunk then (false, p) else (
      true,
      record p {
        blocks = assign p.blocks block (record (p.blocks block) { next = c.free_stack_top });
        chunks = assign p.chunks chunk (record c { free_stack_top = block; size = c.size + 1 });
      },
    )

-- The address of the block, or `none` for `false`.
unfoldable pub chunk_pop : PoolTls → ℕ → Option (ℕ × PoolTls)
chunk_pop p chunk =
    let c = p.chunks chunk in
    if c.size == 0
    then none
    else some (
      c.free_stack_top,
      record p {
        chunks =
            assign p.chunks chunk
              (record c { free_stack_top = (p.blocks c.free_stack_top).next; size = c.size - 1 });
      },
    )

unfoldable pub push_chunk : PoolTls → ℕ → PoolTls
push_chunk p chunk =
    let bk_top = p.free_stack_top in
    record p {
      chunks = assign p.chunks chunk (record (p.chunks chunk) { next = bk_top % 2 ^ 47 });
      free_stack_top = chunk + bk_top / 2 ^ 47 * 2 ^ 47;
    }

-- The addresses are below 2 ^ 47, so that `|` is `+`.
unfoldable pub pop_chunk : PoolTls → Option (ℕ × PoolTls)
pop_chunk p =
    let idx = p.free_stack_top / 2 ^ 47 + 1 in
    let pop_node = p.free_stack_top % 2 ^ 47 in
    if pop_node == 0
    then none
    else some
        (pop_node, record p { free_stack_top = (p.chunks pop_node).next + idx * 2 ^ 47 % 2 ^ 64 })

-- The loop over the blocks of a new chunk, with `left` rounds to go.
unfoldable pub fill_chunk : ℕ → ℕ → ℕ → ℕ → PoolTls → PoolTls
fill_chunk zero block block_size chunk p = p
fill_chunk (suc left) block block_size chunk p =
    let coded : PoolTls = record p {
      blocks =
          assign p.blocks block
            (record (p.blocks block) { pre_code = p.my_code; post_code = complement p.my_code });
    } in
    fill_chunk left (block + block_size) block_size chunk (chunk_push coded chunk block).1

-- The address of the chunk, 0 for null.
unfoldable pub chunk_alloc_more : PoolTls → Supply → ℕ × PoolTls
chunk_alloc_more p supply =
    let my_num = (p.add_alloc_cnt + 1) % 2 ^ 64 in
    let p' : PoolTls = record p { add_alloc_cnt = my_num } in
    if my_num == p.add_alloc_max
    then (0, p')
    else if ltb p.add_alloc_max my_num
    then (0, record p { add_alloc_cnt = (my_num + (2 ^ 64 - 1)) % 2 ^ 64 })
    else if supply.block_arr == 0
    then (0, p')
    else (let filled =
          fill_chunk num_of_block_in_chunk supply.block_arr supply.block_size supply.chunk p' in
        (
          supply.chunk,
          record filled {
            total_chunk = (filled.total_chunk + 1) % 2 ^ 64;
            use_chunk = (filled.use_chunk + 1) % 2 ^ 64;
          },
        ))

unfoldable pub chunk_alloc_from : PoolTls → Supply → Option (ℕ × PoolTls) → ℕ × PoolTls
chunk_alloc_from p supply none = chunk_alloc_more p supply
chunk_alloc_from p supply (some (chunk, p')) =
    (chunk, record p' { use_chunk = (p'.use_chunk + 1) % 2 ^ 64 })

unfoldable pub chunk_alloc : PoolTls → Supply → ℕ × PoolTls
chunk_alloc p supply = chunk_alloc_from p supply (pop_chunk p)

unfoldable pub chunk_free : PoolTls → ℕ → PoolTls
chunk_free p chunk =
    let p' = push_chunk p chunk in record p' { use_chunk = (p'.use_chunk + (2 ^ 64 - 1)) % 2 ^ 64 }

unfoldable pub set_tls_chunk : PoolTls → ℕ → ℕ → PoolTls
set_tls_chunk p thread chunk = record p { tls_chunk = assign p.tls_chunk thread chunk }

-- The end of `Alloc`: the code of the block tells that it is in use.
unfoldable pub take_block : Option (ℕ × PoolTls) → Option (ℕ × PoolTls)
take_block none = none
take_block (some (block, p)) =
    let b = p.blocks block in
    some (
      block,
      record p { blocks = assign p.blocks block (record b { post_code = complement b.post_code }) },
    )

-- A new chunk for the thread, and a block from it. `none` is the access through a null pointer, or
-- through one that no block was written to.
unfoldable pub alloc_renewed : ℕ → ℕ × PoolTls → Option (ℕ × PoolTls)
alloc_renewed thread (chunk, p) =
    if chunk == 0 then none else take_block (chunk_pop (set_tls_chunk p thread chunk) chunk)

-- The block of the thread's chunk; an empty chunk goes back to its manager, and another one comes.
unfoldable pub alloc_popped : PoolTls → ℕ → Supply → Option (ℕ × PoolTls) → Option (ℕ × PoolTls)
alloc_popped p thread supply none = alloc_renewed thread (chunk_alloc p supply)
alloc_popped p thread supply (some popped) = take_block (some popped)

unfoldable pub alloc_in : ℕ → Supply → ℕ × PoolTls → Option (ℕ × PoolTls)
alloc_in thread supply (chunk, p) =
    if chunk == 0 then none else alloc_popped p thread supply (chunk_pop p chunk)

-- A thread that has no chunk gets one.
unfoldable pub first_chunk : PoolTls → ℕ → Supply → ℕ × PoolTls
first_chunk p thread supply =
    if p.tls_chunk thread == 0
    then (let (chunk, p') = chunk_alloc p supply in (chunk, set_tls_chunk p' thread chunk))
    else (p.tls_chunk thread, p)

-- `Alloc` in a thread, with what two calls of `ChunkAlloc` would get.
unfoldable pub alloc_tls : PoolTls → ℕ → Supply → Supply → Option (ℕ × PoolTls)
alloc_tls p thread supply supply' = alloc_in thread supply' (first_chunk p thread supply)

-- `Free` after its tests, in the chunk of the thread or, when that is full, in the new chunk `spare`.
unfoldable pub free_in : PoolTls → ℕ → ℕ → ℕ → ℕ → PoolTls
free_in p thread chunk block spare =
    let (pushed, p') = chunk_push p chunk block in
    if pushed
    then p'
    else set_tls_chunk (chunk_push (chunk_free p chunk) spare block).1 thread spare

-- `fresh` and `spare` are what two calls of the chunk manager would hand out.
unfoldable pub free_tls : PoolTls → ℕ → ℕ → ℕ → ℕ → Bool × PoolTls
free_tls p thread block fresh spare =
    let b = p.blocks block in
    if b.pre_code == b.post_code
    then (if b.pre_code == p.my_code
        then (let p' : PoolTls = record p {
          blocks = assign p.blocks block (record b { post_code = complement b.post_code });
        } in
            if p.tls_chunk thread == 0
            then (true, free_in (set_tls_chunk p' thread fresh) thread fresh block spare)
            else (true, free_in p' thread (p.tls_chunk thread) block spare))
        else (false, p))
    else (false, p)
