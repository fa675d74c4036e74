-- ===== src/MemoryPoolTls/Reuse.antt =====
-- `Free` of a thread, and the `Alloc` after it.
use login_server_chat.Prelude.{
  assign, ℕ, ◌-◌, ◌^◌, ◌<◌, ◌≤◌, ◌==◌, ltb, true, false, Bool-cases, ==_iff, some, ◌≡◌, ◌≢◌, inl,
  inr, refl, sym, subst, ap, ◌∙◌, arith,
}
use login_server_chat.MemoryPool.{complement}
use login_server_chat.MemoryPoolTls.{
  num_of_block_in_chunk, PoolTls, Supply, chunk_push, chunk_pop, push_chunk, chunk_free,
  set_tls_chunk, take_block, alloc_popped, alloc_in, first_chunk, alloc_tls, free_in, free_tls,
}

-- The block is on top in the chunk of the thread.
pub record IsNext (p : PoolTls) (thread block : ℕ) : Type 0 where
  pub chunk : p.tls_chunk thread ≢ 0
  pub filled : (p.chunks (p.tls_chunk thread)).size ≢ 0
  pub top : (p.chunks (p.tls_chunk thread)).free_stack_top ≡ block

abbrev pub IsSpare : PoolTls → ℕ → Type 0
IsSpare p chunk = (chunk ≢ 0) × ((p.chunks chunk).size ≡ 0)

-- A block that `Alloc` has handed out has the code of the pool in front and behind.
pub record IsInUse (p : PoolTls) (block : ℕ) : Type 0 where
  pub code : p.my_code < 2 ^ 64
  pub pre : (p.blocks block).pre_code ≡ p.my_code
  pub post : (p.blocks block).post_code ≡ p.my_code

pub taken : PoolTls → ℕ → ℕ → PoolTls
taken p thread block =
    let c = p.chunks (p.tls_chunk thread) in
    record p {
      chunks =
          assign p.chunks (p.tls_chunk thread)
            (record c { free_stack_top = (p.blocks block).next; size = c.size - 1 });
      blocks =
          assign p.blocks block
            (record (p.blocks block) { post_code = complement (p.blocks block).post_code });
    }

pub alloc-IsNext :
    (p : PoolTls) (thread block : ℕ) (s s' : Supply)
    → IsNext p thread block
    → (q : PoolTls) × (alloc_tls p thread s s' ≡ some (block, q))
      × ((q.blocks block).pre_code ≡ (p.blocks block).pre_code)
      × ((q.blocks block).post_code ≡ complement (p.blocks block).post_code)
      × (q.my_code ≡ p.my_code)
unfolding taken alloc_tls first_chunk alloc_in alloc_popped chunk_pop take_block assign
alloc-IsNext p thread block s s' n =
    let same : (block == block) ≡ true = (==_iff block block).1 refl in
    let has_chunk : (p.tls_chunk thread == 0) ≡ false = ground (arith, n.chunk) in
    let not_empty : ((p.chunks (p.tls_chunk thread)).size == 0) ≡ false =
      ground (arith, n.filled) in
    (
      taken p thread block,
      rw (has_chunk, has_chunk, not_empty, n.top) refl,
      rw same refl,
      rw same refl,
      refl,
    )

-- The block lies in the chunk of the thread, with the codes that it had before.
record IsReady (p q : PoolTls) (thread block : ℕ) : Type 0 where
  next : IsNext q thread block
  pre : (q.blocks block).pre_code ≡ (p.blocks block).pre_code
  post : (q.blocks block).post_code ≡ (p.blocks block).post_code
  code : q.my_code ≡ p.my_code

push-IsReady :
    (p : PoolTls) (thread chunk block : ℕ)
    → p.tls_chunk thread ≡ chunk
    → chunk ≢ 0
    → (p.chunks chunk).size < num_of_block_in_chunk
    → ((chunk_push p chunk block).0 ≡ true) × IsReady p (chunk_push p chunk block).1 thread block
unfolding chunk_push assign
push-IsReady p thread chunk block e there room =
    let same : (chunk == chunk) ≡ true = (==_iff chunk chunk).1 refl in
    let same_block : (block == block) ≡ true = (==_iff block block).1 refl in
    let not_full : ((p.chunks chunk).size == num_of_block_in_chunk) ≡ false =
      ground (arith, room) in
    rw not_full (
      refl,
      record {
        next = record {
          chunk = rw e there;
          filled = rw (e, same) (omega arith);
          top = rw (e, same) refl;
        };
        pre = rw same_block refl;
        post = rw same_block refl;
        code = refl;
      },
    )

set_tls_chunk-chunk_push :
    (p : PoolTls) (thread chunk block c : ℕ)
    → set_tls_chunk (chunk_push p chunk block).1 thread c
      ≡ (chunk_push (set_tls_chunk p thread c) chunk block).1
unfolding set_tls_chunk chunk_push
set_tls_chunk-chunk_push p thread chunk block c =
    elim (Bool-cases ((p.chunks chunk).size == num_of_block_in_chunk)) [
      | inl full ↦ rw full refl
      | inr room ↦ rw room refl
    ]

-- A new chunk of a thread takes the block.
spare-IsReady :
    (p : PoolTls) (thread chunk block : ℕ)
    → IsSpare p chunk
    → IsReady p (chunk_push (set_tls_chunk p thread chunk) chunk block).1 thread block
unfolding set_tls_chunk assign
spare-IsReady p thread chunk block empty =
    let r =
      (push-IsReady (set_tls_chunk p thread chunk) thread chunk block (ground arith) empty.0
        (omega (arith, empty.1))).1 in
    record { next = r.next; pre = r.pre; post = r.post; code = r.code }

chunk_free-IsSpare :
    (p : PoolTls) (chunk spare : ℕ) → IsSpare p spare → IsSpare (chunk_free p chunk) spare
unfolding chunk_free push_chunk assign
chunk_free-IsSpare p chunk spare empty = (
  empty.0,
  elim (Bool-cases (spare == chunk)) [
    | inl same ↦ rw same (ap (λ c. (p.chunks c).size) (sym ((==_iff spare chunk).0 same)) ∙ empty.1)
    | inr other ↦ rw other empty.1
  ],
)

full-refused :
    (p : PoolTls) (chunk block : ℕ)
    → (p.chunks chunk).size ≡ num_of_block_in_chunk
    → chunk_push p chunk block ≡ (false, p)
unfolding chunk_push
full-refused p chunk block e = rw e refl

-- Whether the chunk has room, or is full and makes way for the spare one.
free_in-IsReady :
    (p : PoolTls) (thread chunk block spare : ℕ)
    → p.tls_chunk thread ≡ chunk
    → chunk ≢ 0
    → (p.chunks chunk).size ≤ num_of_block_in_chunk
    → IsSpare p spare
    → IsReady p (free_in p thread chunk block spare) thread block
unfolding free_in chunk_free push_chunk
free_in-IsReady p thread chunk block spare e there most empty =
    elim (Bool-cases (ltb (p.chunks chunk).size num_of_block_in_chunk)) [
      | inl room ↦ let r = push-IsReady p thread chunk block e there (ground arith) in rw r.0 r.1
      | inr full ↦
          let p' = chunk_free p chunk in
          let r = spare-IsReady p' thread spare block (chunk_free-IsSpare p chunk spare empty) in
          rw (full-refused p chunk block (ground arith)) (
            subst (λ q. IsReady p q thread block)
              (sym (set_tls_chunk-chunk_push p' thread spare block spare))
              (record { next = r.next; pre = r.pre; post = r.post; code = r.code }))
    ]

-- The next `Alloc` hands out the block that lies ready, and turns its code again.
ready-IsInUse :
    {p q : PoolTls} {thread block : ℕ} (s s' : Supply)
    → IsReady p q thread block
    → p.my_code < 2 ^ 64
    → (p.blocks block).pre_code ≡ p.my_code
    → (p.blocks block).post_code ≡ complement p.my_code
    → (r : PoolTls) × (alloc_tls q thread s s' ≡ some (block, r)) × IsInUse r block
unfolding complement
ready-IsInUse {p} {q} {thread} {block} s s' ready small pre post =
    let (r, e, pre', post', code') = alloc-IsNext q thread block s s' ready.next in
    (
      r,
      e,
      record {
        code = omega (arith, code', ready.code);
        pre = pre' ∙ ready.pre ∙ pre ∙ sym (code' ∙ ready.code);
        post = omega (arith, post', ready.post, post, small, code', ready.code);
      },
    )

-- A block that is in use is freed: by a thread that has no chunk, or one with room, or a full one.
-- Then `Free` takes the block, and the next `Alloc` of the same thread hands out this block, in use
-- again. The chunk manager hands out empty chunks, and no chunk has more than 400 blocks.
pub alloc_tls-free_tls :
    {p : PoolTls} {block : ℕ} (thread fresh spare : ℕ) (s s' : Supply)
    → IsInUse p block
    → ((chunk : ℕ) → (p.chunks chunk).size ≤ num_of_block_in_chunk)
    → IsSpare p fresh
    → IsSpare p spare
    → let (freed, p') = free_tls p thread block fresh spare in
      (freed ≡ true)
      × ((q : PoolTls) × (alloc_tls p' thread s s' ≡ some (block, q)) × IsInUse q block)
unfolding free_tls assign set_tls_chunk
alloc_tls-free_tls {p} {block} thread fresh spare s s' u most empty empty' =
    let p1 : PoolTls = record p {
      blocks =
          assign p.blocks block
            (record (p.blocks block) { post_code = complement (p.blocks block).post_code });
    } in
    let codes : ((p.blocks block).pre_code == (p.blocks block).post_code) ≡ true =
      (==_iff _ _).1 (u.pre ∙ sym u.post) in
    let own : ((p.blocks block).pre_code == p.my_code) ≡ true = (==_iff _ _).1 u.pre in
    let same : (block == block) ≡ true = (==_iff block block).1 refl in
    let post : complement (p.blocks block).post_code ≡ complement p.my_code =
      ap complement u.post in
    elim (Bool-cases (p.tls_chunk thread == 0)) [
      | inl nothing ↦
          let p2 = set_tls_chunk p1 thread fresh in
          let ready =
            free_in-IsReady p2 thread fresh block spare (ground arith) empty.0 (most fresh)
              empty' in
          rw (codes, own, nothing)
            (refl, ready-IsInUse s s' ready u.code (rw same u.pre) (rw same post))
      | inr there ↦
          let ready =
            free_in-IsReady p1 thread (p.tls_chunk thread) block spare refl (λ e. ground arith)
              (most (p.tls_chunk thread)) empty' in
          rw (codes, own, there)
            (refl, ready-IsInUse s s' ready u.code (rw same u.pre) (rw same post))
    ]
