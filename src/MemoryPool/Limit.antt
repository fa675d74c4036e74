-- ===== src/MemoryPool/Limit.antt =====
-- The numbers of blocks over sequences of calls.
use login_server_chat.Prelude.{
  ℕ, zero, suc, ◌+◌, ◌-◌, ◌%◌, ◌^◌, ◌≤◌, ◌<◌, ◌==◌, ltb, Bool-cases, lt→ltb, none, some, ◌≡◌, ◌⊎◌,
  inl, inr, refl, subst, ap, arith,
}
use login_server_chat.MemoryPool.{
  Block, Pool, set_block, push, pop, alloc_more, alloc_from, alloc, free, init_blocks, align_up,
  new_pool,
}

-- Calls of `Alloc`, with what the block allocator returns, and of `Free`, one after the other.
pub data PoolRun (p : Pool) : Pool → Type 0 where
  begun : PoolRun p p
  allocs : {q : Pool} (fresh : ℕ) → PoolRun p q → PoolRun p (alloc q fresh).1
  frees : {q : Pool} (node : ℕ) → PoolRun p q → PoolRun p (free q node).1

-- No additional block so far, or one for each number that is counted, below the limit.
abbrev IsLimited : ℕ → ℕ → Pool → Type 0
IsLimited init max p =
    (init + p.add_alloc_max ≡ max)
    × (p.add_alloc_max + 1 < 2 ^ 64)
    × (((p.add_alloc_cnt ≡ 2 ^ 64 - 1) × (p.total_cnt ≤ init))
        ⊎ ((p.add_alloc_cnt ≤ p.add_alloc_max)
            × (p.total_cnt ≤ init + p.add_alloc_cnt + 1)
            × (p.total_cnt ≤ init + p.add_alloc_max)))

alloc_more-IsLimited :
    (init max : ℕ) (p : Pool) (fresh : ℕ)
    → IsLimited init max p
    → IsLimited init max (alloc_more p fresh).1
unfolding alloc_more set_block
alloc_more-IsLimited init max p fresh (e, m, inl v) = ground (arith, v.0, v.1, m, e)
alloc_more-IsLimited init max p fresh (e, m, inr v) = ground (arith, v.0, v.1, v.2, m, e)

-- `Push`, and a `Pop` that succeeds, leave the counts.
free-IsLimited :
    (init max : ℕ) (p : Pool) (node : ℕ) → IsLimited init max p → IsLimited init max (free p node).1
unfolding free push set_block
free-IsLimited init max p node v =
    elim (Bool-cases ((p.blocks node).pre_code == (p.blocks node).post_code)) [
      | inl same ↦ elim (Bool-cases ((p.blocks node).pre_code == p.my_code)) [
        | inl own ↦ rw (same, own) v
        | inr other ↦ rw (same, other) v
      ]
      | inr other ↦ rw other v
    ]

alloc-IsLimited :
    (init max : ℕ) (p : Pool) (fresh : ℕ)
    → IsLimited init max p
    → IsLimited init max (alloc p fresh).1
unfolding alloc alloc_from pop set_block
alloc-IsLimited init max p fresh v = elim (Bool-cases (p.free_stack_top % 2 ^ 47 == 0)) [
  | inl null ↦ rw null (alloc_more-IsLimited init max p fresh v)
  | inr there ↦ rw there v
]

PoolRun-IsLimited :
    (init max : ℕ) {p q : Pool} → PoolRun p q → IsLimited init max p → IsLimited init max q
PoolRun-IsLimited init max begun v = v
PoolRun-IsLimited init max (allocs {q} fresh run) v =
    alloc-IsLimited init max q fresh (PoolRun-IsLimited init max run v)
PoolRun-IsLimited init max (frees {q} node run) v =
    free-IsLimited init max q node (PoolRun-IsLimited init max run v)

init_blocks-IsLimited :
    (init max left block_pool stride i : ℕ) (p : Pool)
    → IsLimited init max p
    → IsLimited init max (init_blocks left block_pool stride i p)
unfolding init_blocks set_block
init_blocks-IsLimited init max zero block_pool stride i p v = v
init_blocks-IsLimited init max (suc left) block_pool stride i p v =
    init_blocks-IsLimited init max left block_pool stride (i + 1) _ v

limited_total : (init max : ℕ) (p : Pool) → IsLimited init max p → p.total_cnt ≤ max
limited_total init max p (e, m, inl v) = omega (arith, e, v.1)
limited_total init max p (e, m, inr v) = omega (arith, e, v.2)

some_inj : (a b : Pool) → some a ≡ some b → a ≡ b
some_inj a b e = ap (λ o. elim o [ none ↦ a | some x ↦ x ]) e

-- The pool that the constructor makes, before and after its loop.
new_pool-IsLimited :
    (memory : ℕ → Block) (max_address secure_code alloc_addr align stride init max : ℕ) (p : Pool)
    → max + 1 < 2 ^ 64
    → new_pool memory max_address secure_code alloc_addr align stride init max ≡ some p
    → IsLimited init max p
unfolding new_pool
new_pool-IsLimited memory max_address secure_code alloc_addr align stride init max p small =
    let bare : Pool = record {
      blocks = memory;
      free_stack_top = 0;
      add_alloc_cnt = 2 ^ 64 - 1;
      add_alloc_max = max - init;
      use_cnt = 0;
      total_cnt = init;
      my_code = (secure_code + 1) % 2 ^ 64;
    } in
    elim (Bool-cases (max_address == 0x00007FFFFFFEFFFF)) [
      | inr other ↦ rw other (λ e. ground arith)
      | inl system ↦ elim (Bool-cases (ltb max init)) [
        | inl too_many ↦ rw (system, too_many) (λ e. ground arith)
        | inr enough ↦
            let le : init ≤ max = ground (arith, lt→ltb max init) in
            let v : IsLimited init max bare =
              (omega (arith, le), omega (arith, le, small), inl (refl, omega arith)) in
            elim (Bool-cases (init == 0)) [
              | inl empty ↦ elim (Bool-cases (max == 0)) [
                | inl nothing ↦ rw (system, enough, empty, nothing) (λ e. ground arith)
                | inr room ↦
                    rw (system, enough, empty, room)
                      (λ e. subst (IsLimited init max) (some_inj bare p e) v)
              ]
              | inr some_ ↦ elim (Bool-cases (alloc_addr == 0)) [
                | inl null ↦ rw (system, enough, some_, null) (λ e. ground arith)
                | inr there ↦
                    rw (system, enough, some_, there)
                      (λ e.
                        subst (IsLimited init max)
                          (some_inj (init_blocks init (align_up alloc_addr align) stride 0 bare) p
                            e)
                          (init_blocks-IsLimited init max init (align_up alloc_addr align) stride 0
                            bare v))
              ]
            ]
      ]
    ]

-- A pool from the constructor, with a limit below 2 ^ 64 - 1 on its blocks, has never more blocks than
-- the limit, whatever calls of `Alloc` and `Free` come one after the other, and whatever the block
-- allocator returns.
pub PoolRun-new_pool :
    (memory : ℕ → Block) (max_address secure_code alloc_addr align stride init max : ℕ) {p q : Pool}
    → max + 1 < 2 ^ 64
    → new_pool memory max_address secure_code alloc_addr align stride init max ≡ some p
    → PoolRun p q
    → q.total_cnt ≤ max
PoolRun-new_pool memory max_address secure_code alloc_addr align stride init max {p} {q} small made
      run =
    let v =
      new_pool-IsLimited memory max_address secure_code alloc_addr align stride init max p small
        made in
    limited_total init max q (PoolRun-IsLimited init max run v)
