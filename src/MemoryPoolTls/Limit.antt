-- ===== src/MemoryPoolTls/Limit.antt =====
-- The limit on additional chunks.
use login_server_chat.Prelude.{
  ℕ, zero, suc, ◌+◌, ◌-◌, ◌%◌, ◌^◌, ◌<◌, ◌≤◌, ◌==◌, ltb, min, Bool-cases, ==_iff, Option, none,
  some, ◌≡◌, inl, inr, refl, sym, subst, ◌∙◌, arith,
}
use login_server_chat.MemoryPoolTls.{
  num_of_block_in_chunk, PoolTls, Supply, chunk_push, chunk_pop, push_chunk, pop_chunk, fill_chunk,
  chunk_alloc_more, chunk_alloc_from, chunk_alloc, chunk_free, set_tls_chunk, take_block,
  alloc_renewed, alloc_popped, alloc_in, first_chunk, alloc_tls, free_in, free_tls,
}

abbrev pub counts : PoolTls → ℕ × ℕ × ℕ
counts p = (p.add_alloc_cnt, p.add_alloc_max, p.total_chunk)

-- `initial` chunks were there at first, and `limit` more are allowed. `_addAllocCnt` starts at -1 and is one more for each chunk that
-- was added, up to one more than the limit allows.
pub record IsLimited (initial limit : ℕ) (c : ℕ × ℕ × ℕ) : Type 0 where
  pub same : c.1 ≡ limit
  pub max_small : initial + c.1 < 2 ^ 64 - 1
  pub tries : (c.0 + 1) % 2 ^ 64 ≤ c.1 + 1
  pub added : c.2 ≤ initial + min ((c.0 + 1) % 2 ^ 64) c.1

chunk_push-counts : (p : PoolTls) (c b : ℕ) → counts (chunk_push p c b).1 ≡ counts p
unfolding chunk_push
chunk_push-counts p c b = elim (Bool-cases ((p.chunks c).size == num_of_block_in_chunk)) [
  | inl full ↦ rw full refl
  | inr room ↦ rw room refl
]

pub fill_chunk-counts :
    (left block block_size chunk : ℕ) (p : PoolTls)
    → counts (fill_chunk left block block_size chunk p) ≡ counts p
unfolding fill_chunk
fill_chunk-counts zero block block_size chunk p = refl
fill_chunk-counts (suc left) block block_size chunk p =
    fill_chunk-counts left (block + block_size) block_size chunk _ ∙ chunk_push-counts _ chunk block

chunk_alloc_more-IsLimited :
    (initial limit : ℕ) (p : PoolTls) (supply : Supply)
    → IsLimited initial limit (counts p)
    → IsLimited initial limit (counts (chunk_alloc_more p supply).1)
unfolding chunk_alloc_more
chunk_alloc_more-IsLimited initial limit p supply l =
    let my_num = (p.add_alloc_cnt + 1) % 2 ^ 64 in
    let p' : PoolTls = record p { add_alloc_cnt = my_num } in
    let filled =
      fill_chunk num_of_block_in_chunk supply.block_arr supply.block_size supply.chunk p' in
    let same =
      fill_chunk-counts num_of_block_in_chunk supply.block_arr supply.block_size supply.chunk p' in
    elim (Bool-cases (my_num == p.add_alloc_max)) [
      | inl at_limit ↦ rw at_limit (record {
        max_small = l.max_small;
        same = l.same;
        tries = omega (arith, l.tries, l.max_small, (==_iff my_num p.add_alloc_max).0 at_limit);
        added = omega (arith, l.added, l.max_small, (==_iff my_num p.add_alloc_max).0 at_limit);
      })
      | inr ne ↦ elim (Bool-cases (ltb p.add_alloc_max my_num)) [
        | inl over ↦
            rw (ne, over)
              (record {
                max_small = l.max_small;
                same = l.same;
                tries = ground (arith, l.tries, l.max_small);
                added = ground (arith, l.added, l.max_small);
              })
        | inr under ↦ elim (Bool-cases (supply.block_arr == 0)) [
          | inl null ↦
              rw (ne, under, null)
                (record {
                  max_small = l.max_small;
                  same = l.same;
                  tries = ground (arith, l.tries, l.max_small);
                  added = ground (arith, l.added, l.max_small);
                })
          | inr there ↦
              rw (ne, under, there)
                (subst (λ c. IsLimited initial limit (c.0, c.1, (c.2 + 1) % 2 ^ 64)) (sym same)
                  (record {
                    max_small = l.max_small;
                    same = l.same;
                    tries = ground (arith, l.tries, l.max_small);
                    added = ground (arith, l.added, l.max_small);
                  }))
        ]
      ]
    ]

pub chunk_alloc-IsLimited :
    (p : PoolTls) (initial limit : ℕ) (supply : Supply)
    → IsLimited initial limit (counts p)
    → IsLimited initial limit (counts (chunk_alloc p supply).1)
unfolding chunk_alloc chunk_alloc_from pop_chunk
chunk_alloc-IsLimited p initial limit supply l =
    elim (Bool-cases (p.free_stack_top % 2 ^ 47 == 0)) [
      | inl empty ↦ rw empty (chunk_alloc_more-IsLimited initial limit p supply l)
      | inr there ↦
          rw there
            (record { max_small = l.max_small; same = l.same; tries = l.tries; added = l.added })
    ]

-- `Alloc` got a block, and the pool is limited.
abbrev pub AreLimited : ℕ → ℕ → Option (ℕ × PoolTls) → Type 0
AreLimited initial limit none = Unit {0}
AreLimited initial limit (some (block, p)) = IsLimited initial limit (counts p)

take_block-AreLimited :
    (initial limit : ℕ) (p : PoolTls) (chunk : ℕ)
    → IsLimited initial limit (counts p)
    → AreLimited initial limit (take_block (chunk_pop p chunk))
unfolding take_block chunk_pop
take_block-AreLimited initial limit p chunk l = elim (Bool-cases ((p.chunks chunk).size == 0)) [
  | inl empty ↦ rw empty tt
  | inr there ↦
      rw there (record { max_small = l.max_small; same = l.same; tries = l.tries; added = l.added })
]

alloc_renewed-AreLimited :
    (initial limit thread : ℕ) (r : ℕ × PoolTls)
    → IsLimited initial limit (counts r.1)
    → AreLimited initial limit (alloc_renewed thread r)
unfolding alloc_renewed set_tls_chunk
alloc_renewed-AreLimited initial limit thread (chunk, p) l = elim (Bool-cases (chunk == 0)) [
  | inl null ↦ rw null tt
  | inr there ↦ rw there (
      take_block-AreLimited initial limit (set_tls_chunk p thread chunk) chunk
        (record { max_small = l.max_small; same = l.same; tries = l.tries; added = l.added }))
]

alloc_popped-AreLimited :
    (initial limit : ℕ) (p : PoolTls) (thread : ℕ) (supply : Supply) (r : Option (ℕ × PoolTls))
    → IsLimited initial limit (counts p)
    → AreLimited initial limit (take_block r)
    → AreLimited initial limit (alloc_popped p thread supply r)
unfolding alloc_popped
alloc_popped-AreLimited initial limit p thread supply none l t =
    alloc_renewed-AreLimited initial limit thread (chunk_alloc p supply)
      (chunk_alloc-IsLimited p initial limit supply l)
alloc_popped-AreLimited initial limit p thread supply (some r) l t = t

alloc_in-AreLimited :
    (initial limit thread : ℕ) (supply : Supply) (r : ℕ × PoolTls)
    → IsLimited initial limit (counts r.1)
    → AreLimited initial limit (alloc_in thread supply r)
unfolding alloc_in
alloc_in-AreLimited initial limit thread supply (chunk, p) l = elim (Bool-cases (chunk == 0)) [
  | inl null ↦ rw null tt
  | inr there ↦ rw there (
      alloc_popped-AreLimited initial limit p thread supply (chunk_pop p chunk) l
        (take_block-AreLimited initial limit p chunk l))
]

pub alloc_tls-AreLimited :
    (initial limit : ℕ) (p : PoolTls) (thread : ℕ) (s s' : Supply)
    → IsLimited initial limit (counts p)
    → AreLimited initial limit (alloc_tls p thread s s')
unfolding alloc_tls first_chunk set_tls_chunk
alloc_tls-AreLimited initial limit p thread s s' l =
    alloc_in-AreLimited initial limit thread s' (first_chunk p thread s)
      (elim (Bool-cases (p.tls_chunk thread == 0)) [
        | inl nothing ↦ rw nothing (record {
          max_small = (chunk_alloc-IsLimited p initial limit s l).max_small;
          same = (chunk_alloc-IsLimited p initial limit s l).same;
          tries = (chunk_alloc-IsLimited p initial limit s l).tries;
          added = (chunk_alloc-IsLimited p initial limit s l).added;
        })
        | inr there ↦ rw there l
      ])

free_in-counts :
    (p : PoolTls) (thread chunk block spare : ℕ)
    → counts (free_in p thread chunk block spare) ≡ counts p
unfolding free_in chunk_free push_chunk set_tls_chunk
free_in-counts p thread chunk block spare = elim (Bool-cases (chunk_push p chunk block).0) [
  | inl pushed ↦ rw pushed (chunk_push-counts p chunk block)
  | inr full ↦ rw full (chunk_push-counts (chunk_free p chunk) spare block)
]

pub free_tls-counts :
    (p : PoolTls) (thread block fresh spare : ℕ)
    → counts (free_tls p thread block fresh spare).1 ≡ counts p
unfolding free_tls set_tls_chunk
free_tls-counts p thread block fresh spare =
    elim (Bool-cases ((p.blocks block).pre_code == (p.blocks block).post_code)) [
      | inr broken ↦ rw broken refl
      | inl whole ↦ elim (Bool-cases ((p.blocks block).pre_code == p.my_code)) [
        | inr foreign ↦ rw (whole, foreign) refl
        | inl own ↦ elim (Bool-cases (p.tls_chunk thread == 0)) [
          | inl nothing ↦ rw (whole, own, nothing) (free_in-counts _ thread fresh block spare)
          | inr there ↦
              rw (whole, own, there) (free_in-counts _ thread (p.tls_chunk thread) block spare)
        ]
      ]
    ]
