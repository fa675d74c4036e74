-- ===== src/MemoryPool/Codes.antt =====
-- The codes around a block (LoginServer_Chat/MemoryPool.h), as `Alloc` and `Free` set and test them.
use login_server_chat.Prelude.{
  ℕ, ◌+◌, ◌%◌, ◌^◌, ◌<◌, ◌==◌, true, false, ◌≡◌, ◌≢◌, Bool-cases, inl, inr, arith, ltb, ==_iff,
  refl, ap, sym, ◌∙◌,
}
use login_server_chat.MemoryPool.{
  Block, Pool, set_block, complement, push, pop, alloc_more, alloc_from, alloc, free,
}

complement_other : (code : ℕ) → complement code ≢ code
unfolding complement
complement_other code = λ e. omega arith

-- A block that `Free` has taken is not taken again, and the pool stays as it is.
pub free_twice :
    (p : Pool) (node : ℕ)
    → (free p node).0 ≡ true
    → free (free p node).1 node ≡ (false, (free p node).1)
unfolding free push set_block
free_twice p node taken = ground (arith, complement_other p.my_code)

-- The block on top of the free stack, if there is one, has the codes of a free block.
pub record HasFreeTop (p : Pool) : Type 0 where
  pub code_small : p.my_code < 2 ^ 64
  pub front : (p.blocks (p.free_stack_top % 2 ^ 47)).pre_code ≡ p.my_code
  pub behind : (p.blocks (p.free_stack_top % 2 ^ 47)).post_code ≡ complement p.my_code

-- The codes of a block that is in use.
abbrev IsCoded : ℕ → Block → Type 0
IsCoded code b = (b.pre_code ≡ code) × (b.post_code ≡ code)

complement_twice : (code : ℕ) → code < 2 ^ 64 → complement (complement code) ≡ code
unfolding complement
complement_twice code small = omega arith

alloc_more-IsCoded :
    (p : Pool) (fresh : ℕ)
    → (alloc_more p fresh).0 ≢ 0
    → IsCoded p.my_code ((alloc_more p fresh).1.blocks (alloc_more p fresh).0)
      × ((alloc_more p fresh).1.my_code ≡ p.my_code)
unfolding alloc_more set_block
alloc_more-IsCoded p fresh there =
    let my_num = (p.add_alloc_cnt + 1) % 2 ^ 64 in
    elim (Bool-cases (my_num == p.add_alloc_max)) [
      | inl at_limit ↦ absurd (there (rw at_limit refl))
      | inr below ↦ elim (Bool-cases (ltb p.add_alloc_max my_num)) [
        | inl over ↦ absurd (there (rw (below, over) refl))
        | inr under ↦ elim (Bool-cases (fresh == 0)) [
          | inl null ↦ absurd (there (rw (below, under, null) refl))
          | inr found ↦
              let self : (fresh == fresh) ≡ true = (==_iff _ _).1 refl in
              rw (below, under, found, self) ((refl, refl), refl)
        ]
      ]
    ]

alloc-IsCoded :
    (p : Pool) (fresh : ℕ)
    → HasFreeTop p
    → (alloc p fresh).0 ≢ 0
    → IsCoded p.my_code ((alloc p fresh).1.blocks (alloc p fresh).0)
      × ((alloc p fresh).1.my_code ≡ p.my_code)
unfolding alloc alloc_from pop set_block
alloc-IsCoded p fresh top there = elim (Bool-cases (p.free_stack_top % 2 ^ 47 == 0)) [
  | inl empty ↦ rw empty (alloc_more-IsCoded p fresh (λ e. there (rw empty e)))
  | inr some_ ↦
      let self : (p.free_stack_top % 2 ^ 47 == p.free_stack_top % 2 ^ 47) ≡ true =
        (==_iff _ _).1 refl in
      rw (some_, self)
        ((top.front, ap complement top.behind ∙ complement_twice p.my_code top.code_small), refl)
]

-- A block that `Alloc` of a pool gives, when the block on top of its free stack has the codes of a free
-- block: `Free` of this pool takes it, and `Free` of a pool with another code over the same memory refuses
-- it and leaves that pool as it is.
pub free-alloc :
    (p q : Pool) (fresh : ℕ)
    → HasFreeTop p
    → (alloc p fresh).0 ≢ 0
    → p.my_code ≢ q.my_code
    → let (node, p') = alloc p fresh in
      let q' : Pool = record q { blocks = p'.blocks } in
      ((free p' node).0 ≡ true) × (free q' node ≡ (false, q'))
unfolding free
free-alloc p q fresh top there other =
    let ((front, behind), same) = alloc-IsCoded p fresh top there in
    let node = (alloc p fresh).0 in
    let p' = (alloc p fresh).1 in
    let agree : ((p'.blocks node).pre_code == (p'.blocks node).post_code) ≡ true =
      (==_iff _ _).1 (front ∙ sym behind) in
    let mine : ((p'.blocks node).pre_code == p'.my_code) ≡ true =
      (==_iff _ _).1 (front ∙ sym same) in
    let foreign : ((p'.blocks node).pre_code == q.my_code) ≡ false = ground (arith, front, other) in
    (rw (agree, mine) refl, rw (agree, foreign) refl)
