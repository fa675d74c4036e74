-- ===== src/MemoryPool/Stack.antt =====
-- The free stack as a list of blocks.
use login_server_chat.Prelude.{
  ℕ, ◌+◌, ◌*◌, ◌/◌, ◌%◌, ◌^◌, ◌<◌, ◌==◌, false, Bool-cases, inl, inr, ==_iff, List, [], ◌∷◌, some,
  ◌≡◌, ◌≢◌, refl, arith,
}
use login_server_chat.MemoryPool.{Block, Pool, set_block, push, pop}

-- The blocks from the address `a` on are these, each at an address of 47 bits.
abbrev pub IsChain : (ℕ → Block) → ℕ → List ℕ → Type 0
IsChain blocks a [] = a ≡ 0
IsChain blocks a (b ∷ bs) = (a ≡ b) × (0 < b) × (b < 2 ^ 47) × IsChain blocks (blocks b).next bs

-- The free stack of the pool holds these blocks, the next one first.
abbrev pub Holds : Pool → List ℕ → Type 0
Holds p bs = IsChain p.blocks (p.free_stack_top % 2 ^ 47) bs

abbrev pub IsNotIn : ℕ → List ℕ → Type 0
IsNotIn a [] = Unit {0}
IsNotIn a (b ∷ bs) = (b ≢ a) × IsNotIn a bs

pub set_block-IsChain :
    (p : Pool) (a : ℕ) (x : Block) (c : ℕ) (bs : List ℕ)
    → IsNotIn a bs
    → IsChain p.blocks c bs
    → IsChain (set_block p a x).blocks c bs
unfolding set_block
set_block-IsChain p a x c [] out chain = chain
set_block-IsChain p a x c (b ∷ bs) out (e, pos, lt, chain) = (
  e,
  pos,
  lt,
  elim (Bool-cases (b == a)) [
    | inl same ↦ absurd (out.0 ((==_iff b a).0 same))
    | inr other ↦ rw other (set_block-IsChain p a x (p.blocks b).next bs out.1 chain)
  ],
)

pub set_block_here : (p : Pool) (a : ℕ) (x : Block) → (set_block p a x).blocks a ≡ x
unfolding set_block
set_block_here p a x = ground arith

nonzero : (b : ℕ) → 0 < b → b == 0 ≡ false
nonzero b pos = ground arith

untagged : (a idx : ℕ) → a < 2 ^ 47 → (a + idx * 2 ^ 47 % 2 ^ 64) % 2 ^ 47 ≡ a
untagged a idx lt = omega arith

-- `Push` of a block that is not on the stack puts it on top of the blocks that are there.
pub push-Holds :
    (p : Pool) (node : ℕ) (bs : List ℕ)
    → 0 < node
    → node < 2 ^ 47
    → IsNotIn node bs
    → Holds p bs
    → Holds (push p node) (node ∷ bs)
unfolding push
push-Holds p node bs pos lt out chain = (
  omega arith,
  pos,
  lt,
  rw (set_block_here p node (record (p.blocks node) { next = p.free_stack_top % 2 ^ 47 })) (
      set_block-IsChain p node (record (p.blocks node) { next = p.free_stack_top % 2 ^ 47 })
        (p.free_stack_top % 2 ^ 47) bs out chain),
)

next_small : (blocks : ℕ → Block) (a : ℕ) (bs : List ℕ) → IsChain blocks a bs → a < 2 ^ 47
next_small blocks a [] e = omega arith
next_small blocks a (b ∷ bs) (e, pos, lt, chain) = omega arith

-- `Pop` of a pool that holds blocks takes the top one and leaves the others, whatever the counter in
-- the top is.
pub pop-Holds :
    (p : Pool) (b : ℕ) (bs : List ℕ)
    → Holds p (b ∷ bs)
    → (p' : Pool) × (pop p ≡ some (b, p')) × Holds p' bs
unfolding pop
pop-Holds p b bs (e, pos, lt, chain) =
    let idx = p.free_stack_top / 2 ^ 47 + 1 in
    let small = next_small p.blocks (p.blocks b).next bs chain in
    (
      record p { free_stack_top = (p.blocks b).next + idx * 2 ^ 47 % 2 ^ 64 },
      rw (e, nonzero b pos) refl,
      rw (untagged (p.blocks b).next idx small) chain,
    )

-- For a pool that holds the blocks `bs` and a block that is not among them, at an address of 47 bits:
-- `Push` and then `Pop` gives the block back, and the pool holds `bs`, whatever the counter in the top.
pub pop-push :
    (p : Pool) (node : ℕ) (bs : List ℕ)
    → 0 < node
    → node < 2 ^ 47
    → IsNotIn node bs
    → Holds p bs
    → (p' : Pool) × (pop (push p node) ≡ some (node, p')) × Holds p' bs
pop-push p node bs pos lt out holds =
    pop-Holds (push p node) node bs (push-Holds p node bs pos lt out holds)
