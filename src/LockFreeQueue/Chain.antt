-- ===== src/LockFreeQueue/Chain.antt =====
-- The nodes of the queue as a list in memory: a head node, and behind it one node for each data.
use login_server_chat.Prelude.{
  assign, ℕ, ◌==◌, if◌then◌else◌, Bool, true, false, Bool-cases, ==_iff, List, [], ◌∷◌, ◌++◌, ◌≡◌,
  ◌≢◌, ◌⊎◌, inl, inr, refl, sym, subst, ap, ◌∙◌, arith,
}
use login_server_chat.LockFreeQueue.{QueueNode}

-- Behind the node at `a` there are those at `bs`, and then the code.
abbrev pub IsList : ℕ → (ℕ → QueueNode) → ℕ → List ℕ → Type 0
IsList code nodes a [] = (nodes a).next ≡ code
IsList code nodes a (b ∷ bs) = ((nodes a).next ≡ b) × (b ≢ code) × IsList code nodes b bs

unfoldable pub on : List ℕ → ℕ → Bool
on [] a = false
on (b ∷ bs) a = if a == b then true else on bs a

abbrev pub IsDistinct : List ℕ → Type 0
IsDistinct [] = Unit {0}
IsDistinct (b ∷ bs) = (on bs b ≡ false) × IsDistinct bs

abbrev pub data_of : (ℕ → QueueNode) → List ℕ → List ℕ
data_of nodes [] = []
data_of nodes (b ∷ bs) = (nodes b).data_ ∷ data_of nodes bs

pub on_here : (b : ℕ) (bs : List ℕ) → on (b ∷ bs) b ≡ true
unfolding on
on_here b bs = ground arith

pub on_subst : (bs : List ℕ) (a b : ℕ) → on bs a ≡ true → on bs b ≡ false → a ≢ b
on_subst bs a b h out e = ground (arith, sym (subst (λ x. on bs x ≡ true) e h) ∙ out)

-- The node behind one of the list is one of the list, unless it is the code.
pub on-next :
    (code : ℕ) (nodes : ℕ → QueueNode) (b : ℕ) (bs : List ℕ) (a : ℕ)
    → IsList code nodes b bs
    → on (b ∷ bs) a ≡ true
    → (nodes a).next ≢ code
    → on bs (nodes a).next ≡ true
unfolding on
on-next code nodes b [] a c h more = elim (Bool-cases (a == b)) [
  | inl same ↦ absurd (more (ap (λ x. (nodes x).next) ((==_iff a b).0 same) ∙ c))
  | inr other ↦ ground arith
]
on-next code nodes b (d ∷ ds) a c h more = elim (Bool-cases (a == b)) [
  | inl same ↦
      subst (λ x. on (d ∷ ds) x ≡ true) (sym (ap (λ x. (nodes x).next) ((==_iff a b).0 same) ∙ c.0))
        (on_here d ds)
  | inr other ↦ ground (arith, on-next code nodes d ds a c.2 (ground arith) more)
]

-- A list that is not only the head has no code at the head.
pub next-code :
    (code : ℕ) (nodes : ℕ → QueueNode) (b : ℕ) (bs : List ℕ)
    → IsList code nodes b bs
    → (nodes b).next ≡ code
    → bs ≡ []
next-code code nodes b [] c e = refl
next-code code nodes b (d ∷ ds) c e = absurd (c.1 (sym c.0 ∙ e))

-- A write to a node that is not in the list.
pub IsList-assign :
    (code : ℕ) (nodes : ℕ → QueueNode) (n : ℕ) (x : QueueNode) (b : ℕ) (bs : List ℕ)
    → on (b ∷ bs) n ≡ false
    → IsList code nodes b bs
    → IsList code (assign nodes n x) b bs
unfolding on assign
IsList-assign code nodes n x b [] out c = ground arith
IsList-assign code nodes n x b (d ∷ ds) out c =
    (ground arith, c.1, IsList-assign code nodes n x d ds (ground arith) c.2)

pub data_of-assign :
    (nodes : ℕ → QueueNode) (n : ℕ) (x : QueueNode) (bs : List ℕ)
    → (on bs n ≡ false) ⊎ (x.data_ ≡ (nodes n).data_)
    → data_of (assign nodes n x) bs ≡ data_of nodes bs
unfolding on assign
data_of-assign nodes n x [] h = refl
data_of-assign nodes n x (b ∷ bs) (inl out) =
    ground (arith, data_of-assign nodes n x bs (inl (ground arith)))
data_of-assign nodes n x (b ∷ bs) (inr same) =
    ground (arith, data_of-assign nodes n x bs (inr same))

pub data_of-append :
    (nodes : ℕ → QueueNode) (bs : List ℕ) (n : ℕ)
    → data_of nodes (bs ++ n ∷ []) ≡ data_of nodes bs ++ (nodes n).data_ ∷ []
data_of-append nodes [] n = refl
data_of-append nodes (b ∷ bs) n = ap (λ l. (nodes b).data_ ∷ l) (data_of-append nodes bs n)

-- The node at `a`, which has the code behind it, gets the node at `n` instead.
pub IsList-append :
    (code : ℕ) (nodes : ℕ → QueueNode) (a n : ℕ) (b : ℕ) (bs : List ℕ)
    → on (b ∷ bs) a ≡ true
    → (nodes a).next ≡ code
    → on (b ∷ bs) n ≡ false
    → (nodes n).next ≡ code
    → n ≢ code
    → IsList code nodes b bs
    → IsList code (assign nodes a (record (nodes a) { next = n })) b (bs ++ n ∷ [])
unfolding on assign
IsList-append code nodes a n b [] h last out fresh ne c = (ground arith, ne, ground arith)
IsList-append code nodes a n b (d ∷ ds) h last out fresh ne c =
    let not_first : a ≢ b = λ e. c.1 (sym (ap (λ x. (nodes x).next) e ∙ c.0) ∙ last) in
    (
      ground (arith, c.0, not_first),
      c.1,
      IsList-append code nodes a n d ds (ground (arith, not_first)) last (ground arith) fresh ne
          c.2,
    )

pub on-append : (bs : List ℕ) (n a : ℕ) → on (bs ++ n ∷ []) a ≡ (if a == n then true else on bs a)
unfolding on
on-append [] n a = refl
on-append (b ∷ bs) n a = ground (arith, on-append bs n a)

pub IsDistinct-append :
    (bs : List ℕ) (n : ℕ) → on bs n ≡ false → IsDistinct bs → IsDistinct (bs ++ n ∷ [])
unfolding on
IsDistinct-append [] n out d = (refl, tt)
IsDistinct-append (b ∷ bs) n out d =
    (ground (arith, on-append bs n b, d.0), IsDistinct-append bs n (ground arith) d.1)
