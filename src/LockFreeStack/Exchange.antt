-- ===== src/LockFreeStack/Exchange.antt =====
-- The exchange of `Push`, the read of the top and the end of `Pop` in the contract.
use login_server_chat.Prelude.{
  assign, ℕ, ◌==◌, true, false, Bool-cases, ==_iff, List, [], ◌∷◌, none, some, ◌≡◌, ◌≢◌, ◌⊎◌, inl,
  inr, refl, sym, subst, ap, ◌∙◌, arith,
}
use login_server_chat.LockFreeStack.{
  Node, dummy_node, idle, pushing, linked, saw_idx, saw_uniq_top, took, Stack, go, exchange_top,
  give_back, read_top,
}
use login_server_chat.LockFreeStack.Spec.{
  Spec, does_push, does_find_empty, does_return, done, first,
}
use login_server_chat.LockFreeStack.Invariant.{IsChain, has, owns, IsSound, Inv, chain-has}
use login_server_chat.LockFreeStack.Preserve.{go-Inv}
use login_server_chat.LockFreeStack.Moves.{has-dummy_node}
use login_server_chat.LockFreeStack.Takes.{push-Inv, give_back-Inv}
use login_server_chat.LockFreeStack.Simulate.{
  data_of, pending, Refines, Simulates, results_go, results_set, go-Simulates,
}

pub exchange_top-Simulates :
    {s : Stack} {bs : List ℕ} {p : Spec} (i n bk_top : ℕ)
    → s.threads i ≡ linked n bk_top
    → Refines s bs p
    → Simulates s p (exchange_top s i n bk_top).1 (exchange_top s i n bk_top).0
unfolding exchange_top owns pending
exchange_top-Simulates {s} {bs} {p} i n bk_top at_ r =
    let own : owns (s.threads i) n ≡ true = rw at_ (ground arith) in
    let h = subst (IsSound s.nodes s.uniq_idx bs) at_ (r.inv.sound i) in
    elim (Bool-cases (s.top == bk_top)) [
      | inl same ↦ rw same (
        n ∷ bs,
        record p { contents = (s.nodes n).data_ ∷ p.contents },
        first (does_push p i (s.nodes n).data_) (done _),
        record {
          inv = push-Inv i n own (h.1 ∙ sym ((==_iff s.top bk_top).0 same)) r.inv;
          contents = ap (λ l. (s.nodes n).data_ ∷ l) r.contents;
          results =
              results_go s.nodes s.threads p.result i idle (λ j ne. r.results j)
                (r.results i ∙ ap (pending s.nodes) at_);
        },
        omega arith,
      )
      | inr other ↦ rw other (go-Simulates i (pushing n) (λ a o. rw at_ o) tt (rw at_ refl) r)
    ]

pub empty_lem : {s : Stack} (bs : List ℕ) → Inv s bs → s.top ≡ dummy_node → bs ≡ []
unfolding has
empty_lem [] v e = refl
empty_lem (b ∷ bs) v e =
    ground
      (arith, has-dummy_node bs, subst (λ a. has bs a ≡ false) (sym v.chain.0 ∙ e) v.distinct.0)

pub next_positive :
    (nodes : ℕ → Node) (b : ℕ) (bs : List ℕ)
    → IsChain nodes (nodes b).next bs
    → ((a : ℕ) → has (b ∷ bs) a ≡ true → a ≢ 0)
    → (nodes b).next ≢ 0
unfolding has
next_positive nodes b [] c pos = ground (arith, c)
next_positive nodes b (d ∷ ds) c pos = pos (nodes b).next (ground (arith, c.0))

top-next : {s : Stack} (bs : List ℕ) → Inv s bs → (s.top ≡ dummy_node) ⊎ ((s.nodes s.top).next ≢ 0)
top-next [] v = inl v.chain
top-next {s} (b ∷ bs) v = inr (
    subst (λ a. (s.nodes a).next ≢ 0) (sym v.chain.0)
      (next_positive s.nodes b bs v.chain.1 v.positive))

pub read_top-Simulates :
    {s : Stack} {bs : List ℕ} {p : Spec} (i uniq_idx : ℕ)
    → s.threads i ≡ saw_idx uniq_idx
    → Refines s bs p
    → Simulates s p (read_top s i uniq_idx).1 (read_top s i uniq_idx).0
unfolding read_top owns pending go
read_top-Simulates {s} {bs} {p} i uniq_idx at_ r =
    let h = subst (IsSound s.nodes s.uniq_idx bs) at_ (r.inv.sound i) in
    let th = saw_uniq_top uniq_idx s.top in
    let sound : IsSound s.nodes s.uniq_idx bs th =
      (h, (λ e. chain-has s.nodes s.top bs r.inv.chain), top-next bs r.inv) in
    let g = go-Inv i th (λ a o. ground arith) sound r.inv in
    elim (Bool-cases (s.top == dummy_node)) [
      | inl same ↦
          let nil =
            r.contents
            ∙ ap (data_of s.nodes) (empty_lem bs r.inv ((==_iff s.top dummy_node).0 same)) in
          rw same (
            bs,
            record p { result = assign p.result i (some none) },
            first (does_find_empty p i nil) (done _),
            record {
              inv = g;
              contents = r.contents;
              results =
                  results_set s.nodes s.threads p.result i th (some none) (λ j ne. r.results j)
                    (rw same refl);
            },
            omega arith,
          )
      | inr other ↦
          rw other (go-Simulates i th (λ a o. ground arith) sound (rw (at_, other) refl) r)
    ]

pub give_back-Simulates :
    {s : Stack} {bs : List ℕ} {p : Spec} (i n : ℕ)
    → s.threads i ≡ took n
    → Refines s bs p
    → Simulates s p (give_back s i n).1 (give_back s i n).0
unfolding give_back owns pending
give_back-Simulates {s} {bs} {p} i n at_ r = (
  bs,
  record p { result = assign p.result i none },
  first (does_return p i (some (s.nodes n).data_) (r.results i ∙ ap (pending s.nodes) at_))
      (done _),
  record {
    inv = give_back-Inv i n (rw at_ (ground arith)) r.inv;
    contents = r.contents;
    results = results_set s.nodes s.threads p.result i idle none (λ j ne. r.results j) refl;
  },
  omega arith,
)
