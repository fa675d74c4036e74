-- ===== src/LockFreeStack/Pops.antt =====
-- The test and the exchange of `Pop` in the contract.
use login_server_chat.Prelude.{
  assign, ℕ, ◌+◌, ◌%◌, ◌^◌, ◌<◌, ◌==◌, Bool-cases, ==_iff, List, [], ◌∷◌, none, some, ◌≡◌, ◌≢◌, inl,
  inr, refl, sym, subst, ap, ◌∙◌, arith,
}
use login_server_chat.LockFreeStack.{
  dummy_node, idle, popping, saw_next, took, Stack, popped, go, exchange_uniq_top, finish_pop,
}
use login_server_chat.LockFreeStack.Spec.{Spec, does_pop, does_return, done, first, pop_count}
use login_server_chat.LockFreeStack.Invariant.{owns, IsSound, Inv}
use login_server_chat.LockFreeStack.Preserve.{go-Inv}
use login_server_chat.LockFreeStack.Takes.{pop-Inv}
use login_server_chat.LockFreeStack.Simulate.{
  data_of, pending, Refines, Simulates, results_set, go-Simulates,
}

-- The exchange succeeds with the node that is behind the top, since no pop came between.
pop-Simulates :
    {s : Stack} {p : Spec} (bs : List ℕ) (i uniq_idx top next_top : ℕ)
    → s.threads i ≡ saw_next uniq_idx top next_top
    → next_top ≢ 0
    → s.uniq_idx ≡ uniq_idx
    → s.top ≡ top
    → s.uniq_idx + 1 < 2 ^ 64
    → Refines s bs p
    → Simulates s p (popped i (s.nodes top).data_ ∷ []) (record s {
      top = next_top;
      uniq_idx = (uniq_idx + 1) % 2 ^ 64;
      threads = assign s.threads i (took top);
    })
unfolding pending
pop-Simulates {s} {p} [] i uniq_idx top next_top at_ pos same_idx same_top lt r =
    let h = subst (IsSound s.nodes s.uniq_idx []) at_ (r.inv.sound i) in
    absurd (pos (h.4 (sym same_top ∙ r.inv.chain)))
pop-Simulates {s} {p} (b ∷ bs) i uniq_idx top next_top at_ pos same_idx same_top lt r =
    let h = subst (IsSound s.nodes s.uniq_idx (b ∷ bs)) at_ (r.inv.sound i) in
    let e : b ≡ top = sym r.inv.chain.0 ∙ same_top in
    let next_eq : (s.nodes b).next ≡ next_top = ap (λ a. (s.nodes a).next) e ∙ h.2 (sym same_idx) in
    let idx_eq : s.uniq_idx + 1 ≡ (uniq_idx + 1) % 2 ^ 64 = omega (arith, lt, same_idx) in
    let popped_ : Inv
        (record s {
          top = next_top;
          uniq_idx = (uniq_idx + 1) % 2 ^ 64;
          threads = assign s.threads i (took top);
        })
        bs =
      subst
        (λ t.
          Inv
            (record s {
              top = next_top;
              uniq_idx = (uniq_idx + 1) % 2 ^ 64;
              threads = assign s.threads i (took t);
            })
            bs)
        e
        (subst
          (λ n.
            Inv
              (record s {
                top = n;
                uniq_idx = (uniq_idx + 1) % 2 ^ 64;
                threads = assign s.threads i (took b);
              })
              bs)
          next_eq
          (subst
            (λ u.
              Inv
                (record s {
                  top = (s.nodes b).next;
                  uniq_idx = u;
                  threads = assign s.threads i (took b);
                })
                bs)
            idx_eq (pop-Inv i r.inv))) in
    (
      bs,
      record p {
        contents = data_of s.nodes bs;
        result = assign p.result i (some (some (s.nodes top).data_));
      },
      first
          (does_pop p i (s.nodes top).data_ (data_of s.nodes bs)
            (r.contents ∙ ap (λ a. (s.nodes a).data_ ∷ data_of s.nodes bs) e))
          (done _),
      record {
        inv = popped_;
        contents = refl;
        results =
            results_set s.nodes s.threads p.result i (took top) (some (some (s.nodes top).data_))
              (λ j ne. r.results j) refl;
      },
      sym idx_eq,
    )

pub finish_pop-Simulates :
    {s : Stack} {bs : List ℕ} {p : Spec} (i uniq_idx top next_top : ℕ)
    → s.threads i ≡ saw_next uniq_idx top next_top
    → Refines s bs p
    → s.uniq_idx + pop_count (finish_pop s i uniq_idx top next_top).1 < 2 ^ 64
    → Simulates s p
        (finish_pop s i uniq_idx top next_top).1
        (finish_pop s i uniq_idx top next_top).0
unfolding finish_pop exchange_uniq_top owns pending go
finish_pop-Simulates {s} {bs} {p} i uniq_idx top next_top at_ r =
    let h = subst (IsSound s.nodes s.uniq_idx bs) at_ (r.inv.sound i) in
    elim (Bool-cases (next_top == 0)) [
      | inl null ↦
          let e : top ≡ dummy_node = h.3 ((==_iff next_top 0).0 null) in
          rw null (λ lt. (
            bs,
            record p { result = assign p.result i none },
            first (does_return p i none (r.results i ∙ ap (pending s.nodes) at_ ∙ rw e refl))
                (done _),
            record {
              inv = go-Inv i idle (λ a o. ground arith) tt r.inv;
              contents = r.contents;
              results =
                  results_set s.nodes s.threads p.result i idle none (λ j ne. r.results j) refl;
            },
            omega arith,
          ))
      | inr there ↦
          let pos : next_top ≢ 0 = λ e. ground arith in
          let not_bottom : top ≢ dummy_node = λ e. pos (h.4 e) in
          let nothing : pending s.nodes (s.threads i) ≡ none =
            rw at_ (ground (arith, not_bottom)) in
          elim (Bool-cases (s.uniq_idx == uniq_idx)) [
            | inl same_idx ↦ elim (Bool-cases (s.top == top)) [
              | inl same_top ↦
                  rw (there, same_idx, same_top)
                    (λ lt.
                      pop-Simulates bs i uniq_idx top next_top at_ pos
                        ((==_iff s.uniq_idx uniq_idx).0 same_idx) ((==_iff s.top top).0 same_top) lt
                        r)
              | inr other ↦
                  rw (there, same_idx, other)
                    (λ lt. go-Simulates i popping (λ a o. ground arith) tt nothing r)
            ]
            | inr other ↦
                rw (there, other) (λ lt. go-Simulates i popping (λ a o. ground arith) tt nothing r)
          ]
    ]
