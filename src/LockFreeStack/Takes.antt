-- ===== src/LockFreeStack/Takes.antt =====
-- The exchanges of `Push` and `Pop`, and the end of `Pop`, against the invariant.
use login_server_chat.Prelude.{
  assign, assign_there, ℕ, ◌+◌, ◌==◌, true, false, Bool-cases, ==_iff, List, ◌∷◌, ◌≡◌, ◌≢◌, inl,
  inr, refl, sym, subst, ◌∙◌, arith,
}
use login_server_chat.LockFreeStack.{idle, took, Stack, give_back}
use login_server_chat.LockFreeStack.Invariant.{IsChain, has, owns, IsOwned, Inv, once_go}
use login_server_chat.LockFreeStack.Preserve.{IsSound-go, IsOwned-go, IsSound-push, IsSound-pop}
use login_server_chat.LockFreeStack.Moves.{owns_there}

-- A successful exchange of `Push`.
pub push-Inv :
    {s : Stack} {bs : List ℕ} (i n : ℕ)
    → owns (s.threads i) n ≡ true
    → (s.nodes n).next ≡ s.top
    → Inv s bs
    → Inv (record s { top = n; threads = assign s.threads i idle }) (n ∷ bs)
unfolding has owns
push-Inv {s} {bs} i n own next_ v =
    let w = v.owned i n own in
    record {
      chain = (refl, subst (λ a. IsChain s.nodes a bs) (sym next_) v.chain);
      distinct = (w.apart, v.distinct);
      bottom = v.bottom;
      used = λ a h. elim (Bool-cases (a == n)) [
        | inl same ↦ subst (λ b. s.in_use b ≡ true) (sym ((==_iff a n).0 same)) w.used
        | inr other ↦ v.used a (ground arith)
      ];
      positive = λ a h. elim (Bool-cases (a == n)) [
        | inl same ↦ subst (λ b. b ≢ 0) (sym ((==_iff a n).0 same)) w.positive
        | inr other ↦ v.positive a (ground arith)
      ];
      owned =
          IsOwned-go s.in_use (n ∷ bs) s.threads i idle
            (λ j a ne o. record {
              used = (v.owned j a o).used;
              apart = elim (Bool-cases (a == n)) [
                | inl same ↦
                    ground (arith, sym o ∙ owns_there i n j a v own ne ((==_iff a n).0 same))
                | inr other ↦ rw other (v.owned j a o).apart
              ];
              positive = (v.owned j a o).positive;
            })
            (λ a o. ground arith);
      once = once_go s.threads i idle (λ j a ne o. ground arith) v.once;
      sound =
          IsSound-go s.nodes s.uniq_idx (n ∷ bs) s.threads i idle
            (λ j ne. IsSound-push s.nodes s.uniq_idx bs n (s.threads j) (v.sound j)) tt;
    }

-- A successful exchange of `Pop`.
pub pop-Inv :
    {s : Stack} {b : ℕ} {bs : List ℕ} (i : ℕ)
    → Inv s (b ∷ bs)
    → Inv
        (record s {
          top = (s.nodes b).next;
          uniq_idx = s.uniq_idx + 1;
          threads = assign s.threads i (took b);
        })
        bs
unfolding has owns
pop-Inv {s} {b} {bs} i v = record {
  chain = v.chain.1;
  distinct = v.distinct.1;
  bottom = v.bottom;
  used = λ a h. v.used a (ground arith);
  positive = λ a h. v.positive a (ground arith);
  owned =
      IsOwned-go s.in_use bs s.threads i (took b)
        (λ j a ne o. record {
          used = (v.owned j a o).used;
          apart = ground (arith, (v.owned j a o).apart);
          positive = (v.owned j a o).positive;
        })
        (λ a o. subst (IsOwned s.in_use bs) (sym ((==_iff a b).0 o)) (record {
          used = v.used b (ground arith);
          apart = v.distinct.0;
          positive = v.positive b (ground arith);
        }));
  once =
      once_go s.threads i (took b)
        (λ j a ne o. elim (Bool-cases (owns (s.threads j) a)) [
          | inl owned ↦ ground (arith, (v.owned j a owned).apart)
          | inr free ↦ free
        ])
        v.once;
  sound =
      IsSound-go s.nodes (s.uniq_idx + 1) bs s.threads i (took b)
        (λ j ne. IsSound-pop s.nodes s.uniq_idx (b ∷ bs) bs (s.threads j) (v.sound j)) tt;
}

pub give_back-Inv :
    {s : Stack} {bs : List ℕ} (i n : ℕ)
    → owns (s.threads i) n ≡ true
    → Inv s bs
    → Inv (give_back s i n).0 bs
unfolding give_back owns
give_back-Inv {s} {bs} i n own v =
    let w = v.owned i n own in
    record {
      chain = v.chain;
      distinct = v.distinct;
      bottom = v.bottom;
      used = λ a h.
          assign_there s.in_use n false a
            (λ e. ground (arith, sym h ∙ subst (λ c. has bs c ≡ false) (sym e) w.apart))
          ∙ v.used a h;
      positive = v.positive;
      owned =
          IsOwned-go (assign s.in_use n false) bs s.threads i idle
            (λ j a ne o. record {
              used =
                  assign_there s.in_use n false a
                    (λ e. ground (arith, sym o ∙ owns_there i n j a v own ne e))
                  ∙ (v.owned j a o).used;
              apart = (v.owned j a o).apart;
              positive = (v.owned j a o).positive;
            })
            (λ a o. ground arith);
      once = once_go s.threads i idle (λ j a ne o. ground arith) v.once;
      sound = IsSound-go s.nodes s.uniq_idx bs s.threads i idle (λ j ne. v.sound j) tt;
    }
