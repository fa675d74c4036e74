-- ===== src/NetPacket/References.antt =====
-- The reference count of a packet: `Alloc`, `AddRefCount` and `Free`.
use login_server_chat.Prelude.{
  ℕ, zero, suc, ◌+◌, ◌-◌, ◌%◌, ◌^◌, ◌<◌, Bool, true, false, List, [], ◌∷◌, ◌++◌, ◌≡◌, refl, ap, ◌∙◌,
  arith, Bool-cases, inl, inr,
}
use login_server_chat.NetPacket.{
  NetPacket, clear, packet_alloc, packet_free, add_ref_count, set_net_header, encode,
}

-- `Free`, so many times: whether each call gave the packet to the pool, and the packet.
pub free_times : ℕ → NetPacket → List Bool × NetPacket
free_times zero p = ([], p)
free_times (suc n) p =
    let (returned, p') = packet_free p in
    let (rest, p'') = free_times n p' in (returned ∷ rest, p'')

pub share_times : ℕ → NetPacket → NetPacket
share_times zero p = p
share_times (suc n) p = share_times n (add_ref_count p)

abbrev pub refusals : ℕ → List Bool
refusals zero = []
refusals (suc n) = false ∷ refusals n

share_times_lem :
    (n : ℕ) (p : NetPacket)
    → p.ref_count + n < 2 ^ 32
    → share_times n p ≡ record p { ref_count = p.ref_count + n }
unfolding share_times add_ref_count
share_times_lem zero p lt =
    ap (λ n. record p { ref_count = n }) {x = p.ref_count} {y = p.ref_count + 0} (omega arith)
share_times_lem (suc n) p lt =
    share_times_lem n (add_ref_count p) (omega arith)
    ∙ ap (λ k. record p { ref_count = k }) {x = (p.ref_count + 1) % 2 ^ 32 + n}
        {y = p.ref_count + suc n} (omega arith)

free_last :
    (p : NetPacket) → p.ref_count ≡ 1 → packet_free p ≡ (true, clear (record p { ref_count = 0 }))
unfolding packet_free clear
free_last p e = rw e refl

pub free_shared :
    (n : ℕ) (p : NetPacket)
    → n < 2 ^ 32 - 2
    → p.ref_count ≡ suc (suc n)
    → packet_free p ≡ (false, record p { ref_count = suc n })
unfolding packet_free
free_shared n p lt e = rw e (ground arith)

free_times_lem :
    (n : ℕ) (p : NetPacket)
    → n < 2 ^ 32 - 1
    → p.ref_count ≡ suc n
    → free_times (suc n) p ≡ (refusals n ++ true ∷ [], clear (record p { ref_count = 0 }))
unfolding free_times
free_times_lem zero p lt e = rw (free_last p e) refl
free_times_lem (suc n) p lt e =
    let ih = free_times_lem n (record p { ref_count = suc n }) (omega arith) refl in
    rw (free_shared n p (omega arith) e) (ap (λ (r : List Bool × NetPacket). (false ∷ r.0, r.1)) ih)

-- A packet from the pool that is allocated, and then shared `n` times, goes back to the pool with the
-- last of `n + 1` calls of `Free` and with no earlier one, and is then clear, with no reference.
pub free_times-share_times :
    (n : ℕ) (p : NetPacket)
    → n < 2 ^ 32 - 1
    → p.ref_count ≡ 0
    → free_times (suc n) (share_times n (packet_alloc p))
      ≡ (refusals n ++ true ∷ [], clear (record p { ref_count = 0 }))
unfolding packet_alloc
free_times-share_times n p lt e = rw (share_times_lem n (packet_alloc p) small) (
    free_times_lem n (record (packet_alloc p) { ref_count = (packet_alloc p).ref_count + n }) lt
      one)
  where
    one : (packet_alloc p).ref_count + n ≡ suc n
    one = rw e (omega arith)

    small : (packet_alloc p).ref_count + n < 2 ^ 32
    small = rw e (omega arith)

-- `Encode` leaves the count alone.
pub encode-ref_count : (rand : ℕ) (p : NetPacket) → (encode rand p).1.ref_count ≡ p.ref_count
unfolding encode set_net_header
encode-ref_count rand p = elim (Bool-cases p.is_encode) [
  | inl encoded ↦ rw encoded refl
  | inr fresh ↦ rw fresh refl
]
