-- ===== src/NetPacket/Values/Stream.antt =====
-- Sequences of `<<` and of `>>`.
use native.Mathlib.Nat.{pow-suc}
use login_server_chat.Prelude.{
  ℕ, zero, suc, ◌+◌, ◌-◌, ◌/◌, ◌^◌, ◌<◌, ◌≤◌, min, true, List, [], ◌∷◌, ◌++◌, length, take, drop,
  length-append, take-append, drop-append, drop-length, take-length, append-nil, append_assoc, ◌≡◌,
  refl, ap, ap₂, ◌∙◌, sym, arith, length-read_at, map,
}
use login_server_chat.NetPacket.{NetPacket, get_payload_size, get_data, set_data}
use login_server_chat.NetPacket.Cursors.{IsValid, unread, set_data-unread, get_data-unread}
use login_server_chat.NetPacket.Values.{
  ValueType, size_of, le_bytes, of_le_bytes, takes_reference, shift_in, shift_out,
}

pub shift_in_all : NetPacket → List (ValueType × ℕ) → NetPacket
shift_in_all p [] = p
shift_in_all p ((t, val) ∷ fields) = shift_in_all (shift_in p t val) fields

-- `old i` is what the i-th variable held.
pub shift_out_all : NetPacket → List ValueType → (ℕ → ℕ) → List ℕ × NetPacket
shift_out_all p [] old = ([], p)
shift_out_all p (t ∷ ts) old =
    let (val, p') = shift_out p t (old 0) in
    let (vals, p'') = shift_out_all p' ts (λ i. old (suc i)) in (val ∷ vals, p'')

unfoldable pub bytes_of : List (ValueType × ℕ) → List ℕ
unfolding size_of le_bytes
bytes_of [] = []
bytes_of ((t, val) ∷ fields) = le_bytes (size_of t) val ++ bytes_of fields

-- Each value fits its type, and no type is `long`.
abbrev pub Fit : List (ValueType × ℕ) → Type 0
Fit [] = Unit {0}
Fit ((t, val) ∷ fields) = (val < 256 ^ size_of t) × (takes_reference t ≡ true) × Fit fields

pub length-le_bytes : (w v : ℕ) → length (le_bytes w v) ≡ w
unfolding le_bytes
length-le_bytes zero v = refl
length-le_bytes (suc w) v = ap suc (length-le_bytes w (v / 256))

pub of_le_bytes-le_bytes : (w v : ℕ) → v < 256 ^ w → of_le_bytes (le_bytes w v) ≡ v
unfolding le_bytes of_le_bytes
of_le_bytes-le_bytes zero v h = omega arith
of_le_bytes-le_bytes (suc w) v h =
    omega (arith, of_le_bytes-le_bytes w (v / 256) (omega (arith, pow-suc 256 w)))

-- `<<` appends the memory of the value where there is room for it.
pub shift_in-unread :
    {p : NetPacket} (t : ValueType) (val : ℕ)
    → IsValid p
    → p.write_pos + size_of t ≤ p.buffer_size
    → let p' = shift_in p t val in
      IsValid p'
      × (unread p' ≡ unread p ++ le_bytes (size_of t) val)
      × (p'.write_pos ≡ p.write_pos + size_of t)
      × (p'.buffer_size ≡ p.buffer_size)
unfolding shift_in set_data
shift_in-unread {p} t val v room = (
  s.1,
  s.2
      ∙ ap (λ l. unread p ++ l)
          (take-length n (le_bytes (size_of t) val) (omega (arith, len, s.0))),
  omega (arith, s.0),
  refl,
)
  where
    n : ℕ
    n = (set_data p (le_bytes (size_of t) val) (size_of t)).0

    len : length (le_bytes (size_of t) val) ≡ size_of t
    len = length-le_bytes (size_of t) val

    s :
        (n ≡ min (size_of t) (p.buffer_size - p.write_pos))
        × IsValid (set_data p (le_bytes (size_of t) val) (size_of t)).1
        × (unread (set_data p (le_bytes (size_of t) val) (size_of t)).1
            ≡ unread p ++ take n (le_bytes (size_of t) val))
    s = set_data-unread (le_bytes (size_of t) val) (size_of t) v (omega (arith, len))

-- `>>` of a packet whose unread bytes start with the memory of a value gives that value.
pub shift_out-unread :
    {p : NetPacket} (t : ValueType) (val old : ℕ) (rest : List ℕ)
    → IsValid p
    → unread p ≡ le_bytes (size_of t) val ++ rest
    → takes_reference t ≡ true
    → val < 256 ^ size_of t
    → let (val', p') = shift_out p t old in (val' ≡ val) × IsValid p' × (unread p' ≡ rest)
unfolding shift_out get_payload_size
shift_out-unread {p} t val old rest v e by_ref fits = (
  rw (by_ref, taken)
      (ap of_le_bytes (
          ap (λ l. le_bytes (size_of t) val ++ l)
            (drop-length _ (le_bytes (size_of t) old)
              (omega (arith, n_eq, length-le_bytes (size_of t) old)))
          ∙ append-nil (le_bytes (size_of t) val))
        ∙ of_le_bytes-le_bytes (size_of t) val fits),
  g.2,
  sym (drop-append out (unread p') (size_of t) (g.1 ∙ n_eq))
      ∙ ap (drop (size_of t)) (g.3 ∙ e)
      ∙ drop-append (le_bytes (size_of t) val) rest (size_of t) (length-le_bytes (size_of t) val),
)
  where
    out : List ℕ
    out = (get_data p (size_of t)).0

    p' : NetPacket
    p' = (get_data p (size_of t)).2

    g :
        ((get_data p (size_of t)).1 ≡ min (size_of t) (get_payload_size p))
        × (length out ≡ (get_data p (size_of t)).1)
        × IsValid p'
        × (out ++ unread p' ≡ unread p)
    g = get_data-unread (size_of t) v

    n_eq : (get_data p (size_of t)).1 ≡ size_of t
    n_eq = omega (
      arith,
      g.0,
      length-read_at 0 p.buffer p.read_pos (p.write_pos - p.read_pos),
      ap length e,
      length-append (le_bytes (size_of t) val) rest,
      length-le_bytes (size_of t) val,
    )

    taken : out ≡ le_bytes (size_of t) val
    taken =
        sym (take-append out (unread p') (size_of t) (g.1 ∙ n_eq))
        ∙ ap (take (size_of t)) (g.3 ∙ e)
        ∙ take-append (le_bytes (size_of t) val) rest (size_of t) (length-le_bytes (size_of t) val)

shift_in_all-unread :
    (fields : List (ValueType × ℕ)) {p : NetPacket}
    → IsValid p
    → p.write_pos + length (bytes_of fields) ≤ p.buffer_size
    → let p' = shift_in_all p fields in IsValid p' × (unread p' ≡ unread p ++ bytes_of fields)
unfolding shift_in_all bytes_of
shift_in_all-unread [] {p} v room = (v, sym (append-nil (unread p)))
shift_in_all-unread ((t, val) ∷ fields) {p} v room =
    let len = length-append (le_bytes (size_of t) val) (bytes_of fields) in
    let w = length-le_bytes (size_of t) val in
    let s = shift_in-unread t val v (omega (arith, len, w)) in
    let r = shift_in_all-unread fields s.0 (omega (arith, len, w, s.2, s.3)) in
    (
      r.0,
      r.1
          ∙ ap (λ l. l ++ bytes_of fields) s.1
          ∙ append_assoc (unread p) (le_bytes (size_of t) val) (bytes_of fields),
    )

shift_out_all-unread :
    (fields : List (ValueType × ℕ)) {p : NetPacket} (old : ℕ → ℕ)
    → IsValid p
    → unread p ≡ bytes_of fields
    → Fit fields
    → let (vals, p') = shift_out_all p (map (λ f. f.0) fields) old in
      (vals ≡ map (λ f. f.1) fields) × (unread p' ≡ [])
unfolding shift_out_all bytes_of
shift_out_all-unread [] old v e fit = (refl, e)
shift_out_all-unread ((t, val) ∷ fields) {p} old v e fit =
    let s = shift_out-unread t val (old 0) (bytes_of fields) v e fit.1 fit.0 in
    let r = shift_out_all-unread fields (λ i. old (suc i)) s.1 s.2 fit.2 in (ap₂ ◌∷◌ s.0 r.0, r.1)

-- Values written by `<<` into an empty packet with room for them are read back by `>>` at the same
-- types, in order and with nothing left, whatever the variables held; `long` is excepted.
pub shift_out_all-shift_in_all :
    (fields : List (ValueType × ℕ)) {p : NetPacket} (old : ℕ → ℕ)
    → IsValid p
    → unread p ≡ []
    → p.write_pos + length (bytes_of fields) ≤ p.buffer_size
    → Fit fields
    → let (vals, p') = shift_out_all (shift_in_all p fields) (map (λ f. f.0) fields) old in
      (vals ≡ map (λ f. f.1) fields) × (unread p' ≡ [])
shift_out_all-shift_in_all fields old v empty room fit =
    let s = shift_in_all-unread fields v room in
    shift_out_all-unread fields old s.0 (s.1 ∙ ap (λ l. l ++ bytes_of fields) empty) fit
