-- ===== src/LoginServer/Characters.antt =====
-- The map of characters over sequences of calls of the server.
use login_server_chat.Prelude.{
  ℕ, ◌+◌, ◌==◌, Bool-cases, ==_iff, inl, inr, List, [], ◌∷◌, length, none, some, ◌≡◌, refl, ◌∙◌,
  sym, subst, arith,
}
use login_server_chat.LoginServer.{Character, LoginServer, find, erase, write_character}

-- A character of the session `k`, with its key array.
abbrev pub IsOf : ℕ → Character → Type 0
IsOf k c = (c.session_id ≡ k) × (length c.session_key ≡ 65)

-- Each session has one entry, and the entry is its character.
abbrev pub AreOwn : List (ℕ × Character) → Type 0
AreOwn [] = Unit {0}
AreOwn ((k, c) ∷ rest) = IsOf k c × (find rest k ≡ none) × AreOwn rest

-- The characters taken from the pool are those in the map.
pub record OwnsCharacters (s : LoginServer) : Type 0 where
  pub own : AreOwn s.character_map
  pub used : s.in_use ≡ length s.character_map

find-erase_ne :
    (entries : List (ℕ × Character)) (j k : ℕ)
    → find entries j ≡ none
    → find (erase entries k) j ≡ none
unfolding find erase
find-erase_ne [] j k e = e
find-erase_ne ((i, c) ∷ rest) j k e = ground (arith, find-erase_ne rest j k)

pub erase-AreOwn :
    (entries : List (ℕ × Character)) (k : ℕ) → AreOwn entries → AreOwn (erase entries k)
unfolding erase
erase-AreOwn [] k own = tt
erase-AreOwn ((i, c) ∷ rest) k own = elim (Bool-cases (i == k)) [
  | inl same ↦ rw same own.2
  | inr other ↦ rw other (own.0, find-erase_ne rest i k own.1, erase-AreOwn rest k own.2)
]

pub length-erase :
    (entries : List (ℕ × Character)) (k : ℕ) (c : Character)
    → find entries k ≡ some c
    → length (erase entries k) + 1 ≡ length entries
unfolding find erase
length-erase [] k c e = ground arith
length-erase ((i, d) ∷ rest) k c e = ground (arith, length-erase rest k c)

-- After a session has left, it has no character.
pub find-erase :
    (entries : List (ℕ × Character)) (k : ℕ) → AreOwn entries → find (erase entries k) k ≡ none
unfolding find erase
find-erase [] k own = refl
find-erase ((i, c) ∷ rest) k own = elim (Bool-cases (i == k)) [
  | inl same ↦ rw same (subst (λ j. find rest j ≡ none) ((==_iff i k).0 same) own.1)
  | inr other ↦ rw (other, other) (find-erase rest k own.2)
]

find-write_ne :
    (entries : List (ℕ × Character)) (j k : ℕ) (c : Character)
    → find entries j ≡ none
    → find (write_character entries k c) j ≡ none
unfolding find write_character
find-write_ne [] j k c e = e
find-write_ne ((i, d) ∷ rest) j k c e = ground (arith, find-write_ne rest j k c)

pub length-write_character :
    (entries : List (ℕ × Character)) (k : ℕ) (c : Character)
    → length (write_character entries k c) ≡ length entries
unfolding write_character
length-write_character [] k c = refl
length-write_character ((i, d) ∷ rest) k c = ground (arith, length-write_character rest k c)

pub write-AreOwn :
    (entries : List (ℕ × Character)) (k : ℕ) (c : Character)
    → IsOf k c
    → AreOwn entries
    → AreOwn (write_character entries k c)
unfolding write_character
write-AreOwn [] k c of own = tt
write-AreOwn ((i, d) ∷ rest) k c of own = elim (Bool-cases (i == k)) [
  | inl same ↦ rw same ((of.0 ∙ sym ((==_iff i k).0 same), of.1), own.1, own.2)
  | inr other ↦ rw other (own.0, find-write_ne rest i k c own.1, write-AreOwn rest k c of own.2)
]

pub find-IsOf :
    (entries : List (ℕ × Character)) (k : ℕ) (c : Character)
    → AreOwn entries
    → find entries k ≡ some c
    → IsOf k c
unfolding find
find-IsOf [] k c own e = ground arith
find-IsOf ((i, d) ∷ rest) k c own e = ground (arith, find-IsOf rest k c)
