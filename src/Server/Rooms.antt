-- ===== src/Server/Rooms.antt =====
-- `isValidRoomName` and `find_or_create_room` of server.cpp.
use csfassignment.Base.{
  ℕ, ◌≤◌, ◌≡◌, ◌≢◌, ◌⊎◌, ◌↔◌, refl, inl, inr, true, [], ◌∷◌, Bytes, All, Bool-cases, Option-cases,
  arith,
}
use csfassignment.Text.Find.{str_eq_refl, str_eq_sound}
use csfassignment.Heap.{Store, lookup}
use csfassignment.Server.{is_alnum, all_alnum, is_valid_room_name, find_or_create_room}

-- A digit or a letter.
abbrev pub IsAlnum : ℕ → Type 0
IsAlnum c = ((b'0' ≤ c) × (c ≤ b'9')) ⊎ ((b'A' ≤ c) × (c ≤ b'Z')) ⊎ ((b'a' ≤ c) × (c ≤ b'z'))

is_alnum_iff : (c : ℕ) → (is_alnum c ≡ true) ↔ IsAlnum c
unfolding is_alnum
is_alnum_iff c = ground arith

all_alnum_sound : (s : Bytes) → all_alnum s ≡ true → All IsAlnum s
unfolding all_alnum
all_alnum_sound [] h = tt
all_alnum_sound (c ∷ s) h = elim (Bool-cases (is_alnum c)) [
  | inl e ↦ ((is_alnum_iff c).0 e, all_alnum_sound s (ground arith))
  | inr e ↦ ground arith
]

all_alnum_complete : (s : Bytes) → All IsAlnum s → all_alnum s ≡ true
unfolding all_alnum
all_alnum_complete [] h = refl
all_alnum_complete (c ∷ s) h = rw ((is_alnum_iff c).1 h.0) (all_alnum_complete s h.1)

-- A room name is accepted exactly if it is of letters and digits; the empty name is accepted too,
-- since a size is never below 0.
pub is_valid_room_name_iff : (s : Bytes) → (is_valid_room_name s ≡ true) ↔ All IsAlnum s
unfolding is_valid_room_name
is_valid_room_name_iff s =
    (λ h. all_alnum_sound s (ground arith), λ h. ground (arith, all_alnum_complete s h))

-- A second request for a name gives the same room and changes nothing.
pub find_or_create_room_twice :
    (name : Bytes) (s : Store)
    → let (r, s') = find_or_create_room name s in find_or_create_room name s' ≡ (r, s')
unfolding find_or_create_room
find_or_create_room_twice name s = elim (Option-cases (lookup name s.room_map)) [
  | inr (r, e) ↦ ground arith
  | inl e ↦ rw (find_or_create_room, e) (ground (arith, str_eq_refl name))
]

-- Two names that differ are looked up apart: making a room for one leaves what is found for the
-- other as it is.
pub lookup-find_or_create_room :
    (name other : Bytes) (s : Store)
    → name ≢ other
    → lookup other (find_or_create_room name s).1.room_map ≡ lookup other s.room_map
unfolding find_or_create_room
lookup-find_or_create_room name other s h = ground (arith, str_eq_sound other name)
