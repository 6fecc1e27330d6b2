-- ===== src/Server.antt =====
-- server.h and server.cpp: the room map, the names of rooms, and the client threads.
pub mod Rooms
pub mod Program
pub mod Chat
pub mod Invariant
pub mod Effects
pub mod Users
pub mod Places
pub mod Deeds
pub mod Membership
pub mod Replies
pub mod Fuel
pub mod Ends
pub mod Forwarding
pub mod Listener
pub mod System
pub mod Service
use csfassignment.Base.{
  ℕ, ◌+◌, Bool, true, false, not, ◌&&◌, ◌||◌, [], ◌∷◌, Option, none, some, Bytes, length, ltb, leb,
  if◌then◌else◌,
}
use csfassignment.Heap.{Store, put, new_room, lookup}

-- `isalnum` in the C locale.
unfoldable pub is_alnum : ℕ → Bool
is_alnum c = (leb b'0' c && leb c b'9') || (leb b'A' c && leb c b'Z') || (leb b'a' c && leb c b'z')

-- The loop of `isValidRoomName`.
unfoldable pub all_alnum : Bytes → Bool
unfolding is_alnum
all_alnum [] = true
all_alnum (c ∷ s) = if not (is_alnum c) then false else all_alnum s

unfoldable pub is_valid_room_name : Bytes → Bool
unfolding all_alnum
is_valid_room_name name = if ltb (length name) 0 then false else all_alnum name

-- `find_or_create_room`, under the server's lock from its first line to its last.
unfoldable pub find_or_create_room : Bytes → Store → ℕ × Store
unfolding lookup
find_or_create_room name s = elim (lookup name s.room_map) [
  | some r ↦ (r, s)
  | none ↦ (
    s.next,
    record s {
      room_map = (name, s.next) ∷ s.room_map;
      rooms = put s.next (new_room name) s.rooms;
      next = s.next + 1;
    },
  )
]
