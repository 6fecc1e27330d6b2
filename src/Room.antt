-- ===== src/Room.antt =====
-- room.h and room.cpp. Each operation holds the room's lock from its first line to its last, so it is
-- one function. An address with no room behind it leaves the store as it is: no caller has one.
pub mod Members
pub mod Broadcast
pub mod Sets
use csfassignment.Base.{
  ℕ, ◌+◌, Bool, true, false, not, ◌||◌, List, [], ◌∷◌, ◌++◌, Option, none, some, Bytes, codes, ltb,
  ◌==◌, if◌then◌else◌,
}
use csfassignment.Text.{str_eq}
use csfassignment.Message.{Message, message, tag_delivery}
use csfassignment.Queue.{enqueue}
use csfassignment.Heap.{User, Room, Objects, put, Store}

-- `members.find(user) != members.end()`
unfoldable pub has_member : ℕ → List ℕ → Bool
has_member u [] = false
has_member u (v ∷ l) = (u == v) || has_member u l

-- `members.insert(user)`
unfoldable pub insert : ℕ → List ℕ → List ℕ
insert u [] = u ∷ []
insert u (v ∷ l) = if ltb u v then u ∷ v ∷ l else if u == v then v ∷ l else v ∷ insert u l

-- `members.erase(user)`
unfoldable pub erase : ℕ → List ℕ → List ℕ
erase u [] = []
erase u (v ∷ l) = if u == v then l else v ∷ erase u l

-- `add_member` and `remove_member` on the room; what they print is not modelled.
unfoldable pub add_member : ℕ → Room → Room
unfolding has_member insert
add_member u r =
    if not (has_member u r.members) then record r { members = insert u r.members } else r

unfoldable pub remove_member : ℕ → Room → Room
unfolding has_member erase
remove_member u r = if has_member u r.members then record r { members = erase u r.members } else r

-- `Message(TAG_DELIVERY, room_name + ":" + sender_username + ":" + message_text)`
abbrev pub delivery : Bytes → Bytes → Bytes → Message
delivery room_name sender text =
    message tag_delivery (room_name ++ codes ":" ++ sender ++ codes ":" ++ text)

-- One round of the loop of `broadcast_message`: the member at an address.
unfoldable pub deliver : Bytes → Bytes → Bytes → ℕ → Objects User → Objects User
deliver room_name sender text u users = elim (users u) [
  | none ↦ users
  | some user ↦
      if not (str_eq user.username sender)
      then put u (record user { mqueue = enqueue (delivery room_name sender text) user.mqueue })
          users
      else users
]

-- The loop over the members, in the order of the set.
unfoldable pub broadcast_loop : Bytes → Bytes → Bytes → List ℕ → Objects User → Objects User
unfolding deliver
broadcast_loop room_name sender text [] users = users
broadcast_loop room_name sender text (u ∷ members) users =
    broadcast_loop room_name sender text members (deliver room_name sender text u users)

-- The operations on the store, by the room's address.
unfoldable pub add_member_at : ℕ → ℕ → Store → Store
unfolding add_member
add_member_at r u s = elim (s.rooms r) [
  | none ↦ s
  | some room ↦ record s { rooms = put r (add_member u room) s.rooms }
]

unfoldable pub remove_member_at : ℕ → ℕ → Store → Store
unfolding remove_member
remove_member_at r u s = elim (s.rooms r) [
  | none ↦ s
  | some room ↦ record s { rooms = put r (remove_member u room) s.rooms }
]

unfoldable pub broadcast_message : ℕ → Bytes → Bytes → Store → Store
unfolding broadcast_loop
broadcast_message r sender text s = elim (s.rooms r) [
  | none ↦ s
  | some room ↦ record s { users = broadcast_loop room.room_name sender text room.members s.users }
]

-- The parts of `broadcast_message` at a room's address, for a thread that may be interrupted while it
-- holds the lock: the members that the loop goes over, and one round of the loop.
abbrev pub members_at : ℕ → Store → List ℕ
members_at r s = elim (s.rooms r) [ none ↦ [] | some room ↦ room.members ]

unfoldable pub deliver_at : ℕ → Bytes → Bytes → ℕ → Store → Store
unfolding deliver
deliver_at r sender text u s = elim (s.rooms r) [
  | none ↦ s
  | some room ↦ record s { users = deliver room.room_name sender text u s.users }
]
