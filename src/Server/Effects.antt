-- ===== src/Server/Effects.antt =====
-- What each call of a client thread does to the membership of rooms.
use csfassignment.Base.{
  ℕ, ◌≤◌, ◌≡◌, refl, Bool, true, false, ◌&&◌, Option, none, some, Bytes, ◌==◌, if◌then◌else◌, inl,
  inr, Option-cases, arith,
}
use csfassignment.Heap.{Store, put, lookup}
use csfassignment.Room.{has_member, add_member_at, remove_member_at, broadcast_message}
use csfassignment.Room.Members.{has_member-add_member, has_member-remove_member}
use csfassignment.Server.{find_or_create_room}
use csfassignment.Server.Program.{
  Op, makes_user, finds_room, adds, removes, broadcasts, dequeues, effect, make_user, dequeue_at,
}
use csfassignment.Server.Invariant.{Inv}

-- The user at address `u` is a member of the room at address `r`.
abbrev pub member_of : ℕ → ℕ → Store → Bool
member_of u r s = elim (s.rooms r) [ none ↦ false | some room ↦ has_member u room.members ]

abbrev pub room_exists : ℕ → Store → Bool
room_exists r s = elim (s.rooms r) [ none ↦ false | some room ↦ true ]

pub member_of-add_member_at :
    (r u : ℕ) (s : Store) (v q : ℕ)
    → room_exists r s ≡ true
    → member_of v q (add_member_at r u s) ≡ (if (v == u) && (r == q) then true else member_of v q s)
unfolding add_member_at put
member_of-add_member_at r u s v q h = elim (Option-cases (s.rooms r)) [
  | inl e ↦ ground arith
  | inr (room, e) ↦ rw (add_member_at, e) (ground (arith, has_member-add_member u v room))
]

pub member_of-remove_member_at :
    (r u : ℕ) (s : Store) (v q : ℕ)
    → Inv s
    → member_of v q (remove_member_at r u s)
      ≡ (if (v == u) && (r == q) then false else member_of v q s)
unfolding remove_member_at put
member_of-remove_member_at r u s v q i = elim (Option-cases (s.rooms r)) [
  | inl e ↦ rw (remove_member_at, e) (ground arith)
  | inr (room, e) ↦
      rw (remove_member_at, e)
        (ground (arith, has_member-remove_member u v room (i.ascending r room e)))
]

pub member_of-find_or_create_room :
    (name : Bytes) (s : Store) (v q : ℕ)
    → Inv s
    → member_of v q (find_or_create_room name s).1 ≡ member_of v q s
unfolding find_or_create_room put has_member
member_of-find_or_create_room name s v q i = elim (Option-cases (lookup name s.room_map)) [
  | inl e ↦ rw (find_or_create_room, e) (ground (arith, i.free_rooms s.next))
  | inr (r, e) ↦ rw (find_or_create_room, e)
]

pub found_room_exists :
    (name : Bytes) (s : Store)
    → Inv s
    → let (r, s') = find_or_create_room name s in room_exists r s' ≡ true
unfolding find_or_create_room put
found_room_exists name s i = elim (Option-cases (lookup name s.room_map)) [
  | inl e ↦ rw (find_or_create_room, e) (ground arith)
  | inr (r, e) ↦
      let (room, found, _) = i.named name r e in rw (find_or_create_room, e) (ground arith)
]

-- The rooms that a broadcast, a dequeue or a new user leave as they are.
pub broadcast_rooms :
    (r : ℕ) (n t : Bytes) (s : Store)
    → ((broadcast_message r n t s).rooms ≡ s.rooms) × ((broadcast_message r n t s).next ≡ s.next)
unfolding broadcast_message
broadcast_rooms r n t s = ground arith

dequeue_rooms :
    (clock : Option ℕ) (u : ℕ) (s : Store)
    → ((dequeue_at clock u s).1.rooms ≡ s.rooms) × ((dequeue_at clock u s).1.next ≡ s.next)
unfolding dequeue_at
dequeue_rooms clock u s = ground arith

-- What a call does to a user's membership of a room.
abbrev pub membership : Op → ℕ → ℕ → Bool → Bool
membership (adds r u) v q b = if (v == u) && (r == q) then true else b
membership (removes r u) v q b = if (v == u) && (r == q) then false else b
membership o v q b = b

-- A call may enter a user into a room only if the room exists.
abbrev pub HasRoom : Op → Store → Type 0
HasRoom (adds r u) s = room_exists r s ≡ true
HasRoom o s = Unit

-- Each call changes the membership of rooms as its name says and in no other way.
pub member_of-effect :
    (clock : Option ℕ) (o : Op) (s : Store) (v q : ℕ)
    → Inv s
    → HasRoom o s
    → member_of v q (effect clock o s) ≡ membership o v q (member_of v q s)
unfolding effect make_user
member_of-effect clock (makes_user n) s v q i h = refl
member_of-effect clock (finds_room n) s v q i h = member_of-find_or_create_room n s v q i
member_of-effect clock (adds r u) s v q i h = member_of-add_member_at r u s v q h
member_of-effect clock (removes r u) s v q i h = member_of-remove_member_at r u s v q i
member_of-effect clock (broadcasts r n t) s v q i h = ground (arith, broadcast_rooms r n t s)
member_of-effect clock (dequeues u) s v q i h = ground (arith, dequeue_rooms clock u s)
member_of-effect clock o s v q i h = refl

-- No call deletes a room.
pub room_exists-effect :
    (clock : Option ℕ) (o : Op) (s : Store) (q : ℕ)
    → room_exists q s ≡ true
    → room_exists q (effect clock o s) ≡ true
unfolding effect make_user add_member_at remove_member_at find_or_create_room put
room_exists-effect clock (makes_user n) s q h = h
room_exists-effect clock (finds_room n) s q h = ground arith
room_exists-effect clock (adds r u) s q h = ground arith
room_exists-effect clock (removes r u) s q h = ground arith
room_exists-effect clock (broadcasts r n t) s q h = ground (arith, broadcast_rooms r n t s)
room_exists-effect clock (dequeues u) s q h = ground (arith, dequeue_rooms clock u s)
room_exists-effect clock o s q h = h

-- Addresses are never given out twice.
pub next-effect : (clock : Option ℕ) (o : Op) (s : Store) → s.next ≤ (effect clock o s).next
unfolding effect make_user add_member_at remove_member_at find_or_create_room
next-effect clock (makes_user n) s = ground arith
next-effect clock (finds_room n) s = ground arith
next-effect clock (adds r u) s = ground arith
next-effect clock (removes r u) s = ground arith
next-effect clock (broadcasts r n t) s = omega (arith, (broadcast_rooms r n t s).1)
next-effect clock (dequeues u) s = omega (arith, (dequeue_rooms clock u s).1)
next-effect clock o s = omega arith
