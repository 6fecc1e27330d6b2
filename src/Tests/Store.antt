-- ===== src/Tests/Store.antt =====
-- Examples for the shared objects.
use csfassignment.Base.{
  ℕ, ◌≡◌, ◌↔◌, refl, true, [], ◌∷◌, none, some, codes, All, if◌then◌else◌, ◌==◌, arith,
}
use csfassignment.Message.{message}
use csfassignment.Heap.{Store, Room, new_user, empty_store}
use csfassignment.Room.{has_member, broadcast_message}
use csfassignment.Room.Broadcast.{delivered, broadcast_message_lem}
use csfassignment.Server.{is_valid_room_name, find_or_create_room}
use csfassignment.Server.Rooms.{IsAlnum, is_valid_room_name_iff}
use csfassignment.Server.Program.{finds_room, effect}
use csfassignment.Server.System.Rounds.{deliver_all, broadcast_halfway}
use csfassignment.Server.Invariant.{Inv, empty_store-Inv, effect-Inv}

-- Two users, of which both are in the room at address 2.
abbrev pub tea : Room
tea = record { room_name = codes "tea"; members = 0 ∷ 1 ∷ [] }

abbrev pub two_users : Store
two_users = record {
  room_map = (codes "tea", 2) ∷ [];
  rooms = λ a. if a == 2 then some tea else none;
  users = λ a.
      if a == 0
      then some (new_user (codes "ann"))
      else if a == 1
      then some (new_user (codes "bob"))
      else none;
  next = 3;
}

broadcast_message_lem_example :
    let s' = broadcast_message 2 (codes "ann") (codes "hi") two_users in
    ((a : ℕ)
      → s'.users a ≡ (
          if has_member a tea.members
          then delivered
              (codes "ann")
              (message (codes "delivery") (codes "tea:ann:hi"))
              (two_users.users a)
          else two_users.users a))
    × (s'.rooms ≡ two_users.rooms)
    × (s'.room_map ≡ two_users.room_map)
broadcast_message_lem_example =
    broadcast_message_lem 2 (codes "ann") (codes "hi") two_users tea refl
      ((omega arith, tt), (tt, tt))

is_valid_room_name_iff_example :
    (is_valid_room_name (codes "tea") ≡ true) ↔ All IsAlnum (codes "tea")
is_valid_room_name_iff_example = is_valid_room_name_iff (codes "tea")

-- A store with a room.
abbrev roomy : Store
roomy = (find_or_create_room (codes "tea") empty_store).1

roomy-Inv : Inv roomy
unfolding find_or_create_room effect
roomy-Inv = effect-Inv none (finds_room (codes "tea")) empty_store empty_store-Inv tt

-- A broadcast of ann's that has been to ann and not yet to bob.
broadcast_halfway_example :
    let s' = deliver_all 2 (codes "ann") (codes "hi") (0 ∷ []) two_users in
    ((a : ℕ)
      → s'.users a ≡ (
          if has_member a (0 ∷ [])
          then delivered
              (codes "ann")
              (message (codes "delivery") (codes "tea:ann:hi"))
              (two_users.users a)
          else two_users.users a))
    × (s'.rooms ≡ two_users.rooms)
    × (deliver_all 2 (codes "ann") (codes "hi") (1 ∷ []) s'
        ≡ broadcast_message 2 (codes "ann") (codes "hi") two_users)
broadcast_halfway_example =
    broadcast_halfway 2 (codes "ann") (codes "hi") two_users tea (0 ∷ []) (1 ∷ []) refl
      ((omega arith, tt), (tt, tt)) refl
