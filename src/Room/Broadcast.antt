-- ===== src/Room/Broadcast.antt =====
-- `broadcast_message` of room.cpp, user by user.
use csfassignment.Base.{
  ℕ, ◌+◌, ◌≡◌, refl, List, [], ◌∷◌, ◌++◌, codes, Option, none, some, Bytes, ◌==◌, if◌then◌else◌,
  inl, inr, Bool-cases, Option-cases, arith,
}
use csfassignment.Text.{str_eq}
use csfassignment.Message.{Message, message}
use csfassignment.Queue.{enqueue}
use csfassignment.Heap.{User, Room, Objects, put_lem, Store}
use csfassignment.Room.{has_member, delivery, deliver, broadcast_loop, broadcast_message}
use csfassignment.Room.Members.{IsAscending, below_absent}

-- What becomes of a member: the message comes behind those of its queue and the semaphore counts one
-- more, unless the user has the name of the sender.
abbrev pub delivered : Bytes → Message → Option User → Option User
delivered sender m none = none
delivered sender m (some user) =
    if str_eq user.username sender
    then some user
    else some (record user {
      mqueue = record { avail = user.mqueue.avail + 1; messages = user.mqueue.messages ++ m ∷ [] };
    })

-- One round changes the object at the member's address and no other.
pub deliver_lem :
    (n sender text : Bytes) (u : ℕ) (users : Objects User) (a : ℕ)
    → deliver n sender text u users a
      ≡ (if a == u then delivered sender (delivery n sender text) (users a) else users a)
unfolding deliver enqueue
deliver_lem n sender text u users a = elim (Option-cases (users u)) [
  | inl e ↦ rw (deliver, e) (ground arith)
  | inr (user, e) ↦ elim (Bool-cases (str_eq user.username sender)) [
    | inl same ↦ rw (deliver, e) (rw same (ground arith))
    | inr other ↦ rw (deliver, e) (rw other (rw put_lem (ground arith)))
  ]
]

pub broadcast_loop_lem :
    (n sender text : Bytes) (l : List ℕ) (users : Objects User) (a : ℕ)
    → IsAscending l
    → broadcast_loop n sender text l users a
      ≡ (if has_member a l then delivered sender (delivery n sender text) (users a) else users a)
unfolding has_member
broadcast_loop_lem n sender text [] users a h = unfold broadcast_loop in refl
broadcast_loop_lem n sender text (u ∷ l) users a h =
    let step : broadcast_loop n sender text (u ∷ l) users a
        ≡ broadcast_loop n sender text l (deliver n sender text u users) a =
      unfold broadcast_loop in refl in
    ground (
      arith,
      step,
      broadcast_loop_lem n sender text l (deliver n sender text u users) a h.1,
      deliver_lem n sender text u users a,
      below_absent u l h.0,
    )

-- A broadcast to a room whose list of members ascends puts one message with the tag `delivery` and
-- with the room's name, the sender's and the text, with colons between, behind all messages in the
-- queue of each member whose name is not the sender's, and adds one to the semaphore of that queue.
-- All other users, the rooms and their names stay as they are.
pub broadcast_message_lem :
    (r : ℕ) (sender text : Bytes) (s : Store) (room : Room)
    → s.rooms r ≡ some room
    → IsAscending room.members
    → let s' = broadcast_message r sender text s in
      ((a : ℕ)
        → s'.users a ≡ (
            if has_member a room.members
            then delivered sender
                (message
                  (codes "delivery")
                  (room.room_name ++ codes ":" ++ sender ++ codes ":" ++ text))
                (s.users a)
            else s.users a))
      × (s'.rooms ≡ s.rooms)
      × (s'.room_map ≡ s.room_map)
unfolding broadcast_message
broadcast_message_lem r sender text s room e h =
    rw (broadcast_message, e)
      ((λ a. broadcast_loop_lem room.room_name sender text room.members s.users a h), refl, refl)
